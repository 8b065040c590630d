-- ===== src/Frame.antt =====
-- kernel/fb.c: text in graphics mode, with 32 bits for a pixel, which is the mode that `fb_init` sets.
pub mod Font
pub mod Draw
pub mod Bounds
pub mod Text
pub mod Glyph
mod Tests
use strixos.Prelude.{
  ℕ, zero, suc, ◌+◌, ◌-◌, ◌*◌, ◌/◌, ◌%◌, ◌^◌, ◌==◌, ltb, leb, if◌then◌else◌, Bool, true, false, not,
  ◌&&◌, ◌||◌, Option, none, some, List, [], ◌∷◌, ◌++◌, length, get_or, drop, min,
}
use strixos.Screen.Color.{vga_pal16}
use strixos.Screen.{is_between, is_final, parse_params, extended, sgr_bright}
use strixos.Frame.Font.{font8x8_basic}
use strixos.Frame.Draw.{Geometry, fill_rows, draw_char, draw_blanks, fb_scroll}

-- The pixels, the cursor, the colours, and the escape sequence so far.
pub record Frame : Type 0 where
  pub pixels : ℕ → ℕ
  pub cx : ℕ
  pub cy : ℕ
  pub fg : ℕ
  pub bg : ℕ
  pub in_esc : Bool
  pub esc_buf : List ℕ

-- The fields of `struct strix_bootinfo`.
pub record BootInfo : Type 0 where
  pub magic : ℕ
  pub boot_mode : ℕ
  pub fb_base : ℕ
  pub fb_width : ℕ
  pub fb_height : ℕ
  pub fb_pitch : ℕ

-- `STRIX_BOOTINFO_MAGIC`
abbrev pub bootinfo_magic : ℕ
bootinfo_magic = 0x5354524958424F4F

-- `(int)` of a `uint32_t`; `none` where the result is negative.
unfoldable pub to_int : ℕ → Option ℕ
to_int n = if ltb n (2 ^ 31) then some n else none

-- The geometry for a pitch that is given as an `int`.
unfoldable pub geometry_of : BootInfo → ℕ → Geometry
geometry_of bi pitch =
    let width : ℕ = if leb 640 bi.fb_width && leb bi.fb_width 3840 then bi.fb_width else 1024 in
    let height : ℕ = if leb 480 bi.fb_height && leb bi.fb_height 2160 then bi.fb_height else 768 in
    record {
      width = width;
      height = height;
      pitch = if not (bi.fb_pitch == 0) then pitch else width;
      w = width / 8;
      h = height / 8;
    }

module _ (g : Geometry) where
  -- `fb_clear`
  unfoldable pub fb_clear : Frame → ℕ → Frame
  fb_clear f c = record f { pixels = fill_rows g f.pixels 0 0 g.width g.height c; cx = 0; cy = 0 }

  -- `fb_fill_rect`, with the rounds that its conditions leave.
  unfoldable pub fb_fill_rect : Frame → ℕ → ℕ → ℕ → ℕ → ℕ → Frame
  fb_fill_rect f x y w h c = record f {
    pixels = fill_rows g f.pixels x y (min (x + w) g.width - x) (min (y + h) g.height - y) c;
  }

  -- `fb_cx=0; fb_cy++;`, with a scroll behind the last line.
  unfoldable pub next_line : Frame → Frame
  next_line f =
      if leb g.h (f.cy + 1)
      then record f { pixels = fb_scroll g f.pixels f.bg; cx = 0; cy = g.h - 1 }
      else record f { cx = 0; cy = f.cy + 1 }

  -- The colours after one number of an escape sequence, which the numbers `ps` follow.
  unfoldable pub color_one : Bool → ℕ → List ℕ → Frame → Frame
  color_one bright v ps f =
      let base : ℕ = if bright then 8 else 0 in
      if v == 0
      then record f { fg = 0xBBBBBB; bg = 0 }
      else if is_between 30 37 v
      then record f { fg = get_or vga_pal16 (v - 30 + base) 0 }
      else if is_between 40 47 v
      then record f { bg = get_or vga_pal16 (v - 40 + base) 0 }
      else if is_between 90 97 v
      then record f { fg = get_or vga_pal16 (v - 90 + 8) 0 }
      else if is_between 100 107 v
      then record f { bg = get_or vga_pal16 (v - 100 + 8) 0 }
      else if (v == 38) && not ((extended ps).1 == 0)
      then record f { fg = (extended ps).0 }
      else if (v == 48) && not ((extended ps).1 == 0)
      then record f { bg = (extended ps).0 }
      else f

  unfoldable pub colors : ℕ → Bool → List ℕ → Frame → Frame
  colors skip bright [] f = f
  colors (suc skip) bright (v ∷ ps) f = colors skip bright ps f
  colors zero bright (v ∷ ps) f =
      colors (if (v == 38) || (v == 48) then (extended ps).1 else 0) (sgr_bright bright v) ps
        (color_one bright v ps f)

  -- The escape sequences ESC [ … c.
  unfoldable pub run_escape : Frame → ℕ → Frame
  run_escape f c =
      let params = parse_params [] (drop 1 f.esc_buf) 0 in
      if c == 75
      then record f { pixels = draw_blanks g f.pixels f.cx f.cy (g.w - f.cx) f.fg f.bg }
      else if c == 74
      then fb_clear f f.bg
      else if c == 72
      then record f { cx = 0; cy = 0 }
      else if c == 68
      then (if ltb 0 f.cx then record f { cx = f.cx - 1 } else f)
      else if c == 67
      then (if ltb f.cx (g.w - 1) then record f { cx = f.cx + 1 } else f)
      else if c == 109
      then colors 0 false (if length params == 0 then 0 ∷ [] else params) f
      else f

  unfoldable pub take_escape : Frame → ℕ → Frame
  take_escape f c =
      let f' = record f {
        esc_buf = if ltb (length f.esc_buf) 31 then f.esc_buf ++ c ∷ [] else f.esc_buf;
      } in
      let ran = if get_or f'.esc_buf 0 0 == 91 then run_escape f' c else f' in
      if is_final c then record ran { in_esc = false; esc_buf = [] } else f'

  unfoldable pub draw_plain : Frame → ℕ → Frame
  draw_plain f c =
      let f' = record f { pixels = draw_char g f.pixels f.cx f.cy c f.fg f.bg } in
      if leb g.w (f.cx + 1) then next_line f' else record f' { cx = f.cx + 1 }

  unfoldable pub go_back : Frame → Frame
  go_back f =
      if ltb 0 f.cx
      then record f { pixels = draw_char g f.pixels (f.cx - 1) f.cy 32 f.fg f.bg; cx = f.cx - 1 }
      else f

  unfoldable pub go_tab : Frame → Frame
  go_tab f =
      let col = (f.cx + 8) / 8 * 8 in if leb g.w col then next_line f else record f { cx = col }

  -- `fb_putchar`
  unfoldable pub fb_putchar : Frame → ℕ → Frame
  fb_putchar f c =
      if f.in_esc
      then take_escape f c
      else if c == 27
      then record f { in_esc = true; esc_buf = [] }
      else if c == 7
      then f
      else if c == 10
      then next_line f
      else if c == 13
      then record f { cx = 0 }
      else if c == 8
      then go_back f
      else if c == 9
      then go_tab f
      else draw_plain f c

  -- A text, one character after the other.
  unfoldable pub fb_puts : Frame → List ℕ → Frame
  fb_puts f [] = f
  fb_puts f (c ∷ cs) = fb_puts (fb_putchar f c) cs

-- What `fb_init` does: the text screen, a frame of this geometry that is all black, or a frame whose lines
-- follow each other towards smaller addresses, which the operations here do not describe.
pub data Started : Type 0 where
  text_screen : Started
  graphics : Geometry → Frame → Started
  negative_pitch : Started

-- `fb_init`
unfoldable pub fb_init : BootInfo → Frame → Started
fb_init bi f =
    if (bi.magic == bootinfo_magic) && ((bi.boot_mode == 2) && not (bi.fb_base == 0))
    then elim (to_int bi.fb_pitch) [
      | none ↦ negative_pitch
      | some pitch ↦
          let g : Geometry = geometry_of bi pitch in
          graphics g
            (record f { pixels = fill_rows g f.pixels 0 0 g.width g.height 0; cx = 0; cy = 0 })
    ]
    else text_screen
