-- ===== src/Frame/Text.antt =====
-- kernel/fb.c: every text keeps the cursor on the frame and writes nothing behind it.
use strixos.Prelude.{
  ℕ, zero, suc, ◌+◌, ◌-◌, ◌*◌, ◌/◌, ◌≤◌, ◌<◌, ◌≡◌, ◌^◌, refl, subst, ◌⊎◌, inl, inr, Bool-cases,
  ◌==◌, ltb, leb, if◌then◌else◌, if_both, Bool, true, false, not, ◌&&◌, ◌||◌, List, [], ◌∷◌, ◌++◌,
  length, get_or, arith,
}
use strixos.Screen.{extended, sgr_bright, is_final}
use strixos.Frame.Bounds.{
  IsGeometry, Kept, InFrame, fb_scroll-Kept, fill_rows-Kept, draw_char-Kept, draw_blanks-Kept,
}
use strixos.Frame.Draw.{Geometry, draw_char, draw_blanks, fill_rows, fb_scroll}
use strixos.Frame.{
  Frame, BootInfo, bootinfo_magic, to_int, geometry_of, Started, text_screen, graphics,
  negative_pitch, fb_init, fb_clear, next_line, color_one, colors, run_escape, take_escape,
  draw_plain, go_back, go_tab, fb_putchar, fb_puts,
}

module _ (g : Geometry) (p0 : ℕ → ℕ) (ok : IsGeometry g) where
  -- Both branches of a test keep the frame, each where its test says so.
  both :
      (b : Bool) {x y : Frame}
      → (b ≡ true → InFrame g p0 x)
      → (b ≡ false → InFrame g p0 y)
      → InFrame g p0 (if b then x else y)
  both true p q = p refl
  both false p q = q refl

  at :
      (f : Frame) (p : ℕ → ℕ) (x y : ℕ)
      → x < g.w
      → y < g.h
      → Kept g p0 p
      → InFrame g p0 (record f { pixels = p; cx = x; cy = y })
  at f p x y lx ly same = record { on_col = lx; on_line = ly; kept = same }

  color_one-InFrame :
      (bright : Bool) (v : ℕ) (ps : List ℕ) (f : Frame)
      → InFrame g p0 f
      → InFrame g p0 (color_one g bright v ps f)
  unfolding color_one
  color_one-InFrame bright v ps f i =
      let fore : (c : ℕ) → InFrame g p0 (record f { fg = c }) =
        λ c. record { on_col = i.on_col; on_line = i.on_line; kept = i.kept } in
      let back : (c : ℕ) → InFrame g p0 (record f { bg = c }) =
        λ c. record { on_col = i.on_col; on_line = i.on_line; kept = i.kept } in
      let reset : InFrame g p0 (record f { fg = 0xBBBBBB; bg = 0 }) = record {
        on_col = i.on_col;
        on_line = i.on_line;
        kept = i.kept;
      } in
      search (both, fore, back, reset) depth 20

  colors-InFrame :
      (skip : ℕ) (bright : Bool) (ps : List ℕ) (f : Frame)
      → InFrame g p0 f
      → InFrame g p0 (colors g skip bright ps f)
  unfolding colors
  colors-InFrame skip bright [] f i = i
  colors-InFrame (suc skip) bright (v ∷ ps) f i = colors-InFrame skip bright ps f i
  colors-InFrame zero bright (v ∷ ps) f i =
      colors-InFrame (if (v == 38) || (v == 48) then (extended ps).1 else 0) (sgr_bright bright v)
        ps (color_one g bright v ps f) (color_one-InFrame bright v ps f i)

  next_line-InFrame : (f : Frame) → InFrame g p0 f → InFrame g p0 (next_line g f)
  unfolding next_line
  next_line-InFrame f i =
      let last : InFrame g p0
          (record f { pixels = fb_scroll g f.pixels f.bg; cx = 0; cy = g.h - 1 }) =
        at f _ 0 (g.h - 1) ok.some_col (omega (arith, ok.some_line))
          (fb_scroll-Kept g p0 ok f.pixels f.bg i.kept) in
      let inner : leb g.h (f.cy + 1) ≡ false → InFrame g p0 (record f { cx = 0; cy = f.cy + 1 }) =
        λ e. at f f.pixels 0 (f.cy + 1) ok.some_col (ground arith) i.kept in
      search (both, last, inner)

  run_escape-InFrame : (f : Frame) (c : ℕ) → InFrame g p0 f → InFrame g p0 (run_escape g f c)
  unfolding run_escape fb_clear
  run_escape-InFrame f c i =
      let blanks : InFrame g p0
          (record f { pixels = draw_blanks g f.pixels f.cx f.cy (g.w - f.cx) f.fg f.bg }) =
        at f _ f.cx f.cy i.on_col i.on_line
          (draw_blanks-Kept g p0 ok f.pixels f.cx f.cy (g.w - f.cx) f.fg f.bg i.kept) in
      let cleared : InFrame g p0
          (record f { pixels = fill_rows g f.pixels 0 0 g.width g.height f.bg; cx = 0; cy = 0 }) =
        at f _ 0 0 ok.some_col ok.some_line
          (fill_rows-Kept g p0 ok f.pixels 0 0 g.width g.height f.bg i.kept) in
      let home : InFrame g p0 (record f { cx = 0; cy = 0 }) =
        at f f.pixels 0 0 ok.some_col ok.some_line i.kept in
      let left : InFrame g p0 (record f { cx = f.cx - 1 }) =
        at f f.pixels (f.cx - 1) f.cy (omega (arith, i.on_col)) i.on_line i.kept in
      let right : ltb f.cx (g.w - 1) ≡ true → InFrame g p0 (record f { cx = f.cx + 1 }) =
        λ e. at f f.pixels (f.cx + 1) f.cy (ground arith) i.on_line i.kept in
      let colored : (ps : List ℕ) → InFrame g p0 (colors g 0 false ps f) =
        λ ps. colors-InFrame 0 false ps f i in
      search (both, blanks, cleared, home, left, right, colored) depth 20

  take_escape-InFrame : (f : Frame) (c : ℕ) → InFrame g p0 f → InFrame g p0 (take_escape g f c)
  unfolding take_escape
  take_escape-InFrame f c i =
      let buf : List ℕ = if ltb (length f.esc_buf) 31 then f.esc_buf ++ c ∷ [] else f.esc_buf in
      let kept : InFrame g p0 (record f { esc_buf = buf }) = record {
        on_col = i.on_col;
        on_line = i.on_line;
        kept = i.kept;
      } in
      let ran : InFrame g p0 (run_escape g (record f { esc_buf = buf }) c) =
        run_escape-InFrame (record f { esc_buf = buf }) c kept in
      let done : InFrame g p0 (
          if get_or buf 0 0 == 91
          then run_escape g (record f { esc_buf = buf }) c
          else record f { esc_buf = buf }) =
        if_both (InFrame g p0) (get_or buf 0 0 == 91) _ _ ran kept in
      if_both (InFrame g p0) (is_final c) _ _
        (record { on_col = done.on_col; on_line = done.on_line; kept = done.kept }) kept

  draw_plain-InFrame : (f : Frame) (c : ℕ) → InFrame g p0 f → InFrame g p0 (draw_plain g f c)
  unfolding draw_plain
  draw_plain-InFrame f c i =
      let p : ℕ → ℕ = draw_char g f.pixels f.cx f.cy c f.fg f.bg in
      let same : Kept g p0 p = draw_char-Kept g p0 ok f.pixels f.cx f.cy c f.fg f.bg i.kept in
      let drawn : InFrame g p0 (record f { pixels = p }) =
        at f p f.cx f.cy i.on_col i.on_line same in
      let moved : leb g.w (f.cx + 1) ≡ false
          → InFrame g p0 (record f { pixels = p; cx = f.cx + 1 }) =
        λ e. at f p (f.cx + 1) f.cy (ground arith) i.on_line same in
      search (both, next_line-InFrame (record f { pixels = p }) drawn, moved)

  go_back-InFrame : (f : Frame) → InFrame g p0 f → InFrame g p0 (go_back g f)
  unfolding go_back
  go_back-InFrame f i =
      let back =
        at f _ (f.cx - 1) f.cy (omega (arith, i.on_col)) i.on_line
          (draw_char-Kept g p0 ok f.pixels (f.cx - 1) f.cy 32 f.fg f.bg i.kept) in
      search (both, back, i)

  go_tab-InFrame : (f : Frame) → InFrame g p0 f → InFrame g p0 (go_tab g f)
  unfolding go_tab
  go_tab-InFrame f i =
      let col : ℕ = (f.cx + 8) / 8 * 8 in
      let moved : leb g.w ((f.cx + 8) / 8 * 8) ≡ false → InFrame g p0 (record f { cx = col }) =
        λ e. at f f.pixels col f.cy (ground arith) i.on_line i.kept in
      search (both, next_line-InFrame f i, moved)

  fb_putchar-InFrame : (f : Frame) (c : ℕ) → InFrame g p0 f → InFrame g p0 (fb_putchar g f c)
  unfolding fb_putchar
  fb_putchar-InFrame f c i =
      let began : InFrame g p0 (record f { in_esc = true; esc_buf = [] }) = record {
        on_col = i.on_col;
        on_line = i.on_line;
        kept = i.kept;
      } in
      let start : InFrame g p0 (record f { cx = 0 }) =
        at f f.pixels 0 f.cy ok.some_col i.on_line i.kept in
      search
        (
          both,
          take_escape-InFrame f c i,
          began,
          start,
          next_line-InFrame f i,
          go_back-InFrame f i,
          go_tab-InFrame f i,
          draw_plain-InFrame f c i,
        )
        depth 20

  -- On a frame whose lines fit their pitch and whose characters fit its height, with at least one character,
  -- every text keeps the cursor on the frame, and changes nothing in the memory behind the frame's last line.
  pub fb_puts-InFrame :
      (f : Frame) (text : List ℕ) → InFrame g p0 f → InFrame g p0 (fb_puts g f text)
  unfolding fb_puts
  fb_puts-InFrame f [] i = i
  fb_puts-InFrame f (c ∷ cs) i = fb_puts-InFrame (fb_putchar g f c) cs (fb_putchar-InFrame f c i)

geometry_of-IsGeometry :
    (bi : BootInfo) (pitch : ℕ)
    → (bi.fb_pitch ≡ 0) ⊎ ((geometry_of bi pitch).width ≤ pitch)
    → IsGeometry (geometry_of bi pitch)
unfolding geometry_of
geometry_of-IsGeometry bi pitch wide = record {
  pitched = ground (arith, wide);
  lines = omega arith;
  some_line = ground arith;
  some_col = ground arith;
}

-- The property of the frame that `fb_init` gives, if it gives one.
abbrev Safe : BootInfo → (ℕ → ℕ) → List ℕ → Started → Type 0
Safe bi p0 text text_screen = Unit
Safe bi p0 text negative_pitch = Unit
Safe bi p0 text (graphics g f') =
    (bi.fb_pitch ≡ 0) ⊎ (g.width ≤ bi.fb_pitch) → InFrame g p0 (fb_puts g f' text)

fb_init-Safe : (bi : BootInfo) (f : Frame) (text : List ℕ) → Safe bi f.pixels text (fb_init bi f)
unfolding fb_init to_int
fb_init-Safe bi f text =
    elim (Bool-cases
      ((bi.magic == bootinfo_magic) && ((bi.boot_mode == 2) && not (bi.fb_base == 0)))) [
        | inr off ↦ rw (fb_init, off) tt
        | inl on ↦ elim (Bool-cases (ltb bi.fb_pitch (2 ^ 31))) [
          | inr large ↦ rw (fb_init, on, to_int, large) tt
          | inl small ↦ rw (fb_init, on, to_int, small) drawn
        ]
      ]
  where
    g : Geometry
    g = geometry_of bi bi.fb_pitch

    drawn :
        (bi.fb_pitch ≡ 0) ⊎ (g.width ≤ bi.fb_pitch)
        → InFrame g f.pixels (
            fb_puts g
              (record f { pixels = fill_rows g f.pixels 0 0 g.width g.height 0; cx = 0; cy = 0 })
              text)
    drawn wide =
        let ok : IsGeometry g = geometry_of-IsGeometry bi bi.fb_pitch wide in
        fb_puts-InFrame g f.pixels ok _ text (record {
          on_col = ok.some_col;
          on_line = ok.some_line;
          kept = fill_rows-Kept g f.pixels ok f.pixels 0 0 g.width g.height 0 (λ a le. refl);
        })

-- When `fb_init` sets up a frame from a boot info whose pitch is 0 or at least the width that is chosen, and
-- the frame has at most 2^31 pixels, so that every index of a pixel is an `int`, then every text keeps the
-- cursor on the frame and changes nothing in the memory behind the frame's last line.
pub fb_puts-fb_init :
    (bi : BootInfo) (f f' : Frame) (g : Geometry) (text : List ℕ)
    → fb_init bi f ≡ graphics g f'
    → (bi.fb_pitch ≡ 0) ⊎ (g.width ≤ bi.fb_pitch)
    → g.height * g.pitch ≤ 2 ^ 31
    → InFrame g f.pixels (fb_puts g f' text)
fb_puts-fb_init bi f f' g text started wide small =
    subst (Safe bi f.pixels text) started (fb_init-Safe bi f text) wide
