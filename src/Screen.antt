-- ===== src/Screen.antt =====
-- kernel/main.c: the text screen, with the escape sequences that it understands. This is `vga_putchar`
-- where the framebuffer is off (`fb_is_graphics` is 0); the position of the hardware cursor follows the
-- state.
pub mod Color
pub mod Nearest
pub mod Print
pub mod Sequence
pub mod Scroll
pub mod Row
pub mod Bounds
mod Tests
use strixos.Prelude.{
  ℕ, zero, suc, ◌+◌, ◌-◌, ◌*◌, ◌/◌, ◌%◌, ◌==◌, ltb, leb, if◌then◌else◌, Bool, true, false, not,
  ◌&&◌, ◌||◌, List, [], ◌∷◌, ◌++◌, length, get_or, set, replicate, drop,
}
use strixos.Buffer.{move_down}
use strixos.Screen.Color.{vga_color, vga_pal16, vga_pal256, vga_nearest, pack}

abbrev pub vga_width : ℕ
vga_width = 80

abbrev pub vga_height : ℕ
vga_height = 25

-- The static variables: the words at 0xB8000, the cursor, the colours, and the escape sequence so far.
pub record Screen : Type 0 where
  pub buffer : List ℕ
  pub row : ℕ
  pub col : ℕ
  pub fg : ℕ
  pub bg : ℕ
  pub in_esc : Bool
  pub esc_buf : List ℕ

-- `vga_entry`, for a character that is a byte.
abbrev pub vga_entry : ℕ → ℕ → ℕ
vga_entry c color = c + 256 * color

abbrev pub color_of : Screen → ℕ
color_of s = vga_color s.fg s.bg

-- `for(i=from;i<from+n;i++) vga_buffer[i]=v;`
unfoldable pub fill : List ℕ → ℕ → ℕ → ℕ → List ℕ
fill buf from zero v = buf
fill buf from (suc n) v = fill (set buf from v) (from + 1) n v

-- `vga_clear`
unfoldable pub clear : Screen → Screen
clear s = record s {
  buffer = fill s.buffer 0 (vga_width * vga_height) (vga_entry 32 (vga_color 15 0));
  row = 0;
  col = 0;
}

-- The lines move up by one, and the last one is cleared.
unfoldable pub scroll : List ℕ → ℕ → List ℕ
scroll buf color =
    fill (move_down buf 0 vga_width ((vga_height - 1) * vga_width)) ((vga_height - 1) * vga_width)
      vga_width (vga_entry 32 color)

-- `vga_col=0; vga_row++;`, with a scroll behind the last line.
unfoldable pub new_line : Screen → Screen
new_line s =
    if leb vga_height (s.row + 1)
    then record s { buffer = scroll s.buffer (color_of s); row = vga_height - 1; col = 0 }
    else record s { row = s.row + 1; col = 0 }

abbrev pub is_digit : ℕ → Bool
is_digit c = leb 48 c && leb c 57

abbrev pub push : List ℕ → ℕ → List ℕ
push params v = if ltb (length params) 16 then params ++ v ∷ [] else params

-- The numbers of a colour sequence, from the characters behind `[`: the ones so far, and the one that is being
-- read, 0 where it has no digit. A number that does not fit an `int` is out of the model.
unfoldable pub parse_params : List ℕ → List ℕ → ℕ → List ℕ
parse_params params [] cur = params
parse_params params (c ∷ cs) cur =
    let rest =
      parse_params (if c == 59 then push params cur else params) cs
        (if is_digit c then cur * 10 + (c - 48) else if c == 59 then 0 else cur) in
    if c == 109 then push params cur else rest

-- The colour that follows 38 or 48, and how many numbers it takes.
unfoldable pub extended : List ℕ → ℕ × ℕ
extended ps =
    if (get_or ps 0 0 == 5) && ltb 1 (length ps)
    then (vga_pal256 (get_or ps 1 0 % 256), 2)
    else if (get_or ps 0 0 == 2) && ltb 3 (length ps)
    then (pack (get_or ps 1 0 % 256) (get_or ps 2 0 % 256) (get_or ps 3 0 % 256), 4)
    else (0, 0)

abbrev pub is_between : ℕ → ℕ → ℕ → Bool
is_between a b v = leb a v && leb v b

-- The colours after one number, which the numbers `ps` follow.
unfoldable pub sgr_one : Bool → ℕ → List ℕ → Screen → Screen
sgr_one bright v ps s =
    let base : ℕ = if bright then 8 else 0 in
    let nearest = vga_nearest (extended ps).0 in
    if v == 0
    then record s { fg = 7; bg = 0 }
    else if is_between 30 37 v
    then record s { fg = vga_nearest (get_or vga_pal16 (v - 30 + base) 0) }
    else if is_between 40 47 v
    then record s { bg = vga_nearest (get_or vga_pal16 (v - 40 + base) 0) % 8 }
    else if is_between 90 97 v
    then record s { fg = vga_nearest (get_or vga_pal16 (v - 90 + 8) 0) }
    else if is_between 100 107 v
    then record s { bg = vga_nearest (get_or vga_pal16 (v - 100 + 8) 0) % 8 }
    else if (v == 38) && not ((extended ps).1 == 0)
    then record s { fg = nearest }
    else if (v == 48) && not ((extended ps).1 == 0)
    then record s { bg = nearest % 8 }
    else s

-- `bright` after one number.
abbrev pub sgr_bright : Bool → ℕ → Bool
sgr_bright bright v =
    if v == 0 then false else if v == 1 then true else if v == 22 then false else bright

-- The loop over the numbers, of which the first `skip` have been used.
unfoldable pub sgr : ℕ → Bool → List ℕ → Screen → Screen
sgr skip bright [] s = s
sgr (suc skip) bright (v ∷ ps) s = sgr skip bright ps s
sgr zero bright (v ∷ ps) s =
    sgr (if (v == 38) || (v == 48) then (extended ps).1 else 0) (sgr_bright bright v) ps
      (sgr_one bright v ps s)

-- The escape sequences ESC [ … c.
unfoldable pub escape : Screen → ℕ → Screen
escape s c =
    let params = parse_params [] (drop 1 s.esc_buf) 0 in
    if c == 75
    then record s {
      buffer =
          fill s.buffer (s.row * vga_width + s.col) (vga_width - s.col) (vga_entry 32 (color_of s));
    }
    else if c == 74
    then record s {
      buffer = fill s.buffer 0 (vga_width * vga_height) (vga_entry 32 (color_of s));
      row = 0;
      col = 0;
    }
    else if c == 72
    then record s { row = 0; col = 0 }
    else if c == 68
    then (if ltb 0 s.col
        then record s { col = s.col - 1 }
        else if ltb 0 s.row
        then record s { row = s.row - 1; col = vga_width - 1 }
        else s)
    else if c == 67
    then (if ltb s.col (vga_width - 1)
        then record s { col = s.col + 1 }
        else if ltb s.row (vga_height - 1)
        then record s { row = s.row + 1; col = 0 }
        else record s { col = 0 })
    else if c == 109
    then sgr 0 false (if length params == 0 then 0 ∷ [] else params) s
    else s

abbrev pub is_final : ℕ → Bool
is_final c = is_between 65 90 c || is_between 97 122 c || c == 126

-- A character inside an escape sequence.
unfoldable pub put_escape : Screen → ℕ → Screen
put_escape s c =
    let s' = record s {
      esc_buf = if ltb (length s.esc_buf) 31 then s.esc_buf ++ c ∷ [] else s.esc_buf;
    } in
    let ran = if get_or s'.esc_buf 0 0 == 91 then escape s' c else s' in
    if is_final c then record ran { in_esc = false; esc_buf = [] } else s'

-- The cell under the cursor.
abbrev pub put_cell : Screen → ℕ → List ℕ
put_cell s c = set s.buffer (s.row * vga_width + s.col) (vga_entry c (color_of s))

unfoldable pub put_tab : Screen → Screen
put_tab s =
    let col = (s.col + 8) / 8 * 8 in
    if leb vga_width col then new_line s else record s { col = col }

unfoldable pub put_backspace : Screen → Screen
put_backspace s =
    let left = record s { col = s.col - 1 } in
    let up = record s { row = s.row - 1; col = vga_width - 1 } in
    if ltb 0 s.col
    then record left { buffer = put_cell left 32 }
    else if ltb 0 s.row
    then record up { buffer = put_cell up 32 }
    else s

unfoldable pub put_plain : Screen → ℕ → Screen
put_plain s c =
    let s' = record s { buffer = put_cell s c } in
    if leb vga_width (s.col + 1) then new_line s' else record s' { col = s.col + 1 }

-- `vga_putchar`
unfoldable pub putchar : Screen → ℕ → Screen
putchar s c =
    if s.in_esc
    then put_escape s c
    else if c == 27
    then record s { in_esc = true; esc_buf = [] }
    else if c == 7
    then s
    else if c == 10
    then new_line s
    else if c == 13
    then record s { col = 0 }
    else if c == 9
    then put_tab s
    else if c == 8 || c == 127
    then put_backspace s
    else put_plain s (if leb 128 c then 63 else c)

-- `vga_puts`
unfoldable pub puts : Screen → List ℕ → Screen
puts s [] = s
puts s (c ∷ cs) = puts (putchar s c) cs
