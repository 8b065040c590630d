-- ===== src/Screen/Row.antt =====
-- kernel/main.c and kernel/fb.c: text inside one line of the text screen, plain and in a colour.
use strixos.Prelude.{
  ℕ, suc, ◌+◌, ◌*◌, ◌≤◌, ◌<◌, ◌≡◌, refl, ◌∙◌, ap, ◌==◌, leb, false, some, List, [], ◌∷◌, length,
  set, map, All, arith,
}
use strixos.Screen.Color.{vga_color, vga_nearest, pack}
use strixos.Screen.Print.{rgb_sequence, rgb_print}
use strixos.Screen.Sequence.{puts-rgb_sequence}
use strixos.Screen.{
  Screen, vga_width, vga_entry, color_of, put_plain, putchar, puts, put_escape, escape, sgr,
  sgr_one, parse_params,
}

-- A character that is shown as it is.
abbrev pub Plain : ℕ → Type 0
Plain c = (32 ≤ c) × (c < 127)

-- The cells from `i` on, overwritten by `vs`.
unfoldable pub write_cells : List ℕ → ℕ → List ℕ → List ℕ
write_cells buf i [] = buf
write_cells buf i (v ∷ vs) = write_cells (set buf i v) (i + 1) vs

-- Outside of an escape sequence, a text of plain characters that ends before the end of the line is written into
-- the cells from the cursor on, in the colours of the screen, and the cursor stands behind it.
pub puts-write_cells :
    (s : Screen) (text : List ℕ)
    → s.in_esc ≡ false
    → All Plain text
    → s.col + length text < 80
    → puts s text ≡ record s {
      buffer =
          write_cells s.buffer
            (s.row * vga_width + s.col)
            (map (λ c. vga_entry c (color_of s)) text);
      col = s.col + length text;
    }
unfolding puts putchar put_plain write_cells
puts-write_cells s [] off plain le = let e : s.col + 0 ≡ s.col = omega arith in rw e refl
puts-write_cells s (c ∷ cs) off ((lo, hi), plain) le =
    let esc : (c == 27) ≡ false = ground arith in
    let bell : (c == 7) ≡ false = ground arith in
    let feed : (c == 10) ≡ false = ground arith in
    let return : (c == 13) ≡ false = ground arith in
    let tab : (c == 9) ≡ false = ground arith in
    let back : (c == 8) ≡ false = ground arith in
    let del : (c == 127) ≡ false = ground arith in
    let ascii : leb 128 c ≡ false = ground arith in
    let inside : leb vga_width (s.col + 1) ≡ false = ground arith in
    let here : s.row * vga_width + (s.col + 1) ≡ s.row * vga_width + s.col + 1 = omega arith in
    let end : s.col + 1 + length cs ≡ s.col + suc (length cs) = omega arith in
    let s' : Screen = record s {
      buffer = set s.buffer (s.row * vga_width + s.col) (vga_entry c (color_of s));
      col = s.col + 1;
    } in
    let step : putchar s c ≡ s' =
      rw (off, esc, bell, feed, return, tab, back, del, ascii, inside) refl in
    ap (λ t. puts t cs) step ∙ puts-write_cells s' cs off plain (omega arith) ∙ rw (here, end) refl

-- `ESC [ 0 m`
puts-reset :
    (s : Screen)
    → s.in_esc ≡ false
    → puts s (27 ∷ 91 ∷ 48 ∷ 109 ∷ []) ≡ record s { fg = 7; bg = 0; in_esc = false; esc_buf = [] }
unfolding puts putchar put_escape escape sgr sgr_one parse_params
puts-reset s off = rw off refl

-- `rgb_print` with a text of plain characters that ends before the end of the line: the text goes to the
-- cells from the cursor on, in the colour of the text screen that is nearest to the one asked for, the cursor stands
-- behind it, and the colours of the screen are the first ones again.
pub rgb_print_lem :
    (s : Screen) (text : List ℕ) (r g b : ℕ)
    → s.in_esc ≡ false
    → r < 256
    → g < 256
    → b < 256
    → All Plain text
    → s.col + length text < 80
    → rgb_print s text r g b
      ≡ some (record s {
        buffer =
            write_cells s.buffer
              (s.row * vga_width + s.col)
              (map (λ c. vga_entry c (vga_color (vga_nearest (pack r g b)) s.bg)) text);
        col = s.col + length text;
        fg = 7;
        bg = 0;
        in_esc = false;
        esc_buf = [];
      })
unfolding rgb_print
rgb_print_lem s text r g b off lr lg lb plain le =
    let (seq, (sent, colored)) = puts-rgb_sequence s r g b off lr lg lb in
    printed seq sent
    ∙ ap some (
        ap (λ t. puts (puts t text) (27 ∷ 91 ∷ 48 ∷ 109 ∷ [])) colored
        ∙ ap (λ t. puts t (27 ∷ 91 ∷ 48 ∷ 109 ∷ []))
            (puts-write_cells
              (record s { fg = vga_nearest (pack r g b); in_esc = false; esc_buf = [] }) text refl
              plain le)
        ∙ puts-reset _ refl)
  where
    printed :
        (seq : List ℕ)
        → rgb_sequence 51 r g b ≡ some seq
        → rgb_print s text r g b ≡ some (puts (puts (puts s seq) text) (27 ∷ 91 ∷ 48 ∷ 109 ∷ []))
    printed seq sent = rw (rgb_print, sent) refl
