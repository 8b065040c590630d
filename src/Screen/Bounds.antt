-- ===== src/Screen/Bounds.antt =====
-- kernel/main.c: the cursor of the text screen stays on the screen, so every write goes to one of its
-- cells.
use strixos.Prelude.{
  ℕ, zero, suc, ◌+◌, ◌-◌, ◌*◌, ◌/◌, ◌%◌, ◌≤◌, ◌<◌, ◌≡◌, refl, ◌∙◌, ◌==◌, ltb, leb, if◌then◌else◌,
  if_both, Bool, true, false, ◌||◌, List, [], ◌∷◌, ◌++◌, length, length-set, length-append, get_or,
  set, arith,
}
use strixos.Buffer.{move_down, length-move_down}
use strixos.Screen.Color.{vga_nearest}
use strixos.Screen.Nearest.{vga_nearest_lem}
use strixos.Screen.{
  Screen, vga_width, vga_height, color_of, fill, scroll, new_line, sgr_one, sgr, sgr_bright,
  extended, escape, is_final, put_escape, put_cell, put_tab, put_backspace, put_plain, putchar,
  puts,
}

-- The buffer has its 2,000 cells, the cursor is on one of them, the escape sequence leaves room for its
-- end in the 32 bytes, and the colours are among those of a text screen.
pub record InBounds (s : Screen) : Type 0 where
  pub cells : length s.buffer ≡ 2000
  pub on_row : s.row < 25
  pub on_col : s.col < 80
  pub room : length s.esc_buf ≤ 31
  pub fore : s.fg < 16
  pub back : s.bg < 8

pub length-fill : (buf : List ℕ) (from n v : ℕ) → length (fill buf from n v) ≡ length buf
unfolding fill
length-fill buf from zero v = refl
length-fill buf from (suc n) v = length-fill (set buf from v) (from + 1) n v ∙ length-set buf from v

pub length-scroll : (buf : List ℕ) (color : ℕ) → length (scroll buf color) ≡ length buf
unfolding scroll
length-scroll buf color =
    length-fill (move_down buf 0 vga_width ((vga_height - 1) * vga_width)) _ vga_width _
    ∙ length-move_down buf 0 vga_width ((vga_height - 1) * vga_width)

colors :
    (s : Screen) (f b : ℕ) → InBounds s → f < 16 → b < 8 → InBounds (record s { fg = f; bg = b })
colors s f b ok lf lb = record {
  cells = ok.cells;
  on_row = ok.on_row;
  on_col = ok.on_col;
  room = ok.room;
  fore = lf;
  back = lb;
}

nearest_lt : (rgb : ℕ) → vga_nearest rgb < 16
nearest_lt rgb = (vga_nearest_lem rgb 0 (omega arith)).0

-- The bounds after a change of the cells and of the cursor.
at :
    (s : Screen) (buf : List ℕ) (r c : ℕ)
    → InBounds s
    → length buf ≡ 2000
    → r < 25
    → c < 80
    → InBounds (record s { buffer = buf; row = r; col = c })
at s buf r c ok n lr lc = record {
  cells = n;
  on_row = lr;
  on_col = lc;
  room = ok.room;
  fore = ok.fore;
  back = ok.back;
}

-- Both branches of a test keep the bounds, each where its test says so.
both :
    (b : Bool) {x y : Screen}
    → (b ≡ true → InBounds x)
    → (b ≡ false → InBounds y)
    → InBounds (if b then x else y)
both true p q = p refl
both false p q = q refl

sgr_one-InBounds :
    (bright : Bool) (v : ℕ) (ps : List ℕ) (s : Screen)
    → InBounds s
    → InBounds (sgr_one bright v ps s)
unfolding sgr_one
sgr_one-InBounds bright v ps s ok =
    let fore : (rgb : ℕ) → InBounds (record s { fg = vga_nearest rgb }) =
      λ rgb. colors s (vga_nearest rgb) s.bg ok (nearest_lt rgb) ok.back in
    let back : (rgb : ℕ) → InBounds (record s { bg = vga_nearest rgb % 8 }) =
      λ rgb. colors s s.fg (vga_nearest rgb % 8) ok ok.fore (omega arith) in
    let reset : InBounds (record s { fg = 7; bg = 0 }) =
      colors s 7 0 ok (omega arith) (omega arith) in
    search (both, fore, back, reset) depth 20

sgr-InBounds :
    (skip : ℕ) (bright : Bool) (ps : List ℕ) (s : Screen)
    → InBounds s
    → InBounds (sgr skip bright ps s)
unfolding sgr
sgr-InBounds skip bright [] s ok = ok
sgr-InBounds (suc skip) bright (v ∷ ps) s ok = sgr-InBounds skip bright ps s ok
sgr-InBounds zero bright (v ∷ ps) s ok =
    sgr-InBounds (if (v == 38) || (v == 48) then (extended ps).1 else 0) (sgr_bright bright v) ps
      (sgr_one bright v ps s) (sgr_one-InBounds bright v ps s ok)

new_line-InBounds : (s : Screen) → InBounds s → InBounds (new_line s)
unfolding new_line
new_line-InBounds s ok =
    let last : InBounds (record s { buffer = scroll s.buffer (color_of s); row = 24; col = 0 }) =
      at s _ 24 0 ok (length-scroll s.buffer (color_of s) ∙ ok.cells) (omega arith) (omega arith) in
    let inner : leb vga_height (s.row + 1) ≡ false
        → InBounds (record s { row = s.row + 1; col = 0 }) =
      λ e. at s s.buffer (s.row + 1) 0 ok ok.cells (ground arith) (omega arith) in
    search (both, last, inner)

-- The bounds after cells have been filled.
filled :
    (s : Screen) (from k v r c : ℕ)
    → InBounds s
    → r < 25
    → c < 80
    → InBounds (record s { buffer = fill s.buffer from k v; row = r; col = c })
filled s from k v r c ok lr lc = at s _ r c ok (length-fill s.buffer from k v ∙ ok.cells) lr lc

escape-InBounds : (s : Screen) (c : ℕ) → InBounds s → InBounds (escape s c)
unfolding escape
escape-InBounds s c ok =
    let here : (k v : ℕ)
        → InBounds (record s { buffer = fill s.buffer (s.row * vga_width + s.col) k v }) =
      λ k v. filled s _ k v s.row s.col ok ok.on_row ok.on_col in
    let cleared : (v : ℕ)
        → InBounds
            (record s { buffer = fill s.buffer 0 (vga_width * vga_height) v; row = 0; col = 0 }) =
      λ v. filled s 0 _ v 0 0 ok (omega arith) (omega arith) in
    let home : InBounds (record s { row = 0; col = 0 }) =
      at s s.buffer 0 0 ok ok.cells (omega arith) (omega arith) in
    let left : InBounds (record s { col = s.col - 1 }) =
      at s s.buffer s.row (s.col - 1) ok ok.cells ok.on_row (omega (arith, ok.on_col)) in
    let up : InBounds (record s { row = s.row - 1; col = 79 }) =
      at s s.buffer (s.row - 1) 79 ok ok.cells (omega (arith, ok.on_row)) (omega arith) in
    let right : ltb s.col (vga_width - 1) ≡ true → InBounds (record s { col = s.col + 1 }) =
      λ e. at s s.buffer s.row (s.col + 1) ok ok.cells ok.on_row (ground arith) in
    let down : ltb s.row (vga_height - 1) ≡ true
        → InBounds (record s { row = s.row + 1; col = 0 }) =
      λ e. at s s.buffer (s.row + 1) 0 ok ok.cells (ground arith) (omega arith) in
    let start : InBounds (record s { col = 0 }) =
      at s s.buffer s.row 0 ok ok.cells ok.on_row (omega arith) in
    let colored : (ps : List ℕ) → InBounds (sgr 0 false ps s) =
      λ ps. sgr-InBounds 0 false ps s ok in
    search (both, here, cleared, home, left, up, right, down, start, colored) depth 20

-- The bounds after a change of the escape sequence.
sequence :
    (s : Screen) (on : Bool) (buf : List ℕ)
    → InBounds s
    → length buf ≤ 31
    → InBounds (record s { in_esc = on; esc_buf = buf })
sequence s on buf ok le = record {
  cells = ok.cells;
  on_row = ok.on_row;
  on_col = ok.on_col;
  room = le;
  fore = ok.fore;
  back = ok.back;
}

put_escape-InBounds : (s : Screen) (c : ℕ) → InBounds s → InBounds (put_escape s c)
unfolding put_escape
put_escape-InBounds s c ok =
    let buf : List ℕ = if ltb (length s.esc_buf) 31 then s.esc_buf ++ c ∷ [] else s.esc_buf in
    let kept : InBounds (record s { esc_buf = buf }) =
      sequence s s.in_esc buf ok (ground (arith, ok.room, length-append s.esc_buf (c ∷ []))) in
    let ran : InBounds (escape (record s { esc_buf = buf }) c) =
      escape-InBounds (record s { esc_buf = buf }) c kept in
    let done : InBounds (
        if get_or buf 0 0 == 91
        then escape (record s { esc_buf = buf }) c
        else record s { esc_buf = buf }) =
      if_both InBounds (get_or buf 0 0 == 91) _ _ ran kept in
    if_both InBounds (is_final c) _ _ (sequence _ false [] done (omega arith)) kept

put_tab-InBounds : (s : Screen) → InBounds s → InBounds (put_tab s)
unfolding put_tab
put_tab-InBounds s ok =
    let col : ℕ = (s.col + 8) / 8 * 8 in
    let moved : leb vga_width ((s.col + 8) / 8 * 8) ≡ false → InBounds (record s { col = col }) =
      λ e. at s s.buffer s.row col ok ok.cells ok.on_row (ground arith) in
    search (both, new_line-InBounds s ok, moved)

-- The bounds after a character has been written under the cursor.
written :
    (s : Screen) (r c v : ℕ)
    → InBounds s
    → r < 25
    → c < 80
    → InBounds (record s { buffer = put_cell (record s { row = r; col = c }) v; row = r; col = c })
written s r c v ok lr lc = at s _ r c ok (length-set s.buffer _ _ ∙ ok.cells) lr lc

put_backspace-InBounds : (s : Screen) → InBounds s → InBounds (put_backspace s)
unfolding put_backspace
put_backspace-InBounds s ok =
    let left = written s s.row (s.col - 1) 32 ok ok.on_row (omega (arith, ok.on_col)) in
    let up = written s (s.row - 1) 79 32 ok (omega (arith, ok.on_row)) (omega arith) in
    search (both, left, up, ok)

put_plain-InBounds : (s : Screen) (c : ℕ) → InBounds s → InBounds (put_plain s c)
unfolding put_plain
put_plain-InBounds s c ok =
    let there = written s s.row s.col c ok ok.on_row ok.on_col in
    let moved : leb vga_width (s.col + 1) ≡ false
        → InBounds (record s { buffer = put_cell s c; col = s.col + 1 }) =
      λ e. at s _ s.row (s.col + 1) ok there.cells ok.on_row (ground arith) in
    search (both, new_line-InBounds (record s { buffer = put_cell s c }) there, moved)

putchar-InBounds : (s : Screen) (c : ℕ) → InBounds s → InBounds (putchar s c)
unfolding putchar
putchar-InBounds s c ok =
    let began : InBounds (record s { in_esc = true; esc_buf = [] }) =
      sequence s true [] ok (omega arith) in
    let start : InBounds (record s { col = 0 }) =
      at s s.buffer s.row 0 ok ok.cells ok.on_row (omega arith) in
    let plain : (v : ℕ) → InBounds (put_plain s v) = λ v. put_plain-InBounds s v ok in
    search
      (
        both,
        put_escape-InBounds s c ok,
        began,
        start,
        new_line-InBounds s ok,
        put_tab-InBounds s ok,
        put_backspace-InBounds s ok,
        plain,
      )
      depth 20

-- From a screen in bounds, every text leads to a screen in bounds: the cursor stays on the 25 lines of 80
-- cells, so that each cell it writes is one of the 2,000, the escape sequence stays inside its
-- buffer, and the colours stay below 16 and 8.
pub puts-InBounds : (s : Screen) (text : List ℕ) → InBounds s → InBounds (puts s text)
unfolding puts
puts-InBounds s [] ok = ok
puts-InBounds s (c ∷ cs) ok = puts-InBounds (putchar s c) cs (putchar-InBounds s c ok)
