-- ===== src/Frame/Draw.antt =====
-- kernel/fb.c: pixels, glyphs and the moving of lines. The arithmetic of `int` is exact here: it is that of the
-- code where the frame has at most 2^31 pixels. A pixel is known by its place in the memory behind
-- `fb_base`.
use strixos.Prelude.{
  ℕ, zero, suc, ◌+◌, ◌-◌, ◌*◌, ◌/◌, ◌%◌, ◌^◌, ◌==◌, ltb, leb, if◌then◌else◌, ◌&&◌, List, [], get_or,
}
use strixos.Frame.Font.{font8x8_basic}

-- `fb_width`, `fb_height`, `fb_pitch`, and the size in characters, `fb_w` and `fb_h`.
pub record Geometry : Type 0 where
  pub width : ℕ
  pub height : ℕ
  pub pitch : ℕ
  pub w : ℕ
  pub h : ℕ

abbrev pub store : (ℕ → ℕ) → ℕ → ℕ → ℕ → ℕ
store p i c a = if a == i then c else p a

module _ (g : Geometry) where
  -- `fb_put32`, and `fb_put_pixel`
  unfoldable pub put32 : (ℕ → ℕ) → ℕ → ℕ → ℕ → ℕ → ℕ
  put32 p x y c = if ltb x g.width && ltb y g.height then store p (y * g.pitch + x) c else p

  unfoldable pub fill_row : (ℕ → ℕ) → ℕ → ℕ → ℕ → ℕ → ℕ → ℕ
  fill_row p x y zero c = p
  fill_row p x y (suc n) c = fill_row (put32 p x y c) (x + 1) y n c

  unfoldable pub fill_rows : (ℕ → ℕ) → ℕ → ℕ → ℕ → ℕ → ℕ → ℕ → ℕ
  fill_rows p x y n zero c = p
  fill_rows p x y n (suc k) c = fill_rows (fill_row p x y n c) x (y + 1) n k c

  -- A row of a glyph from the column `col` on, `n` columns left.
  unfoldable pub draw_row : (ℕ → ℕ) → ℕ → ℕ → ℕ → ℕ → ℕ → ℕ → ℕ → ℕ → ℕ
  draw_row p x py bits col zero fg bg = p
  draw_row p x py bits col (suc n) fg bg =
      draw_row (put32 p (x * 8 + col) py (if bits / 2 ^ (7 - col) % 2 == 1 then fg else bg)) x py
        bits (col + 1) n fg bg

  unfoldable pub draw_rows : (ℕ → ℕ) → ℕ → ℕ → List ℕ → ℕ → ℕ → ℕ → ℕ → ℕ → ℕ
  draw_rows p x y glyph row zero fg bg = p
  draw_rows p x y glyph row (suc n) fg bg =
      draw_rows (draw_row p x (y * 8 + row) (get_or glyph row 0) 0 8 fg bg) x y glyph (row + 1) n fg
        bg

  abbrev pub glyph_of : ℕ → List ℕ
  glyph_of ch = get_or font8x8_basic (if leb 128 ch then 63 else ch) []

  -- `fb_draw_char`
  unfoldable pub draw_char : (ℕ → ℕ) → ℕ → ℕ → ℕ → ℕ → ℕ → ℕ → ℕ
  draw_char p x y ch fg bg = draw_rows p x y (glyph_of ch) 0 8 fg bg

  -- `dst[x]=src[x]`
  unfoldable pub move_pixels : (ℕ → ℕ) → ℕ → ℕ → ℕ → ℕ → ℕ
  move_pixels p dst src zero = p
  move_pixels p dst src (suc n) = move_pixels (store p dst (p src)) (dst + 1) (src + 1) n

  -- `row[x]=fb_bg`
  unfoldable pub set_pixels : (ℕ → ℕ) → ℕ → ℕ → ℕ → ℕ → ℕ
  set_pixels p dst zero c = p
  set_pixels p dst (suc n) c = set_pixels (store p dst c) (dst + 1) n c

  unfoldable pub move_lines : (ℕ → ℕ) → ℕ → ℕ → ℕ → ℕ → ℕ
  move_lines p y zero bg = p
  move_lines p y (suc n) bg =
      move_lines
        (set_pixels (move_pixels p (y * g.pitch) ((y + 8) * g.pitch) g.width)
          (y * g.pitch + g.width) (g.pitch - g.width) bg)
        (y + 1) n bg

  unfoldable pub clear_lines : (ℕ → ℕ) → ℕ → ℕ → ℕ → ℕ → ℕ
  clear_lines p y zero bg = p
  clear_lines p y (suc n) bg =
      clear_lines
        (set_pixels (set_pixels p (y * g.pitch) g.width bg) (y * g.pitch + g.width)
          (g.pitch - g.width) bg)
        (y + 1) n bg

  -- `fb_scroll`
  unfoldable pub fb_scroll : (ℕ → ℕ) → ℕ → ℕ → ℕ
  fb_scroll p bg =
      clear_lines (move_lines p 0 ((g.h - 1) * 8) bg) ((g.h - 1) * 8) (g.height - (g.h - 1) * 8) bg

  -- Blanks from the column `i` on, `n` of them.
  unfoldable pub draw_blanks : (ℕ → ℕ) → ℕ → ℕ → ℕ → ℕ → ℕ → ℕ → ℕ
  draw_blanks p i y zero fg bg = p
  draw_blanks p i y (suc n) fg bg = draw_blanks (draw_char p i y 32 fg bg) (i + 1) y n fg bg
