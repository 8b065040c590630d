-- ===== src/Frame/Glyph.antt =====
-- kernel/fb.c: the pixels of a character.
use strixos.Prelude.{
  ℕ, zero, suc, ◌+◌, ◌-◌, ◌*◌, ◌/◌, ◌%◌, ◌^◌, ◌≤◌, ◌<◌, ◌≡◌, ◌≢◌, refl, sym, ◌∙◌, ap, ◌==◌, ==_ne,
  ==_refl, ltb, if◌then◌else◌, true, false, Bool-cases, inl, inr, ◌&&◌, List, get_or, arith,
}
use strixos.Frame.Draw.{Geometry, put32, draw_row, draw_rows, draw_char, glyph_of}

-- The pixel of the column `col` in the row of a glyph.
abbrev pub pixel : ℕ → ℕ → ℕ → ℕ → ℕ
pixel bits col fg bg = if bits / 2 ^ (7 - col) % 2 == 1 then fg else bg

module _ (g : Geometry) where
  put32_ne : (p : ℕ → ℕ) (x y c a : ℕ) → a ≢ y * g.pitch + x → put32 g p x y c a ≡ p a
  unfolding put32
  put32_ne p x y c a ne = elim (Bool-cases (ltb x g.width && ltb y g.height)) [
    | inr e ↦ rw e refl
    | inl e ↦
        let away : (a == y * g.pitch + x) ≡ false = ==_ne a (y * g.pitch + x) ne in
        rw (e, away) refl
  ]

  put32_self :
      (p : ℕ → ℕ) (x y c : ℕ) → x < g.width → y < g.height → put32 g p x y c (y * g.pitch + x) ≡ c
  unfolding put32
  put32_self p x y c lx ly =
      let e : (ltb x g.width && ltb y g.height) ≡ true = ground arith in
      let here : (y * g.pitch + x == y * g.pitch + x) ≡ true = ==_refl (y * g.pitch + x) in
      rw (e, here) refl

  draw_row_before :
      (p : ℕ → ℕ) (x py bits col n fg bg a : ℕ)
      → a < py * g.pitch + (x * 8 + col)
      → draw_row g p x py bits col n fg bg a ≡ p a
  unfolding draw_row
  draw_row_before p x py bits col zero fg bg a lt = refl
  draw_row_before p x py bits col (suc n) fg bg a lt =
      draw_row_before (put32 g p (x * 8 + col) py (pixel bits col fg bg)) x py bits (col + 1) n fg
        bg a (omega arith)
      ∙ put32_ne p (x * 8 + col) py (pixel bits col fg bg) a (omega arith)

  draw_row_at :
      (p : ℕ → ℕ) (x py bits col n fg bg k : ℕ)
      → x * 8 + col + n ≤ g.width
      → py < g.height
      → k < n
      → draw_row g p x py bits col n fg bg (py * g.pitch + (x * 8 + (col + k)))
        ≡ pixel bits (col + k) fg bg
  unfolding draw_row
  draw_row_at p x py bits col zero fg bg k le ly lt = absurd (omega arith)
  draw_row_at p x py bits col (suc n) fg bg zero le ly lt =
      let e : col + 0 ≡ col = omega arith in
      rw e (
        draw_row_before (put32 g p (x * 8 + col) py (pixel bits col fg bg)) x py bits (col + 1) n fg
          bg (py * g.pitch + (x * 8 + col)) (omega arith)
        ∙ put32_self p (x * 8 + col) py (pixel bits col fg bg) (omega arith) ly)
  draw_row_at p x py bits col (suc n) fg bg (suc k) le ly lt =
      let e : col + suc k ≡ col + 1 + k = omega arith in
      rw e (
        draw_row_at (put32 g p (x * 8 + col) py (pixel bits col fg bg)) x py bits (col + 1) n fg bg
          k (omega arith) ly (omega arith))

  draw_rows_before :
      (p : ℕ → ℕ) (x y : ℕ) (glyph : List ℕ) (row n fg bg a : ℕ)
      → a < (y * 8 + row) * g.pitch + x * 8
      → draw_rows g p x y glyph row n fg bg a ≡ p a
  unfolding draw_rows
  draw_rows_before p x y glyph row zero fg bg a lt = refl
  draw_rows_before p x y glyph row (suc n) fg bg a lt =
      draw_rows_before (draw_row g p x (y * 8 + row) (get_or glyph row 0) 0 8 fg bg) x y glyph
        (row + 1) n fg bg a (omega arith)
      ∙ draw_row_before p x (y * 8 + row) (get_or glyph row 0) 0 8 fg bg a (omega arith)

  draw_rows_at :
      (p : ℕ → ℕ) (x y : ℕ) (glyph : List ℕ) (row n fg bg j k : ℕ)
      → x * 8 + 8 ≤ g.width
      → g.width ≤ g.pitch
      → y * 8 + row + n ≤ g.height
      → j < n
      → k < 8
      → draw_rows g p x y glyph row n fg bg ((y * 8 + (row + j)) * g.pitch + (x * 8 + k))
        ≡ pixel (get_or glyph (row + j) 0) k fg bg
  unfolding draw_rows
  draw_rows_at p x y glyph row zero fg bg j k lx lw ly lj lk = absurd (omega arith)
  draw_rows_at p x y glyph row (suc n) fg bg zero k lx lw ly lj lk =
      let e : row + 0 ≡ row = omega arith in
      let z : 0 + k ≡ k = omega arith in
      let drawn =
        draw_row_at p x (y * 8 + row) (get_or glyph row 0) 0 8 fg bg k (omega arith) (omega arith)
          lk in
      rw e (
        draw_rows_before (draw_row g p x (y * 8 + row) (get_or glyph row 0) 0 8 fg bg) x y glyph
          (row + 1) n fg bg ((y * 8 + row) * g.pitch + (x * 8 + k)) (omega arith)
        ∙ ap
            (λ (i : ℕ).
              draw_row g p x (y * 8 + row) (get_or glyph row 0) 0 8 fg bg
                ((y * 8 + row) * g.pitch + (x * 8 + i)))
            (sym z)
        ∙ drawn
        ∙ ap (λ (i : ℕ). pixel (get_or glyph row 0) i fg bg) z)
  draw_rows_at p x y glyph row (suc n) fg bg (suc j) k lx lw ly lj lk =
      let e : row + suc j ≡ row + 1 + j = omega arith in
      rw e (
        draw_rows_at (draw_row g p x (y * 8 + row) (get_or glyph row 0) 0 8 fg bg) x y glyph
          (row + 1) n fg bg j k lx lw (omega arith) (omega arith) lk)

-- A character on the frame, in whose memory a line of pixels fits its pitch: the pixel in the row `j` and the
-- column `k` of its 8 rows and 8 columns is in the colour of the text if the bit `7 - k` of the row `j` of the font's
-- glyph is 1, and in the other colour if it is 0.
pub draw_char_lem :
    (g : Geometry) (p : ℕ → ℕ) (x y ch fg bg j k : ℕ)
    → x * 8 + 8 ≤ g.width
    → g.width ≤ g.pitch
    → y * 8 + 8 ≤ g.height
    → j < 8
    → k < 8
    → draw_char g p x y ch fg bg ((y * 8 + j) * g.pitch + (x * 8 + k))
      ≡ pixel (get_or (glyph_of g ch) j 0) k fg bg
unfolding draw_char
draw_char_lem g p x y ch fg bg j k lx lw ly lj lk =
    let z : 0 + j ≡ j = omega arith in
    ap
      (λ (i : ℕ). draw_rows g p x y (glyph_of g ch) 0 8 fg bg ((y * 8 + i) * g.pitch + (x * 8 + k)))
      (sym z)
    ∙ draw_rows_at g p x y (glyph_of g ch) 0 8 fg bg j k lx lw (omega arith) lj lk
    ∙ ap (λ (i : ℕ). pixel (get_or (glyph_of g ch) i 0) k fg bg) z
