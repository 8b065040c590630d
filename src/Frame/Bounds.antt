-- ===== src/Frame/Bounds.antt =====
-- kernel/fb.c: text in graphics mode stays inside the memory of the frame.
use native.Mathlib.Nat.{mul-le-mul_right}
use strixos.Prelude.{
  ℕ, zero, suc, ◌+◌, ◌-◌, ◌*◌, ◌/◌, ◌%◌, ◌^◌, ◌≤◌, ◌<◌, ◌≡◌, ◌==◌, ==_ne, ltb, if◌then◌else◌, false,
  Bool-cases, inl, inr, ◌&&◌, List, get_or, arith,
}
use strixos.Frame.Draw.{
  Geometry, store, put32, fill_row, fill_rows, draw_row, draw_rows, draw_char, glyph_of,
  move_pixels, set_pixels, move_lines, clear_lines, fb_scroll, draw_blanks,
}
use strixos.Frame.{Frame}

-- A line of pixels fits its pitch, and the characters fit the frame.
pub record IsGeometry (g : Geometry) : Type 0 where
  pub pitched : g.width ≤ g.pitch
  pub lines : 8 * g.h ≤ g.height
  pub some_line : 0 < g.h
  pub some_col : 0 < g.w

-- The memory behind the frame is as in `p0`.
abbrev pub Kept : Geometry → (ℕ → ℕ) → (ℕ → ℕ) → Type 0
Kept g p0 p = (a : ℕ) → g.height * g.pitch ≤ a → p a ≡ p0 a

-- The cursor is on the frame, and the memory behind it is as in `p0`.
pub record InFrame (g : Geometry) (p0 : ℕ → ℕ) (f : Frame) : Type 0 where
  pub on_col : f.cx < g.w
  pub on_line : f.cy < g.h
  pub kept : Kept g p0 f.pixels

module _ (g : Geometry) (p0 : ℕ → ℕ) (ok : IsGeometry g) where
  inside : (x y : ℕ) → x < g.pitch → y < g.height → y * g.pitch + x < g.height * g.pitch
  inside x y lx ly =
      let row : (y + 1) * g.pitch ≤ g.height * g.pitch = mul-le-mul_right g.pitch (le y ly) in
      omega (arith, row)
    where
      le : (y : ℕ) → y < g.height → y + 1 ≤ g.height
      le y ly = omega arith

  store-Kept :
      (p : ℕ → ℕ) (i c : ℕ) → i < g.height * g.pitch → Kept g p0 p → Kept g p0 (store p i c)
  store-Kept p i c lt same a le =
      let away : (a == i) ≡ false = ==_ne a i (omega arith) in
      let e : p a ≡ p0 a = same a le in rw away e

  put32-Kept : (p : ℕ → ℕ) (x y c : ℕ) → Kept g p0 p → Kept g p0 (put32 g p x y c)
  unfolding put32
  put32-Kept p x y c same = elim (Bool-cases (ltb x g.width && ltb y g.height)) [
    | inr e ↦ rw e same
    | inl e ↦
        let lx : x < g.pitch = ground (arith, e, ok.pitched) in
        let ly : y < g.height = ground (arith, e) in
        rw e (store-Kept p (y * g.pitch + x) c (inside x y lx ly) same)
  ]

  fill_row-Kept : (p : ℕ → ℕ) (x y n c : ℕ) → Kept g p0 p → Kept g p0 (fill_row g p x y n c)
  unfolding fill_row
  fill_row-Kept p x y zero c same = same
  fill_row-Kept p x y (suc n) c same =
      fill_row-Kept (put32 g p x y c) (x + 1) y n c (put32-Kept p x y c same)

  pub fill_rows-Kept :
      (p : ℕ → ℕ) (x y n k c : ℕ) → Kept g p0 p → Kept g p0 (fill_rows g p x y n k c)
  unfolding fill_rows
  fill_rows-Kept p x y n zero c same = same
  fill_rows-Kept p x y n (suc k) c same =
      fill_rows-Kept (fill_row g p x y n c) x (y + 1) n k c (fill_row-Kept p x y n c same)

  draw_row-Kept :
      (p : ℕ → ℕ) (x py bits col n fg bg : ℕ)
      → Kept g p0 p
      → Kept g p0 (draw_row g p x py bits col n fg bg)
  unfolding draw_row
  draw_row-Kept p x py bits col zero fg bg same = same
  draw_row-Kept p x py bits col (suc n) fg bg same =
      draw_row-Kept (put32 g p (x * 8 + col) py (if bits / 2 ^ (7 - col) % 2 == 1 then fg else bg))
        x py bits (col + 1) n fg bg
        (put32-Kept p (x * 8 + col) py (if bits / 2 ^ (7 - col) % 2 == 1 then fg else bg) same)

  draw_rows-Kept :
      (p : ℕ → ℕ) (x y : ℕ) (glyph : List ℕ) (row n fg bg : ℕ)
      → Kept g p0 p
      → Kept g p0 (draw_rows g p x y glyph row n fg bg)
  unfolding draw_rows
  draw_rows-Kept p x y glyph row zero fg bg same = same
  draw_rows-Kept p x y glyph row (suc n) fg bg same =
      draw_rows-Kept (draw_row g p x (y * 8 + row) (get_or glyph row 0) 0 8 fg bg) x y glyph
        (row + 1) n fg bg (draw_row-Kept p x (y * 8 + row) (get_or glyph row 0) 0 8 fg bg same)

  pub draw_char-Kept :
      (p : ℕ → ℕ) (x y ch fg bg : ℕ) → Kept g p0 p → Kept g p0 (draw_char g p x y ch fg bg)
  unfolding draw_char
  draw_char-Kept p x y ch fg bg same = draw_rows-Kept p x y (glyph_of g ch) 0 8 fg bg same

  pub draw_blanks-Kept :
      (p : ℕ → ℕ) (i y n fg bg : ℕ) → Kept g p0 p → Kept g p0 (draw_blanks g p i y n fg bg)
  unfolding draw_blanks
  draw_blanks-Kept p i y zero fg bg same = same
  draw_blanks-Kept p i y (suc n) fg bg same =
      draw_blanks-Kept (draw_char g p i y 32 fg bg) (i + 1) y n fg bg
        (draw_char-Kept p i y 32 fg bg same)

  move_pixels-Kept :
      (p : ℕ → ℕ) (dst src n : ℕ)
      → dst + n ≤ g.height * g.pitch
      → Kept g p0 p
      → Kept g p0 (move_pixels g p dst src n)
  unfolding move_pixels
  move_pixels-Kept p dst src zero le same = same
  move_pixels-Kept p dst src (suc n) le same =
      move_pixels-Kept (store p dst (p src)) (dst + 1) (src + 1) n (omega arith)
        (store-Kept p dst (p src) (omega arith) same)

  set_pixels-Kept :
      (p : ℕ → ℕ) (dst n c : ℕ)
      → dst + n ≤ g.height * g.pitch
      → Kept g p0 p
      → Kept g p0 (set_pixels g p dst n c)
  unfolding set_pixels
  set_pixels-Kept p dst zero c le same = same
  set_pixels-Kept p dst (suc n) c le same =
      set_pixels-Kept (store p dst c) (dst + 1) n c (omega arith)
        (store-Kept p dst c (omega arith) same)

  -- A whole line of the memory lies in the frame.
  line_fits : (y : ℕ) → y < g.height → y * g.pitch + g.pitch ≤ g.height * g.pitch
  line_fits y ly =
      let row : (y + 1) * g.pitch ≤ g.height * g.pitch = mul-le-mul_right g.pitch (le y ly) in
      omega (arith, row)
    where
      le : (y : ℕ) → y < g.height → y + 1 ≤ g.height
      le y ly = omega arith

  move_lines-Kept :
      (p : ℕ → ℕ) (y n bg : ℕ) → y + n ≤ g.height → Kept g p0 p → Kept g p0 (move_lines g p y n bg)
  unfolding move_lines
  move_lines-Kept p y zero bg le same = same
  move_lines-Kept p y (suc n) bg le same =
      let fits = line_fits y (omega arith) in
      let moved : ℕ → ℕ = move_pixels g p (y * g.pitch) ((y + 8) * g.pitch) g.width in
      move_lines-Kept (set_pixels g moved (y * g.pitch + g.width) (g.pitch - g.width) bg) (y + 1) n
        bg (omega arith)
        (set_pixels-Kept moved (y * g.pitch + g.width) (g.pitch - g.width) bg
          (omega (arith, fits, ok.pitched))
          (move_pixels-Kept p (y * g.pitch) ((y + 8) * g.pitch) g.width
            (omega (arith, fits, ok.pitched)) same))

  clear_lines-Kept :
      (p : ℕ → ℕ) (y n bg : ℕ) → y + n ≤ g.height → Kept g p0 p → Kept g p0 (clear_lines g p y n bg)
  unfolding clear_lines
  clear_lines-Kept p y zero bg le same = same
  clear_lines-Kept p y (suc n) bg le same =
      let fits = line_fits y (omega arith) in
      let cleared : ℕ → ℕ = set_pixels g p (y * g.pitch) g.width bg in
      clear_lines-Kept (set_pixels g cleared (y * g.pitch + g.width) (g.pitch - g.width) bg) (y + 1)
        n bg (omega arith)
        (set_pixels-Kept cleared (y * g.pitch + g.width) (g.pitch - g.width) bg
          (omega (arith, fits, ok.pitched))
          (set_pixels-Kept p (y * g.pitch) g.width bg (omega (arith, fits, ok.pitched)) same))

  pub fb_scroll-Kept : (p : ℕ → ℕ) (bg : ℕ) → Kept g p0 p → Kept g p0 (fb_scroll g p bg)
  unfolding fb_scroll
  fb_scroll-Kept p bg same =
      clear_lines-Kept (move_lines g p 0 ((g.h - 1) * 8) bg) ((g.h - 1) * 8)
        (g.height - (g.h - 1) * 8) bg (omega (arith, ok.lines))
        (move_lines-Kept p 0 ((g.h - 1) * 8) bg (omega (arith, ok.lines)) same)
