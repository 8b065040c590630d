-- ===== src/Screen/Scroll.antt =====
-- kernel/main.c: what a new line behind the last one does to the cells.
use strixos.Prelude.{
  ℕ, zero, suc, ◌+◌, ◌-◌, ◌*◌, ◌≤◌, ◌<◌, ◌≡◌, refl, sym, ◌∙◌, ap, subst, ◌⊎◌, inl, inr, ◌==◌, ltb,
  leb, Bool-cases, true, List, length, length-set, get_or, set, arith,
}
use strixos.Buffer.{move_down, length-move_down, move_down_inside, get_or-set_ne, get_or-set_eq}
use strixos.Screen.Bounds.{InBounds}
use strixos.Screen.{Screen, vga_width, vga_height, vga_entry, color_of, fill, scroll, new_line}

pub fill_outside :
    (buf : List ℕ) (from n v j : ℕ)
    → from + n ≤ length buf
    → (j < from) ⊎ (from + n ≤ j)
    → get_or (fill buf from n v) j 0 ≡ get_or buf j 0
unfolding fill
fill_outside buf from zero v j le out = refl
fill_outside buf from (suc n) v j le out =
    fill_outside (set buf from v) (from + 1) n v j (omega (arith, length-set buf from v))
      (ground (arith, out))
    ∙ get_or-set_ne buf from j v (omega arith) (ground (arith, out))

pub fill_inside :
    (buf : List ℕ) (from n v j : ℕ)
    → from + n ≤ length buf
    → from ≤ j
    → j < from + n
    → get_or (fill buf from n v) j 0 ≡ v
unfolding fill
fill_inside buf from zero v j le above below = absurd (omega arith)
fill_inside buf from (suc n) v j le above below =
    let room : from + 1 + n ≤ length (set buf from v) = omega (arith, length-set buf from v) in
    elim (Bool-cases (j == from)) [
      | inl first ↦
          let e : j ≡ from = ground arith in
          fill_outside (set buf from v) (from + 1) n v j room (inl (omega arith))
          ∙ subst (λ (k : ℕ). get_or (set buf from v) k 0 ≡ v) (sym e)
              (get_or-set_eq buf from v (omega arith))
      | inr inner ↦
          let ne : from < j = ground arith in
          fill_inside (set buf from v) (from + 1) n v j room (omega arith) (omega arith)
    ]

-- The cell at a row and a column.
abbrev pub cell : Screen → ℕ → ℕ → ℕ
cell s r c = get_or s.buffer (r * vga_width + c) 0

-- A new line on the last line of the screen moves every line up by one: each line but the last shows what
-- the one below it showed, and the last one is blank in the colours of the screen, with the cursor at its
-- start.
pub new_line_scrolls :
    (s : Screen) (r c : ℕ)
    → InBounds s
    → s.row ≡ 24
    → r < 25
    → c < 80
    → ((r < 24) × (cell (new_line s) r c ≡ cell s (r + 1) c))
      ⊎ ((r ≡ 24)
          × ((cell (new_line s) r c ≡ vga_entry 32 (color_of s))
              × (((new_line s).row ≡ 24) × ((new_line s).col ≡ 0))))
unfolding new_line scroll
new_line_scrolls s r c ok last lr lc =
    let over : leb vga_height (s.row + 1) ≡ true = ground arith in
    let moved : List ℕ = move_down s.buffer 0 vga_width ((vga_height - 1) * vga_width) in
    let room : 1920 + 80 ≤ length moved =
      omega
        (arith, length-move_down s.buffer 0 vga_width ((vga_height - 1) * vga_width), ok.cells) in
    elim (Bool-cases (ltb r 24)) [
      | inl e ↦
          let low : r < 24 = ground arith in
          let below : r * 80 + c + 80 ≡ (r + 1) * 80 + c = omega arith in
          inl (
            low,
            rw over (
                fill_outside moved 1920 80 _ (r * 80 + c) room (inl (omega arith))
                ∙ move_down_inside s.buffer 0 80 1920 (r * 80 + c) (omega arith)
                    (omega (arith, ok.cells)) (omega arith) (omega arith)
                ∙ ap (λ k. get_or s.buffer k 0) below),
          )
      | inr e ↦
          let high : r ≡ 24 = ground arith in
          inr (
            high,
            (
              rw over (fill_inside moved 1920 80 _ (r * 80 + c) room (omega arith) (omega arith)),
              (rw over refl, rw over refl),
            ),
          )
    ]
