-- ===== src/Screen/Nearest.antt =====
-- kernel/main.c: `vga_nearest` finds the nearest of the 16 colours.
use native.Mathlib.Nat.{mul-le-mul_right, mul-le-mul_left}
use strixos.Prelude.{
  ℕ, zero, suc, ◌+◌, ◌-◌, ◌*◌, ◌≤◌, ◌<◌, ◌≡◌, refl, sym, ◌∙◌, ap, subst, ltb, leb, if◌then◌else◌,
  Bool, Bool-cases, leb→lt, inl, inr, ◌⊎◌, List, [], ◌∷◌, length, get_or, arith,
}
use strixos.Screen.Color.{vga_pal16, red, green, blue, square, distance, nearest_from, vga_nearest}

-- The distance at which the loop of `vga_nearest` ends.
least_from : ℕ → List ℕ → ℕ → ℕ
least_from rgb [] bestd = bestd
least_from rgb (c ∷ cs) bestd =
    least_from rgb cs (if ltb (distance rgb c) bestd then distance rgb c else bestd)

least_from-le : (rgb : ℕ) (cs : List ℕ) (bestd : ℕ) → least_from rgb cs bestd ≤ bestd
unfolding least_from
least_from-le rgb [] bestd = omega arith
least_from-le rgb (c ∷ cs) bestd =
    ground
      (arith, least_from-le rgb cs (if ltb (distance rgb c) bestd then distance rgb c else bestd))

least_from-least :
    (rgb : ℕ) (cs : List ℕ) (bestd j : ℕ)
    → j < length cs
    → least_from rgb cs bestd ≤ distance rgb (get_or cs j 0)
unfolding least_from
least_from-least rgb [] bestd j lt = absurd (omega arith)
least_from-least rgb (c ∷ cs) bestd zero lt =
    ground
      (arith, least_from-le rgb cs (if ltb (distance rgb c) bestd then distance rgb c else bestd))
least_from-least rgb (c ∷ cs) bestd (suc j) lt =
    least_from-least rgb cs (if ltb (distance rgb c) bestd then distance rgb c else bestd) j
      (omega arith)

-- What the loop knows of its result `k`.
Found : ℕ → List ℕ → ℕ → ℕ → ℕ → ℕ → Type 0
Found rgb cs i best bestd k =
    ((k ≡ best) × (least_from rgb cs bestd ≡ bestd))
    ⊎ ((i ≤ k)
        × ((k < i + length cs)
            × ((distance rgb (get_or cs (k - i) 0) ≡ least_from rgb cs bestd)
                × (least_from rgb cs bestd < bestd))))

get_or_past :
    (c : ℕ) (cs : List ℕ) (i k : ℕ) → i < k → get_or (c ∷ cs) (k - i) 0 ≡ get_or cs (k - (i + 1)) 0
get_or_past c cs i k lt = let e : k - i ≡ suc (k - (i + 1)) = omega arith in rw e refl

get_or_here : (c : ℕ) (cs : List ℕ) (i k : ℕ) → k ≡ i → get_or (c ∷ cs) (k - i) 0 ≡ c
get_or_here c cs i k e = let z : k - i ≡ 0 = omega arith in rw z refl

nearest_from-Found :
    (rgb : ℕ) (cs : List ℕ) (i best bestd : ℕ)
    → Found rgb cs i best bestd (nearest_from rgb cs i best bestd)
unfolding nearest_from least_from Found
nearest_from-Found rgb [] i best bestd = inl (refl, refl)
nearest_from-Found rgb (c ∷ cs) i best bestd = elim (Bool-cases (ltb (distance rgb c) bestd)) [
  | inl e ↦ rw e (elim (nearest_from-Found rgb cs (i + 1) i (distance rgb c)) [
    | inl (k, w) ↦ inr (
      omega arith,
      (
        omega arith,
        (
          ap (distance rgb) (get_or_here c cs i (nearest_from rgb cs (i + 1) i (distance rgb c)) k)
              ∙ sym w,
          ground arith,
        ),
      ),
    )
    | inr (from, (to, (at, less))) ↦ inr (
      omega arith,
      (
        omega arith,
        (
          ap (distance rgb)
                (get_or_past c cs i (nearest_from rgb cs (i + 1) i (distance rgb c)) (omega arith))
              ∙ at,
          ground arith,
        ),
      ),
    )
  ])
  | inr e ↦ rw e (elim (nearest_from-Found rgb cs (i + 1) best bestd) [
    | inl kept ↦ inl kept
    | inr (from, (to, (at, less))) ↦ inr (
      omega arith,
      (
        omega arith,
        (
          ap (distance rgb)
                (get_or_past c cs i (nearest_from rgb cs (i + 1) best bestd) (omega arith))
              ∙ at,
          less,
        ),
      ),
    )
  ])
]

nearest_from-first :
    (rgb : ℕ) (cs : List ℕ) (i best bestd j : ℕ)
    → j < length cs
    → best ≤ i
    → i + j < nearest_from rgb cs i best bestd
    → least_from rgb cs bestd < distance rgb (get_or cs j 0)
unfolding nearest_from least_from Found
nearest_from-first rgb [] i best bestd j lt le after = absurd (omega arith)
nearest_from-first rgb (c ∷ cs) i best bestd zero lt le after =
    elim (Bool-cases (ltb (distance rgb c) bestd)) [
      | inl e ↦ rw e (elim (nearest_from-Found rgb cs (i + 1) i (distance rgb c)) [
        | inl (k, w) ↦ let same = here e after in absurd (omega arith)
        | inr (from, (to, (at, less))) ↦ less
      ])
      | inr e ↦ rw e (elim (nearest_from-Found rgb cs (i + 1) best bestd) [
        | inl (k, w) ↦ let same = here e after in absurd (omega arith)
        | inr (from, (to, (at, less))) ↦ ground arith
      ])
    ]
  where
    here :
        {b : Bool}
        → ltb (distance rgb c) bestd ≡ b
        → i + 0 < nearest_from rgb (c ∷ cs) i best bestd
        → i
          < nearest_from rgb cs
              (i + 1)
              (if b then i else best)
              (if b then distance rgb c else bestd)
    here {b} e after =
        subst
          (λ (b : Bool).
            i
            < nearest_from rgb cs (i + 1) (if b then i else best)
                (if b then distance rgb c else bestd))
          e (omega (arith, after))
nearest_from-first rgb (c ∷ cs) i best bestd (suc j) lt le after =
    nearest_from-first rgb cs (i + 1) (if ltb (distance rgb c) bestd then i else best)
      (if ltb (distance rgb c) bestd then distance rgb c else bestd) j (omega arith) (ground arith)
      (omega arith)

square_le : (n : ℕ) → n < 256 → n * n < 65026
square_le n lt =
    omega (arith, mul-le-mul_right n (le_pred n lt), mul-le-mul_left 255 (le_pred n lt))
  where
    le_pred : (n : ℕ) → n < 256 → n ≤ 255
    le_pred n lt = omega arith

square-lt : (a b : ℕ) → a < 256 → b < 256 → square a b < 65026
square-lt a b x y = ground (arith, square_le (a - b) (omega arith), square_le (b - a) (omega arith))

distance-lt : (rgb c : ℕ) → distance rgb c < 0x7fffffff
unfolding distance
distance-lt rgb c = omega (
  arith,
  square-lt (red rgb) (red c) (omega arith) (omega arith),
  square-lt (green rgb) (green c) (omega arith) (omega arith),
  square-lt (blue rgb) (blue c) (omega arith) (omega arith),
)

-- The result of the loop over colours that are all nearer than `bestd`.
nearest_from-nearest :
    (rgb c : ℕ) (cs : List ℕ) (bestd j : ℕ)
    → distance rgb c < bestd
    → j < suc (length cs)
    → (nearest_from rgb (c ∷ cs) 0 0 bestd < suc (length cs))
      × ((distance rgb (get_or (c ∷ cs) (nearest_from rgb (c ∷ cs) 0 0 bestd) 0)
            ≤ distance rgb (get_or (c ∷ cs) j 0))
          × ((nearest_from rgb (c ∷ cs) 0 0 bestd ≤ j)
              ⊎ (distance rgb (get_or (c ∷ cs) (nearest_from rgb (c ∷ cs) 0 0 bestd) 0)
                  < distance rgb (get_or (c ∷ cs) j 0))))
unfolding Found
nearest_from-nearest rgb c cs bestd j near lt = elim (nearest_from-Found rgb (c ∷ cs) 0 0 bestd) [
  | inl (k, w) ↦ absurd (omega (arith, least_from-least rgb (c ∷ cs) bestd 0 (omega arith)))
  | inr (from, (to, (at, less))) ↦
      let k : nearest_from rgb (c ∷ cs) 0 0 bestd - 0 ≡ nearest_from rgb (c ∷ cs) 0 0 bestd =
        omega arith in
      let won : distance rgb (get_or (c ∷ cs) (nearest_from rgb (c ∷ cs) 0 0 bestd) 0)
          ≡ least_from rgb (c ∷ cs) bestd =
        ap (λ n. distance rgb (get_or (c ∷ cs) n 0)) (sym k) ∙ at in
      (
        omega arith,
        (
          omega (arith, won, least_from-least rgb (c ∷ cs) bestd j lt),
          elim (Bool-cases (leb (nearest_from rgb (c ∷ cs) 0 0 bestd) j)) [
            | inl e ↦ inl (ground arith)
            | inr e ↦ inr (
                omega (
                  arith,
                  won,
                  nearest_from-first rgb (c ∷ cs) 0 0 bestd j lt (omega arith)
                      (omega (arith, leb→lt (nearest_from rgb (c ∷ cs) 0 0 bestd) j e)),
                ))
          ],
        ),
      )
]

-- The colour that the screen takes is one of the 16, no other of the 16 is nearer, and no earlier one
-- is as near.
pub vga_nearest_lem :
    (rgb j : ℕ)
    → j < 16
    → (vga_nearest rgb < 16)
      × ((distance rgb (get_or vga_pal16 (vga_nearest rgb) 0) ≤ distance rgb (get_or vga_pal16 j 0))
          × ((vga_nearest rgb ≤ j)
              ⊎ (distance rgb (get_or vga_pal16 (vga_nearest rgb) 0)
                  < distance rgb (get_or vga_pal16 j 0))))
unfolding vga_nearest
vga_nearest_lem rgb j lt =
    nearest_from-nearest rgb 0x000000 _ 0x7fffffff j (distance-lt rgb 0x000000) lt
