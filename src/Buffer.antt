-- ===== src/Buffer.antt =====
-- Text in an array, as the editor (kernel/editor.c) and the shell's command line (kernel/shell.c) keep
-- it: the characters stand at the start of the array, and loops move them for an insertion or a
-- deletion.
pub mod Text
mod Tests
use strixos.Prelude.{
  ℕ, zero, suc, ◌+◌, ◌-◌, ◌≤◌, ◌<◌, ◌≡◌, refl, sym, ◌∙◌, ap, ap₂, subst, ◌⊎◌, inl, inr, ◌≢◌,
  Bool-cases, ==_refl, ◌==◌, ==_ne, ltb, leb, if◌then◌else◌, Bool, true, false, ◌&&◌, List, [], ◌∷◌,
  ◌++◌, length, length-append, length-set, length-take, length-drop, get_or, set, get_or-set, take,
  drop, min, arith,
}

-- `for(j=i;j>i-n;j--) buf[j]=buf[j-1]`
unfoldable pub move_up : List ℕ → ℕ → ℕ → List ℕ
move_up buf i zero = buf
move_up buf i (suc n) = move_up (set buf i (get_or buf (i - 1) 0)) (i - 1) n

-- `for(j=i;j<i+n;j++) buf[j]=buf[j+by]`
unfoldable pub move_down : List ℕ → ℕ → ℕ → ℕ → List ℕ
move_down buf i by zero = buf
move_down buf i by (suc n) = move_down (set buf i (get_or buf (i + by) 0)) (i + 1) by n

pub length-move_up : (buf : List ℕ) (i n : ℕ) → length (move_up buf i n) ≡ length buf
unfolding move_up
length-move_up buf i zero = refl
length-move_up buf i (suc n) =
    length-move_up (set buf i (get_or buf (i - 1) 0)) (i - 1) n ∙ length-set buf i _

pub length-move_down : (buf : List ℕ) (i by n : ℕ) → length (move_down buf i by n) ≡ length buf
unfolding move_down
length-move_down buf i by zero = refl
length-move_down buf i by (suc n) =
    length-move_down (set buf i (get_or buf (i + by) 0)) (i + 1) by n ∙ length-set buf i _

pub get_or-set_ne :
    (buf : List ℕ) (i j v : ℕ) → i < length buf → i ≢ j → get_or (set buf i v) j 0 ≡ get_or buf j 0
get_or-set_ne buf i j v lt ne =
    let e : (i == j) ≡ false = ==_ne i j ne in get_or-set buf i j v 0 lt ∙ rw e refl

pub get_or-set_eq : (buf : List ℕ) (i v : ℕ) → i < length buf → get_or (set buf i v) i 0 ≡ v
get_or-set_eq buf i v lt =
    let e : (i == i) ≡ true = ==_refl i in get_or-set buf i i v 0 lt ∙ rw e refl

pub move_up_outside :
    (buf : List ℕ) (i n j : ℕ)
    → i < length buf
    → n ≤ i
    → (j ≤ i - n) ⊎ (i < j)
    → get_or (move_up buf i n) j 0 ≡ get_or buf j 0
unfolding move_up
move_up_outside buf i zero j lt le out = refl
move_up_outside buf i (suc n) j lt le out =
    let v = get_or buf (i - 1) 0 in
    move_up_outside (set buf i v) (i - 1) n j (omega (arith, length-set buf i v)) (omega arith)
      (ground (arith, out))
    ∙ get_or-set_ne buf i j v lt (ground (arith, out))

pub move_up_inside :
    (buf : List ℕ) (i n j : ℕ)
    → i < length buf
    → n ≤ i
    → i - n < j
    → j ≤ i
    → get_or (move_up buf i n) j 0 ≡ get_or buf (j - 1) 0
unfolding move_up
move_up_inside buf i zero j lt le above below = absurd (omega arith)
move_up_inside buf i (suc n) j lt le above below =
    let v = get_or buf (i - 1) 0 in
    let room : i - 1 < length (set buf i v) = omega (arith, length-set buf i v) in
    elim (Bool-cases (j == i)) [
      | inl last ↦
          let e : j ≡ i = ground arith in
          subst (λ (k : ℕ). get_or (move_up (set buf i v) (i - 1) n) k 0 ≡ get_or buf (k - 1) 0)
            (sym e)
            (move_up_outside (set buf i v) (i - 1) n i room (omega arith) (inr (omega arith))
              ∙ get_or-set_eq buf i v lt)
      | inr inner ↦
          let ne : j < i = ground arith in
          move_up_inside (set buf i v) (i - 1) n j room (omega arith) (omega arith) (omega arith)
          ∙ get_or-set_ne buf i (j - 1) v lt (omega arith)
    ]

pub move_down_outside :
    (buf : List ℕ) (i by n j : ℕ)
    → i + n ≤ length buf
    → (j < i) ⊎ (i + n ≤ j)
    → get_or (move_down buf i by n) j 0 ≡ get_or buf j 0
unfolding move_down
move_down_outside buf i by zero j le out = refl
move_down_outside buf i by (suc n) j le out =
    let v = get_or buf (i + by) 0 in
    move_down_outside (set buf i v) (i + 1) by n j (omega (arith, length-set buf i v))
      (ground (arith, out))
    ∙ get_or-set_ne buf i j v (omega arith) (ground (arith, out))

pub move_down_inside :
    (buf : List ℕ) (i by n j : ℕ)
    → 0 < by
    → i + n ≤ length buf
    → i ≤ j
    → j < i + n
    → get_or (move_down buf i by n) j 0 ≡ get_or buf (j + by) 0
unfolding move_down
move_down_inside buf i by zero j pos le above below = absurd (omega arith)
move_down_inside buf i by (suc n) j pos le above below =
    let v = get_or buf (i + by) 0 in
    let room : i + 1 + n ≤ length (set buf i v) = omega (arith, length-set buf i v) in
    elim (Bool-cases (j == i)) [
      | inl first ↦
          let e : j ≡ i = ground arith in
          subst
            (λ (k : ℕ). get_or (move_down (set buf i v) (i + 1) by n) k 0 ≡ get_or buf (k + by) 0)
            (sym e)
            (move_down_outside (set buf i v) (i + 1) by n i room (inl (omega arith))
              ∙ get_or-set_eq buf i v (omega arith))
      | inr inner ↦
          let ne : i < j = ground arith in
          move_down_inside (set buf i v) (i + 1) by n j pos room (omega arith) (omega arith)
          ∙ get_or-set_ne buf i (j + by) v (omega arith) (omega arith)
    ]

pub get_or-take : (xs : List ℕ) (n j : ℕ) → j < n → get_or (take n xs) j 0 ≡ get_or xs j 0
get_or-take [] zero j lt = refl
get_or-take [] (suc n) j lt = refl
get_or-take (x ∷ xs) zero j lt = absurd (omega arith)
get_or-take (x ∷ xs) (suc n) zero lt = refl
get_or-take (x ∷ xs) (suc n) (suc j) lt = get_or-take xs n j (omega arith)

pub get_or-drop : (xs : List ℕ) (n j : ℕ) → get_or (drop n xs) j 0 ≡ get_or xs (n + j) 0
get_or-drop [] zero j = refl
get_or-drop [] (suc n) j = refl
get_or-drop (x ∷ xs) zero j = let e : 0 + j ≡ j = omega arith in rw e refl
get_or-drop (x ∷ xs) (suc n) j =
    let e : suc n + j ≡ suc (n + j) = omega arith in rw e (get_or-drop xs n j)

pub get_or-append :
    (xs ys : List ℕ) (j : ℕ)
    → get_or (xs ++ ys) j 0
      ≡ (if ltb j (length xs) then get_or xs j 0 else get_or ys (j - length xs) 0)
get_or-append [] ys j = ground arith
get_or-append (x ∷ xs) ys zero = ground arith
get_or-append (x ∷ xs) ys (suc j) = ground (arith, get_or-append xs ys j)

-- Lists of one length with the same elements are equal.
pub list_ext :
    (xs ys : List ℕ)
    → length xs ≡ length ys
    → ((j : ℕ) → j < length xs → get_or xs j 0 ≡ get_or ys j 0)
    → xs ≡ ys
list_ext [] [] e h = refl
list_ext [] (y ∷ ys) e h = absurd (omega arith)
list_ext (x ∷ xs) [] e h = absurd (omega arith)
list_ext (x ∷ xs) (y ∷ ys) e h =
    ap₂ ◌∷◌ (h 0 (omega arith)) (list_ext xs ys (omega arith) (λ j lt. h (suc j) (omega arith)))
