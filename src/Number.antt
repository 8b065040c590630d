-- ===== src/Number.antt =====
-- The decimal numbers that the kernel prints: the loop `while(v){rev[r++]='0'+v%10; v/=10;}` and the one that
-- writes `rev` backwards, as they stand in kernel/main.c, kernel/fb.c and kernel/coreutils_port.c.
mod Tests
use mathlib.Core.List.{reverse, reverse-cons}
use strixos.Prelude.{
  ℕ, zero, suc, ◌+◌, ◌-◌, ◌*◌, ◌/◌, ◌%◌, ◌^◌, ◌≤◌, ◌<◌, ◌≡◌, refl, sym, ◌∙◌, ap, subst, ◌==◌, leb,
  if◌then◌else◌, Bool, true, false, Bool-cases, inl, inr, ◌&&◌, Option, none, some, List, [], ◌∷◌,
  ◌++◌, length, length-append, All, arith,
}

-- The digits from the last one on; `none` where they do not fit `n` bytes.
unfoldable pub rev_digits : ℕ → ℕ → Option (List ℕ)
rev_digits zero v = if v == 0 then some [] else none
rev_digits (suc n) v = elim (v == 0) [
  | true ↦ some []
  | false ↦ elim (rev_digits n (v / 10)) [ none ↦ none | some ds ↦ some ((48 + v % 10) ∷ ds) ]
]

-- The number as it is printed, with a buffer of `n` bytes.
unfoldable pub decimal : ℕ → ℕ → Option (List ℕ)
decimal n v = elim (v == 0) [
  | true ↦ some (48 ∷ [])
  | false ↦ elim (rev_digits n v) [ none ↦ none | some ds ↦ some (reverse ds) ]
]

-- `cur=cur*10+(ch-'0')`, over the characters.
unfoldable pub read_number : ℕ → List ℕ → ℕ
read_number cur [] = cur
read_number cur (c ∷ cs) = read_number (cur * 10 + (c - 48)) cs

abbrev pub Digit : ℕ → Type 0
Digit c = (48 ≤ c) × (c ≤ 57)

pub All-append : (P : ℕ → Type 0) (xs ys : List ℕ) → All P xs → All P ys → All P (xs ++ ys)
All-append P [] ys p q = q
All-append P (x ∷ xs) ys (p, ps) q = (p, All-append P xs ys ps q)

pub read_number-append :
    (cur : ℕ) (xs ys : List ℕ) → read_number cur (xs ++ ys) ≡ read_number (read_number cur xs) ys
unfolding read_number
read_number-append cur [] ys = refl
read_number-append cur (x ∷ xs) ys = read_number-append (cur * 10 + (x - 48)) xs ys

-- What the digits `ds` of `v` are.
Prints : ℕ → ℕ → List ℕ → Type 0
Prints n v ds =
    (rev_digits n v ≡ some ds)
    × ((read_number 0 (reverse ds) ≡ v) × (All Digit (reverse ds) × (length (reverse ds) ≤ n)))

rev_digits_lem : (n v : ℕ) → v < 10 ^ n → (ds : List ℕ) × Prints n v ds
unfolding rev_digits Prints read_number
rev_digits_lem zero v lt =
    let z : v ≡ 0 = omega arith in ([], (rw z refl, (sym z, (tt, omega arith))))
rev_digits_lem (suc n) v lt = elim (Bool-cases (v == 0)) [
  | inl e ↦
      let z : v ≡ 0 = ground arith in ([], (rw (rev_digits, e) refl, (sym z, (tt, omega arith))))
  | inr e ↦
      let d : ℕ = 48 + v % 10 in
      let small : v / 10 < 10 ^ n = omega arith in
      let (ds, (eq, (value, (digits, le)))) = rev_digits_lem n (v / 10) small in
      let back : reverse (d ∷ ds) ≡ reverse ds ++ d ∷ [] = reverse-cons d ds in
      let read : read_number 0 (reverse ds ++ d ∷ []) ≡ v =
        read_number-append 0 (reverse ds) (d ∷ [])
        ∙ (let e : read_number 0 (reverse ds) * 10 + (d - 48) ≡ v = omega (arith, value) in e) in
      (
        d ∷ ds,
        (
          rw (rev_digits, e, eq) refl,
          (
            ap (read_number 0) back ∙ read,
            (
              subst (All Digit) (sym back)
                  (All-append Digit (reverse ds) (d ∷ []) digits ((omega arith, omega arith), tt)),
              omega (arith, ap length back, length-append (reverse ds) (d ∷ []), le),
            ),
          ),
        ),
      )
]

read_number_some : (ds : List ℕ) (v : ℕ) → read_number 0 ds ≡ v → 0 < v → 0 < length ds
unfolding read_number
read_number_some [] v e pos = absurd (omega arith)
read_number_some (d ∷ ds) v e pos = omega arith

-- With a buffer of `n` bytes, n above 0, each number below 10 ^ n is printed, within the buffer and in
-- digits, and reading the digits gives the number back.
pub read_number-decimal :
    (n v : ℕ)
    → 0 < n
    → v < 10 ^ n
    → (ds : List ℕ) × ((decimal n v ≡ some ds)
        × ((read_number 0 ds ≡ v) × (All Digit ds × ((0 < length ds) × (length ds ≤ n)))))
unfolding decimal Prints read_number
read_number-decimal n v pos lt = elim (Bool-cases (v == 0)) [
  | inl e ↦
      let z : v ≡ 0 = ground arith in
      (
        48 ∷ [],
        (
          rw (decimal, e) refl,
          (sym z, (((omega arith, omega arith), tt), (omega arith, omega arith))),
        ),
      )
  | inr e ↦
      let (ds, (eq, (value, (digits, le)))) = rev_digits_lem n v lt in
      (
        reverse ds,
        (
          rw (decimal, e, eq) refl,
          (value, (digits, (read_number_some (reverse ds) v value (ground arith), le))),
        ),
      )
]
