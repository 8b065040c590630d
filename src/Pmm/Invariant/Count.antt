-- ===== src/Pmm/Invariant/Count.antt =====
-- How many numbers below a bound are in a set.
use strixos.Prelude.{
  ℕ, zero, suc, ◌+◌, ◌≤◌, ◌<◌, ◌≡◌, ◌==◌, if◌then◌else◌, Bool, true, false, Bool-cases, inl, inr,
  ap, arith,
}

abbrev pub count : (ℕ → Bool) → ℕ → ℕ
count f zero = 0
count f (suc n) = (if f n then 1 else 0) + count f n

pub count-le : (f : ℕ → Bool) (n : ℕ) → count f n ≤ n
count-le f zero = omega arith
count-le f (suc n) = ground (arith, count-le f n)

pub count-false : (f : ℕ → Bool) (n : ℕ) → ((j : ℕ) → f j ≡ false) → count f n ≡ 0
count-false f zero h = omega arith
count-false f (suc n) h = ground (arith, h n, count-false f n h)

pub count-true : (f : ℕ → Bool) (n : ℕ) → ((j : ℕ) → j < n → f j ≡ true) → count f n ≡ n
count-true f zero h = omega arith
count-true f (suc n) h =
    ground (arith, h n (omega arith), count-true f n (λ j lt. h j (omega arith)))

-- A member keeps the count of the rest below the bound.
pub count-lt : (f : ℕ → Bool) (n i : ℕ) → i < n → f i ≡ false → count f n < n
count-lt f zero i lt e = absurd (omega arith)
count-lt f (suc n) i lt e = elim (Bool-cases (i == n)) [
  | inl h ↦ ground (arith, count-le f n, ap f (let q : i ≡ n = ground arith in q))
  | inr h ↦ ground (arith, count-lt f n i)
]

module _ (f g : ℕ → Bool) (i : ℕ) (b : Bool) (h : (j : ℕ) → g j ≡ (if i == j then b else f j)) where
  pub count-outside : (n : ℕ) → n ≤ i → count g n ≡ count f n
  count-outside zero le = omega arith
  count-outside (suc n) le = ground (arith, h n, count-outside n)

  -- One member more or less.
  pub count-update :
      (n : ℕ) → i < n → count g n + (if f i then 1 else 0) ≡ count f n + (if b then 1 else 0)
  count-update zero lt = absurd (omega arith)
  count-update (suc n) lt = elim (Bool-cases (i == n)) [
    | inl e ↦
        let q : i ≡ n = ground arith in rw q (ground (arith, h n, count-outside n (omega arith)))
    | inr e ↦ ground (arith, h n, count-update n)
  ]

pub count-full : (f : ℕ → Bool) (n j : ℕ) → count f n ≡ n → j < n → f j ≡ true
count-full f n j e lt = elim (Bool-cases (f j)) [
  | inl t ↦ t
  | inr o ↦ absurd (omega (arith, count-lt f n j lt o))
]
