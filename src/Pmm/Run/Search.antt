-- ===== src/Pmm/Run/Search.antt =====
-- The two nested loops of `pmm_alloc_pages`, which look for a run of free pages.
use strixos.Prelude.{
  ℕ, zero, suc, ◌+◌, ◌-◌, ◌^◌, ◌≤◌, ◌<◌, ◌≡◌, ◌⊎◌, inl, inr, ◌==◌, leb, leb→le, leb→lt, true, false,
  Bool-cases, Option, none, some, List, add64, arith,
}
use strixos.Pmm.{bmp_test, first_used, find_run}

-- The pages from `i` on, `n` of them, are free.
abbrev pub IsClear : List ℕ → ℕ → ℕ → Type 0
IsClear bm i n = (j : ℕ) → j < n → bmp_test bm (i + j) ≡ false

-- One of them is in use.
abbrev pub HasUsed : List ℕ → ℕ → ℕ → Type 0
HasUsed bm i n = (j : ℕ) × (j < n) × (bmp_test bm (i + j) ≡ true)

abbrev FindsUsed : List ℕ → ℕ → ℕ → ℕ → Option ℕ → Type 0
FindsUsed bm i j n none = (k : ℕ) → j ≤ k → k < j + n → bmp_test bm (i + k) ≡ false
FindsUsed bm i j n (some k) = (k < j + n) × (bmp_test bm (i + k) ≡ true)

first_used-FindsUsed : (bm : List ℕ) (i j n : ℕ) → FindsUsed bm i j n (first_used bm i j n)
unfolding first_used
first_used-FindsUsed bm i j zero = λ k le lt. absurd (omega arith)
first_used-FindsUsed bm i j (suc n) = elim (Bool-cases (bmp_test bm (i + j))) [
  | inl e ↦ rw (e, first_used) (omega arith, e)
  | inr e ↦
      rw (e, first_used) (later (first_used bm i (j + 1) n) (first_used-FindsUsed bm i (j + 1) n) e)
]
  where
    later :
        (o : Option ℕ)
        → FindsUsed bm i (j + 1) n o
        → bmp_test bm (i + j) ≡ false
        → FindsUsed bm i j (suc n) o
    later none f e = λ k le lt. elim (Bool-cases (k == j)) [
      | inl q ↦ let q' : k ≡ j = ground arith in rw q' e
      | inr q ↦ f k (ground arith) (omega arith)
    ]
    later (some k) f e = (omega (arith, f.0), f.1)

-- The first run of `n` free pages from page `i` on, if there is one.
abbrev pub FindsRun : List ℕ → ℕ → ℕ → ℕ → Option ℕ → Type 0
FindsRun bm total n i none = (k : ℕ) → i ≤ k → k + n ≤ total → HasUsed bm k n
FindsRun bm total n i (some k) =
    (i ≤ k) × (k + n ≤ total) × IsClear bm k n × ((l : ℕ) → i ≤ l → l < k → HasUsed bm l n)

-- A page in use at `i + j` stands in each run that begins at `i` to `i + j`.
covers :
    (bm : List ℕ) (i j n k : ℕ)
    → j < n
    → bmp_test bm (i + j) ≡ true
    → i ≤ k
    → k < i + (j + 1)
    → HasUsed bm k n
covers bm i j n k lt e le before =
    let d : ℕ = i + j - k in let same : k + d ≡ i + j = omega arith in (d, omega arith, rw same e)

-- With fuel for every page that is left the search is right, also where `i + n` would wrap.
pub find_run-FindsRun :
    (fuel : ℕ) (bm : List ℕ) (total n i : ℕ)
    → total < 2 ^ 32
    → n < 2 ^ 64
    → i ≤ total
    → (n ≤ total) ⊎ (i ≡ 0)
    → total < i + fuel
    → FindsRun bm total n i (find_run fuel bm total n i)
unfolding find_run
find_run-FindsRun zero bm total n i small big le wrap enough = absurd (omega arith)
find_run-FindsRun (suc fuel) bm total n i small big le wrap enough =
    elim (Bool-cases (leb (add64 i n) total)) [
      | inr past ↦ rw (past, find_run) (λ k ik kn. absurd (omega (arith, leb→lt _ _ past)))
      | inl in_bounds ↦
          let fits : i + n ≤ total = omega (arith, leb→le _ _ in_bounds) in
          rw (in_bounds, find_run)
            (by_result (first_used bm i 0 n) (first_used-FindsUsed bm i 0 n) fits (λ j lt.
              find_run-FindsRun fuel bm total n (i + (j + 1)) small big (omega arith)
                (inl (omega arith)) (omega arith)))
    ]
  where
    extend :
        (j : ℕ) (o : Option ℕ)
        → j < n
        → bmp_test bm (i + j) ≡ true
        → FindsRun bm total n (i + (j + 1)) o
        → FindsRun bm total n i o
    extend j none lt e f = λ k ik kn. elim (Bool-cases (leb (i + (j + 1)) k)) [
      | inl after ↦ f k (leb→le _ _ after) kn
      | inr before ↦ covers bm i j n k lt e ik (leb→lt _ _ before)
    ]
    extend j (some k) lt e f = (
      omega (arith, f.0),
      f.1,
      f.2,
      λ l il lk. elim (Bool-cases (leb (i + (j + 1)) l)) [
        | inl after ↦ f.3 l (leb→le _ _ after) lk
        | inr before ↦ covers bm i j n l lt e il (leb→lt _ _ before)
      ],
    )

    by_result :
        (o : Option ℕ)
        → FindsUsed bm i 0 n o
        → i + n ≤ total
        → ((j : ℕ)
            → j < n
            → FindsRun bm total n (i + (j + 1)) (find_run fuel bm total n (i + (j + 1))))
        → FindsRun bm total n i
            (elim o [ none ↦ some i | some j ↦ find_run fuel bm total n (i + (j + 1)) ])
    by_result none f fits rec = (
      omega arith,
      fits,
      λ j lt. f j (omega arith) (omega arith),
      λ l il lk. absurd (omega arith),
    )
    by_result (some j) f fits rec =
        extend j (find_run fuel bm total n (i + (j + 1))) (omega (arith, f.0)) f.1
          (rec j (omega (arith, f.0)))
