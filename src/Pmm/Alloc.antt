-- ===== src/Pmm/Alloc.antt =====
-- `pmm_alloc_page`.
mod Zero
pub use Zero.*
use strixos.Prelude.{
  ℕ, zero, suc, ◌+◌, ◌-◌, ◌*◌, ◌/◌, ◌%◌, ◌^◌, ◌≤◌, ◌<◌, ◌≡◌, refl, sym, ap, ◌∙◌, ◌≢◌, ◌⊎◌, inl, inr,
  ◌==◌, ltb, leb, if◌then◌else◌, Bool, true, false, Bool-cases, not, ◌||◌, Option, none, some, List,
  length, add64, sub64, arith,
}
use strixos.Pmm.{
  Pmm, page_size, mem_start, mem_end, page_to_addr, addr_to_page, bmp_test, bmp_set, bmp_clear,
  find_clear, alloc_page, free_page, zero_words,
}
use strixos.Pmm.Bitmap.{
  AreBytes, bmp_test-bmp_set, bmp_test-bmp_clear, length-bmp_set, bmp_set-AreBytes,
  length-bmp_clear, bmp_clear-AreBytes,
}
use strixos.Pmm.Invariant.{
  IsValid, is_used, count, count-le, count-lt, count-true, count-update, total-lt,
}

-- The first page in the range that is not in use, if there is one.
abbrev FindsClear : List ℕ → ℕ → ℕ → Option ℕ → Type 0
FindsClear bm i n none = (j : ℕ) → i ≤ j → j < i + n → bmp_test bm j ≡ true
FindsClear bm i n (some k) =
    (i ≤ k)
    × (k < i + n)
    × (bmp_test bm k ≡ false)
    × ((j : ℕ) → i ≤ j → j < k → bmp_test bm j ≡ true)

find_clear-FindsClear : (bm : List ℕ) (i n : ℕ) → FindsClear bm i n (find_clear bm i n)
unfolding find_clear
find_clear-FindsClear bm i zero = λ j le lt. absurd (omega arith)
find_clear-FindsClear bm i (suc n) = elim (Bool-cases (bmp_test bm i)) [
  | inl e ↦
      rw (e, find_clear) (later (find_clear bm (i + 1) n) (find_clear-FindsClear bm (i + 1) n) e)
  | inr e ↦ rw (e, find_clear) (omega arith, omega arith, e, λ j le lt. absurd (omega arith))
]
  where
    at :
        (j : ℕ)
        → bmp_test bm i ≡ true
        → i ≤ j
        → (i + 1 ≤ j → bmp_test bm j ≡ true)
        → bmp_test bm j ≡ true
    at j e le f = elim (Bool-cases (i == j)) [
      | inl q ↦ let q' : i ≡ j = ground arith in rw (← q') e
      | inr q ↦ f (ground arith)
    ]

    later :
        (o : Option ℕ)
        → FindsClear bm (i + 1) n o
        → bmp_test bm i ≡ true
        → FindsClear bm i (suc n) o
    later none f e = λ j le lt. at j e le (λ g. f j g (omega arith))
    later (some k) f e =
        (omega (arith, f.0), omega (arith, f.1), f.2, λ j le lt. at j e le (λ g. f.3 j g lt))

-- What a call that returns page `i` has done.
pub record Allocated (p q : Pmm) (i : ℕ) : Type 0 where
  pub fits : i < p.total_pages
  pub was_free : is_used p i ≡ false
  pub least : (j : ℕ) → j < i → is_used p j ≡ true
  pub now_used : (j : ℕ) → is_used q j ≡ (if i == j then true else is_used p j)
  pub one_less : q.free_pages + 1 ≡ p.free_pages
  pub same_total : q.total_pages ≡ p.total_pages
  pub zeroed : (k : ℕ) → k < 512 → q.ram (mem_start + i * page_size + 8 * k) ≡ 0
  pub others :
      (a : ℕ)
      → (a < mem_start + i * page_size) ⊎ (mem_start + (i + 1) * page_size ≤ a)
      → q.ram a ≡ p.ram a

abbrev taken : Pmm → ℕ → Pmm
taken p i = record p {
  bitmap = bmp_set p.bitmap i;
  free_pages = sub64 p.free_pages 1;
  used_pages = add64 p.used_pages 1;
  ram = zero_words (page_to_addr i) (page_size / 8) p.ram;
}

module _ (p : Pmm) (v : IsValid p) (i : ℕ) (lt : i < p.total_pages)
    (clear : is_used p i ≡ false) where
  taken-count : count (is_used (taken p i)) p.total_pages ≡ count (is_used p) p.total_pages + 1
  taken-count = ground (
    arith,
    count-update (is_used p) (is_used (taken p i)) i true
        (λ j. bmp_test-bmp_set p.bitmap i j v.bytes (omega arith)) p.total_pages lt,
  )

  taken-IsValid : IsValid (taken p i)
  taken-IsValid = record {
    bytes = bmp_set-AreBytes p.bitmap i v.bytes;
    room = omega (arith, length-bmp_set p.bitmap i);
    in_memory = v.in_memory;
    counted = omega (arith, taken-count);
    balanced = omega (arith, count-lt (is_used p) p.total_pages i lt clear);
  }

  taken-Allocated : ((j : ℕ) → j < i → is_used p j ≡ true) → Allocated p (taken p i) i
  taken-Allocated before = record {
    fits = lt;
    was_free = clear;
    least = before;
    now_used = λ j. bmp_test-bmp_set p.bitmap i j v.bytes (omega arith);
    one_less = omega (arith, count-lt (is_used p) p.total_pages i lt clear);
    same_total = refl;
    zeroed = λ k h.
        let e : page_to_addr i ≡ mem_start + i * page_size = omega arith in
        rw e (zero_words_inside (mem_start + i * page_size) 512 p.ram k h);
    others = λ a h.
        let e : page_to_addr i ≡ mem_start + i * page_size = omega arith in
        rw e (zero_words_outside (mem_start + i * page_size) 512 p.ram a (omega arith));
  }

-- `pmm_alloc_page` on a valid state keeps the invariant. It returns the null pointer and changes
-- nothing if no page is free; otherwise it returns the address of the lowest free page, which is
-- then in use and full of zeros, and nothing else changes.
pub alloc_page_lem :
    (p : Pmm)
    → IsValid p
    → let (a, q) = alloc_page p in
      IsValid q
      × (((p.free_pages ≡ 0) × (a ≡ 0) × (q ≡ p))
          ⊎ ((0 < p.free_pages) × ((i : ℕ) × (a ≡ mem_start + i * page_size) × Allocated p q i)))
unfolding alloc_page
alloc_page_lem p v =
    by_result (find_clear p.bitmap 0 p.total_pages) (find_clear-FindsClear p.bitmap 0 p.total_pages)
  where
    by_result :
        (o : Option ℕ)
        → FindsClear p.bitmap 0 p.total_pages o
        → let (a, q) : ℕ × Pmm = elim o [ none ↦ (0, p) | some i ↦ (page_to_addr i, taken p i) ] in
          IsValid q
          × (((p.free_pages ≡ 0) × (a ≡ 0) × (q ≡ p))
              ⊎ ((0 < p.free_pages)
                  × ((i : ℕ) × (a ≡ mem_start + i * page_size) × Allocated p q i)))
    by_result none f = (
      v,
      inl (
        omega
            (arith, count-true (is_used p) p.total_pages (λ j lt. f j (omega arith) (omega arith))),
        refl,
        refl,
      ),
    )
    by_result (some i) f =
        let lt : i < p.total_pages = omega (arith, f.1) in
        (
          taken-IsValid p v i lt f.2,
          inr (
            omega (arith, count-lt (is_used p) p.total_pages i lt f.2),
            (i, omega arith, taken-Allocated p v i lt f.2 (λ j h. f.3 j (omega arith) h)),
          ),
        )
