-- ===== src/Pmm/Run.antt =====
-- `pmm_alloc_pages`.
mod Search
mod Mark
pub use Search.{IsClear, HasUsed}
use strixos.Prelude.{
  ℕ, zero, suc, ◌+◌, ◌-◌, ◌*◌, ◌/◌, ◌^◌, ◌≤◌, ◌<◌, ◌≡◌, refl, ◌⊎◌, inl, inr, ◌==◌, leb, ltb,
  if◌then◌else◌, ◌&&◌, Bool, true, false, Bool-cases, Option, none, some, add64, sub64, arith,
}
use strixos.Pmm.{
  Pmm, page_size, mem_start, page_to_addr, find_run, set_run, zero_words, alloc_page, alloc_pages,
}
use strixos.Pmm.Invariant.{IsValid, is_used, count, count-le, count-full}
use strixos.Pmm.Alloc.{Allocated, alloc_page_lem, zero_words_inside, zero_words_outside}
use Search.{FindsRun, find_run-FindsRun}
use Mark.{bmp_test-set_run, length-set_run, set_run-AreBytes, count-set_run}

-- What a call that returns the pages from `i` on has done.
pub record AllocatedRun (p q : Pmm) (i n : ℕ) : Type 0 where
  pub fits : i + n ≤ p.total_pages
  pub was_clear : IsClear p.bitmap i n
  pub least : (k : ℕ) → k < i → HasUsed p.bitmap k n
  pub now_used : (j : ℕ) → is_used q j ≡ (if leb i j && ltb j (i + n) then true else is_used p j)
  pub fewer : q.free_pages + n ≡ p.free_pages
  pub same_total : q.total_pages ≡ p.total_pages
  pub zeroed : (k : ℕ) → k < n * 512 → q.ram (mem_start + i * page_size + 8 * k) ≡ 0
  pub others :
      (a : ℕ)
      → (a < mem_start + i * page_size) ⊎ (mem_start + (i + n) * page_size ≤ a)
      → q.ram a ≡ p.ram a

abbrev taken : Pmm → ℕ → ℕ → Pmm
taken p i n = record p {
  bitmap = set_run p.bitmap i n;
  free_pages = sub64 p.free_pages n;
  used_pages = add64 p.used_pages n;
  ram = zero_words (page_to_addr i) (n * page_size / 8) p.ram;
}

module _ (p : Pmm) (v : IsValid p) (i n : ℕ) (fits : i + n ≤ p.total_pages)
    (clear : IsClear p.bitmap i n) where
  taken-count : count (is_used (taken p i n)) p.total_pages ≡ count (is_used p) p.total_pages + n
  taken-count = count-set_run n p.bitmap i p.total_pages v.bytes v.room fits clear

  taken-le : count (is_used (taken p i n)) p.total_pages ≤ p.total_pages
  taken-le = count-le (is_used (taken p i n)) p.total_pages

  taken-IsValid : IsValid (taken p i n)
  taken-IsValid = record {
    bytes = set_run-AreBytes n p.bitmap i v.bytes;
    room = omega (arith, length-set_run n p.bitmap i);
    in_memory = v.in_memory;
    counted = omega (arith, taken-count, taken-le);
    balanced = omega (arith, taken-count, taken-le);
  }

  taken-AllocatedRun : ((k : ℕ) → k < i → HasUsed p.bitmap k n) → AllocatedRun p (taken p i n) i n
  taken-AllocatedRun least = record {
    fits = fits;
    was_clear = clear;
    least = least;
    now_used = λ j. bmp_test-set_run n p.bitmap i j v.bytes (omega arith);
    fewer = omega (arith, taken-count, taken-le);
    same_total = refl;
    zeroed = λ k h.
        rw same
          (zero_words_inside (mem_start + i * page_size) (n * page_size / 8) p.ram k (omega arith));
    others = λ a h.
        rw same (
          zero_words_outside (mem_start + i * page_size) (n * page_size / 8) p.ram a (omega arith));
  }
    where
      same : page_to_addr i ≡ mem_start + i * page_size
      same = omega arith

-- What the caller of `pmm_alloc_pages` may rely on.
abbrev pub Outcome : Pmm → ℕ → ℕ × Pmm → Type 0
Outcome p n r =
    IsValid r.1
    × (((r.0 ≡ 0) × (r.1 ≡ p) × ((k : ℕ) → k + n ≤ p.total_pages → HasUsed p.bitmap k n))
        ⊎ ((i : ℕ) × (r.0 ≡ mem_start + i * page_size) × AllocatedRun p r.1 i n))

-- For one page the function calls `pmm_alloc_page`.
single-Outcome : (p : Pmm) → IsValid p → Outcome p 1 (alloc_page p)
single-Outcome p v =
    let (w, o) = alloc_page_lem p v in
    (
      w,
      elim o [
        | inl (none_free, null, same) ↦ inl (
          null,
          same,
          λ k le. (
            0,
            omega arith,
            count-full (is_used p) p.total_pages (k + 0) (omega arith) (omega arith),
          ),
        )
        | inr (_, (i, e, al)) ↦ inr (i, e, one_page p (alloc_page p).1 i al)
      ],
    )
  where
    one_page : (p q : Pmm) (i : ℕ) → Allocated p q i → AllocatedRun p q i 1
    one_page p q i al = record {
      fits = omega (arith, al.fits);
      was_clear = λ j lt. let e : i + j ≡ i = omega arith in rw e al.was_free;
      least = λ k lt. (0, omega arith, al.least (k + 0) (omega arith));
      now_used = λ j. ground (arith, al.now_used j);
      fewer = al.one_less;
      same_total = al.same_total;
      zeroed = λ k lt. al.zeroed k (omega arith);
      others = al.others;
    }

-- `pmm_alloc_pages`, for any positive count, on a valid state keeps the invariant. It returns the
-- null pointer and changes nothing if every run of `n` pages has one in use; otherwise it returns
-- the lowest run of `n` free pages, which is then in use and full of zeros, and nothing else
-- changes.
pub alloc_pages_lem :
    (p : Pmm) (n : ℕ) → IsValid p → 0 < n → n < 2 ^ 64 → Outcome p n (alloc_pages p n)
unfolding alloc_pages
alloc_pages_lem p n v pos small = elim (Bool-cases (n == 1)) [
  | inl one ↦ let e : n ≡ 1 = ground arith in rw e (single-Outcome p v)
  | inr more ↦
      let positive : (n == 0) ≡ false = ground arith in
      rw (positive, more)
        (by_result (find_run (p.total_pages + 1) p.bitmap p.total_pages n 0) (
          find_run-FindsRun (p.total_pages + 1) p.bitmap p.total_pages n 0 (omega arith) small
            (omega arith) (inr refl) (omega arith)))
]
  where
    by_result :
        (o : Option ℕ)
        → FindsRun p.bitmap p.total_pages n 0 o
        → Outcome p n (elim o [ none ↦ (0, p) | some i ↦ (page_to_addr i, taken p i n) ])
    by_result none f = (v, inl (refl, refl, λ k le. f k (omega arith) le))
    by_result (some i) f = (
      taken-IsValid p v i n f.1 f.2,
      inr (
        i,
        omega (arith, f.1),
        taken-AllocatedRun p v i n f.1 f.2 (λ k lt. f.3 k (omega arith) lt),
      ),
    )
