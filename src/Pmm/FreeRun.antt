-- ===== src/Pmm/FreeRun.antt =====
-- `pmm_free_pages`, alone and after `pmm_alloc_pages`.
use strixos.Prelude.{
  ℕ, zero, suc, ◌+◌, ◌*◌, ◌^◌, ◌≤◌, ◌<◌, ◌≡◌, refl, ◌∙◌, ◌≢◌, ◌-◌, inl, inr, leb, ltb,
  if◌then◌else◌, ◌&&◌, true, false, add64, arith,
}
use strixos.Pmm.{Pmm, page_size, mem_start, free_page, free_pages, alloc_pages}
use strixos.Pmm.Invariant.{IsValid, is_used}
use strixos.Pmm.Free.{Freed, free_page_lem, SameUse}
use strixos.Pmm.Run.{AllocatedRun, alloc_pages_lem}

-- What freeing the `n` pages from `i` on does.
pub record FreedRun (p q : Pmm) (i n : ℕ) : Type 0 where
  pub valid : IsValid q
  pub now_free : (j : ℕ) → is_used q j ≡ (if leb i j && ltb j (i + n) then false else is_used p j)
  pub more : q.free_pages ≡ p.free_pages + n
  pub same_total : q.total_pages ≡ p.total_pages

free_used_page :
    (p : Pmm) (i : ℕ)
    → IsValid p
    → i < p.total_pages
    → is_used p i ≡ true
    → IsValid (free_page p (mem_start + i * page_size))
      × Freed p (free_page p (mem_start + i * page_size)) i
free_used_page p i v lt used =
    let (w, o) = free_page_lem p (mem_start + i * page_size) v (omega arith) in
    (
      w,
      elim o [
        | inl (j, e, f) ↦ let same : j ≡ i = omega arith in rw same at f
        | inr (_, miss) ↦ let off : is_used p i ≡ false = miss i refl lt in absurd (cc)
      ],
    )

-- `pmm_free_pages` at the address of page `i`, where the `n` pages from `i` on are all in use, takes
-- exactly these out of use, counts them, and keeps the invariant.
pub free_pages_lem :
    (n : ℕ) (p : Pmm) (i : ℕ)
    → IsValid p
    → i + n ≤ p.total_pages
    → ((j : ℕ) → j < n → is_used p (i + j) ≡ true)
    → FreedRun p (free_pages p (mem_start + i * page_size) n) i n
unfolding free_pages
free_pages_lem zero p i v le used = record {
  valid = v;
  now_free = λ j. ground arith;
  more = omega arith;
  same_total = refl;
}
free_pages_lem (suc n) p i v le used =
    let e : add64 (mem_start + i * page_size) page_size ≡ mem_start + (i + 1) * page_size =
      omega arith in
    let first : is_used p i ≡ true =
      let z : i + 0 ≡ i = omega arith in rw z at (used 0 (omega arith)) in
    let (w, f) = free_used_page p i v (omega arith) first in
    rw e (
      step (free_page p (mem_start + i * page_size)) f (
        free_pages_lem n (free_page p (mem_start + i * page_size)) (i + 1) w
          (omega (arith, f.same_total))
          (λ j lt.
            let z : i + 1 + j ≡ i + suc j = omega arith in
            rw z (ground (arith, f.now_free (i + suc j), used (suc j) (omega arith))))))
  where
    step :
        (q : Pmm)
        → Freed p q i
        → FreedRun q (free_pages q (mem_start + (i + 1) * page_size) n) (i + 1) n
        → FreedRun p (free_pages q (mem_start + (i + 1) * page_size) n) i (suc n)
    step q f r = record {
      valid = r.valid;
      now_free = λ j. ground (arith, r.now_free j, f.now_free j);
      more = omega (arith, r.more, f.one_more);
      same_total = r.same_total ∙ f.same_total;
    }

module _ (p q : Pmm) (i n : ℕ) (v : IsValid p) (w : IsValid q) (al : AllocatedRun p q i n) where
  all_used : (j : ℕ) → j < n → is_used q (i + j) ≡ true
  all_used j lt = ground (arith, al.now_used (i + j))

  back : FreedRun q (free_pages q (mem_start + i * page_size) n) i n
  back = free_pages_lem n q i w (omega (arith, al.fits, al.same_total)) all_used

  was_clear : (j : ℕ) → (leb i j && ltb j (i + n)) ≡ true → is_used p j ≡ false
  was_clear j h =
      let e : i + (j - i) ≡ j = ground arith in rw e at (al.was_clear (j - i) (ground arith))

  free-AllocatedRun : SameUse p (free_pages q (mem_start + i * page_size) n)
  free-AllocatedRun = record {
    set = λ j. ground (arith, back.now_free j, al.now_used j, was_clear j);
    free = omega (arith, back.more, al.fewer);
    used = omega (
      arith, back.more, al.fewer, back.same_total, al.same_total, back.valid.balanced, w.balanced,
      v.balanced,
    );
    total = back.same_total ∙ al.same_total;
  }

-- Freeing the pages that `pmm_alloc_pages` returned gives back the set of pages in use and the
-- counters of before, whenever some run of `n` pages was free.
pub free_pages-alloc_pages :
    (p : Pmm) (n : ℕ)
    → IsValid p
    → 0 < n
    → n < 2 ^ 64
    → (alloc_pages p n).0 ≢ 0
    → let (a, q) = alloc_pages p n in SameUse p (free_pages q a n)
free_pages-alloc_pages p n v pos small found =
    let (w, o) = alloc_pages_lem p n v pos small in
    elim o [
      | inl (null, _, _) ↦ absurd (found null)
      | inr (i, e, al) ↦ rw e (free-AllocatedRun p _ i n v w al)
    ]
