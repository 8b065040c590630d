-- ===== src/Pmm/Free.antt =====
-- `pmm_free_page`.
use strixos.Prelude.{
  ℕ, ◌+◌, ◌*◌, ◌%◌, ◌^◌, ◌<◌, ◌≡◌, refl, ap, ◌∙◌, ◌⊎◌, inl, inr, ◌==◌, ltb, leb, if◌then◌else◌,
  true, false, Bool-cases, ◌||◌, add64, sub64, arith,
}
use strixos.Pmm.{
  Pmm, page_size, mem_start, mem_end, addr_to_page, bmp_test, bmp_clear, alloc_page, free_page,
}
use strixos.Pmm.Bitmap.{bmp_test-bmp_clear, length-bmp_clear, bmp_clear-AreBytes}
use strixos.Pmm.Invariant.{IsValid, is_used, count, count-update}
use strixos.Pmm.Alloc.{Allocated, alloc_page_lem}

-- What `pmm_free_page` does to a page in use.
pub record Freed (p q : Pmm) (i : ℕ) : Type 0 where
  pub fits : i < p.total_pages
  pub was_used : is_used p i ≡ true
  pub now_free : (j : ℕ) → is_used q j ≡ (if i == j then false else is_used p j)
  pub one_more : q.free_pages ≡ p.free_pages + 1
  pub same_total : q.total_pages ≡ p.total_pages
  pub same_ram : q.ram ≡ p.ram

abbrev released : Pmm → ℕ → Pmm
released p i = record p {
  bitmap = bmp_clear p.bitmap i;
  free_pages = add64 p.free_pages 1;
  used_pages = sub64 p.used_pages 1;
}

module _ (p : Pmm) (v : IsValid p) (i : ℕ) (lt : i < p.total_pages)
    (used : is_used p i ≡ true) where
  released-count :
      count (is_used (released p i)) p.total_pages + 1 ≡ count (is_used p) p.total_pages
  released-count = ground (
    arith,
    count-update (is_used p) (is_used (released p i)) i false
        (λ j. bmp_test-bmp_clear p.bitmap i j v.bytes (omega arith)) p.total_pages lt,
  )

  released-IsValid : IsValid (released p i)
  released-IsValid = record {
    bytes = bmp_clear-AreBytes p.bitmap i v.bytes;
    room = omega (arith, length-bmp_clear p.bitmap i);
    in_memory = v.in_memory;
    counted = omega (arith, released-count);
    balanced = omega (arith, released-count);
  }

  released-Freed : Freed p (released p i) i
  released-Freed = record {
    fits = lt;
    was_used = used;
    now_free = λ j. bmp_test-bmp_clear p.bitmap i j v.bytes (omega arith);
    one_more = omega (arith, released-count);
    same_total = refl;
    same_ram = refl;
  }

-- `pmm_free_page` by its tests.
free_page_hit :
    (p : Pmm) (v : IsValid p) (i : ℕ)
    → i < p.total_pages
    → is_used p i ≡ true
    → free_page p (mem_start + i * page_size) ≡ released p i
unfolding free_page
free_page_hit p v i lt used =
    let e : addr_to_page (mem_start + i * page_size) ≡ i = omega arith in rw e (ground arith)

free_page_miss :
    (p : Pmm) (a : ℕ)
    → ((ltb a mem_start || leb mem_end a) ≡ true)
      ⊎ ((a % page_size == 0) ≡ false)
      ⊎ (bmp_test p.bitmap (addr_to_page a) ≡ false)
    → free_page p a ≡ p
unfolding free_page
free_page_miss p a h = ground arith

-- `pmm_free_page` at any address, on a valid state, keeps the invariant. At the address of a page in
-- use it takes that page out of use, counts it and changes no other page and no memory. At any other
-- address, one that is no page's or that of a free page, it changes nothing.
pub free_page_lem :
    (p : Pmm) (a : ℕ)
    → IsValid p
    → a < 2 ^ 64
    → let q = free_page p a in
      IsValid q
      × (((i : ℕ) × (a ≡ mem_start + i * page_size) × Freed p q i)
          ⊎ ((q ≡ p)
              × ((i : ℕ)
                  → a ≡ mem_start + i * page_size
                  → i < p.total_pages
                  → is_used p i ≡ false)))
free_page_lem p a v small = elim (Bool-cases (ltb a mem_start || leb mem_end a)) [
  | inl out ↦
      rw (free_page_miss p a (inl out)) (v, inr (refl, λ i e lt. absurd (outside i e lt out)))
  | inr inside ↦ elim (Bool-cases (a % page_size == 0)) [
    | inr odd ↦
        rw (free_page_miss p a (inr (inl odd)))
          (v, inr (refl, λ i e lt. absurd (unaligned i e odd)))
    | inl even ↦ at (addr_to_page a) (aligned inside even) (in_range inside) refl
  ]
]
  where
    outside :
        (i : ℕ)
        → a ≡ mem_start + i * page_size
        → i < p.total_pages
        → (ltb a mem_start || leb mem_end a) ≡ true
        → ⊥
    outside i e lt h = ground (arith, v.in_memory)

    unaligned : (i : ℕ) → a ≡ mem_start + i * page_size → (a % page_size == 0) ≡ false → ⊥
    unaligned i e h = ground arith

    aligned :
        (ltb a mem_start || leb mem_end a) ≡ false
        → (a % page_size == 0) ≡ true
        → a ≡ mem_start + addr_to_page a * page_size
    aligned h k = ground arith

    in_range : (ltb a mem_start || leb mem_end a) ≡ false → addr_to_page a < p.total_pages
    in_range h = ground (arith, v.in_memory)

    at :
        (i : ℕ)
        → a ≡ mem_start + i * page_size
        → i < p.total_pages
        → addr_to_page a ≡ i
        → let q = free_page p a in
          IsValid q
          × (((i : ℕ) × (a ≡ mem_start + i * page_size) × Freed p q i)
              ⊎ ((q ≡ p)
                  × ((i : ℕ)
                      → a ≡ mem_start + i * page_size
                      → i < p.total_pages
                      → is_used p i ≡ false)))
    at i e lt same = elim (Bool-cases (is_used p i)) [
      | inl used ↦
          rw (e, free_page_hit p v i lt used)
            (released-IsValid p v i lt used, inl (i, refl, released-Freed p v i lt used))
      | inr free ↦
          rw (free_page_miss p a (inr (inr (rw same free))))
            (v, inr (refl, λ j ej lj. let eij : j ≡ i = omega arith in rw eij free))
    ]

-- Freeing an address a second time changes nothing.
pub free_page_twice :
    (p : Pmm) (a : ℕ) → IsValid p → a < 2 ^ 64 → free_page (free_page p a) a ≡ free_page p a
free_page_twice p a v small = elim (free_page_lem p a v small).1 [
  | inl (i, e, f) ↦ elim (free_page_lem (free_page p a) a (free_page_lem p a v small).0 small).1 [
    | inl (j, e', g) ↦
        let same : j ≡ i = omega arith in
        let off : is_used (free_page p a) i ≡ false = ground (arith, f.now_free i) in
        let on : is_used (free_page p a) i ≡ true = rw same at g.was_used in cc
    | inr (k, miss) ↦ k
  ]
  | inr (k, miss) ↦ ap (λ q. free_page q a) k
]

-- The states before a page was taken and after it was given back.
pub record SameUse (p r : Pmm) : Type 0 where
  pub set : (j : ℕ) → is_used r j ≡ is_used p j
  pub free : r.free_pages ≡ p.free_pages
  pub used : r.used_pages ≡ p.used_pages
  pub total : r.total_pages ≡ p.total_pages

Freed-Allocated-SameUse :
    (p q r : Pmm) (i : ℕ)
    → IsValid p
    → IsValid q
    → IsValid r
    → Allocated p q i
    → Freed q r i
    → SameUse p r
Freed-Allocated-SameUse p q r i v w x a f = record {
  set = λ j. ground (arith, f.now_free j, a.now_used j, a.was_free);
  free = omega (arith, f.one_more, a.one_less);
  used = omega (arith, f.one_more, a.one_less, f.same_total, a.same_total);
  total = f.same_total ∙ a.same_total;
}

free-SameUse :
    (p q : Pmm) (a i : ℕ)
    → IsValid p
    → IsValid q
    → a ≡ mem_start + i * page_size
    → Allocated p q i
    → SameUse p (free_page q a)
free-SameUse p q a i v w e al =
    let fits : i < q.total_pages = omega (arith, al.fits, al.same_total) in
    let (x, o) = free_page_lem q a w (omega arith) in
    elim o [
      | inl (j, e', f) ↦
          let same : j ≡ i = omega arith in Freed-Allocated-SameUse p q _ i v w x al (rw same at f)
      | inr (k, miss) ↦
          let off : is_used q i ≡ false = miss i e fits in
          let on : is_used q i ≡ true = ground (arith, al.now_used i) in absurd (cc)
    ]

-- Freeing the page that `pmm_alloc_page` returned gives back the set of pages in use and the
-- counters of before.
pub free_page-alloc_page :
    (p : Pmm)
    → IsValid p
    → 0 < p.free_pages
    → let (a, q) = alloc_page p in let r = free_page q a in SameUse p r
free_page-alloc_page p v some_free =
    let (w, o) = alloc_page_lem p v in
    elim o [
      | inl (none_free, _, _) ↦ absurd (omega arith)
      | inr (_, (i, e, al)) ↦ free-SameUse p _ _ i v w e al
    ]
