-- ===== src/Vmm/Step.antt =====
-- One level of the walk of `vmm_map_page`: a table that is there is followed, or a fresh one is put in.
use strixos.Prelude.{
  ℕ, ◌+◌, ◌*◌, ◌%◌, ◌≤◌, ◌<◌, ◌≡◌, ◌≢◌, refl, sym, ◌∙◌, ap, subst, ◌==◌, ==_ne, ==_refl, ltb,
  ltb→lt, true, false, ◌⊎◌, inl, inr, Bool-cases, List, [], ◌∷◌, All, arith,
}
use mathlib.Core.Bool.{true≢false}
use strixos.Pmm.{Pmm, mem_start, page_size, alloc_page}
use strixos.Pmm.Invariant.{IsValid, is_used}
use strixos.Pmm.Alloc.{Allocated, alloc_page_lem}
use strixos.Vmm.{is_present, is_huge, frame, index, put_word, table_entry, ensure}

-- No free page of the allocator starts at `t`.
abbrev pub Owned : Pmm → ℕ → Type 0
Owned p t = (i : ℕ) → i < p.total_pages → is_used p i ≡ false → t ≢ mem_start + i * page_size

abbrev pub entry_at : Pmm → ℕ → ℕ → ℕ → ℕ
entry_at p t n va = p.ram (t + 8 * index n va)

-- The tables below `t` on the way to `va`, at the levels that the shifts `ns` tell: each that is there is
-- no free page, and none of those above it, which are `seen` and `t`.
unfoldable pub IsTree : Pmm → List ℕ → ℕ → ℕ → List ℕ → Type 0
IsTree p seen t va [] = Unit
IsTree p seen t va (n ∷ ns) =
    is_present (entry_at p t n va) ≡ true
    → Owned p (frame (entry_at p t n va))
      × All (λ s. s ≢ frame (entry_at p t n va)) (t ∷ seen)
      × IsTree p (t ∷ seen) (frame (entry_at p t n va)) va ns

-- What a level leaves to the next one.
pub record Stepped (p q : Pmm) (seen : List ℕ) (t va n : ℕ) (ns : List ℕ) : Type 0 where
  pub valid : IsValid q
  pub present : is_present (entry_at q t n va) ≡ true
  pub next_owned : Owned q (frame (entry_at q t n va))
  pub apart : All (λ s. s ≢ frame (entry_at q t n va)) (t ∷ seen)
  pub below : IsTree q (t ∷ seen) (frame (entry_at q t n va)) va ns
  pub kept :
      (s k : ℕ)
      → Owned p s
      → s % 4096 ≡ 0
      → k < 512
      → s + 8 * k ≢ t + 8 * index n va
      → q.ram (s + 8 * k) ≡ p.ram (s + 8 * k)
  pub owned : (s : ℕ) → Owned p s → Owned q s
  pub small : is_huge (entry_at p t n va) ≡ false → is_huge (entry_at q t n va) ≡ false

-- A table whose entries are zero has no tables below it.
empty-IsTree :
    (p : Pmm) (seen : List ℕ) (t va : ℕ) (ns : List ℕ)
    → ((k : ℕ) → k < 512 → p.ram (t + 8 * k) ≡ 0)
    → IsTree p seen t va ns
unfolding IsTree
empty-IsTree p seen t va [] zeros = tt
empty-IsTree p seen t va (n ∷ ns) zeros =
    let e : entry_at p t n va ≡ 0 = zeros (index n va) (omega arith) in
    λ there. absurd (true≢false (sym there ∙ ap is_present e))

-- The level where the table is there.
follow :
    (p : Pmm) (seen : List ℕ) (t va n : ℕ) (ns : List ℕ)
    → IsValid p
    → IsTree p seen t va (n ∷ ns)
    → is_present (entry_at p t n va) ≡ true
    → Stepped p p seen t va n ns
unfolding IsTree
follow p seen t va n ns v tree there =
    let (own, apart, below) = tree there in
    record {
      valid = v;
      present = there;
      next_owned = own;
      apart = apart;
      below = below;
      kept = λ s k own' aligned lt ne. refl;
      owned = λ s own'. own';
      small = λ h. h;
    }

-- A word of another page lies outside the page `i`.
outside :
    (s i k : ℕ)
    → s % 4096 ≡ 0
    → k < 512
    → s ≢ mem_start + i * page_size
    → (s + 8 * k < mem_start + i * page_size) ⊎ (mem_start + (i + 1) * page_size ≤ s + 8 * k)
outside s i k aligned lt ne = elim (Bool-cases (ltb s (mem_start + i * page_size))) [
  | inl below ↦
      let b : s < mem_start + i * page_size = ltb→lt _ _ below in inl (omega (arith, aligned))
  | inr above ↦
      let b : mem_start + i * page_size ≤ s = ground arith in
      let c : mem_start + i * page_size < s = omega (arith, ne) in inr (omega (arith, aligned))
]

-- The fresh table is no free page any more, and what was none is none.
fresh-Owned : (p q : Pmm) (i : ℕ) → Allocated p q i → Owned q (mem_start + i * page_size)
fresh-Owned p q i new j lt idle e =
    let same : i ≡ j = omega (arith, e) in
    let self : (i == j) ≡ true = ground arith in
    true≢false (sym (new.now_used j ∙ rw self refl) ∙ idle)

still-Owned : (p q : Pmm) (i s : ℕ) → Allocated p q i → Owned p s → Owned q s
still-Owned p q i s new own j lt idle =
    own j (omega (arith, new.same_total)) (was_idle (Bool-cases (i == j)))
  where
    was_idle : ((i == j) ≡ true) ⊎ ((i == j) ≡ false) → is_used p j ≡ false
    was_idle (inl same) = absurd (true≢false (sym (new.now_used j ∙ rw same refl) ∙ idle))
    was_idle (inr other) = sym (new.now_used j ∙ rw other refl) ∙ idle

apart_from :
    (p : Pmm) (seen : List ℕ) (i : ℕ) {q : Pmm}
    → Allocated p q i
    → All (Owned p) seen
    → All (λ s. s ≢ mem_start + i * page_size) seen
apart_from p [] i new above = tt
apart_from p (s ∷ seen) i new (own, above) =
    (own i new.fits new.was_free, apart_from p seen i new above)

-- The level where a fresh table is put in.
put_in :
    (p q : Pmm) (seen : List ℕ) (t va n : ℕ) (ns : List ℕ) (i : ℕ)
    → IsValid q
    → Owned p t
    → All (Owned p) seen
    → t % 4096 ≡ 0
    → Allocated p q i
    → Stepped p
        (put_word q (t + 8 * index n va) (table_entry (mem_start + i * page_size)))
        seen
        t
        va
        n
        ns
put_in p q seen t va n ns i v own above aligned new =
    let at = t + 8 * index n va in
    let page = mem_start + i * page_size in
    let self : (at == at) ≡ true = ==_refl at in
    let named : frame (entry_at (put_word q at (table_entry page)) t n va) ≡ page =
      rw self (omega arith) in
    record {
      valid = record {
        bytes = v.bytes;
        room = v.room;
        in_memory = v.in_memory;
        counted = v.counted;
        balanced = v.balanced;
      };
      present = rw self (ground arith);
      next_owned =
          subst (Owned (put_word q at (table_entry page))) (sym named) (fresh-Owned p q i new);
      apart =
          subst (λ f. All (λ s. s ≢ f) (t ∷ seen)) (sym named)
            (own i new.fits new.was_free, apart_from p seen i new above);
      below =
          subst (λ f. IsTree (put_word q at (table_entry page)) (t ∷ seen) f va ns) (sym named)
            (empty-IsTree (put_word q at (table_entry page)) (t ∷ seen) page va ns (λ k lt.
              let away : (page + 8 * k == at) ≡ false =
                ==_ne (page + 8 * k) at
                  (λ e. own i new.fits new.was_free (omega (arith, aligned, e))) in
              rw away (new.zeroed k lt)));
      kept = λ s k own' aligned' lt ne.
          let away : (s + 8 * k == at) ≡ false = ==_ne (s + 8 * k) at ne in
          let other : s ≢ page = own' i new.fits new.was_free in
          rw away (new.others (s + 8 * k) (outside s i k aligned' lt other));
      owned = λ s own'. still-Owned p q i s new own';
      small = λ h. rw self (ground arith);
    }

pub ensure-Stepped :
    (p q : Pmm) (seen : List ℕ) (t va n : ℕ) (ns : List ℕ)
    → IsValid p
    → Owned p t
    → All (Owned p) seen
    → t % 4096 ≡ 0
    → IsTree p seen t va (n ∷ ns)
    → ensure p (t + 8 * index n va) ≡ (true, q)
    → Stepped p q seen t va n ns
unfolding ensure
ensure-Stepped p q seen t va n ns v own above aligned tree done =
    elim (Bool-cases (is_present (entry_at p t n va))) [
      | inl there ↦
          let step : ensure p (t + 8 * index n va) ≡ (true, p) = rw (ensure, there) refl in
          let same : p ≡ q = ap (λ r. r.1) (sym step ∙ done) in
          subst (λ r. Stepped p r seen t va n ns) same (follow p seen t va n ns v tree there)
      | inr missing ↦ by_alloc (alloc_page p) refl (alloc_page_lem p v) missing
    ]
  where
    by_alloc :
        (r : ℕ × Pmm)
        → alloc_page p ≡ r
        → (IsValid r.1
            × (((p.free_pages ≡ 0) × (r.0 ≡ 0) × (r.1 ≡ p))
                ⊎ ((0 < p.free_pages)
                    × ((i : ℕ) × (r.0 ≡ mem_start + i * page_size) × Allocated p r.1 i))))
        → is_present (entry_at p t n va) ≡ false
        → Stepped p q seen t va n ns
    by_alloc (a, p') e (v', inl (none_free, null, same)) missing =
        let zero : (a == 0) ≡ true = ground arith in
        let step : ensure p (t + 8 * index n va) ≡ (false, p') =
          rw (ensure, e, missing, zero) refl in
        absurd (true≢false (sym (ap (λ r. r.0) (sym step ∙ done))))
    by_alloc (a, p') e (v', inr (some_free, (i, address, new))) missing =
        let given : (a == 0) ≡ false = ground arith in
        let step : ensure p (t + 8 * index n va)
            ≡ (true, put_word p' (t + 8 * index n va) (table_entry a)) =
          rw (ensure, e, missing, given) refl in
        let same : put_word p' (t + 8 * index n va) (table_entry a) ≡ q =
          ap (λ r. r.1) (sym step ∙ done) in
        subst (λ r. Stepped p r seen t va n ns) same
          (subst
            (λ page. Stepped p (put_word p' (t + 8 * index n va) (table_entry page)) seen t va n ns)
            (sym address) (put_in p p' seen t va n ns i v' own above aligned new))
