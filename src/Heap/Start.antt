-- ===== src/Heap/Start.antt =====
-- `heap_init` on the pages that the page allocator gives.
use strixos.Prelude.{
  ℕ, ◌+◌, ◌-◌, ◌≤◌, ◌≡◌, refl, ◌⊎◌, inl, inr, ◌==◌, ==_ne, true, false, [], ◌∷◌, arith,
}
use strixos.Pmm.{Pmm, alloc_pages}
use strixos.Pmm.Invariant.{IsValid}
use strixos.Pmm.Run.{HasUsed, alloc_pages_lem}
use strixos.Heap.{Heap, heap_pages, heap_size, header_size, init}
use strixos.Heap.Layout.{put_self, Holds}

-- With a valid page allocator, `heap_init` either finds no run of 256 free pages, and then changes
-- nothing but the base, which is null, or sets up a heap that holds one free block of the whole run
-- less its header. The page allocator stays valid.
pub init-Holds :
    (h : Heap) (p : Pmm)
    → IsValid p
    → let (h', q) = init h p in
      IsValid q
      × (((h' ≡ record h { heap_base = 0 })
            × (q ≡ p)
            × ((k : ℕ) → k + heap_pages ≤ p.total_pages → HasUsed p.bitmap k heap_pages))
          ⊎ (Holds h' (record { size = heap_size - header_size; free = true } ∷ [])
              × (h'.bytes ≡ h.bytes)))
unfolding init
init-Holds h p v =
    let (w, o) = alloc_pages_lem p heap_pages v (omega arith) (omega arith) in
    elim o [
      | inl (null, same, full) ↦
          let test : ((alloc_pages p heap_pages).0 == 0) ≡ true = rw null refl in
          rw test (w, inl (rw null refl, same, full))
      | inr (i, at, run) ↦
          let test : ((alloc_pages p heap_pages).0 == 0) ≡ false = ==_ne _ 0 (omega (arith, at)) in
          rw test (
            w,
            inr (
              record {
                lies = (put_self h.headers _ _, tt);
                starts = refl;
                above = omega (arith, at);
                below = omega (arith, at, run.fits, v.in_memory);
              },
              refl,
            ),
          )
    ]
