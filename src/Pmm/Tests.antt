-- ===== src/Pmm/Tests.antt =====
-- Runs of the page allocator, and its theorems at the state after `pmm_init`.
use strixos.Prelude.{ℕ, ◌+◌, ◌≡◌, refl, ◌≢◌, false, ◌∷◌, [], arith, ◌⊎◌, ◌<◌, ◌*◌}
use strixos.Pmm.{
  Pmm, init, alloc_page, alloc_pages, free_page, free_pages, find_clear, find_run, first_used,
  bmp_set, bmp_test, bmp_clear, mem_start, page_size,
}
use strixos.Pmm.Invariant.{IsValid, is_used, init-IsValid}
use strixos.Pmm.Alloc.{Allocated, alloc_page_lem}
use strixos.Pmm.Free.{SameUse}
use strixos.Pmm.Run.{Outcome, alloc_pages_lem}
use strixos.Pmm.FreeRun.{free_pages-alloc_pages}

abbrev dirty : ℕ → ℕ
dirty a = 7

abbrev fresh : Pmm
fresh = init dirty

-- A machine of 16 pages: pages 0, 1 and 4 are in use.
abbrev small : Pmm
small = record {
  bitmap = 0x13 ∷ 0 ∷ [];
  total_pages = 16;
  free_pages = 13;
  used_pages = 3;
  ram = dirty;
}

small_runs :
    ((alloc_page small).0 ≡ 0x202000)
    × ((alloc_pages small 2).0 ≡ 0x202000)
    × ((alloc_pages small 3).0 ≡ 0x205000)
    × ((alloc_pages small 12).0 ≡ 0)
    × ((alloc_pages small 0).0 ≡ 0)
    × ((free_page small 0x204000).bitmap ≡ 0x03 ∷ 0 ∷ [])
    × ((free_page small 0x204001).bitmap ≡ 0x13 ∷ 0 ∷ [])
    × ((free_page small 0x150000).bitmap ≡ 0x13 ∷ 0 ∷ [])
unfolding alloc_page alloc_pages free_page find_clear find_run first_used bmp_set bmp_test bmp_clear
small_runs = (refl, refl, refl, refl, refl, refl, refl, refl)

fresh_run : (alloc_page fresh).0 ≡ 0x200000
unfolding init alloc_page find_clear bmp_test
fresh_run = refl

init-IsValid_example :
    IsValid fresh
    × (fresh.total_pages ≡ 15872)
    × (fresh.free_pages ≡ 15872)
    × ((j : ℕ) → is_used fresh j ≡ false)
init-IsValid_example = init-IsValid dirty

fresh-IsValid : IsValid fresh
fresh-IsValid = (init-IsValid dirty).0

alloc_page_example :
    let (a, q) = alloc_page fresh in
    IsValid q
    × (((fresh.free_pages ≡ 0) × (a ≡ 0) × (q ≡ fresh))
        ⊎ ((0 < fresh.free_pages)
            × ((i : ℕ) × (a ≡ mem_start + i * page_size) × Allocated fresh q i)))
alloc_page_example = alloc_page_lem fresh fresh-IsValid

some_free : 0 < fresh.free_pages
some_free = omega (arith, (init-IsValid dirty).2)

alloc_pages_example : Outcome fresh 4 (alloc_pages fresh 4)
alloc_pages_example = alloc_pages_lem fresh 4 fresh-IsValid (omega arith) (omega arith)

four_pages : (alloc_pages fresh 4).0 ≡ 0x200000
unfolding init alloc_pages find_run first_used bmp_test
four_pages = refl

found : (alloc_pages fresh 4).0 ≢ 0
found = rw four_pages (omega arith)

free_pages-alloc_pages_example :
    SameUse fresh (free_pages (alloc_pages fresh 4).1 (alloc_pages fresh 4).0 4)
free_pages-alloc_pages_example =
    free_pages-alloc_pages fresh 4 fresh-IsValid (omega arith) (omega arith) found
