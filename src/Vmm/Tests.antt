-- ===== src/Vmm/Tests.antt =====
-- Runs of the page tables, and their theorems at one page.
use strixos.Prelude.{ℕ, ◌+◌, ◌%◌, ◌^◌, ◌≡◌, refl, sym, true, false, inr, [], ◌∷◌, arith, test_bit}
use mathlib.Core.Bool.{true≢false}
use strixos.Pmm as Pages
use strixos.Pmm.{Pmm, alloc_page, find_clear, bmp_test, bmp_set, zero_words}
use strixos.Pmm.Invariant.{init-IsValid}
use strixos.Vmm.{frame, ensure, page_entry, map_page, unmap_page, get_phys, map_range}
use strixos.Vmm.Walk.{IsMapped, map_page-IsMapped}
use strixos.Vmm.Step.{Owned, IsTree}
use strixos.Vmm.Translate.{get_phys-map_page}

-- A memory of zeros, with the root of the tables at 0x1000.
abbrev fresh : Pmm
fresh = Pages.init (λ a. 0)

abbrev root : ℕ
root = 0x1000

abbrev page : ℕ
page = 0x8000123

abbrev with_page : Pmm
with_page = (map_page root fresh page 0x300456 2).1

abbrev not_executable : Pmm
not_executable = (map_page root fresh page 0x300456 (2 ^ 63)).1

succeeds : map_page root fresh page 0x300456 2 ≡ (true, with_page)
unfolding map_page ensure alloc_page find_clear Pages.init bmp_test test_bit page_entry zero_words
    bmp_set
succeeds = refl

runs :
    (get_phys root with_page.ram page ≡ 0x300123)
    × (get_phys root with_page.ram 0x8001000 ≡ 0)
    × ((map_page root with_page page 0 0).0 ≡ false)
    × (get_phys root (unmap_page root with_page page).1.ram page ≡ 0)
    × ((unmap_page root with_page 0).0 ≡ false)
    × (get_phys root (map_range root fresh 0 0x300000 2 2).ram 0x1007 ≡ 0x301007)
unfolding map_page unmap_page get_phys map_range ensure alloc_page find_clear Pages.init bmp_test
    test_bit page_entry zero_words bmp_set
runs = (refl, refl, refl, refl, refl, refl)

-- The flag that forbids execution stays in the address.
keeps_flag : get_phys root not_executable.ram page ≡ 2 ^ 63 + 0x300123
unfolding map_page get_phys ensure alloc_page find_clear Pages.init bmp_test test_bit page_entry
    zero_words bmp_set
keeps_flag = refl

-- The root lies below the pages of the allocator.
root-Owned : Owned fresh root
unfolding Pages.init
root-Owned i lt idle e = absurd (omega arith)

no_tables : IsTree fresh [] root page (39 ∷ 30 ∷ 21 ∷ [])
unfolding IsTree Pages.init
no_tables there = absurd (true≢false (sym there))

get_phys-map_page_example : get_phys root with_page.ram page ≡ frame 0x300456 + page % 4096
get_phys-map_page_example =
    get_phys-map_page root fresh page 0x300456 2 with_page (init-IsValid (λ a. 0)).0 root-Owned
      no_tables (omega arith) (omega arith) succeeds

with_page-IsMapped : IsMapped root with_page.ram page
unfolding map_page ensure alloc_page find_clear Pages.init bmp_test test_bit page_entry zero_words
    bmp_set
with_page-IsMapped = (refl, refl, inr (refl, refl, inr (refl, refl)))

map_page-IsMapped_example : map_page root with_page page 0 0 ≡ (false, with_page)
map_page-IsMapped_example = map_page-IsMapped root with_page page 0 0 with_page-IsMapped
