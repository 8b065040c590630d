-- ===== src/Heap/Tests.antt =====
-- Runs of the heap, and its theorems at a heap of three blocks.
use strixos.Prelude.{
  ℕ, ◌+◌, ◌-◌, ◌*◌, ◌%◌, ◌^◌, ◌≤◌, ◌≡◌, refl, ◌⊎◌, Bool, true, false, some, List, [], ◌∷◌, arith,
}
use strixos.Pmm as Pages
use strixos.Pmm.{Pmm}
use strixos.Pmm.Invariant.{IsValid, init-IsValid}
use strixos.Pmm.Run.{HasUsed}
use strixos.Heap.Start.{init-Holds}
use strixos.Heap.{
  heap_pages, heap_size, header_size, init, Header, Heap, put, heap_magic, kmalloc, kfree, heap_sum,
  find_free, carve,
}
use strixos.Heap.Blocks.{Block, span, freed}
use strixos.Heap.Layout.{Holds}
use strixos.Heap.Alloc.{Outcome, kmalloc_lem}
use strixos.Heap.Free.{kfree_lem}
use strixos.Heap.RoundTrip.{Undone, kfree-kmalloc}

abbrev block_at : ℕ → Bool → ℕ → Header
block_at size free next = record { size = size; free = free; magic = heap_magic; next = next }

-- A free block of 64 bytes, one in use of 32 bytes and a free one of 200 bytes.
abbrev three : Heap
three = record {
  headers =
      put
        (put (put (λ a. block_at 0 false 0) 0x200000 (block_at 64 true 0x200058)) 0x200058
          (block_at 32 false 0x200090))
        0x200090 (block_at 200 true 0);
  bytes = λ a. 7;
  heap_base = 0x200000;
  head = 0x200000;
}

abbrev three_blocks : List Block
three_blocks =
    record { size = 64; free = true }
    ∷ record { size = 32; free = false }
    ∷ record { size = 200; free = true }
    ∷ []

three-Holds : Holds three three_blocks
three-Holds = record {
  lies = (refl, (refl, (refl, tt)));
  starts = refl;
  above = omega arith;
  below = omega arith;
}

kmalloc_example : Outcome three three_blocks 112 (kmalloc 9 three 100)
kmalloc_example =
    kmalloc_lem 9 three three_blocks 100 112 three-Holds (omega arith) (omega arith) (omega arith)
      (omega arith) (omega arith) (omega arith)

kfree_example :
    (h' : Heap) × (kfree 9 three
        (three.heap_base + span (record { size = 64; free = true } ∷ []) + 24)
      ≡ some h')
    × Holds h' (
        freed
          (record { size = 64; free = true } ∷ [])
          (record { size = 32; free = false })
          (record { size = 200; free = true } ∷ []))
    × (h'.bytes ≡ three.bytes)
kfree_example =
    kfree_lem 9 three (record { size = 64; free = true } ∷ []) (record { size = 32; free = false })
      (record { size = 200; free = true } ∷ []) three-Holds (omega arith)

kfree-kmalloc_example : Undone 9 three three_blocks (kmalloc 9 three 100)
kfree-kmalloc_example =
    kfree-kmalloc 9 three three_blocks 100 three-Holds (refl, (refl, tt)) (omega arith)
      (omega arith)

kmalloc_first :
    kmalloc 9 three (3 * 4 % 2 ^ 64)
    ≡ some (0x200018, record three { headers = carve three.headers 0x200000 16 })
unfolding kmalloc find_free
kmalloc_first = refl

sums :
    (heap_sum 9 true three.headers three.head ≡ some 264)
    × (heap_sum 9 false three.headers three.head ≡ some 32)
unfolding heap_sum
sums = (refl, refl)

abbrev pages : Pmm
pages = Pages.init (λ a. 7)

init-Holds_example :
    let (h', q) = init three pages in
    IsValid q
    × (((h' ≡ record three { heap_base = 0 })
          × (q ≡ pages)
          × ((k : ℕ) → k + heap_pages ≤ pages.total_pages → HasUsed pages.bitmap k heap_pages))
        ⊎ (Holds h' (record { size = heap_size - header_size; free = true } ∷ [])
            × (h'.bytes ≡ three.bytes)))
init-Holds_example = init-Holds three pages (init-IsValid (λ a. 7)).0

-- A size close to 2^64 is rounded up to 0, and a block is returned for it.
rounds_to_nothing :
    kmalloc 9 three (2 ^ 64 - 15)
    ≡ some (0x200018, record three { headers = carve three.headers 0x200000 0 })
unfolding kmalloc find_free
rounds_to_nothing = refl
