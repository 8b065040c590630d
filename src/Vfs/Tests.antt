-- ===== src/Vfs/Tests.antt =====
-- Runs of the descriptor table over two files, and its theorems there.
use strixos.Prelude.{
  zero, suc, length, ℕ, ◌-◌, ◌≡◌, ◌+◌, ◌≤◌, ◌⊎◌, refl, true, false, none, some, List, [], ◌∷◌, ◌++◌,
  replicate, arith, Option, ◌<◌, map, take,
}
use strixos.Heap.{Heap, put, heap_magic, kmalloc, find_free, carve}
use strixos.Initrd.{
  Entry, Initrd, Status, ok, no_entry, find_file, save, store, release, remove, shift_down,
}
use strixos.Vfs.{File, blank, init, lookup, find_fd, open_file, close, bytes_at, read, write}
use strixos.Vfs.Read.{IsOpen}
use strixos.Heap.Bytes.{with_bytes}
use strixos.Vfs.Save.{IsValid, entry, save_new}

-- The files "a", three bytes at 100, and "b", five bytes at 200.
abbrev pub files : List Entry
files =
    record { name = 97 ∷ []; data_ptr = 100; size = 3 }
    ∷ record { name = 98 ∷ []; data_ptr = 200; size = 5 }
    ∷ no_entry
    ∷ []

abbrev pub ram : ℕ → ℕ
ram a = a - 190

abbrev start : List File
start = init (replicate 16 blank)

-- Descriptor 3 is open on "b".
abbrev pub opened : List File
opened = (open_file files (replicate 16 blank) (47 ∷ 98 ∷ []) 0).1

runs :
    ((open_file files start (98 ∷ []) 0).0 ≡ some 3)
    × ((open_file files start (99 ∷ []) 0).0 ≡ none)
    × ((read ram opened 3 4).0 ≡ some (10 ∷ 11 ∷ 12 ∷ 13 ∷ []))
    × ((read ram (read ram opened 3 4).1 3 4).0 ≡ some (14 ∷ []))
    × ((read ram opened 4 4).0 ≡ none)
    × ((close opened 3).0 ≡ true)
    × ((close opened 1).0 ≡ false)
    × (write opened 1 9 ≡ some 9)
    × (write opened 3 9 ≡ none)
unfolding init open_file find_fd lookup read bytes_at close write
runs = (refl, refl, refl, refl, refl, refl, refl, refl, refl)

found : lookup files (98 ∷ []) ≡ some (record { name = 98 ∷ []; data_ptr = 200; size = 5 })
unfolding lookup
found = refl

opened-IsOpen : IsOpen opened 3
unfolding open_file find_fd lookup
opened-IsOpen = record {
  table = refl;
  in_table = omega arith;
  own = omega arith;
  used = refl;
  inside = omega arith;
  small = omega arith;
}

-- A heap of one free block, and the two files in a table of 32.
abbrev pub heap : Heap
heap = record {
  headers =
      put (λ a. record { size = 0; free = false; magic = 0; next = 0 }) 0x200000
        (record { size = 4096; free = true; magic = heap_magic; next = 0 });
  bytes = ram;
  heap_base = 0x200000;
  head = 0x200000;
}

abbrev pub disk : Initrd
disk = record { files = files ++ replicate 29 no_entry; count = 2; statics = 100 ∷ 200 ∷ [] }

pub disk-IsValid : IsValid disk
disk-IsValid = record { room = refl; below = omega arith; ended = refl; named = names }
  where
    names : (i : ℕ) → i < 2 → 0 < length (entry disk i).name
    names zero lt = omega arith
    names (suc zero) lt = omega arith
    names (suc (suc i)) lt = absurd (omega arith)

missing : find_file disk.files (99 ∷ []) 0 2 ≡ none
unfolding find_file
missing = refl

given : kmalloc 9 heap 2 ≡ some (0x200018, record heap { headers = carve heap.headers 0x200000 16 })
unfolding kmalloc find_free
given = refl

-- The two bytes 7 and 8 are saved under the name "c".
save_new_example :
    (s' : Initrd) × (h'' : Heap) × (save 9 disk heap (99 ∷ []) (7 ∷ 8 ∷ []) ≡ some (ok, (s', h'')))
    × IsValid s'
    × (lookup s'.files (99 ∷ []) ≡ some (record { name = 99 ∷ []; data_ptr = 0x200018; size = 2 }))
    × (bytes_at h''.bytes 0x200018 2 ≡ 7 ∷ 8 ∷ [])
    × ((i : ℕ) → i < 2 → entry s' i ≡ entry disk i)
    × ((a : ℕ) → (a < 0x200018) ⊎ (0x200018 + 2 ≤ a) → h''.bytes a ≡ heap.bytes a)
    × (h'' ≡ with_bytes h''.bytes (record heap { headers = carve heap.headers 0x200000 16 }))
save_new_example =
    save_new 9 disk heap (record heap { headers = carve heap.headers 0x200000 16 }) 99 []
      (7 ∷ 8 ∷ []) 0x200018 disk-IsValid (omega arith) (ground arith) (omega arith) missing given
      (omega arith)

-- The save of a name that exists replaces the data; a name of more than 31 characters is cut.
abbrev saved_sizes : Option (Status × (Initrd × Heap)) → List ℕ
saved_sizes none = []
saved_sizes (some (st, (s, h))) = s.count ∷ map (λ (e : Entry). e.size) (take 4 s.files)

replaced : saved_sizes (save 9 disk heap (47 ∷ 97 ∷ []) (7 ∷ [])) ≡ 2 ∷ 1 ∷ 5 ∷ 0 ∷ 0 ∷ []
unfolding save store find_file kmalloc find_free release
replaced = refl

abbrev save_twice : List ℕ → Option (Status × (Initrd × Heap)) → Option (Status × (Initrd × Heap))
save_twice name none = none
save_twice name (some (st, (s, h))) = save 9 s h name (7 ∷ [])

doubled :
    saved_sizes (save_twice (replicate 32 99) (save 9 disk heap (replicate 32 99) (7 ∷ [])))
    ≡ 4 ∷ 3 ∷ 5 ∷ 1 ∷ 1 ∷ []
unfolding save store find_file kmalloc find_free
doubled = refl

removed : saved_sizes (remove 9 disk heap (97 ∷ [])) ≡ 1 ∷ 5 ∷ 0 ∷ 0 ∷ 0 ∷ []
unfolding remove find_file release shift_down
removed = refl
