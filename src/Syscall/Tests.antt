-- ===== src/Syscall/Tests.antt =====
-- Runs of the system calls, and their theorems at a small kernel.
use strixos.Prelude.{
  ℕ, ◌+◌, ◌-◌, ◌%◌, ◌≤◌, ◌<◌, ◌≡◌, refl, ◌==◌, if◌then◌else◌, true, false, inr, ◌⊎◌, Option, none,
  some, List, [], ◌∷◌, length, replicate, arith,
}
use strixos.Heap.{Heap, put, heap_magic, kmalloc, find_free, carve}
use strixos.Pmm
use strixos.Process.{blank, running}
use strixos.Vfs.{lookup, find_fd, open_file, close}
use strixos.Vfs.Tests.{files, disk, heap}
use strixos.Syscall.{
  Kernel, returns, halts, minus, Answer, answer, put_bytes, c_string, number_bytes, number_at,
  on_write, take_keys, on_read, on_open, on_openat, on_close,
}
use strixos.Syscall.Dispatch.{
  on_ioctl, page_up, random_bytes, has_term, pretend, on_readv, on_writev, on_brk, one_of,
  syscall_handler,
}
use strixos.Syscall.Keys.{IsLine, read_line_lem}
use strixos.Syscall.Memory.{mmap_lem}
use strixos.Syscall.Files.{OpensAndReads, open_and_read_lem}

-- "b" is the C string at 50, the files are those of the tests of the descriptors, one task runs, and
-- "hi", an end of line, and "x" wait.
abbrev pub kernel : Kernel
kernel = record {
  heap = record heap { bytes = λ a. if a == 50 then 98 else a - 190 };
  disk = record disk { files = files };
  fds =
      replicate 16
        (record { used = false; name = []; data_ptr = 0; size = 0; offset = 0; flags = 0 });
  sched = record {
    tasks = record blank { pid = 7; state = running } ∷ [];
    task_list = some 0;
    current = some 0;
    next_pid = 8;
    pmm = Pmm.init (λ a. 0);
  };
  waiting = 104 ∷ 105 ∷ 10 ∷ 120 ∷ [];
  output = [];
  brk = 0x600000;
  fs_base = 0;
}

abbrev value : Answer → Option ℕ
value none = none
value (some (k, returns v)) = some v
value (some (k, halts)) = none

abbrev state_after : Answer → Kernel
state_after none = kernel
state_after (some (k, r)) = k

abbrev call : ℕ → ℕ → ℕ → ℕ → Option ℕ
call num a b c = value (syscall_handler 20 kernel num a b c)

runs :
    (call 5005 0 0 0 ≡ some 7)
    × (call 2 50 0 0 ≡ some 3)
    × (call 257 0 50 0 ≡ some 3)
    × (call 1 1 200 3 ≡ some 3)
    × (call 20 1 60 0 ≡ some 0)
    × (call 3 9 0 0 ≡ some (minus 1))
    × (call 12 0 0 0 ≡ some 0x600000)
    × (call 12 0x700000 0 0 ≡ some 0x700000)
    × (call 12 0x50000000 0 0 ≡ some 0x600000)
    × (call 21 50 0 0 ≡ some (minus 2))
    × (call 0 0 300 9 ≡ some 3)
    × (call 19 0 60 1 ≡ some 0)
    × (call 318 300 5 0 ≡ some 5)
    × (call 16 0 0x5413 300 ≡ some 0)
    × (call 9999 0 0 0 ≡ some (minus 1))
unfolding syscall_handler one_of on_open c_string open_file lookup find_fd on_openat on_write
    on_writev on_close close on_brk pretend has_term on_read take_keys on_readv number_at
    random_bytes on_ioctl number_bytes
runs = (refl, refl, refl, refl, refl, refl, refl, refl, refl, refl, refl, refl, refl, refl, refl)

-- The break can be moved below the place where it starts.
low_break : call 12 1 0 0 ≡ some 1
unfolding syscall_handler one_of on_brk
low_break = refl

named : c_string 20 kernel.heap.bytes 50 ≡ some (98 ∷ [])
unfolding c_string
named = refl

found : lookup files (98 ∷ []) ≡ some (record { name = 98 ∷ []; data_ptr = 200; size = 5 })
unfolding lookup
found = refl

open_and_read_lem_example :
    OpensAndReads 20 kernel 50 0 300 9 (record { name = 98 ∷ []; data_ptr = 200; size = 5 })
open_and_read_lem_example =
    open_and_read_lem 20 kernel 50 0 300 9 (98 ∷ [])
      (record { name = 98 ∷ []; data_ptr = 200; size = 5 }) (omega arith) named refl found
      (omega arith) (omega arith) (inr (omega arith))

read_line_lem_example :
    (got : List ℕ) × (rest : List ℕ) × (syscall_handler 20 kernel 0 0 300 9
      ≡ answer (put_bytes (record kernel { waiting = rest }) 300 got) (length got))
    × (0 < length got)
    × IsLine 9 kernel.waiting got rest
read_line_lem_example = read_line_lem 20 kernel 300 9 (omega arith) (omega arith)

-- With room for two pages in the heap.
abbrev roomy : Kernel
roomy = record kernel {
  heap = record heap {
    headers =
        put (λ a. record { size = 0; free = false; magic = 0; next = 0 }) 0x200000
          (record { size = 0x4000; free = true; magic = heap_magic; next = 0 });
  };
}

abbrev taken : Heap
taken = record roomy.heap { headers = carve roomy.heap.headers 0x200000 8192 }

abbrev block : ℕ
block = 0x200018

given : kmalloc 20 roomy.heap (page_up 100 + 4096) ≡ some (block, taken)
unfolding kmalloc find_free
given = refl

mmap_lem_example :
    ((block ≡ 0)
      × (syscall_handler 20 roomy 9 0 100 3 ≡ answer (record roomy { heap = taken }) (minus 1)))
    ⊎ ((r : ℕ) × (0 < block)
        × (syscall_handler 20 roomy 9 0 100 3 ≡ answer (record roomy { heap = taken }) r)
        × (r % 4096 ≡ 0)
        × (block ≤ r)
        × (100 ≤ page_up 100)
        × (r + page_up 100 ≤ block + (page_up 100 + 4096)))
mmap_lem_example =
    mmap_lem 20 roomy 0 100 3 block taken (omega arith) (omega arith) (omega arith) given
