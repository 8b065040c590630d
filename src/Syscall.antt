-- ===== src/Syscall.antt =====
-- kernel/syscall.c: the system calls. The bytes of the callers' memory are the bytes of the heap's
-- state. What `write` and `writev` send to the screen and the serial port is collected; the messages of
-- the kernel itself are left out.
pub mod Dispatch
pub mod Keys
pub mod Memory
pub mod Files
pub mod Tests
use strixos.Prelude.{
  ℕ, zero, suc, ◌+◌, ◌-◌, ◌*◌, ◌/◌, ◌%◌, ◌^◌, ◌==◌, ltb, leb, if◌then◌else◌, Bool, true, false, not,
  ◌&&◌, ◌||◌, Option, none, some, List, [], ◌∷◌, ◌++◌, length, replicate, add64,
}
use strixos.Heap.{Heap, kmalloc}
use strixos.Initrd.{Initrd, write_bytes}
use strixos.Process.{Sched, schedule, set_state, unused, task_at}
use strixos.Vfs
use strixos.Vfs.{File, bytes_at, open_file}

-- What the calls reach: the parts of the kernel, the characters that wait in the keyboard and the serial
-- port, what has been written to the screen, `cur_brk`, and the register FS_BASE.
pub record Kernel : Type 0 where
  pub heap : Heap
  pub disk : Initrd
  pub fds : List File
  pub sched : Sched
  pub waiting : List ℕ
  pub output : List ℕ
  pub brk : ℕ
  pub fs_base : ℕ

-- `ret`, as the 64-bit word that goes to rax, or a call that does not come back to its task.
pub data Return : Type 0 where
  returns : ℕ → Return
  halts : Return

-- `-n`
abbrev pub minus : ℕ → ℕ
minus n = 2 ^ 64 - n

-- `none`: a loop does not end within the fuel, or the call waits for a key.
abbrev pub Answer : Type 0
Answer = Option (Kernel × Return)

abbrev pub answer : Kernel → ℕ → Answer
answer k v = some (k, returns v)

abbrev pub put_bytes : Kernel → ℕ → List ℕ → Kernel
put_bytes k p bytes = record k { heap = record k.heap { bytes = write_bytes p bytes k.heap.bytes } }

-- A pointer that may be null.
abbrev pub put_at : Kernel → ℕ → List ℕ → Kernel
put_at k p bytes = if p == 0 then k else put_bytes k p bytes

-- The C string at an address.
unfoldable pub c_string : ℕ → (ℕ → ℕ) → ℕ → Option (List ℕ)
c_string zero m p = none
c_string (suc fuel) m p = elim (m p == 0) [
  | true ↦ some []
  | false ↦ elim (c_string fuel m (p + 1)) [ none ↦ none | some s ↦ some (m p ∷ s) ]
]

-- A number of `n` bytes in memory, low byte first.
unfoldable pub number_bytes : ℕ → ℕ → List ℕ
number_bytes zero v = []
number_bytes (suc n) v = v % 256 ∷ number_bytes n (v / 256)

unfoldable pub number_at : (ℕ → ℕ) → ℕ → ℕ → ℕ
number_at m p zero = 0
number_at m p (suc n) = m p + 256 * number_at m (p + 1) n

abbrev pub is_screen : ℕ → Bool
is_screen fd = fd == 1 || fd == 2

unfoldable pub on_write : Kernel → ℕ → ℕ → ℕ → Answer
on_write k fd buf len =
    if is_screen fd
    then answer (record k { output = k.output ++ bytes_at k.heap.bytes buf len }) len
    else elim (Vfs.write k.fds fd len) [ none ↦ answer k (minus 1) | some n ↦ answer k n ]

-- The keys that a read of `len` takes: up to the end of a line or of what waits.
unfoldable pub take_keys : ℕ → List ℕ → List ℕ × List ℕ
take_keys zero keys = ([], keys)
take_keys (suc n) [] = ([], [])
take_keys (suc n) (c ∷ keys) =
    let rest = take_keys n keys in if c == 10 then (c ∷ [], keys) else (c ∷ rest.0, rest.1)

unfoldable pub on_read : Kernel → ℕ → ℕ → ℕ → Answer
on_read k fd buf len =
    let (got, waiting) = take_keys len k.waiting in
    let keyed = answer (put_bytes (record k { waiting = waiting }) buf got) (length got) in
    let (bytes, fds) = Vfs.read k.heap.bytes k.fds fd len in
    let filed : Answer = elim bytes [
      | none ↦ answer (record k { fds = fds }) (minus 1)
      | some bs ↦ answer (put_bytes (record k { fds = fds }) buf bs) (length bs)
    ] in
    if fd == 0 then (if ltb 0 len && length k.waiting == 0 then none else keyed) else filed

abbrev open_path : Kernel → List ℕ → ℕ → Option ℕ × Kernel
open_path k path flags =
    let (opened, fds) = open_file k.disk.files k.fds path flags in (opened, record k { fds = fds })

unfoldable pub on_open : ℕ → Kernel → ℕ → ℕ → Answer
on_open fuel k path flags = elim (c_string fuel k.heap.bytes path) [
  | none ↦ none
  | some s ↦ elim (open_path k s flags).0 [
    | none ↦ answer (open_path k s flags).1 (minus 1)
    | some fd ↦ answer (open_path k s flags).1 fd
  ]
]

-- A second attempt without the slash in front.
abbrev retry : Kernel → List ℕ → ℕ → Answer
retry k [] flags = answer k (minus 1)
retry k (c ∷ cs) flags = elim (open_path k cs flags).0 [
  | none ↦ answer (if c == 47 then (open_path k cs flags).1 else k) (minus 1)
  | some fd ↦ if c == 47 then answer (open_path k cs flags).1 fd else answer k (minus 1)
]

unfoldable pub on_openat : ℕ → Kernel → ℕ → ℕ → Answer
on_openat fuel k path flags = elim (path == 0) [
  | true ↦ answer k (minus 1)
  | false ↦ elim (c_string fuel k.heap.bytes path) [
    | none ↦ none
    | some s ↦ elim (open_path k s flags).0 [
      | none ↦ retry (open_path k s flags).1 s flags
      | some fd ↦ answer (open_path k s flags).1 fd
    ]
  ]
]

unfoldable pub on_close : Kernel → ℕ → Answer
on_close k fd =
    let (closed, fds) = Vfs.close k.fds fd in
    answer (record k { fds = fds }) (if closed then 0 else minus 1)

-- The number of the current task, or a value for none.
abbrev pub current_pid : Kernel → ℕ → ℕ
current_pid k other = elim k.sched.current [ none ↦ other | some i ↦ (task_at k.sched.tasks i).pid ]

-- The task goes on when a later `schedule` switches back to it.
unfoldable pub on_yield : ℕ → Kernel → Answer
on_yield fuel k = elim (schedule fuel k.sched) [
  | none ↦ none
  | some r ↦ answer (record k { sched = r.0 }) 0
]

unfoldable pub on_exit : ℕ → Kernel → Answer
on_exit fuel k =
    let left : Sched = elim k.sched.current [
      | none ↦ k.sched
      | some i ↦ record k.sched { tasks = set_state k.sched.tasks i unused }
    ] in
    elim (schedule fuel left) [ none ↦ none | some r ↦ some (record k { sched = r.0 }, halts) ]
