-- ===== src/Syscall/Files.antt =====
-- Files by system calls: open, and then read.
use strixos.Prelude.{
  ℕ, zero, suc, ◌+◌, ◌%◌, ◌^◌, ◌≤◌, ◌<◌, ◌≡◌, refl, ◌∙◌, ap, subst, ◌==◌, true, false, inl, inr,
  ◌⊎◌, Option, none, some, List, length, min, arith,
}
use strixos.Initrd.{Entry, skip_slash, write_bytes}
use strixos.Vfs
use strixos.Vfs.{File, file_at, lookup, open_file, bytes_at}
use strixos.Vfs.Open.{Opened, open_file_lem}
use strixos.Vfs.Save.{bytes_at-write_bytes}
use strixos.Syscall.{Kernel, minus, answer, put_bytes, c_string, on_open, on_read}
use strixos.Syscall.Dispatch.{one_of, syscall_handler}

-- A read of a descriptor other than the standard input stores what `vfs_read` gives.
on_read_step :
    (k : Kernel) (fd buf len : ℕ) (bytes : List ℕ)
    → 0 < fd
    → (Vfs.read k.heap.bytes k.fds fd len).0 ≡ some bytes
    → on_read k fd buf len
      ≡ answer
          (put_bytes (record k { fds = (Vfs.read k.heap.bytes k.fds fd len).1 }) buf bytes)
          (length bytes)
unfolding on_read
on_read_step k fd buf len bytes pos e =
    let not_keys : (fd == 0) ≡ false = ground arith in rw (on_read, not_keys, e) refl

read_call :
    (fuel : ℕ) (k : Kernel) (fd buf len : ℕ)
    → fd < 16
    → syscall_handler fuel k 0 fd buf len ≡ on_read k fd buf len
unfolding syscall_handler one_of
read_call fuel k fd buf len lt =
    let e : fd % 2 ^ 32 ≡ fd = omega arith in ap (λ d. on_read k d buf len) e

on_open_step :
    (fuel : ℕ) (k : Kernel) (path flags : ℕ) (s : List ℕ) (o : Option ℕ)
    → c_string fuel k.heap.bytes path ≡ some s
    → (open_file k.disk.files k.fds s flags).0 ≡ o
    → on_open fuel k path flags
      ≡ answer
          (record k { fds = (open_file k.disk.files k.fds s flags).1 })
          (elim o [ none ↦ minus 1 | some fd ↦ fd ])
unfolding on_open
on_open_step fuel k path flags s none named e = rw (on_open, named, e) refl
on_open_step fuel k path flags s (some fd) named e = rw (on_open, named, e) refl

open_call :
    (fuel : ℕ) (k : Kernel) (path flags : ℕ) (s : List ℕ) (o : Option ℕ)
    → flags < 2 ^ 32
    → c_string fuel k.heap.bytes path ≡ some s
    → (open_file k.disk.files k.fds s flags).0 ≡ o
    → syscall_handler fuel k 2 path flags 0
      ≡ answer
          (record k { fds = (open_file k.disk.files k.fds s flags).1 })
          (elim o [ none ↦ minus 1 | some fd ↦ fd ])
unfolding syscall_handler one_of
open_call fuel k path flags s o few named e =
    let w : flags % 2 ^ 32 ≡ flags = omega arith in
    ap (on_open fuel k path) w ∙ on_open_step fuel k path flags s o named e

-- What open and read do with the file `e`, a buffer and a length.
abbrev pub OpensAndReads : ℕ → Kernel → ℕ → ℕ → ℕ → ℕ → Entry → Type 0
OpensAndReads fuel k path flags buf len e =
    ((syscall_handler fuel k 2 path flags 0 ≡ answer k (minus 1))
      × ((i : ℕ) → 3 ≤ i → i < 16 → (file_at k.fds i).used ≡ true))
    ⊎ ((fd : ℕ) × (k' : Kernel) × (k'' : Kernel) × (3 ≤ fd)
        × (syscall_handler fuel k 2 path flags 0 ≡ answer k' fd)
        × (syscall_handler fuel k' 0 fd buf len ≡ answer k'' (min len e.size))
        × (bytes_at k''.heap.bytes buf (min len e.size)
            ≡ bytes_at k.heap.bytes e.data_ptr (min len e.size)))

length-bytes_at : (m : ℕ → ℕ) (p n : ℕ) → length (bytes_at m p n) ≡ n
unfolding bytes_at
length-bytes_at m p zero = refl
length-bytes_at m p (suc n) = ap suc (length-bytes_at m (p + 1) n)

-- The read behind the open.
read_opened :
    (fuel : ℕ) (k : Kernel) (path flags buf len : ℕ) (e : Entry) (fd : ℕ) (fds : List File)
    → 3 ≤ fd
    → fd < 16
    → syscall_handler fuel k 2 path flags 0 ≡ answer (record k { fds = fds }) fd
    → (Vfs.read k.heap.bytes fds fd len).0
      ≡ some (bytes_at k.heap.bytes e.data_ptr (min len e.size))
    → OpensAndReads fuel k path flags buf len e
read_opened fuel k path flags buf len e fd fds low high call got =
    let k' : Kernel = record k { fds = fds } in
    let bytes = bytes_at k.heap.bytes e.data_ptr (min len e.size) in
    let n : length bytes ≡ min len e.size =
      length-bytes_at k.heap.bytes e.data_ptr (min len e.size) in
    let k'' = put_bytes (record k' { fds = (Vfs.read k'.heap.bytes k'.fds fd len).1 }) buf bytes in
    let read_it : syscall_handler fuel k' 0 fd buf len ≡ answer k'' (length bytes) =
      read_call fuel k' fd buf len high ∙ on_read_step k' fd buf len bytes (omega arith) got in
    let stored = bytes_at-write_bytes buf bytes k.heap.bytes in
    inr (
      fd,
      k',
      k'',
      low,
      call,
      read_it ∙ ap (answer k'') n,
      subst (λ (i : ℕ). bytes_at (write_bytes buf bytes k.heap.bytes) buf i ≡ bytes) n stored,
    )

-- The call open of the path of a file of less than 2^63 bytes fails and changes nothing if every
-- descriptor from 3 on is in use. Otherwise it returns a descriptor, with which the call read stores
-- the bytes of the file from the start in a buffer apart from them, as many as are asked for and there
-- are, and returns how many.
pub open_and_read_lem :
    (fuel : ℕ) (k : Kernel) (path flags buf len : ℕ) (s : List ℕ) (e : Entry)
    → flags < 2 ^ 32
    → c_string fuel k.heap.bytes path ≡ some s
    → length k.fds ≡ 16
    → lookup k.disk.files (skip_slash s) ≡ some e
    → e.size < 2 ^ 63
    → len < 2 ^ 63
    → (buf + len ≤ e.data_ptr) ⊎ (e.data_ptr + e.size ≤ buf)
    → OpensAndReads fuel k path flags buf len e
open_and_read_lem fuel k path flags buf len s e few named table found small short apart =
    go (open_file_lem k.disk.files k.fds s flags e table found small)
  where
    go :
        Opened k.fds e (open_file k.disk.files k.fds s flags)
        → OpensAndReads fuel k path flags buf len e
    go (inl (failed, same, full)) = inl (
      open_call fuel k path flags s none few named failed
          ∙ ap (λ fds. answer (record k { fds = fds }) (minus 1)) same,
      full,
    )
    go (inr (fd, opened, low, idle, lower, is_open, others, reads)) =
        read_opened fuel k path flags buf len e fd (open_file k.disk.files k.fds s flags).1 low
          is_open.in_table (open_call fuel k path flags s (some fd) few named opened)
          (reads k.heap.bytes len short)
