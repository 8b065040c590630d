-- ===== src/Vfs.antt =====
-- kernel/vfs.c: the table of file descriptors over the files of Initrd. A descriptor is its index, and
-- `none` is the result -1. A descriptor that is negative is out of the model.
pub mod Read
pub mod Open
pub mod Save
pub mod Tests
use strixos.Prelude.{
  ℕ, zero, suc, ◌+◌, ◌-◌, ◌==◌, ltb, leb, if◌then◌else◌, Bool, true, false, not, ◌&&◌, ◌||◌, Option,
  none, some, List, [], ◌∷◌, length, take, get_or, set, replicate, add64, sub64,
}
use strixos.Initrd.{Entry, no_entry, is_equal, skip_slash}

abbrev pub max_fd : ℕ
max_fd = 16

pub record File : Type 0 where
  pub used : Bool
  pub name : List ℕ
  pub data_ptr : ℕ
  pub size : ℕ
  pub offset : ℕ
  pub flags : ℕ

abbrev pub blank : File
blank = record { used = false; name = []; data_ptr = 0; size = 0; offset = 0; flags = 0 }

abbrev pub file_at : List File → ℕ → File
file_at fds fd = get_or fds fd blank

abbrev unused : List File → ℕ → List File
unused fds zero = fds
unused fds (suc n) = set (unused fds n) n (record (file_at fds n) { used = false })

abbrev reserve : List File → ℕ → ℕ → List File
reserve fds fd flags = set fds fd (record (file_at fds fd) { used = true; flags = flags })

-- `vfs_init` without its messages; `initrd_init` does nothing.
unfoldable pub init : List File → List File
init fds = reserve (reserve (reserve (unused fds max_fd) 0 0) 1 1) 2 1

-- The first entry with the name before the first entry whose name is empty.
unfoldable pub lookup : List Entry → List ℕ → Option Entry
lookup [] path = none
lookup (e ∷ es) path =
    if length e.name == 0 then none else if is_equal path e.name then some e else lookup es path

-- The first unused descriptor from `fd` on, `n` rounds left.
unfoldable pub find_fd : List File → ℕ → ℕ → Option ℕ
find_fd fds fd zero = none
find_fd fds fd (suc n) = elim (file_at fds fd).used [
  | false ↦ some fd
  | true ↦ find_fd fds (fd + 1) n
]

-- `vfs_open`
unfoldable pub open_file : List Entry → List File → List ℕ → ℕ → Option ℕ × List File
open_file files fds path flags =
    let path' = skip_slash path in
    elim (lookup files path') [
      | none ↦ (none, fds)
      | some e ↦ elim (find_fd fds 3 (max_fd - 3)) [
        | none ↦ (none, fds)
        | some fd ↦ (
          some fd,
          set fds fd (record {
            used = true;
            name = take 31 path';
            data_ptr = e.data_ptr;
            size = e.size;
            offset = 0;
            flags = flags;
          }),
        )
      ]
    ]

-- `vfs_close`: whether it succeeds.
unfoldable pub close : List File → ℕ → Bool × List File
close fds fd =
    if leb max_fd fd || not (file_at fds fd).used
    then (false, fds)
    else if ltb fd 3
    then (false, fds)
    else (true, set fds fd (record (file_at fds fd) { used = false }))

-- `n` bytes of the memory from `p` on.
unfoldable pub bytes_at : (ℕ → ℕ) → ℕ → ℕ → List ℕ
bytes_at m p zero = []
bytes_at m p (suc n) = m p ∷ bytes_at m (p + 1) n

-- `vfs_read`: the bytes that go to the buffer, whose number it returns.
unfoldable pub read : (ℕ → ℕ) → List File → ℕ → ℕ → Option (List ℕ) × List File
read m fds fd len =
    let f = file_at fds fd in
    let count = if ltb f.size (add64 f.offset len) then sub64 f.size f.offset else len in
    if leb max_fd fd || not f.used
    then (none, fds)
    else if fd == 0
    then (some [], fds)
    else if leb f.size f.offset
    then (some [], fds)
    else (
      some (bytes_at m (f.data_ptr + f.offset) count),
      set fds fd (record f { offset = add64 f.offset count }),
    )

-- `vfs_write`: only the standard output and error take bytes.
unfoldable pub write : List File → ℕ → ℕ → Option ℕ
write fds fd len = if fd == 1 || fd == 2 then some len else none
