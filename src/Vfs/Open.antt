-- ===== src/Vfs/Open.antt =====
-- Opening a file: the descriptor, and what a read of it gives.
use mathlib.Core.Option.{none-ne-some, some-injective}
use strixos.Prelude.{
  ℕ, zero, suc, ◌+◌, ◌-◌, ◌^◌, ◌≤◌, ◌<◌, ◌≡◌, refl, sym, ◌∙◌, ap, subst, ◌==◌, ==_ne, true, false,
  Bool-cases, inl, inr, ◌⊎◌, ◌≢◌, Option, none, some, List, length, take, set, get_or-set,
  length-set, min, arith,
}
use strixos.Initrd.{Entry, skip_slash}
use strixos.Vfs.{File, blank, max_fd, file_at, lookup, find_fd, open_file, bytes_at, read}
use strixos.Vfs.Read.{IsOpen, left, file_at-set, read_lem}

-- The lowest unused descriptor from `fd` on, below `fd + n`.
abbrev FindsFd : List File → ℕ → ℕ → Option ℕ → Type 0
FindsFd fds fd n none = (i : ℕ) → fd ≤ i → i < fd + n → (file_at fds i).used ≡ true
FindsFd fds fd n (some i) =
    (fd ≤ i)
    × (i < fd + n)
    × ((file_at fds i).used ≡ false)
    × ((j : ℕ) → fd ≤ j → j < i → (file_at fds j).used ≡ true)

find_fd-FindsFd : (fds : List File) (fd n : ℕ) → FindsFd fds fd n (find_fd fds fd n)
unfolding find_fd
find_fd-FindsFd fds fd zero = λ i le lt. absurd (omega arith)
find_fd-FindsFd fds fd (suc n) = elim (Bool-cases (file_at fds fd).used) [
  | inr idle ↦
      let step : find_fd fds fd (suc n) ≡ some fd = rw (find_fd, idle) refl in
      subst (FindsFd fds fd (suc n)) (sym step)
        (omega arith, omega arith, idle, λ j le lt. absurd (omega arith))
  | inl busy ↦
      let step : find_fd fds fd (suc n) ≡ find_fd fds (fd + 1) n = rw (find_fd, busy) refl in
      subst (FindsFd fds fd (suc n)) (sym step)
        (later busy (find_fd fds (fd + 1) n) (find_fd-FindsFd fds (fd + 1) n))
]
  where
    here :
        (file_at fds fd).used ≡ true
        → (j : ℕ) → ((fd + 1 ≤ j) → (file_at fds j).used ≡ true)
        → fd ≤ j
        → (file_at fds j).used ≡ true
    here busy j above le = elim (Bool-cases (j == fd)) [
      | inl e ↦ let same : j ≡ fd = ground arith in rw same busy
      | inr e ↦ let ne : fd + 1 ≤ j = ground arith in above ne
    ]

    later :
        (file_at fds fd).used ≡ true
        → (o : Option ℕ) → FindsFd fds (fd + 1) n o
        → FindsFd fds fd (suc n) o
    later busy none h = λ j le lt. here busy j (λ above. h j above (omega arith)) le
    later busy (some i) h = (
      omega (arith, h.0),
      omega (arith, h.1),
      h.2,
      λ j le lt. here busy j (λ above. h.3 j above lt) le,
    )

-- What `vfs_open` does with a path that names the entry `e`.
abbrev pub Opened : List File → Entry → Option ℕ × List File → Type 0
Opened fds e r =
    ((r.0 ≡ none) × (r.1 ≡ fds) × ((i : ℕ) → 3 ≤ i → i < 16 → (file_at fds i).used ≡ true))
    ⊎ ((fd : ℕ) × (r.0 ≡ some fd)
        × (3 ≤ fd)
        × ((file_at fds fd).used ≡ false)
        × ((j : ℕ) → 3 ≤ j → j < fd → (file_at fds j).used ≡ true)
        × IsOpen r.1 fd
        × ((j : ℕ) → j ≢ fd → file_at r.1 j ≡ file_at fds j)
        × ((m : ℕ → ℕ) (len : ℕ)
            → len < 2 ^ 63
            → (read m r.1 fd len).0 ≡ some (bytes_at m e.data_ptr (min len e.size))))

-- The descriptor that is written.
abbrev pub opened_file : Entry → List ℕ → ℕ → File
opened_file e path flags = record {
  used = true;
  name = take 31 (skip_slash path);
  data_ptr = e.data_ptr;
  size = e.size;
  offset = 0;
  flags = flags;
}

whole_bytes :
    (m : ℕ → ℕ) (p size len : ℕ)
    → bytes_at m (p + 0) (min len (size - 0)) ≡ bytes_at m p (min len size)
whole_bytes m p size len =
    let e : p + 0 ≡ p = omega arith in let n : size - 0 ≡ size = omega arith in rw (e, n) refl

-- For a path that names the entry `e`, of less than 2^63 bytes, `vfs_open` fails and changes nothing
-- if every descriptor from 3 on is in use. Otherwise it returns the lowest that is not, changes no
-- other descriptor, and the first read of that one gives the entry's bytes from the start, as many as
-- are asked for and there are.
pub open_file_lem :
    (files : List Entry) (fds : List File) (path : List ℕ) (flags : ℕ) (e : Entry)
    → length fds ≡ 16
    → lookup files (skip_slash path) ≡ some e
    → e.size < 2 ^ 63
    → Opened fds e (open_file files fds path flags)
unfolding open_file
open_file_lem files fds path flags e table found small =
    let o = find_fd fds 3 (max_fd - 3) in
    let step : open_file files fds path flags ≡ elim o [
      | none ↦ (none, fds)
      | some fd ↦ (some fd, set fds fd (opened_file e path flags))
    ] =
      rw (open_file, found) refl in
    subst (Opened fds e) (sym step) (by_fd o (find_fd-FindsFd fds 3 13))
  where
    by_fd :
        (o : Option ℕ)
        → FindsFd fds 3 13 o
        → Opened fds e (elim o [
          | none ↦ (none, fds)
          | some fd ↦ (some fd, set fds fd (opened_file e path flags))
        ])
    by_fd none h = inl (refl, refl, λ i le lt. h i le (omega arith))
    by_fd (some fd) h =
        let own : file_at (set fds fd (opened_file e path flags)) fd ≡ (opened_file e path flags) =
          file_at-set fds fd (opened_file e path flags) (omega (arith, table, h.1)) in
        let opened : IsOpen (set fds fd (opened_file e path flags)) fd = record {
          table = length-set fds fd (opened_file e path flags) ∙ table;
          in_table = omega (arith, h.1);
          own = omega (arith, h.0);
          used = ap (λ f. f.used) own;
          inside = omega (arith, ap (λ f. f.offset) own);
          small = omega (arith, ap (λ f. f.size) own, small);
        } in
        inr (
          fd,
          refl,
          h.0,
          h.2,
          h.3,
          opened,
          λ j ne.
              let away : (fd == j) ≡ false = ==_ne fd j (omega (arith, ne)) in
              get_or-set fds fd j (opened_file e path flags) blank (omega (arith, table, h.1))
              ∙ rw away refl,
          λ m len lt.
              ap (λ r. r.0) (read_lem m (set fds fd (opened_file e path flags)) fd len opened lt)
              ∙ ap (λ (f : File). some (bytes_at m (f.data_ptr + f.offset) (left f len))) own
              ∙ ap some (whole_bytes m e.data_ptr e.size len),
        )

-- The descriptor that `vfs_open` returns stands at the start of the file.
pub file_at-open_file :
    (files : List Entry) (fds : List File) (path : List ℕ) (flags : ℕ) (e : Entry) (fd : ℕ)
    → lookup files (skip_slash path) ≡ some e
    → fd < length fds
    → (open_file files fds path flags).0 ≡ some fd
    → file_at (open_file files fds path flags).1 fd ≡ opened_file e path flags
unfolding open_file
file_at-open_file files fds path flags e fd found lt opened =
    by_fd (find_fd fds 3 (max_fd - 3)) step
  where
    step : open_file files fds path flags ≡ elim (find_fd fds 3 (max_fd - 3)) [
      | none ↦ (none, fds)
      | some i ↦ (some i, set fds i (opened_file e path flags))
    ]
    step = rw (open_file, found) refl

    by_fd :
        (o : Option ℕ)
        → open_file files fds path flags
          ≡ elim o [ none ↦ (none, fds) | some i ↦ (some i, set fds i (opened_file e path flags)) ]
        → file_at (open_file files fds path flags).1 fd ≡ opened_file e path flags
    by_fd none is = absurd (none-ne-some fd (sym (ap (λ r. r.0) is) ∙ opened))
    by_fd (some i) is =
        let same : i ≡ fd = some-injective i fd (sym (ap (λ r. r.0) is) ∙ opened) in
        ap (λ (r : Option ℕ × List File). file_at r.1 fd) is
        ∙ ap (λ (k : ℕ). file_at (set fds k (opened_file e path flags)) fd) same
        ∙ file_at-set fds fd (opened_file e path flags) lt
