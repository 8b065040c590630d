-- ===== src/Vfs/Read.antt =====
-- Reading a file in pieces.
use strixos.Prelude.{
  ℕ, zero, suc, ◌+◌, ◌-◌, ◌^◌, ◌≤◌, ◌<◌, ◌≡◌, refl, sym, ◌∙◌, ap, ◌==◌, ==_ne, ltb, leb,
  if◌then◌else◌, true, false, Bool-cases, inl, inr, Option, some, List, [], ◌∷◌, ◌++◌, length,
  get_or, set, get_or-set, length-set, min, add64, sub64, arith,
}
use strixos.Vfs.{File, blank, max_fd, file_at, bytes_at, read}

-- A descriptor of an open file.
pub record IsOpen (fds : List File) (fd : ℕ) : Type 0 where
  pub table : length fds ≡ 16
  pub in_table : fd < 16
  pub own : 0 < fd
  pub used : (file_at fds fd).used ≡ true
  pub inside : (file_at fds fd).offset ≤ (file_at fds fd).size
  pub small : (file_at fds fd).size < 2 ^ 63

-- How much of `len` bytes is left.
abbrev pub left : File → ℕ → ℕ
left f len = min len (f.size - f.offset)

-- The table after `n` bytes are read.
abbrev pub advanced : List File → ℕ → ℕ → List File
advanced fds fd n = set fds fd (record (file_at fds fd) { offset = (file_at fds fd).offset + n })

set_same : {A : Type 0} (xs : List A) (i : ℕ) (d : A) → set xs i (get_or xs i d) ≡ xs
set_same [] i d = refl
set_same (x ∷ xs) zero d = refl
set_same (x ∷ xs) (suc i) d = ap (x ∷◌) (set_same xs i d)

set_twice : {A : Type 0} (xs : List A) (i : ℕ) (v w : A) → set (set xs i v) i w ≡ set xs i w
set_twice [] i v w = refl
set_twice (x ∷ xs) zero v w = refl
set_twice (x ∷ xs) (suc i) v w = ap (x ∷◌) (set_twice xs i v w)

pub file_at-set :
    (fds : List File) (fd : ℕ) (f : File) → fd < length fds → file_at (set fds fd f) fd ≡ f
file_at-set fds fd f lt =
    let own : (fd == fd) ≡ true = ground arith in get_or-set fds fd fd f blank lt ∙ rw own refl

pub bytes_at-append :
    (m : ℕ → ℕ) (p i j : ℕ) → bytes_at m p (i + j) ≡ bytes_at m p i ++ bytes_at m (p + i) j
unfolding bytes_at
bytes_at-append m p zero j =
    let e : p + 0 ≡ p = omega arith in let z : 0 + j ≡ j = omega arith in rw (e, z) refl
bytes_at-append m p (suc i) j =
    let e : p + suc i ≡ p + 1 + i = omega arith in
    let z : suc i + j ≡ suc (i + j) = omega arith in
    rw (e, z) (ap (m p ∷◌) (bytes_at-append m (p + 1) i j))

advanced-0 : (fds : List File) (fd : ℕ) → advanced fds fd 0 ≡ fds
advanced-0 fds fd =
    let stays : (file_at fds fd).offset + 0 ≡ (file_at fds fd).offset = omega arith in
    ap (λ (o : ℕ). set fds fd (record (file_at fds fd) { offset = o })) stays
    ∙ set_same fds fd blank

abbrev nothing : List File → Option (List ℕ) × List File
nothing fds = (some [], fds)

-- A read of an open file takes what is asked for, as far as the file goes.
pub read_lem :
    (m : ℕ → ℕ) (fds : List File) (fd len : ℕ)
    → IsOpen fds fd
    → len < 2 ^ 63
    → let f = file_at fds fd in
      read m fds fd len
      ≡ (some (bytes_at m (f.data_ptr + f.offset) (left f len)), advanced fds fd (left f len))
unfolding read bytes_at
read_lem m fds fd len h few =
    let f = file_at fds fd in
    let valid : leb max_fd fd ≡ false = ground (arith, h.in_table) in
    let std : (fd == 0) ≡ false = ==_ne fd 0 (omega (arith, h.own)) in
    let sum : add64 f.offset len ≡ f.offset + len = omega (arith, h.inside, h.small) in
    elim (Bool-cases (leb f.size f.offset)) [
      | inl end ↦
          let at_end : f.size ≡ f.offset = ground (arith, h.inside) in
          let none_left : left f len ≡ 0 = omega arith in
          let step : read m fds fd len ≡ (some [], fds) = rw (valid, h.used, std, end) refl in
          step ∙ rw none_left (ap nothing (sym (advanced-0 fds fd)))
      | inr more ↦
          let n : (if ltb f.size (add64 f.offset len) then sub64 f.size f.offset else len)
              ≡ left f len =
            ground (arith, h.inside, h.small) in
          let moved : add64 f.offset (left f len) ≡ f.offset + left f len =
            omega (arith, h.inside, h.small) in
          rw (valid, h.used, std, more, n, moved) refl
    ]

pub advanced-IsOpen :
    (fds : List File) (fd n : ℕ)
    → IsOpen fds fd
    → n ≤ (file_at fds fd).size - (file_at fds fd).offset
    → IsOpen (advanced fds fd n) fd
advanced-IsOpen fds fd n h le =
    let own =
      file_at-set fds fd (record (file_at fds fd) { offset = (file_at fds fd).offset + n })
        (omega (arith, h.table, h.in_table)) in
    record {
      table = length-set fds fd _ ∙ h.table;
      in_table = h.in_table;
      own = h.own;
      used = ap (λ f. f.used) own ∙ h.used;
      inside = omega (arith, ap (λ f. f.size) own, ap (λ f. f.offset) own, le, h.inside);
      small = omega (arith, ap (λ f. f.size) own, h.small);
    }

-- On a descriptor of an open file, a read of `a` bytes and then one of `b` bytes give together what
-- one read of `a + b` bytes gives, and leave the same table.
pub read_in_pieces :
    (m : ℕ → ℕ) (fds : List File) (fd a b : ℕ)
    → IsOpen fds fd
    → a + b < 2 ^ 63
    → (xs : List ℕ) × (ys : List ℕ) × ((read m fds fd a).0 ≡ some xs)
      × ((read m (read m fds fd a).1 fd b).0 ≡ some ys)
      × ((read m fds fd (a + b)).0 ≡ some (xs ++ ys))
      × ((read m (read m fds fd a).1 fd b).1 ≡ (read m fds fd (a + b)).1)
read_in_pieces m fds fd a b h few =
    let f = file_at fds fd in
    let i = left f a in
    let g : File = record f { offset = f.offset + i } in
    let own : file_at (advanced fds fd i) fd ≡ g =
      file_at-set fds fd g (omega (arith, h.table, h.in_table)) in
    let one = read_lem m fds fd a h (omega arith) in
    let opened = advanced-IsOpen fds fd i h (omega arith) in
    let two : read m (advanced fds fd i) fd b ≡ (
      some (bytes_at m (g.data_ptr + g.offset) (left g b)),
      set (advanced fds fd i) fd (record g { offset = g.offset + left g b }),
    ) =
      read_lem m (advanced fds fd i) fd b opened (omega arith)
      ∙ ap (piece m (advanced fds fd i) fd b) own in
    let all = read_lem m fds fd (a + b) h few in
    let parts : left f (a + b) ≡ i + left g b = omega (arith, h.inside) in
    let again : read m (read m fds fd a).1 fd b ≡ read m (advanced fds fd i) fd b =
      ap (λ (r : Option (List ℕ) × List File). read m r.1 fd b) one in
    (
      bytes_at m (f.data_ptr + f.offset) i,
      bytes_at m (g.data_ptr + g.offset) (left g b),
      ap (λ r. r.0) one,
      ap (λ r. r.0) (again ∙ two),
      ap (λ r. r.0) all ∙ ap some (joined i (left g b) (left f (a + b)) parts),
      ap (λ r. r.1) (again ∙ two)
          ∙ set_twice fds fd g (record g { offset = g.offset + left g b })
          ∙ ap (λ (o : ℕ). set fds fd (record f { offset = o })) (omega (arith, parts))
          ∙ sym (ap (λ r. r.1) all),
    )
  where
    piece : (ℕ → ℕ) → List File → ℕ → ℕ → File → Option (List ℕ) × List File
    piece m t fd b f = (
      some (bytes_at m (f.data_ptr + f.offset) (left f b)),
      set t fd (record f { offset = f.offset + left f b }),
    )

    joined :
        (i j n : ℕ)
        → n ≡ i + j
        → bytes_at m ((file_at fds fd).data_ptr + (file_at fds fd).offset) n
          ≡ bytes_at m ((file_at fds fd).data_ptr + (file_at fds fd).offset) i
            ++ bytes_at m ((file_at fds fd).data_ptr + ((file_at fds fd).offset + i)) j
    joined i j n e =
        let p = (file_at fds fd).data_ptr + (file_at fds fd).offset in
        let assoc : (file_at fds fd).data_ptr + ((file_at fds fd).offset + i) ≡ p + i =
          omega arith in
        rw (e, assoc) (bytes_at-append m p i j)
