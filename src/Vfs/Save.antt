-- ===== src/Vfs/Save.antt =====
-- Opening a file after `initrd_save` has made it.
use strixos.Prelude.{
  ℕ, zero, suc, ◌+◌, ◌-◌, ◌≤◌, ◌<◌, ◌≡◌, ◌⊎◌, refl, sym, ◌∙◌, ap, ap₂, subst, ◌==◌, ==_ne, ==_refl,
  leb, if◌then◌else◌, true, false, Bool-cases, inl, inr, ◌≢◌, none, some, List, [], ◌∷◌, length,
  take, take-all, get_or, set, get_or-set, length-set, arith,
}
use strixos.Heap.{Heap, kmalloc}
use strixos.Heap.Bytes.{with_bytes, kmalloc_keeps}
use strixos.Initrd.{
  Entry, Initrd, ok, no_entry, max_files, is_equal, find_file, write_bytes, store, save,
}
use strixos.Vfs.{lookup, bytes_at}

abbrev pub entry : Initrd → ℕ → Entry
entry s i = get_or s.files i no_entry

-- The files stand at the start of the table, and an entry without a name ends them.
pub record IsValid (s : Initrd) : Type 0 where
  pub room : length s.files ≡ 32
  pub below : s.count < 32
  pub ended : (entry s s.count).name ≡ []
  pub named : (i : ℕ) → i < s.count → 0 < length (entry s i).name

is_equal_comm : (xs ys : List ℕ) → is_equal xs ys ≡ is_equal ys xs
is_equal_comm [] [] = refl
is_equal_comm [] (y ∷ ys) = refl
is_equal_comm (x ∷ xs) [] = refl
is_equal_comm (x ∷ xs) (y ∷ ys) = ground (arith, is_equal_comm xs ys)

is_equal_refl : (xs : List ℕ) → is_equal xs xs ≡ true
is_equal_refl [] = refl
is_equal_refl (x ∷ xs) = ground (arith, is_equal_refl xs)

-- The search for an entry goes past those that differ.
lookup-at :
    (es : List Entry) (k : ℕ) (path : List ℕ)
    → k < length es
    → ((i : ℕ) → i < k → 0 < length (get_or es i no_entry).name)
    → ((i : ℕ) → i < k → is_equal path (get_or es i no_entry).name ≡ false)
    → 0 < length (get_or es k no_entry).name
    → is_equal path (get_or es k no_entry).name ≡ true
    → lookup es path ≡ some (get_or es k no_entry)
unfolding lookup
lookup-at [] k path lt named differ own same = absurd (omega arith)
lookup-at (e ∷ es) zero path lt named differ own same =
    let test : (length e.name == 0) ≡ false = ==_ne _ 0 (omega (arith, own)) in rw (test, same) refl
lookup-at (e ∷ es) (suc k) path lt named differ own same =
    let test : (length e.name == 0) ≡ false = ==_ne _ 0 (omega (arith, named 0 (omega arith))) in
    let first : is_equal path e.name ≡ false = differ 0 (omega arith) in
    rw (lookup, test, first)
      (lookup-at es k path (omega arith) (λ i lt. named (suc i) (omega arith))
        (λ i lt. differ (suc i) (omega arith)) own same)

find_file-none :
    (files : List Entry) (name : List ℕ) (i n : ℕ)
    → find_file files name i n ≡ none
    → (j : ℕ) → i ≤ j
    → j < i + n
    → is_equal (get_or files j no_entry).name name ≡ false
unfolding find_file
find_file-none files name i zero e j le lt = absurd (omega arith)
find_file-none files name i (suc n) e j le lt =
    elim (Bool-cases (is_equal (get_or files i no_entry).name name)) [
      | inl hit ↦ absurd (ground (arith, hit, e))
      | inr miss ↦ elim (Bool-cases (j == i)) [
        | inl own ↦ let same : j ≡ i = ground arith in rw same miss
        | inr other ↦
            let above : i + 1 ≤ j = ground arith in
            let rest : find_file files name (i + 1) n ≡ none = ground (arith, miss, e) in
            find_file-none files name (i + 1) n rest j above (omega arith)
      ]
    ]

write_bytes_before : (p : ℕ) (cs : List ℕ) (m : ℕ → ℕ) (a : ℕ) → a < p → write_bytes p cs m a ≡ m a
unfolding write_bytes
write_bytes_before p [] m a lt = refl
write_bytes_before p (c ∷ cs) m a lt =
    let away : (a == p) ≡ false = ==_ne a p (omega arith) in
    write_bytes_before (p + 1) cs _ a (omega arith) ∙ rw away refl

pub bytes_at-write_bytes :
    (p : ℕ) (cs : List ℕ) (m : ℕ → ℕ) → bytes_at (write_bytes p cs m) p (length cs) ≡ cs
unfolding write_bytes bytes_at
bytes_at-write_bytes p [] m = refl
bytes_at-write_bytes p (c ∷ cs) m =
    let own : (p == p) ≡ true = ==_refl p in
    let first : write_bytes (p + 1) cs (λ a. if a == p then c else m a) p ≡ c =
      write_bytes_before (p + 1) cs _ p (omega arith) ∙ rw own refl in
    ap₂ ◌∷◌ first (bytes_at-write_bytes (p + 1) cs (λ a. if a == p then c else m a))

write_bytes_outside :
    (p : ℕ) (cs : List ℕ) (m : ℕ → ℕ) (a : ℕ)
    → (a < p) ⊎ (p + length cs ≤ a)
    → write_bytes p cs m a ≡ m a
unfolding write_bytes
write_bytes_outside p [] m a outside = refl
write_bytes_outside p (c ∷ cs) m a outside =
    let away : (a == p) ≡ false = ground (arith, outside) in
    write_bytes_outside (p + 1) cs (λ k. if k == p then c else m k) a (omega (arith, outside))
    ∙ rw away refl

-- The table after a new file is put at its end.
module _ (s : Initrd) (v : IsValid s) (few : s.count < 31) (name : List ℕ) (p size : ℕ) where
  abbrev fresh : Entry
  fresh = record { name = take 31 name; data_ptr = p; size = size }

  abbrev added : Initrd
  added = record s {
    files = set (set s.files s.count fresh) (s.count + 1) no_entry;
    count = s.count + 1;
  }

  added-at : (i : ℕ) → i ≢ s.count + 1 → entry added i ≡ (if s.count == i then fresh else entry s i)
  added-at i ne =
      let away : (s.count + 1 == i) ≡ false = ==_ne _ i (omega (arith, ne)) in
      get_or-set (set s.files s.count fresh) (s.count + 1) i no_entry no_entry
        (omega (arith, length-set s.files s.count fresh, v.room))
      ∙ rw away (get_or-set s.files s.count i fresh no_entry (omega (arith, v.room, v.below)))

  added_old : (i : ℕ) → i < s.count → entry added i ≡ entry s i
  added_old i lt =
      let away : (s.count == i) ≡ false = ==_ne _ i (omega arith) in
      added-at i (omega arith) ∙ rw away refl

  added_new : entry added s.count ≡ fresh
  added_new =
      let own : (s.count == s.count) ≡ true = ==_refl s.count in
      added-at s.count (omega arith) ∙ rw own refl

  added_end : entry added (s.count + 1) ≡ no_entry
  added_end =
      let own : (s.count + 1 == s.count + 1) ≡ true = ==_refl (s.count + 1) in
      get_or-set (set s.files s.count fresh) (s.count + 1) (s.count + 1) no_entry no_entry
        (omega (arith, length-set s.files s.count fresh, v.room))
      ∙ rw own refl

  added-IsValid : 0 < length (take 31 name) → IsValid added
  added-IsValid pos = record {
    room = length-set _ (s.count + 1) no_entry ∙ (length-set s.files s.count fresh ∙ v.room);
    below = omega arith;
    ended = ap (λ e. e.name) added_end;
    named = λ i lt. elim (Bool-cases (i == s.count)) [
      | inl last ↦
          let e : i ≡ s.count = ground arith in
          subst (λ (j : ℕ). 0 < length (entry added j).name) (sym e)
            (subst (λ (x : Entry). 0 < length x.name) (sym added_new) pos)
      | inr old ↦
          let e : i < s.count = ground arith in
          subst (λ (x : Entry). 0 < length x.name) (sym (added_old i e)) (v.named i e)
    ];
  }

  added-lookup :
      0 < length name
      → length name < 32
      → find_file s.files name 0 s.count ≡ none
      → lookup added.files name ≡ some (record { name = name; data_ptr = p; size = size })
  added-lookup pos short missing =
      let all : take 31 name ≡ name = take-all 31 name (omega arith) in
      let new : entry added s.count ≡ record { name = name; data_ptr = p; size = size } =
        added_new ∙ ap (λ (n : List ℕ). record fresh { name = n }) all in
      lookup-at added.files s.count name
        (omega (
          arith,
          length-set (set s.files s.count fresh) (s.count + 1) no_entry,
          length-set s.files s.count fresh,
          v.room,
        ))
        (λ i lt. subst (λ (x : Entry). 0 < length x.name) (sym (added_old i lt)) (v.named i lt))
        (λ i lt.
          is_equal_comm name (entry added i).name
          ∙ (ap (λ (x : Entry). is_equal x.name name) (added_old i lt)
              ∙ find_file-none s.files name 0 s.count missing i (omega arith) (omega arith)))
        (subst (λ (x : Entry). 0 < length x.name) (sym new) pos)
        (ap (λ (x : Entry). is_equal name x.name) new ∙ is_equal_refl name)
      ∙ ap some new

-- In a valid table with room, the save of a file with a new name of 1 to 31 characters, the first of
-- them no slash, for which `kmalloc` gives the pointer `p`, succeeds and leaves a valid table: the name
-- is then found, with `p` and the size, the memory at `p` holds the bytes, every other byte of the memory
-- is as before, the other files keep their entries, and the heap is otherwise the one that `kmalloc`
-- leaves.
pub save_new :
    (fuel : ℕ) (s : Initrd) (h h' : Heap) (c : ℕ) (cs bytes : List ℕ) (p : ℕ)
    → IsValid s
    → s.count < 31
    → c ≢ 47
    → length cs < 31
    → find_file s.files (c ∷ cs) 0 s.count ≡ none
    → kmalloc fuel h (if length bytes == 0 then 1 else length bytes) ≡ some (p, h')
    → 0 < p
    → (s' : Initrd) × (h'' : Heap) × (save fuel s h (c ∷ cs) bytes ≡ some (ok, (s', h'')))
      × IsValid s'
      × (lookup s'.files (c ∷ cs)
          ≡ some (record { name = c ∷ cs; data_ptr = p; size = length bytes }))
      × (bytes_at h''.bytes p (length bytes) ≡ bytes)
      × ((i : ℕ) → i < s.count → entry s' i ≡ entry s i)
      × ((a : ℕ) → (a < p) ⊎ (p + length bytes ≤ a) → h''.bytes a ≡ h.bytes a)
      × (h'' ≡ with_bytes h''.bytes h')
unfolding save store
save_new fuel s h h' c cs bytes p v few first short missing got pos =
    let name = c ∷ cs in
    let slash : (c == 47) ≡ false = ==_ne c 47 first in
    let room : leb (max_files - 1) s.count ≡ false = ground arith in
    let valid : (p == 0) ≡ false = ==_ne p 0 (omega arith) in
    (
      added s v few name p (length bytes),
      record h' { bytes = write_bytes p bytes h'.bytes },
      rw (save, slash, missing, room, store, got, valid, valid, slash) refl,
      added-IsValid s v few name p (length bytes) (omega arith),
      added-lookup s v few name p (length bytes) (omega arith) (omega arith) missing,
      bytes_at-write_bytes p bytes h'.bytes,
      λ i lt. added_old s v few name p (length bytes) i lt,
      λ a outside.
          write_bytes_outside p bytes h'.bytes a outside
          ∙ ap (λ (m : ℕ → ℕ). m a) (kmalloc_keeps fuel h h' _ p got),
      refl,
    )
