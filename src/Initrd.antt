-- ===== src/Initrd.antt =====
-- kernel/initrd.c: the table of files in memory. A name is the characters of the C string before its
-- end, a file's data is a pointer, and its bytes lie in the memory of the heap.
use strixos.Prelude.{
  ℕ, zero, suc, ◌+◌, ◌-◌, ◌≡◌, refl, ap₂, ◌==◌, leb, if◌then◌else◌, Bool, true, false, ◌&&◌, ◌||◌,
  Option, none, some, List, [], ◌∷◌, length, take, get_or, set, arith,
}
use strixos.Heap.{Heap, kmalloc, kfree}

abbrev pub max_files : ℕ
max_files = 32

pub record Entry : Type 0 where
  pub name : List ℕ
  pub data_ptr : ℕ
  pub size : ℕ

-- `initrd_files`, `initrd_count`, and the addresses of the five static buffers.
pub record Initrd : Type 0 where
  pub files : List Entry
  pub count : ℕ
  pub statics : List ℕ

-- The result 0, or -1.
pub data Status : Type 0 where
  ok failed : Status

abbrev pub no_entry : Entry
no_entry = record { name = []; data_ptr = 0; size = 0 }

-- `kstrcmp_i(a, b) == 0`
abbrev pub is_equal : List ℕ → List ℕ → Bool
is_equal [] [] = true
is_equal [] (y ∷ ys) = false
is_equal (x ∷ xs) [] = false
is_equal (x ∷ xs) (y ∷ ys) = (x == y) && is_equal xs ys

pub is_equal_sound : (xs ys : List ℕ) → is_equal xs ys ≡ true → xs ≡ ys
is_equal_sound [] [] h = refl
is_equal_sound [] (y ∷ ys) h = ground arith
is_equal_sound (x ∷ xs) [] h = ground arith
is_equal_sound (x ∷ xs) (y ∷ ys) h =
    let first : x ≡ y = ground arith in
    let rest : is_equal xs ys ≡ true = ground arith in ap₂ ◌∷◌ first (is_equal_sound xs ys rest)

-- A `/` in front of the name is skipped.
abbrev pub skip_slash : List ℕ → List ℕ
skip_slash [] = []
skip_slash (c ∷ cs) = if c == 47 then cs else c ∷ cs

-- The index of the first entry from `i` on with the name, `n` rounds left.
unfoldable pub find_file : List Entry → List ℕ → ℕ → ℕ → Option ℕ
find_file files name i zero = none
find_file files name i (suc n) = elim (is_equal (get_or files i no_entry).name name) [
  | true ↦ some i
  | false ↦ find_file files name (i + 1) n
]

abbrev pub is_static : List ℕ → ℕ → Bool
is_static [] p = false
is_static (q ∷ qs) p = (p == q) || is_static qs p

-- `for(k<size) copy[k]=data[k]`
unfoldable pub write_bytes : ℕ → List ℕ → (ℕ → ℕ) → ℕ → ℕ
write_bytes p [] m = m
write_bytes p (c ∷ cs) m = write_bytes (p + 1) cs (λ a. if a == p then c else m a)

-- `kmalloc(size?size:1)`, and the copy.
unfoldable pub store : ℕ → Heap → List ℕ → Option (ℕ × Heap)
store fuel h bytes = elim (kmalloc fuel h (if length bytes == 0 then 1 else length bytes)) [
  | none ↦ none
  | some (p, h') ↦
      if p == 0 then some (p, h') else some (p, record h' { bytes = write_bytes p bytes h'.bytes })
]

-- Frees the data of a file that is not one of the static buffers.
unfoldable pub release : ℕ → List ℕ → Heap → ℕ → Option Heap
release fuel statics h p = if is_static statics p then some h else kfree fuel h p

-- `initrd_save`; `none` where the heap's walks do not end within the fuel.
unfoldable pub save : ℕ → Initrd → Heap → List ℕ → List ℕ → Option (Status × (Initrd × Heap))
save fuel s h [] bytes = some (failed, (s, h))
save fuel s h (c ∷ cs) bytes =
    let name = skip_slash (c ∷ cs) in
    elim (find_file s.files name 0 s.count) [
      | some i ↦ elim (store fuel h bytes) [
        | none ↦ none
        | some (p, h') ↦
            if p == 0
            then some (failed, (s, h'))
            else elim (release fuel s.statics h' (get_or s.files i no_entry).data_ptr) [
              | none ↦ none
              | some h'' ↦ some (
                ok,
                (
                  record s {
                    files =
                        set s.files i (record (get_or s.files i no_entry) {
                          data_ptr = p;
                          size = length bytes;
                        });
                  },
                  h'',
                ),
              )
            ]
      ]
      | none ↦
          if leb (max_files - 1) s.count then some (failed, (s, h)) else elim (store fuel h bytes) [
            | none ↦ none
            | some (p, h') ↦
                if p == 0
                then some (failed, (s, h'))
                else some (
                  ok,
                  (
                    record s {
                      files =
                          set
                            (set s.files s.count
                              (record { name = take 31 name; data_ptr = p; size = length bytes }))
                            (s.count + 1) no_entry;
                      count = s.count + 1;
                    },
                    h',
                  ),
                )
          ]
    ]

-- `for(j=i;j<count-1;j++) files[j]=files[j+1]`, with `n` rounds left.
unfoldable pub shift_down : List Entry → ℕ → ℕ → List Entry
shift_down files j zero = files
shift_down files j (suc n) = shift_down (set files j (get_or files (j + 1) no_entry)) (j + 1) n

-- `initrd_remove`
unfoldable pub remove : ℕ → Initrd → Heap → List ℕ → Option (Status × (Initrd × Heap))
remove fuel s h name = elim (find_file s.files (skip_slash name) 0 s.count) [
  | none ↦ some (failed, (s, h))
  | some i ↦ elim (release fuel s.statics h (get_or s.files i no_entry).data_ptr) [
    | none ↦ none
    | some h' ↦ some (
      ok,
      (
        record s {
          files = set (shift_down s.files i (s.count - 1 - i)) (s.count - 1) no_entry;
          count = s.count - 1;
        },
        h',
      ),
    )
  ]
]
