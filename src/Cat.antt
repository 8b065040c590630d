-- ===== src/Cat.antt =====
-- kernel/coreutils_port.c: `cat`. The texts of its help and its version are left out, and so is the message
-- about an unknown option: a result says which of them was printed.
pub mod Args
pub mod Plain
pub mod Concat
mod Tests
use strixos.Prelude.{
  ℕ, zero, suc, ◌+◌, ◌-◌, ◌==◌, ltb, leb, if◌then◌else◌, Bool, true, false, not, ◌&&◌, ◌||◌, Option,
  none, some, List, [], ◌∷◌, ◌++◌, length, drop, replicate,
}
use strixos.Number.{decimal}
use strixos.Initrd.{Entry, is_equal}
use strixos.Vfs
use strixos.Vfs.{File, open_file, close}
use strixos.Fat.{Fat, open_fat, read_fat, close_fat}

pub record Options : Type 0 where
  pub number : Bool
  pub number_nb : Bool
  pub show_ends : Bool
  pub show_tabs : Bool
  pub squeeze : Bool

-- `line` and `prev_blank`
pub record Lines : Type 0 where
  pub line : ℕ
  pub prev_blank : Bool

-- The characters up to the end of the line, and what follows it, `none` where the chunk has no end of a line.
unfoldable pub break_line : List ℕ → List ℕ × Option (List ℕ)
break_line [] = ([], none)
break_line (c ∷ cs) =
    let rest = break_line cs in if c == 10 then ([], some cs) else (c ∷ rest.0, rest.1)

-- The number in front of a line: `none` where it does not fit the 16 bytes of `nb`.
unfoldable pub numbered : ℕ → Option (List ℕ)
numbered v = elim (decimal 15 v) [
  | none ↦ none
  | some ds ↦ some (replicate (6 - length ds) 32 ++ (ds ++ (9 ∷ [])))
]

-- The characters of a line, with a tab as `^I` for `-T`.
unfoldable pub shown : Bool → List ℕ → List ℕ
shown tabs [] = []
shown tabs (c ∷ cs) = if tabs && (c == 9) then 94 ∷ 73 ∷ shown tabs cs else c ∷ shown tabs cs

-- One line or the part of it that the chunk has: what is printed, and the state behind it.
unfoldable pub one_line : Options → Lines → List ℕ × Option (List ℕ) → Option (List ℕ × Lines)
one_line o st (text, rest) =
    let is_blank : Bool = length text == 0 in
    let prefix : Option (List ℕ) =
      if o.number || (o.number_nb && not is_blank) then numbered st.line else some [] in
    if o.squeeze && (is_blank && st.prev_blank) then some ([], st) else elim prefix [
      | none ↦ none
      | some ds ↦ elim rest [
        | none ↦ some (ds ++ shown o.show_tabs text, record st { prev_blank = is_blank })
        | some cs ↦ some (
          ds ++ (shown o.show_tabs text ++ (if o.show_ends then 36 ∷ 10 ∷ [] else 10 ∷ [])),
          record { line = st.line + 1; prev_blank = is_blank },
        )
      ]
    ]

-- `for(long i=0;i<n;)`: the lines of a chunk, of which at most `fuel` are left.
unfoldable pub cat_chunk : ℕ → Options → Lines → List ℕ → Option (List ℕ × Lines)
cat_chunk fuel o st [] = some ([], st)
cat_chunk zero o st (c ∷ cs) = none
cat_chunk (suc fuel) o st (c ∷ cs) = elim (one_line o st (break_line (c ∷ cs))) [
  | none ↦ none
  | some (out, st') ↦ elim (break_line (c ∷ cs)).1 [
    | none ↦ some (out, st')
    | some rest ↦ elim (cat_chunk fuel o st' rest) [
      | none ↦ none
      | some (more, end) ↦ some (out ++ more, end)
    ]
  ]
]

-- `while((n=read(fd,buf,128))>0)`, which the code has for `sys_read` and for `fat_read`: `next` is the read, and
-- `S` what it changes.
module _ {S : Type 0} (next : S → Option (List ℕ) × S) where
  unfoldable pub cat_loop : ℕ → Options → Lines → S → Option (List ℕ × S)
  cat_loop zero o st s = none
  cat_loop (suc fuel) o st s = elim (next s).0 [
    | none ↦ some ([], (next s).1)
    | some [] ↦ some ([], (next s).1)
    | some (c ∷ cs) ↦ elim (cat_chunk (suc (length cs)) o st (c ∷ cs)) [
      | none ↦ none
      | some (out, st') ↦ elim (cat_loop fuel o st' (next s).1) [
        | none ↦ none
        | some (more, end) ↦ some (out ++ more, end)
      ]
    ]
  ]

abbrev pub first_line : Lines
first_line = record { line = 1; prev_blank = false }

-- What `cat` reaches: the memory, the files and their descriptors, and the FAT image.
pub record Files : Type 0 where
  pub memory : ℕ → ℕ
  pub entries : List Entry
  pub fds : List File
  pub fat : Fat

-- "cat: ", the path, and ": No such file or directory".
abbrev pub no_such_file : List ℕ → List ℕ
no_such_file path =
    99
    ∷ 97
    ∷ 116
    ∷ 58
    ∷ 32
    ∷ (path
        ++ (58 ∷ 32 ∷ 78 ∷ 111 ∷ 32 ∷ 115 ∷ 117 ∷ 99 ∷ 104 ∷ 32 ∷ 102 ∷ 105 ∷ 108 ∷ 101 ∷ 32 ∷ 111
            ∷ 114 ∷ 32 ∷ 100 ∷ 105 ∷ 114 ∷ 101 ∷ 99 ∷ 116 ∷ 111 ∷ 114 ∷ 121 ∷ 10 ∷ []))

-- `cat_file`: what it prints, the number that it returns, and the files behind it.
unfoldable pub cat_file : ℕ → Options → Files → List ℕ → Option ((List ℕ × ℕ) × Files)
cat_file fuel o w path = elim (open_file w.entries w.fds path 0).0 [
  | some fd ↦
      elim (cat_loop (λ fds. Vfs.read w.memory fds fd 128) fuel o first_line
        (open_file w.entries w.fds path 0).1) [
          | none ↦ none
          | some (out, fds) ↦ some ((out, 0), record w { fds = (close fds fd).1 })
        ]
  | none ↦ elim (open_fat w.fat path).0 [
    | none ↦ some (
      (no_such_file path, 1),
      record w { fds = (open_file w.entries w.fds path 0).1; fat = (open_fat w.fat path).1 },
    )
    | some fd ↦ elim (cat_loop (λ f. read_fat f fd 128) fuel o first_line (open_fat w.fat path).1) [
      | none ↦ none
      | some (out, f) ↦ some (
        (out, 0),
        record w { fds = (open_file w.entries w.fds path 0).1; fat = (close_fat f fd).1 },
      )
    ]
  ]
]
