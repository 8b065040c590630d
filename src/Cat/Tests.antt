-- ===== src/Cat/Tests.antt =====
-- `cat` at concrete files.
use strixos.Prelude.{
  ℕ, ◌≡◌, refl, ◌==◌, true, Option, none, some, List, [], ◌∷◌, ◌++◌, replicate, if◌then◌else◌, ◌||◌,
  if◌then◌else◌, ◌||◌, All, arith,
}
use strixos.Number.{decimal, rev_digits}
use strixos.Initrd.{Entry}
use strixos.Vfs
use strixos.Vfs.{File, blank, lookup, find_fd, open_file, close, bytes_at}
use strixos.Fat.{open_fat}
use strixos.Cat.{
  Files, break_line, numbered, shown, one_line, cat_chunk, cat_loop, cat_file, no_such_file,
}
use strixos.Cat.Args.{
  parse, long_option, short_option, short_options, cat_files, printed, Result, strix_cat,
}
use strixos.Cat.Concat.{CanCat, Ready, paths, contents, strix_cat-contents}

-- "x\ny" at 100, and a tab and the end of a line at 200.
abbrev memory : ℕ → ℕ
memory a =
    if a == 101 || a == 201 then 10 else if a == 200 then 9 else if a == 100 then 120 else 121

abbrev first : Entry
first = record { name = 97 ∷ []; data_ptr = 100; size = 3 }

abbrev second : Entry
second = record { name = 98 ∷ []; data_ptr = 200; size = 2 }

abbrev world : Files
world = record {
  memory = memory;
  entries = first ∷ second ∷ [];
  fds = replicate 16 blank;
  fat = record { inited = true; fd = none; off = 0 };
}

abbrev result_of : Option (Result × Files) → Option Result
result_of none = none
result_of (some r) = some r.0

-- `cat -n a`
numbered_lines :
    result_of (strix_cat 3 world ((45 ∷ 110 ∷ []) ∷ (97 ∷ []) ∷ []))
    ≡ some (
        printed
          (32 ∷ 32 ∷ 32 ∷ 32 ∷ 32 ∷ 49 ∷ 9 ∷ 120 ∷ 10 ∷ 32 ∷ 32 ∷ 32 ∷ 32 ∷ 32 ∷ 50 ∷ 9 ∷ 121 ∷ [])
          0)
unfolding strix_cat parse long_option short_option short_options cat_files cat_file cat_loop
    cat_chunk one_line shown numbered break_line decimal rev_digits open_file lookup find_fd
    Vfs.read bytes_at close
numbered_lines = refl

-- `cat --number a` takes the option for a file.
long_option_as_file :
    result_of (strix_cat 3 world ((45 ∷ 45 ∷ 110 ∷ 117 ∷ 109 ∷ 98 ∷ 101 ∷ 114 ∷ []) ∷ []))
    ≡ some (printed (no_such_file (45 ∷ 45 ∷ 110 ∷ 117 ∷ 109 ∷ 98 ∷ 101 ∷ 114 ∷ [])) 1)
unfolding strix_cat parse long_option cat_files cat_file open_file lookup open_fat
long_option_as_file = refl

abbrev first_number : List ℕ
first_number = 32 ∷ 32 ∷ 32 ∷ 32 ∷ 32 ∷ 49 ∷ 9 ∷ []

-- A line that lies in two chunks is numbered in each of them.
numbered_twice :
    result_of (
      strix_cat 3
        (record world { entries = record first { size = 130 } ∷ []; memory = λ a. 120 })
        ((45 ∷ 110 ∷ []) ∷ (97 ∷ []) ∷ []))
    ≡ some (printed ((first_number ++ replicate 128 120) ++ (first_number ++ (120 ∷ 120 ∷ []))) 0)
unfolding strix_cat parse long_option short_option short_options cat_files cat_file cat_loop
    cat_chunk one_line shown numbered break_line decimal rev_digits open_file lookup find_fd
    Vfs.read bytes_at close
numbered_twice = refl

abbrev both_files : List (List ℕ × Entry)
both_files = ((97 ∷ []), first) ∷ ((98 ∷ []), second) ∷ []

both_files-CanCat : All (CanCat 2 world.entries) both_files
unfolding lookup
both_files-CanCat = (
  record { named = refl; small = omega arith; enough = omega arith; no_dash = refl },
  (record { named = refl; small = omega arith; enough = omega arith; no_dash = refl }, tt),
)

world-Ready : Ready world.fds
world-Ready = (refl, (3, (omega arith, (omega arith, refl))))

strix_cat-contents_example :
    (fds : List File) × ((strix_cat 2 world (paths both_files)
        ≡ some (printed (contents world.memory both_files) 0, record world { fds = fds }))
      × Ready fds)
strix_cat-contents_example =
    strix_cat-contents 2 world ((97 ∷ []), first) (((98 ∷ []), second) ∷ []) world-Ready
      both_files-CanCat
