-- ===== src/Cat/Concat.antt =====
-- `cat` of several files without options: it concatenates them.
use strixos.Prelude.{
  ℕ, suc, ◌+◌, ◌*◌, ◌^◌, ◌≤◌, ◌<◌, ◌≡◌, refl, sym, ◌∙◌, ap, subst, ◌==◌, leb, ltb, false, inl, inr,
  some, List, [], ◌∷◌, ◌++◌, length, length-set, get_or, set, All, arith,
}
use mathlib.Core.Bool.{true≢false}
use strixos.Initrd.{Entry, skip_slash, is_equal}
use strixos.Vfs
use strixos.Vfs.{File, file_at, lookup, open_file, close, max_fd, bytes_at}
use strixos.Vfs.Read.{IsOpen, file_at-set}
use strixos.Vfs.Open.{Opened, open_file_lem, file_at-open_file}
use strixos.Cat.{Files, first_line, cat_loop, cat_file}
use strixos.Cat.Args.{is_option, parse, cat_files, printed, strix_cat}
use strixos.Cat.Plain.{plain, Copied, Behind, cat_loop-plain}

-- A descriptor is left for `cat`.
abbrev pub Ready : List File → Type 0
Ready fds = (length fds ≡ 16) × ((i : ℕ) × ((3 ≤ i) × ((i < 16) × ((file_at fds i).used ≡ false))))

close-Ready : (fds : List File) (fd : ℕ) → 3 ≤ fd → IsOpen fds fd → Ready (close fds fd).1
unfolding close
close-Ready fds fd low o =
    let valid : leb max_fd fd ≡ false = ground (arith, o.in_table) in
    let own : ltb fd 3 ≡ false = ground arith in
    let closed : File = record (file_at fds fd) { used = false } in
    let step : (close fds fd).1 ≡ set fds fd closed = rw (valid, o.used, own) refl in
    subst Ready (sym step) (
      length-set fds fd closed ∙ o.table,
      (
        fd,
        (
          low,
          (
            o.in_table,
            ap (λ f. f.used) (file_at-set fds fd closed (omega (arith, o.table, o.in_table))),
          ),
        ),
      ),
    )

-- What `cat` of one file does.
OneFile : ℕ → Files → List ℕ → Entry → Type 0
OneFile fuel w path e =
    (fds : List File) × ((cat_file fuel plain w path
        ≡ some ((bytes_at w.memory e.data_ptr e.size, 0), record w { fds = fds }))
      × Ready fds)

cat_file_step :
    (fuel fd : ℕ) (w : Files) (path out : List ℕ) (end : List File)
    → (open_file w.entries w.fds path 0).0 ≡ some fd
    → cat_loop
        (λ fds. Vfs.read w.memory fds fd 128)
        fuel
        plain
        first_line
        (open_file w.entries w.fds path 0).1
      ≡ some (out, end)
    → cat_file fuel plain w path ≡ some ((out, 0), record w { fds = (close end fd).1 })
unfolding cat_file
cat_file_step fuel fd w path out end opened read = rw (cat_file, opened, read) refl

cat_file-plain :
    (fuel : ℕ) (w : Files) (path : List ℕ) (e : Entry)
    → Ready w.fds
    → lookup w.entries (skip_slash path) ≡ some e
    → e.size < 2 ^ 63
    → e.size + 128 ≤ 128 * fuel
    → OneFile fuel w path e
unfolding OneFile Copied Behind
cat_file-plain fuel w path e (table, (i, (li, (hi, idle)))) found small enough =
    go (open_file_lem w.entries w.fds path 0 e table found small)
  where
    opened_fds : List File
    opened_fds = (open_file w.entries w.fds path 0).1

    copied :
        (fd : ℕ)
        → 3 ≤ fd
        → (open_file w.entries w.fds path 0).0 ≡ some fd
        → IsOpen opened_fds fd
        → Copied w.memory fd fuel first_line opened_fds e.data_ptr e.size
        → OneFile fuel w path e
    copied fd low opened is_open (end, (read, (open_end, others))) = (
      (close end fd).1,
      (
        cat_file_step fuel fd w path (bytes_at w.memory e.data_ptr e.size) end opened read,
        close-Ready end fd low open_end,
      ),
    )

    go : Opened w.fds e (open_file w.entries w.fds path 0) → OneFile fuel w path e
    go (inl (failed, same, full)) = absurd (true≢false (sym (full i li hi) ∙ idle))
    go (inr (fd, opened, low, unused, lower, is_open, others, reads)) =
        let file =
          file_at-open_file w.entries w.fds path 0 e fd found
            (omega (arith, is_open.in_table, table)) opened in
        copied fd low opened is_open (
          cat_loop-plain w.memory fd fuel first_line opened_fds e.data_ptr e.size is_open
            (omega (arith, ap (λ f. f.data_ptr) file, ap (λ f. f.offset) file))
            (omega (arith, ap (λ f. f.size) file, ap (λ f. f.offset) file)) enough)

-- The path, which does not start with a dash, names the entry, and the fuel is enough to read it.
pub record CanCat (fuel : ℕ) (entries : List Entry) (file : List ℕ × Entry) : Type 0 where
  pub named : lookup entries (skip_slash file.0) ≡ some file.1
  pub small : file.1.size < 2 ^ 63
  pub enough : file.1.size + 128 ≤ 128 * fuel
  pub no_dash : (get_or file.0 0 0 == 45) ≡ false

abbrev pub paths : List (List ℕ × Entry) → List (List ℕ)
paths [] = []
paths (f ∷ fs) = f.0 ∷ paths fs

-- The bytes of the files, one file behind the other.
unfoldable pub contents : (ℕ → ℕ) → List (List ℕ × Entry) → List ℕ
contents m [] = []
contents m (f ∷ fs) = bytes_at m f.1.data_ptr f.1.size ++ contents m fs

-- What `cat` of several files does.
AllFiles : ℕ → Files → List (List ℕ × Entry) → Type 0
AllFiles fuel w files =
    (fds : List File) × ((cat_files fuel plain w (paths files)
        ≡ some ((contents w.memory files, 0), record w { fds = fds }))
      × Ready fds)

not_input : (path : List ℕ) → (get_or path 0 0 == 45) ≡ false → is_equal path (45 ∷ []) ≡ false
not_input [] e = refl
not_input (c ∷ cs) e = rw e refl

not_option : (path : List ℕ) → (get_or path 0 0 == 45) ≡ false → is_option path ≡ false
not_option [] e = refl
not_option (c ∷ []) e = refl
not_option (c ∷ d ∷ cs) e = e

cat_files-plain :
    (fuel : ℕ) (w : Files) (files : List (List ℕ × Entry))
    → Ready w.fds
    → All (CanCat fuel w.entries) files
    → AllFiles fuel w files
unfolding AllFiles OneFile cat_files contents
cat_files-plain fuel w [] ready all = (w.fds, (refl, ready))
cat_files-plain fuel w (f ∷ fs) ready (c, all) =
    let (fds, (first, ready')) = cat_file-plain fuel w f.0 f.1 ready c.named c.small c.enough in
    let (end, (rest, left)) = cat_files-plain fuel (record w { fds = fds }) fs ready' all in
    (end, (joined fds end first rest, left))
  where
    joined :
        (fds end : List File)
        → cat_file fuel plain w f.0
          ≡ some ((bytes_at w.memory f.1.data_ptr f.1.size, 0), record w { fds = fds })
        → cat_files fuel plain (record w { fds = fds }) (paths fs)
          ≡ some ((contents w.memory fs, 0), record w { fds = end })
        → cat_files fuel plain w (f.0 ∷ paths fs)
          ≡ some (
            (bytes_at w.memory f.1.data_ptr f.1.size ++ contents w.memory fs, 0),
            record w { fds = end },
          )
    joined fds end first rest = rw (cat_files, not_input f.0 c.no_dash, first, rest) refl

-- `cat` with one or more paths that do not start with a dash and name files of less than 2^63 bytes, where
-- a descriptor is unused: it prints the bytes of the files one behind the other, returns 0, and leaves a
-- descriptor unused. Fuel above a 128th of the longest file is enough.
pub strix_cat-contents :
    (fuel : ℕ) (w : Files) (f : List ℕ × Entry) (fs : List (List ℕ × Entry))
    → Ready w.fds
    → All (CanCat fuel w.entries) (f ∷ fs)
    → (fds : List File) × ((strix_cat fuel w (paths (f ∷ fs))
          ≡ some (printed (contents w.memory (f ∷ fs)) 0, record w { fds = fds }))
        × Ready fds)
unfolding strix_cat AllFiles parse
strix_cat-contents fuel w f fs ready (c, all) =
    let (end, (copied, left)) = cat_files-plain fuel w (f ∷ fs) ready (c, all) in
    (end, (joined end copied, left))
  where
    joined :
        (end : List File)
        → cat_files fuel plain w (paths (f ∷ fs))
          ≡ some ((contents w.memory (f ∷ fs), 0), record w { fds = end })
        → strix_cat fuel w (paths (f ∷ fs))
          ≡ some (printed (contents w.memory (f ∷ fs)) 0, record w { fds = end })
    joined end copied =
        let some_file : leb (suc (length (paths fs))) 0 ≡ false = ground arith in
        rw (strix_cat, parse, not_option f.0 c.no_dash, some_file, copied) refl
