-- ===== src/Editor.antt =====
-- kernel/editor.c: the text editor. `editor_open` waits for a key in four places, which are the modes
-- of the model: the main loop, behind ESC, behind ESC [, and the question before the exit. What it
-- draws is left out. The buffer that `kmalloc` gives is an array of its own.
pub mod Bounds
pub mod Text
pub mod Save
mod Tests
use strixos.Prelude.{
  ℕ, zero, suc, ◌+◌, ◌-◌, ◌==◌, ltb, leb, if◌then◌else◌, Bool, true, false, not, ◌&&◌, ◌||◌, Option,
  none, some, List, [], ◌∷◌, ◌++◌, length, take, drop, get_or, set, replicate,
}
use strixos.Buffer.{move_up, move_down}
use strixos.Heap.{Heap, kmalloc, kfree}
use strixos.Initrd
use strixos.Initrd.{Status, Initrd, ok, failed}
use strixos.Vfs.{File, open_file, close, read}

abbrev pub buf_size : ℕ
buf_size = 8192

pub data Mode : Type 0 where
  typing escape bracket confirm closed : Mode

pub record Editor : Type 0 where
  pub filename : List ℕ
  pub buf : List ℕ
  pub buf_ptr : ℕ
  pub len : ℕ
  pub cur : ℕ
  pub modified : Bool
  pub mode : Mode
  pub disk : Initrd
  pub heap : Heap

abbrev pub newline : ℕ
newline = 10

-- "new.txt"
abbrev pub default_name : List ℕ
default_name = 110 ∷ 101 ∷ 119 ∷ 46 ∷ 116 ∷ 120 ∷ 116 ∷ []

-- The name that is edited: at most 63 characters, without a slash in front.
abbrev pub file_name : List ℕ → List ℕ
file_name [] = default_name
file_name (c ∷ cs) = Initrd.skip_slash (take 63 (c ∷ cs))

-- The loop that makes room, the new character, and the cursor behind it.
unfoldable pub insert_key : Editor → ℕ → Editor
insert_key e c =
    if ltb e.len 8190
    then record e {
      buf = set (move_up e.buf e.len (e.len - e.cur)) e.cur c;
      cur = e.cur + 1;
      len = e.len + 1;
      modified = true;
    }
    else e

unfoldable pub backspace : Editor → Editor
backspace e =
    if ltb 0 e.cur
    then record e {
      buf = move_down e.buf (e.cur - 1) 1 (e.len - (e.cur - 1));
      cur = e.cur - 1;
      len = e.len - 1;
      modified = true;
    }
    else e

-- `while(ls>0&&buf[ls-1]!='\n') ls--;`
unfoldable pub line_start : List ℕ → ℕ → ℕ
line_start buf zero = zero
line_start buf (suc ls) = elim (get_or buf ls 0 == newline) [
  | true ↦ suc ls
  | false ↦ line_start buf ls
]

-- `while(le<len&&buf[le]!='\n') le++;`, with `len - le` for `n`.
unfoldable pub line_end : List ℕ → ℕ → ℕ → ℕ
line_end buf le zero = le
line_end buf le (suc n) = elim (get_or buf le 0 == newline) [
  | true ↦ le
  | false ↦ line_end buf (le + 1) n
]

-- The end of the current line, its newline included.
abbrev pub cut_end : Editor → ℕ
cut_end e = let le = line_end e.buf e.cur (e.len - e.cur) in if ltb le e.len then le + 1 else le

unfoldable pub cut_line : Editor → Editor
cut_line e =
    let ls = line_start e.buf e.cur in
    let llen = cut_end e - ls in
    let len = e.len - llen in
    record e {
      buf = move_down e.buf ls llen (e.len - cut_end e);
      len = len;
      cur = if ltb len e.cur then len else e.cur;
      modified = true;
    }

-- The label `do_save`; `none` where the heap's walks do not end within the fuel.
unfoldable pub save_text : ℕ → Editor → Option Editor
save_text fuel e = elim (Initrd.save fuel e.disk e.heap e.filename (take e.len e.buf)) [
  | none ↦ none
  | some (ok, (d, h)) ↦ some (record e { disk = d; heap = h; modified = false; mode = typing })
  | some (failed, (d, h)) ↦ some (record e { disk = d; heap = h; mode = typing })
]

-- What the main loop does with a key other than ^O.
unfoldable pub edit_key : Editor → ℕ → Editor
edit_key e c =
    if c == 0
    then e
    else if c == 27
    then record e { mode = escape }
    else if c == 24
    then (if e.modified then record e { mode = confirm } else record e { mode = closed })
    else if c == 11
    then cut_line e
    else if c == 8 || c == 127
    then backspace e
    else if c == newline || c == 13
    then insert_key e newline
    else if leb 32 c && ltb c 127
    then insert_key e c
    else e

-- The key behind ESC [.
unfoldable pub arrow : Editor → ℕ → Editor
arrow e c =
    let e' = record e { mode = typing } in
    if c == 68 && ltb 0 e.cur
    then record e' { cur = e.cur - 1 }
    else if c == 67 && ltb e.cur e.len
    then record e' { cur = e.cur + 1 }
    else e'

-- The answer to "Save before exit?".
unfoldable pub answer : ℕ → Editor → ℕ → Option Editor
answer fuel e c =
    if c == 121 || c == 89
    then save_text fuel e
    else if c == 110 || c == 78
    then some (record e { mode = closed })
    else some (record e { mode = typing })

-- One key.
unfoldable pub press : ℕ → Editor → ℕ → Option Editor
press fuel e c = elim e.mode [
  | typing ↦ if c == 15 then save_text fuel e else some (edit_key e c)
  | escape ↦ some (if c == 91 then record e { mode = bracket } else record e { mode = closed })
  | bracket ↦ some (arrow e c)
  | confirm ↦ answer fuel e c
  | closed ↦ some e
]

unfoldable pub press_all : ℕ → Editor → List ℕ → Option Editor
press_all fuel e [] = some e
press_all fuel e (c ∷ cs) = elim (press fuel e c) [ none ↦ none | some e' ↦ press_all fuel e' cs ]

-- `vfs_open`, `vfs_read` of at most 8191 bytes and `vfs_close`: the file's text, and the descriptors.
unfoldable pub load : Initrd → Heap → List File → List ℕ → List ℕ × List File
load d h fds name =
    let (opened, fds') = open_file d.files fds name 0 in
    elim opened [
      | none ↦ ([], fds')
      | some fd ↦
          let (got, fds'') = read h.bytes fds' fd 8191 in
          (elim got [ none ↦ [] | some bs ↦ bs ], (close fds'' fd).1)
    ]

-- `editor_open` up to its main loop; no editor where there is no memory for the buffer.
unfoldable pub start : ℕ → Initrd → Heap → List File → List ℕ → Option (Option Editor × List File)
start fuel d h fds path = elim (kmalloc fuel h buf_size) [
  | none ↦ none
  | some (p, h') ↦
      let (text, fds') = load d h' fds (file_name path) in
      if p == 0
      then some (none, fds)
      else some (
        some (record {
          filename = file_name path;
          buf = text ++ drop (length text) (replicate buf_size 0);
          buf_ptr = p;
          len = length text;
          cur = length text;
          modified = false;
          mode = typing;
          disk = d;
          heap = h';
        }),
        fds',
      )
]

-- `kfree(buf)` at the end.
unfoldable pub finish : ℕ → Editor → Option Heap
finish fuel e = kfree fuel e.heap e.buf_ptr
