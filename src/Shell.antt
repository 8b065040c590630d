-- ===== src/Shell.antt =====
-- kernel/shell.c: the command line of the shell, with its history. What it prints is left out, and so
-- are the commands.
pub mod Bounds
pub mod Complete
pub mod Cuts
pub mod Dispatch
pub mod Edit
pub mod Feed
pub mod History
pub mod Keys
pub mod Trim
pub mod Words
mod Tests
use strixos.Prelude.{
  ℕ, zero, suc, ◌+◌, ◌-◌, ◌%◌, ◌==◌, ltb, leb, if◌then◌else◌, Bool, true, false, not, ◌&&◌, ◌||◌,
  Option, none, some, List, [], ◌∷◌, ◌++◌, length, take, drop, get_or, set,
}
use strixos.Buffer.{move_up, move_down}
use strixos.Initrd.{is_equal}

abbrev pub max_line : ℕ
max_line = 128

abbrev pub hist_size : ℕ
hist_size = 32

abbrev pub space : ℕ
space = 32

-- `line`, `len` and `pos` of `shell_task`, and the static variables of the history.
pub record Shell : Type 0 where
  pub line : List ℕ
  pub len : ℕ
  pub pos : ℕ
  pub history : List (List ℕ)
  pub hist_len : ℕ
  pub hist_pos : ℕ
  pub hist_tmp : List ℕ
  pub hist_has_tmp : Bool

-- `while(l>0 && s[l-1] passes) l--;`
unfoldable pub back_while : (ℕ → Bool) → List ℕ → ℕ → ℕ
back_while test s zero = zero
back_while test s (suc l) = elim (test (get_or s l 0)) [
  | true ↦ back_while test s l
  | false ↦ suc l
]

abbrev pub is_space : ℕ → Bool
is_space c = c == space

abbrev pub is_other : ℕ → Bool
is_other c = not (c == space)

-- `while(*p==' ') p++;`
unfoldable pub skip_spaces : List ℕ → List ℕ
skip_spaces [] = []
skip_spaces (c ∷ cs) = if c == space then skip_spaces cs else c ∷ cs

-- `trim`
unfoldable pub trim : List ℕ → List ℕ
trim s = let t = skip_spaces s in take (back_while is_space t (length t)) t

-- The line of `history[i%HIST_SIZE]`.
abbrev pub hist_line : Shell → ℕ → List ℕ
hist_line s i = get_or s.history (i % hist_size) []

-- `history_add`
unfoldable pub history_add : Shell → List ℕ → Shell
history_add s [] = s
history_add s (c ∷ cs) =
    if ltb 0 s.hist_len && is_equal (hist_line s (s.hist_len - 1)) (c ∷ cs) then s else record s {
      history = set s.history (s.hist_len % hist_size) (take (max_line - 1) (c ∷ cs));
      hist_len = s.hist_len + 1;
      hist_pos = s.hist_len + 1;
      hist_has_tmp = false;
    }

-- `for(i=0;i<hl;i++) line[i]=h[i];`
unfoldable pub copy_in : List ℕ → List ℕ → List ℕ
copy_in [] h = []
copy_in (x ∷ line) [] = x ∷ line
copy_in (x ∷ line) (c ∷ h) = c ∷ copy_in line h

-- The line becomes `h`, at most 127 characters of it, with the cursor at its end.
unfoldable pub recall : Shell → List ℕ → Shell
recall s h =
    let t = take (max_line - 1) h in
    record s { line = copy_in s.line t; len = length t; pos = length t }

-- Behind ESC [: A, up.
unfoldable pub key_up : Shell → Shell
key_up s =
    let s' =
      if s.hist_pos == s.hist_len
      then record s { hist_tmp = take s.len s.line; hist_has_tmp = true }
      else s in
    if s.hist_len == 0
    then s
    else if ltb 0 s.hist_pos && ltb s.hist_len (s.hist_pos + hist_size)
    then recall (record s' { hist_pos = s.hist_pos - 1 }) (hist_line s (s.hist_pos - 1))
    else s'

-- Behind ESC [: B, down.
unfoldable pub key_down : Shell → Shell
key_down s =
    let s' = record s { hist_pos = s.hist_pos + 1 } in
    if ltb s.hist_pos s.hist_len
    then (if s.hist_pos + 1 == s.hist_len
        then (if s.hist_has_tmp then recall s' s.hist_tmp else record s' { len = 0; pos = 0 })
        else recall s' (hist_line s (s.hist_pos + 1)))
    else s

unfoldable pub key_right : Shell → Shell
key_right s = if ltb s.pos s.len then record s { pos = s.pos + 1 } else s

unfoldable pub key_left : Shell → Shell
key_left s = if ltb 0 s.pos then record s { pos = s.pos - 1 } else s

-- Behind ESC [: 3 ~, delete.
unfoldable pub key_delete : Shell → Shell
key_delete s =
    if ltb s.pos s.len
    then record s { line = move_down s.line s.pos 1 (s.len - 1 - s.pos); len = s.len - 1 }
    else s

-- The keys that start with ESC [, by the two characters behind it.
unfoldable pub escape : Shell → ℕ → ℕ → Shell
escape s n2 n3 =
    if n2 == 65
    then key_up s
    else if n2 == 66
    then key_down s
    else if n2 == 67
    then key_right s
    else if n2 == 68
    then key_left s
    else if n2 == 72
    then record s { pos = 0 }
    else if n2 == 70
    then record s { pos = s.len }
    else if n2 == 51 && n3 == 126
    then key_delete s
    else s

-- ^K
unfoldable pub cut_tail : Shell → Shell
cut_tail s = if ltb s.pos s.len then record s { len = s.pos } else s

-- ^U
unfoldable pub cut_head : Shell → Shell
cut_head s =
    if ltb 0 s.pos
    then record s { line = move_down s.line 0 s.pos (s.len - s.pos); len = s.len - s.pos; pos = 0 }
    else if ltb 0 s.len
    then record s { len = 0; pos = 0 }
    else s

-- Where ^W stops: over the spaces in front of the cursor, and over the word in front of them.
abbrev pub word_start : Shell → ℕ
word_start s = back_while is_other s.line (back_while is_space s.line s.pos)

-- ^W
unfoldable pub cut_word : Shell → Shell
cut_word s =
    let from = word_start s in
    let del = s.pos - from in
    if s.pos == 0 then s else record s {
      line = move_down s.line from del (s.len - del - from);
      len = s.len - del;
      pos = from;
    }

unfoldable pub key_backspace : Shell → Shell
key_backspace s =
    if ltb 0 s.pos
    then record s {
      line = move_down s.line (s.pos - 1) 1 (s.len - 1 - (s.pos - 1));
      pos = s.pos - 1;
      len = s.len - 1;
    }
    else s

unfoldable pub insert_key : Shell → ℕ → Shell
insert_key s c = if leb max_line (s.len + 1) then s else record s {
  line = set (move_up s.line s.len (s.len - s.pos)) s.pos c;
  len = s.len + 1;
  pos = s.pos + 1;
}

-- ^C starts a new line. (The tasks that it ends are not part of the command line.)
unfoldable pub interrupt : Shell → Shell
interrupt s = record s { len = 0; pos = 0; hist_pos = s.hist_len }

-- The other keys but tab and the end of the line. ^L draws the screen again and leaves the line as it is.
unfoldable pub key : Shell → ℕ → Shell
key s c =
    if c == 1
    then record s { pos = 0 }
    else if c == 5
    then record s { pos = s.len }
    else if c == 11
    then cut_tail s
    else if c == 21
    then cut_head s
    else if c == 23
    then cut_word s
    else if c == 3
    then interrupt s
    else if c == 8 || c == 127
    then key_backspace s
    else if leb 32 c && ltb c 127
    then insert_key s c
    else s

-- The end of the line: the state, and the command for `dispatch`, if the line is not empty.
unfoldable pub enter : Shell → Shell × Option (List ℕ)
enter s =
    let command = take s.len s.line in
    let added = history_add s (trim command) in
    (
      record added { hist_pos = added.hist_len; len = 0; pos = 0 },
      if ltb 0 s.len then some command else none,
    )
