-- ===== src/Tty.antt =====
-- kernel/tty.c: the four terminals and the login. What is printed is left out; the characters that
-- `keyboard_getc` returns, one after the other, are an argument.
pub mod Login
mod Tests
use strixos.Prelude.{
  ℕ, zero, suc, ◌+◌, ◌-◌, ◌==◌, ltb, leb, if◌then◌else◌, Bool, true, false, not, ◌&&◌, ◌||◌, Option,
  none, some, List, [], ◌∷◌, ◌++◌, length, take, get_or, set, replicate,
}
use strixos.Initrd.{is_equal}
use strixos.Shell.{trim}

abbrev pub max_tty : ℕ
max_tty = 4

-- `current_tty` and `tty_user`.
pub record Tty : Type 0 where
  pub current : ℕ
  pub users : List (List ℕ)

unfoldable pub init : Tty
init = record { current = 0; users = replicate max_tty [] }

-- `tty_switch`, for a number that is not negative.
unfoldable pub switch : Tty → ℕ → Tty
switch t id = if leb max_tty id then t else record t { current = id }

-- "avi"
abbrev pub avi : List ℕ
avi = 97 ∷ 118 ∷ 105 ∷ []

-- "root"
abbrev pub root : List ℕ
root = 114 ∷ 111 ∷ 111 ∷ 116 ∷ []

-- "power"
abbrev pub power : List ℕ
power = 112 ∷ 111 ∷ 119 ∷ 101 ∷ 114 ∷ []

unfoldable pub is_admin_user : List ℕ → Bool
is_admin_user u = is_equal avi u || is_equal root u

unfoldable pub is_admin : Tty → Bool
is_admin t = is_admin_user (get_or t.users t.current [])

abbrev pub is_enter : ℕ → Bool
is_enter c = c == 10 || c == 13

-- The line without its last character.
abbrev pub drop_last : List ℕ → List ℕ
drop_last line = take (length line - 1) line

-- A key other than Enter: backspace, a printable character where there is room, or nothing.
unfoldable pub edit : List ℕ → ℕ → List ℕ
edit line c =
    if c == 8 || c == 127
    then drop_last line
    else if leb 32 c && ltb c 127 && ltb (length line) 31
    then line ++ c ∷ []
    else line

-- The loop that reads a line, with the text so far: the line and the keys behind it; `none` where the
-- keys end and the loop waits.
unfoldable pub read_line : List ℕ → List ℕ → Option (List ℕ × List ℕ)
read_line line [] = none
read_line line (c ∷ keys) =
    let rest = read_line (edit line c) keys in if is_enter c then some (line, keys) else rest

-- The password of avi: the user, if it is right.
unfoldable pub ask_password : List ℕ → List ℕ → Option (Option (List ℕ) × List ℕ)
ask_password user keys = elim (read_line [] keys) [
  | none ↦ none
  | some (pwd, rest) ↦ some (if is_equal power pwd then some user else none, rest)
]

-- One round of the loop of `tty_login`: the user that is let in, if any, and the keys behind it.
unfoldable pub attempt : List ℕ → Option (Option (List ℕ) × List ℕ)
attempt keys = elim (read_line [] keys) [
  | none ↦ none
  | some (line, rest) ↦
      let user = trim line in
      if length user == 0
      then some (none, rest)
      else if not (is_equal avi user) && not (is_equal root user)
      then some (none, rest)
      else if is_equal root user
      then some (some user, rest)
      else if is_admin_user user
      then ask_password user rest
      else some (some user, rest)
]

-- The loop of `tty_login`.
unfoldable pub login_loop : ℕ → List ℕ → Option (List ℕ × List ℕ)
login_loop zero keys = none
login_loop (suc fuel) keys = elim (attempt keys) [
  | none ↦ none
  | some (none, rest) ↦ login_loop fuel rest
  | some (some user, rest) ↦ some (user, rest)
]

-- `tty_login`, for a number that is not negative: the terminals, and the keys that are left.
unfoldable pub login : ℕ → Tty → ℕ → List ℕ → Option (Tty × List ℕ)
login fuel t tty_id keys =
    let id = if leb max_tty tty_id then 0 else tty_id in
    elim (login_loop fuel keys) [
      | none ↦ none
      | some (user, rest) ↦
          some (record { current = id; users = set t.users id (take 31 user) }, rest)
    ]
