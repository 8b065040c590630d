-- ===== src/Tty/Tests.antt =====
-- Runs of the login.
use strixos.Prelude.{ℕ, ◌≡◌, refl, Option, none, some, List, [], ◌∷◌, arith}
use strixos.Shell.{trim, skip_spaces, back_while}
use strixos.Tty.{
  Tty, init, switch, avi, is_admin_user, edit, read_line, ask_password, attempt, login_loop, login,
}
use strixos.Tty.Login.{LetsIn, admitted, lines, login_lem}

-- "bob", "avi" with a wrong password, " avi" with "power", a character of which is typed twice and taken back.
abbrev keys : List ℕ
keys =
    98 ∷ 111 ∷ 98 ∷ 13 ∷ 97 ∷ 118 ∷ 105 ∷ 10 ∷ 112 ∷ 10 ∷ 32 ∷ 97 ∷ 118 ∷ 105 ∷ 10 ∷ 112 ∷ 111 ∷ 111
    ∷ 8 ∷ 119 ∷ 101 ∷ 114 ∷ 10 ∷ 33 ∷ []

abbrev state : Option (Tty × List ℕ) → List (List ℕ)
state none = []
state (some (t, rest)) = rest ∷ t.users

run : state (login 30 (switch init 3) 2 keys) ≡ (33 ∷ []) ∷ [] ∷ [] ∷ avi ∷ [] ∷ []
unfolding login login_loop attempt ask_password read_line edit init switch trim skip_spaces
    back_while is_admin_user
run = refl

-- A name of spaces, and no more keys.
waits : state (login 30 init 9 (32 ∷ 10 ∷ 97 ∷ [])) ≡ []
unfolding login login_loop attempt ask_password read_line edit init trim skip_spaces back_while
    is_admin_user
waits = refl

login_lem_example : LetsIn 2 (admitted (lines [] keys)) (login 30 init 2 keys)
unfolding init
login_lem_example = login_lem 30 init 2 keys refl (omega arith)
