-- ===== src/Tty/Login.antt =====
-- Who is let in.
use strixos.Prelude.{
  if_both, ℕ, zero, suc, ◌<◌, ◌≡◌, refl, sym, ◌∙◌, ap, subst, ◌==◌, leb, if◌then◌else◌, true, false,
  Bool-cases, inl, inr, ◌⊎◌, Option, none, some, List, [], ◌∷◌, length, take, get_or, set,
  get_or-set, arith,
}
use mathlib.Core.Option.{none-ne-some, some-injective}
use strixos.Initrd.{is_equal, is_equal_sound}
use strixos.Shell.{trim}
use strixos.Tty.{
  max_tty, Tty, avi, root, power, is_admin_user, is_admin, is_enter, edit, read_line, ask_password,
  attempt, login_loop, login,
}

-- The lines that are typed, each as it stands when Enter is pressed.
unfoldable pub lines : List ℕ → List ℕ → List (List ℕ)
lines line [] = []
lines line (c ∷ keys) = if is_enter c then line ∷ lines [] keys else lines (edit line c) keys

-- The user that the lines let in: root at once, avi with the line "power" behind the name.
unfoldable pub admitted : List (List ℕ) → Option (List ℕ)
admitted [] = none
admitted (line ∷ []) = if is_equal root (trim line) then some root else none
admitted (line ∷ next ∷ ls) =
    let retry = admitted (next ∷ ls) in
    let refused = admitted ls in
    if is_equal root (trim line)
    then some root
    else if is_equal avi (trim line)
    then (if is_equal power next then some avi else refused)
    else retry

-- What a result of `read_line` says of the lines: it is the first of them, and took at least one key.
Reads : List ℕ → List ℕ → Option (List ℕ × List ℕ) → Type 0
Reads line keys none = lines line keys ≡ []
Reads line keys (some (got, rest)) =
    (lines line keys ≡ got ∷ lines [] rest) × (length rest < length keys)

later_keys :
    (line line' : List ℕ) (c : ℕ) (keys : List ℕ) (o : Option (List ℕ × List ℕ))
    → lines line (c ∷ keys) ≡ lines line' keys
    → Reads line' keys o
    → Reads line (c ∷ keys) o
unfolding Reads
later_keys line line' c keys none e r = e ∙ r
later_keys line line' c keys (some (got, rest)) e r = (e ∙ r.0, omega (arith, r.1))

read_line-Reads : (line keys : List ℕ) → Reads line keys (read_line line keys)
unfolding read_line lines Reads
read_line-Reads line [] = refl
read_line-Reads line (c ∷ keys) = elim (Bool-cases (is_enter c)) [
  | inl here ↦
      let step : read_line line (c ∷ keys) ≡ some (line, keys) = rw (read_line, here) refl in
      let now : lines line (c ∷ keys) ≡ line ∷ lines [] keys = rw (lines, here) refl in
      subst (Reads line (c ∷ keys)) (sym step) (now, omega arith)
  | inr away ↦
      let step : read_line line (c ∷ keys) ≡ read_line (edit line c) keys =
        rw (read_line, away) refl in
      let now : lines line (c ∷ keys) ≡ lines (edit line c) keys = rw (lines, away) refl in
      subst (Reads line (c ∷ keys)) (sym step) (
        later_keys line (edit line c) c keys (read_line (edit line c) keys) now
          (read_line-Reads (edit line c) keys))
]

-- The user of a result of the loop.
abbrev pub user_of : Option (List ℕ × List ℕ) → Option (List ℕ)
user_of none = none
user_of (some (user, rest)) = some user

admitted-root :
    (line : List ℕ) (ls : List (List ℕ)) → trim line ≡ root → admitted (line ∷ ls) ≡ some root
unfolding admitted
admitted-root line [] e = rw e refl
admitted-root line (next ∷ ls) e = rw e refl

admitted-avi :
    (line next : List ℕ) (ls : List (List ℕ))
    → trim line ≡ avi
    → admitted (line ∷ next ∷ ls) ≡ (if is_equal power next then some avi else admitted ls)
unfolding admitted
admitted-avi line next ls e = rw e refl

admitted-avi_alone : (line : List ℕ) → trim line ≡ avi → admitted (line ∷ []) ≡ none
unfolding admitted
admitted-avi_alone line e = rw e refl

admitted_other :
    (line : List ℕ) (ls : List (List ℕ))
    → is_equal root (trim line) ≡ false
    → is_equal avi (trim line) ≡ false
    → admitted (line ∷ ls) ≡ admitted ls
unfolding admitted
admitted_other line [] r a = rw r refl
admitted_other line (next ∷ ls) r a = rw (r, a) refl

-- The rounds of the loop, by what its reads give.
attempt-none : (keys : List ℕ) → read_line [] keys ≡ none → attempt keys ≡ none
unfolding attempt
attempt-none keys e = rw (attempt, e) refl

attempt-root :
    (keys line rest : List ℕ)
    → read_line [] keys ≡ some (line, rest)
    → trim line ≡ root
    → attempt keys ≡ some (some root, rest)
unfolding attempt
attempt-root keys line rest e u = rw (attempt, e, u) refl

attempt-avi :
    (keys line rest : List ℕ)
    → read_line [] keys ≡ some (line, rest)
    → trim line ≡ avi
    → attempt keys ≡ ask_password avi rest
unfolding attempt is_admin_user
attempt-avi keys line rest e u = rw (attempt, e, u) refl

attempt_other :
    (keys line rest : List ℕ)
    → read_line [] keys ≡ some (line, rest)
    → is_equal root (trim line) ≡ false
    → is_equal avi (trim line) ≡ false
    → attempt keys ≡ some (none, rest)
unfolding attempt
attempt_other keys line rest e r a = elim (Bool-cases (length (trim line) == 0)) [
  | inl empty ↦ rw (attempt, e, empty) refl
  | inr filled ↦ rw (attempt, e, filled, r, a) refl
]

-- What the loop does after a round.
loop_wait :
    (fuel : ℕ) (keys : List ℕ) → attempt keys ≡ none → user_of (login_loop (suc fuel) keys) ≡ none
unfolding login_loop
loop_wait fuel keys h = rw (user_of, login_loop, h) refl

loop_enter :
    (fuel : ℕ) (keys user rest : List ℕ)
    → attempt keys ≡ some (some user, rest)
    → user_of (login_loop (suc fuel) keys) ≡ some user
unfolding login_loop
loop_enter fuel keys user rest h = rw (user_of, login_loop, h) refl

loop_again :
    (fuel : ℕ) (keys rest : List ℕ)
    → attempt keys ≡ some (none, rest)
    → user_of (login_loop (suc fuel) keys) ≡ user_of (login_loop fuel rest)
unfolding login_loop
loop_again fuel keys rest h = rw (user_of, login_loop, h) refl

Follows : ℕ → List ℕ → Type 0
Follows fuel keys = length keys < fuel → user_of (login_loop fuel keys) ≡ admitted (lines [] keys)

-- The round in which avi gives a password.
avi_round :
    (fuel : ℕ) (keys line rest : List ℕ)
    → read_line [] keys ≡ some (line, rest)
    → trim line ≡ avi
    → lines [] keys ≡ line ∷ lines [] rest
    → length rest < fuel
    → ((keys' : List ℕ) → Follows fuel keys')
    → user_of (login_loop (suc fuel) keys) ≡ admitted (lines [] keys)
unfolding Follows ask_password Reads
avi_round fuel keys line rest e u now lt ih = go (read_line [] rest) refl (read_line-Reads [] rest)
  where
    go :
        (o : Option (List ℕ × List ℕ))
        → read_line [] rest ≡ o
        → Reads [] rest o
        → user_of (login_loop (suc fuel) keys) ≡ admitted (lines [] keys)
    go none e' r =
        let step : ask_password avi rest ≡ none = rw (ask_password, e') refl in
        loop_wait fuel keys (attempt-avi keys line rest e u ∙ step)
        ∙ sym (ap admitted now ∙ (ap (λ ls. admitted (line ∷ ls)) r ∙ admitted-avi_alone line u))
    go (some (pwd, rest')) e' r =
        let asked : attempt keys ≡ ask_password avi rest = attempt-avi keys line rest e u in
        let lined : admitted (lines [] keys)
            ≡ (if is_equal power pwd then some avi else admitted (lines [] rest')) =
          ap admitted now
          ∙ (ap (λ ls. admitted (line ∷ ls)) r.0 ∙ admitted-avi line pwd (lines [] rest') u) in
        elim (Bool-cases (is_equal power pwd)) [
          | inl right ↦
              let step : ask_password avi rest ≡ some (some avi, rest') =
                rw (ask_password, e', right) refl in
              loop_enter fuel keys avi rest' (asked ∙ step) ∙ sym (lined ∙ rw right refl)
          | inr wrong ↦
              let step : ask_password avi rest ≡ some (none, rest') =
                rw (ask_password, e', wrong) refl in
              loop_again fuel keys rest' (asked ∙ step)
              ∙ (ih rest' (omega (arith, r.1)) ∙ sym (lined ∙ rw wrong refl))
        ]

-- With more fuel than keys, the login lets in whom the lines let in.
login_loop_lem : (fuel : ℕ) (keys : List ℕ) → Follows fuel keys
unfolding login_loop Follows Reads admitted
login_loop_lem zero keys lt = absurd (omega arith)
login_loop_lem (suc fuel) keys lt =
    go (read_line [] keys) refl (read_line-Reads [] keys) (login_loop_lem fuel)
  where
    go :
        (o : Option (List ℕ × List ℕ))
        → read_line [] keys ≡ o
        → Reads [] keys o
        → ((keys' : List ℕ) → Follows fuel keys')
        → user_of (login_loop (suc fuel) keys) ≡ admitted (lines [] keys)
    go none e r ih = loop_wait fuel keys (attempt-none keys e) ∙ sym (ap admitted r)
    go (some (line, rest)) e r ih = elim (Bool-cases (is_equal root (trim line))) [
      | inl is_root ↦
          let u : trim line ≡ root = sym (is_equal_sound root (trim line) is_root) in
          loop_enter fuel keys root rest (attempt-root keys line rest e u)
          ∙ sym (ap admitted r.0 ∙ admitted-root line (lines [] rest) u)
      | inr no_root ↦ elim (Bool-cases (is_equal avi (trim line))) [
        | inl is_avi ↦
            avi_round fuel keys line rest e (sym (is_equal_sound avi (trim line) is_avi)) r.0
              (omega (arith, r.1)) ih
        | inr no_avi ↦
            loop_again fuel keys rest (attempt_other keys line rest e no_root no_avi)
            ∙ (ih rest (omega (arith, r.1))
                ∙ sym (ap admitted r.0 ∙ admitted_other line (lines [] rest) no_root no_avi))
      ]
    ]

Known : Option (List ℕ) → Type 0
Known o = (o ≡ none) ⊎ ((o ≡ some root) ⊎ (o ≡ some avi))

admitted-Known : (ls : List (List ℕ)) → Known (admitted ls)
unfolding admitted Known
admitted-Known [] = inl refl
admitted-Known (line ∷ []) =
    if_both Known (is_equal root (trim line)) (some root) none (inr (inl refl)) (inl refl)
admitted-Known (line ∷ next ∷ ls) =
    if_both Known (is_equal root (trim line)) (some root) _ (inr (inl refl)) (
      if_both Known (is_equal avi (trim line))
        (if is_equal power next then some avi else admitted ls) (admitted (next ∷ ls))
        (if_both Known (is_equal power next) (some avi) (admitted ls) (inr (inr refl))
          (admitted-Known ls))
        (admitted-Known (next ∷ ls)))

-- A result of `login` for the user that is let in.
unfoldable pub LetsIn : ℕ → Option (List ℕ) → Option (Tty × List ℕ) → Type 0
LetsIn id none o = o ≡ none
LetsIn id (some user) o =
    (t : Tty) × (rest : List ℕ) × (o ≡ some (t, rest))
    × (t.current ≡ id)
    × (get_or t.users id [] ≡ user)
    × (is_admin t ≡ true)

abbrev pub terminal : ℕ → ℕ
terminal tty_id = if leb max_tty tty_id then 0 else tty_id

-- What `login` makes of the result of its loop.
entered : Tty → ℕ → Option (List ℕ × List ℕ) → Option (Tty × List ℕ)
entered t id none = none
entered t id (some (user, rest)) =
    some (record { current = id; users = set t.users id (take 31 user) }, rest)

-- A known user is kept whole, and is an administrator.
known_user :
    (t : Tty) (id : ℕ) (user rest : List ℕ)
    → id < length t.users
    → take 31 user ≡ user
    → is_admin_user user ≡ true
    → LetsIn id (some user) (entered t id (some (user, rest)))
unfolding LetsIn entered is_admin
known_user t id user rest inside whole admin =
    let self : (id == id) ≡ true = ground arith in
    let found : get_or (set t.users id (take 31 user)) id [] ≡ user =
      get_or-set t.users id id (take 31 user) [] inside ∙ (rw self refl ∙ whole) in
    (
      record { current = id; users = set t.users id (take 31 user) },
      rest,
      refl,
      refl,
      found,
      ap is_admin_user found ∙ admin,
    )

logged_in :
    (t : Tty) (id : ℕ) (o : Option (List ℕ × List ℕ))
    → id < length t.users
    → Known (user_of o)
    → LetsIn id (user_of o) (entered t id o)
unfolding LetsIn Known is_admin_user entered
logged_in t id none inside known = refl
logged_in t id (some (user, rest)) inside (inl e) = absurd (none-ne-some _ (sym e))
logged_in t id (some (user, rest)) inside (inr (inl e)) =
    subst (λ u. LetsIn id (some u) (entered t id (some (u, rest)))) (sym (some-injective user _ e))
      (known_user t id root rest inside refl refl)
logged_in t id (some (user, rest)) inside (inr (inr e)) =
    subst (λ u. LetsIn id (some u) (entered t id (some (u, rest)))) (sym (some-injective user _ e))
      (known_user t id avi rest inside refl refl)

login-entered :
    (fuel : ℕ) (t : Tty) (tty_id : ℕ) (keys : List ℕ)
    → login fuel t tty_id keys ≡ entered t (terminal tty_id) (login_loop fuel keys)
unfolding login entered
login-entered fuel t tty_id keys = go (login_loop fuel keys) refl
  where
    go :
        (o : Option (List ℕ × List ℕ))
        → login_loop fuel keys ≡ o
        → login fuel t tty_id keys ≡ entered t (terminal tty_id) (login_loop fuel keys)
    go none e = rw (login, entered, e) refl
    go (some (user, rest)) e = rw (login, entered, e) refl

-- With more fuel than keys and four terminals, the login ends exactly if the typed lines let a user in:
-- root at once, avi with the right password on the next line. The terminal, 0 for a number out of
-- range, then belongs to that user, who is an administrator.
pub login_lem :
    (fuel : ℕ) (t : Tty) (tty_id : ℕ) (keys : List ℕ)
    → length t.users ≡ 4
    → length keys < fuel
    → LetsIn (terminal tty_id) (admitted (lines [] keys)) (login fuel t tty_id keys)
unfolding Follows
login_lem fuel t tty_id keys four lt =
    let same = login_loop_lem fuel keys lt in
    let inside : terminal tty_id < length t.users = ground arith in
    let known = subst Known (sym same) (admitted-Known (lines [] keys)) in
    subst (LetsIn (terminal tty_id) (admitted (lines [] keys)))
      (sym (login-entered fuel t tty_id keys))
      (subst (λ o. LetsIn (terminal tty_id) o (entered t (terminal tty_id) (login_loop fuel keys)))
        same (logged_in t (terminal tty_id) (login_loop fuel keys) inside known))
