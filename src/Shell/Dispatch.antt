-- ===== src/Shell/Dispatch.antt =====
-- kernel/shell.c: `dispatch` up to the commands: the cut at every `;`, and the words for `ls`, `cat`,
-- `echo` and `touch`. What the commands do is not part of this file, and so is `!!`, which dispatches the last line of
-- the history.
use strixos.Prelude.{
  ℕ, zero, suc, ◌-◌, ◌≤◌, ◌<◌, ◌≡◌, ◌≢◌, refl, sym, ◌∙◌, ap, subst, ◌==◌, ==_ne, if◌then◌else◌,
  Bool, true, false, ◌&&◌, ◌||◌, ◌⊎◌, inl, inr, Option, none, some, List, [], ◌∷◌, ◌++◌, length,
  take, take-all, All, arith,
}
use strixos.Shell.{space, skip_spaces, trim, max_line}
use strixos.Shell.Words.{Arg, bare, IsArg, command, words, split, split-command}

abbrev pub semicolon : ℕ
semicolon = 59

-- What stands in front of the first `;` and behind it.
unfoldable pub cut_at : List ℕ → Option (List ℕ × List ℕ)
cut_at [] = none
cut_at (c ∷ cs) =
    let rest : Option (List ℕ × List ℕ) = elim (cut_at cs) [
      | none ↦ none
      | some (left, right) ↦ some (c ∷ left, right)
    ] in
    if c == semicolon then some ([], cs) else rest

-- `0==kstrncmp(p,name,n) && (p[n]==' '||p[n]==0)`
unfoldable pub is_command : List ℕ → List ℕ → Bool
is_command [] [] = true
is_command [] (c ∷ p) = c == space
is_command (n ∷ name) [] = false
is_command (n ∷ name) (c ∷ p) = (c == n) && is_command name p

abbrev pub ls_name : List ℕ
ls_name = 108 ∷ 115 ∷ []

abbrev pub cat_name : List ℕ
cat_name = 99 ∷ 97 ∷ 116 ∷ []

abbrev pub echo_name : List ℕ
echo_name = 101 ∷ 99 ∷ 104 ∷ 111 ∷ []

abbrev pub touch_name : List ℕ
touch_name = 116 ∷ 111 ∷ 117 ∷ 99 ∷ 104 ∷ []

-- The commands that get their words as `argc` and `argv`.
abbrev is_split : List ℕ → Bool
is_split p =
    (is_command ls_name p || is_command cat_name p)
    || (is_command echo_name p || is_command touch_name p)

-- A command with its words, or another command with its text.
pub data Command : Type 0 where
  argv : List (List ℕ) → Command
  other : List ℕ → Command

-- One command: at most 127 characters of it are copied and split into at most 16 words.
unfoldable pub read_command : List ℕ → Command
read_command p = if is_split p then argv (split 16 (take (max_line - 1) p)) else other p

abbrev pub in_order : Option (List Command) → Option (List Command) → Option (List Command)
in_order none o = none
in_order (some xs) none = none
in_order (some xs) (some ys) = some (xs ++ ys)

-- `dispatch`: the commands that it runs, in their order; none where the fuel does not reach.
unfoldable pub dispatch : ℕ → List ℕ → Option (List Command)
dispatch zero line = none
dispatch (suc fuel) line = elim (skip_spaces line) [
  | [] ↦ some []
  | c ∷ cs ↦ elim (cut_at (c ∷ cs)) [
    | none ↦ some (read_command (c ∷ cs) ∷ [])
    | some (left, right) ↦
        in_order (dispatch fuel (trim (take (max_line - 1) left)))
          (dispatch fuel (trim (take (max_line - 1) right)))
  ]
]

cut_at-none : (s : List ℕ) → All (λ d. d ≢ semicolon) s → cut_at s ≡ none
unfolding cut_at
cut_at-none [] h = refl
cut_at-none (c ∷ cs) (ne, h) = rw (cut_at, ==_ne c semicolon ne, cut_at-none cs h) refl

-- A text that starts with a character that is no space, has no `;` and is one of the three commands.
dispatch-one :
    (fuel c : ℕ) (cs : List ℕ)
    → 0 < fuel
    → c ≢ space
    → All (λ d. d ≢ semicolon) (c ∷ cs)
    → dispatch fuel (c ∷ cs) ≡ some (read_command (c ∷ cs) ∷ [])
unfolding dispatch skip_spaces
dispatch-one zero c cs pos ne h = absurd (omega arith)
dispatch-one (suc fuel) c cs pos ne h =
    rw (dispatch, skip_spaces, ==_ne c space ne, cut_at-none (c ∷ cs) h) refl

-- The words of a command of at most 127 characters.
read_command-argv :
    (c : ℕ) (cs : List ℕ) (args : List Arg)
    → is_split (command (bare c cs ∷ args)) ≡ true
    → IsArg (bare c cs)
    → length args < 16
    → All IsArg args
    → length (command (bare c cs ∷ args)) ≤ 127
    → read_command (command (bare c cs ∷ args)) ≡ argv ((c ∷ cs) ∷ words args)
unfolding read_command
read_command-argv c cs args known name few all short = rw known (
    ap argv (
      ap (split 16) (take-all 127 (command (bare c cs ∷ args)) short)
      ∙ split-command 16 (bare c cs ∷ args) (omega arith) (name, all)))

abbrev pub IsSplitName : List ℕ → Type 0
IsSplitName name =
    (name ≡ ls_name) ⊎ ((name ≡ cat_name) ⊎ ((name ≡ echo_name) ⊎ (name ≡ touch_name)))

-- The command `ls`, `cat`, `echo` or `touch` with at most 15 words behind it, bare or quoted, each with a space
-- behind it, without a `;` and of at most 127 characters in all, is run as one command, and its words are
-- the name and these words.
pub dispatch-command :
    (fuel : ℕ) (name : List ℕ) (args : List Arg)
    → 0 < fuel
    → IsSplitName name
    → length args < 16
    → All IsArg args
    → All (λ d. d ≢ semicolon) (name ++ space ∷ command args)
    → length (name ++ space ∷ command args) ≤ 127
    → dispatch fuel (name ++ space ∷ command args) ≡ some (argv (name ∷ words args) ∷ [])
unfolding is_command
dispatch-command fuel name args pos known few all no_cut short = elim known [
  | inl e ↦ subst Goal (sym e) ls no_cut short
  | inr (inl e) ↦ subst Goal (sym e) cat no_cut short
  | inr (inr (inl e)) ↦ subst Goal (sym e) echo no_cut short
  | inr (inr (inr e)) ↦ subst Goal (sym e) touch no_cut short
]
  where
    Goal : List ℕ → Type 0
    Goal n =
        All (λ d. d ≢ semicolon) (n ++ space ∷ command args)
        → length (n ++ space ∷ command args) ≤ 127
        → dispatch fuel (n ++ space ∷ command args) ≡ some (argv (n ∷ words args) ∷ [])

    one :
        (c : ℕ) (cs : List ℕ)
        → c ≢ space
        → is_split (command (bare c cs ∷ args)) ≡ true
        → IsArg (bare c cs)
        → All (λ d. d ≢ semicolon) (command (bare c cs ∷ args))
        → length (command (bare c cs ∷ args)) ≤ 127
        → dispatch fuel (command (bare c cs ∷ args)) ≡ some (argv ((c ∷ cs) ∷ words args) ∷ [])
    one c cs ne split_it arg free le =
        dispatch-one fuel c ((cs ++ space ∷ []) ++ command args) pos ne free
        ∙ ap (λ k. some (k ∷ [])) (read_command-argv c cs args split_it arg few all le)

    ls : Goal ls_name
    ls = one 108 (115 ∷ []) (omega arith) refl (refl, (omega arith, (omega arith, tt)))

    cat : Goal cat_name
    cat =
        one 99 (97 ∷ 116 ∷ []) (omega arith) refl
          (refl, (omega arith, (omega arith, (omega arith, tt))))

    echo : Goal echo_name
    echo =
        one 101 (99 ∷ 104 ∷ 111 ∷ []) (omega arith) refl
          (refl, (omega arith, (omega arith, (omega arith, (omega arith, tt)))))

    touch : Goal touch_name
    touch =
        one 116 (111 ∷ 117 ∷ 99 ∷ 104 ∷ []) (omega arith) refl
          (refl, (omega arith, (omega arith, (omega arith, (omega arith, (omega arith, tt))))))
