-- ===== src/Echo/Expand.antt =====
-- `echo` of words: with `-e`, with the shell in front, and without options.
use strixos.Prelude.{
  ◌<◌, ◌≢◌, some, ℕ, ◌≤◌, ◌≡◌, refl, sym, ◌∙◌, ap, ap₂, ◌==◌, if◌then◌else◌, true, false,
  Bool-cases, inl, inr, List, [], ◌∷◌, ◌++◌, append-nil, length, get_or, drop, map, All, arith,
}
use strixos.Initrd.{is_equal}
use strixos.Shell.{space}
use strixos.Shell.Words.{Arg, IsArg, command, words}
use strixos.Shell.Dispatch.{semicolon, echo_name, argv, dispatch, dispatch-command}
use strixos.Echo.{
  Flags, printed, is_option, set_flags, expand, same, help_name, version_name, join, print_words,
  echo_from, strix_echo,
}

-- A text as it is written for `-e`: a backslash in front of the end of a line, a tab and a backslash.
abbrev pub quote : List ℕ → List ℕ
quote [] = []
quote (c ∷ cs) =
    if c == 10
    then 92 ∷ 110 ∷ quote cs
    else if c == 9
    then 92 ∷ 116 ∷ quote cs
    else if c == 92
    then 92 ∷ 92 ∷ quote cs
    else c ∷ quote cs

expand_plain : (c : ℕ) (cs : List ℕ) → (c == 92) ≡ false → expand (c ∷ cs) ≡ c ∷ expand cs
unfolding expand
expand_plain c [] e = refl
expand_plain c (d ∷ cs) e = rw (expand, e) refl

-- `echo -e` reads back what `quote` writes.
pub expand-quote : (cs : List ℕ) → expand (quote cs) ≡ cs
unfolding expand
expand-quote [] = refl
expand-quote (c ∷ cs) = elim (Bool-cases (c == 10)) [
  | inl e ↦ let is : c ≡ 10 = ground arith in rw e (ap₂ ◌∷◌ (sym is) (expand-quote cs))
  | inr n ↦ elim (Bool-cases (c == 9)) [
    | inl e ↦ let is : c ≡ 9 = ground arith in rw (n, e) (ap₂ ◌∷◌ (sym is) (expand-quote cs))
    | inr t ↦ elim (Bool-cases (c == 92)) [
      | inl e ↦ let is : c ≡ 92 = ground arith in rw (n, t, e) (ap₂ ◌∷◌ (sym is) (expand-quote cs))
      | inr b ↦ rw (n, t, b) (expand_plain c (quote cs) b ∙ ap (c ∷◌) (expand-quote cs))
    ]
  ]
]

-- The words with a space in front of each.
abbrev pub behind : List (List ℕ) → List ℕ
behind [] = []
behind (w ∷ ws) = 32 ∷ (w ++ behind ws)

-- The words with a space between them.
abbrev pub spaced : List (List ℕ) → List ℕ
spaced [] = []
spaced (w ∷ ws) = w ++ behind ws

-- A word that is no option.
abbrev pub NoDash : List (List ℕ) → Type 0
NoDash [] = Unit
NoDash (w ∷ ws) = (get_or w 0 0 == 45) ≡ false

module _ (show plain : List ℕ → List ℕ) (back : (w : List ℕ) → show (plain w) ≡ w) where
  join-spaced : (ws : List (List ℕ)) → join show (map plain ws) ≡ spaced ws
  unfolding join
  join-spaced [] = refl
  join-spaced (w ∷ []) = back w ∙ sym (append-nil w)
  join-spaced (w ∷ v ∷ ws) = ap₂ (λ a b. a ++ (32 ∷ b)) (back w) (join-spaced (v ∷ ws))

not_name : (w name : List ℕ) → (get_or w 0 0 == 45) ≡ false → is_equal w (45 ∷ name) ≡ false
not_name [] name e = refl
not_name (c ∷ cs) name e = rw e refl

not_option : (w : List ℕ) → (get_or w 0 0 == 45) ≡ false → is_option w ≡ false
not_option [] e = refl
not_option (c ∷ []) e = refl
not_option (c ∷ d ∷ cs) e = rw e refl

echo_words :
    (f : Flags) (ws : List (List ℕ)) → NoDash ws → echo_from f ws ≡ printed (print_words f ws)
unfolding echo_from
echo_words f [] e = refl
echo_words f (w ∷ ws) e =
    rw
      (
        echo_from,
        not_name w (drop 1 help_name) e,
        not_name w (drop 1 version_name) e,
        not_option w e,
      )
      refl

map-same : (ws : List (List ℕ)) → map same ws ≡ ws
map-same [] = refl
map-same (w ∷ ws) = ap (w ∷◌) (map-same ws)

quote-NoDash : (ws : List (List ℕ)) → NoDash ws → NoDash (map quote ws)
quote-NoDash [] e = tt
quote-NoDash ([] ∷ ws) e = refl
quote-NoDash ((c ∷ cs) ∷ ws) e = ground arith

-- The command `echo` of at most 15 words, bare or quoted, of which the first does not start with a dash, each
-- with a space behind it, without a `;` and of at most 127 characters in all: `dispatch` runs it as one
-- command, and `echo` prints the words with one space between them, and a new line.
pub strix_echo-dispatch :
    (fuel : ℕ) (args : List Arg)
    → 0 < fuel
    → length args < 16
    → All IsArg args
    → All (λ d. d ≢ semicolon) (echo_name ++ space ∷ command args)
    → length (echo_name ++ space ∷ command args) ≤ 127
    → NoDash (words args)
    → (ws : List (List ℕ)) × (dispatch fuel (echo_name ++ space ∷ command args)
        ≡ some (argv (echo_name ∷ ws) ∷ []))
      × (strix_echo ws ≡ printed (spaced (words args) ++ (10 ∷ [])))
unfolding print_words
strix_echo-dispatch fuel args pos few all free short no_dash = (
  words args,
  dispatch-command fuel echo_name args pos (inr (inr (inl refl))) few all free short,
  echo_words (record { n_flag = false; e_flag = false }) (words args) no_dash
      ∙ ap (λ t. printed (t ++ (10 ∷ [])))
          (ap (join same) (sym (map-same (words args)))
            ∙ join-spaced same same (λ w. refl) (words args)),
)

-- `echo -e` of words in which the ends of lines, tabs and backslashes are written with a backslash, the first
-- word without a dash in front: the words are printed as they were meant, with one space between them, and a new line.
pub strix_echo-quote :
    (ws : List (List ℕ))
    → NoDash ws
    → strix_echo ((45 ∷ 101 ∷ []) ∷ map quote ws) ≡ printed (spaced ws ++ (10 ∷ []))
unfolding print_words echo_from set_flags
strix_echo-quote ws no_dash =
    echo_words (record { n_flag = false; e_flag = true }) (map quote ws) (quote-NoDash ws no_dash)
    ∙ ap (λ t. printed (t ++ (10 ∷ []))) (join-spaced expand quote expand-quote ws)
