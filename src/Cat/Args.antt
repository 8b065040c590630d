-- ===== src/Cat/Args.antt =====
-- kernel/coreutils_port.c: the options and the files of `cat`. The arguments are those behind the name of the
-- command.
use strixos.Prelude.{
  ℕ, ◌+◌, ◌==◌, leb, if◌then◌else◌, Bool, true, false, ◌||◌, ◌⊎◌, inl, inr, Option, none, some,
  List, [], ◌∷◌, ◌++◌, length, get_or, drop,
}
use strixos.Initrd.{is_equal}
use strixos.Cat.{Options, Files, cat_file}

abbrev show_all : List ℕ
show_all = 45 ∷ 45 ∷ 115 ∷ 104 ∷ 111 ∷ 119 ∷ 45 ∷ 97 ∷ 108 ∷ 108 ∷ []

abbrev number_nonblank : List ℕ
number_nonblank =
    45 ∷ 45 ∷ 110 ∷ 117 ∷ 109 ∷ 98 ∷ 101 ∷ 114 ∷ 45 ∷ 110 ∷ 111 ∷ 110 ∷ 98 ∷ 108 ∷ 97 ∷ 110 ∷ 107
    ∷ []

abbrev show_ends_name : List ℕ
show_ends_name = 45 ∷ 45 ∷ 115 ∷ 104 ∷ 111 ∷ 119 ∷ 45 ∷ 101 ∷ 110 ∷ 100 ∷ 115 ∷ []

abbrev number_name : List ℕ
number_name = 45 ∷ 45 ∷ 110 ∷ 117 ∷ 109 ∷ 98 ∷ 101 ∷ 114 ∷ []

abbrev squeeze_blank : List ℕ
squeeze_blank =
    45 ∷ 45 ∷ 115 ∷ 113 ∷ 117 ∷ 101 ∷ 101 ∷ 122 ∷ 101 ∷ 45 ∷ 98 ∷ 108 ∷ 97 ∷ 110 ∷ 107 ∷ []

abbrev show_tabs_name : List ℕ
show_tabs_name = 45 ∷ 45 ∷ 115 ∷ 104 ∷ 111 ∷ 119 ∷ 45 ∷ 116 ∷ 97 ∷ 98 ∷ 115 ∷ []

abbrev show_nonprinting : List ℕ
show_nonprinting =
    45 ∷ 45 ∷ 115 ∷ 104 ∷ 111 ∷ 119 ∷ 45 ∷ 110 ∷ 111 ∷ 110 ∷ 112 ∷ 114 ∷ 105 ∷ 110 ∷ 116 ∷ 105 ∷ 110
    ∷ 103 ∷ []

abbrev help_name : List ℕ
help_name = 45 ∷ 45 ∷ 104 ∷ 101 ∷ 108 ∷ 112 ∷ []

abbrev version_name : List ℕ
version_name = 45 ∷ 45 ∷ 118 ∷ 101 ∷ 114 ∷ 115 ∷ 105 ∷ 111 ∷ 110 ∷ []

-- The flags, and `show_all`.
abbrev pub Flags : Type 0
Flags = Options × Bool

abbrev pub no_flags : Flags
no_flags = (
  record {
    number = false;
    number_nb = false;
    show_ends = false;
    show_tabs = false;
    squeeze = false;
  },
  false,
)

-- The options with two dashes in front.
unfoldable pub long_option : List ℕ → Flags → Option Flags
long_option a (o, all) =
    if is_equal a show_all
    then some (o, true)
    else if is_equal a number_nonblank
    then some (record o { number_nb = true }, all)
    else if is_equal a show_ends_name
    then some (record o { show_ends = true }, all)
    else if is_equal a number_name
    then some (record o { number = true }, all)
    else if is_equal a squeeze_blank
    then some (record o { squeeze = true }, all)
    else if is_equal a show_tabs_name
    then some (record o { show_tabs = true }, all)
    else if is_equal a show_nonprinting
    then some (o, all)
    else none

-- An option of one letter.
unfoldable pub short_option : ℕ → Flags → Option Flags
short_option c (o, all) =
    if c == 65
    then some (o, true)
    else if c == 98
    then some (record o { number_nb = true }, all)
    else if c == 101 || c == 69
    then some (record o { show_ends = true }, all)
    else if c == 110
    then some (record o { number = true }, all)
    else if c == 115
    then some (record o { squeeze = true }, all)
    else if c == 116 || c == 84
    then some (record o { show_tabs = true }, all)
    else if c == 117 || c == 118
    then some (o, all)
    else none

-- The letters behind one dash: the flags, or the first letter that is no option.
unfoldable pub short_options : List ℕ → Flags → Flags ⊎ ℕ
short_options [] fl = inl fl
short_options (c ∷ cs) fl = elim (short_option c fl) [
  | none ↦ inr c
  | some fl' ↦ short_options cs fl'
]

-- What the arguments ask for: the help, the version, an error, or the files from `files_start` on.
pub data Request : Type 0 where
  help version : Request
  invalid : ℕ → Request
  files_from : Flags → ℕ → Request

-- The argument starts with a dash and has more.
abbrev pub is_option : List ℕ → Bool
is_option [] = false
is_option (c ∷ []) = false
is_option (c ∷ d ∷ cs) = c == 45

-- The loop over the arguments, at the index `i`, counted from 0 behind the command's name. An option with
-- two dashes does not move `files_start`.
unfoldable pub parse : Flags → ℕ → ℕ → List (List ℕ) → Request
parse fl i start [] = files_from fl start
parse fl i start (a ∷ args) = elim (is_option a) [
  | false ↦ files_from fl start
  | true ↦ elim (is_equal a (45 ∷ 45 ∷ [])) [
    | true ↦ files_from fl (i + 1)
    | false ↦ elim (is_equal a help_name) [
      | true ↦ help
      | false ↦ elim (is_equal a version_name) [
        | true ↦ version
        | false ↦ elim (long_option a fl) [
          | some fl' ↦ parse fl' (i + 1) start args
          | none ↦ elim (get_or a 1 0 == 45) [
            | true ↦ files_from fl start
            | false ↦ elim (short_options (drop 1 a) fl) [
              | inr c ↦ invalid c
              | inl fl' ↦ parse fl' (i + 1) (i + 1) args
            ]
          ]
        ]
      ]
    ]
  ]
]

-- "cat: -: standard input not supported"
abbrev pub no_input : List ℕ
no_input =
    99 ∷ 97 ∷ 116 ∷ 58 ∷ 32 ∷ 45 ∷ 58 ∷ 32 ∷ 115 ∷ 116 ∷ 97 ∷ 110 ∷ 100 ∷ 97 ∷ 114 ∷ 100 ∷ 32 ∷ 105
    ∷ 110 ∷ 112 ∷ 117 ∷ 116 ∷ 32 ∷ 110 ∷ 111 ∷ 116 ∷ 32 ∷ 115 ∷ 117 ∷ 112 ∷ 112 ∷ 111 ∷ 114 ∷ 116
    ∷ 101 ∷ 100 ∷ 10 ∷ []

-- The loop over the files.
unfoldable pub cat_files : ℕ → Options → Files → List (List ℕ) → Option ((List ℕ × ℕ) × Files)
cat_files fuel o w [] = some (([], 0), w)
cat_files fuel o w (f ∷ fs) = elim (is_equal f (45 ∷ [])) [
  | true ↦ elim (cat_files fuel o w fs) [
    | none ↦ none
    | some ((out, ret), end) ↦ some ((no_input ++ out, ret), end)
  ]
  | false ↦ elim (cat_file fuel o w f) [
    | none ↦ none
    | some ((first, code), w') ↦ elim (cat_files fuel o w' fs) [
      | none ↦ none
      | some ((out, ret), end) ↦ some ((first ++ out, if code == 0 then ret else 1), end)
    ]
  ]
]

-- `if(show_all){...}`, `if(number_nb) number=0;`
abbrev pub settle : Flags → Options
settle (o, all) = record o {
  number = if o.number_nb then false else o.number;
  show_ends = o.show_ends || all;
  show_tabs = o.show_tabs || all;
}

-- What `strix_cat` printed: a message and the number that it returns, or the files.
pub data Result : Type 0 where
  help_shown version_shown no_file : Result
  invalid_option : ℕ → Result
  printed : List ℕ → ℕ → Result

-- `strix_cat`; `none` where a read does not end within the fuel, or the number of a line is out of its buffer.
unfoldable pub strix_cat : ℕ → Files → List (List ℕ) → Option (Result × Files)
strix_cat fuel w args = elim (parse no_flags 0 0 args) [
  | help ↦ some (help_shown, w)
  | version ↦ some (version_shown, w)
  | invalid c ↦ some (invalid_option c, w)
  | files_from fl start ↦ elim (leb (length args) start) [
    | true ↦ some (no_file, w)
    | false ↦ elim (cat_files fuel (settle fl) w (drop start args)) [
      | none ↦ none
      | some ((out, ret), end) ↦ some (printed out ret, end)
    ]
  ]
]
