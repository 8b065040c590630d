-- ===== src/Echo.antt =====
-- kernel/coreutils_port.c: `echo`. The texts of its help and its version are left out. The arguments are those
-- behind the name of the command.
pub mod Expand
mod Tests
use strixos.Prelude.{
  ℕ, ◌+◌, ◌==◌, leb, if◌then◌else◌, Bool, true, false, not, ◌&&◌, ◌||◌, Option, none, some, List,
  [], ◌∷◌, ◌++◌,
}
use strixos.Initrd.{is_equal}

-- `n_flag`, `e_flag`
pub record Flags : Type 0 where
  pub n_flag : Bool
  pub e_flag : Bool

-- "--help"
abbrev pub help_name : List ℕ
help_name = 45 ∷ 45 ∷ 104 ∷ 101 ∷ 108 ∷ 112 ∷ []

-- "--version"
abbrev pub version_name : List ℕ
version_name = 45 ∷ 45 ∷ 118 ∷ 101 ∷ 114 ∷ 115 ∷ 105 ∷ 111 ∷ 110 ∷ []

abbrev all_letters : List ℕ → Bool
all_letters [] = true
all_letters (c ∷ cs) = (c == 110 || c == 101 || c == 69) && all_letters cs

-- `is_opt`: a dash, and then one letter or more of n, e and E.
abbrev pub is_option : List ℕ → Bool
is_option [] = false
is_option (c ∷ []) = false
is_option (c ∷ d ∷ cs) = (c == 45) && all_letters (d ∷ cs)

-- The letters of an option, one after the other.
unfoldable pub set_flags : Flags → List ℕ → Flags
set_flags f [] = f
set_flags f (c ∷ cs) =
    set_flags
      (if c == 110
        then record f { n_flag = true }
        else if c == 101
        then record f { e_flag = true }
        else if c == 69
        then record f { e_flag = false }
        else f)
      cs

-- The character behind a backslash that stands for another.
abbrev pub escaped : ℕ → Option ℕ
escaped c =
    if c == 110 then some 10 else if c == 116 then some 9 else if c == 92 then some 92 else none

-- An argument with `-e`.
unfoldable pub expand : List ℕ → List ℕ
expand [] = []
expand (c ∷ []) = c ∷ []
expand (c ∷ d ∷ cs) = elim (c == 92) [
  | false ↦ c ∷ expand (d ∷ cs)
  | true ↦ elim (escaped d) [ none ↦ c ∷ expand (d ∷ cs) | some x ↦ x ∷ expand cs ]
]

-- The arguments with a space between them.
unfoldable pub join : (List ℕ → List ℕ) → List (List ℕ) → List ℕ
join show [] = []
join show (w ∷ []) = show w
join show (w ∷ v ∷ ws) = show w ++ (32 ∷ join show (v ∷ ws))

abbrev pub same : List ℕ → List ℕ
same w = w

-- What `strix_echo` prints.
pub data Result : Type 0 where
  help version : Result
  printed : List ℕ → Result

-- The printing of the arguments that follow the options.
unfoldable pub print_words : Flags → List (List ℕ) → List ℕ
print_words f ws = join (if f.e_flag then expand else same) ws ++ (if f.n_flag then [] else 10 ∷ [])

-- The loop over the options.
unfoldable pub echo_from : Flags → List (List ℕ) → Result
echo_from f [] = printed (print_words f [])
echo_from f (a ∷ args) = elim (is_equal a help_name) [
  | true ↦ help
  | false ↦ elim (is_equal a version_name) [
    | true ↦ version
    | false ↦ elim (is_option a) [
      | true ↦ echo_from (set_flags f (drop_dash a)) args
      | false ↦ printed (print_words f (a ∷ args))
    ]
  ]
]
  where
    drop_dash : List ℕ → List ℕ
    drop_dash [] = []
    drop_dash (c ∷ cs) = cs

-- `strix_echo`
abbrev pub strix_echo : List (List ℕ) → Result
strix_echo args = echo_from (record { n_flag = false; e_flag = false }) args
