-- ===== src/Echo/Tests.antt =====
-- `echo` at concrete words.
use strixos.Prelude.{some, ℕ, ◌≡◌, refl, List, [], ◌∷◌, ◌++◌, map, arith}
use strixos.Shell.Words.{Arg, bare, quoted, command, words}
use strixos.Shell.Dispatch.{echo_name, argv, dispatch}
use strixos.Echo.{printed, strix_echo, echo_from, set_flags, print_words, join, expand}
use strixos.Echo.Expand.{spaced, quote, strix_echo-dispatch, strix_echo-quote}

-- `-nE`, and a word
no_line : strix_echo ((45 ∷ 110 ∷ 69 ∷ []) ∷ (97 ∷ []) ∷ []) ≡ printed (97 ∷ [])
unfolding echo_from set_flags print_words join
no_line = refl

-- `-e`, and a backslash at the end
last_backslash : strix_echo ((45 ∷ 101 ∷ []) ∷ (97 ∷ 92 ∷ []) ∷ []) ≡ printed (97 ∷ 92 ∷ 10 ∷ [])
unfolding echo_from set_flags print_words join expand
last_backslash = refl

abbrev two_args : List Arg
two_args = bare 97 [] ∷ quoted (98 ∷ 32 ∷ 99 ∷ []) ∷ []

strix_echo-dispatch_example :
    (ws : List (List ℕ)) × (dispatch 1 (echo_name ++ 32 ∷ command two_args)
      ≡ some (argv (echo_name ∷ ws) ∷ []))
    × (strix_echo ws ≡ printed (spaced (words two_args) ++ (10 ∷ [])))
strix_echo-dispatch_example =
    strix_echo-dispatch 1 two_args (omega arith) (omega arith)
      ((refl, (omega arith, tt)), ((omega arith, (omega arith, (omega arith, tt))), tt))
      (ground arith) (omega arith) refl

abbrev text : List (List ℕ)
text = (97 ∷ 10 ∷ 92 ∷ []) ∷ (9 ∷ []) ∷ []

strix_echo-quote_example :
    strix_echo ((45 ∷ 101 ∷ []) ∷ map quote text) ≡ printed (spaced text ++ (10 ∷ []))
strix_echo-quote_example = strix_echo-quote text refl
