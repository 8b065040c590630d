-- ===== src/Shell/Tests.antt =====
-- Runs of the command line, and its theorems at one line.
use strixos.Prelude.{
  some, inl, inr, ◌++◌, List, ℕ, ◌≡◌, refl, false, [], ◌∷◌, replicate, All-replicate, arith,
}
use strixos.Buffer.{move_up, move_down}
use strixos.Buffer.Text.{erase}
use strixos.Shell.{
  Shell, space, back_while, is_space, is_other, skip_spaces, trim, history_add, copy_in, recall,
  key_up, key_down, key_right, key_delete, escape, cut_word, insert_key, interrupt, key, enter,
}
use strixos.Shell.Complete.{
  move_up_by, copy_at, insert_here, all_have, insert_common, insert_match, use_files, matching,
  apply_matches, complete, first_word, is_among, starts_with,
}
use strixos.Shell.Feed.{plain, tab, sequence, newline, step, feed}
use strixos.Shell.Bounds.{feed-InBounds}
use strixos.Shell.Keys.{IsShort, InBounds}
use strixos.Shell.Edit.{text, StopsAt, cut_word_lem}
use strixos.Shell.Words.{Arg, quoted, take_until, split, command, words}
use strixos.Shell.Dispatch.{
  cut_at, is_command, ls_name, cat_name, echo_name, argv, other, read_command, dispatch,
  dispatch-command,
}
use strixos.Shell.History.{enter_and_recall}

-- "ls -l  ", with the cursor behind it, and nothing in the history.
abbrev typed : Shell
typed = record {
  line = 108 ∷ 115 ∷ 32 ∷ 45 ∷ 108 ∷ 32 ∷ 32 ∷ replicate 121 0;
  len = 7;
  pos = 7;
  history = replicate 32 [];
  hist_len = 0;
  hist_pos = 0;
  hist_tmp = [];
  hist_has_tmp = false;
}

typed-InBounds : InBounds typed
typed-InBounds = record {
  room = refl;
  length_below = omega arith;
  cursor_inside = omega arith;
  slots = refl;
  lines = All-replicate IsShort 32 [] (omega arith);
  looking_at = omega arith;
  kept = omega arith;
}

-- ^W, an "a" at the end, home, delete, right, "b".
keys :
    text (
      feed typed
        (plain 23 ∷ plain 97 ∷ sequence 72 0 ∷ sequence 51 126 ∷ sequence 67 0 ∷ plain 98 ∷ []))
    ≡ 115 ∷ 98 ∷ 32 ∷ 97 ∷ []
unfolding feed step key escape key_delete key_right cut_word insert_key back_while move_up move_down
keys = refl

-- Two lines entered, up twice.
lines :
    text (feed typed (newline ∷ plain 97 ∷ newline ∷ plain 98 ∷ sequence 65 0 ∷ sequence 65 0 ∷ []))
    ≡ 108 ∷ 115 ∷ 32 ∷ 45 ∷ 108 ∷ []
unfolding feed step key escape enter trim skip_spaces back_while history_add key_up recall copy_in
    insert_key move_up
lines = refl

-- ^C, "c", "a", tab: `cat` is the only command that starts so. Then tab completes the name of a file.
tabs :
    text (
      feed typed (
        plain 3
        ∷ plain 99
        ∷ plain 97
        ∷ tab []
        ∷ plain 120
        ∷ tab ((97 ∷ []) ∷ (120 ∷ 121 ∷ 122 ∷ []) ∷ (120 ∷ 121 ∷ 49 ∷ []) ∷ [])
        ∷ []))
    ≡ 99 ∷ 97 ∷ 116 ∷ 32 ∷ 120 ∷ 121 ∷ []
unfolding feed step key interrupt insert_key complete apply_matches insert_match insert_common
    insert_here move_up move_up_by copy_at use_files first_word is_among matching starts_with
    all_have back_while
tabs = refl

feed-InBounds_example :
    InBounds
      (feed typed (plain 97 ∷ tab ((97 ∷ 98 ∷ []) ∷ []) ∷ newline ∷ sequence 65 0 ∷ plain 3 ∷ []))
feed-InBounds_example =
    feed-InBounds typed
      (plain 97 ∷ tab ((97 ∷ 98 ∷ []) ∷ []) ∷ newline ∷ sequence 65 0 ∷ plain 3 ∷ []) typed-InBounds

cut_word_lem_example :
    (k : ℕ) × (m : ℕ) × StopsAt is_space typed.line 7 m
    × StopsAt is_other typed.line m k
    × (text (cut_word typed) ≡ erase (text typed) k 7)
    × ((cut_word typed).pos ≡ k)
cut_word_lem_example = cut_word_lem typed typed-InBounds

-- The same line, with the cursor in front of its "-".
abbrev inside : Shell
inside = record typed { pos = 3 }

inside-InBounds : InBounds inside
inside-InBounds = record {
  room = refl;
  length_below = omega arith;
  cursor_inside = omega arith;
  slots = refl;
  lines = All-replicate IsShort 32 [] (omega arith);
  looking_at = omega arith;
  kept = omega arith;
}

-- "  ls -l  ", with the cursor behind it.
abbrev padded : Shell
padded = record typed {
  line = 32 ∷ 32 ∷ 108 ∷ 115 ∷ 32 ∷ 45 ∷ 108 ∷ 32 ∷ 32 ∷ replicate 119 0;
  len = 9;
  pos = 9;
}

padded-InBounds : InBounds padded
padded-InBounds = record {
  room = refl;
  length_below = omega arith;
  cursor_inside = omega arith;
  slots = refl;
  lines = All-replicate IsShort 32 [] (omega arith);
  looking_at = omega arith;
  kept = omega arith;
}

enter_and_recall_example :
    (text (key_up (enter padded).0) ≡ 108 ∷ 115 ∷ 32 ∷ 45 ∷ 108 ∷ [])
    × (text (key_down (key_up (enter padded).0)) ≡ [])
enter_and_recall_example =
    enter_and_recall padded 2 2 (108 ∷ 115 ∷ 32 ∷ 45 ∷ 108 ∷ []) padded-InBounds refl (omega arith)
      (omega arith) (omega arith)

-- More spaces between the words, and a quote that is left open.
open_quote :
    split 16 (32 ∷ 99 ∷ 32 ∷ 32 ∷ 39 ∷ 97 ∷ 32 ∷ 98 ∷ []) ≡ (99 ∷ []) ∷ (97 ∷ 32 ∷ 98 ∷ []) ∷ []
unfolding split take_until skip_spaces
open_quote = refl

-- Behind "cat": "a b" between quotes.
abbrev quoted_args : List Arg
quoted_args = quoted (97 ∷ 32 ∷ 98 ∷ []) ∷ []

dispatch-command_example :
    dispatch 1 (cat_name ++ space ∷ command quoted_args)
    ≡ some (argv (cat_name ∷ words quoted_args) ∷ [])
dispatch-command_example =
    dispatch-command 1 cat_name quoted_args (omega arith) (inr (inl refl)) (omega arith)
      ((omega arith, (omega arith, (omega arith, tt))), tt) (ground arith) (omega arith)

-- ls ; echo "a;b"
cut_quotes :
    dispatch 3 (108 ∷ 115 ∷ 32 ∷ 59 ∷ 32 ∷ 101 ∷ 99 ∷ 104 ∷ 111 ∷ 32 ∷ 34 ∷ 97 ∷ 59 ∷ 98 ∷ 34 ∷ [])
    ≡ some (argv (ls_name ∷ []) ∷ argv (echo_name ∷ (97 ∷ []) ∷ []) ∷ other (98 ∷ 34 ∷ []) ∷ [])
unfolding dispatch read_command split take_until skip_spaces trim back_while cut_at is_command
cut_quotes = refl
