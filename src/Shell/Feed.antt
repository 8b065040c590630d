-- ===== src/Shell/Feed.antt =====
-- kernel/shell.c: the loop of `shell_task`, key by key. The keys behind ESC [ come with the one that
-- follows them, and the tab key with the names of the files at that time.
use strixos.Prelude.{ℕ, List, [], ◌∷◌}
use strixos.Shell.{Shell, key, escape, enter}
use strixos.Shell.Complete.{complete}

-- What the terminal sends: a character, the tab key, a sequence behind ESC [, or the end of the line.
pub data Input : Type 0 where
  plain : ℕ → Input
  tab : List (List ℕ) → Input
  sequence : ℕ → ℕ → Input
  newline : Input

unfoldable pub step : Shell → Input → Shell
step s (plain c) = key s c
step s (tab files) = complete s files
step s (sequence n2 n3) = escape s n2 n3
step s newline = (enter s).0

unfoldable pub feed : Shell → List Input → Shell
feed s [] = s
feed s (i ∷ is) = feed (step s i) is
