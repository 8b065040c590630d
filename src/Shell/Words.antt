-- ===== src/Shell/Words.antt =====
-- kernel/shell.c: how `dispatch` splits a command into the words of `argv`.
use strixos.Prelude.{
  ℕ, zero, suc, ◌≤◌, ◌≡◌, ◌≢◌, refl, ◌∙◌, ap, ◌==◌, ==_ne, ==_refl, if◌then◌else◌, Bool, true,
  false, ◌||◌, List, [], ◌∷◌, ◌++◌, length, append_assoc, All, arith,
}
use strixos.Shell.{space, skip_spaces}

abbrev pub is_quote : ℕ → Bool
is_quote c = c == 34 || c == 39

-- `while(*cur && *cur!=q) cur++; if(*cur) *cur++=0;`: the characters in front of `q`, and those behind it.
unfoldable pub take_until : ℕ → List ℕ → List ℕ × List ℕ
take_until q [] = ([], [])
take_until q (c ∷ cs) =
    let rest = take_until q cs in if c == q then ([], cs) else (c ∷ rest.0, rest.1)

-- The first word of a text that does not start with a space, and what is behind it.
abbrev pub word : ℕ → List ℕ → List ℕ × List ℕ
word c cs = if is_quote c then take_until c cs else take_until space (c ∷ cs)

-- The loop over the words, with room for `n` of them in `argv`.
unfoldable pub split : ℕ → List ℕ → List (List ℕ)
split zero s = []
split (suc n) s = elim (skip_spaces s) [ [] ↦ [] | c ∷ cs ↦ (word c cs).0 ∷ split n (word c cs).1 ]

-- A word as it is typed, with a space behind it: bare, or between double quotes.
pub data Arg : Type 0 where
  bare : ℕ → List ℕ → Arg
  quoted : List ℕ → Arg

abbrev pub typed : Arg → List ℕ
typed (bare c cs) = c ∷ cs ++ space ∷ []
typed (quoted cs) = 34 ∷ cs ++ 34 ∷ space ∷ []

abbrev pub meant : Arg → List ℕ
meant (bare c cs) = c ∷ cs
meant (quoted cs) = cs

-- A bare word has no space and does not start with a quote, a quoted one has no double quote in it.
abbrev pub IsArg : Arg → Type 0
IsArg (bare c cs) = (is_quote c ≡ false) × All (λ d. d ≢ space) (c ∷ cs)
IsArg (quoted cs) = All (λ d. d ≢ 34) cs

abbrev pub command : List Arg → List ℕ
command [] = []
command (a ∷ args) = typed a ++ command args

abbrev pub words : List Arg → List (List ℕ)
words [] = []
words (a ∷ args) = meant a ∷ words args

take_until-append :
    (q : ℕ) (w rest : List ℕ) → All (λ d. d ≢ q) w → take_until q (w ++ q ∷ rest) ≡ (w, rest)
unfolding take_until
take_until-append q [] rest h = let self : (q == q) ≡ true = ==_refl q in rw (take_until, self) refl
take_until-append q (c ∷ w) rest (ne, h) =
    let other : (c == q) ≡ false = ==_ne c q ne in
    rw (take_until, other) (ap (λ r. (c ∷ r.0, r.1)) (take_until-append q w rest h))

-- One round of the loop.
split-word :
    (n c : ℕ) (cs w rest : List ℕ)
    → c ≢ space
    → word c cs ≡ (w, rest)
    → split (suc n) (c ∷ cs) ≡ w ∷ split n rest
unfolding split skip_spaces
split-word n c cs w rest ne e =
    let other : (c == space) ≡ false = ==_ne c space ne in
    rw (split, skip_spaces, other) (ap (λ r. r.0 ∷ split n r.1) e)

split-space : (n : ℕ) (s : List ℕ) → split n (space ∷ s) ≡ split n s
unfolding split skip_spaces
split-space zero s = refl
split-space (suc n) s = refl

-- A command of at most `n` words, bare or quoted, each with a space behind it, is split into these words.
pub split-command :
    (n : ℕ) (args : List Arg)
    → length args ≤ n
    → All IsArg args
    → split n (command args) ≡ words args
unfolding split skip_spaces
split-command zero [] le h = refl
split-command (suc n) [] le h = refl
split-command zero (a ∷ args) le h = absurd (omega arith)
split-command (suc n) (bare c cs ∷ args) le ((plain, (ne, nes)), h) =
    let rest = command args in
    let shape : command (bare c cs ∷ args) ≡ c ∷ cs ++ space ∷ rest =
      ap (λ t. c ∷ t) (append_assoc cs (space ∷ []) rest) in
    let taken : word c (cs ++ space ∷ rest) ≡ (c ∷ cs, rest) =
      rw plain (take_until-append space (c ∷ cs) rest (ne, nes)) in
    ap (split (suc n)) shape
    ∙ (split-word n c (cs ++ space ∷ rest) (c ∷ cs) rest ne taken
        ∙ ap (λ ws. (c ∷ cs) ∷ ws) (split-command n args (omega arith) h))
split-command (suc n) (quoted cs ∷ args) le (nes, h) =
    let rest = command args in
    let shape : command (quoted cs ∷ args) ≡ 34 ∷ cs ++ 34 ∷ space ∷ rest =
      ap (λ t. 34 ∷ t) (append_assoc cs (34 ∷ space ∷ []) rest) in
    ap (split (suc n)) shape
    ∙ (split-word n 34 (cs ++ 34 ∷ space ∷ rest) cs (space ∷ rest) (omega arith)
          (take_until-append 34 cs (space ∷ rest) nes)
        ∙ ap (λ ws. cs ∷ ws) (split-space n rest ∙ split-command n args (omega arith) h))
