-- ===== src/Shell/Edit.antt =====
-- What the keys of the command line do to its text.
use strixos.Prelude.{
  ℕ, zero, suc, ◌+◌, ◌-◌, ◌≤◌, ◌<◌, ◌≡◌, refl, sym, ◌∙◌, ap, subst, ◌==◌, ltb, leb, Bool, true,
  false, Bool-cases, inl, inr, ◌⊎◌, List, take, take-append-drop, get_or, arith,
}
use strixos.Buffer.{move_down}
use strixos.Buffer.Text.{insert_at, erase, text-insert_char, text-move_down}
use strixos.Shell.{
  Shell, back_while, is_space, is_other, cut_head, word_start, cut_word, key_backspace, insert_key,
  key_delete,
}
use strixos.Shell.Keys.{InBounds}

abbrev pub text : Shell → List ℕ
text s = take s.len s.line

-- Where a walk back from `n` over the characters of a kind stops.
abbrev pub StopsAt : (ℕ → Bool) → List ℕ → ℕ → ℕ → Type 0
StopsAt test s n k =
    (k ≤ n)
    × ((j : ℕ) → k ≤ j → j < n → test (get_or s j 0) ≡ true)
    × ((k ≡ 0) ⊎ (test (get_or s (k - 1) 0) ≡ false))

back_while-StopsAt : (test : ℕ → Bool) (s : List ℕ) (n : ℕ) → StopsAt test s n (back_while test s n)
unfolding back_while
back_while-StopsAt test s zero = (omega arith, λ j le lt. absurd (omega arith), inl refl)
back_while-StopsAt test s (suc n) = elim (Bool-cases (test (get_or s n 0))) [
  | inr stop ↦
      let step : back_while test s (suc n) ≡ suc n = rw (back_while, stop) refl in
      let e : suc n - 1 ≡ n = omega arith in
      subst (StopsAt test s (suc n)) (sym step)
        (omega arith, λ j le lt. absurd (omega arith), inr (rw e stop))
  | inl go ↦
      let step : back_while test s (suc n) ≡ back_while test s n = rw (back_while, go) refl in
      let (le, all, edge) = back_while-StopsAt test s n in
      subst (StopsAt test s (suc n)) (sym step)
        (omega (arith, le), λ j from lt. all_to (back_while test s n) go all j from lt, edge)
]
  where
    all_to :
        (k : ℕ)
        → test (get_or s n 0) ≡ true
        → ((j : ℕ) → k ≤ j → j < n → test (get_or s j 0) ≡ true)
        → (j : ℕ) → k ≤ j
        → j < suc n
        → test (get_or s j 0) ≡ true
    all_to k go all j from lt = elim (Bool-cases (j == n)) [
      | inl last ↦
          let e : j ≡ n = ground arith in subst (λ (i : ℕ). test (get_or s i 0) ≡ true) (sym e) go
      | inr inner ↦ let lt' : j < n = ground arith in all j from lt'
    ]

-- Taking the characters from `i` to the cursor out of the line.
cut_between :
    (s : Shell) (i k n : ℕ)
    → InBounds s
    → i < k
    → k ≤ s.len
    → n ≡ s.len - (k - i) - i
    → take (s.len - (k - i)) (move_down s.line i (k - i) n) ≡ erase (text s) i k
cut_between s i k n h lt le e =
    text-move_down s.line s.len i k n lt le (omega (arith, h.room, h.length_below)) (omega arith)
      (omega (arith, h.room, h.length_below))

erase_nothing : (t : List ℕ) (i : ℕ) → erase t i i ≡ t
erase_nothing t i = take-append-drop i t

-- In front of a position behind the start is a space or another character.
word_start_lt : (s : Shell) → 0 < s.pos → word_start s < s.pos
word_start_lt s lt =
    let m = back_while is_space s.line s.pos in
    let spaces = back_while-StopsAt is_space s.line s.pos in
    let word = back_while-StopsAt is_other s.line m in
    elim (Bool-cases (ltb (word_start s) s.pos)) [
      | inl done ↦ ground arith
      | inr still ↦
          let whole : s.pos ≤ word_start s = ground arith in
          let same : m ≡ s.pos = omega (arith, spaces.0, word.0) in
          let here : word_start s ≡ s.pos = omega (arith, spaces.0, word.0) in
          both_ends s.line (get_or s.line (s.pos - 1) 0) refl
            (subst (λ (k : ℕ). (k ≡ 0) ⊎ (is_space (get_or s.line (k - 1) 0) ≡ false)) same
              spaces.2)
            (subst (λ (k : ℕ). (k ≡ 0) ⊎ (is_other (get_or s.line (k - 1) 0) ≡ false)) here word.2)
    ]
  where
    both_ends :
        (line : List ℕ) (c : ℕ)
        → get_or line (s.pos - 1) 0 ≡ c
        → (s.pos ≡ 0) ⊎ (is_space (get_or line (s.pos - 1) 0) ≡ false)
        → (s.pos ≡ 0) ⊎ (is_other (get_or line (s.pos - 1) 0) ≡ false)
        → word_start s < s.pos
    both_ends line c e a b = ground arith

text-cut_word :
    (s : Shell)
    → InBounds s
    → word_start s ≤ s.pos
    → text (cut_word s) ≡ erase (text s) (word_start s) s.pos
unfolding cut_word
text-cut_word s h le = elim (Bool-cases (s.pos == 0)) [
  | inl start ↦
      let zero_pos : s.pos ≡ 0 = ground arith in
      let from : word_start s ≡ s.pos = omega arith in
      let step : cut_word s ≡ s = rw (cut_word, start) refl in
      ap text step ∙ sym (ap (λ i. erase (text s) i s.pos) from ∙ erase_nothing (text s) s.pos)
  | inr inner ↦
      rw (cut_word, inner)
        (cut_between s (word_start s) s.pos (s.len - (s.pos - word_start s) - word_start s) h
          (word_start_lt s (ground arith)) h.cursor_inside refl)
]

cut_word_pos : (s : Shell) → word_start s ≤ s.pos → (cut_word s).pos ≡ word_start s
unfolding cut_word
cut_word_pos s le = elim (Bool-cases (s.pos == 0)) [
  | inl start ↦
      let zero_pos : s.pos ≡ 0 = ground arith in
      let step : cut_word s ≡ s = rw (cut_word, start) refl in ap (λ t. t.pos) step ∙ omega arith
  | inr inner ↦ rw (cut_word, inner) refl
]

-- ^W takes the word in front of the cursor out of the line: from `k` to `m` stand characters other than
-- spaces, from `m` to the cursor only spaces, in front of `k` is a space or the start of the line;
-- what stood from `k` to the cursor is gone, and the cursor is at `k`.
pub cut_word_lem :
    (s : Shell)
    → InBounds s
    → (k : ℕ) × (m : ℕ) × StopsAt is_space s.line s.pos m
      × StopsAt is_other s.line m k
      × (text (cut_word s) ≡ erase (text s) k s.pos)
      × ((cut_word s).pos ≡ k)
unfolding cut_word
cut_word_lem s h =
    let m = back_while is_space s.line s.pos in
    let spaces = back_while-StopsAt is_space s.line s.pos in
    let word = back_while-StopsAt is_other s.line m in
    let le : word_start s ≤ s.pos = omega (arith, spaces.0, word.0) in
    (word_start s, m, spaces, word, text-cut_word s h le, cut_word_pos s le)

text-insert_key :
    (s : Shell) (c : ℕ)
    → InBounds s
    → s.len < 127
    → text (insert_key s c) ≡ insert_at (text s) s.pos c
unfolding insert_key
text-insert_key s c h lt =
    let open_ : leb 128 (s.len + 1) ≡ false = ground arith in
    rw (insert_key, open_)
      (text-insert_char s.line s.len s.pos c h.cursor_inside (omega (arith, h.room)))

text-key_backspace :
    (s : Shell) → InBounds s → 0 < s.pos → text (key_backspace s) ≡ erase (text s) (s.pos - 1) s.pos
unfolding key_backspace
text-key_backspace s h lt =
    let go : ltb 0 s.pos ≡ true = ground arith in
    let one : s.pos - (s.pos - 1) ≡ 1 = omega arith in
    let cut =
      cut_between s (s.pos - 1) s.pos (s.len - 1 - (s.pos - 1)) h (omega arith) h.cursor_inside
        (omega arith) in
    rw (key_backspace, go)
      (subst
        (λ (d : ℕ).
          take (s.len - d) (move_down s.line (s.pos - 1) d (s.len - 1 - (s.pos - 1)))
          ≡ erase (text s) (s.pos - 1) s.pos)
        one cut)

text-key_delete :
    (s : Shell)
    → InBounds s
    → s.pos < s.len
    → text (key_delete s) ≡ erase (text s) s.pos (s.pos + 1)
unfolding key_delete
text-key_delete s h lt =
    let go : ltb s.pos s.len ≡ true = ground arith in
    let one : s.pos + 1 - s.pos ≡ 1 = omega arith in
    let cut =
      cut_between s s.pos (s.pos + 1) (s.len - 1 - s.pos) h (omega arith) (omega arith)
        (omega arith) in
    rw (key_delete, go)
      (subst
        (λ (d : ℕ).
          take (s.len - d) (move_down s.line s.pos d (s.len - 1 - s.pos))
          ≡ erase (text s) s.pos (s.pos + 1))
        one cut)

text-cut_head : (s : Shell) → InBounds s → 0 < s.pos → text (cut_head s) ≡ erase (text s) 0 s.pos
unfolding cut_head
text-cut_head s h lt =
    let go : ltb 0 s.pos ≡ true = ground arith in
    let whole : s.pos - 0 ≡ s.pos = omega arith in
    let cut = cut_between s 0 s.pos (s.len - s.pos) h lt h.cursor_inside (omega arith) in
    rw (cut_head, go)
      (subst
        (λ (d : ℕ).
          take (s.len - d) (move_down s.line 0 d (s.len - s.pos)) ≡ erase (text s) 0 s.pos)
        whole cut)

-- On a line with room and with the cursor between two characters: a character goes in at the cursor,
-- backspace takes out the one in front of it, delete the one behind it, and ^U all in front of it.
pub edit_lem :
    (s : Shell) (c : ℕ)
    → InBounds s
    → s.len < 127
    → 0 < s.pos
    → s.pos < s.len
    → (text (insert_key s c) ≡ insert_at (text s) s.pos c)
      × (text (key_backspace s) ≡ erase (text s) (s.pos - 1) s.pos)
      × (text (key_delete s) ≡ erase (text s) s.pos (s.pos + 1))
      × (text (cut_head s) ≡ erase (text s) 0 s.pos)
edit_lem s c h room front behind = (
  text-insert_key s c h room,
  text-key_backspace s h front,
  text-key_delete s h behind,
  text-cut_head s h front,
)
