-- ===== src/Shell/History.antt =====
-- The history of the command line: what the keys up and down bring back.
use strixos.Prelude.{
  ℕ, zero, suc, ◌+◌, ◌-◌, ◌%◌, ◌≤◌, ◌<◌, ◌≡◌, ◌≢◌, refl, sym, ◌∙◌, ap, subst, ◌==◌, ltb, true,
  false, ◌&&◌, Bool-cases, inl, inr, List, [], ◌∷◌, ◌++◌, replicate, length, length-take, take,
  get_or, set, get_or-set, arith,
}
use strixos.Initrd.{is_equal, is_equal_sound}
use strixos.Shell.{
  Shell, space, max_line, hist_size, hist_line, back_while, is_space, skip_spaces, trim,
  history_add, copy_in, recall, key_up, key_down, enter,
}
use strixos.Shell.Keys.{InBounds, enter-InBounds, length-copy_in}
use strixos.Shell.Edit.{text}
use strixos.Shell.Trim.{trim-padded}

take-copy_in : (line h : List ℕ) → length h ≤ length line → take (length h) (copy_in line h) ≡ h
unfolding copy_in
take-copy_in [] [] le = refl
take-copy_in [] (c ∷ h) le = absurd (omega arith)
take-copy_in (x ∷ line) [] le = refl
take-copy_in (x ∷ line) (c ∷ h) le = ap (λ t. c ∷ t) (take-copy_in line h (omega arith))

text-recall : (s : Shell) (h : List ℕ) → length s.line ≡ 128 → text (recall s h) ≡ take 127 h
unfolding recall
text-recall s h room = take-copy_in s.line (take 127 h) (omega (arith, length-take 127 h))

take_none : (h : List ℕ) → take 0 h ≡ []
take_none [] = refl
take_none (c ∷ h) = refl

take_all : (h : List ℕ) (n : ℕ) → length h ≤ n → take n h ≡ h
take_all [] zero le = refl
take_all [] (suc n) le = refl
take_all (c ∷ h) zero le = absurd (omega arith)
take_all (c ∷ h) (suc n) le = ap (λ t. c ∷ t) (take_all h n (omega arith))

-- The state after the key up at the end of the history.
up_step :
    (s : Shell)
    → s.hist_pos ≡ s.hist_len
    → 0 < s.hist_len
    → key_up s
      ≡ recall
          (record s { hist_tmp = text s; hist_has_tmp = true; hist_pos = s.hist_pos - 1 })
          (hist_line s (s.hist_pos - 1))
unfolding key_up
up_step s e lt =
    let at_end : (s.hist_pos == s.hist_len) ≡ true = ground arith in
    let some_lines : (s.hist_len == 0) ≡ false = ground arith in
    let a : ltb 0 s.hist_pos ≡ true = ground arith in
    let b : ltb s.hist_len (s.hist_pos + hist_size) ≡ true = ground arith in
    rw (key_up, at_end, some_lines, a, b) refl

-- The key down one step in front of the end of the history.
down_step :
    (s : Shell)
    → s.hist_pos + 1 ≡ s.hist_len
    → s.hist_has_tmp ≡ true
    → key_down s ≡ recall (record s { hist_pos = s.hist_pos + 1 }) s.hist_tmp
unfolding key_down
down_step s e kept =
    let a : ltb s.hist_pos s.hist_len ≡ true = ground arith in
    let b : (s.hist_pos + 1 == s.hist_len) ≡ true = ground arith in rw (key_down, a, b, kept) refl

-- With a line in the history and none recalled, the key up brings the last line of the history, and the key
-- down behind it brings what was being typed.
pub up_and_down :
    (s : Shell)
    → InBounds s
    → s.hist_pos ≡ s.hist_len
    → 0 < s.hist_len
    → (text (key_up s) ≡ take 127 (hist_line s (s.hist_len - 1)))
      × (text (key_down (key_up s)) ≡ text s)
unfolding recall
up_and_down s h e lt =
    let s' : Shell = record s {
      hist_tmp = text s;
      hist_has_tmp = true;
      hist_pos = s.hist_pos - 1;
    } in
    let up : key_up s ≡ recall s' (hist_line s (s.hist_pos - 1)) = up_step s e lt in
    let u : Shell = recall s' (hist_line s (s.hist_pos - 1)) in
    let room : length u.line ≡ 128 = length-copy_in s.line _ ∙ h.room in
    let short : length (text s) ≤ 127 = omega (arith, length-take s.len s.line, h.length_below) in
    let down : key_down u ≡ recall (record u { hist_pos = u.hist_pos + 1 }) (text s) =
      down_step u (omega arith) refl in
    let last : hist_line s (s.hist_pos - 1) ≡ hist_line s (s.hist_len - 1) =
      ap (λ i. hist_line s (i - 1)) e in
    (
      ap text up ∙ (text-recall s' (hist_line s (s.hist_pos - 1)) h.room ∙ ap (take 127) last),
      ap (λ t. text (key_down t)) up
          ∙ (ap text down
              ∙ (text-recall (record u { hist_pos = u.hist_pos + 1 }) (text s) room
                  ∙ take_all (text s) 127 short)),
    )

-- What `history_add` does with a line that is not empty.
add_step :
    (s : Shell) (c : ℕ) (cs : List ℕ)
    → ((ltb 0 s.hist_len && is_equal (hist_line s (s.hist_len - 1)) (c ∷ cs)) ≡ false)
    → history_add s (c ∷ cs) ≡ record s {
      history = set s.history (s.hist_len % hist_size) (take (max_line - 1) (c ∷ cs));
      hist_len = s.hist_len + 1;
      hist_pos = s.hist_len + 1;
      hist_has_tmp = false;
    }
unfolding history_add
add_step s c cs new = rw (history_add, new) refl

-- An entered line that is not blank is the last of the history.
last_line :
    (s : Shell) (c : ℕ) (cs : List ℕ)
    → InBounds s
    → length (c ∷ cs) ≤ 127
    → (hist_line (history_add s (c ∷ cs)) ((history_add s (c ∷ cs)).hist_len - 1) ≡ c ∷ cs)
      × (0 < (history_add s (c ∷ cs)).hist_len)
unfolding history_add
last_line s c cs h le =
    elim (Bool-cases (ltb 0 s.hist_len && is_equal (hist_line s (s.hist_len - 1)) (c ∷ cs))) [
      | inl same ↦
          let step : history_add s (c ∷ cs) ≡ s = rw (history_add, same) refl in
          subst (λ t. (hist_line t (t.hist_len - 1) ≡ c ∷ cs) × (0 < t.hist_len)) (sym step)
            (is_equal_sound (hist_line s (s.hist_len - 1)) (c ∷ cs) (ground arith), ground arith)
      | inr new ↦
          let i = s.hist_len % 32 in
          let inside : i < length s.history = omega (arith, h.slots) in
          let back : s.hist_len + 1 - 1 ≡ s.hist_len = omega arith in
          let self : (i == i) ≡ true = ground arith in
          let found : get_or (set s.history i (take 127 (c ∷ cs))) i [] ≡ c ∷ cs =
            get_or-set s.history i i (take 127 (c ∷ cs)) [] inside
            ∙ (rw self refl ∙ take_all (c ∷ cs) 127 le) in
          subst (λ t. (hist_line t (t.hist_len - 1) ≡ c ∷ cs) × (0 < t.hist_len))
            (sym (add_step s c cs new))
            (
              ap (λ n. get_or (set s.history i (take 127 (c ∷ cs))) (n % 32) []) back ∙ found,
              omega arith,
            )
    ]

pub length-skip_spaces : (s : List ℕ) → length (skip_spaces s) ≤ length s
unfolding skip_spaces
length-skip_spaces [] = omega arith
length-skip_spaces (c ∷ cs) = ground (arith, length-skip_spaces cs)

pub length-trim : (s : List ℕ) → length (trim s) ≤ length s
unfolding trim
length-trim s = omega (
  arith,
  length-take (back_while is_space (skip_spaces s) (length (skip_spaces s))) (skip_spaces s),
  length-skip_spaces s,
)

-- With the code's own `trim`.
recall_trimmed :
    (s : Shell)
    → InBounds s
    → 0 < length (trim (text s))
    → (text (key_up (enter s).0) ≡ trim (text s)) × (text (key_down (key_up (enter s).0)) ≡ [])
unfolding enter
recall_trimmed s h lt = go (trim (text s)) refl
  where
    short : length (trim (text s)) ≤ 127
    short = omega (arith, length-trim (text s), length-take s.len s.line, h.length_below)

    go :
        (t : List ℕ)
        → trim (text s) ≡ t
        → (text (key_up (enter s).0) ≡ trim (text s)) × (text (key_down (key_up (enter s).0)) ≡ [])
    go [] e = absurd (omega (arith, ap length e, lt))
    go (c ∷ cs) e =
        let fits : length (c ∷ cs) ≤ 127 = omega (arith, ap length e, short) in
        let added = history_add s (c ∷ cs) in
        let step : (enter s).0 ≡ record added { hist_pos = added.hist_len; len = 0; pos = 0 } =
          ap
            (λ t. record (history_add s t) {
              hist_pos = (history_add s t).hist_len;
              len = 0;
              pos = 0;
            })
            e in
        let (last, some_lines) = last_line s c cs h fits in
        let u = (enter s).0 in
        let recalled =
          up_and_down u (enter-InBounds s h) refl
            (subst (λ t. 0 < t.hist_len) (sym step) some_lines) in
        let found : take 127 (hist_line u (u.hist_len - 1)) ≡ trim (text s) =
          ap (λ t. take 127 (hist_line t (t.hist_len - 1))) step
          ∙ (ap (take 127) last ∙ (take_all (c ∷ cs) 127 fits ∙ sym e)) in
        (recalled.0 ∙ found, recalled.1 ∙ take_none u.line)

-- When the line is a text that neither starts nor ends with a space, with any spaces in front of it and
-- behind it, then after it has been entered the key up brings back exactly that text, without the spaces,
-- and the key down behind it brings the empty line.
pub enter_and_recall :
    (s : Shell) (a b : ℕ) (t : List ℕ)
    → InBounds s
    → text s ≡ replicate a space ++ (t ++ replicate b space)
    → 0 < length t
    → get_or t 0 0 ≢ space
    → get_or t (length t - 1) 0 ≢ space
    → (text (key_up (enter s).0) ≡ t) × (text (key_down (key_up (enter s).0)) ≡ [])
enter_and_recall s a b t h typed some_text first last =
    let trimmed : trim (text s) ≡ t = ap trim typed ∙ trim-padded a b t some_text first last in
    subst (λ u. (text (key_up (enter s).0) ≡ u) × (text (key_down (key_up (enter s).0)) ≡ []))
      trimmed (recall_trimmed s h (omega (arith, ap length trimmed, some_text)))
