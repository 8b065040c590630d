-- ===== src/Shell/Keys.antt =====
-- The keys of the command line but tab keep the line and the history inside their arrays.
use strixos.Prelude.{
  ℕ, zero, suc, ◌+◌, ◌-◌, ◌%◌, ◌≤◌, ◌≡◌, refl, ◌∙◌, ap, ◌==◌, ltb, leb, if_both, Bool, true,
  Bool-cases, inl, inr, ◌&&◌, ◌||◌, List, [], ◌∷◌, length, length-set, length-take, take, get_or,
  set, All, All-set, arith,
}
use strixos.Buffer.{move_up, move_down, length-move_up, length-move_down}
use strixos.Initrd.{is_equal}
use strixos.Shell.{
  Shell, max_line, hist_size, hist_line, back_while, is_space, is_other, trim, history_add, copy_in,
  recall, key_up, key_down, key_right, key_left, key_delete, escape, cut_tail, cut_head, word_start,
  cut_word, key_backspace, insert_key, interrupt, key, enter,
}

abbrev pub IsShort : List ℕ → Type 0
IsShort h = length h ≤ 127

pub record InBounds (s : Shell) : Type 0 where
  pub room : length s.line ≡ 128
  pub length_below : s.len ≤ 127
  pub cursor_inside : s.pos ≤ s.len
  pub slots : length s.history ≡ 32
  pub lines : All IsShort s.history
  pub looking_at : s.hist_pos ≤ s.hist_len
  pub kept : IsShort s.hist_tmp

-- The line with its length and cursor changes, the history does not.
pub line-InBounds :
    (s : Shell) (line : List ℕ) (len pos : ℕ)
    → InBounds s
    → length line ≡ length s.line
    → len ≤ 127
    → pos ≤ len
    → InBounds (record s { line = line; len = len; pos = pos })
line-InBounds s line len pos h l n p = record {
  room = l ∙ h.room;
  length_below = n;
  cursor_inside = p;
  slots = h.slots;
  lines = h.lines;
  looking_at = h.looking_at;
  kept = h.kept;
}

pub length-copy_in : (line h : List ℕ) → length (copy_in line h) ≡ length line
unfolding copy_in
length-copy_in [] h = refl
length-copy_in (x ∷ line) [] = refl
length-copy_in (x ∷ line) (c ∷ h) = ap suc (length-copy_in line h)

recall-InBounds : (s : Shell) (t : List ℕ) → InBounds s → InBounds (recall s t)
unfolding recall
recall-InBounds s t h =
    let n = length (take (max_line - 1) t) in
    line-InBounds s (copy_in s.line (take (max_line - 1) t)) n n h
      (length-copy_in s.line (take (max_line - 1) t)) (omega (arith, length-take 127 t))
      (omega arith)

-- The history changes its position, and the line that was being typed is kept.
look-InBounds :
    (s : Shell) (pos : ℕ) (tmp : List ℕ) (has : Bool)
    → InBounds s
    → pos ≤ s.hist_len
    → IsShort tmp
    → InBounds (record s { hist_pos = pos; hist_tmp = tmp; hist_has_tmp = has })
look-InBounds s pos tmp has h p t = record {
  room = h.room;
  length_below = h.length_below;
  cursor_inside = h.cursor_inside;
  slots = h.slots;
  lines = h.lines;
  looking_at = p;
  kept = t;
}

key_up-InBounds : (s : Shell) → InBounds s → InBounds (key_up s)
unfolding key_up
key_up-InBounds s h =
    let typed : IsShort (take s.len s.line) =
      omega (arith, length-take s.len s.line, h.length_below) in
    let kept : InBounds (record s { hist_tmp = take s.len s.line; hist_has_tmp = true }) =
      look-InBounds s s.hist_pos (take s.len s.line) true h h.looking_at typed in
    let back : (tmp : List ℕ) (has : Bool)
        → IsShort tmp
        → InBounds (record s { hist_pos = s.hist_pos - 1; hist_tmp = tmp; hist_has_tmp = has }) =
      λ tmp has t. look-InBounds s (s.hist_pos - 1) tmp has h (omega (arith, h.looking_at)) t in
    elim (Bool-cases (s.hist_pos == s.hist_len)) [
      | inl fresh ↦ rw fresh (
          if_both InBounds (s.hist_len == 0) _ _ h (
            if_both InBounds (ltb 0 s.hist_pos && ltb s.hist_len (s.hist_pos + hist_size)) _ _
              (recall-InBounds _ (hist_line s (s.hist_pos - 1))
                (back (take s.len s.line) true typed))
              kept))
      | inr old ↦ rw old (
          if_both InBounds (s.hist_len == 0) _ _ h (
            if_both InBounds (ltb 0 s.hist_pos && ltb s.hist_len (s.hist_pos + hist_size)) _ _
              (recall-InBounds _ (hist_line s (s.hist_pos - 1))
                (back s.hist_tmp s.hist_has_tmp h.kept))
              h))
    ]

key_down-InBounds : (s : Shell) → InBounds s → InBounds (key_down s)
unfolding key_down
key_down-InBounds s h = elim (Bool-cases (ltb s.hist_pos s.hist_len)) [
  | inr last ↦ rw last h
  | inl more ↦
      let later : InBounds (record s { hist_pos = s.hist_pos + 1 }) =
        look-InBounds s (s.hist_pos + 1) s.hist_tmp s.hist_has_tmp h (ground (arith, more))
          h.kept in
      rw more (
        if_both InBounds (s.hist_pos + 1 == s.hist_len) _ _
          (if_both InBounds s.hist_has_tmp _ _ (recall-InBounds _ s.hist_tmp later) (
            line-InBounds (record s { hist_pos = s.hist_pos + 1 }) s.line 0 0 later refl
              (omega arith) (omega arith)))
          (recall-InBounds _ (hist_line s (s.hist_pos + 1)) later))
]

module _ (s : Shell) (h : InBounds s) where
  erased-InBounds :
      (from by n len pos : ℕ)
      → len ≤ 127
      → pos ≤ len
      → InBounds (record s { line = move_down s.line from by n; len = len; pos = pos })
  erased-InBounds from by n len pos l p =
      line-InBounds s (move_down s.line from by n) len pos h (length-move_down s.line from by n) l p

  moved-InBounds : (pos : ℕ) → pos ≤ s.len → InBounds (record s { pos = pos })
  moved-InBounds pos p = line-InBounds s s.line s.len pos h refl h.length_below p

  key_right-InBounds : InBounds (key_right s)
  unfolding key_right
  key_right-InBounds = elim (Bool-cases (ltb s.pos s.len)) [
    | inl more ↦ rw more (moved-InBounds (s.pos + 1) (ground (arith, more)))
    | inr end ↦ rw end h
  ]

  key_left-InBounds : InBounds (key_left s)
  unfolding key_left
  key_left-InBounds =
      if_both InBounds (ltb 0 s.pos) _ _
        (moved-InBounds (s.pos - 1) (omega (arith, h.cursor_inside))) h

  key_delete-InBounds : InBounds (key_delete s)
  unfolding key_delete
  key_delete-InBounds = elim (Bool-cases (ltb s.pos s.len)) [
    | inl more ↦ rw more (
        erased-InBounds s.pos 1 (s.len - 1 - s.pos) (s.len - 1) s.pos
          (omega (arith, h.length_below)) (ground (arith, more)))
    | inr end ↦ rw end h
  ]

  cut_tail-InBounds : InBounds (cut_tail s)
  unfolding cut_tail
  cut_tail-InBounds =
      if_both InBounds (ltb s.pos s.len) _ _
        (line-InBounds s s.line s.pos s.pos h refl (omega (arith, h.length_below, h.cursor_inside))
          (omega arith))
        h

  cut_head-InBounds : InBounds (cut_head s)
  unfolding cut_head
  cut_head-InBounds =
      if_both InBounds (ltb 0 s.pos) _ _
        (erased-InBounds 0 s.pos (s.len - s.pos) (s.len - s.pos) 0 (omega (arith, h.length_below))
          (omega arith))
        (if_both InBounds (ltb 0 s.len) _ _
          (line-InBounds s s.line 0 0 h refl (omega arith) (omega arith)) h)

  key_backspace-InBounds : InBounds (key_backspace s)
  unfolding key_backspace
  key_backspace-InBounds =
      if_both InBounds (ltb 0 s.pos) _ _
        (erased-InBounds (s.pos - 1) 1 (s.len - 1 - (s.pos - 1)) (s.len - 1) (s.pos - 1)
          (omega (arith, h.length_below)) (omega (arith, h.cursor_inside)))
        h

  insert_key-InBounds : (c : ℕ) → InBounds (insert_key s c)
  unfolding insert_key
  insert_key-InBounds c = elim (Bool-cases (leb max_line (s.len + 1))) [
    | inl full ↦ rw full h
    | inr free ↦ rw free (
        line-InBounds s (set (move_up s.line s.len (s.len - s.pos)) s.pos c) (s.len + 1) (s.pos + 1)
          h
          (length-set (move_up s.line s.len (s.len - s.pos)) s.pos c
            ∙ length-move_up s.line s.len (s.len - s.pos))
          (ground (arith, free)) (omega (arith, h.cursor_inside)))
  ]

pub back_while-le : (test : ℕ → Bool) (s : List ℕ) (n : ℕ) → back_while test s n ≤ n
unfolding back_while
back_while-le test s zero = omega arith
back_while-le test s (suc n) = elim (Bool-cases (test (get_or s n 0))) [
  | inl go ↦ rw (back_while, go) (omega (arith, back_while-le test s n))
  | inr stop ↦ rw (back_while, stop) (omega arith)
]

word_start-le : (s : Shell) → word_start s ≤ s.pos
word_start-le s = omega (
  arith,
  back_while-le is_other s.line (back_while is_space s.line s.pos),
  back_while-le is_space s.line s.pos,
)

cut_word-InBounds : (s : Shell) → InBounds s → InBounds (cut_word s)
unfolding cut_word
cut_word-InBounds s h = if_both InBounds (s.pos == 0) _ _ h (
    erased-InBounds s h (word_start s) (s.pos - word_start s)
      (s.len - (s.pos - word_start s) - word_start s) (s.len - (s.pos - word_start s))
      (word_start s) (omega (arith, h.length_below))
      (omega (arith, h.cursor_inside, word_start-le s)))

history_add-InBounds : (s : Shell) (t : List ℕ) → InBounds s → InBounds (history_add s t)
unfolding history_add
history_add-InBounds s [] h = h
history_add-InBounds s (c ∷ cs) h =
    if_both InBounds (ltb 0 s.hist_len && is_equal (hist_line s (s.hist_len - 1)) (c ∷ cs)) _ _ h
      (record {
        room = h.room;
        length_below = h.length_below;
        cursor_inside = h.cursor_inside;
        slots =
            length-set s.history (s.hist_len % hist_size) (take (max_line - 1) (c ∷ cs)) ∙ h.slots;
        lines =
            All-set {A = List ℕ} IsShort s.history (s.hist_len % hist_size)
              (take (max_line - 1) (c ∷ cs)) h.lines (omega (arith, length-take 127 (c ∷ cs)));
        looking_at = omega arith;
        kept = h.kept;
      })

pub enter-InBounds : (s : Shell) → InBounds s → InBounds (enter s).0
unfolding enter
enter-InBounds s h =
    let added = history_add s (trim (take s.len s.line)) in
    let g = history_add-InBounds s (trim (take s.len s.line)) h in
    line-InBounds (record added { hist_pos = added.hist_len }) added.line 0 0
      (look-InBounds added added.hist_len added.hist_tmp added.hist_has_tmp g (omega arith) g.kept)
      refl (omega arith) (omega arith)

pub escape-InBounds : (s : Shell) (n2 n3 : ℕ) → InBounds s → InBounds (escape s n2 n3)
unfolding escape
escape-InBounds s n2 n3 h = if_both InBounds (n2 == 65) _ _ (key_up-InBounds s h) (
    if_both InBounds (n2 == 66) _ _ (key_down-InBounds s h) (
      if_both InBounds (n2 == 67) _ _ (key_right-InBounds s h) (
        if_both InBounds (n2 == 68) _ _ (key_left-InBounds s h) (
          if_both InBounds (n2 == 72) _ _ (moved-InBounds s h 0 (omega arith)) (
            if_both InBounds (n2 == 70) _ _ (moved-InBounds s h s.len (omega arith))
              (if_both InBounds (n2 == 51 && n3 == 126) _ _ (key_delete-InBounds s h) h))))))

interrupt-InBounds : (s : Shell) → InBounds s → InBounds (interrupt s)
unfolding interrupt
interrupt-InBounds s h =
    line-InBounds (record s { hist_pos = s.hist_len }) s.line 0 0
      (look-InBounds s s.hist_len s.hist_tmp s.hist_has_tmp h (omega arith) h.kept) refl
      (omega arith) (omega arith)

pub key-InBounds : (s : Shell) (c : ℕ) → InBounds s → InBounds (key s c)
unfolding key
key-InBounds s c h = if_both InBounds (c == 1) _ _ (moved-InBounds s h 0 (omega arith)) (
    if_both InBounds (c == 5) _ _ (moved-InBounds s h s.len (omega arith)) (
      if_both InBounds (c == 11) _ _ (cut_tail-InBounds s h) (
        if_both InBounds (c == 21) _ _ (cut_head-InBounds s h) (
          if_both InBounds (c == 23) _ _ (cut_word-InBounds s h) (
            if_both InBounds (c == 3) _ _ (interrupt-InBounds s h) (
              if_both InBounds (c == 8 || c == 127) _ _ (key_backspace-InBounds s h)
                (if_both InBounds (leb 32 c && ltb c 127) _ _ (insert_key-InBounds s h c) h)))))))
