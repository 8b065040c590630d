-- ===== src/Editor/Bounds.antt =====
-- The buffer of the editor never overflows: the length and the cursor stay inside it, whatever keys come.
use strixos.Prelude.{
  ℕ, ◌+◌, ◌-◌, ◌≤◌, ◌≡◌, refl, ◌∙◌, ap, ◌==◌, ltb, leb, if◌then◌else◌, Bool-cases, if_both, inl,
  inr, ◌&&◌, ◌||◌, Option, none, some, List, [], ◌∷◌, ◌++◌, length, length-set, take, arith,
}
use strixos.Buffer.{move_up, length-move_up, length-move_down}
use strixos.Heap.{Heap}
use strixos.Initrd
use strixos.Initrd.{Initrd, Status, ok, failed}
use strixos.Editor.{
  Mode, typing, escape, bracket, confirm, closed, Editor, newline, insert_key, backspace,
  line_start, cut_end, cut_line, save_text, edit_key, arrow, answer, press, press_all,
}

pub record InBounds (e : Editor) : Type 0 where
  pub room : length e.buf ≡ 8192
  pub length_below : e.len ≤ 8191
  pub cursor_inside : e.cur ≤ e.len

pub insert_key-InBounds : (e : Editor) (c : ℕ) → InBounds e → InBounds (insert_key e c)
unfolding insert_key
insert_key-InBounds e c h = elim (Bool-cases (ltb e.len 8190)) [
  | inl free ↦ rw free (record {
    room =
        length-set (move_up e.buf e.len (e.len - e.cur)) e.cur c
        ∙ (length-move_up e.buf e.len (e.len - e.cur) ∙ h.room);
    length_below = ground (arith, free);
    cursor_inside = omega (arith, h.cursor_inside);
  })
  | inr full ↦ rw full h
]

pub backspace-InBounds : (e : Editor) → InBounds e → InBounds (backspace e)
unfolding backspace
backspace-InBounds e h = elim (Bool-cases (ltb 0 e.cur)) [
  | inl some_text ↦ rw some_text (record {
    room = length-move_down e.buf (e.cur - 1) 1 (e.len - (e.cur - 1)) ∙ h.room;
    length_below = omega (arith, h.length_below);
    cursor_inside = omega (arith, h.cursor_inside);
  })
  | inr start ↦ rw start h
]

pub cut_line-InBounds : (e : Editor) → InBounds e → InBounds (cut_line e)
unfolding cut_line
cut_line-InBounds e h = record {
  room =
      length-move_down e.buf (line_start e.buf e.cur) (cut_end e - line_start e.buf e.cur)
        (e.len - cut_end e)
      ∙ h.room;
  length_below = omega (arith, h.length_below);
  cursor_inside = ground arith;
}

-- Neither the mode nor the disk has a part in the bounds.
pub moved-InBounds :
    (e e' : Editor) → InBounds e → e'.buf ≡ e.buf → e'.len ≡ e.len → e'.cur ≤ e.len → InBounds e'
moved-InBounds e e' h b l c = record {
  room = ap length b ∙ h.room;
  length_below = omega (arith, h.length_below);
  cursor_inside = omega arith;
}

mode-InBounds : (e : Editor) (m : Mode) → InBounds e → InBounds (record e { mode = m })
mode-InBounds e m h = moved-InBounds e (record e { mode = m }) h refl refl h.cursor_inside

edit_key-InBounds : (e : Editor) (c : ℕ) → InBounds e → InBounds (edit_key e c)
unfolding edit_key
edit_key-InBounds e c h = if_both InBounds (c == 0) _ _ h (
    if_both InBounds (c == 27) _ _ (mode-InBounds e escape h) (
      if_both InBounds (c == 24) _ _
        (if_both InBounds e.modified _ _ (mode-InBounds e confirm h) (mode-InBounds e closed h))
        (if_both InBounds (c == 11) _ _ (cut_line-InBounds e h) (
          if_both InBounds (c == 8 || c == 127) _ _ (backspace-InBounds e h) (
            if_both InBounds (c == newline || c == 13) _ _ (insert_key-InBounds e newline h)
              (if_both InBounds (leb 32 c && ltb c 127) _ _ (insert_key-InBounds e c h) h))))))

arrow-InBounds : (e : Editor) (c : ℕ) → InBounds e → InBounds (arrow e c)
unfolding arrow
arrow-InBounds e c h =
    let left : InBounds (record e { mode = typing; cur = e.cur - 1 }) =
      moved-InBounds e (record e { mode = typing; cur = e.cur - 1 }) h refl refl
        (omega (arith, h.cursor_inside)) in
    let stay = mode-InBounds e typing h in
    elim (Bool-cases (c == 67 && ltb e.cur e.len)) [
      | inl right ↦
          let there : InBounds (record e { mode = typing; cur = e.cur + 1 }) =
            moved-InBounds e (record e { mode = typing; cur = e.cur + 1 }) h refl refl
              (ground (arith, right)) in
          rw right (if_both InBounds (c == 68 && ltb 0 e.cur) _ _ left there)
      | inr other ↦ rw other (if_both InBounds (c == 68 && ltb 0 e.cur) _ _ left stay)
    ]

-- Behind one key: an editor in bounds, or none because the save of `e` did not end within the fuel.
abbrev Pressed : ℕ → Editor → Option Editor → Type 0
Pressed fuel e none = save_text fuel e ≡ none
Pressed fuel e (some e') = InBounds e'

save_text-Pressed : (fuel : ℕ) (e : Editor) → InBounds e → Pressed fuel e (save_text fuel e)
unfolding save_text
save_text-Pressed fuel e h =
    by_result (Initrd.save fuel e.disk e.heap e.filename (take e.len e.buf)) refl
  where
    by_result :
        (o : Option (Status × (Initrd × Heap)))
        → Initrd.save fuel e.disk e.heap e.filename (take e.len e.buf) ≡ o
        → Pressed fuel e (save_text fuel e)
    by_result none got = rw (save_text, got) (rw (save_text, got) refl)
    by_result (some (ok, (d, g))) got =
        rw (save_text, got) (moved-InBounds e _ h refl refl h.cursor_inside)
    by_result (some (failed, (d, g))) got =
        rw (save_text, got) (moved-InBounds e _ h refl refl h.cursor_inside)

press-Pressed : (fuel : ℕ) (e : Editor) (c : ℕ) → InBounds e → Pressed fuel e (press fuel e c)
unfolding press answer
press-Pressed fuel e c h = by_mode e.mode
  where
    by_mode :
        (m : Mode)
        → Pressed fuel e (elim m [
          | typing ↦ if c == 15 then save_text fuel e else some (edit_key e c)
          | escape ↦
              some (if c == 91 then record e { mode = bracket } else record e { mode = closed })
          | bracket ↦ some (arrow e c)
          | confirm ↦ answer fuel e c
          | closed ↦ some e
        ])
    by_mode typing =
        if_both (Pressed fuel e) (c == 15) _ _ (save_text-Pressed fuel e h)
          (edit_key-InBounds e c h)
    by_mode escape =
        if_both InBounds (c == 91) _ _ (mode-InBounds e bracket h) (mode-InBounds e closed h)
    by_mode bracket = arrow-InBounds e c h
    by_mode confirm =
        if_both (Pressed fuel e) (c == 121 || c == 89) _ _ (save_text-Pressed fuel e h) (
          if_both (Pressed fuel e) (c == 110 || c == 78) _ _ (mode-InBounds e closed h)
            (mode-InBounds e typing h))
    by_mode closed = h

-- What becomes of the keys `cs`: an editor in bounds, or none because, in the state that the keys `xs` in
-- front of a key `c` lead to, which is in bounds, `c` saves the text and the save does not end within
-- the fuel.
abbrev pub Within : ℕ → Editor → List ℕ → Option Editor → Type 0
Within fuel e cs none =
    (xs : List ℕ) × (c : ℕ) × (ys : List ℕ) × (e' : Editor) × (cs ≡ xs ++ c ∷ ys)
    × (press_all fuel e xs ≡ some e')
    × InBounds e'
    × (press fuel e' c ≡ none)
    × (save_text fuel e' ≡ none)
Within fuel e cs (some e') = InBounds e'

Within-behind :
    (fuel : ℕ) (e e' : Editor) (c : ℕ) (cs : List ℕ) (o : Option Editor)
    → press fuel e c ≡ some e'
    → Within fuel e' cs o
    → Within fuel e (c ∷ cs) o
unfolding press_all
Within-behind fuel e e' c cs none got (xs, d, ys, last, split, ran, inside, stuck, unsaved) =
    (c ∷ xs, d, ys, last, ap (c ∷◌) split, rw (press_all, got) ran, inside, stuck, unsaved)
Within-behind fuel e e' c cs (some last) got w = w

-- From a buffer of 8192 characters with the text's length at most 8191 and the cursor inside the text,
-- every sequence of keys, saves and exits included, ends in such a state; there is no result only if one
-- of the keys, in the state that the keys in front of it lead to, saves the text and that save does not
-- end within the fuel.
pub press_all-InBounds :
    (fuel : ℕ) (e : Editor) (cs : List ℕ) → InBounds e → Within fuel e cs (press_all fuel e cs)
unfolding press_all
press_all-InBounds fuel e [] h = h
press_all-InBounds fuel e (c ∷ cs) h =
    after (press fuel e c) refl (press-Pressed fuel e c h) (λ e' w. press_all-InBounds fuel e' cs w)
  where
    after :
        (o : Option Editor)
        → press fuel e c ≡ o
        → Pressed fuel e o
        → ((e' : Editor) → InBounds e' → Within fuel e' cs (press_all fuel e' cs))
        → Within fuel e (c ∷ cs) (elim o [ none ↦ none | some e' ↦ press_all fuel e' cs ])
    after none got w rest = ([], c, cs, e, refl, refl, h, got, w)
    after (some e') got w rest = Within-behind fuel e e' c cs (press_all fuel e' cs) got (rest e' w)
