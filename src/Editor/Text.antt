-- ===== src/Editor/Text.antt =====
-- What the keys of the editor do to the text and the cursor.
use strixos.Prelude.{
  ℕ, zero, suc, ◌+◌, ◌-◌, ◌≤◌, ◌<◌, ◌≡◌, refl, sym, ◌∙◌, ap, ap₂, subst, ◌≢◌, ◌==◌, ltb,
  if◌then◌else◌, true, Bool-cases, inl, inr, ◌⊎◌, List, length, length-take, take, take-append-drop,
  get_or, arith,
}
use strixos.Buffer.{move_down}
use strixos.Buffer.Text.{insert_at, erase, text-insert_char, text-move_down, erase-insert_at}
use strixos.Editor.{
  Editor, newline, insert_key, backspace, line_start, line_end, cut_line, edit_key,
}
use strixos.Editor.Bounds.{InBounds, insert_key-InBounds}

abbrev pub text : Editor → List ℕ
text e = take e.len e.buf

insert_key-text :
    (e : Editor) (c : ℕ)
    → InBounds e
    → e.len < 8190
    → (text (insert_key e c) ≡ insert_at (text e) e.cur c)
      × ((insert_key e c).cur ≡ e.cur + 1)
      × ((insert_key e c).len ≡ e.len + 1)
unfolding insert_key
insert_key-text e c h free =
    let room : ltb e.len 8190 ≡ true = ground arith in
    rw room
      (text-insert_char e.buf e.len e.cur c h.cursor_inside (omega (arith, h.room)), refl, refl)

backspace-text :
    (e : Editor)
    → InBounds e
    → 0 < e.cur
    → (text (backspace e) ≡ erase (text e) (e.cur - 1) e.cur) × ((backspace e).cur ≡ e.cur - 1)
unfolding backspace
backspace-text e h pos =
    let some_text : ltb 0 e.cur ≡ true = ground arith in
    let one : e.cur - (e.cur - 1) ≡ 1 = omega arith in
    let moved =
      text-move_down e.buf e.len (e.cur - 1) e.cur (e.len - (e.cur - 1)) (omega arith)
        h.cursor_inside (omega (arith, h.room, h.length_below)) (omega arith)
        (omega (arith, h.room, h.length_below, h.cursor_inside)) in
    rw some_text (rw one at moved, refl)

-- In the main loop, with room for the character: a printable key puts its character into the text at
-- the cursor and moves the cursor behind it, and backspace then gives back the text and the cursor.
pub type_and_delete :
    (e : Editor) (c : ℕ)
    → InBounds e
    → e.len < 8190
    → 32 ≤ c
    → c < 127
    → (text (edit_key e c) ≡ insert_at (text e) e.cur c)
      × ((edit_key e c).cur ≡ e.cur + 1)
      × (text (edit_key (edit_key e c) 127) ≡ text e)
      × ((edit_key (edit_key e c) 127).cur ≡ e.cur)
unfolding edit_key
type_and_delete e c h free low high =
    let typed : edit_key e c ≡ insert_key e c = ground arith in
    let deleted : edit_key (edit_key e c) 127 ≡ backspace (insert_key e c) = ap backspace typed in
    let (t, cur, len) = insert_key-text e c h free in
    let (u, back) =
      backspace-text (insert_key e c) (insert_key-InBounds e c h) (omega (arith, cur)) in
    (
      ap text typed ∙ t,
      ap (λ x. x.cur) typed ∙ cur,
      ap text deleted
          ∙ (u
              ∙ (ap₂ (λ (s : List ℕ) (k : ℕ). erase s (k - 1) k) t cur
                  ∙ (ap (λ (k : ℕ). erase (insert_at (text e) e.cur c) k (e.cur + 1)) (omega arith)
                      ∙ erase-insert_at (text e) e.cur c (
                          omega (
                            arith,
                            length-take e.len e.buf,
                            h.room,
                            h.length_below,
                            h.cursor_inside,
                          ))))),
      ap (λ x. x.cur) deleted ∙ omega (arith, back, cur),
    )

-- What is said of where a line starts and ends.
abbrev pub StartsAt : List ℕ → ℕ → ℕ → Type 0
StartsAt buf n ls =
    (ls ≤ n)
    × ((j : ℕ) → ls ≤ j → j < n → get_or buf j 0 ≢ newline)
    × ((ls ≡ 0) ⊎ (get_or buf (ls - 1) 0 ≡ newline))

line_start-StartsAt : (buf : List ℕ) (n : ℕ) → StartsAt buf n (line_start buf n)
unfolding line_start
line_start-StartsAt buf zero = (omega arith, λ j le lt. absurd (omega arith), inl refl)
line_start-StartsAt buf (suc n) = elim (Bool-cases (get_or buf n 0 == newline)) [
  | inl here ↦
      let step : line_start buf (suc n) ≡ suc n = rw (line_start, here) refl in
      subst (StartsAt buf (suc n)) (sym step)
        (omega arith, λ j le lt. absurd (omega arith), inr (ground (arith, here)))
  | inr other ↦
      let step : line_start buf (suc n) ≡ line_start buf n = rw (line_start, other) refl in
      let (le, clean, edge) = line_start-StartsAt buf n in
      let ne : get_or buf n 0 ≢ newline = ground (arith, other) in
      subst (StartsAt buf (suc n)) (sym step)
        (omega (arith, le), λ j from lt. clean_to buf n (line_start buf n) j clean ne from lt, edge)
]
  where
    clean_to :
        (buf : List ℕ) (n ls j : ℕ)
        → ((j : ℕ) → ls ≤ j → j < n → get_or buf j 0 ≢ newline)
        → get_or buf n 0 ≢ newline
        → ls ≤ j
        → j < suc n
        → get_or buf j 0 ≢ newline
    clean_to buf n ls j clean ne from lt = elim (Bool-cases (j == n)) [
      | inl last ↦
          let e : j ≡ n = ground arith in subst (λ (k : ℕ). get_or buf k 0 ≢ newline) (sym e) ne
      | inr inner ↦ let lt' : j < n = ground arith in clean j from lt'
    ]

abbrev pub EndsAt : List ℕ → ℕ → ℕ → ℕ → Type 0
EndsAt buf cur len le =
    (cur ≤ le)
    × (le ≤ len)
    × ((j : ℕ) → cur ≤ j → j < le → get_or buf j 0 ≢ newline)
    × ((le ≡ len) ⊎ (get_or buf le 0 ≡ newline))

line_end-EndsAt : (buf : List ℕ) (le n : ℕ) → EndsAt buf le (le + n) (line_end buf le n)
unfolding line_end
line_end-EndsAt buf le zero =
    (omega arith, omega arith, λ j from lt. absurd (omega arith), inl (omega arith))
line_end-EndsAt buf le (suc n) = elim (Bool-cases (get_or buf le 0 == newline)) [
  | inl here ↦
      let step : line_end buf le (suc n) ≡ le = rw (line_end, here) refl in
      subst (EndsAt buf le (le + suc n)) (sym step)
        (omega arith, omega arith, λ j from lt. absurd (omega arith), inr (ground (arith, here)))
  | inr other ↦
      let step : line_end buf le (suc n) ≡ line_end buf (le + 1) n = rw (line_end, other) refl in
      let (low, high, clean, edge) = line_end-EndsAt buf (le + 1) n in
      let ne : get_or buf le 0 ≢ newline = ground (arith, other) in
      subst (EndsAt buf le (le + suc n)) (sym step) (
        omega (arith, low),
        omega (arith, high),
        λ j from lt. clean_from buf le (line_end buf (le + 1) n) j clean ne from lt,
        ground (arith, edge),
      )
]
  where
    clean_from :
        (buf : List ℕ) (le to j : ℕ)
        → ((j : ℕ) → le + 1 ≤ j → j < to → get_or buf j 0 ≢ newline)
        → get_or buf le 0 ≢ newline
        → le ≤ j
        → j < to
        → get_or buf j 0 ≢ newline
    clean_from buf le to j clean ne from lt = elim (Bool-cases (j == le)) [
      | inl first ↦
          let e : j ≡ le = ground arith in subst (λ (k : ℕ). get_or buf k 0 ≢ newline) (sym e) ne
      | inr inner ↦ let from' : le + 1 ≤ j = ground arith in clean j from' lt
    ]

-- The loop of ^K, also where there is nothing to cut.
cut_text :
    (buf : List ℕ) (len ls k : ℕ)
    → ls ≤ k
    → k ≤ len
    → (ls ≡ k → k ≡ len)
    → len ≤ length buf
    → take (len - (k - ls)) (move_down buf ls (k - ls) (len - k)) ≡ erase (take len buf) ls k
unfolding move_down
cut_text buf len ls k le inside rest room = elim (Bool-cases (ltb ls k)) [
  | inl some_text ↦
      let lt : ls < k = ground arith in
      text-move_down buf len ls k (len - k) lt inside room (omega arith) (omega arith)
  | inr nothing ↦
      let same : ls ≡ k = ground arith in
      let at_end : k ≡ len = rest same in
      let zero_by : k - ls ≡ 0 = omega arith in
      let zero_rounds : len - k ≡ 0 = omega arith in
      rw (zero_by, zero_rounds) (still (omega arith) at_end)
]
  where
    still : ls ≡ len → k ≡ len → take (len - 0) (move_down buf ls 0 0) ≡ erase (take len buf) ls k
    still e f =
        let whole : len - 0 ≡ len = omega arith in
        rw (whole, e, f) (sym (take-append-drop len (take len buf)))

-- ^K in the main loop erases the line of the cursor: from a position behind a newline, or the start of
-- the text, with no newline up to the cursor, to the first newline from the cursor on, which goes
-- too, or the end of the text. The cursor stays where it is, or goes back to the end of the text.
pub cut_line_lem :
    (e : Editor)
    → InBounds e
    → (ls : ℕ) × (le : ℕ) × StartsAt e.buf e.cur ls
      × EndsAt e.buf e.cur e.len le
      × (text (edit_key e 11) ≡ erase (text e) ls (if ltb le e.len then le + 1 else le))
      × ((edit_key e 11).cur
          ≡ (if ltb (edit_key e 11).len e.cur then (edit_key e 11).len else e.cur))
unfolding edit_key cut_line
cut_line_lem e h =
    let ls = line_start e.buf e.cur in
    let le = line_end e.buf e.cur (e.len - e.cur) in
    let starts = line_start-StartsAt e.buf e.cur in
    let total : e.cur + (e.len - e.cur) ≡ e.len = omega (arith, h.cursor_inside) in
    let ends : EndsAt e.buf e.cur e.len le =
      subst (λ (n : ℕ). EndsAt e.buf e.cur n le) total
        (line_end-EndsAt e.buf e.cur (e.len - e.cur)) in
    let k : ℕ = if ltb le e.len then le + 1 else le in
    let bounds : (le ≤ k) × (k ≤ e.len) × (ls ≡ k → k ≡ e.len) =
      cut_bounds ls e.cur le e.len starts.0 ends.0 ends.1 in
    (
      ls,
      le,
      starts,
      ends,
      cut_text e.buf e.len ls k (omega (arith, bounds.0, starts.0, ends.0)) bounds.1 bounds.2
          (omega (arith, h.room, h.length_below)),
      refl,
    )
  where
    cut_bounds :
        (ls cur le len : ℕ)
        → ls ≤ cur
        → cur ≤ le
        → le ≤ len
        → let k : ℕ = if ltb le len then le + 1 else le in (le ≤ k) × (k ≤ len) × (ls ≡ k → k ≡ len)
    cut_bounds ls cur le len a b c = (ground arith, ground arith, λ same. ground (arith, same))
