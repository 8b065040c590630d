-- ===== src/Buffer/Text.antt =====
-- What the loops do to the text: they insert a character, and erase a part.
use strixos.Prelude.{
  ℕ, zero, suc, ◌+◌, ◌-◌, ◌≤◌, ◌<◌, ◌≡◌, refl, sym, ◌∙◌, ap, ap₂, subst, inl, inr, ◌≢◌, Bool-cases,
  ◌==◌, ltb, lt→ltb, true, false, List, [], ◌∷◌, ◌++◌, length, length-append, length-set,
  length-take, length-drop, get_or, set, take, drop, append_assoc, take-append, take-append-drop,
  arith,
}
use strixos.Buffer.{
  move_up, move_down, length-move_up, length-move_down, move_up_inside, move_up_outside,
  move_down_inside, move_down_outside, get_or-set_ne, get_or-set_eq, get_or-take, get_or-drop,
  get_or-append, list_ext,
}

-- The text with `c` put in front of the position `i`.
abbrev pub insert_at : List ℕ → ℕ → ℕ → List ℕ
insert_at t i c = take i t ++ c ∷ drop i t

-- The text without the positions from `i` to `k`, `k` excluded.
abbrev pub erase : List ℕ → ℕ → ℕ → List ℕ
erase t i k = take i t ++ drop k t

append_before : (xs ys : List ℕ) (j : ℕ) → j < length xs → get_or (xs ++ ys) j 0 ≡ get_or xs j 0
append_before xs ys j lt =
    let e : ltb j (length xs) ≡ true = lt→ltb j (length xs) lt in get_or-append xs ys j ∙ rw e refl

append_behind :
    (xs ys : List ℕ) (j : ℕ) → length xs ≤ j → get_or (xs ++ ys) j 0 ≡ get_or ys (j - length xs) 0
append_behind xs ys j le =
    let e : ltb j (length xs) ≡ false = ground arith in get_or-append xs ys j ∙ rw e refl

pub length-insert_at :
    (t : List ℕ) (i c : ℕ) → i ≤ length t → length (insert_at t i c) ≡ length t + 1
length-insert_at t i c le =
    omega (arith, length-append (take i t) (c ∷ drop i t), length-take i t, length-drop i t)

pub length-erase :
    (t : List ℕ) (i k : ℕ) → i ≤ k → k ≤ length t → length (erase t i k) ≡ length t - (k - i)
length-erase t i k le in_text =
    omega (arith, length-append (take i t) (drop k t), length-take i t, length-drop k t)

insert_at_before :
    (t : List ℕ) (i c j : ℕ) → i ≤ length t → j < i → get_or (insert_at t i c) j 0 ≡ get_or t j 0
insert_at_before t i c j le lt =
    append_before (take i t) (c ∷ drop i t) j (omega (arith, length-take i t))
    ∙ get_or-take t i j lt

insert_at_self : (t : List ℕ) (i c : ℕ) → i ≤ length t → get_or (insert_at t i c) i 0 ≡ c
insert_at_self t i c le =
    let here : i - length (take i t) ≡ 0 = omega (arith, length-take i t) in
    append_behind (take i t) (c ∷ drop i t) i (omega (arith, length-take i t)) ∙ rw here refl

insert_at_behind :
    (t : List ℕ) (i c j : ℕ)
    → i ≤ length t
    → i < j
    → get_or (insert_at t i c) j 0 ≡ get_or t (j - 1) 0
insert_at_behind t i c j le lt =
    let here : j - length (take i t) ≡ suc (j - 1 - i) = omega (arith, length-take i t) in
    let there : i + (j - 1 - i) ≡ j - 1 = omega arith in
    append_behind (take i t) (c ∷ drop i t) j (omega (arith, length-take i t))
    ∙ rw here (get_or-drop t i (j - 1 - i) ∙ ap (λ k. get_or t k 0) there)

erase_before :
    (t : List ℕ) (i k j : ℕ) → i ≤ length t → j < i → get_or (erase t i k) j 0 ≡ get_or t j 0
erase_before t i k j le lt =
    append_before (take i t) (drop k t) j (omega (arith, length-take i t)) ∙ get_or-take t i j lt

erase_behind :
    (t : List ℕ) (i k j : ℕ)
    → i ≤ k
    → k ≤ length t
    → i ≤ j
    → get_or (erase t i k) j 0 ≡ get_or t (j + (k - i)) 0
erase_behind t i k j le in_text from =
    let there : k + (j - length (take i t)) ≡ j + (k - i) = omega (arith, length-take i t) in
    append_behind (take i t) (drop k t) j (omega (arith, length-take i t))
    ∙ (get_or-drop t k (j - length (take i t)) ∙ ap (λ n. get_or t n 0) there)

-- `for(i=len;i>cur;i--) buf[i]=buf[i-1]; buf[cur]=c;`
abbrev pub insert_char : List ℕ → ℕ → ℕ → ℕ → List ℕ
insert_char buf len cur c = set (move_up buf len (len - cur)) cur c

-- An insertion at the cursor into the array is one into the text.
pub text-insert_char :
    (buf : List ℕ) (len cur c : ℕ)
    → cur ≤ len
    → len < length buf
    → take (len + 1) (insert_char buf len cur c) ≡ insert_at (take len buf) cur c
text-insert_char buf len cur c le room =
    list_ext (take (len + 1) (insert_char buf len cur c)) (insert_at (take len buf) cur c)
      (omega (arith, full, length-insert_at (take len buf) cur c short, length-take len buf))
      (λ j lt. char j (omega (arith, full)))
  where
    moved : List ℕ
    moved = move_up buf len (len - cur)

    full : length (take (len + 1) (insert_char buf len cur c)) ≡ len + 1
    full = omega (
      arith,
      length-take (len + 1) (insert_char buf len cur c),
      length-set (move_up buf len (len - cur)) cur c,
      length-move_up buf len (len - cur),
    )

    short : cur ≤ length (take len buf)
    short = omega (arith, length-take len buf)

    in_moved : cur < length (move_up buf len (len - cur))
    in_moved = omega (arith, length-move_up buf len (len - cur))

    char :
        (j : ℕ)
        → j < len + 1
        → get_or (take (len + 1) (insert_char buf len cur c)) j 0
          ≡ get_or (insert_at (take len buf) cur c) j 0
    char j lt =
        get_or-take (insert_char buf len cur c) (len + 1) j lt ∙ elim (Bool-cases (j == cur)) [
          | inl here ↦
              let e : j ≡ cur = ground arith in
              subst
                (λ (k : ℕ).
                  get_or (insert_char buf len cur c) k 0
                  ≡ get_or (insert_at (take len buf) cur c) k 0)
                (sym e)
                (get_or-set_eq (move_up buf len (len - cur)) cur c in_moved
                  ∙ sym (insert_at_self (take len buf) cur c short))
          | inr away ↦
              let ne : j ≢ cur = ground arith in
              get_or-set_ne (move_up buf len (len - cur)) cur j c in_moved (λ e. ne (sym e))
              ∙ elim (Bool-cases (ltb j cur)) [
                | inl before ↦
                    let b : j < cur = ground arith in
                    move_up_outside buf len (len - cur) j room (omega arith) (inl (omega arith))
                    ∙ sym (
                        insert_at_before (take len buf) cur c j short b
                        ∙ get_or-take buf len j (omega arith))
                | inr behind ↦
                    let b : cur < j = ground arith in
                    move_up_inside buf len (len - cur) j room (omega arith) (omega arith)
                      (omega arith)
                    ∙ sym (
                        insert_at_behind (take len buf) cur c j short b
                        ∙ get_or-take buf len (j - 1) (omega arith))
              ]
        ]

-- The loop that moves the characters from `k` on down to `i`, for at least as many rounds as there are,
-- erases what was in between.
pub text-move_down :
    (buf : List ℕ) (len i k n : ℕ)
    → i < k
    → k ≤ len
    → len ≤ length buf
    → len - k ≤ n
    → i + n ≤ length buf
    → take (len - (k - i)) (move_down buf i (k - i) n) ≡ erase (take len buf) i k
text-move_down buf len i k n lt le room enough inside =
    list_ext (take (len - (k - i)) (move_down buf i (k - i) n)) (erase (take len buf) i k)
      (omega
        (arith, full, length-erase (take len buf) i k (omega arith) short, length-take len buf))
      (λ j below. char j (omega (arith, full)))
  where
    full : length (take (len - (k - i)) (move_down buf i (k - i) n)) ≡ len - (k - i)
    full = omega (
      arith,
      length-take (len - (k - i)) (move_down buf i (k - i) n),
      length-move_down buf i (k - i) n,
    )

    short : k ≤ length (take len buf)
    short = omega (arith, length-take len buf)

    char :
        (j : ℕ)
        → j < len - (k - i)
        → get_or (take (len - (k - i)) (move_down buf i (k - i) n)) j 0
          ≡ get_or (erase (take len buf) i k) j 0
    char j below =
        get_or-take (move_down buf i (k - i) n) (len - (k - i)) j below
        ∙ elim (Bool-cases (ltb j i)) [
          | inl before ↦
              let b : j < i = ground arith in
              move_down_outside buf i (k - i) n j inside (inl b)
              ∙ sym (
                  erase_before (take len buf) i k j (omega (arith, short)) b
                  ∙ get_or-take buf len j (omega arith))
          | inr behind ↦
              let b : i ≤ j = ground arith in
              move_down_inside buf i (k - i) n j (omega arith) inside b (omega arith)
              ∙ sym (
                  erase_behind (take len buf) i k j (omega arith) short b
                  ∙ get_or-take buf len (j + (k - i)) (omega arith))
        ]

take_whole : (xs ys : List ℕ) (n : ℕ) → length xs ≡ n → take n (xs ++ ys) ≡ xs
take_whole xs ys n e = subst (λ (k : ℕ). take k (xs ++ ys) ≡ xs) e (take-append xs ys)

drop_whole : (xs ys : List ℕ) (n : ℕ) → length xs ≡ n → drop n (xs ++ ys) ≡ ys
drop_whole [] ys zero e = refl
drop_whole [] ys (suc n) e = absurd (omega arith)
drop_whole (x ∷ xs) ys zero e = absurd (omega arith)
drop_whole (x ∷ xs) ys (suc n) e = drop_whole xs ys n (omega arith)

-- Erasing an inserted character gives the text back.
pub erase-insert_at : (t : List ℕ) (i c : ℕ) → i ≤ length t → erase (insert_at t i c) i (i + 1) ≡ t
erase-insert_at t i c le =
    let n : length (take i t) ≡ i = omega (arith, length-take i t) in
    let front : take i (insert_at t i c) ≡ take i t = take_whole (take i t) (c ∷ drop i t) i n in
    let assoc : insert_at t i c ≡ (take i t ++ c ∷ []) ++ drop i t =
      sym (append_assoc (take i t) (c ∷ []) (drop i t)) in
    let back : drop (i + 1) (insert_at t i c) ≡ drop i t =
      ap (drop (i + 1)) assoc
      ∙ drop_whole (take i t ++ c ∷ []) (drop i t) (i + 1)
          (omega (arith, length-append (take i t) (c ∷ []), n)) in
    ap₂ ◌++◌ front back ∙ take-append-drop i t
