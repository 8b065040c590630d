-- ===== src/Keyboard/Ring.antt =====
-- The ring buffer of 128 characters is a queue of at most 127.
use strixos.Prelude.{
  ℕ, zero, suc, ◌+◌, ◌%◌, ◌≤◌, ◌<◌, ◌≡◌, refl, ◌∙◌, ap₂, subst, ◌==◌, ==_ne, ltb, leb,
  if◌then◌else◌, Bool, true, false, not, Bool-cases, inl, inr, ◌&&◌, ◌||◌, Option, none, some, List,
  [], ◌∷◌, ◌++◌, length, length-append, length-set, get_or, set, get_or-set, arith,
}
use strixos.Keyboard.{Keyboard, kbd_buf, kpush, key_char, handle_scancode, poll, try_getc}

-- The characters of `q`, oldest first, stand in the buffer from `ktail` on.
pub record Queued (k : Keyboard) (q : List ℕ) : Type 0 where
  pub room : length k.kbuf ≡ 128
  pub tail_below : k.ktail < 128
  pub short : length q < 128
  pub ends : k.khead ≡ (k.ktail + length q) % 128
  pub stands : (i : ℕ) → i < length q → get_or k.kbuf ((k.ktail + i) % 128) 0 ≡ get_or q i 0

-- A queue that drops what comes when it holds 127 characters.
abbrev pub push : List ℕ → ℕ → List ℕ
push q c = if ltb (length q) 127 then q ++ c ∷ [] else q

get_or-last :
    (q : List ℕ) (c i : ℕ) → get_or (q ++ c ∷ []) i 0 ≡ (if i == length q then c else get_or q i 0)
get_or-last [] c zero = refl
get_or-last [] c (suc i) = ground arith
get_or-last (x ∷ q) c zero = ground arith
get_or-last (x ∷ q) c (suc i) = ground (arith, get_or-last q c i)

placed :
    (k : Keyboard) (q : List ℕ) (c : ℕ)
    → Queued k q
    → length q < 127
    → (i : ℕ) → i ≤ length q
    → get_or (set k.kbuf k.khead c) ((k.ktail + i) % 128) 0 ≡ get_or (q ++ c ∷ []) i 0
placed k q c h less i le =
    let inside : k.khead < length k.kbuf = omega (arith, h.ends, h.room) in
    let written = get_or-set k.kbuf k.khead ((k.ktail + i) % 128) c 0 inside in
    elim (Bool-cases (i == length q)) [
      | inl last ↦
          let e : i ≡ length q = ground arith in
          let at : (k.khead == (k.ktail + i) % 128) ≡ true = ground (arith, h.ends) in
          rw (written, get_or-last q c i, at, last) refl
      | inr inner ↦
          let ne : i < length q = ground arith in
          let away : (k.khead == (k.ktail + i) % 128) ≡ false =
            ==_ne _ _ (omega (arith, h.ends, h.tail_below)) in
          rw (written, get_or-last q c i, away, inner) (h.stands i ne)
    ]

pub kpush-Queued : (k : Keyboard) (q : List ℕ) (c : ℕ) → Queued k q → Queued (kpush k c) (push q c)
unfolding kpush
kpush-Queued k q c h = elim (Bool-cases (ltb (length q) 127)) [
  | inl free ↦
      let less : length q < 127 = ground arith in
      let next : ((k.khead + 1) % kbd_buf == k.ktail) ≡ false =
        ==_ne _ _ (omega (arith, h.ends, h.tail_below)) in
      rw (next, free)
        (record {
          room = length-set k.kbuf k.khead c ∙ h.room;
          tail_below = h.tail_below;
          short = omega (arith, length-append q (c ∷ []));
          ends = omega (arith, h.ends, length-append q (c ∷ []));
          stands = λ i lt. placed k q c h less i (omega (arith, length-append q (c ∷ [])));
        })
  | inr full ↦
      let all : length q ≡ 127 = ground (arith, h.short) in
      let next : ((k.khead + 1) % kbd_buf == k.ktail) ≡ true =
        ground (arith, h.ends, h.tail_below) in
      rw (next, full) h
]

-- The character that a scancode gives, under the modifiers `m` (shift and caps lock), and the
-- modifiers after it.
abbrev pub modifiers : Bool → Bool → ℕ → Bool × Bool
modifiers shift caps sc =
    if sc == 0x2A || sc == 0x36
    then (true, caps)
    else if sc == 0xAA || sc == 0xB6
    then (false, caps)
    else if sc == 0x3A
    then (shift, not caps)
    else (shift, caps)

-- Whether the code is a key that is pressed and has a character.
abbrev pub prints : Bool → Bool → ℕ → Bool
prints shift caps sc =
    not
      ((sc == 0x2A || sc == 0x36) || ((sc == 0xAA || sc == 0xB6) || ((sc == 0x3A) || leb 0x80 sc)))
    && not (key_char shift caps sc == 0)

-- The queue after the scancodes, and the modifiers.
abbrev pub typed : Bool → Bool → List ℕ → List ℕ → List ℕ × (Bool × Bool)
typed shift caps q [] = (q, (shift, caps))
typed shift caps q (sc ∷ scs) =
    typed (modifiers shift caps sc).0 (modifiers shift caps sc).1
      (if prints shift caps sc then push q (key_char shift caps sc) else q) scs

-- The modifiers have no part in the queue.
modified-Queued :
    (k : Keyboard) (q : List ℕ) (shift caps : Bool)
    → Queued k q
    → Queued (record k { shift = shift; caps = caps }) q
modified-Queued k q shift caps h = record {
  room = h.room;
  tail_below = h.tail_below;
  short = h.short;
  ends = h.ends;
  stands = h.stands;
}

kpush_modifiers :
    (k : Keyboard) (c : ℕ) → ((kpush k c).shift ≡ k.shift) × ((kpush k c).caps ≡ k.caps)
unfolding kpush
kpush_modifiers k c = elim (Bool-cases ((k.khead + 1) % kbd_buf == k.ktail)) [
  | inl e ↦ rw e (refl, refl)
  | inr e ↦ rw e (refl, refl)
]

abbrev Handled : Keyboard → List ℕ → ℕ → Keyboard → Type 0
Handled k q sc k' =
    Queued k' (if prints k.shift k.caps sc then push q (key_char k.shift k.caps sc) else q)
    × ((k'.shift ≡ (modifiers k.shift k.caps sc).0) × (k'.caps ≡ (modifiers k.shift k.caps sc).1))

handle_scancode-Handled :
    (k : Keyboard) (q : List ℕ) (sc : ℕ) → Queued k q → Handled k q sc (handle_scancode k sc)
unfolding handle_scancode
handle_scancode-Handled k q sc h = elim (Bool-cases (sc == 0x2A || sc == 0x36)) [
  | inl a ↦ rw a (modified-Queued k q true k.caps h, (refl, refl))
  | inr a ↦ elim (Bool-cases (sc == 0xAA || sc == 0xB6)) [
    | inl b ↦ rw (a, b) (modified-Queued k q false k.caps h, (refl, refl))
    | inr b ↦ elim (Bool-cases (sc == 0x3A)) [
      | inl c ↦ rw (a, b, c) (modified-Queued k q k.shift (not k.caps) h, (refl, refl))
      | inr c ↦ elim (Bool-cases (leb 0x80 sc)) [
        | inl d ↦ rw (a, b, c, d) (h, (refl, refl))
        | inr d ↦ elim (Bool-cases (key_char k.shift k.caps sc == 0)) [
          | inl e ↦ rw (a, b, c, d, e) (h, (refl, refl))
          | inr e ↦
              rw (a, b, c, d, e)
                (
                  kpush-Queued k q (key_char k.shift k.caps sc) h,
                  kpush_modifiers k (key_char k.shift k.caps sc),
                )
        ]
      ]
    ]
  ]
]

poll-Queued :
    (k : Keyboard) (q : List ℕ) (scs : List ℕ)
    → Queued k q
    → Queued (poll k scs) (typed k.shift k.caps q scs).0
unfolding poll
poll-Queued k q [] h = h
poll-Queued k q (sc ∷ scs) h =
    let (queued, (shift, caps)) = handle_scancode-Handled k q sc h in
    let q' = if prints k.shift k.caps sc then push q (key_char k.shift k.caps sc) else q in
    subst (λ (r : List ℕ × (Bool × Bool)). Queued (poll (handle_scancode k sc) scs) r.0)
      (ap₂ (λ (a b : Bool). typed a b q' scs) shift caps)
      (poll-Queued (handle_scancode k sc) q' scs queued)

-- What `keyboard_try_getc` returns from a queue, and the queue after it.
abbrev pub Got : List ℕ → Option ℕ × Keyboard → Type 0
Got [] r = (r.0 ≡ none) × Queued r.1 []
Got (c ∷ q) r = (r.0 ≡ some c) × Queued r.1 q

get-Got :
    (k : Keyboard) (q : List ℕ)
    → Queued k q
    → Got q (
        if k.khead == k.ktail
        then (none, k)
        else (some (get_or k.kbuf k.ktail 0), record k { ktail = (k.ktail + 1) % kbd_buf }))
get-Got k [] h =
    let e : (k.khead == k.ktail) ≡ true = ground (arith, h.ends, h.tail_below) in rw e (refl, h)
get-Got k (c ∷ q) h =
    let e : (k.khead == k.ktail) ≡ false =
      ==_ne _ _ (omega (arith, h.ends, h.tail_below, h.short)) in
    let first : get_or k.kbuf k.ktail 0 ≡ c =
      let same : (k.ktail + 0) % 128 ≡ k.ktail = omega (arith, h.tail_below) in
      rw same at (h.stands 0 (omega arith)) in
    rw (e, first)
      (
        refl,
        record {
          room = h.room;
          tail_below = omega arith;
          short = omega (arith, h.short);
          ends = omega (arith, h.ends);
          stands = λ i lt.
              let e : ((k.ktail + 1) % 128 + i) % 128 ≡ (k.ktail + suc i) % 128 = omega arith in
              rw e (h.stands (suc i) (omega arith));
        },
      )

-- With the queue `q` in the buffer and the scancodes `scs` waiting in the controller,
-- `keyboard_try_getc` first puts the characters of the waiting codes behind `q`, as far as there is
-- room for 127, and then returns the oldest character and leaves the rest, or nothing from an empty
-- queue.
pub try_getc_fifo :
    (k : Keyboard) (q : List ℕ) (scs : List ℕ)
    → Queued k q
    → Got (typed k.shift k.caps q scs).0 (try_getc k scs)
unfolding try_getc
try_getc_fifo k q scs h = get-Got (poll k scs) _ (poll-Queued k q scs h)
