-- ===== src/Keyboard/Tests.antt =====
-- Runs of the keyboard, and its theorems at a buffer of two characters that wraps.
use strixos.Prelude.{
  get_or, zero, suc, ◌%◌, ℕ, ◌+◌, ◌<◌, ◌≡◌, refl, true, false, some, [], ◌∷◌, replicate, set, arith,
}
use strixos.Keyboard.{Keyboard, try_getc, poll, handle_scancode, kpush, key_char, has_char}
use strixos.Keyboard.Ring.{Queued, Got, typed, try_getc_fifo}

-- The characters 'h' and 'i', at 127 and 0.
abbrev two : Keyboard
two = record {
  kbuf = set (set (replicate 128 0) 127 104) 0 105;
  khead = 1;
  ktail = 127;
  shift = false;
  caps = true;
}

two-Queued : Queued two (104 ∷ 105 ∷ [])
two-Queued = record {
  room = refl;
  tail_below = omega arith;
  short = omega arith;
  ends = refl;
  stands = places;
}
  where
    places : (i : ℕ) → i < 2 → get_or two.kbuf ((127 + i) % 128) 0 ≡ get_or (104 ∷ 105 ∷ []) i 0
    places zero lt = refl
    places (suc zero) lt = refl
    places (suc (suc i)) lt = absurd (omega arith)

-- Shift is pressed, then 'a', with caps lock on.
try_getc_fifo_example :
    Got (typed false true (104 ∷ 105 ∷ []) (0x2A ∷ 0x1E ∷ [])).0 (try_getc two (0x2A ∷ 0x1E ∷ []))
try_getc_fifo_example = try_getc_fifo two (104 ∷ 105 ∷ []) (0x2A ∷ 0x1E ∷ []) two-Queued

typed_run :
    (typed false true (104 ∷ 105 ∷ []) (0x2A ∷ 0x1E ∷ 0xAA ∷ 0x1E ∷ [])).0
    ≡ 104 ∷ 105 ∷ 97 ∷ 65 ∷ []
unfolding key_char
typed_run = refl

try_getc_run : (try_getc two (0x2A ∷ 0x1E ∷ [])).0 ≡ some 104
unfolding try_getc poll handle_scancode kpush key_char
try_getc_run = refl

has_char_run : (has_char two []).0 ≡ true
unfolding has_char poll
has_char_run = refl
