-- ===== src/Keyboard/Codes.antt =====
-- The tables of characters against the modifiers.
use strixos.Prelude.{
  ℕ, ◌-◌, ◌<◌, ◌≡◌, refl, ◌==◌, if◌then◌else◌, Bool, true, false, not, get_or, arith, passes,
  passes-at,
}
use strixos.Keyboard.{sc_ascii, sc_ascii_shift, is_lower, key_char}

abbrev differ : Bool → Bool → Bool
differ true b = not b
differ false b = b

-- The character that a key should give.
abbrev pub wanted : Bool → Bool → ℕ → ℕ
wanted shift caps sc =
    let base = get_or sc_ascii sc 0 in
    if is_lower base
    then (if differ shift caps then base - 32 else base)
    else get_or (if shift then sc_ascii_shift else sc_ascii) sc 0

abbrev agrees : Bool → Bool → ℕ → Bool
agrees shift caps sc = key_char shift caps sc == wanted shift caps sc

table : (shift caps : Bool) → passes (agrees shift caps) 128 ≡ true
unfolding passes key_char
table true true = refl
table true false = refl
table false true = refl
table false false = refl

==-eq : (a b : ℕ) → (a == b) ≡ true → a ≡ b
==-eq a b e = ground arith

-- For every code of a pressed key and both modifiers: a letter key gives the capital letter exactly if
-- one of shift and caps lock is on but not both, and any other key depends on shift alone.
pub key_char-wanted :
    (shift caps : Bool) (sc : ℕ) → sc < 128 → key_char shift caps sc ≡ wanted shift caps sc
key_char-wanted shift caps sc lt =
    ==-eq (key_char shift caps sc) (wanted shift caps sc)
      (passes-at (agrees shift caps) 128 {k = sc} (table shift caps) lt)
