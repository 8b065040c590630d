-- ===== src/Screen/Print.antt =====
-- kernel/main.c and kernel/fb.c: numbers on the text screen, and text in a colour of 24 bits, which goes
-- through an escape sequence.
use strixos.Prelude.{
  ℕ, zero, suc, ◌+◌, ◌/◌, ◌%◌, ◌^◌, ◌≤◌, ◌<◌, ◌≡◌, refl, ltb, if◌then◌else◌, Option, none, some,
  List, [], ◌∷◌, ◌++◌, length, All, arith,
}
use strixos.Number.{decimal, Digit, read_number, read_number-decimal}
use strixos.Screen.{Screen, puts}

-- `vga_putdec`
unfoldable pub putdec : Screen → ℕ → Option Screen
putdec s v = elim (decimal 20 v) [ none ↦ none | some ds ↦ some (puts s ds) ]

abbrev pub hex_char : ℕ → ℕ
hex_char d = if ltb d 10 then 48 + d else 55 + d

-- The digits of `vga_puthex`, `n` of them.
unfoldable pub hex_digits : ℕ → ℕ → List ℕ
hex_digits zero v = []
hex_digits (suc n) v = hex_char (v / 16 ^ n % 16) ∷ hex_digits n v

-- `vga_puthex`
unfoldable pub puthex : Screen → ℕ → Screen
puthex s v = puts (puts s (48 ∷ 120 ∷ [])) (hex_digits 16 v)

-- The escape sequence of a colour, `38` for the text and `48` for what is behind it: `tens` is the 3 or the 4.
unfoldable pub rgb_sequence : ℕ → ℕ → ℕ → ℕ → Option (List ℕ)
rgb_sequence tens r g b = elim (decimal 4 r) [
  | none ↦ none
  | some rs ↦ elim (decimal 4 g) [
    | none ↦ none
    | some gs ↦ elim (decimal 4 b) [
      | none ↦ none
      | some bs ↦
          some
            (27 ∷ 91 ∷ tens ∷ 56 ∷ 59 ∷ 50 ∷ 59 ∷ (rs ++ (59 ∷ (gs ++ (59 ∷ (bs ++ (109 ∷ [])))))))
    ]
  ]
]

-- `rgb_print`, on the text screen.
unfoldable pub rgb_print : Screen → List ℕ → ℕ → ℕ → ℕ → Option Screen
rgb_print s text r g b = elim (rgb_sequence 51 r g b) [
  | none ↦ none
  | some seq ↦ some (puts (puts (puts s seq) text) (27 ∷ 91 ∷ 48 ∷ 109 ∷ []))
]

-- `rgb_print_bg`
unfoldable pub rgb_print_bg : Screen → List ℕ → ℕ × (ℕ × ℕ) → ℕ × (ℕ × ℕ) → Option Screen
rgb_print_bg s text (r, (g, b)) (br, (bg, bb)) = elim (rgb_sequence 51 r g b) [
  | none ↦ none
  | some seq ↦ elim (rgb_sequence 52 br bg bb) [
    | none ↦ none
    | some back ↦ some (puts (puts (puts (puts s seq) back) text) (27 ∷ 91 ∷ 48 ∷ 109 ∷ []))
  ]
]

-- `vga_putdec` prints every number of 64 bits: its 20 bytes are enough, and what it sends to the screen are digits
-- that read back to the number.
pub putdec_lem :
    (s : Screen) (v : ℕ)
    → v < 2 ^ 64
    → (ds : List ℕ) × ((putdec s v ≡ some (puts s ds))
        × ((read_number 0 ds ≡ v) × (All Digit ds × ((0 < length ds) × (length ds ≤ 20)))))
unfolding putdec
putdec_lem s v lt =
    let (ds, (e, rest)) = read_number-decimal 20 v (omega arith) (omega arith) in
    (ds, (printed ds e, rest))
  where
    printed : (ds : List ℕ) → decimal 20 v ≡ some ds → putdec s v ≡ some (puts s ds)
    printed ds e = rw (putdec, e) refl
