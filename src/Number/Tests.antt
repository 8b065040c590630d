-- ===== src/Number/Tests.antt =====
-- Numbers in decimal, at concrete values.
use strixos.Prelude.{◌≡◌, refl, none, some, [], ◌∷◌}
use strixos.Number.{decimal, rev_digits}

thousand : decimal 16 1024 ≡ some (49 ∷ 48 ∷ 50 ∷ 52 ∷ [])
unfolding decimal rev_digits
thousand = refl

nothing : decimal 16 0 ≡ some (48 ∷ [])
unfolding decimal rev_digits
nothing = refl

too_long : decimal 3 1024 ≡ none
unfolding decimal rev_digits
too_long = refl
