-- ===== src/Buffer/Tests.antt =====
-- Runs of the loops that move characters.
use strixos.Prelude.{◌≡◌, refl, [], ◌∷◌}
use strixos.Buffer.{move_up, move_down}
use strixos.Buffer.Text.{insert_char}

moved_down : move_down (1 ∷ 2 ∷ 3 ∷ 4 ∷ []) 1 2 1 ≡ 1 ∷ 4 ∷ 3 ∷ 4 ∷ []
unfolding move_down
moved_down = refl

inserted : insert_char (1 ∷ 2 ∷ 3 ∷ 0 ∷ []) 3 1 9 ≡ 1 ∷ 9 ∷ 2 ∷ 3 ∷ []
unfolding move_up
inserted = refl
