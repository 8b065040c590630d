-- ===== src/Fat/Tests.antt =====
-- Runs of the file system of one file.
use strixos.Prelude.{ℕ, ◌≡◌, refl, true, false, Option, none, some, [], ◌∷◌}
use strixos.Fat.{Fat, init, open_fat, read_fat, close_fat}

abbrev closed : Fat
closed = init (record { inited = false; fd = none; off = 0 })

-- "/fat.txt"
abbrev opened : Option ℕ × Fat
opened = open_fat closed (47 ∷ 102 ∷ 97 ∷ 116 ∷ 46 ∷ 116 ∷ 120 ∷ 116 ∷ [])

runs :
    (opened.0 ≡ some 3)
    × ((open_fat closed (102 ∷ 97 ∷ 116 ∷ [])).0 ≡ none)
    × ((read_fat opened.1 3 4).0 ≡ some (70 ∷ 65 ∷ 84 ∷ 49 ∷ []))
    × ((read_fat (read_fat opened.1 3 51).1 3 9).0 ≡ some (116 ∷ 10 ∷ []))
    × ((read_fat opened.1 4 4).0 ≡ none)
    × ((close_fat opened.1 3).0 ≡ true)
unfolding init open_fat read_fat close_fat
runs = (refl, refl, refl, refl, refl, refl)
