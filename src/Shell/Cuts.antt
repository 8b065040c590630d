-- ===== src/Shell/Cuts.antt =====
-- kernel/shell.c: `dispatch` cuts a line into shorter ones, so its recursion ends.
use mathlib.Core.Option.{none-ne-some}
use strixos.Prelude.{
  ℕ, zero, suc, ◌+◌, ◌-◌, ◌≤◌, ◌<◌, ◌≡◌, refl, ◌==◌, inl, inr, Bool-cases, Option, none, some, List,
  [], ◌∷◌, length, length-take, take, arith,
}
use strixos.Shell.{max_line, skip_spaces, trim}
use strixos.Shell.History.{length-skip_spaces, length-trim}
use strixos.Shell.Dispatch.{semicolon, cut_at, Command, read_command, in_order, dispatch}

-- Both sides of the first `;` together are shorter than the line.
Shorter : List ℕ → Option (List ℕ × List ℕ) → Type 0
Shorter s none = Unit
Shorter s (some (left, right)) = length left + length right < length s

cut_at-Shorter : (s : List ℕ) → Shorter s (cut_at s)
unfolding cut_at Shorter
cut_at-Shorter [] = tt
cut_at-Shorter (c ∷ cs) = elim (Bool-cases (c == semicolon)) [
  | inl here ↦ rw (cut_at, here) (omega arith)
  | inr later ↦ rw (cut_at, later) (go (cut_at cs) (cut_at-Shorter cs))
]
  where
    go :
        (o : Option (List ℕ × List ℕ))
        → Shorter cs o
        → Shorter (c ∷ cs) (elim o [ none ↦ none | some (left, right) ↦ some (c ∷ left, right) ])
    go none h = tt
    go (some (left, right)) h = omega (arith, h)

Returns : Option (List Command) → Type 0
Returns o = (commands : List Command) × (o ≡ some commands)

in_order-Returns : (o o' : Option (List Command)) → Returns o → Returns o' → Returns (in_order o o')
unfolding Returns
in_order-Returns none o' (cs, e) r = absurd (none-ne-some _ e)
in_order-Returns (some cs) none r (ds, e) = absurd (none-ne-some _ e)
in_order-Returns (some cs) (some ds) r r' = (_, refl)

-- Fuel above the length of the line is enough for `dispatch`.
dispatch-Returns : (fuel : ℕ) (line : List ℕ) → length line < fuel → Returns (dispatch fuel line)
unfolding dispatch Returns Shorter
dispatch-Returns zero line lt = absurd (omega arith)
dispatch-Returns (suc fuel) line lt =
    by_text (λ s le. dispatch-Returns fuel s le) (skip_spaces line)
      (omega (arith, length-skip_spaces line))
  where
    side : (s : List ℕ) → length (trim (take 127 s)) ≤ length s
    side s = omega (arith, length-trim (take 127 s), length-take 127 s)

    by_text :
        ((s : List ℕ) → length s < fuel → Returns (dispatch fuel s))
        → (p : List ℕ) → length p < suc fuel
        → Returns (elim p [
          | [] ↦ some []
          | c ∷ cs ↦ elim (cut_at (c ∷ cs)) [
            | none ↦ some (read_command (c ∷ cs) ∷ [])
            | some (left, right) ↦
                in_order
                  (dispatch fuel (trim (take (max_line - 1) left)))
                  (dispatch fuel (trim (take (max_line - 1) right)))
          ]
        ])
    by_text ih [] le = ([], refl)
    by_text ih (c ∷ cs) le = by_cut (cut_at (c ∷ cs)) (cut_at-Shorter (c ∷ cs))
      where
        by_cut :
            (o : Option (List ℕ × List ℕ))
            → Shorter (c ∷ cs) o
            → Returns (elim o [
              | none ↦ some (read_command (c ∷ cs) ∷ [])
              | some (left, right) ↦
                  in_order
                    (dispatch fuel (trim (take (max_line - 1) left)))
                    (dispatch fuel (trim (take (max_line - 1) right)))
            ])
        by_cut none h = (_, refl)
        by_cut (some (left, right)) h =
            in_order-Returns _ _ (ih (trim (take 127 left)) (omega (arith, side left, h)))
              (ih (trim (take 127 right)) (omega (arith, side right, h)))
