-- ===== src/Fat/Read.antt =====
-- Reading the file to its end.
use strixos.Prelude.{
  ℕ, ◌+◌, ◌-◌, ◌^◌, ◌≤◌, ◌<◌, ◌≡◌, refl, ap, ltb, leb, if◌then◌else◌, some, List, [], ◌∷◌, take,
  drop, min, add64, sub64, sym, leb→le, Bool-cases, inl, inr, arith,
}
use strixos.Fat.{Fat, fake_data, read_fat}

-- A read of less than 2^63 bytes behind `off` of them gives the next bytes, as many as are left, and goes on
-- behind these.
pub read_fat_lem :
    (f : Fat) (len : ℕ)
    → f.off ≤ 53
    → len < 2 ^ 63
    → ((read_fat f 3 len).0 ≡ some (take (min len (53 - f.off)) (drop f.off fake_data)))
      × ((read_fat f 3 len).1.off ≡ f.off + min len (53 - f.off))
unfolding read_fat
read_fat_lem f len inside few = elim (Bool-cases (leb 53 f.off)) [
  | inl ended ↦
      let nothing : min len (53 - f.off) ≡ 0 = omega (arith, leb→le 53 f.off ended) in
      (
        rw (read_fat, ended, nothing) (ap some (sym (take_none (drop f.off fake_data)))),
        rw (read_fat, ended, nothing) (omega arith),
      )
  | inr more ↦
      let left : (if ltb 53 (add64 f.off len) then sub64 53 f.off else len) ≡ min len (53 - f.off) =
        ground arith in
      let on : add64 f.off (min len (53 - f.off)) ≡ f.off + min len (53 - f.off) = omega arith in
      (rw (read_fat, more, left) refl, rw (read_fat, more, left) on)
]
  where
    take_none : (h : List ℕ) → take 0 h ≡ []
    take_none [] = refl
    take_none (c ∷ h) = refl
