-- ===== src/Pmm/Run/Mark.antt =====
-- The loop of `pmm_alloc_pages` that sets the bits of a run.
use strixos.Prelude.{
  ℕ, zero, suc, ◌+◌, ◌*◌, ◌≤◌, ◌≡◌, refl, ◌∙◌, leb, ltb, if◌then◌else◌, ◌&&◌, true, false, List,
  length, arith,
}
use strixos.Pmm.{bmp_test, bmp_set, set_run}
use strixos.Pmm.Bitmap.{AreBytes, bmp_test-bmp_set, length-bmp_set, bmp_set-AreBytes}
use strixos.Pmm.Invariant.{count, count-update}
use strixos.Pmm.Run.Search.{IsClear}

pub length-set_run : (n : ℕ) (bm : List ℕ) (i : ℕ) → length (set_run bm i n) ≡ length bm
unfolding set_run
length-set_run zero bm i = refl
length-set_run (suc n) bm i = length-set_run n (bmp_set bm i) (i + 1) ∙ length-bmp_set bm i

pub set_run-AreBytes : (n : ℕ) (bm : List ℕ) (i : ℕ) → AreBytes bm → AreBytes (set_run bm i n)
unfolding set_run
set_run-AreBytes zero bm i h = h
set_run-AreBytes (suc n) bm i h =
    set_run-AreBytes n (bmp_set bm i) (i + 1) (bmp_set-AreBytes bm i h)

pub bmp_test-set_run :
    (n : ℕ) (bm : List ℕ) (i j : ℕ)
    → AreBytes bm
    → i + n ≤ 8 * length bm
    → bmp_test (set_run bm i n) j ≡ (if leb i j && ltb j (i + n) then true else bmp_test bm j)
unfolding set_run
bmp_test-set_run zero bm i j h le = ground arith
bmp_test-set_run (suc n) bm i j h le = ground (
  arith,
  bmp_test-set_run n (bmp_set bm i) (i + 1) j (bmp_set-AreBytes bm i h)
      (omega (arith, length-bmp_set bm i)),
  bmp_test-bmp_set bm i j h (omega arith),
)

pub count-set_run :
    (n : ℕ) (bm : List ℕ) (i total : ℕ)
    → AreBytes bm
    → total ≤ 8 * length bm
    → i + n ≤ total
    → IsClear bm i n
    → count (bmp_test (set_run bm i n)) total ≡ count (bmp_test bm) total + n
unfolding set_run
count-set_run zero bm i total h room le clear = omega arith
count-set_run (suc n) bm i total h room le clear =
    let one : count (bmp_test (bmp_set bm i)) total ≡ count (bmp_test bm) total + 1 = ground (
      arith,
      count-update (bmp_test bm) (bmp_test (bmp_set bm i)) i true
          (λ j. bmp_test-bmp_set bm i j h (omega arith)) total (omega arith),
      first,
    ) in
    omega (
      arith,
      one,
      count-set_run n (bmp_set bm i) (i + 1) total (bmp_set-AreBytes bm i h)
          (omega (arith, length-bmp_set bm i)) (omega arith) rest,
    )
  where
    first : bmp_test bm i ≡ false
    first = let e : i + 0 ≡ i = omega arith in rw e at (clear 0 (omega arith))

    rest : IsClear (bmp_set bm i) (i + 1) n
    rest j lt =
        let e : i + 1 + j ≡ i + suc j = omega arith in
        rw e (
          ground
            (arith, bmp_test-bmp_set bm i (i + suc j) h (omega arith), clear (suc j) (omega arith)))
