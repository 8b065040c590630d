-- ===== src/Pmm/Bitmap.antt =====
-- The bitmap of kernel/pmm.c as a set of page numbers.
use strixos.Prelude.{
  ℕ, ◌*◌, ◌/◌, ◌%◌, ◌<◌, ◌≡◌, ◌==◌, if◌then◌else◌, true, false, List, length, get_or, get_or-set,
  length-set, All, All-set, All-get_or, get_or-replicate, replicate, set_bit, clear_bit,
  test_bit-set_bit, test_bit-clear_bit, set_bit-lt, test_bit-zero, clear_bit-lt, arith,
}
use strixos.Pmm.{bmp_set, bmp_clear, bmp_test}

abbrev pub AreBytes : List ℕ → Type 0
AreBytes = All (λ b. b < 256)

byte-lt : (bm : List ℕ) (i : ℕ) → AreBytes bm → get_or bm i 0 < 256
byte-lt bm i h = All-get_or _ bm i 0 h (omega arith)

pub length-bmp_set : (bm : List ℕ) (i : ℕ) → length (bmp_set bm i) ≡ length bm
unfolding bmp_set
length-bmp_set bm i = length-set bm _ _

pub length-bmp_clear : (bm : List ℕ) (i : ℕ) → length (bmp_clear bm i) ≡ length bm
unfolding bmp_clear
length-bmp_clear bm i = length-set bm _ _

pub bmp_set-AreBytes : (bm : List ℕ) (i : ℕ) → AreBytes bm → AreBytes (bmp_set bm i)
unfolding bmp_set
bmp_set-AreBytes bm i h = All-set _ bm _ _ h (set_bit-lt _ _ (byte-lt bm (i / 8) h) (omega arith))

pub bmp_clear-AreBytes : (bm : List ℕ) (i : ℕ) → AreBytes bm → AreBytes (bmp_clear bm i)
unfolding bmp_clear
bmp_clear-AreBytes bm i h =
    All-set _ bm _ _ h (clear_bit-lt _ _ (byte-lt bm (i / 8) h) (omega arith))

module _ (bm : List ℕ) (i j : ℕ) (h : AreBytes bm) (lt : i < 8 * length bm) where
  -- Setting the bit of a page puts that page into the set, and no other.
  pub bmp_test-bmp_set : bmp_test (bmp_set bm i) j ≡ (if i == j then true else bmp_test bm j)
  unfolding bmp_set bmp_test
  bmp_test-bmp_set = ground (
    arith,
    get_or-set bm (i / 8) (j / 8) (set_bit (get_or bm (i / 8) 0) (i % 8)) 0 (omega arith),
    test_bit-set_bit (get_or bm (i / 8) 0) (i % 8) (j % 8) (byte-lt bm (i / 8) h),
  )

  -- Clearing it takes that page out, and no other.
  pub bmp_test-bmp_clear : bmp_test (bmp_clear bm i) j ≡ (if i == j then false else bmp_test bm j)
  unfolding bmp_clear bmp_test
  bmp_test-bmp_clear = ground (
    arith,
    get_or-set bm (i / 8) (j / 8) (clear_bit (get_or bm (i / 8) 0) (i % 8)) 0 (omega arith),
    test_bit-clear_bit (get_or bm (i / 8) 0) (i % 8) (j % 8) (byte-lt bm (i / 8) h),
  )

pub bmp_test-replicate : (n j : ℕ) → bmp_test (replicate n 0) j ≡ false
unfolding bmp_test
bmp_test-replicate n j = rw (get_or-replicate {A = ℕ} n (j / 8) 0) (test_bit-zero _)
