-- ===== src/Prelude/Bytes.antt =====
-- Single bits of a byte, by tables over all its values.
use Prim.Native.Nat.{ℕ, zero, suc, ◌-◌, ◌^◌, ◌<◌, bit_and, bit_or, bit_and-bitwise}
use mathlib.Core.Path.{◌≡◌, refl, sym}
use mathlib.Core.Bool.{Bool, true, false, ◌&&◌, not}
use native.Mathlib.Omega.{arith}
use strixos.Prelude.Tests.{◌==◌, ltb, ltb→lt, if◌then◌else◌}

-- A test that every value below `n` passes.
unfoldable pub passes : (ℕ → Bool) → ℕ → Bool
passes t zero = true
passes t (suc m) = t m && passes t m

pub passes-at : (t : ℕ → Bool) (n : ℕ) {k : ℕ} → passes t n ≡ true → k < n → t k ≡ true
unfolding passes
passes-at t zero e below = absurd (omega arith)
passes-at t (suc m) {k} e below = ground (arith, passes-at t m {k = k})

-- `b & (1 << k)`, as a condition.
unfoldable pub test_bit : ℕ → ℕ → Bool
test_bit b k = not (bit_and b (2 ^ k) == 0)

-- `b | (1 << k)`
unfoldable pub set_bit : ℕ → ℕ → ℕ
set_bit b k = bit_or b (2 ^ k)

-- `b & ~(1 << k)`, in a byte.
unfoldable pub clear_bit : ℕ → ℕ → ℕ
clear_bit b k = bit_and b (255 - 2 ^ k)

abbrev same : Bool → Bool → Bool
same true b = b
same false b = not b

same→eq : (a b : Bool) → same a b ≡ true → a ≡ b
same→eq true true h = refl
same→eq true false h = sym h
same→eq false true h = cc
same→eq false false h = refl

abbrev bit_table : (ℕ → ℕ → ℕ → Bool) → Bool
bit_table p = passes (λ k. passes (λ j. passes (λ b. p b k j) 256) 8) 8

bit_table_sound :
    (p : ℕ → ℕ → ℕ → Bool) (b k j : ℕ)
    → bit_table p ≡ true
    → b < 256
    → k < 8
    → j < 8
    → p b k j ≡ true
bit_table_sound p b k j h hb hk hj =
    passes-at (λ b. p b k j) 256
      (passes-at (λ j. passes (λ b. p b k j) 256) 8
        (passes-at (λ k. passes (λ j. passes (λ b. p b k j) 256) 8) 8 h hk) hj)
      hb

set_table :
    bit_table (λ b k j. same (test_bit (set_bit b k) j) (if k == j then true else test_bit b j))
    ≡ true
unfolding passes test_bit set_bit
set_table = refl

clear_table :
    bit_table (λ b k j. same (test_bit (clear_bit b k) j) (if k == j then false else test_bit b j))
    ≡ true
unfolding passes test_bit clear_bit
clear_table = refl

range_table : bit_table (λ b k j. ltb (set_bit b k) 256 && ltb (clear_bit b k) 256) ≡ true
unfolding passes set_bit clear_bit
range_table = refl

pub test_bit-set_bit :
    (b k j : ℕ)
    → b < 256
    → k < 8
    → j < 8
    → test_bit (set_bit b k) j ≡ (if k == j then true else test_bit b j)
test_bit-set_bit b k j hb hk hj = same→eq _ _ (bit_table_sound _ b k j set_table hb hk hj)

pub test_bit-clear_bit :
    (b k j : ℕ)
    → b < 256
    → k < 8
    → j < 8
    → test_bit (clear_bit b k) j ≡ (if k == j then false else test_bit b j)
test_bit-clear_bit b k j hb hk hj = same→eq _ _ (bit_table_sound _ b k j clear_table hb hk hj)

and_left : (a b : Bool) → (a && b) ≡ true → a ≡ true
and_left a b h = ground arith

and_right : (a b : Bool) → (a && b) ≡ true → b ≡ true
and_right a b h = ground arith

pub set_bit-lt : (b k : ℕ) → b < 256 → k < 8 → set_bit b k < 256
set_bit-lt b k hb hk =
    ltb→lt _ _ (and_left _ _ (bit_table_sound _ b k 0 range_table hb hk (omega arith)))

pub clear_bit-lt : (b k : ℕ) → b < 256 → k < 8 → clear_bit b k < 256
clear_bit-lt b k hb hk =
    ltb→lt _ _ (and_right _ _ (bit_table_sound _ b k 0 range_table hb hk (omega arith)))

pub test_bit-zero : (k : ℕ) → test_bit 0 k ≡ false
unfolding test_bit
test_bit-zero k = rw (bit_and-bitwise 0 (2 ^ k)) refl
