-- ===== src/Pic.antt =====
-- kernel/pic.c: the masks of the two interrupt controllers. What a controller's data port holds is a
-- byte of the state.
mod Tests
use strixos.Prelude.{
  ℕ, ◌-◌, ◌%◌, ◌≤◌, ◌<◌, ◌≡◌, refl, ◌==◌, ltb, if◌then◌else◌, Bool, true, false, Bool-cases, inl,
  inr, ◌⊎◌, test_bit, set_bit, clear_bit, test_bit-set_bit, test_bit-clear_bit, set_bit-lt,
  clear_bit-lt, arith,
}

pub record Pic : Type 0 where
  pub data1 : ℕ
  pub data2 : ℕ

-- `pic_set_mask`
unfoldable pub set_mask : Pic → ℕ → Pic
set_mask p irq =
    if ltb irq 8
    then record p { data1 = set_bit p.data1 (irq % 8) }
    else record p { data2 = set_bit p.data2 (irq % 8) }

-- `pic_clear_mask`
unfoldable pub clear_mask : Pic → ℕ → Pic
clear_mask p irq =
    if ltb irq 8
    then record p { data1 = clear_bit p.data1 (irq % 8) }
    else record p { data2 = clear_bit p.data2 (irq % 8) }

-- Whether the line is masked.
abbrev pub is_masked : Pic → ℕ → Bool
is_masked p irq = test_bit (if ltb irq 8 then p.data1 else p.data2) (irq % 8)

pub record AreBytes (p : Pic) : Type 0 where
  pub first : p.data1 < 256
  pub second : p.data2 < 256

set_mask_line :
    (p : Pic) (irq j : ℕ)
    → AreBytes p
    → irq < 16
    → j < 16
    → is_masked (set_mask p irq) j ≡ (if irq == j then true else is_masked p j)
unfolding set_mask
set_mask_line p irq j v hi hj = ground (
  arith,
  v.first,
  v.second,
  test_bit-set_bit p.data1 (irq % 8) (j % 8) v.first (omega arith) (omega arith),
  test_bit-set_bit p.data2 (irq % 8) (j % 8) v.second (omega arith) (omega arith),
)

clear_mask_line :
    (p : Pic) (irq j : ℕ)
    → AreBytes p
    → irq < 16
    → j < 16
    → is_masked (clear_mask p irq) j ≡ (if irq == j then false else is_masked p j)
unfolding clear_mask
clear_mask_line p irq j v hi hj = ground (
  arith,
  v.first,
  v.second,
  test_bit-clear_bit p.data1 (irq % 8) (j % 8) v.first (omega arith) (omega arith),
  test_bit-clear_bit p.data2 (irq % 8) (j % 8) v.second (omega arith) (omega arith),
)

-- On masks that are bytes, for two of the 16 lines: `pic_set_mask` masks its line, `pic_clear_mask`
-- unmasks its line, and neither touches another line; the masks stay bytes.
pub mask_lem :
    (p : Pic) (irq j : ℕ)
    → AreBytes p
    → irq < 16
    → j < 16
    → (is_masked (set_mask p irq) j ≡ (if irq == j then true else is_masked p j))
      × (is_masked (clear_mask p irq) j ≡ (if irq == j then false else is_masked p j))
      × AreBytes (set_mask p irq)
      × AreBytes (clear_mask p irq)
unfolding set_mask clear_mask
mask_lem p irq j v hi hj = (
  set_mask_line p irq j v hi hj,
  clear_mask_line p irq j v hi hj,
  elim (Bool-cases (ltb irq 8)) [
    | inl low ↦
        rw low
          (record { first = set_bit-lt p.data1 (irq % 8) v.first (omega arith); second = v.second })
    | inr high ↦
        rw high
          (record { first = v.first; second = set_bit-lt p.data2 (irq % 8) v.second (omega arith) })
  ],
  elim (Bool-cases (ltb irq 8)) [
    | inl low ↦
        rw low (record {
          first = clear_bit-lt p.data1 (irq % 8) v.first (omega arith);
          second = v.second;
        })
    | inr high ↦
        rw high (record {
          first = v.first;
          second = clear_bit-lt p.data2 (irq % 8) v.second (omega arith);
        })
  ],
)
