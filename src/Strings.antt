-- ===== src/Strings.antt =====
-- kernel/string.c: `memcpy`, `memset` and `memcmp`, over the memory as a map from addresses to bytes.
use strixos.Prelude.{
  ℕ, zero, suc, ◌+◌, ◌%◌, ◌≤◌, ◌<◌, ◌≡◌, refl, sym, ◌∙◌, ap, ◌⊎◌, ◌==◌, true, false, Option, none,
  some, arith,
}
use strixos.Elf.{put, copy}
use strixos.Elf.Memory.{copy_inside, copy_outside}

-- `memcpy`, whose loop is that of the loader.
abbrev pub memcpy : (ℕ → ℕ) → ℕ → ℕ → ℕ → ℕ → ℕ
memcpy = copy

-- `memset`
unfoldable pub memset : (ℕ → ℕ) → ℕ → ℕ → ℕ → ℕ → ℕ
memset m s c zero = m
memset m s c (suc n) = memset (put m s (c % 256)) (s + 1) c n

-- `memcmp`: the first two bytes that differ, whose difference is the result, or `none` for the result 0.
unfoldable pub memcmp : (ℕ → ℕ) → ℕ → ℕ → ℕ → Option (ℕ × ℕ)
memcmp m p q zero = none
memcmp m p q (suc n) = elim (m p == m q) [
  | false ↦ some (m p, m q)
  | true ↦ memcmp m (p + 1) (q + 1) n
]

-- Bytes that are equal pair by pair compare equal.
memcmp_equal :
    (m : ℕ → ℕ) (p q n : ℕ) → ((k : ℕ) → k < n → m (p + k) ≡ m (q + k)) → memcmp m p q n ≡ none
unfolding memcmp
memcmp_equal m p q zero same = refl
memcmp_equal m p q (suc n) same =
    let zp : p + 0 ≡ p = omega arith in
    let zq : q + 0 ≡ q = omega arith in
    let first : m p ≡ m q = ap m (sym zp) ∙ same 0 (omega arith) ∙ ap m zq in
    let e : (m p == m q) ≡ true = ground (arith, first) in
    rw (memcmp, e)
      (memcmp_equal m (p + 1) (q + 1) n (λ k lt.
        let ep : p + suc k ≡ p + 1 + k = omega arith in
        let eq : q + suc k ≡ q + 1 + k = omega arith in
        ap m (sym ep) ∙ same (suc k) (omega arith) ∙ ap m eq))

-- Behind a copy between two places that do not overlap, the places compare equal.
pub memcmp-memcpy :
    (m : ℕ → ℕ) (dst src n : ℕ)
    → (src + n ≤ dst) ⊎ (dst + n ≤ src)
    → memcmp (memcpy m dst src n) dst src n ≡ none
memcmp-memcpy m dst src n apart = memcmp_equal (memcpy m dst src n) dst src n (λ k lt.
    copy_inside m dst src n k apart lt
    ∙ sym (copy_outside m dst src n (src + k) (ground (arith, apart))))
