-- ===== src/Elf/Memory.antt =====
-- What the copying of a segment does to the memory.
use strixos.Prelude.{
  ℕ, zero, suc, ◌+◌, ◌*◌, ◌≤◌, ◌<◌, ◌≡◌, ◌≢◌, refl, ◌∙◌, ap₂, ◌⊎◌, inl, ◌==◌, ==_ne, ==_refl, true,
  false, arith,
}
use strixos.Syscall.{number_at}
use strixos.Elf.{segment_at, put, copy, clear_bytes}

put_ne : (m : ℕ → ℕ) (p v a : ℕ) → a ≢ p → put m p v a ≡ m a
put_ne m p v a ne = let e : (a == p) ≡ false = ==_ne a p ne in rw e refl

put_self : (m : ℕ → ℕ) (p v : ℕ) → put m p v p ≡ v
put_self m p v = let e : (p == p) ≡ true = ==_refl p in rw e refl

pub copy_outside :
    (m : ℕ → ℕ) (dst src n a : ℕ) → (a < dst) ⊎ (dst + n ≤ a) → copy m dst src n a ≡ m a
unfolding copy
copy_outside m dst src zero a out = refl
copy_outside m dst src (suc n) a out =
    copy_outside (put m dst (m src)) (dst + 1) (src + 1) n a (ground (arith, out))
    ∙ put_ne m dst (m src) a (ground (arith, out))

pub copy_inside :
    (m : ℕ → ℕ) (dst src n k : ℕ)
    → (src + n ≤ dst) ⊎ (dst + n ≤ src)
    → k < n
    → copy m dst src n (dst + k) ≡ m (src + k)
unfolding copy
copy_inside m dst src zero k apart lt = absurd (omega arith)
copy_inside m dst src (suc n) zero apart lt =
    let d : dst + 0 ≡ dst = omega arith in
    let s : src + 0 ≡ src = omega arith in
    rw (d, s)
      (copy_outside (put m dst (m src)) (dst + 1) (src + 1) n dst (inl (omega arith))
        ∙ put_self m dst (m src))
copy_inside m dst src (suc n) (suc k) apart lt =
    let d : dst + suc k ≡ dst + 1 + k = omega arith in
    let s : src + suc k ≡ src + 1 + k = omega arith in
    rw (d, s)
      (copy_inside (put m dst (m src)) (dst + 1) (src + 1) n k (ground (arith, apart)) (omega arith)
        ∙ put_ne m dst (m src) (src + 1 + k) (ground (arith, apart)))

pub clear_outside :
    (m : ℕ → ℕ) (dst n a : ℕ) → (a < dst) ⊎ (dst + n ≤ a) → clear_bytes m dst n a ≡ m a
unfolding clear_bytes
clear_outside m dst zero a out = refl
clear_outside m dst (suc n) a out =
    clear_outside (put m dst 0) (dst + 1) n a (ground (arith, out))
    ∙ put_ne m dst 0 a (ground (arith, out))

pub clear_inside : (m : ℕ → ℕ) (dst n k : ℕ) → k < n → clear_bytes m dst n (dst + k) ≡ 0
unfolding clear_bytes
clear_inside m dst zero k lt = absurd (omega arith)
clear_inside m dst (suc n) zero lt =
    let d : dst + 0 ≡ dst = omega arith in
    rw d (clear_outside (put m dst 0) (dst + 1) n dst (inl (omega arith)) ∙ put_self m dst 0)
clear_inside m dst (suc n) (suc k) lt =
    let d : dst + suc k ≡ dst + 1 + k = omega arith in
    rw d (clear_inside (put m dst 0) (dst + 1) n k (omega arith))

-- Two memories agree on `n` bytes from `p` on.
abbrev pub Agree : (ℕ → ℕ) → (ℕ → ℕ) → ℕ → ℕ → Type 0
Agree m m' p n = (a : ℕ) → p ≤ a → a < p + n → m' a ≡ m a

pub number_at-Agree :
    (m m' : ℕ → ℕ) (lo size p n : ℕ)
    → Agree m m' lo size
    → lo ≤ p
    → p + n ≤ lo + size
    → number_at m' p n ≡ number_at m p n
unfolding number_at
number_at-Agree m m' lo size p zero same low high = refl
number_at-Agree m m' lo size p (suc n) same low high =
    ap₂ (λ (b r : ℕ). b + 256 * r) (same p low (omega arith))
      (number_at-Agree m m' lo size (p + 1) n same (omega arith) (omega arith))

-- An entry that lies where the memories agree.
pub segment_at-Agree :
    (m m' : ℕ → ℕ) (lo size ph i : ℕ)
    → Agree m m' lo size
    → lo ≤ ph
    → ph + 56 * (i + 1) ≤ lo + size
    → segment_at m' ph i ≡ segment_at m ph i
unfolding segment_at
segment_at-Agree m m' lo size ph i same low high =
    let field : (o n : ℕ)
        → o + n ≤ 56
        → number_at m' (ph + 56 * i + o) n ≡ number_at m (ph + 56 * i + o) n =
      λ o n le. number_at-Agree m m' lo size (ph + 56 * i + o) n same (omega arith) (omega arith) in
    let first : number_at m' (ph + 56 * i) 4 ≡ number_at m (ph + 56 * i) 4 =
      number_at-Agree m m' lo size (ph + 56 * i) 4 same (omega arith) (omega arith) in
    rw
      (
        first,
        field 8 8 (omega arith),
        field 16 8 (omega arith),
        field 32 8 (omega arith),
        field 40 8 (omega arith),
      )
      refl
