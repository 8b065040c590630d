-- ===== src/Heap/Blocks.antt =====
-- The heap as its client sees it: a sequence of blocks, each in use or free, with no addresses.
use strixos.Prelude.{
  ℕ, ◌+◌, ◌-◌, ◌≡◌, refl, leb, if◌then◌else◌, Bool, true, false, ◌&&◌, List, [], ◌∷◌, ◌++◌, arith,
  Bool-cases, inl, inr,
}

pub record Block : Type 0 where
  pub size : ℕ
  pub free : Bool

-- Bytes that a sequence of blocks takes, headers included.
abbrev pub span : List Block → ℕ
span [] = 0
span (b ∷ bs) = 24 + b.size + span bs

abbrev pub fits : ℕ → Block → Bool
fits r b = b.free && leb r b.size

-- A block taken for `r` bytes, with the rest split off where it is large enough.
abbrev pub taken : ℕ → Block → List Block
taken r b =
    if leb (r + 40) b.size
    then record { size = r; free = false } ∷ record { size = b.size - r - 24; free = true } ∷ []
    else record b { free = false } ∷ []

-- The block with a free one behind it.
abbrev pub with_next : Block → List Block → List Block
with_next b [] = record b { free = true } ∷ []
with_next b (c ∷ cs) =
    if c.free
    then record { size = b.size + (24 + c.size); free = true } ∷ cs
    else record b { free = true } ∷ c ∷ cs

-- A free block joins a free one in front of it.
abbrev pub with_prev : List Block → List Block → List Block
with_prev [] bs = bs
with_prev (z ∷ []) [] = z ∷ []
with_prev (z ∷ []) (b ∷ bs) =
    if z.free then record z { size = z.size + (24 + b.size) } ∷ bs else z ∷ b ∷ bs
with_prev (z ∷ w ∷ zs) bs = z ∷ with_prev (w ∷ zs) bs

-- The sequence after the block `b` behind `xs` and before `ys` is freed.
abbrev pub freed : List Block → Block → List Block → List Block
freed xs b ys = with_prev xs (with_next b ys)

-- No two free blocks stand side by side.
abbrev pub IsCoalesced : List Block → Type 0
IsCoalesced [] = Unit {0}
IsCoalesced (b ∷ []) = Unit {0}
IsCoalesced (b ∷ c ∷ bs) = ((b.free && c.free) ≡ false) × IsCoalesced (c ∷ bs)

pub span-append : (xs ys : List Block) → span (xs ++ ys) ≡ span xs + span ys
span-append [] ys = omega arith
span-append (x ∷ xs) ys = omega (arith, span-append xs ys)

pub span-taken : (r : ℕ) (b : Block) → span (taken r b) ≡ 24 + b.size
span-taken r b = ground arith

pub span-with_next : (b : Block) (ys : List Block) → span (with_next b ys) ≡ span (b ∷ ys)
span-with_next b [] = omega arith
span-with_next b (c ∷ cs) = ground arith

span-with_prev : (xs bs : List Block) → span (with_prev xs bs) ≡ span xs + span bs
span-with_prev [] bs = omega arith
span-with_prev (z ∷ []) [] = omega arith
span-with_prev (z ∷ []) (b ∷ bs) = ground arith
span-with_prev (z ∷ w ∷ zs) bs = omega (arith, span-with_prev (w ∷ zs) bs)

-- Freeing a block loses no byte of the heap.
pub span-freed :
    (xs : List Block) (b : Block) (ys : List Block) → span (freed xs b ys) ≡ span (xs ++ b ∷ ys)
span-freed xs b ys =
    omega (arith, span-with_prev xs (with_next b ys), span-with_next b ys, span-append xs (b ∷ ys))

Coalesced-tail : (b : Block) (bs : List Block) → IsCoalesced (b ∷ bs) → IsCoalesced bs
Coalesced-tail b [] h = tt
Coalesced-tail b (c ∷ bs) h = h.1

with_next-IsCoalesced :
    (b : Block) (ys : List Block) → IsCoalesced (b ∷ ys) → IsCoalesced (with_next b ys)
with_next-IsCoalesced b [] h = tt
with_next-IsCoalesced b (c ∷ []) h = ground arith
with_next-IsCoalesced b (c ∷ d ∷ ds) h = ground arith

with_prev-head :
    (w : Block) (zs bs : List Block)
    → (c : Block) × (rest : List Block) × (with_prev (w ∷ zs) bs ≡ c ∷ rest) × (c.free ≡ w.free)
with_prev-head w [] [] = (w, [], refl, refl)
with_prev-head w [] (b ∷ bs) = elim (Bool-cases w.free) [
  | inl f ↦ (record w { size = w.size + (24 + b.size) }, bs, ground arith, refl)
  | inr f ↦ (w, b ∷ bs, ground arith, refl)
]
with_prev-head w (v ∷ vs) bs = (w, with_prev (v ∷ vs) bs, refl, refl)

-- Freeing keeps the blocks coalesced.
pub freed-IsCoalesced :
    (xs : List Block) (b : Block) (ys : List Block)
    → IsCoalesced (xs ++ b ∷ ys)
    → IsCoalesced (freed xs b ys)
freed-IsCoalesced [] b ys h = with_next-IsCoalesced b ys h
freed-IsCoalesced (z ∷ []) b [] h = ground arith
freed-IsCoalesced (z ∷ []) b (c ∷ []) h = ground arith
freed-IsCoalesced (z ∷ []) b (c ∷ d ∷ ds) h = ground arith
freed-IsCoalesced (z ∷ w ∷ zs) b ys h =
    let (c, rest, e, f) = with_prev-head w zs (with_next b ys) in
    let tail = freed-IsCoalesced (w ∷ zs) b ys h.1 in rw e (ground (arith, f), rw e at tail)

-- Taking a free block keeps them coalesced.
pub taken-IsCoalesced :
    (r : ℕ) (xs : List Block) (b : Block) (ys : List Block)
    → b.free ≡ true
    → IsCoalesced (xs ++ b ∷ ys)
    → IsCoalesced (xs ++ (taken r b ++ ys))
taken-IsCoalesced r [] b [] f h = elim (Bool-cases (leb (r + 40) b.size)) [
  | inl s ↦ rw s (refl, tt)
  | inr s ↦ rw s tt
]
taken-IsCoalesced r [] b (c ∷ cs) f h = elim (Bool-cases (leb (r + 40) b.size)) [
  | inl s ↦ rw s (refl, (ground arith, h.1))
  | inr s ↦ rw s (refl, h.1)
]
taken-IsCoalesced r (z ∷ []) b ys f h =
    let rest = taken-IsCoalesced r [] b ys f h.1 in
    elim (Bool-cases (leb (r + 40) b.size)) [
      | inl s ↦ rw s (ground arith, rw s at rest)
      | inr s ↦ rw s (ground arith, rw s at rest)
    ]
taken-IsCoalesced r (z ∷ w ∷ zs) b ys f h = (h.0, taken-IsCoalesced r (w ∷ zs) b ys f h.1)
