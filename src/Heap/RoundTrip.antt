-- ===== src/Heap/RoundTrip.antt =====
-- `kfree` after `kmalloc`, and `kcalloc`.
use strixos.Prelude.{
  ℕ, zero, suc, ◌+◌, ◌-◌, ◌*◌, ◌%◌, ◌^◌, ◌≤◌, ◌<◌, ◌≡◌, refl, sym, ◌∙◌, ap, ◌==◌, ==_ne, ◌⊎◌, inl,
  inr, leb, leb→le, if◌then◌else◌, true, false, Bool-cases, ◌&&◌, not, Option, some, List, [], ◌∷◌,
  ◌++◌, length, length-append, arith,
}
use strixos.Heap.{Heap, kmalloc, kfree, kcalloc, zero_bytes, round_up}
use strixos.Heap.Blocks.{Block, span, taken, with_next, with_prev, freed, IsCoalesced}
use strixos.Heap.Layout.{Holds}
use strixos.Heap.Alloc.{kmalloc_first_fit}
use strixos.Heap.Free.{kfree_lem}

-- The block in front of a free one is in use, so freeing joins nothing there.
with_prev_used :
    (xs : List Block) (b : Block) (ys : List Block)
    → b.free ≡ true
    → IsCoalesced (xs ++ b ∷ ys)
    → with_prev xs (b ∷ ys) ≡ xs ++ b ∷ ys
with_prev_used [] b ys f h = refl
with_prev_used (z ∷ []) b ys f h = let used : z.free ≡ false = ground (arith, h.0) in rw used refl
with_prev_used (z ∷ w ∷ zs) b ys f h = ap (z ∷◌) (with_prev_used (w ∷ zs) b ys f h.1)

Coalesced-behind : (xs : List Block) (bs : List Block) → IsCoalesced (xs ++ bs) → IsCoalesced bs
Coalesced-behind [] bs h = h
Coalesced-behind (x ∷ []) [] h = tt
Coalesced-behind (x ∷ []) (b ∷ bs) h = h.1
Coalesced-behind (x ∷ y ∷ xs) bs h = Coalesced-behind (y ∷ xs) bs h.1

whole :
    (b : Block) (ys : List Block)
    → b.free ≡ true
    → IsCoalesced (b ∷ ys)
    → with_next (record b { free = false }) ys ≡ b ∷ ys
whole b [] f h = rw f refl
whole b (c ∷ cs) f h = let used : c.free ≡ false = ground (arith, h.0) in rw (used, f) refl

-- The blocks that a taken block leaves join to that block again.
taken-with_next :
    (r : ℕ) (b : Block) (ys : List Block)
    → b.free ≡ true
    → IsCoalesced (b ∷ ys)
    → (c : Block) × (rest : List Block) × (taken r b ≡ c ∷ rest)
      × (with_next c (rest ++ ys) ≡ b ∷ ys)
      × (length rest ≤ 1)
taken-with_next r b ys f h = elim (Bool-cases (leb (r + 40) b.size)) [
  | inr s ↦ (record b { free = false }, [], rw s refl, whole b ys f h, omega arith)
  | inl s ↦
      let e : r + (24 + (b.size - r - 24)) ≡ b.size = omega (arith, leb→le (r + 40) b.size s) in
      (
        record { size = r; free = false },
        record { size = b.size - r - 24; free = true } ∷ [],
        rw s refl,
        rw (e, f) refl,
        omega arith,
      )
]

-- The outcome of a `kmalloc` that is undone by `kfree`.
abbrev pub Undone : ℕ → Heap → List Block → Option (ℕ × Heap) → Type 0
Undone fuel h bs o =
    (o ≡ some (0, h))
    ⊎ ((p : ℕ) × (h' : Heap) × (h'' : Heap) × (o ≡ some (p, h'))
        × (0 < p)
        × (kfree fuel h' p ≡ some h'')
        × Holds h'' bs
        × (h''.bytes ≡ h.bytes))

-- On a heap whose free blocks are coalesced, `kmalloc` of a positive size returns the null pointer and
-- changes nothing, or `kfree` of the pointer that it returns gives back a heap that holds the blocks
-- of before, with the callers' bytes unchanged.
pub kfree-kmalloc :
    (fuel : ℕ) (h : Heap) (bs : List Block) (size : ℕ)
    → Holds h bs
    → IsCoalesced bs
    → 0 < size
    → length bs + 1 < fuel
    → Undone fuel h bs (kmalloc fuel h size)
kfree-kmalloc fuel h bs size holds coalesced pos enough =
    elim (kmalloc_first_fit fuel h bs size holds pos (omega arith)) [
      | inl (e, all) ↦ inl e
      | inr (xs, b, ys, h', split, fit, all, e, after, base, bytes) ↦
          let r = round_up size in
          let free : b.free ≡ true = ground (arith, fit) in
          let before : IsCoalesced (xs ++ b ∷ ys) = rw split at coalesced in
          let (c, rest, parts, join, small) =
            taken-with_next r b ys free (Coalesced-behind xs (b ∷ ys) before) in
          let taken : Holds h' (xs ++ c ∷ (rest ++ ys)) = rw parts at after in
          let short : length (xs ++ c ∷ (rest ++ ys)) < fuel = omega (
            arith,
            enough,
            rw split at enough,
            small,
            length-append xs (b ∷ ys),
            length-append xs (c ∷ (rest ++ ys)),
            length-append rest ys,
          ) in
          let (h'', ran, holds', same) = kfree_lem fuel h' xs c (rest ++ ys) taken short in
          let back : freed xs c (rest ++ ys) ≡ bs =
            rw (join, split) (with_prev_used xs b ys free before) in
          inr (
            h.heap_base + span xs + 24,
            h',
            h'',
            e,
            omega (arith, holds.above),
            ap (λ q. kfree fuel h' (q + span xs + 24)) (sym base) ∙ ran,
            rw back at holds',
            same ∙ bytes,
          )
    ]

zero_bytes_lem :
    (p n : ℕ) (m : ℕ → ℕ) (a : ℕ)
    → zero_bytes p n m a ≡ (if leb p a && not (leb (p + n) a) then 0 else m a)
unfolding zero_bytes
zero_bytes_lem p zero m a = ground arith
zero_bytes_lem p (suc n) m a =
    ground (arith, zero_bytes_lem (p + 1) n (λ q. if q == p then 0 else m q) a)

-- Where `kmalloc` gives a pointer for the product of `n` and `size` (modulo 2^64), `kcalloc` gives the
-- same pointer and the same headers, each of the product's bytes from there on is 0, and every other
-- byte is as before the call.
pub kcalloc_lem :
    (fuel : ℕ) (h h' : Heap) (n size p : ℕ)
    → kmalloc fuel h (n * size % 2 ^ 64) ≡ some (p, h')
    → 0 < p
    → (h'' : Heap) × (kcalloc fuel h n size ≡ some (p, h''))
      × (h''.headers ≡ h'.headers)
      × ((a : ℕ) → p ≤ a → a < p + n * size % 2 ^ 64 → h''.bytes a ≡ 0)
      × ((a : ℕ) → (a < p) ⊎ (p + n * size % 2 ^ 64 ≤ a) → h''.bytes a ≡ h'.bytes a)
unfolding kcalloc
kcalloc_lem fuel h h' n size p e pos =
    let total = n * size % 2 ^ 64 in
    (
      record h' { bytes = zero_bytes p total h'.bytes },
      rw (e, kcalloc, ==_ne p 0 (omega arith)) refl,
      refl,
      λ a le lt. ground (arith, zero_bytes_lem p total h'.bytes a),
      λ a away. ground (arith, zero_bytes_lem p total h'.bytes a, away),
    )
