-- ===== src/Heap/Sums.antt =====
-- `heap_used` and `heap_free`.
use strixos.Prelude.{
  ℕ, zero, suc, ◌+◌, ◌*◌, ◌≤◌, ◌<◌, ◌≡◌, refl, ◌==◌, ==_ne, if◌then◌else◌, Bool, true, false,
  Bool-cases, inl, inr, some, List, [], ◌∷◌, length, add64, arith,
}
use strixos.Pmm.{mem_end}
use strixos.Heap.{Header, Heap, heap_sum, is_same}
use strixos.Heap.Blocks.{Block, span}
use strixos.Heap.Layout.{follow, Lies, Holds}

-- Bytes in the blocks whose flag is `f`.
abbrev pub bytes_of : Bool → List Block → ℕ
bytes_of f [] = 0
bytes_of f (b ∷ bs) = if is_same f b.free then b.size + bytes_of f bs else bytes_of f bs

bytes_of-span : (bs : List Block) → bytes_of false bs + bytes_of true bs + 24 * length bs ≡ span bs
bytes_of-span [] = refl
bytes_of-span (b ∷ bs) = elim (Bool-cases b.free) [
  | inl f ↦ rw f (omega (arith, bytes_of-span bs))
  | inr f ↦ rw f (omega (arith, bytes_of-span bs))
]

bytes_of-le : (f : Bool) (bs : List Block) → bytes_of f bs ≤ span bs
bytes_of-le f [] = omega arith
bytes_of-le f (b ∷ bs) = ground (arith, bytes_of-le f bs)

heap_sum_bytes :
    (fuel : ℕ) (f : Bool) (m : ℕ → Header) (p : ℕ) (bs : List Block)
    → Lies m p bs 0
    → 0 < p
    → span bs ≤ mem_end
    → length bs < fuel
    → heap_sum fuel f m (follow p bs 0) ≡ some (bytes_of f bs)
unfolding heap_sum
heap_sum_bytes zero f m p bs h pos small lt = absurd (omega arith)
heap_sum_bytes (suc fuel) f m p [] h pos small lt = refl
heap_sum_bytes (suc fuel) f m p (b ∷ bs) h pos small lt =
    let rest =
      heap_sum_bytes fuel f m (p + (24 + b.size)) bs h.1 (omega arith) (omega arith)
        (omega arith) in
    let positive : (p == 0) ≡ false = ==_ne p 0 (omega arith) in
    let sum : add64 b.size (bytes_of f bs) ≡ b.size + bytes_of f bs =
      omega (arith, bytes_of-le f bs) in
    ground (arith, positive, h.0, rest, sum, Bool-cases (is_same f b.free))

-- On a heap that holds the blocks `bs`, the walks of `heap_used` and `heap_free` end and count the
-- bytes of the blocks in use and of the free ones, and the two with 24 bytes for each header are the
-- whole run.
pub heap_sum_lem :
    (fuel : ℕ) (h : Heap) (bs : List Block)
    → Holds h bs
    → length bs < fuel
    → (used : ℕ) × (free : ℕ) × (heap_sum fuel false h.headers h.head ≡ some used)
      × (heap_sum fuel true h.headers h.head ≡ some free)
      × (used + free + 24 * length bs ≡ span bs)
heap_sum_lem fuel h bs holds lt = (
  bytes_of false bs,
  bytes_of true bs,
  rw holds.starts (
      heap_sum_bytes fuel false h.headers h.heap_base bs holds.lies holds.above
        (omega (arith, holds.below)) lt),
  rw holds.starts (
      heap_sum_bytes fuel true h.headers h.heap_base bs holds.lies holds.above
        (omega (arith, holds.below)) lt),
  bytes_of-span bs,
)
