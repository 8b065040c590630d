-- ===== src/Heap/Layout.antt =====
-- How a sequence of blocks lies in memory: one behind the other, each header with its size, its flag,
-- the magic number and the address of the next header.
use strixos.Prelude.{ℕ, ◌+◌, ◌≤◌, ◌<◌, ◌≡◌, refl, sym, ◌∙◌, ap, ◌≢◌, List, [], ◌∷◌, ◌++◌, arith}
use strixos.Pmm.{mem_end}
use strixos.Heap.{Header, Heap, put, heap_magic}
use strixos.Heap.Blocks.{Block, span}

abbrev pub header : Block → ℕ → Header
header b next = record { size = b.size; free = b.free; magic = heap_magic; next = next }

-- The address of what follows, `n` if nothing does.
abbrev pub follow : ℕ → List Block → ℕ → ℕ
follow q [] n = n
follow q (_ ∷ _) n = q

abbrev pub Lies : (ℕ → Header) → ℕ → List Block → ℕ → Type 0
Lies m p [] n = Unit {0}
Lies m p (b ∷ bs) n =
    (m p ≡ header b (follow (p + (24 + b.size)) bs n)) × Lies m (p + (24 + b.size)) bs n

follow-append :
    (q : ℕ) (xs ys : List Block) (n : ℕ)
    → follow q (xs ++ ys) n ≡ follow q xs (follow (q + span xs) ys n)
follow-append q [] [] n = refl
follow-append q [] (y ∷ ys) n = omega arith
follow-append q (x ∷ xs) ys n = refl

module _ (m : ℕ → Header) where
  pub Lies-append :
      (p : ℕ) (xs ys : List Block) (n : ℕ)
      → Lies m p (xs ++ ys) n
      → Lies m p xs (follow (p + span xs) ys n) × Lies m (p + span xs) ys n
  Lies-append p [] ys n h = (tt, let e : p + 0 ≡ p = omega arith in rw e h)
  Lies-append p (x ∷ xs) ys n h =
      let rest = Lies-append (p + (24 + x.size)) xs ys n h.1 in
      let e : p + (24 + x.size + span xs) ≡ p + (24 + x.size) + span xs = omega arith in
      rw e ((h.0 ∙ ap (header x) (follow-append (p + (24 + x.size)) xs ys n), rest.0), rest.1)

  pub Lies-join :
      (p : ℕ) (xs ys : List Block) (n : ℕ)
      → Lies m p xs (follow (p + span xs) ys n)
      → Lies m (p + span xs) ys n
      → Lies m p (xs ++ ys) n
  Lies-join p [] ys n h k = let e : p + 0 ≡ p = omega arith in rw e at k
  Lies-join p (x ∷ xs) ys n h k =
      let e : p + (24 + x.size + span xs) ≡ p + (24 + x.size) + span xs = omega arith in
      (
        rw e at h.0 ∙ ap (header x) (sym (follow-append (p + (24 + x.size)) xs ys n)),
        Lies-join (p + (24 + x.size)) xs ys n (rw e at h.1) (rw e at k),
      )

-- Blocks stay where they are under writes elsewhere.
pub Lies-same :
    (m m' : ℕ → Header) (p : ℕ) (bs : List Block) (n : ℕ)
    → ((q : ℕ) → p ≤ q → q < p + span bs → m' q ≡ m q)
    → Lies m p bs n
    → Lies m' p bs n
Lies-same m m' p [] n same h = tt
Lies-same m m' p (b ∷ bs) n same h = (
  same p (omega arith) (omega arith) ∙ h.0,
  Lies-same m m' (p + (24 + b.size)) bs n (λ q le lt. same q (omega arith) (omega arith)) h.1,
)

pub put_self : (m : ℕ → Header) (a : ℕ) (x : Header) → put m a x a ≡ x
put_self m a x = ground arith

pub put_ne : (m : ℕ → Header) (a : ℕ) (x : Header) (q : ℕ) → q ≢ a → put m a x q ≡ m q
put_ne m a x q ne = ground arith

-- The heap `h` holds the blocks, inside the memory that the page allocator manages.
pub record Holds (h : Heap) (bs : List Block) : Type 0 where
  pub lies : Lies h.headers h.heap_base bs 0
  pub starts : h.head ≡ follow h.heap_base bs 0
  pub above : 0 < h.heap_base
  pub below : h.heap_base + span bs ≤ mem_end

-- One header in place of a row of blocks that takes the same room.
pub Lies-replace :
    (m : ℕ → Header) (p : ℕ) (xs : List Block) (d : Block) (ds ys : List Block) (n : ℕ) (c : Block)
    → span (d ∷ ds) ≡ 24 + c.size
    → Lies m p (xs ++ d ∷ (ds ++ ys)) n
    → Lies
        (put m (p + span xs) (header c (follow (p + span xs + (24 + c.size)) ys n)))
        p
        (xs ++ c ∷ ys)
        n
Lies-replace m p xs d ds ys n c same h =
    let parts = Lies-append m p xs (d ∷ (ds ++ ys)) n h in
    let rest = (Lies-append m (p + span xs) (d ∷ ds) ys n parts.1).1 in
    let e : p + span xs + span (d ∷ ds) ≡ p + span xs + (24 + c.size) = omega arith in
    Lies-join _ p xs (c ∷ ys) n
      (Lies-same m _ p xs (p + span xs) (λ q le lt. put_ne m (p + span xs) _ q (omega arith))
        parts.0)
      (
        put_self m (p + span xs) _,
        Lies-same m _ (p + span xs + (24 + c.size)) ys n
            (λ q le lt. put_ne m (p + span xs) _ q (omega arith)) (rw e at rest),
      )
