-- ===== src/Heap/Free.antt =====
-- `kfree` frees a block and joins it with its free neighbours.
use strixos.Pmm.{mem_end}
use strixos.Prelude.{
  ℕ, ◌+◌, ◌≤◌, ◌<◌, ◌≡◌, refl, sym, ◌∙◌, ap, ◌==◌, ==_ne, ◌⊎◌, inl, inr, true, false, Bool-cases,
  Option, some, List, [], ◌∷◌, ◌++◌, append_assoc, length, length-append, add64, sub64, arith,
}
use strixos.Heap.{
  Header, Heap, put, heap_magic, header_size, find_prev, absorb_next, absorb_into, kfree,
}
use strixos.Heap.Blocks.{
  Block, span, with_next, with_prev, freed, span-append, span-with_next, span-freed,
}
use strixos.Heap.Layout.{header, follow, Lies, Lies-append, Lies-replace, Holds}
use strixos.Heap.Merge.{find_prev_first, find_prev_at, flagged-Lies, absorb_next-Lies}

-- A free block in front takes in the freed one.
absorb_into-Lies :
    (m : ℕ → Header) (p : ℕ) (zs : List Block) (z d : Block) (rest : List Block)
    → Lies m p (zs ++ z ∷ d ∷ rest) 0
    → 0 < p
    → p + span (zs ++ z ∷ d ∷ rest) ≤ mem_end
    → (t : ℕ) → t ≡ p + span zs + (24 + z.size)
    → Lies (absorb_into m (p + span zs) t) p (zs ++ with_prev (z ∷ []) (d ∷ rest)) 0
unfolding absorb_into
absorb_into-Lies m p zs z d rest lies pos below t place =
    let parts = (Lies-append m p zs (z ∷ d ∷ rest) 0 lies).1 in
    let at = p + span zs in
    let here : m at ≡ header z (at + (24 + z.size)) = parts.0 in
    let there : m (at + (24 + z.size))
        ≡ header d (follow (at + (24 + z.size) + (24 + d.size)) rest 0) =
      parts.1.0 in
    let size : (m at).size ≡ z.size = ap (λ x. x.size) here in
    let magic : (m at).magic ≡ heap_magic = ap (λ x. x.magic) here in
    let free : (m at).free ≡ z.free = ap (λ x. x.free) here in
    let positive : (at == 0) ≡ false = ==_ne _ 0 (omega arith) in
    elim (Bool-cases z.free) [
      | inr used ↦ rw (place, positive, free, used) (rw used at lies)
      | inl idle ↦
          let sum : add64 z.size (add64 24 d.size) ≡ z.size + (24 + d.size) =
            omega (arith, span-append zs (z ∷ d ∷ rest)) in
          let end : at + (24 + z.size) + (24 + d.size) ≡ at + (24 + (z.size + (24 + d.size))) =
            omega arith in
          rw (place, positive, there, free, idle, size, magic, sum, end)
            (Lies-replace m p zs z (d ∷ []) rest 0
              (record { size = z.size + (24 + d.size); free = true }) (omega arith) lies)
    ]

with_prev_last :
    (zs : List Block) (z : Block) (bs : List Block)
    → with_prev (zs ++ z ∷ []) bs ≡ zs ++ with_prev (z ∷ []) bs
with_prev_last [] z bs = refl
with_prev_last (y ∷ []) z bs = refl
with_prev_last (y ∷ x ∷ zs) z bs = ap (y ∷◌) (with_prev_last (x ∷ zs) z bs)

-- A list is empty or has a last element.
Last-cases : (xs : List Block) → (xs ≡ []) ⊎ ((zs : List Block) × (z : Block) × (xs ≡ zs ++ z ∷ []))
Last-cases [] = inl refl
Last-cases (x ∷ xs) = elim (Last-cases xs) [
  | inl e ↦ inr ([], x, ap (x ∷◌) e)
  | inr (zs, z, e) ↦ inr (x ∷ zs, z, ap (x ∷◌) e)
]

with_next-head :
    (b : Block) (ys : List Block)
    → (d : Block) × (rest : List Block) × (with_next b ys ≡ d ∷ rest) × (length rest ≤ length ys)
with_next-head b [] = (record b { free = true }, [], refl, omega arith)
with_next-head b (c ∷ cs) = elim (Bool-cases c.free) [
  | inl f ↦ (record { size = b.size + (24 + c.size); free = true }, cs, ground arith, omega arith)
  | inr f ↦ (record b { free = true }, c ∷ cs, ground arith, omega arith)
]

with_next_flag :
    (b : Block) (ys : List Block) → with_next (record b { free = true }) ys ≡ with_next b ys
with_next_flag b [] = refl
with_next_flag b (c ∷ cs) = refl

follow-cons :
    (q : ℕ) (zs : List Block) (b : Block) (ys : List Block) → follow q (zs ++ b ∷ ys) 0 ≡ q
follow-cons q [] b ys = refl
follow-cons q (z ∷ zs) b ys = refl

-- The head of the list stays where it is.
follow-with_prev :
    (q : ℕ) (xs : List Block) (d : Block) (rest : List Block)
    → follow q (with_prev xs (d ∷ rest)) 0 ≡ q
follow-with_prev q [] d rest = refl
follow-with_prev q (z ∷ []) d rest = ground arith
follow-with_prev q (z ∷ w ∷ zs) d rest = refl

module _ (h : Heap) (xs : List Block) (b : Block) (ys : List Block)
    (holds : Holds h (xs ++ b ∷ ys)) where
  abbrev at : ℕ
  at = h.heap_base + span xs

  -- The headers when the search for the block in front starts.
  abbrev merged : ℕ → Header
  merged = absorb_next (put h.headers at (record (h.headers at) { free = true })) at

  merged-Lies : Lies merged h.heap_base (xs ++ with_next b ys) 0
  merged-Lies = rw (with_next_flag b ys) at (
      absorb_next-Lies _ h.heap_base xs b.size ys
        (flagged-Lies h.headers h.heap_base xs b ys holds.lies) holds.above
        (omega (arith, holds.below, span-append xs (b ∷ ys))))

  abbrev front : ℕ → Option ℕ
  front fuel = find_prev fuel merged h.head at

  opens :
      (fuel c : ℕ)
      → front fuel ≡ some c
      → kfree fuel h (at + 24) ≡ some (record h { headers = absorb_into merged c at })
  unfolding kfree
  opens fuel c e =
      let here : h.headers at ≡ header b (follow (at + (24 + b.size)) ys 0) =
        (Lies-append h.headers h.heap_base xs (b ∷ ys) 0 holds.lies).1.0 in
      let magic : (h.headers at).magic ≡ heap_magic = ap (λ x. x.magic) here in
      let guard : ((h.headers at).magic == heap_magic) ≡ true = rw magic refl in
      let back : sub64 (at + 24) header_size ≡ at =
        omega (arith, holds.below, span-append xs (b ∷ ys)) in
      let some_ptr : (at + 24 == 0) ≡ false = ==_ne _ 0 (omega arith) in
      rw (some_ptr, back, guard, e, back) refl

abbrev Freed : ℕ → Heap → List Block → Block → List Block → Type 0
Freed fuel h xs b ys =
    (h' : Heap) × (kfree fuel h (h.heap_base + span xs + 24) ≡ some h')
    × Holds h' (freed xs b ys)
    × (h'.bytes ≡ h.bytes)

freed-Holds :
    (h : Heap) (xs : List Block) (b : Block) (ys : List Block) (m : ℕ → Header)
    → Holds h (xs ++ b ∷ ys)
    → Lies m h.heap_base (freed xs b ys) 0
    → Holds (record h { headers = m }) (freed xs b ys)
freed-Holds h xs b ys m holds lies =
    let (d, rest, e, small) = with_next-head b ys in
    let head : h.head ≡ follow h.heap_base (with_prev xs (with_next b ys)) 0 =
      holds.starts
      ∙ rw e (follow-cons h.heap_base xs b ys ∙ sym (follow-with_prev h.heap_base xs d rest)) in
    record {
      lies = lies;
      starts = head;
      above = holds.above;
      below = omega (arith, holds.below, span-freed xs b ys);
    }

first :
    (fuel : ℕ) (h : Heap) (b : Block) (ys : List Block)
    → Holds h (b ∷ ys)
    → length (b ∷ ys) < fuel
    → Freed fuel h [] b ys
unfolding absorb_next absorb_into
first fuel h b ys holds lt =
    let (d, rest, e, small) = with_next-head b ys in
    let m = merged h [] b ys holds in
    let lies : Lies m h.heap_base (with_next b ys) 0 = merged-Lies h [] b ys holds in
    let start : h.head ≡ follow h.heap_base (with_next b ys) 0 = holds.starts ∙ rw e refl in
    let short : length (with_next b ys) < fuel = rw e (omega arith) in
    let front : find_prev fuel m h.head (h.heap_base + 0) ≡ some 0 = rw start (
      find_prev_first fuel m h.heap_base (h.heap_base + 0) (with_next b ys) lies
        (omega (arith, holds.above)) (omega arith) short) in
    (
      record h { headers = m },
      opens h [] b ys holds fuel 0 front,
      freed-Holds h [] b ys m holds lies,
      refl,
    )

behind :
    (fuel : ℕ) (h : Heap) (zs : List Block) (z b : Block) (ys : List Block)
    → Holds h ((zs ++ z ∷ []) ++ b ∷ ys)
    → length ((zs ++ z ∷ []) ++ b ∷ ys) < fuel
    → Freed fuel h (zs ++ z ∷ []) b ys
behind fuel h zs z b ys holds lt =
    let xs = zs ++ z ∷ [] in
    let (d, rest, e, small) = with_next-head b ys in
    let m = merged h xs b ys holds in
    let at = h.heap_base + span xs in
    let whole : xs ++ with_next b ys ≡ zs ++ z ∷ d ∷ rest =
      rw e (append_assoc zs (z ∷ []) (d ∷ rest)) in
    let lies : Lies m h.heap_base (zs ++ z ∷ d ∷ rest) 0 =
      rw whole at (merged-Lies h xs b ys holds) in
    let start : h.head ≡ h.heap_base = holds.starts ∙ follow-cons h.heap_base xs b ys in
    let same : span (d ∷ rest) ≡ span (b ∷ ys) = ap span (sym e) ∙ span-with_next b ys in
    let place : at ≡ h.heap_base + span zs + (24 + z.size) =
      omega (arith, span-append zs (z ∷ [])) in
    let front : find_prev fuel m h.head at ≡ some (h.heap_base + span zs) = rw start (
      find_prev_at fuel m h.heap_base at zs z d rest lies holds.above place
        (omega (arith, lt, length-append zs (z ∷ []), length-append xs (b ∷ ys)))) in
    let room : h.heap_base + span (zs ++ z ∷ d ∷ rest) ≤ mem_end = omega (
      arith,
      holds.below,
      same,
      span-append zs (z ∷ d ∷ rest),
      span-append xs (b ∷ ys),
      span-append zs (z ∷ []),
    ) in
    let joined = absorb_into-Lies m h.heap_base zs z d rest lies holds.above room at place in
    let spec : freed xs b ys ≡ zs ++ with_prev (z ∷ []) (d ∷ rest) =
      rw e (with_prev_last zs z (d ∷ rest)) in
    let after : Lies (absorb_into m (h.heap_base + span zs) at) h.heap_base (freed xs b ys) 0 =
      rw spec joined in
    (
      record h { headers = absorb_into m (h.heap_base + span zs) at },
      opens h xs b ys holds fuel (h.heap_base + span zs) front,
      freed-Holds h xs b ys _ holds after,
      refl,
    )

-- For a pointer to any block of the heap that holds `xs ++ b ∷ ys`, the loop of `kfree` ends, the heap
-- then holds the blocks that the specification `freed` gives (the block free, joined with a free
-- block behind it and then with a free block in front of it), and the callers' bytes are unchanged.
pub kfree_lem :
    (fuel : ℕ) (h : Heap) (xs : List Block) (b : Block) (ys : List Block)
    → Holds h (xs ++ b ∷ ys)
    → length (xs ++ b ∷ ys) < fuel
    → (h' : Heap) × (kfree fuel h (h.heap_base + span xs + 24) ≡ some h')
      × Holds h' (freed xs b ys)
      × (h'.bytes ≡ h.bytes)
kfree_lem fuel h xs b ys holds lt = elim (Last-cases xs) [
  | inl e ↦ rw e (first fuel h b ys (rw e at holds) (rw e at lt))
  | inr (zs, z, e) ↦ rw e (behind fuel h zs z b ys (rw e at holds) (rw e at lt))
]
