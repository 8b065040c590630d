-- ===== src/Heap/Alloc.antt =====
-- `kmalloc` is first fit.
use strixos.Prelude.{
  ℕ, zero, suc, ◌+◌, ◌-◌, ◌≤◌, ◌<◌, ◌≡◌, refl, sym, ◌∙◌, ap, subst, ◌%◌, ◌^◌, ==_ne, ◌⊎◌, inl, inr,
  leb, leb→le, true, false, Bool-cases, Option, some, List, [], ◌∷◌, ◌++◌, length, All, add64,
  sub64, arith,
}
use strixos.Pmm.{mem_end}
use strixos.Heap.{Header, Heap, put, heap_magic, find_free, carve, kmalloc, round_up}
use strixos.Heap.Blocks.{Block, span, fits, taken, span-append, span-taken}
use strixos.Heap.Layout.{
  put_self, put_ne, header, follow, Lies, Lies-append, Lies-join, Lies-same, Holds,
}

-- The first block that fits, if there is one.
abbrev Finds : ℕ → ℕ → List Block → Option ℕ → Type 0
Finds p r bs o =
    ((o ≡ some 0) × All (λ b. fits r b ≡ false) bs)
    ⊎ ((xs : List Block) × (b : Block) × (ys : List Block) × (bs ≡ xs ++ b ∷ ys)
        × (o ≡ some (p + span xs))
        × (fits r b ≡ true)
        × All (λ c. fits r c ≡ false) xs)

find_free-Finds :
    (fuel : ℕ) (m : ℕ → Header) (p r : ℕ) (bs : List Block)
    → Lies m p bs 0
    → 0 < p
    → length bs < fuel
    → Finds p r bs (find_free fuel m (follow p bs 0) r)
unfolding find_free
find_free-Finds zero m p r bs h pos lt = absurd (omega arith)
find_free-Finds (suc fuel) m p r [] h pos lt = inl (refl, tt)
find_free-Finds (suc fuel) m p r (b ∷ bs) h pos lt = elim (Bool-cases (fits r b)) [
  | inl f ↦ inr ([], b, bs, refl, ground (arith, ==_ne p 0), f, tt)
  | inr f ↦
      let step : find_free (suc fuel) m p r ≡ find_free fuel m (follow (p + (24 + b.size)) bs 0) r =
        ground (arith, ==_ne p 0) in
      rw step
        (later f (find_free-Finds fuel m (p + (24 + b.size)) r bs h.1 (omega arith) (omega arith)))
]
  where
    later :
        {o : Option ℕ} → fits r b ≡ false → Finds (p + (24 + b.size)) r bs o → Finds p r (b ∷ bs) o
    later f (inl (e, all)) = inl (e, (f, all))
    later f (inr (xs, c, ys, e, at, fit, all)) =
        inr (b ∷ xs, c, ys, ap (b ∷◌) e, at ∙ ap some (omega arith), fit, (f, all))

-- The headers after a block is taken.
module _ (m : ℕ → Header) (p r : ℕ) (xs : List Block) (b : Block) (ys : List Block)
    (lies : Lies m p (xs ++ b ∷ ys) 0) (fit : fits r b ≡ true)
    (below : p + span (xs ++ b ∷ ys) ≤ mem_end) where
  abbrev at : ℕ
  at = p + span xs

  abbrev end : ℕ
  end = at + (24 + b.size)

  here : m at ≡ header b (follow end ys 0)
  here = (Lies-append m p xs (b ∷ ys) 0 lies).1.0

  behind : Lies m end ys 0
  behind = (Lies-append m p xs (b ∷ ys) 0 lies).1.1

  size_here : (m at).size ≡ b.size
  size_here = ap (λ x. x.size) here

  small : b.size < 0x4000000
  small = omega (arith, span-append xs (b ∷ ys))

  enough : r ≤ b.size
  enough = ground (arith, fit)

  guard_here : leb (add64 (add64 r 24) 16) (m at).size ≡ leb (r + 40) b.size
  guard_here =
      let e : add64 (add64 r 24) 16 ≡ r + 40 = omega (arith, small, enough) in
      rw (size_here, e) refl

  unsplit : leb (r + 40) b.size ≡ false → carve m at r ≡ put m at (record (m at) { free = false })
  unfolding carve
  unsplit s = let g : leb (add64 (add64 r 24) 16) (m at).size ≡ false = guard_here ∙ s in rw g refl

  split :
      leb (r + 40) b.size ≡ true
      → carve m at r
        ≡ put
            (put m (at + 24 + r) (record {
              size = sub64 (sub64 (m at).size r) 24;
              free = true;
              magic = heap_magic;
              next = (m at).next;
            }))
            at
            (record (m at) { size = r; next = at + 24 + r; free = false })
  unfolding carve
  split s = let g : leb (add64 (add64 r 24) 16) (m at).size ≡ true = guard_here ∙ s in rw g refl

  carved-Lies_unsplit :
      leb (r + 40) b.size ≡ false → Lies (carve m at r) p (xs ++ (record b { free = false } ∷ ys)) 0
  carved-Lies_unsplit s = rw (unsplit s) (
      Lies-join _ p xs (record b { free = false } ∷ ys) 0
        (Lies-same m _ p xs end' (λ q le lt. put_ne m at _ q (omega arith)) before)
        (
          put_self m at _ ∙ ap (λ (x : Header). record x { free = false }) here,
          Lies-same m _ end ys 0 (λ q le lt. put_ne m at _ q (omega arith)) behind,
        ))
    where
      end' : ℕ
      end' = follow at (b ∷ ys) 0

      before : Lies m p xs (follow at (b ∷ ys) 0)
      before = (Lies-append m p xs (b ∷ ys) 0 lies).0

  carved-Lies_split :
      leb (r + 40) b.size ≡ true
      → Lies
          (carve m at r)
          p
          (xs
            ++ (record { size = r; free = false }
                ∷ record { size = b.size - r - 24; free = true }
                ∷ ys))
          0
  carved-Lies_split s = rw (split s) (
      Lies-join _ p xs _ 0
        (Lies-same m _ p xs (follow at (b ∷ ys) 0)
          (λ q le lt.
            put_ne (put m (at + 24 + r) rest) at first q (omega arith)
            ∙ put_ne m (at + 24 + r) rest q (omega arith))
          (Lies-append m p xs (b ∷ ys) 0 lies).0)
        (
          first_lies,
          (
            rest_lies,
            rw (sym ends) (
                Lies-same m _ end ys 0
                  (λ q le lt.
                    put_ne (put m (at + 24 + r) rest) at first q (omega arith)
                    ∙ put_ne m (at + 24 + r) rest q (omega (arith, large)))
                  behind),
          ),
        ))
    where
      large : r + 40 ≤ b.size
      large = leb→le _ _ s

      rest : Header
      rest = record {
        size = sub64 (sub64 (m at).size r) 24;
        free = true;
        magic = heap_magic;
        next = (m at).next;
      }

      first : Header
      first = record (m at) { size = r; next = at + 24 + r; free = false }

      ends : end ≡ at + (24 + r) + (24 + (b.size - r - 24))
      ends = omega (arith, large)

      first_lies :
          put (put m (at + 24 + r) rest) at first at
          ≡ header (record { size = r; free = false }) (at + (24 + r))
      first_lies = put_self (put m (at + 24 + r) rest) at first ∙ ground (arith, here)

      rest_lies :
          put (put m (at + 24 + r) rest) at first (at + (24 + r))
          ≡ header
              (record { size = b.size - r - 24; free = true })
              (follow (at + (24 + r) + (24 + (b.size - r - 24))) ys 0)
      rest_lies =
          let e : at + (24 + r) ≡ at + 24 + r = omega arith in
          rw (sym ends, e)
            (put_ne (put m (at + 24 + r) rest) at first (at + 24 + r) (omega arith)
              ∙ put_self m (at + 24 + r) rest
              ∙ ground (arith, here, small, large))

  -- Taking the block that was found leaves the blocks of the specification.
  carved-Lies : Lies (carve m at r) p (xs ++ (taken r b ++ ys)) 0
  carved-Lies = elim (Bool-cases (leb (r + 40) b.size)) [
    | inl s ↦ rw s (carved-Lies_split s)
    | inr s ↦ rw s (carved-Lies_unsplit s)
  ]

-- What `kmalloc` promises, for a request rounded up to `r` bytes: the null pointer and the same heap
-- if no block fits, and otherwise the first block that does.
abbrev pub Outcome : Heap → List Block → ℕ → Option (ℕ × Heap) → Type 0
Outcome h bs r o =
    ((o ≡ some (0, h)) × All (λ b. fits r b ≡ false) bs)
    ⊎ ((xs : List Block) × (b : Block) × (ys : List Block) × (h' : Heap) × (bs ≡ xs ++ b ∷ ys)
        × (fits r b ≡ true)
        × All (λ c. fits r c ≡ false) xs
        × (o ≡ some (h.heap_base + span xs + 24, h'))
        × Holds h' (xs ++ (taken r b ++ ys))
        × (h'.heap_base ≡ h.heap_base)
        × (h'.bytes ≡ h.bytes))

span-replaced :
    (r : ℕ) (xs : List Block) (b : Block) (ys : List Block)
    → span (xs ++ (taken r b ++ ys)) ≡ span (xs ++ b ∷ ys)
span-replaced r xs b ys = omega (
  arith,
  span-append xs (taken r b ++ ys),
  span-append (taken r b) ys,
  span-taken r b,
  span-append xs (b ∷ ys),
)

follow-ne :
    (q : ℕ) (xs : List Block) (c d : Block) (ys zs : List Block) (n : ℕ)
    → follow q (xs ++ c ∷ ys) n ≡ follow q (xs ++ d ∷ zs) n
follow-ne q [] c d ys zs n = refl
follow-ne q (x ∷ xs) c d ys zs n = refl

follow-taken :
    (q r : ℕ) (xs : List Block) (b : Block) (ys : List Block) (n : ℕ)
    → follow q (xs ++ (taken r b ++ ys)) n ≡ follow q (xs ++ b ∷ ys) n
follow-taken q r xs b ys n = elim (Bool-cases (leb (r + 40) b.size)) [
  | inl s ↦ rw s (follow-ne q xs _ b _ ys n)
  | inr s ↦ rw s (follow-ne q xs _ b _ ys n)
]

-- `kmalloc` with the code's own rounding of the size.
pub kmalloc_first_fit :
    (fuel : ℕ) (h : Heap) (bs : List Block) (size : ℕ)
    → Holds h bs
    → 0 < size
    → length bs < fuel
    → Outcome h bs (round_up size) (kmalloc fuel h size)
unfolding kmalloc
kmalloc_first_fit fuel h bs size holds pos enough =
    elim (find_free-Finds fuel h.headers h.heap_base (round_up size) bs holds.lies holds.above
      enough) [
        | inl (e, all) ↦ inl (ground (arith, holds.starts), all)
        | inr (xs, b, ys, split, e, fit, all) ↦ inr (
          xs,
          b,
          ys,
          record h { headers = carve h.headers (h.heap_base + span xs) (round_up size) },
          split,
          fit,
          all,
          ground (arith, holds.starts, holds.above),
          after xs b ys split fit,
          refl,
          refl,
        )
      ]
  where
    after :
        (xs : List Block) (b : Block) (ys : List Block)
        → bs ≡ xs ++ b ∷ ys
        → fits (round_up size) b ≡ true
        → Holds
            (record h { headers = carve h.headers (h.heap_base + span xs) (round_up size) })
            (xs ++ (taken (round_up size) b ++ ys))
    after xs b ys split fit =
        let lies : Lies h.headers h.heap_base (xs ++ b ∷ ys) 0 = rw split at holds.lies in
        let below : h.heap_base + span (xs ++ b ∷ ys) ≤ mem_end = rw split at holds.below in
        let starts : h.head ≡ follow h.heap_base (xs ++ b ∷ ys) 0 = rw split at holds.starts in
        record {
          lies = carved-Lies h.headers h.heap_base (round_up size) xs b ys lies fit below;
          starts = starts ∙ sym (follow-taken h.heap_base (round_up size) xs b ys 0);
          above = holds.above;
          below = rw (span-replaced (round_up size) xs b ys) below;
        }

-- On a heap that holds the blocks `bs`, let `size` be positive and below 2^64 - 15, and `r` the multiple
-- of 16 from `size` to `size + 15`. Then `kmalloc` is first fit over the blocks: it returns the null
-- pointer and changes nothing exactly if no free block has `r` bytes, and otherwise takes the first such
-- block, whose rest becomes a free block where it is large enough; the other blocks and the bytes stay.
-- Fuel for each block is enough.
pub kmalloc_lem :
    (fuel : ℕ) (h : Heap) (bs : List Block) (size r : ℕ)
    → Holds h bs
    → 0 < size
    → size + 15 < 2 ^ 64
    → size ≤ r
    → r < size + 16
    → r % 16 ≡ 0
    → length bs < fuel
    → Outcome h bs r (kmalloc fuel h size)
kmalloc_lem fuel h bs size r holds pos below le lt multiple enough =
    let rounded : round_up size ≡ r = omega arith in
    subst (λ n. Outcome h bs n (kmalloc fuel h size)) rounded
      (kmalloc_first_fit fuel h bs size holds pos enough)
