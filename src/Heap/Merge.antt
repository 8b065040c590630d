-- ===== src/Heap/Merge.antt =====
-- The steps of `kfree` on the blocks in memory: the flag, the block behind, the search for the block in front.
use strixos.Pmm.{mem_end}
use strixos.Prelude.{
  ℕ, zero, suc, ◌+◌, ◌≤◌, ◌<◌, ◌≡◌, refl, ap, ◌≢◌, ◌==◌, ==_ne, ==_refl, inl, inr, true, false,
  Bool-cases, some, List, [], ◌∷◌, ◌++◌, length, add64, arith,
}
use strixos.Heap.{Header, put, heap_magic, find_prev, absorb_next}
use strixos.Heap.Blocks.{Block, span, with_next}
use strixos.Heap.Layout.{header, follow, Lies, Lies-append, Lies-replace}

-- No block lies in front of the target: the walk runs off the end of the list.
pub find_prev_first :
    (fuel : ℕ) (m : ℕ → Header) (q t : ℕ) (bs : List Block)
    → Lies m q bs 0
    → 0 < t
    → t ≤ q
    → length bs < fuel
    → find_prev fuel m (follow q bs 0) t ≡ some 0
unfolding find_prev
find_prev_first zero m q t bs h pos le lt = absurd (omega arith)
find_prev_first (suc fuel) m q t [] h pos le lt = refl
find_prev_first (suc fuel) m q t (b ∷ bs) h pos le lt =
    let rest =
      find_prev_first fuel m (q + (24 + b.size)) t bs h.1 pos (omega arith) (omega arith) in
    let away : follow (q + (24 + b.size)) bs 0 ≢ t = follow-away bs in
    ground (arith, ==_ne q 0, ==_ne (follow (q + (24 + b.size)) bs 0) t, rest, h.0)
  where
    follow-away : (cs : List Block) → follow (q + (24 + b.size)) cs 0 ≢ t
    follow-away [] e = omega arith
    follow-away (c ∷ cs) e = omega arith

-- The walk stops at the block in front of the target.
pub find_prev_at :
    (fuel : ℕ) (m : ℕ → Header) (p t : ℕ) (zs : List Block) (z b : Block) (ys : List Block)
    → Lies m p (zs ++ z ∷ b ∷ ys) 0
    → 0 < p
    → t ≡ p + span zs + (24 + z.size)
    → length zs < fuel
    → find_prev fuel m p t ≡ some (p + span zs)
unfolding find_prev
find_prev_at zero m p t zs z b ys h pos e lt = absurd (omega arith)
find_prev_at (suc fuel) m p t [] z b ys h pos e lt = ground (arith, ==_ne p 0, h.0, ==_refl t)
find_prev_at (suc fuel) m p t (y ∷ []) z b ys h pos e lt = ground (
  arith,
  ==_ne p 0,
  h.0,
  ==_ne (p + (24 + y.size)) t,
  find_prev_at fuel m (p + (24 + y.size)) t [] z b ys h.1 (omega arith) (omega arith) (omega arith),
)
find_prev_at (suc fuel) m p t (y ∷ x ∷ zs) z b ys h pos e lt = ground (
  arith,
  ==_ne p 0,
  h.0,
  ==_ne (p + (24 + y.size)) t,
  find_prev_at fuel m (p + (24 + y.size)) t (x ∷ zs) z b ys h.1 (omega arith) (omega arith)
      (omega arith),
)

module _ (m : ℕ → Header) (p : ℕ) (xs : List Block) where
  abbrev at : ℕ
  at = p + span xs

  -- The flag of a block is set.
  pub flagged-Lies :
      (b : Block) (ys : List Block)
      → Lies m p (xs ++ b ∷ ys) 0
      → Lies (put m at (record (m at) { free = true })) p (xs ++ record b { free = true } ∷ ys) 0
  flagged-Lies b ys lies =
      let here : m at ≡ header b (follow (at + (24 + b.size)) ys 0) =
        (Lies-append m p xs (b ∷ ys) 0 lies).1.0 in
      let e : record (m at) { free = true }
          ≡ header (record b { free = true }) (follow (at + (24 + b.size)) ys 0) =
        ap (λ (x : Header). record x { free = true }) here in
      rw e (Lies-replace m p xs b [] ys 0 (record b { free = true }) (omega arith) lies)

  -- A free block takes in a free one behind it.
  pub absorb_next-Lies :
      (n : ℕ) (ys : List Block)
      → Lies m p (xs ++ record { size = n; free = true } ∷ ys) 0
      → 0 < p
      → at + (24 + n + span ys) ≤ mem_end
      → Lies (absorb_next m at) p (xs ++ with_next (record { size = n; free = true }) ys) 0
  unfolding absorb_next
  absorb_next-Lies n [] lies pos below =
      let here = (Lies-append m p xs (record { size = n; free = true } ∷ []) 0 lies).1.0 in
      let last : (m at).next ≡ 0 = ap (λ x. x.next) here in rw last lies
  absorb_next-Lies n (c ∷ cs) lies pos below =
      let parts = (Lies-append m p xs (record { size = n; free = true } ∷ c ∷ cs) 0 lies).1 in
      let here : m at ≡ header (record { size = n; free = true }) (at + (24 + n)) = parts.0 in
      let there : m (at + (24 + n)) ≡ header c (follow (at + (24 + n) + (24 + c.size)) cs 0) =
        parts.1.0 in
      let next : (m at).next ≡ at + (24 + n) = ap (λ x. x.next) here in
      let size : (m at).size ≡ n = ap (λ x. x.size) here in
      let magic : (m at).magic ≡ heap_magic = ap (λ x. x.magic) here in
      let free : (m at).free ≡ true = ap (λ x. x.free) here in
      let positive : (at + (24 + n) == 0) ≡ false = ==_ne _ 0 (omega arith) in
      elim (Bool-cases c.free) [
        | inr used ↦ rw (next, positive, there, used) (rw used at lies)
        | inl idle ↦
            let sum : add64 n (add64 24 c.size) ≡ n + (24 + c.size) = omega arith in
            let end : at + (24 + n) + (24 + c.size) ≡ at + (24 + (n + (24 + c.size))) =
              omega arith in
            rw (next, positive, there, idle, size, magic, free, sum, end)
              (Lies-replace m p xs (record { size = n; free = true }) (c ∷ []) cs 0
                (record { size = n + (24 + c.size); free = true }) (omega arith) lies)
      ]
