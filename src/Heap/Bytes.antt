-- ===== src/Heap/Bytes.antt =====
-- The memory behind the headers has no part in `kmalloc` and `kfree`, and they leave it as it is.
use mathlib.Core.Option.{some-injective}
use strixos.Prelude.{
  ℕ, ◌+◌, ◌≡◌, refl, sym, ◌∙◌, ap, ◌==◌, if◌then◌else◌, not, Bool, true, false, sub64, Option, none,
  some,
}
use strixos.Heap.{
  Header, Heap, header_size, put, heap_magic, round_up, find_free, carve, kmalloc, absorb_next,
  find_prev, absorb_into, kfree,
}

abbrev pub with_bytes : (ℕ → ℕ) → Heap → Heap
with_bytes b h = record h { bytes = b }

by_test {ℓ κ} :
    {A : Type ℓ} {B : Type κ} (f : A → B) (t : Bool) {x y : A} {x' y' : B}
    → x' ≡ f x
    → y' ≡ f y
    → (if t then x' else y') ≡ f (if t then x else y)
by_test f true e d = e
by_test f false e d = d

abbrev given : (ℕ → ℕ) → Option (ℕ × Heap) → Option (ℕ × Heap)
given b none = none
given b (some (p, g)) = some (p, with_bytes b g)

kmalloc_commutes :
    (fuel : ℕ) (h : Heap) (size : ℕ) (b : ℕ → ℕ)
    → kmalloc fuel (with_bytes b h) size ≡ given b (kmalloc fuel h size)
unfolding kmalloc
kmalloc_commutes fuel h size b =
    by_test (given b) (size == 0) refl (by_block (find_free fuel h.headers h.head (round_up size)))
  where
    cut : ℕ → Heap
    cut q = record h { headers = carve h.headers q (round_up size) }

    by_block :
        (o : Option ℕ)
        → (elim o [
          | none ↦ none
          | some q ↦
              if q == 0
              then some (0, with_bytes b h)
              else some (q + header_size, with_bytes b (cut q))
        ])
          ≡ given b (elim o [
            | none ↦ none
            | some q ↦ if q == 0 then some (0, h) else some (q + header_size, cut q)
          ])
    by_block none = refl
    by_block (some q) = by_test (given b) (q == 0) refl refl

pub kmalloc-with_bytes :
    (fuel : ℕ) (h g : Heap) (size p : ℕ) (b : ℕ → ℕ)
    → kmalloc fuel h size ≡ some (p, g)
    → kmalloc fuel (with_bytes b h) size ≡ some (p, with_bytes b g)
kmalloc-with_bytes fuel h g size p b e = kmalloc_commutes fuel h size b ∙ ap (given b) e

pub kmalloc_keeps :
    (fuel : ℕ) (h g : Heap) (size p : ℕ) → kmalloc fuel h size ≡ some (p, g) → g.bytes ≡ h.bytes
kmalloc_keeps fuel h g size p e =
    ap (λ (r : ℕ × Heap). r.1.bytes)
      (some-injective _ _ (sym e ∙ kmalloc-with_bytes fuel h g size p h.bytes e))

abbrev left : (ℕ → ℕ) → Option Heap → Option Heap
left b none = none
left b (some g) = some (with_bytes b g)

kfree_commutes :
    (fuel : ℕ) (h : Heap) (p : ℕ) (b : ℕ → ℕ)
    → kfree fuel (with_bytes b h) p ≡ left b (kfree fuel h p)
unfolding kfree
kfree_commutes fuel h p b = by_test (left b) (p == 0) refl (
    by_test (left b) (not ((h.headers block).magic == heap_magic)) refl
      (by_prev (find_prev fuel merged h.head block)))
  where
    block : ℕ
    block = sub64 p header_size

    merged : ℕ → Header
    merged = absorb_next (put h.headers block (record (h.headers block) { free = true })) block

    by_prev :
        (o : Option ℕ)
        → (elim o [
          | none ↦ none
          | some cur ↦ some (with_bytes b (record h { headers = absorb_into merged cur block }))
        ])
          ≡ left b (elim o [
            | none ↦ none
            | some cur ↦ some (record h { headers = absorb_into merged cur block })
          ])
    by_prev none = refl
    by_prev (some cur) = refl

pub kfree-with_bytes :
    (fuel : ℕ) (h g : Heap) (p : ℕ) (b : ℕ → ℕ)
    → kfree fuel h p ≡ some g
    → kfree fuel (with_bytes b h) p ≡ some (with_bytes b g)
kfree-with_bytes fuel h g p b e = kfree_commutes fuel h p b ∙ ap (left b) e
