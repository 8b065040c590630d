-- ===== src/Vmm/Walk.antt =====
-- What the walk through the tables finds, and that a mapped page is not mapped again.
use strixos.Prelude.{ℕ, ◌≡◌, refl, true, false, ◌⊎◌, inl, inr}
use strixos.Pmm.{Pmm}
use strixos.Vmm.{is_present, is_huge, index, slot, ensure, map_page}

-- The addresses of the entries for `va`, level by level.
abbrev pub at4 : ℕ → ℕ → ℕ
at4 root va = slot root (index 39 va)

abbrev pub at3 : ℕ → (ℕ → ℕ) → ℕ → ℕ
at3 root ram va = slot (ram (at4 root va)) (index 30 va)

abbrev pub at2 : ℕ → (ℕ → ℕ) → ℕ → ℕ
at2 root ram va = slot (ram (at3 root ram va)) (index 21 va)

abbrev pub at1 : ℕ → (ℕ → ℕ) → ℕ → ℕ
at1 root ram va = slot (ram (at2 root ram va)) (index 12 va)

-- The tables translate `va`, by a page of 1 GB, of 2 MB or of 4 KB.
abbrev pub IsMapped : ℕ → (ℕ → ℕ) → ℕ → Type 0
IsMapped root ram va =
    (is_present (ram (at4 root va)) ≡ true)
    × (is_present (ram (at3 root ram va)) ≡ true)
    × ((is_huge (ram (at3 root ram va)) ≡ true)
        ⊎ ((is_huge (ram (at3 root ram va)) ≡ false)
            × (is_present (ram (at2 root ram va)) ≡ true)
            × ((is_huge (ram (at2 root ram va)) ≡ true)
                ⊎ ((is_huge (ram (at2 root ram va)) ≡ false)
                    × (is_present (ram (at1 root ram va)) ≡ true)))))

-- A table that is there is used as it is.
pub ensure-present : (p : Pmm) (at : ℕ) → is_present (p.ram at) ≡ true → ensure p at ≡ (true, p)
unfolding ensure
ensure-present p at h = rw (ensure, h) refl

-- Mapping an address that the tables translate fails and changes nothing.
pub map_page-IsMapped :
    (root : ℕ) (p : Pmm) (va pa flags : ℕ)
    → IsMapped root p.ram va
    → map_page root p va pa flags ≡ (false, p)
unfolding map_page
map_page-IsMapped root p va pa flags (h4, h3, inl huge) =
    let e4 = ensure-present p (at4 root va) h4 in rw (map_page, e4, huge) refl
map_page-IsMapped root p va pa flags (h4, h3, inr (small3, h2, inl huge)) =
    let e4 = ensure-present p (at4 root va) h4 in
    let e3 = ensure-present p (at3 root p.ram va) h3 in rw (map_page, e4, small3, e3, huge) refl
map_page-IsMapped root p va pa flags (h4, h3, inr (small3, h2, inr (small2, h1))) =
    let e4 = ensure-present p (at4 root va) h4 in
    let e3 = ensure-present p (at3 root p.ram va) h3 in
    let e2 = ensure-present p (at2 root p.ram va) h2 in
    rw (map_page, e4, small3, e3, small2, e2, h1) refl
