-- ===== src/Pmm/Invariant.antt =====
-- The invariant of the page allocator: its counters agree with its bitmap.
mod Count
pub use Count.*
use strixos.Prelude.{
  ℕ, zero, suc, ◌+◌, ◌*◌, ◌≤◌, ◌<◌, ◌≡◌, refl, sym, ◌∙◌, ◌==◌, if◌then◌else◌, Bool, true, false,
  length, length-replicate, All-replicate, replicate, arith,
}
use strixos.Pmm.{Pmm, page_size, mem_start, mem_end, bmp_test, bmp_set, bmp_clear, init}
use strixos.Pmm.Bitmap.{
  AreBytes, bmp_test-bmp_set, bmp_test-bmp_clear, bmp_test-replicate, length-bmp_set,
  bmp_set-AreBytes, length-bmp_clear, bmp_clear-AreBytes,
}

-- Whether a page is in use.
abbrev pub is_used : Pmm → ℕ → Bool
is_used p = bmp_test p.bitmap

pub record IsValid (p : Pmm) : Type 0 where
  pub bytes : AreBytes p.bitmap
  pub room : p.total_pages ≤ 8 * length p.bitmap
  pub in_memory : mem_start + p.total_pages * page_size ≡ mem_end
  pub counted : p.used_pages ≡ count (is_used p) p.total_pages
  pub balanced : p.free_pages + p.used_pages ≡ p.total_pages

pub total-lt : (p : Pmm) → IsValid p → p.total_pages < 15873
total-lt p v = omega arith

-- `pmm_init` establishes the invariant, and every page is free: the page of the bitmap itself lies
-- below the managed memory and is not marked.
pub init-IsValid :
    (ram : ℕ → ℕ)
    → IsValid (init ram)
      × ((init ram).total_pages ≡ 15872)
      × ((init ram).free_pages ≡ 15872)
      × ((j : ℕ) → is_used (init ram) j ≡ false)
unfolding init
init-IsValid ram = (
  record {
    bytes = All-replicate {A = ℕ} (λ b. b < 256) 1984 0 (omega arith);
    room = omega (arith, length-replicate {A = ℕ} 1984 0);
    in_memory = omega arith;
    counted =
        sym (count-false (bmp_test (replicate 1984 0)) 15872 (λ j. bmp_test-replicate 1984 j));
    balanced = omega arith;
  },
  refl,
  refl,
  λ j. bmp_test-replicate 1984 j,
)
