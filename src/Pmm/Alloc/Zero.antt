-- ===== src/Pmm/Alloc/Zero.antt =====
-- The loop that clears the words of a page.
use strixos.Prelude.{ℕ, zero, suc, ◌+◌, ◌*◌, ◌≤◌, ◌<◌, ◌≡◌, refl, ◌⊎◌, ◌==◌, if◌then◌else◌, arith}
use strixos.Pmm.{zero_words}

pub zero_words_outside :
    (b n : ℕ) (ram : ℕ → ℕ) (a : ℕ) → (a < b) ⊎ (b + 8 * n ≤ a) → zero_words b n ram a ≡ ram a
unfolding zero_words
zero_words_outside b zero ram a h = refl
zero_words_outside b (suc n) ram a h =
    ground (arith, zero_words_outside (b + 8) n (λ x. if x == b then 0 else ram x) a)

zero_words_keep : (b n : ℕ) (ram : ℕ → ℕ) (a : ℕ) → ram a ≡ 0 → zero_words b n ram a ≡ 0
unfolding zero_words
zero_words_keep b zero ram a h = h
zero_words_keep b (suc n) ram a h =
    zero_words_keep (b + 8) n (λ x. if x == b then 0 else ram x) a (ground arith)

pub zero_words_inside : (b n : ℕ) (ram : ℕ → ℕ) (k : ℕ) → k < n → zero_words b n ram (b + 8 * k) ≡ 0
unfolding zero_words
zero_words_inside b zero ram k h = absurd (omega arith)
zero_words_inside b (suc n) ram zero h =
    zero_words_keep (b + 8) n (λ x. if x == b then 0 else ram x) (b + 8 * 0) (ground arith)
zero_words_inside b (suc n) ram (suc k) h =
    let e : b + 8 * suc k ≡ b + 8 + 8 * k = omega arith in
    rw e (zero_words_inside (b + 8) n (λ x. if x == b then 0 else ram x) k (omega arith))
