-- ===== src/Shell/Trim.antt =====
-- kernel/shell.c: `trim` on a text with spaces on both sides.
use strixos.Prelude.{
  ℕ, zero, suc, ◌+◌, ◌-◌, ◌≤◌, ◌<◌, ◌≡◌, ◌≢◌, refl, ◌∙◌, ap, subst, ◌==◌, ==_ne, false, List, [],
  ◌∷◌, ◌++◌, length, length-append, length-replicate, take, take-append, get_or, replicate, arith,
}
use strixos.Shell.{space, back_while, is_space, skip_spaces, trim}

skip_spaces-replicate : (a : ℕ) (s : List ℕ) → skip_spaces (replicate a space ++ s) ≡ skip_spaces s
unfolding skip_spaces
skip_spaces-replicate zero s = refl
skip_spaces-replicate (suc a) s = skip_spaces-replicate a s

skip_spaces_none :
    (s t : List ℕ) → 0 < length s → get_or s 0 0 ≢ space → skip_spaces (s ++ t) ≡ s ++ t
unfolding skip_spaces
skip_spaces_none [] t some_text ne = absurd (omega arith)
skip_spaces_none (c ∷ cs) t some_text ne = rw (skip_spaces, ==_ne c space ne) refl

length_padded : (t : List ℕ) (b : ℕ) → length (t ++ replicate b space) ≡ b + length t
length_padded t b = omega (arith, length-append t (replicate b space), length-replicate b space)

space_behind :
    (t : List ℕ) (b j i : ℕ)
    → j < b
    → i ≡ j + length t
    → get_or (t ++ replicate b space) i 0 ≡ space
space_behind [] zero j i lt e = absurd (omega arith)
space_behind [] (suc b) j zero lt e = refl
space_behind [] (suc b) zero (suc i) lt e = absurd (omega arith)
space_behind [] (suc b) (suc j) (suc i) lt e = space_behind [] b j i (omega arith) (omega arith)
space_behind (c ∷ t) b j zero lt e = absurd (omega arith)
space_behind (c ∷ t) b j (suc i) lt e = space_behind t b j i lt (omega arith)

get_or-front : (t r : List ℕ) (i : ℕ) → i < length t → get_or (t ++ r) i 0 ≡ get_or t i 0
get_or-front [] r i lt = absurd (omega arith)
get_or-front (c ∷ t) r zero lt = refl
get_or-front (c ∷ t) r (suc i) lt = get_or-front t r i (omega arith)

-- The loop stops behind the last character that is no space.
back_while-stops :
    (s : List ℕ) (n : ℕ) → 0 < n → get_or s (n - 1) 0 ≢ space → back_while is_space s n ≡ n
unfolding back_while
back_while-stops s zero some_text ne = absurd (omega arith)
back_while-stops s (suc n) some_text ne =
    let same : suc n - 1 ≡ n = omega arith in
    let other : get_or s n 0 ≢ space = subst (λ i. get_or s i 0 ≢ space) same ne in
    let e : (get_or s n 0 == space) ≡ false = ==_ne (get_or s n 0) space other in
    rw (back_while, e) refl

back_while-skips :
    (t : List ℕ) (b j n : ℕ)
    → j ≤ b
    → n ≡ j + length t
    → back_while is_space (t ++ replicate b space) n
      ≡ back_while is_space (t ++ replicate b space) (length t)
unfolding back_while
back_while-skips t b zero n le e =
    let e' : n ≡ length t = omega arith in ap (back_while is_space (t ++ replicate b space)) e'
back_while-skips t b (suc j) zero le e = absurd (omega arith)
back_while-skips t b (suc j) (suc n) le e =
    let blank : get_or (t ++ replicate b space) n 0 ≡ space =
      space_behind t b j n (omega arith) (omega arith) in
    rw (back_while, blank) (back_while-skips t b j n (omega arith) (omega arith))

-- A text that neither starts nor ends with a space is what `trim` leaves of it and any spaces around it.
pub trim-padded :
    (a b : ℕ) (t : List ℕ)
    → 0 < length t
    → get_or t 0 0 ≢ space
    → get_or t (length t - 1) 0 ≢ space
    → trim (replicate a space ++ (t ++ replicate b space)) ≡ t
unfolding trim
trim-padded a b t some_text first last =
    let s = t ++ replicate b space in
    let skipped : skip_spaces (replicate a space ++ s) ≡ s =
      skip_spaces-replicate a s ∙ skip_spaces_none t (replicate b space) some_text first in
    let inner : get_or s (length t - 1) 0 ≢ space =
      rw (get_or-front t (replicate b space) (length t - 1) (omega arith)) last in
    let stop : back_while is_space s (length s) ≡ length t =
      ap (back_while is_space s) (length_padded t b)
      ∙ (back_while-skips t b b (b + length t) (omega arith) refl
          ∙ back_while-stops s (length t) some_text inner) in
    ap (λ u. take (back_while is_space u (length u)) u) skipped
    ∙ (ap (λ n. take n s) stop ∙ take-append t (replicate b space))
