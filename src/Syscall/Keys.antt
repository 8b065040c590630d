-- ===== src/Syscall/Keys.antt =====
-- Reading keys: a line at most.
use strixos.Prelude.{
  ℕ, zero, suc, ◌+◌, ◌-◌, ◌≤◌, ◌<◌, ◌≡◌, refl, sym, ap, subst, ◌==◌, ltb, ◌≢◌, true, false,
  Bool-cases, inl, inr, ◌⊎◌, List, [], ◌∷◌, ◌++◌, length, get_or, arith,
}
use strixos.Syscall.{Kernel, answer, put_bytes, take_keys, on_read}
use strixos.Syscall.Dispatch.{one_of, syscall_handler}

-- What `got` and `rest` are of the keys: the first keys, at most `n`, with an end of a line at most at
-- their end; fewer than `n` only where the line or the keys end.
abbrev pub IsLine : ℕ → List ℕ → List ℕ → List ℕ → Type 0
IsLine n keys got rest =
    (got ++ rest ≡ keys)
    × (length got ≤ n)
    × ((j : ℕ) → j + 1 < length got → get_or got j 0 ≢ 10)
    × ((length got ≡ n) ⊎ ((rest ≡ []) ⊎ (get_or got (length got - 1) 0 ≡ 10)))

longer :
    (n c : ℕ) (keys got rest : List ℕ)
    → c ≢ 10
    → IsLine n keys got rest
    → IsLine (suc n) (c ∷ keys) (c ∷ got) rest
longer n c keys got rest ne (e, le, inner, ends) =
    (ap (λ t. c ∷ t) e, omega (arith, le), before, last got ends)
  where
    before : (j : ℕ) → j + 1 < length (c ∷ got) → get_or (c ∷ got) j 0 ≢ 10
    before zero lt = ne
    before (suc j) lt = inner j (omega arith)

    last :
        (got : List ℕ)
        → ((length got ≡ n) ⊎ ((rest ≡ []) ⊎ (get_or got (length got - 1) 0 ≡ 10)))
        → ((length (c ∷ got) ≡ suc n)
            ⊎ ((rest ≡ []) ⊎ (get_or (c ∷ got) (length (c ∷ got) - 1) 0 ≡ 10)))
    last got (inl full) = inl (ap suc full)
    last got (inr (inl all)) = inr (inl all)
    last [] (inr (inr newline)) = absurd (omega (arith, newline))
    last (d ∷ ds) (inr (inr newline)) =
        let one : length (c ∷ d ∷ ds) - 1 ≡ suc (length (d ∷ ds) - 1) = omega arith in
        inr (inr (rw one newline))

some_key : (n : ℕ) (keys : List ℕ) → 0 < n → 0 < length keys → 0 < length (take_keys n keys).0
unfolding take_keys
some_key zero keys a b = absurd (omega arith)
some_key (suc n) [] a b = absurd (omega arith)
some_key (suc n) (c ∷ keys) a b = ground arith

take_keys-IsLine : (n : ℕ) (keys : List ℕ) → IsLine n keys (take_keys n keys).0 (take_keys n keys).1
unfolding take_keys
take_keys-IsLine zero keys = (refl, omega arith, λ j lt. absurd (omega arith), inl refl)
take_keys-IsLine (suc n) [] = (refl, omega arith, λ j lt. absurd (omega arith), inr (inl refl))
take_keys-IsLine (suc n) (c ∷ keys) = elim (Bool-cases (c == 10)) [
  | inl ends ↦
      let step : take_keys (suc n) (c ∷ keys) ≡ (c ∷ [], keys) = rw (take_keys, ends) refl in
      let here : c ≡ 10 = ground arith in
      subst (λ r. IsLine (suc n) (c ∷ keys) r.0 r.1) (sym step)
        (refl, omega arith, λ j lt. absurd (omega arith), inr (inr here))
  | inr goes ↦
      let step : take_keys (suc n) (c ∷ keys) ≡ (c ∷ (take_keys n keys).0, (take_keys n keys).1) =
        rw (take_keys, goes) refl in
      subst (λ r. IsLine (suc n) (c ∷ keys) r.0 r.1) (sym step)
        (longer n c keys (take_keys n keys).0 (take_keys n keys).1 (ground arith)
          (take_keys-IsLine n keys))
]

-- With keys waiting and room for one, a read of the standard input returns at once; it stores a line of
-- the waiting keys, at least one of them, and leaves the others.
pub read_line_lem :
    (fuel : ℕ) (k : Kernel) (buf len : ℕ)
    → 0 < len
    → 0 < length k.waiting
    → (got : List ℕ) × (rest : List ℕ) × (syscall_handler fuel k 0 0 buf len
        ≡ answer (put_bytes (record k { waiting = rest }) buf got) (length got))
      × (0 < length got)
      × IsLine len k.waiting got rest
unfolding syscall_handler one_of on_read
read_line_lem fuel k buf len room keys =
    let line = take_keys-IsLine len k.waiting in
    let busy : (length k.waiting == 0) ≡ false = ground arith in
    let asked : ltb 0 len ≡ true = ground arith in
    (
      (take_keys len k.waiting).0,
      (take_keys len k.waiting).1,
      rw (on_read, busy, asked) refl,
      some_key len k.waiting room keys,
      line,
    )
