-- ===== src/Process/Create/Attach.antt =====
-- The table after a slot is filled and linked behind the last task.
use strixos.Prelude.{
  ℕ, ◌<◌, ◌≡◌, refl, ◌∙◌, ap, ◌≢◌, ◌==◌, if◌then◌else◌, Option, none, some, List, [], ◌∷◌, ◌++◌,
  length, All, arith,
}
use strixos.Process.{Task, ready, task_at, link, filled}
use strixos.Process.Links.{Links, Links-append}
use strixos.Process.Table.{
  next-link, state-link, pid-link, length-link, next-filled, state-filled, pid-filled,
  length-filled, Links-same,
}

Links-join :
    (tasks : List Task) (p : Option ℕ) (is js : List ℕ) (q r : Option ℕ)
    → Links tasks p is q
    → Links tasks q js r
    → Links tasks p (is ++ js) r
Links-join tasks p [] js q r h k = let e : p ≡ q = h in rw e k
Links-join tasks p (i ∷ is) js q r h k =
    (h.0, Links-join tasks (task_at tasks i).next is js q r h.1 k)

All-both :
    (P Q R : ℕ → Type 0) (js : List ℕ)
    → ((j : ℕ) → P j → Q j → R j)
    → All P js
    → All Q js
    → All R js
All-both P Q R [] f h k = tt
All-both P Q R (j ∷ js) f h k = (f j h.0 k.0, All-both P Q R js f h.1 k.1)

module _ (tasks : List Task) (i pid entry stack rsp : ℕ) (name : List ℕ) (last : ℕ)
    (hi : i < length tasks) (hl : last < length tasks) where
  abbrev pub attached : List Task
  attached = link (filled tasks i pid entry stack rsp name) last i

  hl' : last < length (filled tasks i pid entry stack rsp name)
  hl' = omega (arith, length-filled tasks i pid entry stack rsp name 0)

  pub length-attached : length attached ≡ length tasks
  length-attached =
      length-link (filled tasks i pid entry stack rsp name) last i
      ∙ length-filled tasks i pid entry stack rsp name 0

  pub attached_next :
      (j : ℕ)
      → (task_at attached j).next
        ≡ (if last == j then some i else if i == j then none else (task_at tasks j).next)
  attached_next j =
      next-link (filled tasks i pid entry stack rsp name) last i j hl'
      ∙ ap (λ x. if last == j then some i else x)
          (next-filled tasks i pid entry stack rsp name j hi)

  pub attached_state :
      (j : ℕ) → (task_at attached j).state ≡ (if i == j then ready else (task_at tasks j).state)
  attached_state j =
      state-link (filled tasks i pid entry stack rsp name) last i j hl'
      ∙ state-filled tasks i pid entry stack rsp name j hi

  pub attached_pid :
      (j : ℕ) → (task_at attached j).pid ≡ (if i == j then pid else (task_at tasks j).pid)
  attached_pid j =
      pid-link (filled tasks i pid entry stack rsp name) last i j hl'
      ∙ pid-filled tasks i pid entry stack rsp name j hi

  -- Behind a list that does not hold the slot, the slot becomes its last task.
  pub attached-Links :
      (p : Option ℕ) (xs : List ℕ)
      → Links tasks p (xs ++ last ∷ []) none
      → All (λ j. j ≢ i) xs
      → All (λ j. j ≢ last) xs
      → last ≢ i
      → Links attached p (xs ++ last ∷ i ∷ []) none
  attached-Links p xs k not_i not_last ne =
      Links-join attached p xs (last ∷ i ∷ []) (some last) none
        (Links-same tasks attached p xs (some last)
          (All-both (λ j. j ≢ i) (λ j. j ≢ last) _ xs (λ j ni nl. ground (arith, attached_next j))
            not_i not_last)
          (Links-append tasks p xs [] last k).0)
        (refl, (ground (arith, attached_next last), ground (arith, attached_next i)))

  -- A list that does not hold the last task or the slot is untouched.
  pub attached-Links_before :
      (p : Option ℕ) (xs : List ℕ) (q : Option ℕ)
      → Links tasks p xs q
      → All (λ j. j ≢ i) xs
      → All (λ j. j ≢ last) xs
      → Links attached p xs q
  attached-Links_before p xs q k not_i not_last =
      Links-same tasks attached p xs q
        (All-both (λ j. j ≢ i) (λ j. j ≢ last) _ xs (λ j ni nl. ground (arith, attached_next j))
          not_i not_last)
        k
