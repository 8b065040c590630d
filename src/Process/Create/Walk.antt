-- ===== src/Process/Create/Walk.antt =====
-- The walk to the end of the list, and the search for a slot.
use strixos.Prelude.{
  ℕ, zero, suc, ◌+◌, ◌<◌, ◌≡◌, refl, inl, inr, true, Bool-cases, none, some, List, [], ◌∷◌, ◌++◌,
  length, arith,
}
use strixos.Process.{Task, task_at, is_unused, find_unused, last_task}
use strixos.Process.Links.{Links}

pub last_task-Links :
    (fuel : ℕ) (tasks : List Task) (h : ℕ) (xs : List ℕ) (l : ℕ)
    → Links tasks (some h) (xs ++ l ∷ []) none
    → length xs < fuel
    → last_task fuel tasks h ≡ some l
unfolding last_task
last_task-Links zero tasks h xs l k lt = absurd (omega arith)
last_task-Links (suc fuel) tasks h [] l k lt = ground arith
last_task-Links (suc fuel) tasks h (x ∷ []) l k lt =
    ground (arith, last_task-Links fuel tasks l [] l (refl, k.1.1) (omega arith))
last_task-Links (suc fuel) tasks h (x ∷ y ∷ xs) l k lt =
    ground (arith, last_task-Links fuel tasks y (y ∷ xs) l (refl, k.1.1) (omega arith))

-- A list that runs into a task which is its own successor has no end.
pub last_task-cycle :
    (fuel : ℕ) (tasks : List Task) (h : ℕ) (xs : List ℕ) (l : ℕ)
    → Links tasks (some h) xs (some l)
    → (task_at tasks l).next ≡ some l
    → last_task fuel tasks h ≡ none
unfolding last_task
last_task-cycle zero tasks h xs l k e = refl
last_task-cycle (suc fuel) tasks h [] l k e =
    ground (arith, last_task-cycle fuel tasks l [] l refl e)
last_task-cycle (suc fuel) tasks h (x ∷ []) l k e =
    ground (arith, last_task-cycle fuel tasks l [] l refl e)
last_task-cycle (suc fuel) tasks h (x ∷ y ∷ xs) l k e =
    ground (arith, last_task-cycle fuel tasks y (y ∷ xs) l (refl, k.1.1) e)

pub find_unused_lem :
    (tasks : List Task) (i n k : ℕ)
    → find_unused tasks i n ≡ some k
    → (is_unused (task_at tasks k).state ≡ true) × (k < i + n)
unfolding find_unused
find_unused_lem tasks i zero k e = absurd (cc)
find_unused_lem tasks i (suc n) k e = elim (Bool-cases (is_unused (task_at tasks i).state)) [
  | inl u ↦ let same : i ≡ k = ground arith in (rw same at u, omega arith)
  | inr u ↦
      let rest = find_unused_lem tasks (i + 1) n k (ground arith) in (rest.0, omega (arith, rest.1))
]
