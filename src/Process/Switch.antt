-- ===== src/Process/Switch.antt =====
-- What a switch leaves: one running task, which is the current one.
use strixos.Prelude.{
  ℕ, ◌+◌, ◌<◌, ◌≡◌, refl, ◌∙◌, ◌≢◌, ◌==◌, inl, inr, if◌then◌else◌, Option, none, some, Option-cases,
  List, [], ◌∷◌, ◌++◌, length, All, All-append, All-left, All-right, Bool-cases, arith,
}
use strixos.Process.{Task, ready, running, Sched, task_at, is_ready, schedule, switch_to, set_state}
use strixos.Process.Links.{first_ready}
use strixos.Process.Table.{state-set_state, next-set_state, length-set_state, Links-same, All-intro}
use strixos.Process.Schedule.{IsList, schedule_round_robin, first_ready-is_ready}

-- The task `c` runs, and no other does.
pub record RunsOnly (s : Sched) (c : ℕ) : Type 0 where
  pub now : s.current ≡ some c
  pub runs : (task_at s.tasks c).state ≡ running
  pub alone : (i : ℕ) → i ≢ c → (task_at s.tasks i).state ≢ running

module _ (s : Sched) (c n : ℕ) (order : List ℕ) (list : IsList s order) (only : RunsOnly s c)
    (hc : c < length s.tasks) (hn : n < length s.tasks) (other : n ≢ c) where
  lengths : n < length (set_state s.tasks c ready)
  lengths = omega (arith, length-set_state s.tasks c ready)

  switched_state :
      (i : ℕ)
      → (task_at (switch_to s c n).0.tasks i).state
        ≡ (if n == i then running else if c == i then ready else (task_at s.tasks i).state)
  unfolding switch_to
  switched_state i = rw only.runs (
      ground (
        arith,
        state-set_state (set_state s.tasks c ready) n i running lengths,
        state-set_state s.tasks c i ready hc,
      ))

  switched_next : (i : ℕ) → (task_at (switch_to s c n).0.tasks i).next ≡ (task_at s.tasks i).next
  unfolding switch_to
  switched_next i = rw only.runs (
      next-set_state (set_state s.tasks c ready) n i running lengths
      ∙ next-set_state s.tasks c i ready hc)

  switched_length : length (switch_to s c n).0.tasks ≡ length s.tasks
  unfolding switch_to
  switched_length =
      rw only.runs
        (length-set_state (set_state s.tasks c ready) n running ∙ length-set_state s.tasks c ready)

  switched_list : (switch_to s c n).0.task_list ≡ s.task_list
  unfolding switch_to
  switched_list = refl

  switched_current : (switch_to s c n).0.current ≡ some n
  unfolding switch_to
  switched_current = refl

  switch-IsList : IsList (switch_to s c n).0 order
  switch-IsList = record {
    linked =
        rw switched_list (
          Links-same s.tasks _ s.task_list order none (All-intro _ order switched_next)
            list.linked);
    distinct = list.distinct;
    in_table = rw switched_length list.in_table;
  }

  switch-RunsOnly : RunsOnly (switch_to s c n).0 n
  switch-RunsOnly = record {
    now = switched_current;
    runs = ground (arith, switched_state n);
    alone = λ i ne e. by_state i ne (rw (switched_state i) at e);
  }
    where
      by_state :
          (i : ℕ)
          → i ≢ n
          → (if n == i then running else if c == i then ready else (task_at s.tasks i).state)
            ≡ running
          → ⊥
      by_state i ne e = ground (arith, only.alone i)

first_ready-All :
    (P : ℕ → Type 0) (tasks : List Task) (is : List ℕ) (n : ℕ)
    → All P is
    → first_ready tasks is ≡ some n
    → P n
first_ready-All P tasks [] n h e = absurd (cc)
first_ready-All P tasks (i ∷ is) n h e = elim (Bool-cases (is_ready (task_at tasks i).state)) [
  | inl r ↦ let same : i ≡ n = ground arith in rw same at h.0
  | inr r ↦ first_ready-All P tasks is n h.1 (ground arith)
]

-- Called from the running task of a well-formed list, `schedule` returns within the fuel, the list is
-- unchanged, and exactly one task runs, which is the current one.
pub schedule_one_running :
    (fuel : ℕ) (s : Sched) (h c : ℕ) (xs ys : List ℕ)
    → IsList s (xs ++ c ∷ ys)
    → s.task_list ≡ some h
    → RunsOnly s c
    → length xs + length ys < fuel
    → (r : Sched × Option (ℕ × ℕ)) × (schedule fuel s ≡ some r)
      × IsList r.0 (xs ++ c ∷ ys)
      × ((n : ℕ) × RunsOnly r.0 n)
schedule_one_running fuel s h c xs ys list head only enough =
    elim (Option-cases (first_ready s.tasks (ys ++ xs))) [
      | inl nobody ↦ ((s, none), rw nobody at robin, list, (c, only))
      | inr (n, found) ↦ (
        switch_to s c n,
        rw found at robin,
        switch-IsList s c n _ list only in_c (in_n n found) (other n found),
        (n, switch-RunsOnly s c n _ list only in_c (in_n n found) (other n found)),
      )
    ]
  where
    robin :
        schedule fuel s
        ≡ some
            (elim (first_ready s.tasks (ys ++ xs)) [ none ↦ (s, none) | some n ↦ switch_to s c n ])
    robin = schedule_round_robin s h c xs ys list head only.now only.runs fuel enough

    behind : All (λ i. i < length s.tasks) (c ∷ ys)
    behind = All-right (λ i. i < length s.tasks) xs (c ∷ ys) list.in_table

    in_c : c < length s.tasks
    in_c = behind.0

    in_n : (n : ℕ) → first_ready s.tasks (ys ++ xs) ≡ some n → n < length s.tasks
    in_n n e =
        first_ready-All (λ i. i < length s.tasks) s.tasks (ys ++ xs) n
          (All-append (λ i. i < length s.tasks) ys xs behind.1
            (All-left (λ i. i < length s.tasks) xs (c ∷ ys) list.in_table))
          e

    other : (n : ℕ) → first_ready s.tasks (ys ++ xs) ≡ some n → n ≢ c
    other n e same = cc (first_ready-is_ready s.tasks (ys ++ xs) n e, only.runs)
