-- ===== src/Process/Schedule.antt =====
-- `schedule` on a well-formed list of tasks is round robin.
use mathlib.Core.List.{Nodup, Mem, Nodup-cons, mem-cons_self, mem-cons_of_mem, perm_append_comm}
use mathlib.Core.List.Perm
use strixos.Prelude.{
  ℕ, suc, ◌+◌, ◌≤◌, ◌<◌, ◌≡◌, refl, sym, ◌∙◌, ◌≢◌, inl, inr, ==_ne, true, false, Bool-cases,
  Option-cases, subst, Option, none, some, List, [], ◌∷◌, ◌++◌, append_assoc, length, length-append,
  All, arith,
}
use strixos.Process.{Task, running, Sched, task_at, is_ready, after, spin, schedule, switch_to}
use strixos.Process.Links.{Links, Visits, rotation, first_ready, or_else, spin-first_ready}

-- The slots `order`, in this order, make up the list of tasks.
pub record IsList (s : Sched) (order : List ℕ) : Type 0 where
  pub linked : Links s.tasks s.task_list order none
  pub distinct : Nodup order
  pub in_table : All (λ i. i < length s.tasks) order

pub not-mem→All : (z : ℕ) (zs : List ℕ) → ¬ Mem z zs → All (λ x. x ≢ z) zs
not-mem→All z [] h = tt
not-mem→All z (x ∷ xs) h = (
  λ e. h (subst (λ y. Mem y (x ∷ xs)) e mem-cons_self),
  not-mem→All z xs (λ m. h (mem-cons_of_mem x m)),
)

first_ready-append :
    (tasks : List Task) (is js : List ℕ)
    → first_ready tasks (is ++ js)
      ≡ elim (first_ready tasks is) [ none ↦ first_ready tasks js | some i ↦ some i ]
first_ready-append tasks [] js = refl
first_ready-append tasks (i ∷ is) js = ground (arith, first_ready-append tasks is js)

pub first_ready-is_ready :
    (tasks : List Task) (is : List ℕ) (n : ℕ)
    → first_ready tasks is ≡ some n
    → is_ready (task_at tasks n).state ≡ true
first_ready-is_ready tasks [] n e = cc
first_ready-is_ready tasks (i ∷ is) n e = elim (Bool-cases (is_ready (task_at tasks i).state)) [
  | inl r ↦ let same : i ≡ n = ground arith in rw (← same) r
  | inr r ↦ first_ready-is_ready tasks is n (ground arith)
]

-- The loop over a whole order.
spin_order :
    (fuel : ℕ) (tasks : List Task) (l : Option ℕ) (s : ℕ) (order : List ℕ)
    → Visits tasks l s order s
    → Nodup order
    → 0 < length order
    → length order ≤ fuel
    → spin fuel tasks l s s ≡ some (or_else (first_ready tasks order) s)
spin_order fuel tasks l s [] v d pos le = absurd (omega arith)
spin_order fuel tasks l s (z ∷ zs) v d pos le =
    let e : s ≡ z = v.0 in
    rw e (
      spin-first_ready fuel tasks l z z zs (rw e at v) (not-mem→All z zs (Nodup-cons.0 d).0)
        (omega arith))

-- Where nothing in the order is ready, its first task is not.
start_not_ready :
    (tasks : List Task) (l : Option ℕ) (s : ℕ) (order : List ℕ)
    → Visits tasks l s order s
    → 0 < length order
    → first_ready tasks order ≡ none
    → is_ready (task_at tasks s).state ≡ false
start_not_ready tasks l s [] v pos e = absurd (omega arith)
start_not_ready tasks l s (z ∷ zs) v pos e = let q : s ≡ z = v.0 in rw q (ground arith)

module _ (s : Sched) (h c : ℕ) (xs ys : List ℕ) (list : IsList s (xs ++ c ∷ ys))
    (head : s.task_list ≡ some h) (now : s.current ≡ some c)
    (runs : (task_at s.tasks c).state ≡ running) where
  order : List ℕ
  order = ys ++ (xs ++ c ∷ [])

  order-Nodup : Nodup order
  unfolding order
  order-Nodup =
      let e : xs ++ c ∷ ys ≡ (xs ++ c ∷ []) ++ ys = sym (append_assoc xs (c ∷ []) ys) in
      Perm.nodup (perm_append_comm (xs ++ c ∷ []) ys) (subst Nodup e list.distinct)

  order-length : length order ≡ suc (length xs + length ys)
  unfolding order
  order-length = omega (arith, length-append {0} ys (xs ++ c ∷ []), length-append {0} xs (c ∷ []))

  start : ℕ
  start = after s.tasks s.task_list c

  order-Visits : Visits s.tasks s.task_list start order start
  unfolding order start
  order-Visits = rw head (rotation s.tasks h xs ys c (rw head at list.linked))

  -- The task that runs is not a candidate.
  order-first_ready : first_ready s.tasks order ≡ first_ready s.tasks (ys ++ xs)
  unfolding order
  order-first_ready = ground (
    arith,
    first_ready-append s.tasks ys (xs ++ c ∷ []),
    first_ready-append s.tasks xs (c ∷ []),
    first_ready-append s.tasks ys xs,
  )

  -- Where the slots `xs ++ c ∷ ys`, all different, are linked from `task_list` on and the current task
  -- `c` is running, `schedule` switches to the first ready task of those behind `c`
  -- in the list and then of those before it; if there is none it changes nothing. Fuel for each task
  -- of the list is enough.
  pub schedule_round_robin :
      (fuel : ℕ)
      → length xs + length ys < fuel
      → schedule fuel s
        ≡ some
            (elim (first_ready s.tasks (ys ++ xs)) [ none ↦ (s, none) | some n ↦ switch_to s c n ])
  unfolding schedule start
  schedule_round_robin fuel enough =
      let looked =
        spin_order fuel s.tasks s.task_list start order order-Visits order-Nodup
          (omega (arith, order-length)) (omega (arith, order-length)) in
      elim (Option-cases (first_ready s.tasks (ys ++ xs))) [
        | inl none_ready ↦
            let nobody : first_ready s.tasks order ≡ none = order-first_ready ∙ none_ready in
            ground (
              arith,
              looked,
              start_not_ready s.tasks s.task_list start order order-Visits
                  (omega (arith, order-length)) nobody,
            )
        | inr (n, found) ↦
            let it : first_ready s.tasks order ≡ some n = order-first_ready ∙ found in
            let is_it = first_ready-is_ready s.tasks (ys ++ xs) n found in
            let other : n ≢ c = λ e. cc in ground (arith, looked, is_it, ==_ne n c other)
      ]
