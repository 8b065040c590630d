-- ===== src/Process/Links.antt =====
-- The list through the table of tasks, as a list of slots.
use strixos.Prelude.{
  ℕ, zero, suc, ◌<◌, ◌≡◌, refl, ◌≢◌, ==_ne, if◌then◌else◌, Option, none, some, List, [], ◌∷◌, ◌++◌,
  length, All, arith,
}
use strixos.Process.{Task, task_at, is_ready, after, spin}

-- From `p` the fields `next` lead through the slots of the list to `q`.
abbrev pub Links : List Task → Option ℕ → List ℕ → Option ℕ → Type 0
Links tasks p [] q = p ≡ q
Links tasks p (i ∷ is) q = (p ≡ some i) × Links tasks (task_at tasks i).next is q

pub Links-append :
    (tasks : List Task) (p : Option ℕ) (is js : List ℕ) (j : ℕ)
    → Links tasks p (is ++ j ∷ js) none
    → Links tasks p is (some j) × Links tasks (task_at tasks j).next js none
Links-append tasks p [] js j h = h
Links-append tasks p (i ∷ is) js j h =
    let (a, b) = Links-append tasks (task_at tasks i).next is js j h.1 in ((h.0, a), b)

pub Links-snoc :
    (tasks : List Task) (p : Option ℕ) (is : List ℕ) (j : ℕ) (q : Option ℕ)
    → Links tasks p is (some j)
    → (task_at tasks j).next ≡ q
    → Links tasks p (is ++ j ∷ []) q
Links-snoc tasks p [] j q h e = (h, e)
Links-snoc tasks p (i ∷ is) j q h e = (h.0, Links-snoc tasks (task_at tasks i).next is j q h.1 e)

-- The cyclic order in which `schedule` looks at the tasks: going from `c` by `after` leads through
-- the slots of the list and then to `e`.
abbrev pub Visits : List Task → Option ℕ → ℕ → List ℕ → ℕ → Type 0
Visits tasks l c [] e = c ≡ e
Visits tasks l c (i ∷ is) e = (c ≡ i) × Visits tasks l (after tasks l i) is e

Visits-append :
    (tasks : List Task) (l : Option ℕ) (c : ℕ) (is js : List ℕ) (d e : ℕ)
    → Visits tasks l c is d
    → Visits tasks l d js e
    → Visits tasks l c (is ++ js) e
Visits-append tasks l c [] js d e h k = let q : c ≡ d = h in rw q k
Visits-append tasks l c (i ∷ is) js d e h k =
    (h.0, Visits-append tasks l (after tasks l i) is js d e h.1 k)

after-some :
    (tasks : List Task) (l : Option ℕ) (i j : ℕ)
    → (task_at tasks i).next ≡ some j
    → after tasks l i ≡ j
unfolding after
after-some tasks l i j e = rw (e, after)

after-none :
    (tasks : List Task) (h i : ℕ) → (task_at tasks i).next ≡ none → after tasks (some h) i ≡ h
unfolding after
after-none tasks h i e = rw (e, after)

some-inj : {a b : ℕ} → some a ≡ some b → a ≡ b
some-inj e = cc

-- Up to a task that follows.
Links-Visits :
    (tasks : List Task) (l : Option ℕ) (c : ℕ) (is : List ℕ) (d : ℕ)
    → Links tasks (some c) is (some d)
    → Visits tasks l c is d
Links-Visits tasks l c [] d h = some-inj h
Links-Visits tasks l c (i ∷ []) d h = (some-inj h.0, after-some tasks l i d h.1)
Links-Visits tasks l c (i ∷ j ∷ is) d h = (
  some-inj h.0,
  rw (after-some tasks l i j h.1.0) (Links-Visits tasks l j (j ∷ is) d (refl, h.1.1)),
)

-- Round the end of the list, back to its head.
Links-Visits_end :
    (tasks : List Task) (h i : ℕ) (is : List ℕ)
    → Links tasks (task_at tasks i).next is none
    → Visits tasks (some h) (after tasks (some h) i) is h
Links-Visits_end tasks h i [] e = after-none tasks h i e
Links-Visits_end tasks h i (j ∷ js) e =
    (after-some tasks (some h) i j e.0, Links-Visits_end tasks h j js e.1)

-- The order that begins behind the task `c` and ends with it, in a list of tasks that holds it.
pub rotation :
    (tasks : List Task) (h : ℕ) (xs ys : List ℕ) (c : ℕ)
    → Links tasks (some h) (xs ++ c ∷ ys) none
    → let start = after tasks (some h) c in Visits tasks (some h) start (ys ++ (xs ++ c ∷ [])) start
rotation tasks h xs ys c k =
    let (a, b) = Links-append tasks (some h) xs ys c k in
    Visits-append tasks (some h) _ ys (xs ++ c ∷ []) h _ (Links-Visits_end tasks h c ys b) (
      Visits-append tasks (some h) h xs (c ∷ []) c _ (Links-Visits tasks (some h) h xs c a)
        (refl, refl))

-- The first task of a list that is ready.
abbrev pub first_ready : List Task → List ℕ → Option ℕ
first_ready tasks [] = none
first_ready tasks (i ∷ is) =
    if is_ready (task_at tasks i).state then some i else first_ready tasks is

abbrev pub or_else : Option ℕ → ℕ → ℕ
or_else none d = d
or_else (some a) d = a

-- The loop of `schedule` finds the first ready task of the order, or comes back to its start.
pub spin-first_ready :
    (fuel : ℕ) (tasks : List Task) (l : Option ℕ) (s c : ℕ) (zs : List ℕ)
    → Visits tasks l c (c ∷ zs) s
    → All (λ z. z ≢ s) zs
    → length zs < fuel
    → spin fuel tasks l s c ≡ some (or_else (first_ready tasks (c ∷ zs)) s)
unfolding spin
spin-first_ready zero tasks l s c zs v d lt = absurd (omega arith)
spin-first_ready (suc fuel) tasks l s c [] v d lt = ground arith
spin-first_ready (suc fuel) tasks l s c (z ∷ zs) v d lt =
    let e : after tasks l c ≡ z = v.1.0 in
    ground (
      arith,
      ==_ne z s d.0,
      let rest : spin fuel tasks l s (after tasks l c)
              ≡ some (or_else (first_ready tasks (z ∷ zs)) s) =
            rw e (spin-first_ready fuel tasks l s z zs (refl, v.1.1) d.1 (omega arith)) in
          rest,
    )
