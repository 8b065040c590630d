-- ===== src/Process/Table.antt =====
-- Writes to the table of tasks, and what they leave of the list.
use strixos.Prelude.{
  ℕ, ◌<◌, ◌≡◌, ◌∙◌, ap, ◌==◌, if◌then◌else◌, Option, none, some, List, [], ◌∷◌, length, length-set,
  All, set, get_or-set, arith,
}
use strixos.Process.{Task, TaskState, ready, task_at, set_state, link, filled, blank}
use strixos.Process.Links.{Links}

pub task_at-set :
    (tasks : List Task) (i j : ℕ) (t : Task)
    → i < length tasks
    → task_at (set tasks i t) j ≡ (if i == j then t else task_at tasks j)
task_at-set tasks i j t lt = get_or-set tasks i j t blank lt

pub state-set_state :
    (tasks : List Task) (i j : ℕ) (st : TaskState)
    → i < length tasks
    → (task_at (set_state tasks i st) j).state ≡ (if i == j then st else (task_at tasks j).state)
unfolding set_state
state-set_state tasks i j st lt =
    ground (arith, task_at-set tasks i j (record (task_at tasks i) { state = st }) lt)

pub next-set_state :
    (tasks : List Task) (i j : ℕ) (st : TaskState)
    → i < length tasks
    → (task_at (set_state tasks i st) j).next ≡ (task_at tasks j).next
unfolding set_state
next-set_state tasks i j st lt =
    ground (arith, task_at-set tasks i j (record (task_at tasks i) { state = st }) lt)

pub length-set_state :
    (tasks : List Task) (i : ℕ) (st : TaskState) → length (set_state tasks i st) ≡ length tasks
unfolding set_state
length-set_state tasks i st = length-set tasks i _

-- The list depends on the fields `next` of its slots alone.
pub Links-same :
    (tasks tasks' : List Task) (p : Option ℕ) (is : List ℕ) (q : Option ℕ)
    → All (λ i. (task_at tasks' i).next ≡ (task_at tasks i).next) is
    → Links tasks p is q
    → Links tasks' p is q
Links-same tasks tasks' p [] q same h = h
Links-same tasks tasks' p (i ∷ is) q same h =
    (h.0, rw same.0 (Links-same tasks tasks' (task_at tasks i).next is q same.1 h.1))

pub All-intro {ℓ} : (P : ℕ → Type ℓ) (is : List ℕ) → ((i : ℕ) → P i) → All P is
All-intro P [] h = tt
All-intro P (i ∷ is) h = (h i, All-intro P is h)

-- `cur->next = t` changes the field `next` of one slot and nothing else.
module _ (tasks : List Task) (last i j : ℕ) (h : last < length tasks) where
  pub next-link :
      (task_at (link tasks last i) j).next ≡ (if last == j then some i else (task_at tasks j).next)
  unfolding link
  next-link =
      ground (arith, task_at-set tasks last j (record (task_at tasks last) { next = some i }) h)

  pub state-link : (task_at (link tasks last i) j).state ≡ (task_at tasks j).state
  unfolding link
  state-link =
      ground (arith, task_at-set tasks last j (record (task_at tasks last) { next = some i }) h)

  pub pid-link : (task_at (link tasks last i) j).pid ≡ (task_at tasks j).pid
  unfolding link
  pid-link =
      ground (arith, task_at-set tasks last j (record (task_at tasks last) { next = some i }) h)

pub length-link : (tasks : List Task) (last i : ℕ) → length (link tasks last i) ≡ length tasks
unfolding link
length-link tasks last i = length-set tasks last _

-- Filling a slot writes to that slot alone.
module _ (tasks : List Task) (i pid entry stack rsp : ℕ) (name : List ℕ) (j : ℕ) where
  pub length-filled : length (filled tasks i pid entry stack rsp name) ≡ length tasks
  unfolding filled
  length-filled = length-set tasks i _

  pub next-filled :
      i < length tasks
      → (task_at (filled tasks i pid entry stack rsp name) j).next
        ≡ (if i == j then none else (task_at tasks j).next)
  unfolding filled
  next-filled h = ap (λ t. t.next) (task_at-set tasks i j _ h) ∙ ground arith

  pub state-filled :
      i < length tasks
      → (task_at (filled tasks i pid entry stack rsp name) j).state
        ≡ (if i == j then ready else (task_at tasks j).state)
  unfolding filled
  state-filled h = ap (λ t. t.state) (task_at-set tasks i j _ h) ∙ ground arith

  pub pid-filled :
      i < length tasks
      → (task_at (filled tasks i pid entry stack rsp name) j).pid
        ≡ (if i == j then pid else (task_at tasks j).pid)
  unfolding filled
  pid-filled h = ap (λ t. t.pid) (task_at-set tasks i j _ h) ∙ ground arith
