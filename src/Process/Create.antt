-- ===== src/Process/Create.antt =====
-- `task_create` where no task has exited: the new task goes to the end of the list.
mod Walk
mod Attach
pub use Attach.*
pub use Walk.*
use mathlib.Core.List.{
  Nodup, Mem, Nodup-cons, Nodup-nil, Nodup-append, not-mem-nil, mem-cons, perm_append_comm,
}
use mathlib.Core.List.Perm
use mathlib.Core.HLevel.{⊥_prop}
use mathlib.Core.Logic.Or
use strixos.Prelude.{
  ℕ, zero, suc, ◌+◌, ◌-◌, ◌*◌, ◌%◌, ◌≤◌, ◌<◌, ◌≡◌, refl, sym, ◌∙◌, ap, ◌≢◌, ◌==◌, ==_ne, ◌⊎◌, inl,
  inr, if◌then◌else◌, Bool, true, false, Bool-cases, Option, none, some, List, [], ◌∷◌, ◌++◌,
  append_assoc, length, length-set, All, All-left, All-right, All-append, take, subst, arith, set,
  add64,
}
use strixos.Pmm.{Pmm, page_size, alloc_pages}
use strixos.Process.{
  Task, TaskState, unused, ready, running, blocked, Sched, task_at, is_unused, task_create,
  find_unused, last_task, filled, link, push_all, first_frame, stack_pages, max_tasks,
  task_name_len,
}
use strixos.Process.Links.{Links, Links-snoc, Links-append}
use strixos.Process.Table.{next-filled, Links-same}
use strixos.Process.Schedule.{IsList, not-mem→All}

-- The state after a task has been created in slot `i`, with `last` the task that it was linked to.
abbrev pub created : ℕ → Sched → ℕ → List ℕ → ℕ → ℕ → Sched
created trampoline s entry name i last =
    let (stack, pmm) = alloc_pages s.pmm stack_pages in
    let top = stack + stack_pages * page_size in
    let (rsp, ram) = push_all (first_frame entry trampoline) (top - top % 16) pmm.ram in
    record s {
      tasks = link (filled s.tasks i s.next_pid entry stack rsp name) last i;
      next_pid = add64 s.next_pid 1;
      pmm = record pmm { ram = ram };
    }

-- The table once the slot is filled, before it is linked.
abbrev pub prepared : ℕ → Sched → ℕ → List ℕ → ℕ → List Task
prepared trampoline s entry name i =
    let (stack, pmm) = alloc_pages s.pmm stack_pages in
    let top = stack + stack_pages * page_size in
    filled s.tasks i s.next_pid entry stack
      (push_all (first_frame entry trampoline) (top - top % 16) pmm.ram).0 name

-- `task_create` once its slot, its stack and the end of the list are found.
pub task_create_run :
    (fuel trampoline : ℕ) (s : Sched) (entry : ℕ) (name : List ℕ) (i h last : ℕ)
    → find_unused s.tasks 0 max_tasks ≡ some i
    → (alloc_pages s.pmm stack_pages).0 ≢ 0
    → s.task_list ≡ some h
    → last_task fuel (prepared trampoline s entry name i) h ≡ some last
    → task_create fuel trampoline s entry name
      ≡ some (some i, created trampoline s entry name i last)
unfolding task_create
task_create_run fuel trampoline s entry name i h last slot stack head walk =
    ground (arith, ==_ne (alloc_pages s.pmm stack_pages).0 0 stack)

-- What `task_create` has done when it returns slot `i`.
pub record Created (s r : Sched) (order : List ℕ) (i : ℕ) : Type 0 where
  pub list : IsList r (order ++ i ∷ [])
  pub was_unused : (task_at s.tasks i).state ≡ unused
  pub states :
      (j : ℕ) → (task_at r.tasks j).state ≡ (if i == j then ready else (task_at s.tasks j).state)
  pub pids :
      (j : ℕ) → (task_at r.tasks j).pid ≡ (if i == j then s.next_pid else (task_at s.tasks j).pid)
  pub next_pid : r.next_pid ≡ add64 s.next_pid 1
  pub same_current : r.current ≡ s.current
  pub same_head : r.task_list ≡ s.task_list

unused_of : (st : TaskState) → is_unused st ≡ true → st ≡ unused
unused_of st e = ground arith

All-ne : (P : ℕ → Type 0) (i : ℕ) (js : List ℕ) → ¬ P i → All P js → All (λ j. j ≢ i) js
All-ne P i [] out h = tt
All-ne P i (j ∷ js) out h = (λ e. out (subst P e h.0), All-ne P i js out h.1)

pub All-imp : (P Q : ℕ → Type 0) (js : List ℕ) → ((j : ℕ) → P j → Q j) → All P js → All Q js
All-imp P Q [] f h = tt
All-imp P Q (j ∷ js) f h = (f j h.0, All-imp P Q js f h.1)

Nodup-snoc : (js : List ℕ) (i : ℕ) → Nodup js → All (λ j. j ≢ i) js → Nodup (js ++ i ∷ [])
Nodup-snoc js i d h = Perm.nodup (perm_append_comm (i ∷ []) js) (Nodup-cons.1 (not_mem js h, d))
  where
    not_mem : (ks : List ℕ) → All (λ j. j ≢ i) ks → ¬ Mem i ks
    not_mem [] h m = not-mem-nil m
    not_mem (k ∷ ks) h m = Or.elim ⊥_prop (mem-cons.0 m) (λ e. h.0 (sym e)) (not_mem ks h.1)

module _ (fuel trampoline : ℕ) (s : Sched) (entry : ℕ) (name : List ℕ) (i h last : ℕ) (xs : List ℕ)
    (list : IsList s (xs ++ last ∷ [])) (head : s.task_list ≡ some h)
    (alive : All (λ j. (task_at s.tasks j).state ≢ unused) (xs ++ last ∷ []))
    (size : length s.tasks ≡ max_tasks) (slot : find_unused s.tasks 0 max_tasks ≡ some i)
    (stack : (alloc_pages s.pmm stack_pages).0 ≢ 0) (enough : length xs < fuel) where
  slot_unused : (task_at s.tasks i).state ≡ unused
  slot_unused = unused_of _ (find_unused_lem s.tasks 0 max_tasks i slot).0

  in_slot : i < length s.tasks
  in_slot = omega (arith, (find_unused_lem s.tasks 0 max_tasks i slot).1)

  not_slot : All (λ j. j ≢ i) (xs ++ last ∷ [])
  not_slot =
      All-ne (λ j. (task_at s.tasks j).state ≢ unused) i (xs ++ last ∷ [])
        (λ live. live slot_unused) alive

  in_last : last < length s.tasks
  in_last = (All-right (λ j. j < length s.tasks) xs (last ∷ []) list.in_table).0

  not_last : All (λ j. j ≢ last) xs
  not_last =
      not-mem→All last xs
        (Nodup-cons.0 (Perm.nodup (perm_append_comm xs (last ∷ [])) list.distinct)).0

  abbrev rsp : ℕ
  rsp =
      let (stack, pmm) = alloc_pages s.pmm stack_pages in
      let top = stack + stack_pages * page_size in
      (push_all (first_frame entry trampoline) (top - top % 16) pmm.ram).0

  abbrev result : Sched
  result = created trampoline s entry name i last

  prepared-Links : Links (prepared trampoline s entry name i) (some h) (xs ++ last ∷ []) none
  prepared-Links =
      Links-same s.tasks _ (some h) (xs ++ last ∷ []) none
        (All-imp (λ j. j ≢ i) _ (xs ++ last ∷ [])
          (λ j ne. ground (
            arith,
            next-filled s.tasks i s.next_pid entry (alloc_pages s.pmm stack_pages).0 rsp name j
                in_slot,
          ))
          not_slot)
        (rw head at list.linked)

  result-Created : Created s result (xs ++ last ∷ []) i
  result-Created = record {
    list = record {
      linked = rw (head, append_assoc xs (last ∷ []) (i ∷ [])) linked;
      distinct = Nodup-snoc (xs ++ last ∷ []) i list.distinct not_slot;
      in_table =
          All-append (λ j. j < length result.tasks) (xs ++ last ∷ []) (i ∷ [])
            (rw sizes list.in_table) (rw sizes in_slot, tt);
    };
    was_unused = slot_unused;
    states =
        attached_state s.tasks i s.next_pid entry (alloc_pages s.pmm stack_pages).0 rsp name last
          in_slot in_last;
    pids =
        attached_pid s.tasks i s.next_pid entry (alloc_pages s.pmm stack_pages).0 rsp name last
          in_slot in_last;
    next_pid = refl;
    same_current = refl;
    same_head = refl;
  }
    where
      sizes : length result.tasks ≡ length s.tasks
      sizes =
          length-attached s.tasks i s.next_pid entry (alloc_pages s.pmm stack_pages).0 rsp name last
            in_slot in_last

      linked : Links result.tasks (some h) (xs ++ last ∷ i ∷ []) none
      linked =
          attached-Links s.tasks i s.next_pid entry (alloc_pages s.pmm stack_pages).0 rsp name last
            in_slot in_last (some h) xs (rw head at list.linked)
            (All-left (λ j. j ≢ i) xs (last ∷ []) not_slot) not_last
            (All-right (λ j. j ≢ i) xs (last ∷ []) not_slot).0

  -- In a table of 16 slots whose list is well formed, where no task of the list has exited, a slot is
  -- free and its stack can be allocated,
  -- `task_create` returns that slot. The new task is ready, with the next process number, and stands
  -- at the end of the list; the other tasks keep their place, state and number. Fuel for each task of
  -- the list is enough.
  pub task_create_appends :
      (r : Sched) × (task_create fuel trampoline s entry name ≡ some (some i, r))
      × Created s r (xs ++ last ∷ []) i
  task_create_appends = (
    result,
    task_create_run fuel trampoline s entry name i h last slot stack head
        (last_task-Links fuel (prepared trampoline s entry name i) h xs last prepared-Links enough),
    result-Created,
  )
