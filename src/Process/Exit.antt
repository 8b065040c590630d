-- ===== src/Process/Exit.antt =====
-- A task that has exited stays on the list, and its slot is given out again by `task_create`.
use mathlib.Core.List.{Nodup-cons, perm_middle}
use mathlib.Core.List.Perm
use strixos.Prelude.{
  ℕ, ◌+◌, ◌-◌, ◌*◌, ◌%◌, ◌<◌, ◌≡◌, ◌≢◌, none, some, List, [], ◌∷◌, ◌++◌, length, All, All-left,
  All-right, arith,
}
use strixos.Pmm.{page_size, alloc_pages}
use strixos.Process.{
  Sched, task_at, task_create, find_unused, last_task, stack_pages, max_tasks, push_all,
  first_frame,
}
use strixos.Process.Links.{Links, Links-append, Links-snoc}
use strixos.Process.Table.{next-filled, Links-same}
use strixos.Process.Schedule.{IsList, not-mem→All}
use strixos.Process.Create.{
  created, prepared, task_create_run, last_task-Links, last_task-cycle, attached_next,
  attached-Links_before, All-imp,
}

module _ (fuel trampoline : ℕ) (s : Sched) (entry : ℕ) (name : List ℕ) (i h : ℕ) (xs ys : List ℕ)
    (list : IsList s (xs ++ i ∷ ys)) (head : s.task_list ≡ some h)
    (slot : find_unused s.tasks 0 max_tasks ≡ some i)
    (stack : (alloc_pages s.pmm stack_pages).0 ≢ 0) (enough : length xs < fuel) where
  in_slot : i < length s.tasks
  in_slot = (All-right (λ j. j < length s.tasks) xs (i ∷ ys) list.in_table).0

  not_slot : All (λ j. j ≢ i) xs
  not_slot =
      All-left (λ j. j ≢ i) xs ys
        (not-mem→All i (xs ++ ys) (Nodup-cons.0 (Perm.nodup (perm_middle xs ys) list.distinct)).0)

  before : Links s.tasks (some h) xs (some i)
  before = (Links-append s.tasks (some h) xs ys i (rw head at list.linked)).0

  abbrev rsp : ℕ
  rsp =
      let (stack, pmm) = alloc_pages s.pmm stack_pages in
      let top = stack + stack_pages * page_size in
      (push_all (first_frame entry trampoline) (top - top % 16) pmm.ram).0

  prepared-Links : Links (prepared trampoline s entry name i) (some h) (xs ++ i ∷ []) none
  prepared-Links =
      Links-snoc _ (some h) xs i none
        (Links-same s.tasks _ (some h) xs (some i)
          (All-imp (λ j. j ≢ i) _ xs
            (λ j ne. ground (
              arith,
              next-filled s.tasks i s.next_pid entry (alloc_pages s.pmm stack_pages).0 rsp name j
                  in_slot,
            ))
            not_slot)
          before)
        (ground (
          arith,
          next-filled s.tasks i s.next_pid entry (alloc_pages s.pmm stack_pages).0 rsp name i
              in_slot,
        ))

  abbrev result : Sched
  result = created trampoline s entry name i i

  own_next : (task_at result.tasks i).next ≡ some i
  own_next = ground (
    arith,
    attached_next s.tasks i s.next_pid entry (alloc_pages s.pmm stack_pages).0 rsp name i in_slot
        in_slot i,
  )

  reaches : Links result.tasks (some h) xs (some i)
  reaches =
      attached-Links_before s.tasks i s.next_pid entry (alloc_pages s.pmm stack_pages).0 rsp name i
        in_slot in_slot (some h) xs (some i) before not_slot not_slot

  -- Let the list be well formed, the stack be there and the fuel be above the number of tasks in front
  -- of the slot. If the slot that `task_create` finds unused is on the list, because its task has exited, then the
  -- new task becomes its own successor: the tasks behind it are lost from the list, and no walk to the
  -- end of the list ever stops again.
  pub task_create_reused :
      (r : Sched) × (task_create fuel trampoline s entry name ≡ some (some i, r))
      × ((task_at r.tasks i).next ≡ some i)
      × Links r.tasks (some h) xs (some i)
      × ((more : ℕ) → last_task more r.tasks h ≡ none)
  task_create_reused = (
    result,
    task_create_run fuel trampoline s entry name i h i slot stack head
        (last_task-Links fuel (prepared trampoline s entry name i) h xs i prepared-Links enough),
    own_next,
    reaches,
    λ more. last_task-cycle more result.tasks h xs i reaches own_next,
  )
