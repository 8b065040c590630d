-- ===== src/Process/Tests.antt =====
-- Runs of the scheduler, and its theorems at a table of three tasks.
use mathlib.Core.List.{Nodup, Nodup-cons, Nodup-nil, not-mem-nil, mem-cons}
use mathlib.Core.HLevel.{⊥_prop}
use mathlib.Core.Logic.Or
use strixos.Prelude.{
  ℕ, zero, suc, ◌≡◌, refl, ◌≢◌, Option, none, some, [], ◌∷◌, replicate, arith, get_or,
  get_or-replicate,
}
use strixos.Pmm.{Pmm, alloc_pages, find_run, first_used, bmp_test}
use strixos.Process.{
  Task, TaskState, unused, ready, running, blocked, Sched, blank, task_at, max_tasks, stack_pages,
  task_create, schedule, task_exit, after, spin, switch_to, set_state, find_unused, last_task,
}
use strixos.Process.Links.{Links}
use strixos.Process.Schedule.{IsList, schedule_round_robin}
use strixos.Process.Switch.{RunsOnly, schedule_one_running}
use strixos.Process.Create.{Created, task_create_appends}
use strixos.Process.Exit.{task_create_reused}

abbrev pages : Pmm
pages = record {
  bitmap = 0 ∷ 0 ∷ [];
  total_pages = 16;
  free_pages = 16;
  used_pages = 0;
  ram = λ a. 0;
}

abbrev task : ℕ → TaskState → Option ℕ → Task
task n st next = record blank { pid = n; state = st; next = next }

-- Tasks in slots 0, 2 and 1, in the order of the list; slot 2 is ready.
abbrev three : Sched
three = record {
  tasks =
      task 1 running (some 2) ∷ task 3 blocked none ∷ task 2 ready (some 1) ∷ replicate 13 blank;
  task_list = some 0;
  current = some 0;
  next_pid = 4;
  pmm = pages;
}

distinct_slots : Nodup {A = ℕ} (0 ∷ 2 ∷ 1 ∷ [])
distinct_slots = Nodup-cons.1 (
  λ m.
      Or.elim ⊥_prop (mem-cons.0 m) (λ e. omega arith)
        (λ m. Or.elim ⊥_prop (mem-cons.0 m) (λ e. omega arith) not-mem-nil),
  Nodup-cons.1 (
    λ m. Or.elim ⊥_prop (mem-cons.0 m) (λ e. omega arith) not-mem-nil,
    Nodup-cons.1 (not-mem-nil, Nodup-nil),
  ),
)

three-IsList : IsList three (0 ∷ 2 ∷ 1 ∷ [])
three-IsList = record {
  linked = (refl, (refl, (refl, refl)));
  distinct = distinct_slots;
  in_table = omega arith;
}

three_alone : (i : ℕ) → i ≢ 0 → (task_at three.tasks i).state ≢ running
three_alone zero h e = h refl
three_alone (suc zero) h e = cc
three_alone (suc (suc zero)) h e = cc
three_alone (suc (suc (suc i))) h e = rest i e
  where
    rest : (i : ℕ) → (get_or (replicate 13 blank) i blank).state ≢ running
    rest i e = cc (get_or-replicate 13 i blank)

schedule_round_robin_example : schedule 3 three ≡ some (switch_to three 0 2)
schedule_round_robin_example =
    schedule_round_robin three 0 0 [] (2 ∷ 1 ∷ []) three-IsList refl refl refl 3 (omega arith)

schedule_one_running_example :
    (r : Sched × Option (ℕ × ℕ)) × (schedule 3 three ≡ some r)
    × IsList r.0 (0 ∷ 2 ∷ 1 ∷ [])
    × ((n : ℕ) × RunsOnly r.0 n)
schedule_one_running_example =
    schedule_one_running 3 three 0 0 [] (2 ∷ 1 ∷ []) three-IsList refl
      (record { now = refl; runs = refl; alone = three_alone }) (omega arith)

three_stack : (alloc_pages pages stack_pages).0 ≡ 0x200000
unfolding alloc_pages find_run first_used bmp_test
three_stack = refl

three_stack_ne : (alloc_pages three.pmm stack_pages).0 ≢ 0
three_stack_ne = rw three_stack (omega arith)

three_slot : find_unused three.tasks 0 max_tasks ≡ some 3
unfolding find_unused
three_slot = refl

task_create_appends_example :
    (r : Sched) × (task_create 3 0x5000 three 0x7000 (b'a' ∷ []) ≡ some (some 3, r))
    × Created three r (0 ∷ 2 ∷ 1 ∷ []) 3
task_create_appends_example =
    task_create_appends 3 0x5000 three 0x7000 (b'a' ∷ []) 3 0 1 (0 ∷ 2 ∷ []) three-IsList refl
      ((λ e. cc), ((λ e. cc), ((λ e. cc), tt))) refl three_slot three_stack_ne (omega arith)

-- The task in slot 2 has exited.
abbrev exited : Sched
exited = record three {
  tasks =
      task 1 running (some 2) ∷ task 3 blocked none ∷ task 2 unused (some 1) ∷ replicate 13 blank;
}

exited-IsList : IsList exited (0 ∷ 2 ∷ 1 ∷ [])
exited-IsList = record {
  linked = (refl, (refl, (refl, refl)));
  distinct = distinct_slots;
  in_table = omega arith;
}

exited_slot : find_unused exited.tasks 0 max_tasks ≡ some 2
unfolding find_unused
exited_slot = refl

task_create_reused_example :
    (r : Sched) × (task_create 3 0x5000 exited 0x7000 (b'b' ∷ []) ≡ some (some 2, r))
    × ((task_at r.tasks 2).next ≡ some 2)
    × Links r.tasks (some 0) (0 ∷ []) (some 2)
    × ((more : ℕ) → last_task more r.tasks 0 ≡ none)
task_create_reused_example =
    task_create_reused 3 0x5000 exited 0x7000 (b'b' ∷ []) 2 0 (0 ∷ []) (1 ∷ []) exited-IsList refl
      exited_slot three_stack_ne (omega arith)

abbrev summary : Option (Sched × Option (ℕ × ℕ)) → Option (Option ℕ × Option ℕ × TaskState)
summary none = none
summary (some r) = some (r.0.current, r.0.task_list, (task_at r.0.tasks 0).state)

-- After `task_exit` from slot 0 the next ready task runs, and slot 0 is still the head of the list.
exit_run : summary (task_exit 3 three) ≡ some (some 2, some 0, unused)
unfolding task_exit schedule spin after switch_to set_state
exit_run = refl
