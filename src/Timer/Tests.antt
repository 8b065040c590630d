-- ===== src/Timer/Tests.antt =====
-- The theorem of the tick counter at a clock of one task.
use strixos.Prelude.{◌≡◌, some, [], ◌∷◌, arith, replicate}
use strixos.Process.{Sched, blank, ready, running}
use strixos.Timer.{at_tick, schedules, ticks_run, ticks_run-schedules}

abbrev two_tasks : Sched
two_tasks = record {
  tasks =
      record blank { pid = 1; state = running; next = some 1 }
      ∷ record blank { pid = 2; state = ready }
      ∷ replicate 14 blank;
  task_list = some 0;
  current = some 0;
  next_pid = 3;
  pmm = record { bitmap = []; total_pages = 0; free_pages = 0; used_pages = 0; ram = λ a. 0 };
}

-- From tick 5 to tick 30 there are three calls.
ticks_run-schedules_example :
    ticks_run 2 25 (record { ticks = 5; sched = two_tasks }) ≡ at_tick 30 (schedules 2 3 two_tasks)
ticks_run-schedules_example =
    ticks_run-schedules 2 25 (record { ticks = 5; sched = two_tasks }) (omega arith)
