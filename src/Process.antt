-- ===== src/Process.antt =====
-- kernel/process.c and process.h: the table of tasks, the list through it, and the round-robin
-- scheduler. A pointer to a task is its index in `tasks`, and `none` is the null pointer.
pub mod Links
pub mod Table
pub mod Schedule
pub mod Switch
pub mod Create
pub mod Exit
mod Tests
use strixos.Prelude.{
  ℕ, zero, suc, ◌+◌, ◌-◌, ◌*◌, ◌%◌, ◌==◌, if◌then◌else◌, Bool, true, false, not, Option, none, some,
  List, [], ◌∷◌, map, get_or, set, take, length, add64,
}
use strixos.Pmm.{Pmm, page_size, alloc_pages}

abbrev pub max_tasks : ℕ
max_tasks = 16

abbrev pub stack_pages : ℕ
stack_pages = 4

abbrev pub task_name_len : ℕ
task_name_len = 16

pub data TaskState : Type 0 where
  unused ready running blocked : TaskState

pub record Task : Type 0 where
  pub pid : ℕ
  pub state : TaskState
  pub rsp : ℕ
  pub stack : ℕ
  pub entry : ℕ
  pub name : List ℕ
  pub next : Option ℕ

-- The static variables of the file, and the page allocator that it calls.
pub record Sched : Type 0 where
  pub tasks : List Task
  pub task_list : Option ℕ
  pub current : Option ℕ
  pub next_pid : ℕ
  pub pmm : Pmm

-- An entry of the table before anything is written to it.
abbrev pub blank : Task
blank = record { pid = 0; state = unused; rsp = 0; stack = 0; entry = 0; name = []; next = none }

abbrev pub task_at : List Task → ℕ → Task
task_at tasks i = get_or tasks i blank

abbrev pub is_ready : TaskState → Bool
is_ready ready = true
is_ready _ = false

abbrev pub is_unused : TaskState → Bool
is_unused unused = true
is_unused _ = false

-- `process_init`
pub init : Sched → Sched
init s =
    let cleared = map (λ (t : Task). record t { state = unused }) s.tasks in
    let main = record (task_at cleared 0) {
      pid = s.next_pid;
      state = running;
      entry = 0;
      stack = 0;
      rsp = 0;
      name = take (task_name_len - 1) (b'm' ∷ b'a' ∷ b'i' ∷ b'n' ∷ []);
      next = none;
    } in
    record s {
      tasks = set cleared 0 main;
      task_list = some 0;
      current = some 0;
      next_pid = add64 s.next_pid 1;
    }

-- `*--top = v` for each value in turn: the stack pointer and the memory after it.
pub push_all : List ℕ → ℕ → (ℕ → ℕ) → ℕ × (ℕ → ℕ)
push_all [] top ram = (top, ram)
push_all (v ∷ vs) top ram = push_all vs (top - 8) (λ a. if a == top - 8 then v else ram a)

-- What a new task finds on its stack, in the order in which it is pushed.
pub first_frame : ℕ → ℕ → List ℕ
first_frame entry trampoline = entry ∷ trampoline ∷ 0 ∷ 0 ∷ 0 ∷ 0 ∷ 0 ∷ 0 ∷ 0x202 ∷ []

-- The first unused slot from `i` on, with `n` rounds left.
pub find_unused : List Task → ℕ → ℕ → Option ℕ
find_unused tasks i zero = none
find_unused tasks i (suc n) = elim (is_unused (task_at tasks i).state) [
  | true ↦ some i
  | false ↦ find_unused tasks (i + 1) n
]

-- `while(cur->next) cur=cur->next`, with fuel: `none` means that the fuel ran out.
pub last_task : ℕ → List Task → ℕ → Option ℕ
last_task zero tasks cur = none
last_task (suc fuel) tasks cur = elim (task_at tasks cur).next [
  | none ↦ some cur
  | some i ↦ last_task fuel tasks i
]

-- The table once slot `i` holds the new task, before it is put on the list.
pub filled : List Task → ℕ → ℕ → ℕ → ℕ → ℕ → List ℕ → List Task
filled tasks i pid entry stack rsp name = set tasks i (record (task_at tasks i) {
  pid = pid;
  state = ready;
  entry = entry;
  stack = stack;
  rsp = rsp;
  name = take (task_name_len - 1) name;
  next = none;
})

-- `cur->next = t`
pub link : List Task → ℕ → ℕ → List Task
link tasks last i = set tasks last (record (task_at tasks last) { next = some i })

-- `task_create`: the pointer that it returns, and the state after it. `fuel` bounds the walk to the
-- end of the list; the result is `none` where the walk does not end within it. `trampoline` is the
-- address of the assembly routine that a new task starts in.
pub task_create : ℕ → ℕ → Sched → ℕ → List ℕ → Option (Option ℕ × Sched)
unfolding filled link
task_create fuel trampoline s entry name = elim (find_unused s.tasks 0 max_tasks) [
  | none ↦ some (none, s)
  | some i ↦
      let (stack, pmm) = alloc_pages s.pmm stack_pages in
      let pid = s.next_pid in
      let failed = record s {
        tasks = set s.tasks i (record (task_at s.tasks i) {
          pid = pid;
          state = unused;
          entry = entry;
          stack = stack;
        });
        next_pid = add64 pid 1;
        pmm = pmm;
      } in
      let top = stack + stack_pages * page_size in
      let (rsp, ram) = push_all (first_frame entry trampoline) (top - top % 16) pmm.ram in
      let tasks = filled s.tasks i pid entry stack rsp name in
      let linked = λ (last : ℕ). record s {
        tasks = link tasks last i;
        next_pid = add64 pid 1;
        pmm = record pmm { ram = ram };
      } in
      elim (stack == 0) [
        | true ↦ some (none, failed)
        | false ↦ elim s.task_list [
          | none ↦ none
          | some head ↦ elim (last_task fuel tasks head) [
            | none ↦ none
            | some last ↦ some (some i, linked last)
          ]
        ]
      ]
]

-- `next->next ? next->next : task_list`. The list is not empty once `process_init` has run; an empty
-- one would be a read through the null pointer, for which 0 stands.
pub after : List Task → Option ℕ → ℕ → ℕ
after tasks task_list i = elim (task_at tasks i).next [
  | some j ↦ j
  | none ↦ elim task_list [ some head ↦ head | none ↦ 0 ]
]

-- The `do … while` loop of `schedule`, with fuel.
pub spin : ℕ → List Task → Option ℕ → ℕ → ℕ → Option ℕ
spin zero tasks task_list start next = none
spin (suc fuel) tasks task_list start next = elim (is_ready (task_at tasks next).state) [
  | true ↦ some next
  | false ↦ elim (after tasks task_list next == start) [
    | true ↦ some start
    | false ↦ spin fuel tasks task_list start (after tasks task_list next)
  ]
]

pub set_state : List Task → ℕ → TaskState → List Task
set_state tasks i st = set tasks i (record (task_at tasks i) { state = st })

-- `prev->state = (prev->state==TASK_RUNNING) ? TASK_READY : prev->state`
abbrev pub preempted : TaskState → TaskState
preempted running = ready
preempted st = st

-- The switch to `next`: the new state, and the arguments of the call of `context_switch`, the task
-- whose stack pointer it saves and the stack pointer that it loads.
pub switch_to : Sched → ℕ → ℕ → Sched × Option (ℕ × ℕ)
unfolding set_state
switch_to s prev next = (
  record s {
    tasks =
        set_state (set_state s.tasks prev (preempted (task_at s.tasks prev).state)) next running;
    current = some next;
  },
  some (prev, (task_at s.tasks next).rsp),
)

-- `schedule`: `none` where the loop does not end within the fuel.
pub schedule : ℕ → Sched → Option (Sched × Option (ℕ × ℕ))
schedule fuel s = elim s.current [
  | none ↦ some (s, none)
  | some prev ↦
      let start = after s.tasks s.task_list prev in
      elim (spin fuel s.tasks s.task_list start start) [
        | none ↦ none
        | some next ↦
            if not (is_ready (task_at s.tasks next).state)
            then some (s, none)
            else if next == prev
            then some (s, none)
            else some (switch_to s prev next)
      ]
]

-- `task_exit` up to its final halt: the current task's slot is marked free, and stays on the list.
pub task_exit : ℕ → Sched → Option (Sched × Option (ℕ × ℕ))
unfolding set_state
task_exit fuel s = elim s.current [
  | none ↦ none
  | some i ↦ schedule fuel (record s { tasks = set_state s.tasks i unused })
]
