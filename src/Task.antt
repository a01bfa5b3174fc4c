-- ===== src/Task.antt =====
-- kernel/task.c: the run list and the round robin scheduler. A pointer to `tasks[i]` is i + 1 and
-- NULL is 0, so `idle` is 1. A name is its bytes before the terminator. Each operation runs with
-- interrupts masked, as in the code, and is one step; task_yield() is a call of task_schedule().
-- The heap's answer for a stack, and the tick count, are arguments.
pub mod RunList
pub mod Pick
pub mod Schedule
pub mod Turn
pub mod Fair
pub mod Spawn
pub mod Reap
pub mod Alive
pub mod Reaped
pub mod Kill
pub mod Count
pub mod Safe
pub mod Reach
mod Tests
use lightning_os.Prelude.{
  ℕ, zero, suc, ◌+◌, ◌-◌, ◌/◌, ◌%◌, ◌^◌, Bool, true, false, not, ◌&&◌, ◌||◌, Option, some, none,
  List, [], ◌∷◌, ltb, leb, ◌==◌, if◌then◌else◌, take, ℤ, pos, negsuc, neg,
}

pub data TaskState : Type 0 where
  unused ready sleeping dead : TaskState

pub record Task : Type 0 where
  pub esp : ℕ
  pub id : ℕ
  pub name : List ℕ
  pub state : TaskState
  pub entry : ℕ
  pub arg : ℕ
  pub stack : ℕ
  pub wake_at : ℕ
  pub cpu_ticks : ℕ
  pub switches : ℕ
  pub next : ℕ

-- memset(task, 0, sizeof(*task))
abbrev pub blank : Task
blank = record {
  esp = 0;
  id = 0;
  name = [];
  state = unused;
  entry = 0;
  arg = 0;
  stack = 0;
  wake_at = 0;
  cpu_ticks = 0;
  switches = 0;
  next = 0;
}

-- The fields of boot_frame_t that task_spawn() sets; the others are zero.
pub record BootFrame : Type 0 where
  pub ds : ℕ
  pub eip : ℕ
  pub cs : ℕ
  pub eflags : ℕ

-- The file's static variables, and the frames that task_spawn() wrote.
pub record Sched : Type 0 where
  pub tasks : ℕ → Task
  pub current : ℕ
  pub started : Bool
  pub next_id : ℕ
  pub frames : ℕ → BootFrame

abbrev pub task_max : ℕ
task_max = 16

abbrev pub task_stack_size : ℕ
task_stack_size = 16384

-- sizeof(boot_frame_t): fourteen words.
abbrev pub frame_size : ℕ
frame_size = 56

abbrev pub idle : ℕ
idle = 1

-- A table with another entry at one pointer.
abbrev pub written {ℓ} : {A : Type ℓ} (table : ℕ → A) (p : ℕ) (entry : A) (q : ℕ) → A
written table p entry q = if q == p then entry else table q

abbrev pub is_unused : TaskState → Bool
is_unused unused = true
is_unused _ = false

abbrev pub is_ready : TaskState → Bool
is_ready ready = true
is_ready _ = false

abbrev pub is_sleeping : TaskState → Bool
is_sleeping sleeping = true
is_sleeping _ = false

abbrev pub is_dead : TaskState → Bool
is_dead dead = true
is_dead _ = false

-- alloc_task(): the first unused slot from `p` on, with `left` slots to go, or NULL.
pub alloc_from : (ℕ → Task) → ℕ → ℕ → ℕ
alloc_from t p zero = 0
alloc_from t p (suc left) = if is_unused (t p).state then p else alloc_from t (p + 1) left

pub alloc_task : (ℕ → Task) → ℕ
alloc_task t = alloc_from t 1 task_max

-- list_insert(): behind the current task.
pub list_insert : (ℕ → Task) → ℕ → ℕ → ℕ → Task
list_insert t current task =
    if current == 0
    then written t task (record (t task) { next = task })
    else (let t₁ = written t task (record (t task) { next = (t current).next }) in
        written t₁ current (record (t₁ current) { next = task }))

-- The walk of list_remove() to the predecessor.
pub find_prev : ℕ → (ℕ → Task) → ℕ → ℕ → Option ℕ
find_prev zero t task prev = none
find_prev (suc fuel) t task prev =
    let rest = find_prev fuel t task (t prev).next in
    if not ((t prev).next == task) then rest else some prev

pub list_remove : ℕ → (ℕ → Task) → ℕ → Option (ℕ → Task)
list_remove fuel t task = elim (find_prev fuel t task task) [
  | none ↦ none
  | some prev ↦ some (
      let t₁ = written t prev (record (t prev) { next = (t task).next }) in
      written t₁ task (record (t₁ task) { next = 0 }))
]

-- task_spawn(): `stack` is what kmalloc() returned, and `bootstrap` the address of
-- task_bootstrap().
pub task_spawn : Sched → List ℕ → ℕ → ℕ → ℕ → ℕ → ℕ × Sched
task_spawn s name entry arg stack bootstrap =
    let task = alloc_task s.tasks in
    if task == 0 || stack == 0
    then (0, s)
    else (let frame = stack + task_stack_size - 16 - frame_size in
        let id = (s.next_id + 1) % 2 ^ 32 in
        (
          task,
          record s {
            tasks =
                list_insert
                  (written s.tasks task (record blank {
                    name = take 23 name;
                    id = id;
                    entry = entry;
                    arg = arg;
                    stack = stack;
                    state = ready;
                    esp = frame;
                  }))
                  s.current task;
            next_id = id;
            frames =
                written s.frames frame
                  (record { ds = 0x10; eip = bootstrap; cs = 0x08; eflags = 0x202 });
          },
        ))

pub task_init : Sched → Sched
task_init s = record s {
  tasks =
      written (λ p. blank) idle
        (record blank { name = b'i' ∷ b'd' ∷ b'l' ∷ b'e' ∷ []; state = ready; next = idle });
  current = idle;
  started = true;
}

-- The body of wake_sleepers() for one task.
pub wake : ℕ → Task → Task
wake now t = if is_sleeping t.state && leb t.wake_at now then record t { state = ready } else t

-- wake_sleepers(): a do-while loop round the run list.
pub wake_from : ℕ → ℕ → ℕ → (ℕ → Task) → ℕ → Option (ℕ → Task)
wake_from zero now current t task = none
wake_from (suc fuel) now current t task =
    let t' = written t task (wake now (t task)) in
    let rest = wake_from fuel now current t' (t' task).next in
    if not ((t' task).next == current) then rest else some t'

pub wake_sleepers : ℕ → ℕ → ℕ → (ℕ → Task) → Option (ℕ → Task)
wake_sleepers fuel now current t = wake_from fuel now current t current

-- The loop of pick_next(), round the run list from `start`.
pub pick_from : ℕ → ℕ → (ℕ → Task) → ℕ → Option ℕ
pick_from zero start t task = none
pick_from (suc fuel) start t task =
    let rest = pick_from fuel start t (t task).next in
    if not (task == idle) && is_ready (t task).state
    then some task
    else if not ((t task).next == start)
    then rest
    else some idle

pub pick_next : ℕ → (ℕ → Task) → ℕ → Option ℕ
pick_next fuel t current = pick_from fuel (t current).next t (t current).next

-- task_schedule(): the stack pointer to resume on.
pub task_schedule : ℕ → Sched → ℕ → ℕ → Option (ℕ × Sched)
task_schedule fuel s esp now =
    if not s.started
    then some (esp, s)
    else (let saved = written s.tasks s.current (record (s.tasks s.current) { esp = esp }) in
        elim (wake_sleepers fuel now s.current saved) [
          | none ↦ none
          | some t ↦ elim (pick_next fuel t s.current) [
            | none ↦ none
            | some next ↦ some (
                if next == s.current then (esp, record s { tasks = t }) else (
                  (t next).esp,
                  record s {
                    tasks =
                        written t next
                          (record (t next) { switches = ((t next).switches + 1) % 2 ^ 64 });
                    current = next;
                  },
                ))
          ]
        ])

pub task_account_tick : Sched → Sched
task_account_tick s =
    if s.started && not (s.current == 0)
    then record s {
      tasks =
          written s.tasks s.current (record (s.tasks s.current) {
            cpu_ticks = ((s.tasks s.current).cpu_ticks + 1) % 2 ^ 64;
          });
    }
    else s

-- task_sleep_ms() up to its yield, once the scheduler runs; a tick is ten milliseconds.
pub task_sleep_ms : Sched → ℕ → ℕ → Sched
task_sleep_ms s ms now = record s {
  tasks =
      written s.tasks s.current
        (record (s.tasks s.current) { wake_at = (now + ms / 10) % 2 ^ 64; state = sleeping });
}

-- task_exit() up to its yield: `none` is the panic.
pub task_exit : Sched → Option Sched
task_exit s =
    if s.current == idle
    then none
    else some (record s {
      tasks = written s.tasks s.current (record (s.tasks s.current) { state = dead });
    })

-- The loop of task_kill(): the result, and the table.
pub kill_from : ℕ → ℕ → ℕ → (ℕ → Task) → ℕ → Option (ℤ × (ℕ → Task))
kill_from zero id current t task = none
kill_from (suc fuel) id current t task =
    let rest = kill_from fuel id current t (t task).next in
    if (t task).id == id && not (is_unused (t task).state) && not (is_dead (t task).state)
    then some (
        if task == idle
        then (neg 2, t)
        else (pos 0, written t task (record (t task) { state = dead })))
    else if not ((t task).next == current)
    then rest
    else some (neg 1, t)

-- task_kill() up to its yield.
pub task_kill : ℕ → Sched → ℕ → Option (ℤ × Sched)
task_kill fuel s id = elim (kill_from fuel id s.current s.tasks s.current) [
  | none ↦ none
  | some (r, t) ↦ some (r, record s { tasks = t })
]

-- The loop of task_reap(): the table, and the stacks that kfree() gets.
pub reap_from : ℕ → ℕ → (ℕ → Task) → ℕ → List ℕ → Option ((ℕ → Task) × List ℕ)
reap_from zero current t task freed = none
reap_from (suc fuel) current t task freed =
    let next = (t task).next in
    let skip = reap_from fuel current t next freed in
    let reaped : Option ((ℕ → Task) × List ℕ) = elim (list_remove (suc fuel) t task) [
      | none ↦ none
      | some t' ↦
          reap_from fuel current (written t' task (record (t' task) { state = unused; stack = 0 }))
            next (if (t' task).stack == 0 then freed else (t' task).stack ∷ freed)
    ] in
    if task == current then some (t, freed) else if is_dead (t task).state then reaped else skip

pub task_reap : ℕ → Sched → Option (Sched × List ℕ)
task_reap fuel s = elim (reap_from fuel s.current s.tasks (s.tasks s.current).next []) [
  | none ↦ none
  | some (t, freed) ↦ some (record s { tasks = t }, freed)
]

-- task_count(), and task_at() with NULL for 0 and an index that is not negative.
pub count_from : (ℕ → Task) → ℕ → ℕ → ℕ
count_from t p zero = 0
count_from t p (suc left) = (if is_unused (t p).state then 0 else 1) + count_from t (p + 1) left

pub task_count : Sched → ℕ
task_count s = count_from s.tasks 1 task_max

pub at_from : (ℕ → Task) → ℕ → ℕ → ℕ → ℕ → ℕ
at_from t p zero seen index = 0
at_from t p (suc left) seen index =
    let skip = at_from t (p + 1) left seen index in
    let count = at_from t (p + 1) left (seen + 1) index in
    if is_unused (t p).state then skip else if seen == index then p else count

pub task_at : Sched → ℕ → ℕ
task_at s index = at_from s.tasks 1 task_max 0 index
