-- ===== src/Task/Tests.antt =====
-- Concrete runs of kernel/task.c.
use lightning_os.Task.Reach.{fuel, Reach, Step, Reach-ends}
use lightning_os.Task.Safe.{IsSafe}
use lightning_os.Prelude.{◌≢◌, ℕ, ◌≤◌, ◌≡◌, refl, ◌⊎◌, true, List, [], ◌∷◌, some, arith, ℤ, none}
use lightning_os.Task.{
  task_init, Task, Sched, ready, dead, written, blank, idle, is_ready, task_schedule, task_spawn,
  task_kill, task_reap,
}
use lightning_os.Task.RunList.{occurs, IsRing}
use lightning_os.Task.Turn.{task_schedule_lem, IsTurned}
use lightning_os.Task.Fair.{schedule_each, schedule_each-runs}
use lightning_os.Task.Spawn.{Spawned, task_spawn-Spawned}
use lightning_os.Task.Alive.{alive, stacks, state_after}
use lightning_os.Task.Reaped.{task_reap_lem}
use lightning_os.Task.Kill.{Killed, task_kill-Killed}

-- The idle task runs; task 2 is ready and task 3 is dead.
abbrev table : ℕ → Task
table =
    written
      (written (written (λ p. blank) 1 (record blank { state = ready; next = 2 })) 2
        (record blank { state = ready; id = 1; next = 3; stack = 4096; esp = 20400 }))
      3 (record blank { state = dead; id = 2; next = 1; stack = 24576 })

abbrev sched : Sched
sched = record {
  tasks = table;
  current = 1;
  started = true;
  next_id = 2;
  frames = λ p. record { ds = 0; eip = 0; cs = 0; eflags = 0 };
}

abbrev others : List ℕ
others = 2 ∷ 3 ∷ []

table-IsRing : IsRing table 1 others
table-IsRing = record {
  links = (refl, (refl, refl));
  once = λ x. ground arith;
  has_idle = refl;
  in_use = λ x h. ground (arith, h);
}

task_schedule_lem_example :
    (sp : ℕ) × ((s' : Sched) × ((rest' : List ℕ) × ((task_schedule 16 sched 7000 5 ≡ some (sp, s'))
          × IsRing s'.tasks s'.current rest'
          × IsTurned 1 others s'.current rest'
          × ((s'.current ≡ idle) ⊎ (is_ready (s'.tasks s'.current).state ≡ true)))))
task_schedule_lem_example = task_schedule_lem 16 sched others 7000 5 refl table-IsRing (omega arith)

schedule_each-runs_example :
    (chosen : List ℕ) × ((last : Sched) × ((schedule_each 16 sched ((7000, 5) ∷ [])
          ≡ some (chosen, last))
        × (1 ≤ occurs 2 chosen)))
schedule_each-runs_example =
    schedule_each-runs 16 ((7000, 5) ∷ []) sched [] 2 (3 ∷ []) refl table-IsRing (omega arith)
      (λ e. omega (arith, e)) refl (omega arith)

task_spawn-Spawned_example :
    Spawned sched others 40960 (task_spawn sched (b's' ∷ b'h' ∷ []) 1048576 0 40960 1052672)
task_spawn-Spawned_example =
    task_spawn-Spawned sched others (b's' ∷ b'h' ∷ []) 1048576 0 40960 1052672
      (λ e. omega (arith, e)) table-IsRing

task_reap_lem_example :
    (t : ℕ → Task) × ((task_reap 16 sched
        ≡ some (record sched { tasks = t }, stacks table others []))
      × IsRing t 1 (alive table others)
      × ((x : ℕ) → (t x).state ≡ state_after table others x))
task_reap_lem_example = task_reap_lem 16 sched others table-IsRing refl (omega arith)

task_kill-Killed_example :
    (r : ℤ) × ((t : ℕ → Task) × ((task_kill 16 sched 1 ≡ some (r, record sched { tasks = t }))
        × Killed 1 table (1 ∷ others) (r, t)))
task_kill-Killed_example = task_kill-Killed 16 sched others 1 table-IsRing (omega arith)

-- The idle task spawns a task.
abbrev spawned : Sched
spawned = (task_spawn (task_init sched) (b's' ∷ b'h' ∷ []) 1048576 0 40960 1052672).1

Reach-ends_example :
    IsSafe spawned
    × ((esp now : ℕ) → task_schedule fuel spawned esp now ≢ none)
    × ((id : ℕ) → task_kill fuel spawned id ≢ none)
    × (task_reap fuel spawned ≢ none)
Reach-ends_example = Reach-ends spawned (
    Reach.go (task_init sched) spawned (Reach.start sched)
      (Step.spawn (task_init sched) (b's' ∷ b'h' ∷ []) 1048576 0 40960 1052672))
