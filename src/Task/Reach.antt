-- ===== src/Task/Reach.antt =====
-- Every state that the scheduler of kernel/task.c reaches.
use mathlib.Core.Path.{subst}
use mathlib.Core.Option.{some-injective}
use lightning_os.Prelude.{
  ℕ, ◌≡◌, refl, sym, ap, ◌∙◌, inl, inr, List, ◌∷◌, arith, ◌==◌, Option, some, none, ℤ, ◌≢◌,
  Bool-cases, ==_iff,
}
use lightning_os.Task.{
  Sched, dead, is_dead, idle, task_init, task_spawn, task_schedule, task_account_tick,
  task_sleep_ms, task_exit, task_kill, task_reap,
}
use lightning_os.Task.RunList.{occurs, occurs-append, IsRing}
use lightning_os.Task.Schedule.{woken-dead, task_schedule-Turned}
use lightning_os.Task.Turn.{task_schedule-IsTurned}
use lightning_os.Task.Spawn.{task_spawn-Spawned}
use lightning_os.Task.Kill.{task_kill-Killed}
use lightning_os.Task.Alive.{alive, occurs-alive}
use lightning_os.Task.Reaped.{task_reap_lem}
use lightning_os.Task.Safe.{
  IsSafe, init-IsSafe, written-IsSafe, short, tick-IsSafe, sleep-IsSafe, exit-IsSafe,
}

-- Twice the table, and one.
abbrev pub fuel : ℕ
fuel = 33

-- One operation of the current task, of an interrupt, or of the idle task. A call that panics or
-- does not end has no step.
pub data Step : Sched → Sched → Type 0 where
  spawn :
      (s : Sched) (name : List ℕ) (entry arg stack bootstrap : ℕ)
      → Step s (task_spawn s name entry arg stack bootstrap).1
  tick : (s : Sched) → Step s (task_account_tick s)
  sleep : (s : Sched) (ms now : ℕ) → Step s (task_sleep_ms s ms now)
  exit : (s s' : Sched) → task_exit s ≡ some s' → Step s s'
  schedule :
      (s s' : Sched) (esp now sp : ℕ) → task_schedule fuel s esp now ≡ some (sp, s') → Step s s'
  kill : (s s' : Sched) (id : ℕ) (r : ℤ) → task_kill fuel s id ≡ some (r, s') → Step s s'
  reap : (s s' : Sched) (freed : List ℕ) → task_reap fuel s ≡ some (s', freed) → Step s s'

pub data Reach : Sched → Type 0 where
  start : (s : Sched) → Reach (task_init s)
  go : (s s' : Sched) → Reach s → Step s s' → Reach s'

current_set : (s : Sched) → IsSafe s → s.current ≢ 0
current_set s h e = omega (arith, e, (h.in_table s.current (ground arith)).0)

spawn-IsSafe :
    (s : Sched) (name : List ℕ) (entry arg stack bootstrap : ℕ)
    → IsSafe s
    → IsSafe (task_spawn s name entry arg stack bootstrap).1
spawn-IsSafe s name entry arg stack bootstrap h =
    elim (task_spawn-Spawned s h.rest name entry arg stack bootstrap (current_set s h) h.ring) [
      | inl (a, e, b) ↦ subst IsSafe (sym e) h
      | inr (u, k, l, r, c, ring, b, others) ↦ record {
        started = b ∙ h.started;
        rest = (task_spawn s name entry arg stack bootstrap).0 ∷ h.rest;
        ring =
            subst
              (λ z.
                IsRing (task_spawn s name entry arg stack bootstrap).1.tasks z
                  ((task_spawn s name entry arg stack bootstrap).0 ∷ h.rest))
              (sym c) ring;
        in_table = λ x o. elim (Bool-cases ((task_spawn s name entry arg stack bootstrap).0 == x)) [
          | inl i ↦ (omega (arith, k, (==_iff _ x).0 i), omega (arith, l, (==_iff _ x).0 i))
          | inr i ↦ h.in_table x (ground (arith, o, i, c))
        ];
        idle_lives =
            ap is_dead (others idle (ground (arith, u, h.ring.in_use idle h.ring.has_idle)))
            ∙ h.idle_lives;
      }
    ]

schedule-IsSafe :
    (s s' : Sched) (esp now sp : ℕ)
    → task_schedule fuel s esp now ≡ some (sp, s')
    → IsSafe s
    → IsSafe s'
schedule-IsSafe s s' esp now sp e h =
    let step =
      task_schedule-Turned fuel s h.rest esp now h.started h.ring (omega (arith, short s h)) in
    let r = task_schedule-IsTurned s step.1.0 h.rest esp now step.1.1.1 h.ring in
    let same : step.1.0 ≡ s' =
      ap (λ (z : ℕ × Sched). z.1) (some-injective _ _ (sym step.1.1.0 ∙ e)) in
    subst IsSafe same (record {
      started = step.1.1.1.started;
      rest = r.0;
      ring = r.1.0;
      in_table = λ x o. h.in_table x (
          omega (
            arith,
            o,
            ap (occurs x) r.1.1.was,
            ap (occurs x) r.1.1.is,
            occurs-append x r.1.1.before (step.1.0.current ∷ r.1.1.after),
            occurs-append x r.1.1.after r.1.1.before,
          ));
      idle_lives =
          ap is_dead (step.1.1.1.states idle) ∙ woken-dead s h.rest esp now idle ∙ h.idle_lives;
    })

kill-IsSafe :
    (s s' : Sched) (id : ℕ) (r : ℤ) → task_kill fuel s id ≡ some (r, s') → IsSafe s → IsSafe s'
kill-IsSafe s s' id r e h =
    let k = task_kill-Killed fuel s h.rest id h.ring (omega (arith, short s h)) in
    let same : record s { tasks = k.1.0 } ≡ s' =
      ap (λ (z : ℤ × Sched). z.1) (some-injective _ _ (sym k.1.1.0 ∙ e)) in
    subst IsSafe same (elim k.1.1.1 [
      | inl (a, b, c) ↦ subst (λ t. IsSafe (record s { tasks = t })) (sym b) h
      | inr (inl (a, b, c)) ↦ subst (λ t. IsSafe (record s { tasks = t })) (sym b) h
      | inr (inr (x, (a, b, c, d, f))) ↦
          subst (λ t. IsSafe (record s { tasks = t })) (sym f)
            (written-IsSafe s x (record (s.tasks x) { state = dead }) h refl (ground (arith, d))
              (inl (ground (arith, c))))
    ])

reap-IsSafe :
    (s s' : Sched) (freed : List ℕ) → task_reap fuel s ≡ some (s', freed) → IsSafe s → IsSafe s'
reap-IsSafe s s' freed e h =
    let k = task_reap_lem fuel s h.rest h.ring h.idle_lives (omega (arith, short s h)) in
    let same : record s { tasks = k.0 } ≡ s' =
      ap (λ (z : Sched × List ℕ). z.0) (some-injective _ _ (sym k.1.0 ∙ e)) in
    subst IsSafe same (record {
      started = h.started;
      rest = alive s.tasks h.rest;
      ring = k.1.1;
      in_table = λ x o. h.in_table x (omega (arith, o, occurs-alive s.tasks h.rest x));
      idle_lives = ground (arith, k.1.2 idle, h.idle_lives);
    })

Step-IsSafe : (s s' : Sched) → Step s s' → IsSafe s → IsSafe s'
Step-IsSafe s _ (spawn _ name entry arg stack bootstrap) h =
    spawn-IsSafe s name entry arg stack bootstrap h
Step-IsSafe s _ (tick _) h = tick-IsSafe s h
Step-IsSafe s _ (sleep _ ms now) h = sleep-IsSafe s ms now h
Step-IsSafe s s' (exit _ _ e) h = exit-IsSafe s s' e h
Step-IsSafe s s' (schedule _ _ esp now sp e) h = schedule-IsSafe s s' esp now sp e h
Step-IsSafe s s' (kill _ _ id r e) h = kill-IsSafe s s' id r e h
Step-IsSafe s s' (reap _ _ freed e) h = reap-IsSafe s s' freed e h

Reach-IsSafe : (s : Sched) → Reach s → IsSafe s
Reach-IsSafe _ (start s) = init-IsSafe s
Reach-IsSafe s' (go s _ r step) = Step-IsSafe s s' step (Reach-IsSafe s r)

some_ne : {A : Type 0} (o : Option A) (a : A) → o ≡ some a → o ≢ none
some_ne o a e f = ground (arith, e, f)

-- From task_init() on, whatever the tasks, the interrupts and the idle task do, the scheduler runs,
-- the run list is a ring of slots of the table with the idle task, not dead, on it, and none of
-- task_schedule(), task_kill() and task_reap() loops for more than 33 rounds.
pub Reach-ends :
    (s : Sched)
    → Reach s
    → IsSafe s
      × ((esp now : ℕ) → task_schedule fuel s esp now ≢ none)
      × ((id : ℕ) → task_kill fuel s id ≢ none)
      × (task_reap fuel s ≢ none)
Reach-ends s r =
    let h = Reach-IsSafe s r in
    (
      h,
      λ esp now.
          let k =
            task_schedule-Turned fuel s h.rest esp now h.started h.ring
              (omega (arith, short s h)) in
          some_ne _ _ k.1.1.0,
      λ id.
          let k = task_kill-Killed fuel s h.rest id h.ring (omega (arith, short s h)) in
          some_ne _ _ k.1.1.0,
      let k = task_reap_lem fuel s h.rest h.ring h.idle_lives (omega (arith, short s h)) in
          some_ne _ _ k.1.0,
    )
