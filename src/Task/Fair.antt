-- ===== src/Task/Fair.antt =====
-- Round robin in kernel/task.c: how long a ready task waits.
use mathlib.Core.Path.{subst}
use mathlib.Core.Option
use lightning_os.Prelude.{
  ℕ, ◌≤◌, ◌<◌, ◌≡◌, refl, sym, ap, ◌∙◌, ◌⊎◌, inl, inr, true, List, [], ◌∷◌, ◌++◌, arith, length,
  Option, some, none, length-append, ◌≢◌, append_assoc,
}
use lightning_os.Task.{Sched, is_ready, idle, task_schedule}
use lightning_os.Task.RunList.{occurs, IsRing, IsRing-turn, occurs-Split}
use lightning_os.Task.Pick.{first_ready, first_ready_before}
use lightning_os.Task.Schedule.{woken, task_schedule-Turned, woken-ready}
use lightning_os.Task.Turn.{Turned-IsRing, length-IsTurned, task_schedule-IsTurned}

-- The calls of the timer interrupts, with the stack pointer and the tick of each: whom they made
-- current.
pub schedule_each : ℕ → Sched → List (ℕ × ℕ) → Option (List ℕ × Sched)
schedule_each fuel s [] = some ([], s)
schedule_each fuel s ((esp, now) ∷ calls) = elim (task_schedule fuel s esp now) [
  | none ↦ none
  | some (sp, s') ↦
      Option.map (λ (r : List ℕ × Sched). (s'.current ∷ r.0, r.1)) (schedule_each fuel s' calls)
]

schedule_each-cons :
    (fuel : ℕ) (s s' last : Sched) (esp now sp : ℕ) (calls : List (ℕ × ℕ)) (chosen : List ℕ)
    → task_schedule fuel s esp now ≡ some (sp, s')
    → schedule_each fuel s' calls ≡ some (chosen, last)
    → schedule_each fuel s ((esp, now) ∷ calls) ≡ some (s'.current ∷ chosen, last)
unfolding schedule_each
schedule_each-cons fuel s s' last esp now sp calls chosen h k =
    rw (schedule_each, h) (ap (Option.map (λ (r : List ℕ × Sched). (s'.current ∷ r.0, r.1))) k)

schedule_each-total :
    (fuel : ℕ) (calls : List (ℕ × ℕ)) (s : Sched) (rest : List ℕ)
    → s.started ≡ true
    → IsRing s.tasks s.current rest
    → length rest < fuel
    → (chosen : List ℕ) × ((last : Sched) × (schedule_each fuel s calls ≡ some (chosen, last)))
unfolding schedule_each
schedule_each-total fuel [] s rest h r k = ([], (s, refl))
schedule_each-total fuel ((esp, now) ∷ calls) s rest h r k =
    let step = task_schedule-Turned fuel s rest esp now h r k in
    let s' = step.1.0 in
    let ring = task_schedule-IsTurned s s' rest esp now step.1.1.1 r in
    let more =
      schedule_each-total fuel calls s' ring.0 step.1.1.1.started ring.1.0
        (omega (arith, k, length-IsTurned s.current s'.current rest ring.0 ring.1.1)) in
    (
      s'.current ∷ more.0,
      (
        more.1.0,
        schedule_each-cons fuel s s' more.1.0 esp now step.0 calls more.0 step.1.1.0 more.1.1,
      ),
    )

-- A ready task other than the idle task, with `before` standing between it and the current task on
-- the run list, is made current by one of the next `length before + 1` calls of task_schedule(),
-- whenever these come; the calls all end.
pub schedule_each-runs :
    (fuel : ℕ) (calls : List (ℕ × ℕ)) (s : Sched) (before : List ℕ) (x : ℕ) (after : List ℕ)
    → s.started ≡ true
    → IsRing s.tasks s.current (before ++ x ∷ after)
    → length (before ++ x ∷ after) < fuel
    → x ≢ idle
    → is_ready (s.tasks x).state ≡ true
    → length before < length calls
    → (chosen : List ℕ) × ((last : Sched) × ((schedule_each fuel s calls ≡ some (chosen, last))
          × (1 ≤ occurs x chosen)))
schedule_each-runs fuel [] s before x after h r k n q l = absurd (omega (arith, l))
schedule_each-runs fuel ((esp, now) ∷ calls) s before x after h r k n q l =
    let rest = before ++ x ∷ after in
    let step = task_schedule-Turned fuel s rest esp now h r k in
    let s' = step.1.0 in
    let turned = step.1.1.1 in
    let t = woken s rest esp now in
    let picked : (s'.current ≡ x) ⊎ (1 ≤ occurs s'.current before) =
      subst (λ z. (z ≡ x) ⊎ (1 ≤ occurs z before))
        (ap (first_ready t) (sym (append_assoc before (x ∷ after) (s.current ∷ [])))
          ∙ sym turned.runs)
        (first_ready_before t before x (after ++ s.current ∷ []) n
          (woken-ready s rest esp now x q)) in
    elim picked [
      | inl e ↦
          (let ring = task_schedule-IsTurned s s' rest esp now turned r in
            let more =
              schedule_each-total fuel calls s' ring.0 turned.started ring.1.0
                (omega (arith, k, length-IsTurned s.current s'.current rest ring.0 ring.1.1)) in
            (
              s'.current ∷ more.0,
              (
                more.1.0,
                (
                  schedule_each-cons fuel s s' more.1.0 esp now step.0 calls more.0 step.1.1.0
                      more.1.1,
                  ground (arith, e),
                ),
              ),
            ))
      | inr o ↦
          (let p = occurs-Split s'.current before o in
            let y = s'.current in
            let eq : ◌≡◌ {A = List ℕ} rest (p.0 ++ y ∷ (p.1.0 ++ x ∷ after)) =
              ap (λ z. z ++ x ∷ after) p.1.1 ∙ append_assoc p.0 (y ∷ p.1.0) (x ∷ after) in
            let eq' : ◌≡◌ {A = List ℕ} ((p.1.0 ++ x ∷ after) ++ s.current ∷ p.0)
                (p.1.0 ++ x ∷ (after ++ s.current ∷ p.0)) =
              append_assoc p.1.0 (x ∷ after) (s.current ∷ p.0) in
            let ring : IsRing s'.tasks y (p.1.0 ++ x ∷ (after ++ s.current ∷ p.0)) =
              subst (IsRing s'.tasks y) eq' (
                Turned-IsRing s s' rest esp now y ((p.1.0 ++ x ∷ after) ++ s.current ∷ p.0) turned (
                  IsRing-turn s.tasks s.current p.0 y (p.1.0 ++ x ∷ after)
                    (subst (IsRing s.tasks s.current) eq r))) in
            let len : length (p.1.0 ++ x ∷ (after ++ s.current ∷ p.0)) < fuel = omega (
              arith,
              k,
              length-append p.1.0 (x ∷ (after ++ s.current ∷ p.0)),
              length-append after (s.current ∷ p.0),
              ap length p.1.1,
              length-append before (x ∷ after),
              length-append p.0 (y ∷ p.1.0),
            ) in
            let more =
              schedule_each-runs fuel calls s' p.1.0 x (after ++ s.current ∷ p.0) turned.started
                ring len n (ap is_ready (turned.states x) ∙ woken-ready s rest esp now x q)
                (omega (arith, l, ap length p.1.1, length-append p.0 (y ∷ p.1.0))) in
            (
              y ∷ more.0,
              (
                more.1.0,
                (
                  schedule_each-cons fuel s s' more.1.0 esp now step.0 calls more.0 step.1.1.0
                      more.1.1.0,
                  omega (arith, more.1.1.1),
                ),
              ),
            ))
    ]
