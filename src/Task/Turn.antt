-- ===== src/Task/Turn.antt =====
-- The run list of kernel/task.c after task_schedule().
use mathlib.Core.Path.{subst}
use lightning_os.Prelude.{
  ℕ, ◌≤◌, ◌<◌, ◌≡◌, refl, sym, ap, ◌∙◌, ◌⊎◌, inl, inr, true, List, [], ◌∷◌, ◌++◌, arith, length,
  some, append-nil, length-append,
}
use lightning_os.Task.{Sched, is_ready, idle, task_schedule}
use lightning_os.Task.RunList.{
  occurs, IsRing, IsRing-congr, IsRing-turn, occurs-Split, occurs-append,
}
use lightning_os.Task.Pick.{first_ready_in, first_ready_ok}
use lightning_os.Task.Schedule.{Turned, woken, task_schedule-Turned}

-- The run list turned to the task that runs: `c` and `rest` before, `c'` and `rest'` after.
pub record IsTurned (c : ℕ) (rest : List ℕ) (c' : ℕ) (rest' : List ℕ) : Type 0 where
  pub before : List ℕ
  pub after : List ℕ
  pub was : ◌≡◌ {A = List ℕ} (c ∷ rest) (before ++ c' ∷ after)
  pub is : ◌≡◌ {A = List ℕ} rest' (after ++ before)

pub Turned-IsRing :
    (s s' : Sched) (rest : List ℕ) (esp now : ℕ) (c' : ℕ) (rest' : List ℕ)
    → Turned s s' rest esp now
    → IsRing s.tasks c' rest'
    → IsRing s'.tasks c' rest'
Turned-IsRing s s' rest esp now c' rest' h r =
    IsRing-congr s.tasks s'.tasks c' rest' h.nexts h.unuseds r

pick_on_ring :
    (s s' : Sched) (rest : List ℕ) (esp now : ℕ)
    → Turned s s' rest esp now
    → IsRing s.tasks s.current rest
    → (s'.current ≡ s.current) ⊎ (1 ≤ occurs s'.current rest)
pick_on_ring s s' rest esp now h r =
    let y = s'.current in
    let e : (y ≡ idle) ⊎ (1 ≤ occurs y (rest ++ s.current ∷ [])) =
      subst (λ z. (z ≡ idle) ⊎ (1 ≤ occurs z (rest ++ s.current ∷ []))) (sym h.runs)
        (first_ready_in (woken s rest esp now) (rest ++ s.current ∷ [])) in
    grind (arith, e, r.has_idle, occurs-append y rest (s.current ∷ []))

-- After a call of task_schedule() the run list is the same ring, turned.
pub task_schedule-IsTurned :
    (s s' : Sched) (rest : List ℕ) (esp now : ℕ)
    → Turned s s' rest esp now
    → IsRing s.tasks s.current rest
    → (rest' : List ℕ) × (IsRing s'.tasks s'.current rest'
        × IsTurned s.current rest s'.current rest')
task_schedule-IsTurned s s' rest esp now h r = elim (pick_on_ring s s' rest esp now h r) [
  | inl e ↦ (
    rest,
    (
      subst (λ z. IsRing s'.tasks z rest) (sym e)
          (Turned-IsRing s s' rest esp now s.current rest h r),
      record {
        before = [];
        after = rest;
        was = ap (λ z. z ∷ rest) (sym e);
        is = sym (append-nil rest);
      },
    ),
  )
  | inr o ↦
      (let p = occurs-Split s'.current rest o in
        (
          p.1.0 ++ s.current ∷ p.0,
          (
            Turned-IsRing s s' rest esp now s'.current (p.1.0 ++ s.current ∷ p.0) h (
                IsRing-turn s.tasks s.current p.0 s'.current p.1.0
                  (subst (IsRing s.tasks s.current) p.1.1 r)),
            record {
              before = s.current ∷ p.0;
              after = p.1.0;
              was = ap (λ z. s.current ∷ z) p.1.1;
              is = refl;
            },
          ),
        ))
]

-- On a run list, task_schedule() ends, given more fuel than there are other tasks. Afterwards the run
-- list is the same ring, turned to the task that runs now, and that task is ready or the idle task.
pub task_schedule_lem :
    (fuel : ℕ) (s : Sched) (rest : List ℕ) (esp now : ℕ)
    → s.started ≡ true
    → IsRing s.tasks s.current rest
    → length rest < fuel
    → (sp : ℕ) × ((s' : Sched) × ((rest' : List ℕ) × ((task_schedule fuel s esp now ≡ some (sp, s'))
            × IsRing s'.tasks s'.current rest'
            × IsTurned s.current rest s'.current rest'
            × ((s'.current ≡ idle) ⊎ (is_ready (s'.tasks s'.current).state ≡ true)))))
task_schedule_lem fuel s rest esp now h r k =
    let step = task_schedule-Turned fuel s rest esp now h r k in
    let s' = step.1.0 in
    let turned = step.1.1.1 in
    let t = woken s rest esp now in
    let ring = task_schedule-IsTurned s s' rest esp now turned r in
    let ok : (s'.current ≡ idle) ⊎ (is_ready (t s'.current).state ≡ true) =
      subst (λ z. (z ≡ idle) ⊎ (is_ready (t z).state ≡ true)) (sym turned.runs)
        (first_ready_ok t (rest ++ s.current ∷ [])) in
    (
      step.0,
      (
        s',
        (
          ring.0,
          (
            step.1.1.0,
            ring.1.0,
            ring.1.1,
            elim ok [ inl e ↦ inl e | inr e ↦ inr (ap is_ready (turned.states s'.current) ∙ e) ],
          ),
        ),
      ),
    )

pub length-IsTurned :
    (c c' : ℕ) (rest rest' : List ℕ) → IsTurned c rest c' rest' → length rest' ≡ length rest
length-IsTurned c c' rest rest' h = omega (
  arith,
  ap length h.was,
  ap length h.is,
  length-append h.before (c' ∷ h.after),
  length-append h.after h.before,
)
