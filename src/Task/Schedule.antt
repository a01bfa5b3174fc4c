-- ===== src/Task/Schedule.antt =====
-- task_schedule() of kernel/task.c on the run list: whom it picks, and in which order.
use mathlib.Core.Path.{subst}
use lightning_os.Prelude.{
  ◌%◌, ◌^◌, ℕ, ◌+◌, ◌≤◌, ◌<◌, ◌≡◌, refl, sym, ◌∙◌, Bool, true, false, not, ◌&&◌, List, [], ◌∷◌,
  ◌++◌, arith, ◌==◌, if◌then◌else◌, if_cases, ==_iff, length, some, leb,
}
use lightning_os.Task.{
  is_dead, sleeping, unused, dead, ready, Task, Sched, written, is_ready, is_unused, wake,
  task_schedule, wake_sleepers, TaskState, is_sleeping, ready, pick_next,
}
use lightning_os.Task.RunList.{occurs, Links, IsRing, written_same, Links-congr}
use lightning_os.Task.Pick.{
  first_ready, wake_each, wake_each_at, wake_each-next, wake_sleepers_lem, pick_next_lem,
}

-- The table once the current task's stack pointer is saved and the sleepers are woken.
pub woken : Sched → List ℕ → ℕ → ℕ → ℕ → Task
woken s rest esp now =
    wake_each now (s.current ∷ rest)
      (written s.tasks s.current (record (s.tasks s.current) { esp = esp }))

woken_lem :
    (fuel : ℕ) (s : Sched) (rest : List ℕ) (esp now : ℕ)
    → Links
        (written s.tasks s.current (record (s.tasks s.current) { esp = esp }))
        s.current
        rest
        s.current
    → ((x : ℕ) → occurs x (s.current ∷ rest) ≤ 1)
    → length rest < fuel
    → wake_sleepers fuel now s.current
        (written s.tasks s.current (record (s.tasks s.current) { esp = esp }))
      ≡ some (woken s rest esp now)
unfolding woken
woken_lem fuel s rest esp now l o k =
    wake_sleepers_lem fuel now
      (written s.tasks s.current (record (s.tasks s.current) { esp = esp })) s.current rest l o k

wake_each_keeps :
    (P : Task → Type 0) (now : ℕ) (xs : List ℕ) (t : ℕ → Task) (x : ℕ)
    → (P (t x) → P (wake now (t x)))
    → P (t x)
    → P (wake_each now xs t x)
wake_each_keeps P now xs t x h k =
    subst P (sym (wake_each_at now xs t x))
      (if_cases P (occurs x xs == 0) (t x) (wake now (t x)) (λ _. k) (λ _. h k))

woken-next :
    (s : Sched) (rest : List ℕ) (esp now x : ℕ) → (woken s rest esp now x).next ≡ (s.tasks x).next
unfolding woken
woken-next s rest esp now x =
    wake_each-next now (s.current ∷ rest)
      (written s.tasks s.current (record (s.tasks s.current) { esp = esp })) x
    ∙ written_same (λ u. u.next) s.tasks s.current (record (s.tasks s.current) { esp = esp }) x refl

sleeping_unused : (st : TaskState) (b : Bool) → is_sleeping st && b ≡ true → false ≡ is_unused st
sleeping_unused sleeping b h = refl
sleeping_unused unused b h = ground (arith, h)
sleeping_unused ready b h = ground (arith, h)
sleeping_unused dead b h = ground (arith, h)

sleeping_dead : (st : TaskState) (b : Bool) → is_sleeping st && b ≡ true → false ≡ is_dead st
sleeping_dead sleeping b h = refl
sleeping_dead unused b h = refl
sleeping_dead ready b h = refl
sleeping_dead dead b h = ground (arith, h)

wake-unused : (now : ℕ) (t : Task) → is_unused (wake now t).state ≡ is_unused t.state
unfolding wake
wake-unused now t =
    if_cases (λ u. is_unused u.state ≡ is_unused t.state) (is_sleeping t.state && leb t.wake_at now)
      (record t { state = ready }) t (sleeping_unused t.state (leb t.wake_at now)) (λ _. refl)

woken-unused :
    (s : Sched) (rest : List ℕ) (esp now x : ℕ)
    → is_unused (woken s rest esp now x).state ≡ is_unused (s.tasks x).state
unfolding woken
woken-unused s rest esp now x =
    let saved = written s.tasks s.current (record (s.tasks s.current) { esp = esp }) in
    wake_each_keeps (λ u. is_unused u.state ≡ is_unused (s.tasks x).state) now (s.current ∷ rest)
      saved x (λ e. wake-unused now (saved x) ∙ e)
      (written_same (λ u. is_unused u.state) s.tasks s.current
        (record (s.tasks s.current) { esp = esp }) x refl)

wake-ready : (now : ℕ) (t : Task) → is_ready t.state ≡ true → is_ready (wake now t).state ≡ true
unfolding wake
wake-ready now t h =
    if_cases (λ u. is_ready u.state ≡ true) (is_sleeping t.state && leb t.wake_at now)
      (record t { state = ready }) t (λ _. refl) (λ _. h)

pub woken-ready :
    (s : Sched) (rest : List ℕ) (esp now x : ℕ)
    → is_ready (s.tasks x).state ≡ true
    → is_ready (woken s rest esp now x).state ≡ true
unfolding woken
woken-ready s rest esp now x h =
    let saved = written s.tasks s.current (record (s.tasks s.current) { esp = esp }) in
    wake_each_keeps (λ u. is_ready u.state ≡ true) now (s.current ∷ rest) saved x
      (wake-ready now (saved x))
      (written_same (λ u. is_ready u.state) s.tasks s.current
          (record (s.tasks s.current) { esp = esp }) x refl
        ∙ h)

wake-dead : (now : ℕ) (t : Task) → is_dead (wake now t).state ≡ is_dead t.state
unfolding wake
wake-dead now t =
    if_cases (λ u. is_dead u.state ≡ is_dead t.state) (is_sleeping t.state && leb t.wake_at now)
      (record t { state = ready }) t (sleeping_dead t.state (leb t.wake_at now)) (λ _. refl)

pub woken-dead :
    (s : Sched) (rest : List ℕ) (esp now x : ℕ)
    → is_dead (woken s rest esp now x).state ≡ is_dead (s.tasks x).state
unfolding woken
woken-dead s rest esp now x =
    let v = record (s.tasks s.current) { esp = esp } in
    let saved = written s.tasks s.current v in
    wake_each_keeps (λ u. is_dead u.state ≡ is_dead (s.tasks x).state) now (s.current ∷ rest) saved
      x (λ e. wake-dead now (saved x) ∙ e)
      (written_same (λ u. is_dead u.state) s.tasks s.current v x refl)

-- What one call did: whom it made current, and what it kept.
pub record Turned (s s' : Sched) (rest : List ℕ) (esp now : ℕ) : Type 0 where
  pub started : s'.started ≡ true
  pub runs : s'.current ≡ first_ready (woken s rest esp now) (rest ++ s.current ∷ [])
  pub nexts : (x : ℕ) → (s'.tasks x).next ≡ (s.tasks x).next
  pub unuseds : (x : ℕ) → is_unused (s'.tasks x).state ≡ is_unused (s.tasks x).state
  pub states : (x : ℕ) → (s'.tasks x).state ≡ (woken s rest esp now x).state

-- What the call returns, and the state it leaves.
turn : Sched → (ℕ → Task) → ℕ → ℕ → ℕ × Sched
turn s t next esp = if next == s.current then (esp, record s { tasks = t }) else (
  (t next).esp,
  record s {
    tasks = written t next (record (t next) { switches = ((t next).switches + 1) % 2 ^ 64 });
    current = next;
  },
)

task_schedule-turn :
    (fuel : ℕ) (s : Sched) (rest : List ℕ) (esp now : ℕ)
    → s.started ≡ true
    → IsRing s.tasks s.current rest
    → length rest < fuel
    → task_schedule fuel s esp now
      ≡ some (
          turn s
            (woken s rest esp now)
            (first_ready (woken s rest esp now) (rest ++ s.current ∷ []))
            esp)
unfolding task_schedule turn
task_schedule-turn fuel s rest esp now h r k =
    let v = record (s.tasks s.current) { esp = esp } in
    let saved = written s.tasks s.current v in
    let t = woken s rest esp now in
    let l : Links saved s.current rest s.current =
      Links-congr s.tasks saved s.current rest s.current
        (λ x _. written_same (λ u. u.next) s.tasks s.current v x refl) r.links in
    let e₁ : wake_sleepers fuel now s.current saved ≡ some (woken s rest esp now) =
      woken_lem fuel s rest esp now l r.once k in
    let e₂ : pick_next fuel t s.current ≡ some (first_ready t (rest ++ s.current ∷ [])) =
      pick_next_lem fuel t s.current rest
        (Links-congr s.tasks t s.current rest s.current (λ x _. woken-next s rest esp now x)
          r.links)
        r.once k in
    if_cases (λ o. o ≡ some (turn s t (first_ready t (rest ++ s.current ∷ [])) esp)) (not s.started)
      _ _ (λ f. absurd (ground (arith, h, f))) (λ _. rw (e₁, e₂))

turn-Turned :
    (s : Sched) (rest : List ℕ) (esp now next : ℕ)
    → s.started ≡ true
    → next ≡ first_ready (woken s rest esp now) (rest ++ s.current ∷ [])
    → Turned s (turn s (woken s rest esp now) next esp).1 rest esp now
unfolding turn
turn-Turned s rest esp now next h e =
    let t = woken s rest esp now in
    let v = record (t next) { switches = ((t next).switches + 1) % 2 ^ 64 } in
    if_cases (λ (r : ℕ × Sched). Turned s r.1 rest esp now) (next == s.current)
      (esp, record s { tasks = t })
      ((t next).esp, record s { tasks = written t next v; current = next })
      (λ b. record {
        started = h;
        runs = sym ((==_iff next s.current).0 b) ∙ e;
        nexts = woken-next s rest esp now;
        unuseds = woken-unused s rest esp now;
        states = λ x. refl;
      })
      (λ b. record {
        started = h;
        runs = e;
        nexts = λ x. written_same (λ u. u.next) t next v x refl ∙ woken-next s rest esp now x;
        unuseds = λ x.
            written_same (λ u. is_unused u.state) t next v x refl ∙ woken-unused s rest esp now x;
        states = λ x. written_same (λ u. u.state) t next v x refl;
      })

-- On a run list, a call ends and has this effect.
pub task_schedule-Turned :
    (fuel : ℕ) (s : Sched) (rest : List ℕ) (esp now : ℕ)
    → s.started ≡ true
    → IsRing s.tasks s.current rest
    → length rest < fuel
    → (sp : ℕ) × ((s' : Sched) × ((task_schedule fuel s esp now ≡ some (sp, s'))
          × Turned s s' rest esp now))
task_schedule-Turned fuel s rest esp now h r k =
    let next = first_ready (woken s rest esp now) (rest ++ s.current ∷ []) in
    let r' = turn s (woken s rest esp now) next esp in
    (
      r'.0,
      (
        r'.1,
        (task_schedule-turn fuel s rest esp now h r k, turn-Turned s rest esp now next h refl),
      ),
    )
