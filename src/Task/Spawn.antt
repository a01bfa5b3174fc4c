-- ===== src/Task/Spawn.antt =====
-- task_spawn() of kernel/task.c on the run list.
use mathlib.Core.Path.{subst}
use lightning_os.Prelude.{
  ℕ, zero, suc, ◌+◌, ◌≤◌, ◌<◌, ◌≡◌, refl, sym, ap, ◌⊎◌, inl, inr, true, false, ◌||◌, List, ◌∷◌,
  arith, ◌==◌, if◌then◌else◌, if_cases, ==_iff, Bool-cases, ◌≢◌,
}
use lightning_os.Task.{
  Task, Sched, written, is_ready, is_unused, alloc_from, alloc_task, list_insert, task_spawn,
  task_max,
}
use lightning_os.Task.RunList.{occurs, IsRing, Links-head}

-- The slot is the first unused one, or 0 if there is none.
pub alloc_from_lem :
    (left : ℕ) (t : ℕ → Task) (p : ℕ)
    → 1 ≤ p
    → (alloc_from t p left ≡ 0 × ((x : ℕ) → p ≤ x → x < p + left → is_unused (t x).state ≡ false))
      ⊎ (is_unused (t (alloc_from t p left)).state ≡ true
          × (p ≤ alloc_from t p left)
          × (alloc_from t p left < p + left))
unfolding alloc_from
alloc_from_lem zero t p h = inl (refl, λ x k l. absurd (omega (arith, k, l)))
alloc_from_lem (suc left) t p h =
    if_cases
      (λ z.
        (z ≡ 0 × ((x : ℕ) → p ≤ x → x < p + suc left → is_unused (t x).state ≡ false))
        ⊎ (is_unused (t z).state ≡ true × (p ≤ z) × (z < p + suc left)))
      (is_unused (t p).state) p (alloc_from t (p + 1) left) (λ e. inr (e, omega arith, omega arith))
      (λ e. elim (alloc_from_lem left t (p + 1) (omega arith)) [
        | inl (z, f) ↦ inl (
          z,
          λ x k l. elim (Bool-cases (x == p)) [
            | inl b ↦ subst (λ y. is_unused (t y).state ≡ false) (sym ((==_iff x p).0 b)) e
            | inr b ↦ f x (ground (arith, k, b)) (omega (arith, l))
          ],
        )
        | inr (u, k, l) ↦ inr (u, omega (arith, k), omega (arith, l))
      ])

list_insert-next :
    (t : ℕ → Task) (c task : ℕ) (v : Task) (x : ℕ)
    → c ≢ 0
    → (c == task) ≡ false
    → (list_insert (written t task v) c task x).next
      ≡ (if x == c then task else if x == task then (t c).next else (t x).next)
unfolding list_insert
list_insert-next t c task v x h k = ground (arith, h, k)

list_insert-state :
    (t : ℕ → Task) (c task : ℕ) (v : Task) (x : ℕ)
    → (list_insert (written t task v) c task x).state ≡ (written t task v x).state
unfolding list_insert
list_insert-state t c task v x = ground arith

inserted-state :
    (t : ℕ → Task) (c task : ℕ) (v : Task)
    → (list_insert (written t task v) c task task).state ≡ v.state
inserted-state t c task v = ground (arith, list_insert-state t c task v task)

inserted-others :
    (t : ℕ → Task) (c task : ℕ) (v : Task) (x : ℕ)
    → (x == task) ≡ false
    → (list_insert (written t task v) c task x).state ≡ (t x).state
inserted-others t c task v x h = ground (arith, list_insert-state t c task v x, h)

alloc_task_lem :
    (t : ℕ → Task)
    → (alloc_task t ≡ 0 × ((x : ℕ) → 1 ≤ x → x ≤ task_max → is_unused (t x).state ≡ false))
      ⊎ (is_unused (t (alloc_task t)).state ≡ true × (1 ≤ alloc_task t) × (alloc_task t ≤ task_max))
unfolding alloc_task
alloc_task_lem t = elim (alloc_from_lem task_max t 1 (omega arith)) [
  | inl (e, f) ↦ inl (e, λ x k l. f x k (omega (arith, l)))
  | inr (u, k, l) ↦ inr (u, k, omega (arith, l))
]

-- An unused task that is written and inserted stands behind the current task.
pub list_insert-IsRing :
    (t : ℕ → Task) (c : ℕ) (rest : List ℕ) (task : ℕ) (v : Task)
    → c ≢ 0
    → is_unused (t task).state ≡ true
    → is_unused v.state ≡ false
    → IsRing t c rest
    → IsRing (list_insert (written t task v) c task) c (task ∷ rest)
list_insert-IsRing t c rest task v h k l r =
    let T = list_insert (written t task v) c task in
    let off : occurs task (c ∷ rest) ≡ 0 = grind (arith, k, r.once task, r.in_use task) in
    let apart : (c == task) ≡ false = ground (arith, off) in
    let next = list_insert-next t c task v in
    let at_c : (T c).next ≡ task = ground (arith, next c h apart) in
    let at_task : (T task).next ≡ (t c).next = ground (arith, next task h apart, apart) in
    let others : (x : ℕ) → 1 ≤ occurs x rest → (T x).next ≡ (t x).next =
      λ x o. ground (arith, next x h apart, o, r.once x, off) in
    record {
      links = (at_c, Links-head t T c task rest c at_task others r.links);
      once = λ x. ground (arith, r.once x, off);
      has_idle = ground (arith, r.has_idle, off);
      in_use = λ x o. ground (arith, list_insert-state t c task v x, l, o, r.in_use x);
    }

-- What a call leaves. If it returns 0, nothing changes, and either no stack was given or every slot
-- is in use. Otherwise it returns a slot that was unused; the task in it is ready and stands behind
-- the current task on the run list, and no other task's state changes.
abbrev pub Spawned : Sched → List ℕ → ℕ → ℕ × Sched → Type 0
Spawned s rest stack (task, s') =
    (task ≡ 0
      × (s' ≡ s)
      × ((stack ≡ 0) ⊎ ((x : ℕ) → 1 ≤ x → x ≤ task_max → is_unused (s.tasks x).state ≡ false)))
    ⊎ (is_unused (s.tasks task).state ≡ true
        × (1 ≤ task)
        × (task ≤ task_max)
        × (is_ready (s'.tasks task).state ≡ true)
        × (s'.current ≡ s.current)
        × IsRing s'.tasks s.current (task ∷ rest)
        × (s'.started ≡ s.started)
        × ((x : ℕ) → (x == task) ≡ false → (s'.tasks x).state ≡ (s.tasks x).state))

-- On a run list, task_spawn() has the effect that Spawned states, whatever kmalloc() returned.
pub task_spawn-Spawned :
    (s : Sched) (rest name : List ℕ) (entry arg stack bootstrap : ℕ)
    → s.current ≢ 0
    → IsRing s.tasks s.current rest
    → Spawned s rest stack (task_spawn s name entry arg stack bootstrap)
unfolding task_spawn
task_spawn-Spawned s rest name entry arg stack bootstrap h r =
    let task = alloc_task s.tasks in
    let found = alloc_task_lem s.tasks in
    if_cases (Spawned s rest stack) (task == 0 || stack == 0) _ _
      (λ e. inl (
        refl,
        refl,
        elim found [ inl (z, f) ↦ inr f | inr (u, k, l) ↦ inl (ground (arith, e, k)) ],
      ))
      (λ e. elim found [
        | inl (z, f) ↦ absurd (ground (arith, e, z))
        | inr (u, k, l) ↦ inr (
          u,
          k,
          l,
          ap is_ready (inserted-state s.tasks s.current task _),
          refl,
          list_insert-IsRing s.tasks s.current rest task _ h u refl r,
          refl,
          inserted-others s.tasks s.current task _,
        )
      ])
