-- ===== src/Task/Safe.antt =====
-- The invariant of the scheduler of kernel/task.c, and the operations that keep the run list.
use mathlib.Core.Option.{some-injective}
use mathlib.Core.Path.{subst}
use lightning_os.Prelude.{
  ◌&&◌, not, Bool-cases, ℕ, ◌≤◌, ◌<◌, ◌≡◌, refl, sym, ◌⊎◌, inl, inr, true, false, List, [], ◌∷◌,
  arith, ◌==◌, if_cases, some, none, length, ◌≢◌, ==_iff,
}
use lightning_os.Task.{
  Task, Sched, written, is_dead, is_unused, idle, task_max, task_init, task_account_tick,
  task_sleep_ms, task_exit, dead,
}
use lightning_os.Task.Count.{length_le}
use lightning_os.Task.RunList.{occurs, IsRing, IsRing-congr, written_same}

-- The scheduler runs, and the run list holds slots of the table, the idle task among them, not dead.
pub record IsSafe (s : Sched) : Type 0 where
  pub started : s.started ≡ true
  pub rest : List ℕ
  pub ring : IsRing s.tasks s.current rest
  pub in_table : (x : ℕ) → 1 ≤ occurs x (s.current ∷ rest) → (1 ≤ x) × (x ≤ task_max)
  pub idle_lives : is_dead (s.tasks idle).state ≡ false

pub init-IsSafe : (s : Sched) → IsSafe (task_init s)
unfolding task_init
init-IsSafe s = record {
  started = refl;
  rest = [];
  ring = record {
    links = refl;
    once = λ x. ground arith;
    has_idle = refl;
    in_use = λ x h. ground (arith, h);
  };
  in_table = λ x h. ground (arith, h);
  idle_lives = refl;
}

-- A state whose table differs only outside the run list's fields.
same-IsSafe :
    (s : Sched) (t : ℕ → Task) (h : IsSafe s)
    → ((x : ℕ) → (t x).next ≡ (s.tasks x).next)
    → ((x : ℕ) → is_unused (t x).state ≡ is_unused (s.tasks x).state)
    → is_dead (t idle).state ≡ false
    → IsSafe (record s { tasks = t })
same-IsSafe s t h e f d = record {
  started = h.started;
  rest = h.rest;
  ring = IsRing-congr s.tasks t s.current h.rest e f h.ring;
  in_table = h.in_table;
  idle_lives = d;
}

-- The same for one entry of the table.
pub written-IsSafe :
    (s : Sched) (p : ℕ) (v : Task) (h : IsSafe s)
    → v.next ≡ (s.tasks p).next
    → is_unused v.state ≡ is_unused (s.tasks p).state
    → ((p ≢ idle) ⊎ (is_dead v.state ≡ false))
    → IsSafe (record s { tasks = written s.tasks p v })
written-IsSafe s p v h e f d =
    same-IsSafe s (written s.tasks p v) h (λ x. written_same (λ u. u.next) s.tasks p v x e)
      (λ x. written_same (λ u. is_unused u.state) s.tasks p v x f)
      (if_cases (λ u. is_dead u.state ≡ false) (idle == p) v (s.tasks idle)
        (λ b. elim d [ inl n ↦ absurd (n (sym ((==_iff idle p).0 b))) | inr k ↦ k ])
        (λ _. h.idle_lives))

on_ring : (s : Sched) (h : IsSafe s) → is_unused (s.tasks s.current).state ≡ false
on_ring s h = h.ring.in_use s.current (ground (arith, h.ring.once s.current))

pub short : (s : Sched) (h : IsSafe s) → length h.rest < task_max
short s h = omega (arith, length_le task_max (s.current ∷ h.rest) h.in_table h.ring.once)

pub tick-IsSafe : (s : Sched) → IsSafe s → IsSafe (task_account_tick s)
unfolding task_account_tick
tick-IsSafe s h =
    if_cases IsSafe (s.started && not (s.current == 0)) _ _
      (λ _. written-IsSafe s s.current _ h refl refl (elim (Bool-cases (s.current == idle)) [
        | inl b ↦ inr (
            subst (λ z. is_dead (s.tasks z).state ≡ false) (sym ((==_iff s.current idle).0 b))
              h.idle_lives)
        | inr b ↦ inl (ground (arith, b))
      ]))
      (λ _. h)

pub sleep-IsSafe : (s : Sched) (ms now : ℕ) → IsSafe s → IsSafe (task_sleep_ms s ms now)
unfolding task_sleep_ms
sleep-IsSafe s ms now h = written-IsSafe s s.current _ h refl (sym (on_ring s h)) (inr refl)

pub exit-IsSafe : (s s' : Sched) → task_exit s ≡ some s' → IsSafe s → IsSafe s'
unfolding task_exit
exit-IsSafe s s' e h =
    if_cases (λ o. o ≡ some s' → IsSafe s') (s.current == idle) none
      (some (record s {
        tasks = written s.tasks s.current (record (s.tasks s.current) { state = dead });
      }))
      (λ b f. absurd (ground (arith, f)))
      (λ b f. subst IsSafe (some-injective _ _ f) (
        written-IsSafe s s.current (record (s.tasks s.current) { state = dead }) h refl
          (sym (on_ring s h)) (inl (ground (arith, b)))))
      e
