-- ===== src/Task/Kill.antt =====
-- task_kill() of kernel/task.c on the run list.
use mathlib.Core.Path.{subst}
use lightning_os.Prelude.{
  ℕ, zero, suc, ◌≤◌, ◌<◌, ◌≡◌, refl, sym, ◌⊎◌, inl, inr, Bool, true, false, not, List, [], ◌∷◌,
  arith, ◌==◌, if◌then◌else◌, if_cases, some, length, ◌&&◌, ℤ, pos, neg, Bool-cases, ==_iff,
}
use lightning_os.Task.{Task, Sched, written, dead, is_dead, is_unused, idle, kill_from, task_kill}
use lightning_os.Task.RunList.{occurs, Links, IsRing}

abbrev pub is_target : ℕ → Task → Bool
is_target id t = t.id == id && not (is_unused t.state) && not (is_dead t.state)

-- The first task with this id that is neither unused nor dead is made dead, unless it is the idle
-- task.
pub kill_each : ℕ → (ℕ → Task) → List ℕ → ℤ × (ℕ → Task)
kill_each id t [] = (neg 1, t)
kill_each id t (x ∷ xs) =
    if is_target id (t x)
    then (if x == idle then (neg 2, t) else (pos 0, written t x (record (t x) { state = dead })))
    else kill_each id t xs

kill_from_lem :
    (fuel id c : ℕ) (t : ℕ → Task) (p : ℕ) (ps : List ℕ)
    → Links t p ps c
    → occurs c ps ≡ 0
    → length ps < fuel
    → kill_from fuel id c t p ≡ some (kill_each id t (p ∷ ps))
unfolding kill_from kill_each
kill_from_lem zero id c t p ps h o k = absurd (omega (arith, k))
kill_from_lem (suc fuel) id c t p [] h o k =
    (let last : ((t p).next == c) ≡ true = ground (arith, h) in
      elim (Bool-cases (is_target id (t p))) [ inl e ↦ rw e | inr e ↦ rw (e, last) ])
kill_from_lem (suc fuel) id c t p (x ∷ xs) (e, h) o k =
    let rest : kill_from fuel id c t (t p).next ≡ some (kill_each id t (x ∷ xs)) =
      subst (λ z. kill_from fuel id c t z ≡ some (kill_each id t (x ∷ xs))) (sym e)
        (kill_from_lem fuel id c t x xs h (omega (arith, o)) (omega (arith, k))) in
    (let more : ((t p).next == c) ≡ false = ground (arith, e, o) in
      elim (Bool-cases (is_target id (t p))) [ inl f ↦ rw f | inr f ↦ rw (f, more) rest ])

-- What a call leaves. The result is -1 if no task on the list has the id and is neither unused nor
-- dead, and -2 if that task is the idle task, and then no task changes; or it is 0, and one task that
-- has the id, not the idle task, is dead and no other changes.
abbrev pub Killed : ℕ → (ℕ → Task) → List ℕ → ℤ × (ℕ → Task) → Type 0
Killed id t xs (r, t') =
    (r ≡ neg 1 × (t' ≡ t) × ((x : ℕ) → 1 ≤ occurs x xs → is_target id (t x) ≡ false))
    ⊎ ((r ≡ neg 2 × (t' ≡ t) × (is_target id (t idle) ≡ true))
        ⊎ ((x : ℕ) × (r ≡ pos 0
              × (1 ≤ occurs x xs)
              × ((x == idle) ≡ false)
              × (is_target id (t x) ≡ true)
              × (t' ≡ written t x (record (t x) { state = dead })))))

kill_each-Killed : (id : ℕ) (t : ℕ → Task) (xs : List ℕ) → Killed id t xs (kill_each id t xs)
unfolding kill_each
kill_each-Killed id t [] = inl (refl, refl, λ x h. absurd (omega (arith, h)))
kill_each-Killed id t (y ∷ ys) =
    if_cases (Killed id t (y ∷ ys)) (is_target id (t y)) _ _
      (λ e.
        if_cases (Killed id t (y ∷ ys)) (y == idle) _ _
          (λ b.
            inr (inl (refl, refl, subst (λ z. is_target id (t z) ≡ true) ((==_iff y idle).0 b) e)))
          (λ b. inr (inr (y, (refl, ground arith, b, e, refl)))))
      (λ e. elim (kill_each-Killed id t ys) [
        | inl (a, b, f) ↦ inl (
          a,
          b,
          λ x h. elim (Bool-cases (y == x)) [
            | inl i ↦ subst (λ z. is_target id (t z) ≡ false) ((==_iff y x).0 i) e
            | inr i ↦ f x (ground (arith, h, i))
          ],
        )
        | inr (inl q) ↦ inr (inl q)
        | inr (inr (x, (a, o, b, f, g))) ↦ inr (inr (x, (a, omega (arith, o), b, f, g)))
      ])

-- On a run list, task_kill() ends, given more fuel than there are other tasks, and its result and the
-- table it leaves are as Killed states.
pub task_kill-Killed :
    (fuel : ℕ) (s : Sched) (rest : List ℕ) (id : ℕ)
    → IsRing s.tasks s.current rest
    → length rest < fuel
    → (r : ℤ) × ((t : ℕ → Task) × ((task_kill fuel s id ≡ some (r, record s { tasks = t }))
          × Killed id s.tasks (s.current ∷ rest) (r, t)))
unfolding task_kill
task_kill-Killed fuel s rest id h k =
    let r = kill_each id s.tasks (s.current ∷ rest) in
    let e : kill_from fuel id s.current s.tasks s.current ≡ some r =
      kill_from_lem fuel id s.current s.tasks s.current rest h.links
        (ground (arith, h.once s.current)) k in
    (r.0, (r.1, (rw (task_kill, e), kill_each-Killed id s.tasks (s.current ∷ rest))))
