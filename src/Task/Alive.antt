-- ===== src/Task/Alive.antt =====
-- What task_reap() of kernel/task.c leaves of a list of tasks.
use lightning_os.Prelude.{
  ℕ, ◌≤◌, ◌≡◌, refl, ap, not, List, [], ◌∷◌, arith, ◌==◌, if◌then◌else◌, ◌&&◌,
}
use lightning_os.Task.{Task, TaskState, unused, is_dead}
use lightning_os.Task.RunList.{occurs}

-- The tasks that are not dead, in order.
unfoldable pub alive : (ℕ → Task) → List ℕ → List ℕ
alive t [] = []
alive t (x ∷ xs) = if is_dead (t x).state then alive t xs else x ∷ alive t xs

pub alive_congr :
    (t t' : ℕ → Task) (xs : List ℕ)
    → ((x : ℕ) → 1 ≤ occurs x xs → (t' x).state ≡ (t x).state)
    → alive t' xs ≡ alive t xs
unfolding alive
alive_congr t t' [] h = refl
alive_congr t t' (y ∷ ys) h =
    let e : is_dead (t' y).state ≡ is_dead (t y).state = ap is_dead (h y (ground arith)) in
    let rest = alive_congr t t' ys (λ x o. h x (omega (arith, o))) in rw (e, rest)

pub occurs-alive : (t : ℕ → Task) (xs : List ℕ) (x : ℕ) → occurs x (alive t xs) ≤ occurs x xs
unfolding alive
occurs-alive t [] x = omega arith
occurs-alive t (y ∷ ys) x = ground (arith, occurs-alive t ys x)

-- The stacks of the dead tasks, in the order in which they are freed, the last first.
unfoldable pub stacks : (ℕ → Task) → List ℕ → List ℕ → List ℕ
stacks t [] freed = freed
stacks t (x ∷ xs) freed = stacks t xs (
    if is_dead (t x).state
    then (if (t x).stack == 0 then freed else (t x).stack ∷ freed)
    else freed)

pub stacks_congr :
    (t t' : ℕ → Task) (xs freed : List ℕ)
    → ((x : ℕ) → 1 ≤ occurs x xs → (t' x).state ≡ (t x).state)
    → ((x : ℕ) → 1 ≤ occurs x xs → (t' x).stack ≡ (t x).stack)
    → stacks t' xs freed ≡ stacks t xs freed
unfolding stacks
stacks_congr t t' [] freed h k = refl
stacks_congr t t' (y ∷ ys) freed h k =
    let e : is_dead (t' y).state ≡ is_dead (t y).state = ap is_dead (h y (ground arith)) in
    let f : (t' y).stack ≡ (t y).stack = k y (ground arith) in
    rw (e, f)
      (stacks_congr t t' ys
        (if is_dead (t y).state
          then (if (t y).stack == 0 then freed else (t y).stack ∷ freed)
          else freed)
        (λ x o. h x (omega (arith, o))) (λ x o. k x (omega (arith, o))))

-- The state of a task once the dead ones of a list are reaped.
abbrev pub state_after : (ℕ → Task) → List ℕ → ℕ → TaskState
state_after t post x =
    if not (occurs x post == 0) && is_dead (t x).state then unused else (t x).state
