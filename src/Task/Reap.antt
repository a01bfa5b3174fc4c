-- ===== src/Task/Reap.antt =====
-- task_reap() of kernel/task.c on the run list.
use mathlib.Core.Path.{subst}
use lightning_os.Prelude.{
  ℕ, zero, suc, ◌+◌, ◌≤◌, ◌<◌, ◌≡◌, refl, sym, ap, ◌∙◌, false, List, [], ◌∷◌, ◌++◌, arith, ◌==◌,
  if◌then◌else◌, some, length, length-append, ◌≢◌,
}
use lightning_os.Task.{Task, written, idle, find_prev, list_remove}
use lightning_os.Task.RunList.{
  occurs, occurs-append, Links, Links-split, Links-append, Links-head, IsRing,
}

-- The last task of a list that starts with `p`.
pub last_of : ℕ → List ℕ → ℕ
last_of p [] = p
last_of p (x ∷ xs) = last_of x xs

last_of-append :
    (p : ℕ) (xs : List ℕ) (c : ℕ) (ys : List ℕ) → last_of p (xs ++ c ∷ ys) ≡ last_of c ys
unfolding last_of
last_of-append p [] c ys = refl
last_of-append p (x ∷ xs) c ys = last_of-append x xs c ys

pub occurs-last_of : (p : ℕ) (xs : List ℕ) → 1 ≤ occurs (last_of p xs) (p ∷ xs)
unfolding last_of
occurs-last_of p [] = ground arith
occurs-last_of p (x ∷ xs) = omega (arith, occurs-last_of x xs)

find_prev_lem :
    (fuel : ℕ) (t : ℕ → Task) (task p : ℕ) (ps : List ℕ)
    → Links t p ps task
    → occurs task ps ≡ 0
    → length ps < fuel
    → find_prev fuel t task p ≡ some (last_of p ps)
unfolding find_prev last_of
find_prev_lem zero t task p ps h o k = absurd (omega (arith, k))
find_prev_lem (suc fuel) t task p [] h o k = ground (arith, h)
find_prev_lem (suc fuel) t task p (x ∷ xs) (e, h) o k =
    let rest : find_prev fuel t task (t p).next ≡ some (last_of x xs) =
      subst (λ z. find_prev fuel t task z ≡ some (last_of x xs)) (sym e)
        (find_prev_lem fuel t task x xs h (omega (arith, o)) (omega (arith, k))) in
    ground (arith, rest, e, o)

-- A list whose task `task` is passed by.
Links-skip :
    (t t' : ℕ → Task) (p : ℕ) (kept : List ℕ) (task : ℕ) (post : List ℕ) (q : ℕ)
    → Links t p kept task
    → Links t task post q
    → (t' (last_of p kept)).next ≡ (t task).next
    → ((x : ℕ) → (x == last_of p kept) ≡ false → (x == task) ≡ false → (t' x).next ≡ (t x).next)
    → ((x : ℕ) → occurs x (p ∷ kept) + occurs x (task ∷ post) ≤ 1)
    → Links t' p (kept ++ post) q
unfolding last_of
Links-skip t t' p [] task post q h k e f o =
    Links-head t t' task p post q e (λ x i. f x (ground (arith, i, o x)) (ground (arith, i, o x))) k
Links-skip t t' p (y ∷ ys) task post q (e', h) k e f o = (
  f p (ground (arith, occurs-last_of y ys, o p)) (ground (arith, o p)) ∙ e',
  Links-skip t t' y ys task post q h k e f (λ x. omega (arith, o x)),
)

-- The table that list_remove() leaves.
pub removed : (ℕ → Task) → ℕ → ℕ → ℕ → Task
removed t prev task =
    let t₁ = written t prev (record (t prev) { next = (t task).next }) in
    written t₁ task (record (t₁ task) { next = 0 })

pub list_remove_lem :
    (fuel : ℕ) (t : ℕ → Task) (c : ℕ) (kept : List ℕ) (task : ℕ) (post : List ℕ)
    → IsRing t c (kept ++ task ∷ post)
    → length (kept ++ task ∷ post) < fuel
    → list_remove fuel t task ≡ some (removed t (last_of c kept) task)
unfolding list_remove removed
list_remove_lem fuel t c kept task post r k =
    let l = Links-split t c kept task post c r.links in
    let o : occurs task (post ++ c ∷ kept) ≡ 0 = ground (
      arith,
      r.once task,
      occurs-append task kept (task ∷ post),
      occurs-append task post (c ∷ kept),
    ) in
    let n : length (post ++ c ∷ kept) < fuel =
      omega (arith, k, length-append kept (task ∷ post), length-append post (c ∷ kept)) in
    let e : find_prev fuel t task task ≡ some (last_of c kept) =
      find_prev_lem fuel t task task (post ++ c ∷ kept)
        (Links-append t task post c kept task l.1 l.0) o n
      ∙ ap some (last_of-append task post c kept) in
    rw (list_remove, e)

removed-next :
    (t : ℕ → Task) (prev task x : ℕ)
    → (prev == task) ≡ false
    → (removed t prev task x).next
      ≡ (if x == task then 0 else if x == prev then (t task).next else (t x).next)
unfolding removed
removed-next t prev task x h = ground (arith, h)

pub removed-state : (t : ℕ → Task) (prev task x : ℕ) → (removed t prev task x).state ≡ (t x).state
unfolding removed
removed-state t prev task x = ground arith

pub removed-IsRing :
    (t : ℕ → Task) (c : ℕ) (kept : List ℕ) (task : ℕ) (post : List ℕ) (v : Task)
    → task ≢ idle
    → v.next ≡ 0
    → IsRing t c (kept ++ task ∷ post)
    → IsRing (written (removed t (last_of c kept) task) task v) c (kept ++ post)
removed-IsRing t c kept task post v h k r =
    let T = written (removed t (last_of c kept) task) task v in
    let o : (x : ℕ) → occurs x (c ∷ kept) + occurs x (task ∷ post) ≤ 1 =
      λ x. omega (arith, r.once x, occurs-append x kept (task ∷ post)) in
    let apart : (last_of c kept == task) ≡ false = ground (arith, o task, occurs-last_of c kept) in
    let l = Links-split t c kept task post c r.links in
    let next : (x : ℕ) → (T x).next ≡ (removed t (last_of c kept) task x).next =
      λ x. ground (arith, k, removed-next t (last_of c kept) task x apart) in
    let e : (T (last_of c kept)).next ≡ (t task).next = ground (
      arith,
      next (last_of c kept),
      apart,
      removed-next t (last_of c kept) task (last_of c kept) apart,
    ) in
    record {
      links =
          Links-skip t T c kept task post c l.0 l.1 e
            (λ x f g. ground (arith, next x, f, g, removed-next t (last_of c kept) task x apart)) o;
      once = λ x. omega (arith, o x, occurs-append x kept post);
      has_idle = ground (
        arith,
        r.has_idle,
        h,
        occurs-append idle kept post,
        occurs-append idle kept (task ∷ post),
      );
      in_use = λ x i. ground (
        arith,
        i,
        o x,
        o task,
        occurs-append x kept post,
        occurs-append x kept (task ∷ post),
        removed-state t (last_of c kept) task x,
        r.in_use x,
      );
    }

pub removed-stack : (t : ℕ → Task) (prev task x : ℕ) → (removed t prev task x).stack ≡ (t x).stack
unfolding removed
removed-stack t prev task x = ground arith

pub removed-next_self : (t : ℕ → Task) (prev task : ℕ) → (removed t prev task task).next ≡ 0
unfolding removed
removed-next_self t prev task = ground arith
