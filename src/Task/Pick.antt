-- ===== src/Task/Pick.antt =====
-- The walks of wake_sleepers() and pick_next() in kernel/task.c round the run list.
use lightning_os.Prelude.{
  ℕ, zero, suc, ◌≤◌, ◌<◌, ◌≡◌, refl, sym, ap, ◌∙◌, ◌⊎◌, inl, inr, true, false, not, ◌&&◌, List, [],
  ◌∷◌, ◌++◌, arith, ◌==◌, if◌then◌else◌, if_cases, ==_iff, length, some, leb, length-append, ◌≢◌,
}
use mathlib.Core.Path.{subst}
use lightning_os.Task.{
  Task, written, is_ready, is_sleeping, idle, pick_from, pick_next, wake, wake_from, wake_sleepers,
  ready,
}
use lightning_os.Task.RunList.{occurs, Links, Links-append, occurs-append, Links-congr}

-- Of tasks in order, the first that is ready and not the idle task, or else the idle task.
pub first_ready : (ℕ → Task) → List ℕ → ℕ
first_ready t [] = idle
first_ready t (x ∷ xs) = if not (x == idle) && is_ready (t x).state then x else first_ready t xs

pick_from_lem :
    (fuel start : ℕ) (t : ℕ → Task) (p : ℕ) (ps : List ℕ)
    → Links t p ps start
    → occurs start ps ≡ 0
    → length ps < fuel
    → pick_from fuel start t p ≡ some (first_ready t (p ∷ ps))
unfolding pick_from first_ready
pick_from_lem zero start t p ps h o k = absurd (omega (arith, k))
pick_from_lem (suc fuel) start t p [] h o k = ground (arith, h)
pick_from_lem (suc fuel) start t p (x ∷ xs) (e, h) o k =
    let rest : pick_from fuel start t (t p).next ≡ some (first_ready t (x ∷ xs)) =
      subst (λ z. pick_from fuel start t z ≡ some (first_ready t (x ∷ xs))) (sym e)
        (pick_from_lem fuel start t x xs h (omega (arith, o)) (omega (arith, k))) in
    ground (arith, rest, e, o)

-- The order in which pick_next() looks: the task after the current one first, itself last.
pub pick_next_lem :
    (fuel : ℕ) (t : ℕ → Task) (c : ℕ) (rest : List ℕ)
    → Links t c rest c
    → ((x : ℕ) → occurs x (c ∷ rest) ≤ 1)
    → length rest < fuel
    → pick_next fuel t c ≡ some (first_ready t (rest ++ c ∷ []))
unfolding pick_next
pick_next_lem fuel t c [] h o k =
    subst (λ z. pick_from fuel z t z ≡ some (first_ready t (c ∷ []))) (sym h)
      (pick_from_lem fuel c t c [] h refl k)
pick_next_lem fuel t c (x ∷ xs) (e, h) o k =
    let apart : occurs x xs ≡ 0 × (c == x) ≡ false = ground (arith, o x) in
    let o_x : occurs x (xs ++ c ∷ []) ≡ 0 = ground (arith, apart, occurs-append x xs (c ∷ [])) in
    let len : length (xs ++ c ∷ []) < fuel = omega (arith, k, length-append xs (c ∷ [])) in
    subst (λ z. pick_from fuel z t z ≡ some (first_ready t (x ∷ xs ++ c ∷ []))) (sym e)
      (pick_from_lem fuel x t x (xs ++ c ∷ []) (Links-append t x xs c [] x h e) (o_x) len)

-- wake_sleepers() on a list of tasks.
pub wake_each : ℕ → List ℕ → (ℕ → Task) → ℕ → Task
wake_each now [] t = t
wake_each now (x ∷ xs) t = wake_each now xs (written t x (wake now (t x)))

wake-next : (now : ℕ) (t : Task) → (wake now t).next ≡ t.next
unfolding wake
wake-next now t = ground arith

wake-wake : (now : ℕ) (t : Task) → wake now (wake now t) ≡ wake now t
unfolding wake
wake-wake now t =
    if_cases (λ w. wake now w ≡ w) (is_sleeping t.state && leb t.wake_at now)
      (record t { state = ready }) t (λ _. refl) (λ e. rw e)

written-wake-next :
    (now : ℕ) (t : ℕ → Task) (y x : ℕ) → (written t y (wake now (t y)) x).next ≡ (t x).next
written-wake-next now t y x =
    if_cases (λ z. z.next ≡ (t x).next) (x == y) (wake now (t y)) (t x)
      (λ e. wake-next now (t y) ∙ ap (λ z. (t z).next) (sym ((==_iff x y).0 e))) (λ _. refl)

pub wake_each-next :
    (now : ℕ) (xs : List ℕ) (t : ℕ → Task) (x : ℕ) → (wake_each now xs t x).next ≡ (t x).next
unfolding wake_each
wake_each-next now [] t x = refl
wake_each-next now (y ∷ ys) t x =
    wake_each-next now ys (written t y (wake now (t y))) x ∙ written-wake-next now t y x

-- Each task on the list is woken if it sleeps and its time has come; no other task changes.
pub wake_each_at :
    (now : ℕ) (xs : List ℕ) (t : ℕ → Task) (x : ℕ)
    → wake_each now xs t x ≡ (if occurs x xs == 0 then t x else wake now (t x))
unfolding wake_each
wake_each_at now [] t x = refl
wake_each_at now (y ∷ ys) t x =
    ground (arith, wake-wake now (t x), wake_each_at now ys (written t y (wake now (t y))) x)

wake_from_lem :
    (fuel now c : ℕ) (t : ℕ → Task) (p : ℕ) (ps : List ℕ)
    → Links t p ps c
    → occurs c ps ≡ 0
    → length ps < fuel
    → wake_from fuel now c t p ≡ some (wake_each now (p ∷ ps) t)
unfolding wake_from wake_each
wake_from_lem zero now c t p ps h o k = absurd (omega (arith, k))
wake_from_lem (suc fuel) now c t p [] h o k =
    let t' = written t p (wake now (t p)) in
    let e : (t' p).next ≡ c = written-wake-next now t p p ∙ h in
    let b : ((t' p).next == c) ≡ true = ground (arith, e) in rw b
wake_from_lem (suc fuel) now c t p (x ∷ xs) (e, h) o k =
    let t' = written t p (wake now (t p)) in
    let e' : (t' p).next ≡ x = written-wake-next now t p p ∙ e in
    let b : ((t' p).next == c) ≡ false = ground (arith, e', o) in
    let rest : wake_from fuel now c t' (t' p).next ≡ some (wake_each now (x ∷ xs) t') =
      subst (λ z. wake_from fuel now c t' z ≡ some (wake_each now (x ∷ xs) t')) (sym e')
        (wake_from_lem fuel now c t' x xs
          (Links-congr t t' x xs c (λ y _. written-wake-next now t p y) h) (omega (arith, o))
          (omega (arith, k))) in
    ap (λ z. if not z then wake_from fuel now c t' (t' p).next else some t') b ∙ rest

-- Once round the run list, from the current task.
pub wake_sleepers_lem :
    (fuel now : ℕ) (t : ℕ → Task) (c : ℕ) (rest : List ℕ)
    → Links t c rest c
    → ((x : ℕ) → occurs x (c ∷ rest) ≤ 1)
    → length rest < fuel
    → wake_sleepers fuel now c t ≡ some (wake_each now (c ∷ rest) t)
unfolding wake_sleepers
wake_sleepers_lem fuel now t c rest h o k =
    wake_from_lem fuel now c t c rest h (ground (arith, o c)) k

-- The pick is one of the tasks, or the idle task.
pub first_ready_in :
    (t : ℕ → Task) (xs : List ℕ) → (first_ready t xs ≡ idle) ⊎ (1 ≤ occurs (first_ready t xs) xs)
unfolding first_ready
first_ready_in t [] = inl refl
first_ready_in t (x ∷ xs) = ground (arith, first_ready_in t xs)

-- The pick is the idle task, or is ready.
pub first_ready_ok :
    (t : ℕ → Task) (xs : List ℕ)
    → (first_ready t xs ≡ idle) ⊎ (is_ready (t (first_ready t xs)).state ≡ true)
unfolding first_ready
first_ready_ok t [] = inl refl
first_ready_ok t (x ∷ xs) =
    if_cases (λ z. (z ≡ idle) ⊎ (is_ready (t z).state ≡ true))
      (not (x == idle) && is_ready (t x).state) x (first_ready t xs) (λ e. inr (ground (arith, e)))
      (λ _. first_ready_ok t xs)

-- A ready task is the pick, or one that stands before it is.
pub first_ready_before :
    (t : ℕ → Task) (before : List ℕ) (x : ℕ) (after : List ℕ)
    → x ≢ idle
    → is_ready (t x).state ≡ true
    → (first_ready t (before ++ x ∷ after) ≡ x)
      ⊎ (1 ≤ occurs (first_ready t (before ++ x ∷ after)) before)
unfolding first_ready
first_ready_before t [] x after h k = inl (ground (arith, h, k))
first_ready_before t (y ∷ ys) x after h k = ground (arith, first_ready_before t ys x after h k)
