-- ===== src/Task/Reaped.antt =====
-- The loop of task_reap() in kernel/task.c.
use mathlib.Core.Path.{subst}
use lightning_os.Prelude.{
  ℕ, zero, suc, ◌+◌, ◌≤◌, ◌<◌, ◌≡◌, refl, sym, ap, ◌∙◌, inl, inr, true, false, List, [], ◌∷◌, ◌++◌,
  arith, ◌==◌, if◌then◌else◌, some, length, Bool-cases, append_assoc, length-append, ==_refl,
  ==_iff,
}
use lightning_os.Task.{
  Task, unused, Sched, written, is_dead, idle, list_remove, task_reap, reap_from,
}
use lightning_os.Task.RunList.{occurs, occurs-append, Links, Links-split, IsRing}
use lightning_os.Task.Reap.{
  last_of, removed, list_remove_lem, removed-IsRing, removed-state, removed-stack,
  removed-next_self,
}
use lightning_os.Task.Alive.{alive, alive_congr, stacks, stacks_congr, state_after}

abbrev first_of : List ℕ → ℕ → ℕ
first_of [] q = q
first_of (x ∷ xs) q = x

Links-first_of :
    (t : ℕ → Task) (p : ℕ) (ps : List ℕ) (q : ℕ) → Links t p ps q → (t p).next ≡ first_of ps q
Links-first_of t p [] q h = h
Links-first_of t p (x ∷ xs) q (e, h) = e

-- The result of the loop.
pub record Reaped (t : ℕ → Task) (c : ℕ) (kept post freed : List ℕ) (t' : ℕ → Task)
    (freed' : List ℕ) : Type 0 where
  pub ring : IsRing t' c (kept ++ alive t post)
  pub states : (x : ℕ) → (t' x).state ≡ state_after t post x
  pub frees : freed' ≡ stacks t post freed

reap_from-done :
    (fuel c : ℕ) (t : ℕ → Task) (freed : List ℕ)
    → reap_from (suc fuel) c t c freed ≡ some (t, freed)
unfolding reap_from
reap_from-done fuel c t freed = rw (==_refl c)

reap_from-alive :
    (fuel c : ℕ) (t : ℕ → Task) (x : ℕ) (freed : List ℕ)
    → (x == c) ≡ false
    → is_dead (t x).state ≡ false
    → reap_from (suc fuel) c t x freed ≡ reap_from fuel c t (t x).next freed
unfolding reap_from
reap_from-alive fuel c t x freed h k = rw (h, k)

abbrev reaped : (ℕ → Task) → ℕ → ℕ → Task
reaped t x = written t x (record (t x) { state = unused; stack = 0 })

reap_from-dead :
    (fuel c : ℕ) (t t' : ℕ → Task) (x : ℕ) (freed : List ℕ)
    → (x == c) ≡ false
    → is_dead (t x).state ≡ true
    → list_remove (suc fuel) t x ≡ some t'
    → reap_from (suc fuel) c t x freed
      ≡ reap_from fuel c
          (reaped t' x)
          (t x).next
          (if (t' x).stack == 0 then freed else (t' x).stack ∷ freed)
unfolding reap_from
reap_from-dead fuel c t t' x freed h k l = rw (h, k, l)

Reaped-alive :
    (t : ℕ → Task) (c : ℕ) (kept : List ℕ) (x : ℕ) (xs freed : List ℕ) (t' : ℕ → Task)
    (freed' : List ℕ)
    → is_dead (t x).state ≡ false
    → Reaped t c (kept ++ x ∷ []) xs freed t' freed'
    → Reaped t c kept (x ∷ xs) freed t' freed'
unfolding alive stacks
Reaped-alive t c kept x xs freed t' freed' e h = record {
  ring = rw e (subst (IsRing t' c) (append_assoc kept (x ∷ []) (alive t xs)) h.ring);
  states = λ y. ground (arith, h.states y, e);
  frees = rw e h.frees;
}

Reaped-dead :
    (t T : ℕ → Task) (c : ℕ) (kept : List ℕ) (x : ℕ) (xs freed : List ℕ) (t' : ℕ → Task)
    (freed' : List ℕ)
    → is_dead (t x).state ≡ true
    → occurs x xs ≡ 0
    → ((y : ℕ) → (T y).state ≡ (if y == x then unused else (t y).state))
    → ((y : ℕ) → (y == x) ≡ false → (T y).stack ≡ (t y).stack)
    → Reaped T c kept xs (if (t x).stack == 0 then freed else (t x).stack ∷ freed) t' freed'
    → Reaped t c kept (x ∷ xs) freed t' freed'
unfolding alive stacks
Reaped-dead t T c kept x xs freed t' freed' e o f g h =
    let same : (y : ℕ) → 1 ≤ occurs y xs → (T y).state ≡ (t y).state =
      λ y k. ground (arith, f y, o, k) in
    record {
      ring = rw e (subst (λ z. IsRing t' c (kept ++ z)) (alive_congr t T xs same) h.ring);
      states = λ y. ground (arith, h.states y, f y, e, o);
      frees = rw e (
          h.frees
          ∙ stacks_congr t T xs (if (t x).stack == 0 then freed else (t x).stack ∷ freed) same
              (λ y k. g y (ground (arith, o, k))));
    }

reap_from_lem :
    (fuel : ℕ) (t : ℕ → Task) (c : ℕ) (kept post freed : List ℕ)
    → IsRing t c (kept ++ post)
    → is_dead (t idle).state ≡ false
    → length post + length (kept ++ post) < fuel
    → (t' : ℕ → Task) × ((freed' : List ℕ) × ((reap_from fuel c t (first_of post c) freed
            ≡ some (t', freed'))
          × Reaped t c kept post freed t' freed'))
unfolding alive stacks
reap_from_lem zero t c kept post freed r d k = absurd (omega (arith, k))
reap_from_lem (suc fuel) t c kept [] freed r d k = (
  t,
  (freed, (reap_from-done fuel c t freed, record { ring = r; states = λ x. refl; frees = refl })),
)
reap_from_lem (suc fuel) t c kept (x ∷ xs) freed r d k =
    let apart : (x == c) ≡ false = ground (arith, r.once c, occurs-append c kept (x ∷ xs)) in
    let next : (t x).next ≡ first_of xs c =
      Links-first_of t x xs c (Links-split t c kept x xs c r.links).1 in
    elim (Bool-cases (is_dead (t x).state)) [
      | inl e ↦
          (let t₁ = removed t (last_of c kept) x in
            let T = reaped t₁ x in
            let lr = list_remove_lem (suc fuel) t c kept x xs r (omega (arith, k)) in
            let off : occurs x xs ≡ 0 = ground (arith, r.once x, occurs-append x kept (x ∷ xs)) in
            let not_idle : (idle == x) ≡ false = elim (Bool-cases (idle == x)) [
              | inl b ↦
                  absurd (ground (arith, d, e, ap (λ z. is_dead (t z).state) ((==_iff idle x).0 b)))
              | inr b ↦ b
            ] in
            let f : (y : ℕ) → (T y).state ≡ (if y == x then unused else (t y).state) =
              λ y. ground (arith, removed-state t (last_of c kept) x y) in
            let g : (y : ℕ) → (y == x) ≡ false → (T y).stack ≡ (t y).stack =
              λ y b. ground (arith, b, removed-stack t (last_of c kept) x y) in
            let ih =
              reap_from_lem fuel T c kept xs
                (if (t x).stack == 0 then freed else (t x).stack ∷ freed)
                (removed-IsRing t c kept x xs (record (t₁ x) { state = unused; stack = 0 })
                  (ground (arith, not_idle)) (removed-next_self t (last_of c kept) x) r)
                (ground (arith, f idle, not_idle, d))
                (omega (arith, k, length-append kept (x ∷ xs), length-append kept xs)) in
            (
              ih.0,
              (
                ih.1.0,
                (
                  reap_from-dead fuel c t t₁ x freed apart e lr
                      ∙ ap
                          (λ z.
                            reap_from fuel c T z
                              (if (t₁ x).stack == 0 then freed else (t₁ x).stack ∷ freed))
                          next
                      ∙ ap
                          (λ z.
                            reap_from fuel c T (first_of xs c)
                              (if z == 0 then freed else z ∷ freed))
                          (removed-stack t (last_of c kept) x x)
                      ∙ ih.1.1.0,
                  Reaped-dead t T c kept x xs freed ih.0 ih.1.0 e off f g ih.1.1.1,
                ),
              ),
            ))
      | inr e ↦
          (let ih =
              reap_from_lem fuel t c (kept ++ x ∷ []) xs freed
                (subst (IsRing t c) (sym (append_assoc kept (x ∷ []) xs)) r) d
                (omega (
                  arith,
                  k,
                  length-append kept (x ∷ xs),
                  ap length (append_assoc kept (x ∷ []) xs),
                )) in
            (
              ih.0,
              (
                ih.1.0,
                (
                  reap_from-alive fuel c t x freed apart e
                      ∙ ap (λ z. reap_from fuel c t z freed) next
                      ∙ ih.1.1.0,
                  Reaped-alive t c kept x xs freed ih.0 ih.1.0 e ih.1.1.1,
                ),
              ),
            ))
    ]

-- On a run list whose idle task is not dead, task_reap() takes exactly the dead tasks but the current
-- one off the list, frees their stacks, and makes their slots unused.
pub task_reap_lem :
    (fuel : ℕ) (s : Sched) (rest : List ℕ)
    → IsRing s.tasks s.current rest
    → is_dead (s.tasks idle).state ≡ false
    → length rest + length rest < fuel
    → (t : ℕ → Task) × ((task_reap fuel s ≡ some (record s { tasks = t }, stacks s.tasks rest []))
        × IsRing t s.current (alive s.tasks rest)
        × ((x : ℕ) → (t x).state ≡ state_after s.tasks rest x))
unfolding task_reap
task_reap_lem fuel s rest r d k =
    let h = reap_from_lem fuel s.tasks s.current [] rest [] r d k in
    let e : reap_from fuel s.current s.tasks (s.tasks s.current).next []
        ≡ some (h.0, stacks s.tasks rest []) =
      ap (λ z. reap_from fuel s.current s.tasks z [])
        (Links-first_of s.tasks s.current rest s.current r.links)
      ∙ h.1.1.0
      ∙ ap (λ z. some (h.0, z)) h.1.1.1.frees in
    (h.0, (rw (task_reap, e), h.1.1.1.ring, h.1.1.1.states))
