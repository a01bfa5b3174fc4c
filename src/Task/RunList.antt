-- ===== src/Task/RunList.antt =====
-- The run list of kernel/task.c as a list of tasks: the chain of `next` pointers from the current
-- task through the others and back.
use lightning_os.Prelude.{
  ℕ, ◌+◌, ◌≤◌, ◌≡◌, refl, sym, ap, ◌∙◌, false, List, [], ◌∷◌, ◌++◌, arith, ◌==◌, if◌then◌else◌,
  if_cases, ==_iff,
}
use lightning_os.Task.{Task, written, is_unused, idle}

abbrev pub occurs : ℕ → List ℕ → ℕ
occurs x [] = 0
occurs x (y ∷ ys) = (if y == x then 1 else 0) + occurs x ys

pub occurs-append : (x : ℕ) (xs ys : List ℕ) → occurs x (xs ++ ys) ≡ occurs x xs + occurs x ys
occurs-append x [] ys = omega arith
occurs-append x (y ∷ xs) ys = omega (arith, occurs-append x xs ys)

-- From `p` the pointers lead through `ps` to `q`.
abbrev pub Links : (ℕ → Task) → ℕ → List ℕ → ℕ → Type 0
Links t p [] q = (t p).next ≡ q
Links t p (x ∷ xs) q = ((t p).next ≡ x) × Links t x xs q

-- The run list: the current task `c`, then the others in order. Each task stands on it once, the
-- idle task is on it, and every task on it is in use.
pub record IsRing (t : ℕ → Task) (c : ℕ) (rest : List ℕ) : Type 0 where
  pub links : Links t c rest c
  pub once : (x : ℕ) → occurs x (c ∷ rest) ≤ 1
  pub has_idle : occurs idle (c ∷ rest) ≡ 1
  pub in_use : (x : ℕ) → occurs x (c ∷ rest) ≡ 1 → is_unused (t x).state ≡ false

pub Links-append :
    (t : ℕ → Task) (p : ℕ) (xs : List ℕ) (x : ℕ) (bs : List ℕ) (q : ℕ)
    → Links t p xs x
    → Links t x bs q
    → Links t p (xs ++ x ∷ bs) q
Links-append t p [] x bs q h k = (h, k)
Links-append t p (y ∷ xs) x bs q (e, h) k = (e, Links-append t y xs x bs q h k)

pub Links-split :
    (t : ℕ → Task) (p : ℕ) (xs : List ℕ) (x : ℕ) (bs : List ℕ) (q : ℕ)
    → Links t p (xs ++ x ∷ bs) q
    → Links t p xs x × Links t x bs q
Links-split t p [] x bs q (e, h) = (e, h)
Links-split t p (y ∷ xs) x bs q (e, h) = let r = Links-split t y xs x bs q h in ((e, r.0), r.1)

-- Only the `next` fields of the tasks that are left count.
pub Links-congr :
    (t t' : ℕ → Task) (p : ℕ) (ps : List ℕ) (q : ℕ)
    → ((x : ℕ) → 1 ≤ occurs x (p ∷ ps) → (t' x).next ≡ (t x).next)
    → Links t p ps q
    → Links t' p ps q
Links-congr t t' p [] q h k = h p (ground arith) ∙ k
Links-congr t t' p (y ∷ xs) q h (e, k) =
    (h p (ground arith) ∙ e, Links-congr t t' y xs q (λ x o. h x (omega (arith, o))) k)

-- A task that is on a list divides it.
abbrev pub Split : ℕ → List ℕ → Type 0
Split x xs = (before : List ℕ) × ((after : List ℕ) × (xs ≡ before ++ x ∷ after))

pub occurs-Split : (x : ℕ) (xs : List ℕ) → 1 ≤ occurs x xs → Split x xs
occurs-Split x [] h = absurd (omega arith)
occurs-Split x (y ∷ ys) h =
    if_cases (λ n. n + occurs x ys ≡ occurs x (y ∷ ys) → Split x (y ∷ ys)) (y == x) 1 0
      (λ e _. ([], (ys, ap (λ z. z ∷ ys) ((==_iff y x).0 e))))
      (λ e k.
        let r = occurs-Split x ys (omega (arith, h, k)) in
        (y ∷ r.0, (r.1.0, ap (λ zs. y ∷ zs) r.1.1)))
      refl

-- Turning the ring to one of its tasks.
pub IsRing-turn :
    (t : ℕ → Task) (c : ℕ) (xs : List ℕ) (x : ℕ) (bs : List ℕ)
    → IsRing t c (xs ++ x ∷ bs)
    → IsRing t x (bs ++ c ∷ xs)
IsRing-turn t c xs x bs r =
    let l = Links-split t c xs x bs c r.links in
    let e : (y : ℕ) → occurs y (x ∷ bs ++ c ∷ xs) ≡ occurs y (c ∷ xs ++ x ∷ bs) =
      λ y. omega (arith, occurs-append y bs (c ∷ xs), occurs-append y xs (x ∷ bs)) in
    record {
      links = Links-append t x bs c xs x l.1 l.0;
      once = λ y. omega (arith, e y, r.once y);
      has_idle = e idle ∙ r.has_idle;
      in_use = λ y o. r.in_use y (sym (e y) ∙ o);
    }

-- An entry that is written with the same value of `f` keeps `f` everywhere.
pub written_same {ℓ} :
    {A : Type ℓ} (f : Task → A) (t : ℕ → Task) (x : ℕ) (v : Task) (y : ℕ)
    → f v ≡ f (t x)
    → f (written t x v y) ≡ f (t y)
written_same f t x v y h =
    if_cases (λ z. f z ≡ f (t y)) (y == x) v (t y)
      (λ e. h ∙ ap (λ z. f (t z)) (sym ((==_iff y x).0 e))) (λ _. refl)

-- The ring depends on the `next` fields and on what is in use.
pub IsRing-congr :
    (t t' : ℕ → Task) (c : ℕ) (rest : List ℕ)
    → ((x : ℕ) → (t' x).next ≡ (t x).next)
    → ((x : ℕ) → is_unused (t' x).state ≡ is_unused (t x).state)
    → IsRing t c rest
    → IsRing t' c rest
IsRing-congr t t' c rest h k r = record {
  links = Links-congr t t' c rest c (λ x _. h x) r.links;
  once = r.once;
  has_idle = r.has_idle;
  in_use = λ x o. k x ∙ r.in_use x o;
}

-- A list that another task leads, with the same pointer from there on.
pub Links-head :
    (t t' : ℕ → Task) (p p' : ℕ) (ps : List ℕ) (q : ℕ)
    → (t' p').next ≡ (t p).next
    → ((x : ℕ) → 1 ≤ occurs x ps → (t' x).next ≡ (t x).next)
    → Links t p ps q
    → Links t' p' ps q
Links-head t t' p p' [] q e h k = e ∙ k
Links-head t t' p p' (y ∷ ys) q e h (k, l) = (e ∙ k, Links-congr t t' y ys q h l)
