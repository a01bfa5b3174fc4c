-- ===== src/Task/Count.antt =====
-- A run list of kernel/task.c is no longer than the table.
use lightning_os.Prelude.{
  leb→le, leb, Bool-cases, inl, inr, ℕ, zero, suc, ◌+◌, ◌≤◌, ◌<◌, ◌≡◌, refl, List, [], ◌∷◌, arith,
  length, Bool-cases, leb, inl, leb→le,
}
use lightning_os.Task.RunList.{occurs}

-- How many entries of a list are slots from 1 to `n`.
slots : ℕ → List ℕ → ℕ
slots zero xs = 0
slots (suc n) xs = occurs (suc n) xs + slots n xs

slots-out : (n y : ℕ) (ys : List ℕ) → n < y → slots n (y ∷ ys) ≡ slots n ys
unfolding slots
slots-out zero y ys h = refl
slots-out (suc n) y ys h = ground (arith, h, slots-out n y ys (omega (arith, h)))

slots-in : (n y : ℕ) (ys : List ℕ) → 1 ≤ y → y ≤ n → slots n (y ∷ ys) ≡ suc (slots n ys)
unfolding slots
slots-in zero y ys h k = absurd (omega (arith, h, k))
slots-in (suc n) y ys h k = elim (Bool-cases (leb y n)) [
  | inl b ↦ ground (arith, b, slots-in n y ys h (leb→le y n b))
  | inr b ↦ ground (arith, b, k, slots-out n y ys (ground (arith, b)))
]

slots-nil : (n : ℕ) → slots n [] ≡ 0
unfolding slots
slots-nil zero = refl
slots-nil (suc n) = omega (arith, slots-nil n)

slots-all :
    (n : ℕ) (xs : List ℕ) → ((x : ℕ) → 1 ≤ occurs x xs → (1 ≤ x) × (x ≤ n)) → slots n xs ≡ length xs
slots-all n [] h = slots-nil n
slots-all n (y ∷ ys) h =
    let r = h y (ground arith) in
    omega (arith, slots-in n y ys r.0 r.1, slots-all n ys (λ x o. h x (omega (arith, o))))

slots_le : (n : ℕ) (xs : List ℕ) → ((x : ℕ) → occurs x xs ≤ 1) → slots n xs ≤ n
unfolding slots
slots_le zero xs h = omega arith
slots_le (suc n) xs h = omega (arith, h (suc n), slots_le n xs h)

pub length_le :
    (n : ℕ) (xs : List ℕ)
    → ((x : ℕ) → 1 ≤ occurs x xs → (1 ≤ x) × (x ≤ n))
    → ((x : ℕ) → occurs x xs ≤ 1)
    → length xs ≤ n
length_le n xs h k = omega (arith, slots-all n xs h, slots_le n xs k)
