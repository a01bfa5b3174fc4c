-- ===== src/Users/Table.antt =====
-- The account table of kernel/users.c: the slots that its searches find.
use lightning_os.Prelude.{
  none, ◌≢◌, ℕ, zero, suc, ◌+◌, ◌≤◌, ◌<◌, ◌≡◌, refl, ◌⊎◌, inl, inr, Bool, true, false, not, ◌&&◌,
  List, [], ◌∷◌, arith, ◌==◌, ==_iff, if_cases, Bool-cases, some, Option, sym, ◌≢◌,
}
use mathlib.Core.Path.{subst}
use lightning_os.Strings.Compare.{text_eq, text_eq_iff}
use lightning_os.Users.{
  text_of, valid_name, User, Users, user_max, free_from, free_slot, find_from, users_find,
  valid_name, text_of,
}

pub free_from_lem :
    (left : ℕ) (t : ℕ → User) (p : ℕ)
    → 1 ≤ p
    → (free_from t p left ≡ 0)
      ⊎ ((t (free_from t p left)).active ≡ false
          × (p ≤ free_from t p left)
          × (free_from t p left < p + left))
unfolding free_from
free_from_lem zero t p h = inl refl
free_from_lem (suc left) t p h =
    if_cases (λ z. (z ≡ 0) ⊎ ((t z).active ≡ false × (p ≤ z) × (z < p + suc left)))
      (not (t p).active) p (free_from t (p + 1) left)
      (λ e. inr (ground (arith, e), omega arith, omega arith))
      (λ e. elim (free_from_lem left t (p + 1) (omega arith)) [
        | inl z ↦ inl z
        | inr (a, k, l) ↦ inr (a, omega (arith, k), omega (arith, l))
      ])

-- The slot that is taken is not active and in the table.
pub free_slot_lem :
    (s : Users)
    → (free_slot s ≡ 0)
      ⊎ ((s.users (free_slot s)).active ≡ false × (1 ≤ free_slot s) × (free_slot s ≤ user_max))
unfolding free_slot
free_slot_lem s = elim (free_from_lem user_max s.users 1 (omega arith)) [
  | inl z ↦ inl z
  | inr (a, k, l) ↦ inr (a, k, omega (arith, l))
]

-- The account `p` has this name.
abbrev pub is_named : (ℕ → User) → List ℕ → ℕ → Bool
is_named t name p = (t p).active && text_eq (t p).name name

pub find_from_lem :
    (left : ℕ) (t : ℕ → User) (name : List ℕ) (p : ℕ)
    → 1 ≤ p
    → (find_from t name p left ≡ 0 × ((x : ℕ) → p ≤ x → x < p + left → is_named t name x ≡ false))
      ⊎ (is_named t name (find_from t name p left) ≡ true
          × (p ≤ find_from t name p left)
          × (find_from t name p left < p + left))
unfolding find_from
find_from_lem zero t name p h = inl (refl, λ x k l. absurd (omega (arith, k, l)))
find_from_lem (suc left) t name p h =
    if_cases
      (λ z.
        (z ≡ 0 × ((x : ℕ) → p ≤ x → x < p + suc left → is_named t name x ≡ false))
        ⊎ (is_named t name z ≡ true × (p ≤ z) × (z < p + suc left)))
      (is_named t name p) p (find_from t name (p + 1) left) (λ e. inr (e, omega arith, omega arith))
      (λ e. elim (find_from_lem left t name (p + 1) (omega arith)) [
        | inl (z, f) ↦ inl (
          z,
          λ x k l. elim (Bool-cases (x == p)) [
            | inl b ↦ subst (λ y. is_named t name y ≡ false) (sym ((==_iff x p).0 b)) e
            | inr b ↦ f x (ground (arith, k, b)) (omega (arith, l))
          ],
        )
        | inr (u, k, l) ↦ inr (u, omega (arith, k), omega (arith, l))
      ])

-- users_find() returns 0, and no active account has the name, or an active account that has it.
pub users_find_lem :
    (s : Users) (c : ℕ) (cs : List ℕ)
    → (users_find s (some (c ∷ cs)) ≡ 0
        × ((x : ℕ) → 1 ≤ x → x ≤ user_max → is_named s.users (c ∷ cs) x ≡ false))
      ⊎ (is_named s.users (c ∷ cs) (users_find s (some (c ∷ cs))) ≡ true
          × (1 ≤ users_find s (some (c ∷ cs)))
          × (users_find s (some (c ∷ cs)) ≤ user_max))
unfolding users_find
users_find_lem s c cs = elim (find_from_lem user_max s.users (c ∷ cs) 1 (omega arith)) [
  | inl (z, f) ↦ inl (z, λ x k l. f x k (omega (arith, l)))
  | inr (u, k, l) ↦ inr (u, k, omega (arith, l))
]

-- What is found is an active account with the name.
pub users_find-active :
    (s : Users) (name : Option (List ℕ))
    → users_find s name ≢ 0
    → (s.users (users_find s name)).active ≡ true
      × (1 ≤ users_find s name)
      × (users_find s name ≤ user_max)
      × ((s.users (users_find s name)).name ≡ text_of name)
unfolding users_find
users_find-active s none h = absurd (h refl)
users_find-active s (some []) h = absurd (h refl)
users_find-active s (some (c ∷ cs)) h = elim (users_find_lem s c cs) [
  | inl (z, f) ↦ absurd (h z)
  | inr (u, k, l) ↦ (ground (arith, u), k, l, (text_eq_iff _ (c ∷ cs)).0 (ground (arith, u)))
]

-- Where nothing is found for a valid name, no active account has it.
pub users_find-absent :
    (s : Users) (name : Option (List ℕ))
    → valid_name name ≡ true
    → users_find s name ≡ 0
    → (x : ℕ) → 1 ≤ x
    → x ≤ user_max
    → is_named s.users (text_of name) x ≡ false
unfolding valid_name
users_find-absent s none v h = absurd (ground (arith, v))
users_find-absent s (some []) v h = absurd (ground (arith, v))
users_find-absent s (some (c ∷ cs)) v h = elim (users_find_lem s c cs) [
  | inl (z, f) ↦ f
  | inr (u, k, l) ↦ absurd (omega (arith, h, k))
]
