-- ===== src/Users/Database.antt =====
-- The operations of kernel/users.c keep the account table in order.
use mathlib.Core.Path.{subst}
use lightning_os.Prelude.{
  take, none, ℕ, ◌≤◌, ◌≡◌, ◌≢◌, refl, ap, sym, ◌∙◌, ◌⊎◌, inl, inr, true, false, List, arith, ◌==◌,
  ==_iff, if_cases, some, Option,
}
use lightning_os.Strings.Compare.{text_eq_iff}
use lightning_os.Users.{
  User, Users, user_max, valid_name, text_of, with_user, free_slot, users_find, users_init,
}
use lightning_os.Users.Names.{take-valid_name}
use lightning_os.Users.Table.{is_named, free_slot_lem, users_find-absent}

-- Active accounts have valid names, no two the same, and whoever is logged in is one of them.
pub record IsDatabase (s : Users) : Type 0 where
  pub valid :
      (p : ℕ)
      → 1 ≤ p
      → p ≤ user_max
      → (s.users p).active ≡ true
      → valid_name (some (s.users p).name) ≡ true
  pub unique :
      (p q : ℕ)
      → 1 ≤ p
      → p ≤ user_max
      → 1 ≤ q
      → q ≤ user_max
      → (s.users p).active ≡ true
      → (s.users q).active ≡ true
      → (s.users p).name ≡ (s.users q).name
      → p ≡ q
  pub login :
      (s.current ≡ 0)
      ⊎ ((1 ≤ s.current) × (s.current ≤ user_max) × ((s.users s.current).active ≡ true))

pub users_init-IsDatabase : (s : Users) → IsDatabase (users_init s)
unfolding users_init
users_init-IsDatabase s = record {
  valid = λ p h k a. absurd (ground (arith, a));
  unique = λ p q h k i j a b e. absurd (ground (arith, a));
  login = inl refl;
}

-- A new account in a free slot, with a name that no active account has.
put-IsDatabase :
    (s : Users) (slot : ℕ) (u : User) (next : ℕ)
    → (s.users slot).active ≡ false
    → valid_name (some u.name) ≡ true
    → ((x : ℕ) → 1 ≤ x → x ≤ user_max → is_named s.users u.name x ≡ false)
    → IsDatabase s
    → IsDatabase (record s { users = with_user s.users slot u; next_uid = next })
put-IsDatabase s slot u next off v fresh h =
    let other : (x : ℕ)
        → 1 ≤ x
        → x ≤ user_max
        → (s.users x).active ≡ true
        → (s.users x).name ≢ u.name =
      λ x k l a e. ground (arith, fresh x k l, a, (text_eq_iff (s.users x).name u.name).1 e) in
    record {
      valid = λ p k l a.
          if_cases (λ z. z.active ≡ true → valid_name (some z.name) ≡ true) (p == slot) u
            (s.users p) (λ _ _. v) (λ _ a'. h.valid p k l a') a;
      unique = λ p q k l i j a b e.
          if_cases (λ z. z.active ≡ true → z.name ≡ (with_user s.users slot u q).name → p ≡ q)
            (p == slot) u (s.users p)
            (λ at_p _ e'.
              if_cases (λ z. z.active ≡ true → u.name ≡ z.name → p ≡ q) (q == slot) u (s.users q)
                (λ at_q _ _. (==_iff p slot).0 at_p ∙ sym ((==_iff q slot).0 at_q))
                (λ _ b' f. absurd (other q i j b' (sym f))) b e')
            (λ _ a' e'.
              if_cases (λ z. z.active ≡ true → (s.users p).name ≡ z.name → p ≡ q) (q == slot) u
                (s.users q) (λ _ _ f. absurd (other p k l a' f))
                (λ _ b' f. h.unique p q k l i j a' b' f) b e')
            a e;
      login = elim h.login [
        | inl z ↦ inl z
        | inr (k, l, a) ↦ inr (
          k,
          l,
          if_cases (λ z. z.active ≡ true) (s.current == slot) u (s.users s.current)
              (λ b. absurd (
                ground (arith, a, off, ap (λ z. (s.users z).active) ((==_iff s.current slot).0 b))))
              (λ _. a),
        )
      ];
    }

pub valid_name-text_of :
    (name : Option (List ℕ)) → valid_name name ≡ true → valid_name (some (text_of name)) ≡ true
unfolding valid_name
valid_name-text_of none h = absurd (ground (arith, h))
valid_name-text_of (some text) h = h

pub insert-IsDatabase :
    (s : Users) (name : Option (List ℕ)) (u : User) (next : ℕ)
    → valid_name name ≡ true
    → users_find s name ≡ 0
    → free_slot s ≢ 0
    → u.name ≡ take 31 (text_of name)
    → IsDatabase s
    → IsDatabase (record s { users = with_user s.users (free_slot s) u; next_uid = next })
insert-IsDatabase s name u next v f z e h = elim (free_slot_lem s) [
  | inl n ↦ absurd (z n)
  | inr (off, k, l) ↦
      let v' = valid_name-text_of name v in
      let e' : u.name ≡ text_of name = e ∙ take-valid_name (text_of name) v' in
      put-IsDatabase s (free_slot s) u next off (ap (λ w. valid_name (some w)) e' ∙ v')
        (subst (λ w. (x : ℕ) → 1 ≤ x → x ≤ user_max → is_named s.users w x ≡ false) (sym e')
          (users_find-absent s name v f))
        h
]

-- A table in which some accounts are gone and the others keep their names.
pub less-IsDatabase :
    (s : Users) (t : ℕ → User) (c : ℕ)
    → ((p : ℕ)
        → (t p).active ≡ true
        → ((s.users p).active ≡ true) × ((t p).name ≡ (s.users p).name))
    → ((c ≡ 0) ⊎ ((1 ≤ c) × (c ≤ user_max) × ((t c).active ≡ true)))
    → IsDatabase s
    → IsDatabase (record s { users = t; current = c })
less-IsDatabase s t c f l h = record {
  valid = λ p i j a. ap (λ z. valid_name (some z)) (f p a).1 ∙ h.valid p i j (f p a).0;
  unique =
      λ p q i j k m a b e. h.unique p q i j k m (f p a).0 (f q b).0 (sym (f p a).1 ∙ e ∙ (f q b).1);
  login = l;
}

-- An account that is written without a new name.
pub with_user-keeps :
    (t : ℕ → User) (slot : ℕ) (v : User) (p : ℕ)
    → (v.active ≡ true → (t slot).active ≡ true)
    → v.name ≡ (t slot).name
    → (with_user t slot v p).active ≡ true
    → ((t p).active ≡ true) × ((with_user t slot v p).name ≡ (t p).name)
with_user-keeps t slot v p f e =
    if_cases (λ z. z.active ≡ true → ((t p).active ≡ true) × (z.name ≡ (t p).name)) (p == slot) v
      (t p)
      (λ b a.
        subst (λ z. ((t z).active ≡ true) × (v.name ≡ (t z).name)) (sym ((==_iff p slot).0 b))
          (f a, e))
      (λ _ a. (a, refl))

-- Whoever is logged in stays an account.
pub login-keeps :
    (s : Users) (slot : ℕ) (v : User)
    → ((s.current == slot) ≡ true → (s.users s.current).active ≡ true → v.active ≡ true)
    → IsDatabase s
    → (s.current ≡ 0)
      ⊎ ((1 ≤ s.current)
          × (s.current ≤ user_max)
          × ((with_user s.users slot v s.current).active ≡ true))
login-keeps s slot v f h = elim h.login [
  | inl z ↦ inl z
  | inr (k, l, a) ↦ inr (
    k,
    l,
    if_cases (λ z. z.active ≡ true) (s.current == slot) v (s.users s.current) (λ b. f b a) (λ _. a),
  )
]
