-- ===== src/Users/Access.antt =====
-- Who gets in, and where an account may write, in kernel/users.c.
use lightning_os.Prelude.{
  ℕ, ◌≡◌, ◌≢◌, ◌↔◌, refl, ap, sym, ◌∙◌, ◌⊎◌, inl, inr, Bool, true, false, not, List, [], arith,
  ◌==◌, ==_iff, ==_refl, if◌then◌else◌, if_cases, Bool-cases, some, none, Option, ℤ, pos, neg, take,
}
use lightning_os.Strings.Compare.{text_eq_iff}
use lightning_os.Users.{
  Users, FsCall, valid_name, text_of, with_user, free_slot, users_find, users_add, users_delete,
  users_switch, users_check_password, users_is_root, users_may_write, long_enough, new_user,
  hash_password, tmp,
}
use lightning_os.Users.Names.{IsBelow, is_below_iff, take-valid_name}
use lightning_os.Users.Table.{free_slot_lem, users_find-active, users_find-absent}
use lightning_os.Users.Database.{with_user-keeps, IsDatabase, valid_name-text_of}
use lightning_os.Users.Operations.{users_add-IsDatabase}

-- The account that is logged in may write to a path exactly if it is an administrator, or the path is
-- its home directory or /tmp or below one of them. With nobody logged in, nothing may be written.
pub users_may_write_iff :
    (s : Users) (path : List ℕ)
    → (users_may_write s (some path) ≡ true) ↔ (
        (s.current ≢ 0)
        × (((s.users s.current).uid ≡ 0)
            ⊎ (IsBelow (s.users s.current).home path ⊎ IsBelow tmp path)))
unfolding users_may_write users_is_root
users_may_write_iff s path =
    ground (arith, is_below_iff (s.users s.current).home path, is_below_iff tmp path)

-- What users_add() did if it returned 0.
users_add_ok :
    (resolves : List ℕ → Bool) (s : Users) (name password : Option (List ℕ)) (admin : Bool)
    → (users_add resolves s name password admin).0 ≡ pos 0
    → (valid_name name ≡ true)
      × (users_find s name ≡ 0)
      × (long_enough password ≡ true)
      × (free_slot s ≢ 0)
      × ((users_add resolves s name password admin).1.0.users
          ≡ with_user s.users
              (free_slot s)
              (new_user s.next_uid (text_of name) (text_of password) admin))
unfolding users_add
users_add_ok resolves s name password admin =
    let U =
      with_user s.users (free_slot s)
        (new_user s.next_uid (text_of name) (text_of password) admin) in
    let P = λ (r : ℤ × (Users × List FsCall)).
      r.0 ≡ pos 0
      → (valid_name name ≡ true)
        × (users_find s name ≡ 0)
        × (long_enough password ≡ true)
        × (free_slot s ≢ 0)
        × (r.1.0.users ≡ U) in
    if_cases P (not (valid_name name)) _ _ (λ _ e. absurd (ground (arith, e)))
      (λ v.
        if_cases P (not (users_find s name == 0)) _ _ (λ _ e. absurd (ground (arith, e)))
          (λ f.
            if_cases P (not (long_enough password)) _ _ (λ _ e. absurd (ground (arith, e)))
              (λ w.
                if_cases P (free_slot s == 0) _ _ (λ _ e. absurd (ground (arith, e)))
                  (λ z _. (
                    ground (arith, v),
                    ground (arith, f),
                    ground (arith, w),
                    ground (arith, z),
                    refl,
                  )))))

new_user-password :
    (next : ℕ) (name : List ℕ) (password : Option (List ℕ)) (admin : Bool)
    → users_check_password (new_user next name (text_of password) admin) password ≡ true
unfolding users_check_password new_user
new_user-password next name none admin = ==_refl (hash_password [])
new_user-password next name (some password) admin = ==_refl (hash_password password)

-- The account that users_add() made is the one that users_find() finds.
users_add-find :
    (resolves : List ℕ → Bool) (s : Users) (name password : Option (List ℕ)) (admin : Bool)
    → IsDatabase s
    → (users_add resolves s name password admin).0 ≡ pos 0
    → (users_find (users_add resolves s name password admin).1.0 name ≡ free_slot s)
      × ((users_add resolves s name password admin).1.0.users (free_slot s)
          ≡ new_user s.next_uid (text_of name) (text_of password) admin)
      × (free_slot s ≢ 0)
unfolding new_user
users_add-find resolves s name password admin h e =
    let (v, f, w, z, t) = users_add_ok resolves s name password admin e in
    let s' = (users_add resolves s name password admin).1.0 in
    let d = users_add-IsDatabase resolves s name password admin h in
    let slot = free_slot s in
    let u = new_user s.next_uid (text_of name) (text_of password) admin in
    let at_slot : s'.users slot ≡ u =
      ap (λ x. x slot) t
      ∙ if_cases (λ x. x ≡ u) (slot == slot) u (s.users slot) (λ _. refl)
          (λ b. absurd (ground (arith, b))) in
    let called : u.name ≡ text_of name =
      take-valid_name (text_of name) (valid_name-text_of name v) in
    elim (free_slot_lem s) [
      | inl n ↦ absurd (z n)
      | inr (off, k, l) ↦
          let named : (s'.users slot).name ≡ text_of name = ap (λ x. x.name) at_slot ∙ called in
          let on : (s'.users slot).active ≡ true = ap (λ x. x.active) at_slot in
          let found : users_find s' name ≢ 0 = λ n. ground (
            arith,
            users_find-absent s' name v n slot k l,
            on,
            (text_eq_iff (s'.users slot).name (text_of name)).1 named,
          ) in
          let (a, i, j, m) = users_find-active s' name found in
          (d.unique (users_find s' name) slot i j k l a on (m ∙ sym named), at_slot, z)
    ]

-- Where users_add() returns 0, users_switch() with the same name and password logs in: as an
-- administrator's uid 0 or the value of next_uid, whoever has it already, under that name.
pub users_add-switch :
    (resolves : List ℕ → Bool) (s : Users) (name password : Option (List ℕ)) (admin : Bool)
    → IsDatabase s
    → (users_add resolves s name password admin).0 ≡ pos 0
    → let s' = (users_add resolves s name password admin).1.0 in
      let r = users_switch s' name password in
      (r.0 ≡ pos 0)
      × (r.1.0.current ≡ free_slot s)
      × ((r.1.0.users r.1.0.current).uid ≡ (if admin then 0 else s.next_uid))
      × ((r.1.0.users r.1.0.current).name ≡ take 31 (text_of name))
unfolding users_switch new_user
users_add-switch resolves s name password admin h e =
    let (f, at_slot, z) = users_add-find resolves s name password admin h e in
    let s' = (users_add resolves s name password admin).1.0 in
    let user = users_find s' name in
    let P = λ (r : ℤ × (Users × List FsCall)).
      (r.0 ≡ pos 0)
      × (r.1.0.current ≡ free_slot s)
      × ((r.1.0.users r.1.0.current).uid ≡ (if admin then 0 else s.next_uid))
      × ((r.1.0.users r.1.0.current).name ≡ take 31 (text_of name)) in
    let known : s'.users user ≡ new_user s.next_uid (text_of name) (text_of password) admin =
      ap s'.users f ∙ at_slot in
    let check : users_check_password (s'.users user) password ≡ true =
      ap (λ x. users_check_password x password) known
      ∙ new_user-password s.next_uid (text_of name) password admin in
    if_cases P (user == 0) _ _ (λ b. absurd (ground (arith, b, f, z)))
      (λ _.
        if_cases P (not (users_check_password (s'.users user) password)) _ _
          (λ b. absurd (ground (arith, b, check)))
          (λ _. (refl, f, ap (λ x. x.uid) known, ap (λ x. x.name) known)))

-- What users_delete() did if it returned 0.
users_delete_ok :
    (s : Users) (name : Option (List ℕ))
    → (users_delete s name).0 ≡ pos 0
    → (users_find s name ≢ 0)
      × ((s.users (users_find s name)).uid ≢ 0)
      × (users_find s name ≢ s.current)
      × ((users_delete s name).1.0.users
          ≡ with_user s.users
              (users_find s name)
              (record (s.users (users_find s name)) { active = false }))
unfolding users_delete
users_delete_ok s name =
    let user = users_find s name in
    let P = λ (r : ℤ × (Users × List FsCall)).
      r.0 ≡ pos 0
      → (user ≢ 0)
        × ((s.users user).uid ≢ 0)
        × (user ≢ s.current)
        × (r.1.0.users ≡ with_user s.users user (record (s.users user) { active = false })) in
    if_cases P (user == 0) _ _ (λ _ e. absurd (ground (arith, e)))
      (λ z.
        if_cases P ((s.users user).uid == 0) _ _ (λ _ e. absurd (ground (arith, e)))
          (λ u.
            if_cases P (user == s.current) _ _ (λ _ e. absurd (ground (arith, e)))
              (λ c _. (ground (arith, z), ground (arith, u), ground (arith, c), refl))))

-- A deleted name is not found.
users_delete-find :
    (s : Users) (name : Option (List ℕ))
    → IsDatabase s
    → (users_delete s name).0 ≡ pos 0
    → users_find (users_delete s name).1.0 name ≡ 0
users_delete-find s name h e =
    let s' = (users_delete s name).1.0 in
    let user = users_find s name in
    let q = users_find s' name in
    let v = record (s.users user) { active = false } in
    let (z, u, c, t) = users_delete_ok s name e in
    elim (Bool-cases (q == 0)) [
      | inl b ↦ (==_iff q 0).0 b
      | inr b ↦
          let (a, i, j, m) = users_find-active s' name (ground (arith, b)) in
          let (a₀, i₀, j₀, m₀) = users_find-active s name z in
          let on : (with_user s.users user v q).active ≡ true =
            sym (ap (λ x. (x q).active) t) ∙ a in
          let (k, l) = with_user-keeps s.users user v q (λ f. absurd (ground (arith, f))) refl on in
          let called : (s.users q).name ≡ text_of name = sym l ∙ sym (ap (λ x. (x q).name) t) ∙ m in
          let same : q ≡ user = h.unique q user i j i₀ j₀ k a₀ (called ∙ sym m₀) in
          absurd (ground (arith, on, same))
    ]

-- Where users_delete() returns 0, the account was no administrator and not the one that is logged
-- in, its name is not found any more, so that users_switch() answers -1 to every password, and every
-- other account is as it was.
pub users_delete_lem :
    (s : Users) (name : Option (List ℕ))
    → IsDatabase s
    → (users_delete s name).0 ≡ pos 0
    → let s' = (users_delete s name).1.0 in
      ((s.users (users_find s name)).uid ≢ 0)
      × (users_find s name ≢ s.current)
      × ((password : Option (List ℕ)) → (users_switch s' name password).0 ≡ neg 1)
      × ((p : ℕ) → p ≢ users_find s name → s'.users p ≡ s.users p)
unfolding users_switch
users_delete_lem s name h e =
    let s' = (users_delete s name).1.0 in
    let user = users_find s name in
    let (z, u, c, t) = users_delete_ok s name e in
    let gone : users_find s' name ≡ 0 = users_delete-find s name h e in
    (
      u,
      c,
      λ password. rw gone refl,
      λ p n.
          ap (λ x. x p) t
          ∙ if_cases (λ w. w ≡ s.users p) (p == user) (record (s.users user) { active = false })
              (s.users p) (λ b. absurd (n ((==_iff p user).0 b))) (λ _. refl),
    )
