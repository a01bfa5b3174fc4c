-- ===== src/Users/Operations.antt =====
-- Every operation of kernel/users.c keeps the account table in order, and so does every sequence of them.
use lightning_os.Prelude.{
  ◌||◌, ℕ, refl, ap, sym, ◌∙◌, inl, inr, Bool, false, not, List, arith, ◌==◌, ==_iff, if_cases,
  Option, ℤ,
}
use lightning_os.Users.{
  hash_password, users_check_password, long_enough, new_user, Users, FsCall, valid_name, text_of,
  free_slot, users_find, users_init, users_add, users_import, users_delete, users_set_password,
  users_switch, users_logout,
}
use lightning_os.Users.Table.{users_find-active}
use lightning_os.Users.Database.{
  IsDatabase, users_init-IsDatabase, insert-IsDatabase, less-IsDatabase, with_user-keeps,
  login-keeps,
}

pub users_add-IsDatabase :
    (resolves : List ℕ → Bool) (s : Users) (name password : Option (List ℕ)) (admin : Bool)
    → IsDatabase s
    → IsDatabase (users_add resolves s name password admin).1.0
unfolding users_add new_user
users_add-IsDatabase resolves s name password admin h =
    let P = λ (r : ℤ × (Users × List FsCall)). IsDatabase r.1.0 in
    if_cases P (not (valid_name name)) _ _ (λ _. h)
      (λ v.
        if_cases P (not (users_find s name == 0)) _ _ (λ _. h)
          (λ f.
            if_cases P (not (long_enough password)) _ _ (λ _. h)
              (λ w.
                if_cases P (free_slot s == 0) _ _ (λ _. h)
                  (λ z.
                    insert-IsDatabase s name
                      (new_user s.next_uid (text_of name) (text_of password) admin) _
                      (ground (arith, v)) (ground (arith, f)) (ground (arith, z)) refl h))))

pub users_import-IsDatabase :
    (s : Users) (name : Option (List ℕ)) (home : List ℕ) (uid gid pw_hash : ℕ)
    → IsDatabase s
    → IsDatabase (users_import s name home uid gid pw_hash).1.0
unfolding users_import
users_import-IsDatabase s name home uid gid pw_hash h =
    let P = λ (r : ℤ × (Users × List FsCall)). IsDatabase r.1.0 in
    if_cases P (not (valid_name name) || not (users_find s name == 0)) _ _ (λ _. h)
      (λ v.
        if_cases P (free_slot s == 0) _ _ (λ _. h)
          (λ z.
            insert-IsDatabase s name _ _ (ground (arith, v)) (ground (arith, v)) (ground (arith, z))
              refl h))

pub users_delete-IsDatabase :
    (s : Users) (name : Option (List ℕ)) → IsDatabase s → IsDatabase (users_delete s name).1.0
unfolding users_delete
users_delete-IsDatabase s name h =
    let P = λ (r : ℤ × (Users × List FsCall)). IsDatabase r.1.0 in
    let user = users_find s name in
    if_cases P (user == 0) _ _ (λ _. h)
      (λ _.
        if_cases P ((s.users user).uid == 0) _ _ (λ _. h)
          (λ _.
            if_cases P (user == s.current) _ _ (λ _. h)
              (λ c.
                less-IsDatabase s _ s.current
                  (λ p a.
                    with_user-keeps s.users user (record (s.users user) { active = false }) p
                      (λ b. absurd (ground (arith, b))) refl a)
                  (login-keeps s user (record (s.users user) { active = false })
                    (λ b. absurd (ground (arith, b, c))) h)
                  h)))

pub users_set_password-IsDatabase :
    (s : Users) (name password : Option (List ℕ))
    → IsDatabase s
    → IsDatabase (users_set_password s name password).1
unfolding users_set_password
users_set_password-IsDatabase s name password h =
    let P = λ (r : ℤ × Users). IsDatabase r.1 in
    let user = users_find s name in
    if_cases P (user == 0) _ _ (λ _. h)
      (λ _.
        if_cases P (not (long_enough password)) _ _ (λ _. h)
          (λ _.
            less-IsDatabase s _ s.current
              (λ p a.
                with_user-keeps s.users user
                  (record (s.users user) { pw_hash = hash_password (text_of password) }) p (λ b. b)
                  refl a)
              (login-keeps s user
                (record (s.users user) { pw_hash = hash_password (text_of password) })
                (λ b a. ap (λ z. (s.users z).active) (sym ((==_iff s.current user).0 b)) ∙ a) h)
              h))

pub users_switch-IsDatabase :
    (s : Users) (name password : Option (List ℕ))
    → IsDatabase s
    → IsDatabase (users_switch s name password).1.0
unfolding users_switch
users_switch-IsDatabase s name password h =
    let P = λ (r : ℤ × (Users × List FsCall)). IsDatabase r.1.0 in
    let user = users_find s name in
    if_cases P (user == 0) _ _ (λ _. h)
      (λ z.
        if_cases P (not (users_check_password (s.users user) password)) _ _ (λ _. h)
          (λ _.
            let (a, k, l, n) = users_find-active s name (ground (arith, z)) in
            less-IsDatabase s s.users user (λ p b. (b, refl)) (inr (k, l, a)) h))

pub users_logout-IsDatabase : (s : Users) → IsDatabase s → IsDatabase (users_logout s)
unfolding users_logout
users_logout-IsDatabase s h = less-IsDatabase s s.users 0 (λ p b. (b, refl)) (inl refl) h

pub data Step : Users → Users → Type 0 where
  add :
      (s : Users) (resolves : List ℕ → Bool) (name password : Option (List ℕ)) (admin : Bool)
      → Step s (users_add resolves s name password admin).1.0
  import_saved :
      (s : Users) (name : Option (List ℕ)) (home : List ℕ) (uid gid pw_hash : ℕ)
      → Step s (users_import s name home uid gid pw_hash).1.0
  delete : (s : Users) (name : Option (List ℕ)) → Step s (users_delete s name).1.0
  set_password :
      (s : Users) (name password : Option (List ℕ)) → Step s (users_set_password s name password).1
  switch : (s : Users) (name password : Option (List ℕ)) → Step s (users_switch s name password).1.0
  logout : (s : Users) → Step s (users_logout s)

pub data Reach : Users → Type 0 where
  start : (s : Users) → Reach (users_init s)
  go : (s s' : Users) → Reach s → Step s s' → Reach s'

Step-IsDatabase : (s s' : Users) → Step s s' → IsDatabase s → IsDatabase s'
Step-IsDatabase s _ (add _ resolves name password admin) h =
    users_add-IsDatabase resolves s name password admin h
Step-IsDatabase s _ (import_saved _ name home uid gid pw_hash) h =
    users_import-IsDatabase s name home uid gid pw_hash h
Step-IsDatabase s _ (delete _ name) h = users_delete-IsDatabase s name h
Step-IsDatabase s _ (set_password _ name password) h =
    users_set_password-IsDatabase s name password h
Step-IsDatabase s _ (switch _ name password) h = users_switch-IsDatabase s name password h
Step-IsDatabase s _ (logout _) h = users_logout-IsDatabase s h

-- After users_init() and any sequence of operations with any arguments, active accounts have valid
-- names, no two of them the same name, and whoever is logged in has an active account.
pub Reach-IsDatabase : (s : Users) → Reach s → IsDatabase s
Reach-IsDatabase _ (start s) = users_init-IsDatabase s
Reach-IsDatabase s' (go s _ r step) = Step-IsDatabase s s' step (Reach-IsDatabase s r)
