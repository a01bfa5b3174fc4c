-- ===== src/Users/Tests.antt =====
-- Concrete runs of kernel/users.c.
use lightning_os.Prelude.{
  ℕ, ◌≡◌, ◌≢◌, refl, Bool, false, List, [], ◌∷◌, if◌then◌else◌, some, Option, pos, neg, take,
}
use lightning_os.Users.{
  Users, no_user, text_of, free_slot, free_from, find_from, users_find, users_init, users_add,
  users_import, users_delete, users_switch, valid_name, all_valid, long_enough, new_user,
}
use lightning_os.Users.Database.{IsDatabase, users_init-IsDatabase}
use lightning_os.Users.Operations.{Reach, Step, Reach-IsDatabase}
use lightning_os.Users.Access.{users_add-switch, users_delete_lem}
use lightning_os.Strings.Compare.{text_eq}

abbrev empty : Users
empty = users_init (record { users = λ p. no_user; current = 0; next_uid = 0 })

abbrev ann : List ℕ
ann = b'a' ∷ b'n' ∷ b'n' ∷ []

abbrev secret : List ℕ
secret = b's' ∷ b'e' ∷ b'c' ∷ b'r' ∷ b'e' ∷ b't' ∷ []

abbrev nothing : List ℕ → Bool
nothing path = false

abbrev with_ann : Users
with_ann = (users_add nothing empty (some ann) (some secret) false).1.0

ann_in : Reach with_ann
ann_in =
    Reach.go empty with_ann
      (Reach.start (record { users = λ p. no_user; current = 0; next_uid = 0 }))
      (Step.add empty nothing (some ann) (some secret) false)

Reach-IsDatabase_example : IsDatabase with_ann
Reach-IsDatabase_example = Reach-IsDatabase with_ann ann_in

empty-IsDatabase : IsDatabase empty
empty-IsDatabase =
    users_init-IsDatabase (record { users = λ p. no_user; current = 0; next_uid = 0 })

users_add-switch_example :
    let r = users_switch with_ann (some ann) (some secret) in
    (r.0 ≡ pos 0)
    × (r.1.0.current ≡ free_slot empty)
    × ((r.1.0.users r.1.0.current).uid ≡ (if false then 0 else empty.next_uid))
    × ((r.1.0.users r.1.0.current).name ≡ take 31 (text_of (some ann)))
unfolding users_add valid_name all_valid long_enough users_find find_from text_eq free_slot
    free_from users_init
users_add-switch_example =
    users_add-switch nothing empty (some ann) (some secret) false empty-IsDatabase refl

users_delete_lem_example :
    ((with_ann.users (users_find with_ann (some ann))).uid ≢ 0)
    × (users_find with_ann (some ann) ≢ with_ann.current)
    × ((password : Option (List ℕ))
        → (users_switch (users_delete with_ann (some ann)).1.0 (some ann) password).0 ≡ neg 1)
    × ((p : ℕ)
        → p ≢ users_find with_ann (some ann)
        → (users_delete with_ann (some ann)).1.0.users p ≡ with_ann.users p)
unfolding users_delete users_add valid_name all_valid long_enough users_find find_from text_eq
    free_slot free_from users_init new_user
users_delete_lem_example =
    users_delete_lem with_ann (some ann) (Reach-IsDatabase with_ann ann_in) refl

-- An imported uid of 2 ^ 32 - 1 makes the next ordinary account an administrator.
abbrev imported : Users
imported = (users_import empty (some (b'z' ∷ [])) (b'/' ∷ []) 4294967295 4294967295 1).1.0

import_wraps :
    let s = (users_add nothing imported (some ann) (some secret) false).1.0 in
    ((s.users 2).name ≡ ann) × ((s.users 2).uid ≡ 0)
unfolding users_import users_add valid_name all_valid long_enough users_find find_from text_eq
    free_slot free_from users_init new_user
import_wraps = (refl, refl)
