-- ===== src/Users.antt =====
-- kernel/users.c: the account table. A pointer to `users[i]` is i + 1 and NULL is 0. A text is its
-- bytes before the terminator, and an argument that may be NULL is an Option. What an operation asks
-- of the filesystem is a list of calls in order; whether a path resolves is an argument.
pub mod Names
pub mod Table
pub mod Database
pub mod Operations
pub mod Access
mod Tests
use Prim.Native.Nat.{bit_xor}
use lightning_os.Strings.Compare.{text_eq}
use lightning_os.Prelude.{
  ◌-◌, ℕ, zero, suc, ◌+◌, ◌*◌, ◌/◌, ◌%◌, ◌^◌, Bool, true, false, not, ◌&&◌, ◌||◌, Option, some,
  none, List, [], ◌∷◌, ◌++◌, ltb, leb, ◌==◌, if◌then◌else◌, take, length, ℤ, pos, neg,
}

pub record User : Type 0 where
  pub name : List ℕ
  pub home : List ℕ
  pub uid : ℕ
  pub gid : ℕ
  pub pw_hash : ℕ
  pub active : Bool

-- memset(slot, 0, sizeof(*slot))
abbrev pub no_user : User
no_user = record { name = []; home = []; uid = 0; gid = 0; pw_hash = 0; active = false }

pub record Users : Type 0 where
  pub users : ℕ → User
  pub current : ℕ
  pub next_uid : ℕ

-- Calls of the filesystem: sync_passwd_file() rewrites /etc/passwd from the table, users_add() makes
-- a home directory with its readme, and users_switch() sets the working directory.
pub data FsCall : Type 0 where
  sync_passwd : (ℕ → User) → FsCall
  create_home : List ℕ → FsCall
  set_cwd : List ℕ → FsCall

abbrev pub user_max : ℕ
user_max = 8

abbrev pub user_name_max : ℕ
user_name_max = 32

abbrev pub user_home_max : ℕ
user_home_max = 64

abbrev pub password_min : ℕ
password_min = 4

-- A round of FNV-1a.
pub mix : ℕ → ℕ → ℕ
mix hash c = bit_xor hash c * 16777619 % 2 ^ 32

pub mix_text : ℕ → List ℕ → ℕ
mix_text hash [] = hash
mix_text hash (c ∷ cs) = mix_text (mix hash c) cs

-- The stirring, from `round` on with `left` rounds to go.
pub stir : ℕ → ℕ → ℕ → ℕ
stir hash round zero = hash
stir hash round (suc left) =
    stir (bit_xor (bit_xor hash (hash / 2 ^ 13) * 16777619 % 2 ^ 32) round) (round + 1) left

-- "LightningOS/v2"
abbrev pub salt : List ℕ
salt =
    b'L' ∷ b'i' ∷ b'g' ∷ b'h' ∷ b't' ∷ b'n' ∷ b'i' ∷ b'n' ∷ b'g' ∷ b'O' ∷ b'S' ∷ b'/' ∷ b'v' ∷ b'2'
    ∷ []

pub hash_password : List ℕ → ℕ
hash_password password =
    let hash = stir (mix_text (mix_text 2166136261 salt) password) 0 4096 in
    if hash == 0 then 1 else hash

-- free_slot(), from `p` on.
pub free_from : (ℕ → User) → ℕ → ℕ → ℕ
free_from t p zero = 0
free_from t p (suc left) = if not (t p).active then p else free_from t (p + 1) left

pub free_slot : Users → ℕ
free_slot s = free_from s.users 1 user_max

abbrev pub with_user : (ℕ → User) → ℕ → User → ℕ → User
with_user t slot user p = if p == slot then user else t p

pub users_init : Users → Users
users_init s = record { users = λ p. no_user; current = 0; next_uid = 1000 }

pub active_from : (ℕ → User) → ℕ → ℕ → ℕ
active_from t p zero = 0
active_from t p (suc left) = (if (t p).active then 1 else 0) + active_from t (p + 1) left

pub users_count : Users → ℕ
users_count s = active_from s.users 1 user_max

pub users_setup_needed : Users → Bool
users_setup_needed s = users_count s == 0

-- The loop of users_at(), for an index that is not negative.
pub nth_from : (ℕ → User) → ℕ → ℕ → ℕ → ℕ → ℕ
nth_from t p zero seen index = 0
nth_from t p (suc left) seen index =
    let skip = nth_from t (p + 1) left seen index in
    let count = nth_from t (p + 1) left (seen + 1) index in
    if not (t p).active then skip else if seen == index then p else count

pub users_at : Users → ℕ → ℕ
users_at s index = nth_from s.users 1 user_max 0 index

-- The loop of users_find().
pub find_from : (ℕ → User) → List ℕ → ℕ → ℕ → ℕ
find_from t name p zero = 0
find_from t name p (suc left) =
    if (t p).active && text_eq (t p).name name then p else find_from t name (p + 1) left

pub users_find : Users → Option (List ℕ) → ℕ
users_find s none = 0
users_find s (some []) = 0
users_find s (some (c ∷ cs)) = find_from s.users (c ∷ cs) 1 user_max

unfoldable pub users_is_root : Users → Bool
users_is_root s = not (s.current == 0) && (s.users s.current).uid == 0

-- users_check_password(), for a user that is not NULL.
pub users_check_password : User → Option (List ℕ) → Bool
users_check_password user none = user.pw_hash == hash_password []
users_check_password user (some password) = user.pw_hash == hash_password password

abbrev pub is_digit : ℕ → Bool
is_digit c = leb b'0' c && leb c b'9'

abbrev pub valid_char : ℕ → Bool
valid_char c =
    (leb b'a' c && leb c b'z') || (leb b'A' c && leb c b'Z') || is_digit c || c == b'_' || c == b'-'

pub all_valid : List ℕ → Bool
all_valid [] = true
all_valid (c ∷ cs) = valid_char c && all_valid cs

pub valid_name : Option (List ℕ) → Bool
valid_name none = false
valid_name (some []) = false
valid_name (some (c ∷ cs)) =
    ltb (length (c ∷ cs)) user_name_max && all_valid (c ∷ cs) && not (is_digit c)

-- A password that users_add() and users_set_password() take.
pub long_enough : Option (List ℕ) → Bool
long_enough none = false
long_enough (some password) = leb password_min (length password)

abbrev pub text_of : Option (List ℕ) → List ℕ
text_of none = []
text_of (some text) = text

abbrev pub root_home : List ℕ
root_home = b'/' ∷ b'r' ∷ b'o' ∷ b'o' ∷ b't' ∷ []

abbrev pub home_prefix : List ℕ
home_prefix = b'/' ∷ b'h' ∷ b'o' ∷ b'm' ∷ b'e' ∷ b'/' ∷ []

-- What users_add() writes into the slot.
pub new_user : ℕ → List ℕ → List ℕ → Bool → User
new_user next_uid name password admin = record {
  name = take (user_name_max - 1) name;
  home = if admin then root_home else take (user_home_max - 1) (home_prefix ++ name);
  uid = if admin then 0 else next_uid;
  gid = if admin then 0 else next_uid;
  pw_hash = hash_password password;
  active = true;
}

-- users_add(). `resolves` is whether fs_resolve() finds a path.
pub users_add :
    (List ℕ → Bool) → Users → Option (List ℕ) → Option (List ℕ) → Bool → ℤ × (Users × List FsCall)
users_add resolves s name password admin =
    let slot = free_slot s in
    let user = new_user s.next_uid (text_of name) (text_of password) admin in
    let users = with_user s.users slot user in
    if not (valid_name name)
    then (neg 1, (s, []))
    else if not (users_find s name == 0)
    then (neg 2, (s, []))
    else if not (long_enough password)
    then (neg 3, (s, []))
    else if slot == 0
    then (neg 4, (s, []))
    else (
      pos 0,
      (
        record s {
          users = users;
          next_uid = if admin then s.next_uid else (s.next_uid + 1) % 2 ^ 32;
        },
        (if resolves user.home then [] else create_home user.home ∷ []) ++ sync_passwd users ∷ [],
      ),
    )

pub users_import : Users → Option (List ℕ) → List ℕ → ℕ → ℕ → ℕ → ℤ × (Users × List FsCall)
users_import s name home uid gid pw_hash =
    let slot = free_slot s in
    let users = with_user s.users slot (record {
      name = take (user_name_max - 1) (text_of name);
      home = take (user_home_max - 1) home;
      uid = uid;
      gid = gid;
      pw_hash = pw_hash;
      active = true;
    }) in
    if not (valid_name name) || not (users_find s name == 0)
    then (neg 1, (s, []))
    else if slot == 0
    then (neg 4, (s, []))
    else (
      pos 0,
      (
        record s {
          users = users;
          next_uid = if leb s.next_uid uid then (uid + 1) % 2 ^ 32 else s.next_uid;
        },
        sync_passwd users ∷ [],
      ),
    )

pub users_delete : Users → Option (List ℕ) → ℤ × (Users × List FsCall)
users_delete s name =
    let user = users_find s name in
    let users = with_user s.users user (record (s.users user) { active = false }) in
    if user == 0
    then (neg 1, (s, []))
    else if (s.users user).uid == 0
    then (neg 2, (s, []))
    else if user == s.current
    then (neg 3, (s, []))
    else (pos 0, (record s { users = users }, sync_passwd users ∷ []))

pub users_set_password : Users → Option (List ℕ) → Option (List ℕ) → ℤ × Users
users_set_password s name password =
    let user = users_find s name in
    if user == 0 then (neg 1, s) else if not (long_enough password) then (neg 3, s) else (
      pos 0,
      record s {
        users =
            with_user s.users user
              (record (s.users user) { pw_hash = hash_password (text_of password) });
      },
    )

pub users_switch : Users → Option (List ℕ) → Option (List ℕ) → ℤ × (Users × List FsCall)
users_switch s name password =
    let user = users_find s name in
    if user == 0
    then (neg 1, (s, []))
    else if not (users_check_password (s.users user) password)
    then (neg 2, (s, []))
    else (pos 0, (record s { current = user }, set_cwd (s.users user).home ∷ []))

pub users_logout : Users → Users
users_logout s = record s { current = 0 }

-- strncmp(path, dir, strlen(dir)) == 0, and then the end of the path or a slash.
unfoldable pub is_below : List ℕ → List ℕ → Bool
is_below [] [] = true
is_below [] (c ∷ path) = c == b'/'
is_below (d ∷ dir) [] = false
is_below (d ∷ dir) (c ∷ path) = d == c && is_below dir path

abbrev pub tmp : List ℕ
tmp = b'/' ∷ b't' ∷ b'm' ∷ b'p' ∷ []

unfoldable pub users_may_write : Users → Option (List ℕ) → Bool
users_may_write s none = users_is_root s
users_may_write s (some path) =
    if users_is_root s
    then true
    else if s.current == 0
    then false
    else is_below (s.users s.current).home path || is_below tmp path
