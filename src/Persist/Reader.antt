-- ===== src/Persist/Reader.antt =====
-- Reading the snapshot of fs/persist.c.
use lightning_os.Prelude.{
  ℕ, zero, suc, ◌+◌, ◌*◌, ◌%◌, ◌^◌, Bool, true, ◌||◌, Option, some, none, List, [], ◌∷◌, ◌++◌, ltb,
  leb, ◌==◌, if◌then◌else◌, take, drop, length,
}
use lightning_os.Persist.Writer.{fs_path_max, kind_dir, Account, Entry}

-- The reader: the buffer, the offset and the flag of an error.
pub record Reader : Type 0 where
  pub buffer : List ℕ
  pub at : ℕ
  pub bad : Bool

unfoldable pub take_bytes : Reader → ℕ → Option (List ℕ) × Reader
take_bytes r n =
    if ltb (length r.buffer) ((r.at + n) % 2 ^ 32)
    then (none, record r { bad = true })
    else (some (take n (drop r.at r.buffer)), record r { at = (r.at + n) % 2 ^ 32 })

unfoldable pub from_le : List ℕ → ℕ
from_le [] = 0
from_le (b ∷ bs) = b + 256 * from_le bs

-- take_u8(), take_u16() and take_u32(): 0 where the bytes run out.
unfoldable pub take_number : ℕ → Reader → ℕ × Reader
take_number n r =
    let (bytes, r') = take_bytes r n in elim bytes [ none ↦ (0, r') | some bs ↦ (from_le bs, r') ]

unfoldable pub take_string : Reader → ℕ → Option (List ℕ) × Reader
take_string r out_size =
    let (n, r') = take_number 1 r in
    if r'.bad || leb out_size n then (none, record r' { bad = true }) else take_bytes r' n

-- The numbers of an account, behind its texts.
unfoldable pub take_ids : List ℕ → List ℕ → Reader → Option Account × Reader
take_ids name home r =
    let (uid, r₁) = take_number 4 r in
    let (gid, r₂) = take_number 4 r₁ in
    let (hash, r₃) = take_number 4 r₂ in
    let u : Account = record { name = name; home = home; uid = uid; gid = gid; pw_hash = hash } in
    if r₃.bad then (none, r₃) else (some u, r₃)

-- The body of the loop over the accounts in persist_mount(): the arguments of users_import(), if it
-- is called.
unfoldable pub take_user : Reader → Option Account × Reader
take_user r =
    let (name, r₁) = take_string r 32 in
    let (home, r₂) = take_string r₁ 64 in
    elim name [
      | none ↦ (none, r₁)
      | some a ↦ elim home [ none ↦ (none, r₂) | some b ↦ take_ids a b r₂ ]
    ]

-- The loop. Every way out of it in the middle leaves `bad`, which ends it.
unfoldable pub take_users : ℕ → Reader → List Account × Reader
take_users zero r = ([], r)
take_users (suc n) r =
    let (user, r') = take_user r in
    let (users, r'') = take_users n r' in
    if r.bad then ([], r) else elim user [ none ↦ ([], r') | some u ↦ (u ∷ users, r'') ]

-- The content of a node, behind its path: fs_create() has been called when its length is tested.
unfoldable pub take_content : Bool → List ℕ → ℕ → Reader → List Entry × Reader
take_content is_dir path data_len r =
    if data_len == 0
    then (record { is_dir = is_dir; path = path; content = [] } ∷ [], r)
    else if ltb (length r.buffer) ((r.at + data_len) % 2 ^ 32)
    then (record { is_dir = is_dir; path = path; content = [] } ∷ [], record r { bad = true })
    else (
      record { is_dir = is_dir; path = path; content = take data_len (drop r.at r.buffer) } ∷ [],
      record r { at = (r.at + data_len) % 2 ^ 32 },
    )

-- The body of the loop over the nodes: an entry stands for fs_create() of its path and, where it has
-- content, fs_write_n() to what is there, if that is a file.
unfoldable pub take_node : Reader → List Entry × Reader
take_node r =
    let (kind, r₁) = take_number 1 r in
    let (path_len, r₂) = take_number 2 r₁ in
    let (data_len, r₃) = take_number 4 r₂ in
    let (path, r₄) = take_bytes r₃ path_len in
    if r₃.bad || path_len == 0 || leb fs_path_max path_len
    then ([], record r₃ { bad = true })
    else elim path [ none ↦ ([], r₄) | some p ↦ take_content (kind == kind_dir) p data_len r₄ ]

unfoldable pub take_nodes : ℕ → Reader → List Entry × Reader
take_nodes zero r = ([], r)
take_nodes (suc n) r =
    let (e, r') = take_node r in
    let (es, r'') = take_nodes n r' in if r.bad then ([], r) else (e ++ es, r'')
