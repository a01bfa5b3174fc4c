-- ===== src/Persist/Writer.antt =====
-- Writing the snapshot of fs/persist.c: the accounts, then the tree, parents before their children.
use lightning_os.Prelude.{
  ℕ, zero, suc, ◌+◌, ◌-◌, ◌/◌, ◌%◌, ◌^◌, Bool, true, false, List, [], ◌∷◌, ◌++◌, ltb, leb, ◌==◌,
  if◌then◌else◌, take, drop, length,
}

abbrev pub max_payload : ℕ
max_payload = 1048576

abbrev pub fs_path_max : ℕ
fs_path_max = 256

abbrev pub kind_file : ℕ
kind_file = 1

abbrev pub kind_dir : ℕ
kind_dir = 2

-- The writer: the bytes used so far, with room for `max_payload`.
pub record Writer : Type 0 where
  pub buffer : List ℕ
  pub overflow : Bool

-- The sum wraps in 32 bits.
unfoldable pub put_bytes : List ℕ → Writer → Writer
put_bytes bytes w =
    if ltb max_payload ((length w.buffer + length bytes) % 2 ^ 32)
    then record w { overflow = true }
    else record w { buffer = w.buffer ++ bytes }

-- The bytes of a number, the lowest first.
unfoldable pub le_bytes : ℕ → ℕ → List ℕ
le_bytes zero v = []
le_bytes (suc n) v = v % 256 ∷ le_bytes n (v / 256)

unfoldable pub put_u8 : ℕ → Writer → Writer
put_u8 v = put_bytes (le_bytes 1 v)

unfoldable pub put_u16 : ℕ → Writer → Writer
put_u16 v = put_bytes (le_bytes 2 v)

unfoldable pub put_u32 : ℕ → Writer → Writer
put_u32 v = put_bytes (le_bytes 4 v)

unfoldable pub put_string : List ℕ → Writer → Writer
put_string s w = let len = length s % 256 in put_bytes (take len s) (put_u8 len w)

-- The fields of an account that a snapshot holds.
pub record Account : Type 0 where
  pub name : List ℕ
  pub home : List ℕ
  pub uid : ℕ
  pub gid : ℕ
  pub pw_hash : ℕ

-- The body of the loop over the accounts in persist_save().
unfoldable pub put_user : Account → Writer → Writer
put_user u w =
    put_u32 u.pw_hash (put_u32 u.gid (put_u32 u.uid (put_string u.home (put_string u.name w))))

unfoldable pub put_users : List Account → Writer → Writer
put_users [] w = w
put_users (u ∷ us) w = put_users us (put_user u w)

-- The children of a directory.
mutual
  pub data Node : Type 0 where
    file : List ℕ → List ℕ → Node
    dir : List ℕ → Nodes → Node

  pub data Nodes : Type 0 where
    last : Nodes
    then_node : Node → Nodes → Nodes

-- What write_node() stores of a node: kind, path and data.
pub record Entry : Type 0 where
  pub is_dir : Bool
  pub path : List ℕ
  pub content : List ℕ

-- The join of fs_abspath() into FS_PATH_MAX bytes, from offset `at` on.
unfoldable pub join_from : ℕ → List (List ℕ) → List ℕ
join_from at [] = []
join_from at (part ∷ parts) =
    if leb fs_path_max (at + length part + 2)
    then []
    else b'/' ∷ part ++ join_from (at + 1 + length part) parts

-- fs_abspath(), for the names from the root down; it reads the lowest 32.
unfoldable pub fs_abspath : List (List ℕ) → List ℕ
fs_abspath [] = b'/' ∷ []
fs_abspath (part ∷ parts) = join_from 0 (drop (length (part ∷ parts) - 32) (part ∷ parts))

unfoldable pub write_node : Entry → Writer → Writer
write_node e w =
    let head = put_bytes e.path (
      put_u32 (length e.content % 2 ^ 32)
        (put_u16 (length e.path % 2 ^ 16) (put_u8 (if e.is_dir then kind_dir else kind_file) w))) in
    if length e.path == 0
    then w
    else if length e.content % 2 ^ 32 == 0
    then head
    else put_bytes e.content head

-- Whether write_node() counts the node.
unfoldable pub counted : Entry → ℕ
counted e = if length e.path == 0 then 0 else 1

unfoldable mutual
  pub write_tree : List (List ℕ) → Nodes → Writer × ℕ → Writer × ℕ
  write_tree parts last (w, count) = (w, count)
  write_tree parts (then_node node nodes) (w, count) =
      write_tree parts nodes (write_child parts node (w, count))

  pub write_child : List (List ℕ) → Node → Writer × ℕ → Writer × ℕ
  write_child parts (file name content) (w, count) =
      let e : Entry = record {
        is_dir = false;
        path = fs_abspath (parts ++ name ∷ []);
        content = content;
      } in
      (write_node e w, count + counted e)
  write_child parts (dir name nodes) (w, count) =
      let e : Entry = record {
        is_dir = true;
        path = fs_abspath (parts ++ name ∷ []);
        content = [];
      } in
      write_tree (parts ++ name ∷ []) nodes (write_node e w, count + counted e)
