-- ===== src/Fs.antt =====
-- fs/ramfs.c: the nodes of the filesystem in memory, found and made by their paths. A pointer is an
-- address and NULL is 0; a text is its bytes before the terminator, and a NULL path is the empty
-- one. The answers of the allocator are arguments. A loop along `next` takes fuel, and is `none`
-- where the fuel runs out.
pub mod Change
pub mod Chain
pub mod Names
pub mod Lookup
pub mod Grown
pub mod Create
pub mod Remove
pub mod Removed
pub mod Write
mod Init
pub mod Walk
pub mod PathNames
pub mod Resolve
mod Tests
use mathlib.Core.Option
use lightning_os.Prelude.{
  ℕ, zero, suc, ◌+◌, ◌-◌, Bool, true, false, not, ◌&&◌, ◌||◌, Option, some, none, List, [], ◌∷◌,
  ◌++◌, ◌==◌, if◌then◌else◌, take, length, is_empty,
}
use lightning_os.Strings.Compare.{text_eq}

pub data Kind : Type 0 where
  fs_file fs_dir : Kind

abbrev pub is_directory : Kind → Bool
is_directory fs_dir = true
is_directory fs_file = false

-- The buffer at `block` holds `bytes`.
pub record FsNode : Type 0 where
  pub name : List ℕ
  pub kind : Kind
  pub block : ℕ
  pub bytes : ℕ → ℕ
  pub size : ℕ
  pub capacity : ℕ
  pub parent : ℕ
  pub children : ℕ
  pub next : ℕ

abbrev pub Store : Type 0
Store = ℕ → FsNode

pub record Fs : Type 0 where
  pub node : Store
  pub root : ℕ
  pub cwd : ℕ
  pub count : ℕ

abbrev pub store_node : Store → ℕ → FsNode → Store
store_node c p n q = if q == p then n else c q

-- `while (last->next) last = last->next;`
pub last_from : ℕ → Store → ℕ → Option ℕ
last_from zero c last = none
last_from (suc fuel) c last =
    let rest = last_from fuel c (c last).next in if (c last).next == 0 then some last else rest

-- A new node behind the last child of a directory.
pub append_child : ℕ → Store → ℕ → ℕ → Option Store
unfolding last_from
append_child fuel c parent node =
    if (c parent).children == 0
    then some (store_node c parent (record (c parent) { children = node }))
    else elim (last_from fuel c (c parent).children) [
      | none ↦ none
      | some last ↦ some (store_node c last (record (c last) { next = node }))
    ]

-- A node of zero bytes but its name, type and parent.
pub fresh_node : List ℕ → Kind → ℕ → FsNode
fresh_node name kind parent = record {
  name = take 31 name;
  kind = kind;
  block = 0;
  bytes = λ i. 0;
  size = 0;
  capacity = 0;
  parent = parent;
  children = 0;
  next = 0;
}

-- node_new(): `answer` is what kcalloc() returns.
unfoldable pub node_new : ℕ → ℕ → List ℕ → Kind → ℕ → Fs → Option (ℕ × Fs)
unfolding append_child fresh_node
node_new fuel answer name kind parent s =
    let c = store_node s.node answer (fresh_node name kind parent) in
    if answer == 0
    then some (0, s)
    else elim (if parent == 0 then some c else append_child fuel c parent answer) [
      | none ↦ none
      | some c' ↦ some (answer, record s { node = c'; count = s.count + 1 })
    ]

-- find_child(): the loop, and its guard.
pub child_from : ℕ → Store → ℕ → List ℕ → Option ℕ
child_from zero c child name = none
child_from (suc fuel) c child name =
    let rest = child_from fuel c (c child).next name in
    if child == 0 then some 0 else if text_eq (c child).name name then some child else rest

unfoldable pub find_child : ℕ → Store → ℕ → List ℕ → Option ℕ
unfolding child_from
find_child fuel c dir name =
    if dir == 0 || not (is_directory (c dir).kind)
    then some 0
    else child_from fuel c (c dir).children name

-- The scan of a path: its slashes, the bytes of a component that are kept, and what stands behind
-- the component.
unfoldable pub skip_slashes : List ℕ → List ℕ
skip_slashes [] = []
skip_slashes (c ∷ s) = if c == b'/' then skip_slashes s else c ∷ s

unfoldable pub component : ℕ → List ℕ → List ℕ
component zero s = []
component (suc room) [] = []
component (suc room) (c ∷ s) = if c == b'/' then [] else c ∷ component room s

unfoldable pub skip_component : List ℕ → List ℕ
skip_component [] = []
skip_component (c ∷ s) = if c == b'/' then c ∷ s else skip_component s

-- One component followed from a directory. (The directory is not NULL after fs_init().)
unfoldable pub follow : ℕ → Fs → ℕ → List ℕ → Option ℕ
follow fuel s node name =
    if text_eq name (b'.' ∷ [])
    then some node
    else if text_eq name (b'.' ∷ b'.' ∷ [])
    then some (if (s.node node).parent == 0 then s.root else (s.node node).parent)
    else find_child fuel s.node node name

-- The loop of walk(): the node that it returns, and the component that it copies to `last`.
unfoldable pub walk_from : ℕ → ℕ → Fs → Bool → List ℕ → ℕ → Option (ℕ × List ℕ)
walk_from zero fuel s stop_before_last buffer node = none
walk_from (suc rounds) fuel s stop_before_last buffer node =
    let here = skip_slashes buffer in
    let name = component 31 here in
    let behind = skip_component here in
    if is_empty here
    then some (node, [])
    else if stop_before_last && is_empty (skip_slashes behind)
    then some (node, name)
    else elim (follow fuel s node name) [
      | none ↦ none
      | some zero ↦ some (0, [])
      | some (suc n) ↦ walk_from rounds fuel s stop_before_last behind (suc n)
    ]

-- walk(): the path is cut to 255 bytes. A round takes a byte of the path at least.
unfoldable pub starts_at_root : List ℕ → Bool
starts_at_root [] = false
starts_at_root (c ∷ s) = c == b'/'

unfoldable pub walk : ℕ → Fs → Bool → List ℕ → Option (ℕ × List ℕ)
unfolding walk_from starts_at_root
walk fuel s stop_before_last path =
    let buffer = take 255 path in
    if is_empty path
    then some (0, [])
    else walk_from (length buffer + 1) fuel s stop_before_last buffer
        (if starts_at_root buffer then s.root else s.cwd)

unfoldable pub fs_resolve : ℕ → Fs → List ℕ → Option ℕ
unfolding walk
fs_resolve fuel s path =
    if is_empty path
    then some s.cwd
    else if text_eq path (b'/' ∷ [])
    then some s.root
    else Option.map (λ r. r.0) (walk fuel s false path)

-- fs_create()'s buffer `name` holds the last component. strncpy() writes no terminator behind a
-- component of 31 bytes, so the name goes on with `behind`, what the stack holds there.
unfoldable pub last_name : List ℕ → List ℕ → List ℕ
last_name behind name = if length name == 31 then name ++ behind else name

unfoldable pub create_in : ℕ → ℕ → List ℕ → Kind → ℕ → Fs → Option (ℕ × Fs)
unfolding find_child node_new
create_in fuel answer name kind parent s =
    if parent == 0 || not (is_directory (s.node parent).kind) || is_empty name
    then some (0, s)
    else elim (find_child fuel s.node parent name) [
      | none ↦ none
      | some zero ↦ node_new fuel answer name kind parent s
      | some (suc n) ↦ some (0, s)
    ]

-- fs_create(): `answer` is what kcalloc() returns.
unfoldable pub fs_create : ℕ → ℕ → List ℕ → List ℕ → Kind → Fs → Option (ℕ × Fs)
fs_create fuel answer behind path kind s = elim (walk fuel s true path) [
  | none ↦ none
  | some (parent, last) ↦ create_in fuel answer (last_name behind last) kind parent s
]
