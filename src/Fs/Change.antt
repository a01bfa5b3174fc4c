-- ===== src/Fs/Change.antt =====
-- fs/ramfs.c: what changes or removes nodes that are there.
use lightning_os.Prelude.{
  ℕ, zero, suc, ◌+◌, ◌-◌, ◌%◌, ◌^◌, Bool, not, ◌&&◌, ◌||◌, Option, some, none, List, [], ◌∷◌, ◌++◌,
  ltb, ◌==◌, if◌then◌else◌, length, get_or, ℤ, pos, neg,
}
use lightning_os.Fs.{fs_dir, is_directory, FsNode, Store, Fs, store_node, node_new, fs_resolve}

unfoldable pub fs_set_cwd : ℕ → Fs → Fs
fs_set_cwd dir s =
    if not (dir == 0) && is_directory (s.node dir).kind then record s { cwd = dir } else s

-- What free_subtree() gives to kfree(), in order, and how many nodes it takes off the count.
pub record Freed : Type 0 where
  pub pointers : List ℕ
  pub nodes : ℕ

abbrev pub nothing : Freed
nothing = record { pointers = []; nodes = 0 }

-- The node itself, after what was freed below it.
unfoldable pub free_node : FsNode → ℕ → Freed → Freed
free_node n node below = record {
  pointers = below.pointers ++ (if n.block == 0 then node ∷ [] else n.block ∷ node ∷ []);
  nodes = below.nodes + 1;
}

unfoldable pub both : Freed → Freed → Freed
both a b = record { pointers = a.pointers ++ b.pointers; nodes = a.nodes + b.nodes }

-- The loop of free_subtree(): a node reads its `next` before it is freed.
unfoldable mutual
  unfolding free_node both

  pub free_subtree : ℕ → Store → ℕ → Option Freed
  free_subtree zero c node = none
  free_subtree (suc fuel) c node = elim (free_children fuel c (c node).children) [
    | none ↦ none
    | some below ↦ some (free_node (c node) node below)
  ]

  pub free_children : ℕ → Store → ℕ → Option Freed
  free_children zero c child = none
  free_children (suc fuel) c zero = some nothing
  free_children (suc fuel) c (suc n) = elim (free_subtree fuel c (suc n)) [
    | none ↦ none
    | some one ↦ elim (free_children fuel c (c (suc n)).next) [
      | none ↦ none
      | some rest ↦ some (both one rest)
    ]
  ]

-- fs_reset(): `answer` is what kcalloc() returns where there is no root yet.
unfoldable pub fs_reset : ℕ → ℕ → Fs → Option (List ℕ × Fs)
unfolding free_children node_new
fs_reset fuel answer s =
    if s.root == 0
    then elim (node_new fuel answer (b'/' ∷ []) fs_dir 0 s) [
      | none ↦ none
      | some (root, s') ↦ some ([], record s' { root = root; cwd = root })
    ]
    else elim (free_children fuel s.node (s.node s.root).children) [
      | none ↦ none
      | some freed ↦ some (
        freed.pointers,
        record s {
          node = store_node s.node s.root (record (s.node s.root) { children = 0 });
          cwd = s.root;
          count = s.count - freed.nodes;
        },
      )
    ]

-- `while (prev && prev->next != node) prev = prev->next;`
unfoldable pub prev_from : ℕ → Store → ℕ → ℕ → Option ℕ
prev_from zero c prev node = none
prev_from (suc fuel) c prev node =
    let rest = prev_from fuel c (c prev).next node in
    if prev == 0 || (c prev).next == node then some prev else rest

-- The node taken off its parent's list, where it stands on it.
unfoldable pub unlink : ℕ → Store → ℕ → ℕ → Option (Option Store)
unfolding prev_from
unlink fuel c parent node =
    if (c parent).children == node
    then some (some (store_node c parent (record (c parent) { children = (c node).next })))
    else elim (prev_from fuel c (c parent).children node) [
      | none ↦ none
      | some zero ↦ some none
      | some (suc n) ↦
          some (some (store_node c (suc n) (record (c (suc n)) { next = (c node).next })))
    ]

-- fs_remove(), behind fs_resolve(): the status, what kfree() gets, and the new state.
unfoldable pub remove_node : ℕ → ℕ → Fs → Option (ℤ × List ℕ × Fs)
unfolding unlink free_subtree
remove_node fuel node s =
    if node == 0 || node == s.root
    then some (neg 1, [], s)
    else if node == s.cwd
    then some (neg 2, [], s)
    else if (s.node node).parent == 0
    then some (neg 1, [], s)
    else elim (unlink fuel s.node (s.node node).parent node) [
      | none ↦ none
      | some none ↦ some (neg 1, [], s)
      | some (some c) ↦ elim (free_subtree fuel c node) [
        | none ↦ none
        | some freed ↦
            some (pos 0, freed.pointers, record s { node = c; count = s.count - freed.nodes })
      ]
    ]

unfoldable pub fs_remove : ℕ → List ℕ → Fs → Option (ℤ × List ℕ × Fs)
unfolding remove_node
fs_remove fuel path s = elim (fs_resolve fuel s path) [
  | none ↦ none
  | some node ↦ remove_node fuel node s
]

-- memcpy(file->data + base, bytes, add)
abbrev pub copied : (ℕ → ℕ) → ℕ → List ℕ → ℕ → ℕ
copied old base bytes i =
    if ltb i base || not (ltb i (base + length bytes)) then old i else get_or bytes (i - base) 0

-- The buffer that a write needs: the file, what kfree() gets, or `none` where kmalloc() fails.
-- `answer` is what kmalloc() returns, and `held` what that memory holds.
unfoldable pub grow : ℕ → (ℕ → ℕ) → ℕ → ℕ → FsNode → Option (FsNode × List ℕ)
grow answer held base needed f =
    let kept = not (base == 0) && not (f.block == 0) in
    if not (ltb f.capacity needed)
    then some (f, [])
    else if answer == 0
    then none
    else some (
      record f {
        block = answer;
        bytes = λ i. if kept && ltb i base then f.bytes i else held i;
        capacity = (needed + 64) % 2 ^ 32;
      },
      (if f.block == 0 then [] else f.block ∷ []),
    )

-- The bytes and their terminator in a buffer that has room.
unfoldable pub write_bytes : ℕ → List ℕ → FsNode → FsNode
write_bytes base bytes f = record f {
  bytes = λ i. if i == base + length bytes then 0 else copied f.bytes base bytes i;
  size = base + length bytes;
}

-- fs_write_n(): size_t wraps in `needed`. A NULL source is `none`.
unfoldable pub fs_write_n : ℕ → (ℕ → ℕ) → ℕ → Option (List ℕ) → Bool → Fs → ℤ × List ℕ × Fs
unfolding grow write_bytes
fs_write_n answer held file none append s = (neg 1, [], s)
fs_write_n answer held file (some bytes) append s =
    let f = s.node file in
    let base = if append then f.size else 0 in
    let needed = (base + length bytes + 1) % 2 ^ 32 in
    if file == 0 || is_directory f.kind
    then (neg 1, [], s)
    else elim (grow answer held base needed f) [
      | none ↦ (neg 1, [], s)
      | some (f', freed) ↦
          (pos 0, freed, record s { node = store_node s.node file (write_bytes base bytes f') })
    ]

-- fs_write(): strlen() finds the length of the text.
unfoldable pub fs_write : ℕ → (ℕ → ℕ) → ℕ → Option (List ℕ) → Bool → Fs → ℤ × List ℕ × Fs
unfolding fs_write_n
fs_write answer held file text append s = fs_write_n answer held file text append s
