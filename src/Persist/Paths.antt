-- ===== src/Persist/Paths.antt =====
-- The paths of a tree: what fs_abspath() of fs/ramfs.c gives for a node, and where it stands.
use lightning_os.Prelude.{
  ℕ, ◌+◌, ◌-◌, ◌≤◌, ◌<◌, ◌≡◌, refl, ap, ◌∙◌, true, false, List, [], ◌∷◌, ◌++◌, arith, leb, drop,
  length, length-append,
}
use lightning_os.Persist.Writer.{
  Entry, Node, Nodes, file, dir, last, then_node, fs_abspath, join_from, fs_path_max,
}
use lightning_os.Persist.Roundtrip.{stored, child_stored}

-- The names from the root down, a slash before each.
unfoldable pub joined : List (List ℕ) → List ℕ
joined [] = []
joined (part ∷ parts) = b'/' ∷ part ++ joined parts

-- A tree as a list: each node with all the names that lead to it, parents before their children.
unfoldable mutual
  pub entries : List (List ℕ) → Nodes → List Entry
  entries parts last = []
  entries parts (then_node node nodes) = child_entries parts node ++ entries parts nodes

  pub child_entries : List (List ℕ) → Node → List Entry
  child_entries parts (file name content) =
      record { is_dir = false; path = joined (parts ++ name ∷ []); content = content } ∷ []
  child_entries parts (dir name nodes) =
      record { is_dir = true; path = joined (parts ++ name ∷ []); content = [] }
      ∷ entries (parts ++ name ∷ []) nodes

unfoldable pub Short : List (List ℕ) → Type 0
Short parts = (length parts ≤ 32) × (length (joined parts) < 255)

-- Every node stands at most 32 names deep, and its path has at most 254 bytes.
unfoldable mutual
  pub Shallow : List (List ℕ) → Nodes → Type 0
  Shallow parts last = Unit {0}
  Shallow parts (then_node node nodes) = ShallowNode parts node × Shallow parts nodes

  pub ShallowNode : List (List ℕ) → Node → Type 0
  ShallowNode parts (file name content) = Short (parts ++ name ∷ [])
  ShallowNode parts (dir name nodes) =
      Short (parts ++ name ∷ []) × Shallow (parts ++ name ∷ []) nodes

join_from-joined :
    (at : ℕ) (parts : List (List ℕ))
    → at + length (joined parts) < 255
    → join_from at parts ≡ joined parts
unfolding join_from joined
join_from-joined at [] h = refl
join_from-joined at (part ∷ parts) h =
    let l = length-append part (joined parts) in
    let room : leb fs_path_max (at + length part + 2) ≡ false = ground (arith, h, l) in
    let ih = join_from-joined (at + 1 + length part) parts (omega (arith, h, l)) in
    rw (room, ih) refl

pub fs_abspath-joined :
    (part : List ℕ) (parts : List (List ℕ))
    → Short (part ∷ parts)
    → fs_abspath (part ∷ parts) ≡ joined (part ∷ parts)
unfolding fs_abspath Short
fs_abspath-joined part parts (deep, short) =
    let all : length (part ∷ parts) - 32 ≡ 0 = omega (arith, deep) in
    ap (λ n. join_from 0 (drop n (part ∷ parts))) all
    ∙ join_from-joined 0 (part ∷ parts) (omega (arith, short))

pub abspath_of :
    (parts : List (List ℕ)) (name : List ℕ)
    → Short (parts ++ name ∷ [])
    → fs_abspath (parts ++ name ∷ []) ≡ joined (parts ++ name ∷ [])
abspath_of [] name h = fs_abspath-joined name [] h
abspath_of (p ∷ ps) name h = fs_abspath-joined p (ps ++ name ∷ []) h

mutual
  unfolding stored entries Shallow

  pub stored-entries :
      (parts : List (List ℕ)) (nodes : Nodes)
      → Shallow parts nodes
      → stored parts nodes ≡ entries parts nodes
  stored-entries parts last h = refl
  stored-entries parts (then_node node nodes) (h, hs) =
      ap (λ z. z ++ stored parts nodes) (child_stored-entries parts node h)
      ∙ ap (λ z. child_entries parts node ++ z) (stored-entries parts nodes hs)

  child_stored-entries :
      (parts : List (List ℕ)) (node : Node)
      → ShallowNode parts node
      → child_stored parts node ≡ child_entries parts node
  child_stored-entries parts (file name content) h =
      ap (λ p. record { is_dir = false; path = p; content = content } ∷ [])
        (abspath_of parts name h)
  child_stored-entries parts (dir name nodes) (h, hs) =
      ap (λ p. record { is_dir = true; path = p; content = [] } ∷ stored (parts ++ name ∷ []) nodes)
        (abspath_of parts name h)
      ∙ ap (λ z. record { is_dir = true; path = joined (parts ++ name ∷ []); content = [] } ∷ z)
          (stored-entries (parts ++ name ∷ []) nodes hs)
