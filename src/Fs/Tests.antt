-- ===== src/Fs/Tests.antt =====
-- fs/ramfs.c on small trees.
use lightning_os.Prelude.{
  ℕ, ◌≡◌, refl, Bool, true, false, ◌||◌, List, [], ◌∷◌, inl, inr, arith, ◌==◌, if◌then◌else◌,
  Bool-cases, some, none, ℤ, pos, replicate,
}
use mathlib.Core.Path.{subst}
use mathlib.Core.Option
use lightning_os.Fs.{FsNode, Store, Fs, fs_dir, fs_file, fs_create, fs_resolve, walk, store_node}
use lightning_os.Fs.Change.{fs_remove, remove_node, fs_write_n}
use lightning_os.Fs.Names.{IsTree, Suffices}
use lightning_os.Fs.{
  walk_from, follow, find_child, skip_slashes, skip_component, component, last_name, create_in,
  node_new,
}
use lightning_os.Strings.Compare.{text_eq}
use lightning_os.Fs.Create.{fs_create-Created, Created}
use lightning_os.Fs.Resolve.{fs_resolve-fs_create}
use lightning_os.Fs.PathNames.{walk-follow, follow_all, follow_but_last, start, cut_names}
use lightning_os.Fs.Write.{fs_write_n_lem, WriteOutcome, IsBuffer}
use lightning_os.Fs.Remove.{Forest, tree, bare, tree_size}
use lightning_os.Fs.Removed.{remove_node-Removed, Removed}

abbrev etc : List ℕ
etc = b'e' ∷ b't' ∷ b'c' ∷ []

abbrev motd : List ℕ
motd = b'm' ∷ b'o' ∷ b't' ∷ b'd' ∷ []

abbrev dir_node : List ℕ → ℕ → ℕ → FsNode
dir_node name parent children = record {
  name = name;
  kind = fs_dir;
  block = 0;
  bytes = λ i. 0;
  size = 0;
  capacity = 0;
  parent = parent;
  children = children;
  next = 0;
}

-- The root, /etc and the file /etc/motd, with two bytes of text.
abbrev sample_node : Store
sample_node p =
    if p == 1
    then dir_node (b'/' ∷ []) 0 2
    else if p == 2
    then dir_node etc 1 3
    else record (dir_node motd 2 0) {
      kind = fs_file;
      block = 100;
      bytes = λ i. if i == 0 then b'h' else if i == 1 then b'i' else 0;
      size = 2;
      capacity = 67;
    }

abbrev sample : Fs
sample = record { node = sample_node; root = 1; cwd = 1; count = 3 }

abbrev used : ℕ → Bool
used p = p == 1 || p == 2 || p == 3

abbrev kids : ℕ → List ℕ
kids p = if p == 1 then 2 ∷ [] else if p == 2 then 3 ∷ [] else []

each : (P : ℕ → Type 0) → P 1 → P 2 → P 3 → (d : ℕ) → used d ≡ true → P d
each P a b c d u = elim (Bool-cases (d == 1)) [
  | inl e ↦ subst P (ground (arith, e)) a
  | inr n ↦ elim (Bool-cases (d == 2)) [
    | inl e ↦ subst P (ground (arith, e)) b
    | inr m ↦ subst P (ground (arith, u, n, m)) c
  ]
]

sample-IsTree : IsTree sample used kids
sample-IsTree = record {
  null = refl;
  root = refl;
  cwd = refl;
  above = each _ refl refl refl;
  chain = each _ (refl, omega arith, refl) (refl, omega arith, refl) refl;
  up = each _ (refl, refl, tt) (refl, refl, tt) tt;
  distinct = each _ (tt, tt) (tt, tt) tt;
  names = each _ (refl, tt) (refl, tt) tt;
}

sample-Suffices : Suffices 5 used kids
sample-Suffices = each _ (omega arith) (omega arith) (omega arith)

abbrev new_path : List ℕ
new_path = b'/' ∷ b'e' ∷ b't' ∷ b'c' ∷ b'/' ∷ b'n' ∷ []

fs_create-Created_example :
    (r : ℕ × Fs) × (fs_create 5 9 [] new_path fs_file sample ≡ some r)
    × Created sample used kids 9 r
fs_create-Created_example =
    fs_create-Created sample used kids 5 9 new_path fs_file sample-IsTree sample-Suffices refl

after_create : Fs
unfolding fs_create walk walk_from follow find_child skip_slashes skip_component component last_name
    create_in node_new
after_create = elim (fs_create 5 9 [] new_path fs_file sample) [ none ↦ sample | some r ↦ r.1 ]

walk_new : walk 5 sample true new_path ≡ some (2, b'n' ∷ [])
unfolding walk walk_from follow find_child skip_slashes skip_component component text_eq
walk_new = refl

create_new : fs_create 5 9 [] new_path fs_file sample ≡ some (9, after_create)
unfolding after_create text_eq
create_new = refl

fs_resolve-fs_create_example : fs_resolve 6 after_create new_path ≡ some 9
fs_resolve-fs_create_example =
    fs_resolve-fs_create sample used kids 5 9 new_path fs_file 2 (b'n' ∷ []) after_create
      sample-IsTree sample-Suffices refl walk_new (cc) (cc) (omega arith) create_new

walk-follow_example :
    (walk 5 sample false new_path
      ≡ Option.map
          (λ p. (p, []))
          (follow_all 5 sample (start sample new_path) (cut_names new_path)))
    × (walk 5 sample true new_path
        ≡ follow_but_last 5 sample (start sample new_path) (cut_names new_path))
walk-follow_example = walk-follow 5 sample b'/' (b'e' ∷ b't' ∷ b'c' ∷ b'/' ∷ b'n' ∷ [])

sample-IsBuffer : IsBuffer (sample.node 3)
sample-IsBuffer = record { empty = λ e. absurd (omega (arith, e)); room = λ e. omega arith }

fs_write_n_lem_example :
    WriteOutcome sample 500 3
      (b'!' ∷ [])
      true
      (fs_write_n 500 (λ i. 7) 3 (some (b'!' ∷ [])) true sample)
fs_write_n_lem_example =
    fs_write_n_lem sample 500 (λ i. 7) 3 (b'!' ∷ []) true (omega arith) refl sample-IsBuffer
      (omega arith)

more-Suffices : Suffices 9 used kids
more-Suffices = each _ (omega arith) (omega arith) (omega arith)

abbrev below_etc : Forest
below_etc = tree 3 bare bare

-- The current directory is the root; /etc goes with the file in it.
remove_node-Removed_example :
    (r : ℤ × List ℕ × Fs) × (remove_node 9 2 sample ≡ some r)
    × Removed sample used kids 1 2 [] [] below_etc r
unfolding tree_size
remove_node-Removed_example =
    remove_node-Removed sample used kids 9 2 [] [] below_etc sample-IsTree more-Suffices refl
      (omega arith) (omega arith) refl refl (omega arith) ((omega arith, tt, tt), tt)
      (refl, omega arith, refl, refl) (omega arith)

-- /etc goes although the current directory stands below it.
abbrev below_cwd : Fs
below_cwd = record sample { node = store_node sample_node 3 (dir_node motd 2 0); cwd = 3 }

remove_above_cwd :
    Option.map {B = ℤ × List ℕ × ℕ} (λ r. (r.0, r.1, r.2.cwd)) (fs_remove 9 (b'/' ∷ etc) below_cwd)
    ≡ some (pos 0, 3 ∷ 2 ∷ [], 3)
unfolding fs_remove fs_resolve walk walk_from follow find_child skip_slashes skip_component
    component text_eq
remove_above_cwd = refl

-- A name of 31 bytes, with a byte other than 0 behind it on the stack, is made twice.
abbrev long_name : List ℕ
long_name = replicate 31 b'a'

created_twice :
    elim (fs_create 9 9 (7 ∷ []) long_name fs_file sample) [
      | none ↦ none
      | some r ↦ Option.map (λ q. q.0) (fs_create 9 10 (7 ∷ []) long_name fs_file r.1)
    ]
    ≡ some 10
unfolding fs_create walk walk_from follow find_child skip_slashes skip_component component last_name
    create_in node_new text_eq
created_twice = refl

-- The last name is made as it stands, also where it is `..`.
create_dots :
    Option.map {B = ℕ × List ℕ}
      (λ r. (r.0, (r.1.node 9).name))
      (fs_create 9 9 [] (b'.' ∷ b'.' ∷ []) fs_file sample)
    ≡ some (9, b'.' ∷ b'.' ∷ [])
unfolding fs_create walk walk_from follow find_child skip_slashes skip_component component last_name
    create_in node_new text_eq
create_dots = refl
