-- ===== src/Shell/Tests.antt =====
-- kernel/shell.c on a small tree, for an account that is no administrator.
use lightning_os.Prelude.{
  ℕ, ◌≡◌, refl, Bool, true, false, ◌||◌, List, [], ◌∷◌, inl, inr, arith, ◌==◌, if◌then◌else◌,
  Bool-cases, drop, some, none, ◌⊎◌,
}
use mathlib.Core.Path.{subst}
use lightning_os.Prelude.Texts.{codes}
use lightning_os.Strings.Compare.{text_eq}
use lightning_os.Persist.Writer.{fs_abspath, join_from}
use lightning_os.Users.{User, Users, users_may_write, users_is_root, is_below, no_user}
use lightning_os.Fs.{
  FsNode, Fs, fs_dir, fs_create, fs_resolve, walk, walk_from, follow, find_child, skip_slashes,
  skip_component, component, last_name, create_in, node_new,
}
use lightning_os.Strings.Split.{is_space, first_word, after_word, skip_spaces, str_split}
use lightning_os.Shell.{
  Shell, Answers, done, execute, dispatch, with_path, cmd_mkdir, guarded, may_write, target_abspath,
  path_below, split_last, node_path, names_up, with_created, redirection, skip_blanks, redirection,
}
use lightning_os.Fs.Names.{IsTree, Suffices}
use lightning_os.Strings.Split.Words.{
  all_words, is_word, no_space, blank_joined, str_split-blank_joined,
}
use lightning_os.Shell.Written.{Unwritten, line_target}
use lightning_os.Shell.Changed.{Changed}
use lightning_os.Shell.Places.{IsCharted, LeadsTo, StandsBelow, below_root}
use lightning_os.Shell.Guarded.{execute_guarded, MayWrite}

abbrev dir_node : List ℕ → ℕ → ℕ → FsNode
dir_node name parent children = record {
  name = name;
  kind = fs_dir;
  block = 0;
  bytes = λ i. 0;
  size = 0;
  capacity = 0;
  parent = parent;
  children = children;
  next = 0;
}

-- The root and /tmp.
abbrev sample : Fs
sample = record {
  node = λ p. if p == 1 then dir_node (codes "/") 0 2 else dir_node (codes "tmp") 1 0;
  root = 1;
  cwd = 1;
  count = 2;
}

abbrev guest : User
guest = record no_user {
  name = codes "guest";
  home = codes "/home/guest";
  uid = 1000;
  active = true;
}

abbrev accounts : Users
accounts = record { users = λ p. guest; current = 1; next_uid = 1001 }

abbrev before : Shell
before = record { fs = sample; users = accounts; dirty = false; session_open = true }

abbrev memory : Answers
memory = record { node = 9; block = 0; held = λ i. 0; behind = [] }

abbrev below_tmp : List ℕ
below_tmp = codes "mkdir /tmp/d"

after : Shell
unfolding execute dispatch with_path cmd_mkdir guarded may_write target_abspath path_below
    split_last node_path names_up with_created str_split first_word after_word skip_spaces is_space
    fs_create fs_resolve walk walk_from follow find_child skip_slashes component skip_component
    create_in node_new last_name fs_abspath join_from text_eq
after = elim (execute 5 memory below_tmp before) [ none ↦ before | some r ↦ r.1 ]

made : execute 5 memory below_tmp before ≡ some (done, after)
unfolding after users_may_write users_is_root is_below
made = refl

abbrev used : ℕ → Bool
used p = p == 1 || p == 2

abbrev kids : ℕ → List ℕ
kids p = if p == 1 then 2 ∷ [] else []

each : (P : ℕ → Type 0) → P 1 → P 2 → (d : ℕ) → used d ≡ true → P d
each P a b d u = elim (Bool-cases (d == 1)) [
  | inl e ↦ subst P (ground (arith, e)) a
  | inr n ↦ subst P (ground (arith, u, n)) b
]

sample-IsTree : IsTree sample used kids
sample-IsTree = record {
  null = refl;
  root = refl;
  cwd = refl;
  above = each _ refl refl;
  chain = each _ (refl, omega arith, refl) refl;
  up = each _ (refl, refl, tt) tt;
  distinct = each _ (tt, tt) tt;
  names = each _ (refl, tt) tt;
}

sample-Suffices : Suffices 5 used kids
sample-Suffices = each _ (omega arith) (omega arith)

abbrev names_above : ℕ → List (List ℕ)
names_above p = if p == 1 then [] else codes "tmp" ∷ []

sample-IsCharted : IsCharted sample names_above used
unfolding StandsBelow below_root
sample-IsCharted = record {
  stands = each _ (cc, refl) (cc, refl, refl, cc, (cc, refl));
  deep = each _ (omega arith) (omega arith);
  short = each _ (omega arith) (omega arith);
}

execute_guarded_example :
    Unwritten before after
    ⊎ ((path : List ℕ) × (place : List ℕ) × (line_target below_tmp ≡ some path)
        × LeadsTo 5 sample path place
        × MayWrite before place
        × Changed 5 memory path before after)
execute_guarded_example =
    execute_guarded 5 memory below_tmp before done after used kids names_above sample-IsTree
      sample-Suffices sample-IsCharted made

two_words : all_words (codes "rm" ∷ codes "/tmp/d" ∷ []) ≡ true
unfolding all_words is_word no_space is_space
two_words = refl

str_split-blank_joined_example :
    str_split 16 (blank_joined (codes "rm" ∷ codes "/tmp/d" ∷ []))
    ≡ codes "rm" ∷ codes "/tmp/d" ∷ []
str_split-blank_joined_example =
    str_split-blank_joined 16 (codes "rm" ∷ codes "/tmp/d" ∷ []) two_words (omega arith)

-- With room for two words, the second has the rest of the line.
last_word_not_ended : str_split 2 (codes "ls a b") ≡ codes "ls" ∷ codes "a b" ∷ []
unfolding str_split skip_spaces first_word after_word is_space
last_word_not_ended = refl

-- The blanks before a command are counted as letters of `echo`: this line writes `ho`.
blanks_counted :
    redirection (skip_blanks (drop 4 (codes "  echo>a"))) ≡ some (codes "ho", codes "a")
unfolding redirection skip_blanks
blanks_counted = refl
