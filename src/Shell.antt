-- ===== src/Shell.antt =====
-- kernel/shell.c: the commands that change the filesystem, with the check of the account that runs
-- them. What the commands print is left out but for the kind of the answer; the allocator's answers
-- are arguments, and the loops of the filesystem take fuel.
pub mod Changed
pub mod Written
pub mod Places
pub mod Guarded
pub mod Mkdir
mod Tests
use lightning_os.Prelude.{
  ℕ, zero, suc, ◌+◌, ◌-◌, Bool, true, false, not, ◌&&◌, ◌||◌, Option, some, none, List, [], ◌∷◌,
  ◌++◌, ltb, ◌==◌, if◌then◌else◌, take, drop, length, ℤ, pos, negsuc, is_zero, is_empty,
}
use lightning_os.Prelude.Texts.{codes}
use lightning_os.Strings.Compare.{text_eq}
use lightning_os.Strings.Split.{str_split}
use lightning_os.Persist.Writer.{fs_abspath}
use lightning_os.Users.{Users, users_may_write}
use lightning_os.Fs.{Fs, Store, fs_dir, fs_file, is_directory, fs_resolve, fs_create}
use lightning_os.Fs.Change.{fs_remove, fs_set_cwd, fs_write}

pub record Shell : Type 0 where
  pub fs : Fs
  pub users : Users
  pub dirty : Bool
  pub session_open : Bool

-- What the allocator gives for a node and for a buffer, what the buffer holds, and what stands on the
-- stack behind a name.
pub record Answers : Type 0 where
  pub node : ℕ
  pub block : ℕ
  pub held : ℕ → ℕ
  pub behind : List ℕ

pub data Reply : Type 0 where
  done printed usage denied no_such failed not_file not_dir elsewhere : Reply

-- The names from the root, or from 32 nodes up, down to a node, as fs_abspath() collects them.
pub names_up : ℕ → Store → ℕ → List (List ℕ)
names_up zero c n = []
names_up (suc left) c n =
    if n == 0 || (c n).parent == 0 then [] else names_up left c (c n).parent ++ (c n).name ∷ []

pub node_path : Fs → ℕ → List ℕ
node_path s node =
    let path = fs_abspath (names_up 32 s.node node) in if is_empty path then b'/' ∷ [] else path

-- What stands before the last slash, and behind it.
pub split_last : List ℕ → Option (List ℕ × List ℕ)
split_last [] = none
split_last (c ∷ s) = elim (split_last s) [
  | some (front, name) ↦ some (c ∷ front, name)
  | none ↦ if c == b'/' then some ([], s) else none
]

-- The path of a node that is not there yet, in the directory `parent`.
pub path_below : Fs → ℕ → List ℕ → Option (List ℕ)
unfolding node_path
path_below s parent name =
    let above = node_path s parent in
    if parent == 0 || not (is_directory (s.node parent).kind) || is_empty name
    then none
    else some (take 255 (above ++ (if text_eq above (b'/' ∷ []) then [] else b'/' ∷ []) ++ name))

-- target_abspath(): the inner `none` is its false.
pub target_abspath : ℕ → Fs → List ℕ → Option (Option (List ℕ))
unfolding split_last path_below node_path
target_abspath fuel s path = elim (fs_resolve fuel s path) [
  | none ↦ none
  | some (suc n) ↦ some (some (node_path s (suc n)))
  | some zero ↦ elim (split_last (take 255 path)) [
    | none ↦ some (path_below s s.cwd (take 255 path))
    | some (front, name) ↦ elim (fs_resolve fuel s (if is_empty front then b'/' ∷ [] else front)) [
      | none ↦ none
      | some parent ↦ some (path_below s parent name)
    ]
  ]
]

-- may_write(): what it answers where it does not allow the command.
pub may_write : ℕ → Shell → List ℕ → Option Reply
may_write fuel s path = elim (target_abspath fuel s.fs path) [
  | none ↦ none
  | some none ↦ some no_such
  | some (some abspath) ↦ some (if users_may_write s.users (some abspath) then done else denied)
]

-- `if (fs_create(...)) persist_mark_dirty(); else print_error(...);`
pub with_created : Shell → Option (ℕ × Fs) → Option (Reply × Shell)
with_created s none = none
with_created s (some (zero, fs)) = some (failed, record s { fs = fs })
with_created s (some (suc n, fs)) = some (done, record s { fs = fs; dirty = true })

-- A command behind may_write().
pub guarded : Option Reply → Option (Reply × Shell) → Shell → Option (Reply × Shell)
guarded none next s = none
guarded (some done) next s = next
guarded (some reply) next s = some (reply, s)

pub cmd_mkdir : ℕ → Answers → List ℕ → Shell → Option (Reply × Shell)
cmd_mkdir fuel m path s =
    guarded (may_write fuel s path)
      (with_created s (fs_create fuel m.node m.behind path fs_dir s.fs)) s

pub cmd_touch : ℕ → Answers → List ℕ → Shell → Option (Reply × Shell)
cmd_touch fuel m path s = elim (fs_resolve fuel s.fs path) [
  | none ↦ none
  | some (suc n) ↦ some (done, s)
  | some zero ↦
      guarded (may_write fuel s path)
        (with_created s (fs_create fuel m.node m.behind path fs_file s.fs)) s
]

pub after_rm : Shell → Option (ℤ × List ℕ × Fs) → Option (Reply × Shell)
after_rm s none = none
after_rm s (some (status, freed, fs)) =
    if is_zero status
    then some (done, record s { fs = fs; dirty = true })
    else some (failed, record s { fs = fs })

pub cmd_rm : ℕ → List ℕ → Shell → Option (Reply × Shell)
cmd_rm fuel path s = guarded (may_write fuel s path) (after_rm s (fs_remove fuel path s.fs)) s

-- cmd_echo(): the text before a `>`, whether two of them stand there, and the target.
pub redirection : List ℕ → Option (List ℕ × List ℕ)
redirection [] = none
redirection (c ∷ s) =
    let rest = redirection s in
    if c == b'>'
    then some ([], s)
    else elim rest [ none ↦ none | some (text, target) ↦ some (c ∷ text, target) ]

pub starts_with : ℕ → List ℕ → Bool
starts_with c [] = false
starts_with c (d ∷ s) = d == c

pub skip_blanks : List ℕ → List ℕ
skip_blanks [] = []
skip_blanks (c ∷ s) = if c == b' ' then skip_blanks s else c ∷ s

pub trim_blanks : List ℕ → List ℕ
trim_blanks [] = []
trim_blanks (c ∷ s) =
    let rest = trim_blanks s in if c == b' ' && is_empty rest then [] else c ∷ rest

-- The write of a text to a node that fs_resolve() or fs_create() gave.
pub write_to : Answers → List ℕ → Bool → Shell → ℕ × Fs → Reply × Shell
write_to m text append s (file, fs) =
    let (status, freed, fs') =
      fs_write m.block m.held file (some (take 257 (text ++ 10 ∷ []))) append fs in
    if file == 0
    then (failed, record s { fs = fs })
    else if is_directory (fs.node file).kind
    then (not_file, record s { fs = fs })
    else if is_zero status
    then (done, record s { fs = fs'; dirty = true })
    else (failed, record s { fs = fs' })

pub echo_to : ℕ → Answers → List ℕ → Bool → List ℕ → Shell → Option (Reply × Shell)
unfolding write_to
echo_to fuel m text append target s = elim (fs_resolve fuel s.fs target) [
  | none ↦ none
  | some (suc n) ↦ some (write_to m text append s (suc n, s.fs))
  | some zero ↦ elim (fs_create fuel m.node m.behind target fs_file s.fs) [
    | none ↦ none
    | some r ↦ some (write_to m text append s r)
  ]
]

pub echo_target : Bool → List ℕ → List ℕ
unfolding skip_blanks trim_blanks
echo_target append rest = trim_blanks (skip_blanks (if append then drop 1 rest else rest))

pub cmd_echo : ℕ → Answers → List ℕ → Shell → Option (Reply × Shell)
cmd_echo fuel m args s = elim (redirection args) [
  | none ↦ some (printed, s)
  | some (text, rest) ↦
      let append = starts_with b'>' rest in
      let target = echo_target append rest in
      if is_empty target
      then some (usage, s)
      else guarded (may_write fuel s target) (echo_to fuel m (trim_blanks text) append target s) s
]

-- cmd_cd(): home is the account's, or the root where nobody is logged in or home is not there.
pub home_dir : ℕ → Shell → Option ℕ
home_dir fuel s =
    if s.users.current == 0
    then some s.fs.root
    else fs_resolve fuel s.fs (s.users.users s.users.current).home

pub enter : ℕ → Shell → Shell
enter dir s = record s { fs = fs_set_cwd dir s.fs }

pub cmd_cd : ℕ → List (List ℕ) → Shell → Option (Reply × Shell)
unfolding home_dir enter
cmd_cd fuel [] s = elim (home_dir fuel s) [
  | none ↦ none
  | some zero ↦ some (done, enter s.fs.root s)
  | some (suc n) ↦ some (done, enter (suc n) s)
]
cmd_cd fuel (path ∷ more) s = elim (fs_resolve fuel s.fs path) [
  | none ↦ none
  | some zero ↦ some (no_such, s)
  | some (suc n) ↦
      if is_directory (s.fs.node (suc n)).kind
      then some (done, enter (suc n) s)
      else some (not_dir, s)
]

-- The first argument of a command, where there is one.
pub with_path : List (List ℕ) → (List ℕ → Option (Reply × Shell)) → Shell → Option (Reply × Shell)
with_path [] command s = some (usage, s)
with_path (path ∷ more) command s = command path

-- The commands of execute() that change the filesystem, and those that end the session. What the
-- other commands do is left out.
pub dispatch : ℕ → Answers → List ℕ → List (List ℕ) → List ℕ → Shell → Option (Reply × Shell)
dispatch fuel m name args raw s =
    if text_eq name (codes "cd")
    then cmd_cd fuel args s
    else if text_eq name (codes "echo")
    then cmd_echo fuel m (skip_blanks (drop 4 raw)) s
    else if text_eq name (codes "mkdir")
    then with_path args (λ path. cmd_mkdir fuel m path s) s
    else if text_eq name (codes "touch")
    then with_path args (λ path. cmd_touch fuel m path s) s
    else if text_eq name (codes "rm")
    then with_path args (λ path. cmd_rm fuel path s) s
    else if text_eq name (codes "logout") || text_eq name (codes "exit")
    then some (done, record s { session_open = false })
    else some (elsewhere, s)

-- execute(): a line of at most 16 words.
pub execute : ℕ → Answers → List ℕ → Shell → Option (Reply × Shell)
execute fuel m line s = elim (str_split 16 line) [
  | [] ↦ some (done, s)
  | name ∷ args ↦ dispatch fuel m name args (take 255 line) s
]
