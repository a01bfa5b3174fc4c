-- ===== src/Fs/Init.antt =====
-- fs_init() of fs/ramfs.c: the root and the files that the kernel starts with.
use lightning_os.Prelude.Texts.{codes}
use mathlib.Core.Option
use lightning_os.Prelude.{ℕ, ◌+◌, ◌≡◌, refl, false, Option, some, none, List, [], ◌∷◌, ◌++◌, take}
use lightning_os.Strings.Compare.{text_eq}
use lightning_os.Fs.{
  skip_slashes, skip_component, create_in, last_name, component, follow, Fs, Kind, fs_file, fs_dir,
  node_new, fs_create, fs_resolve,
}
use lightning_os.Fs.Change.{fs_write}

-- The calls that fs_init() makes: a node, or a text for the node that was made last.
data Step : Type 0 where
  make : (path : List ℕ) → (kind : Kind) → Step
  fill : (text : List ℕ) → Step

-- `answer i` is what the allocator gives at step i, and `held i` what that memory holds; `behind` is
-- what stands behind a name on the stack.
run_steps : ℕ → (ℕ → ℕ) → (ℕ → ℕ → ℕ) → List ℕ → ℕ → ℕ → List Step → Fs → Option Fs
unfolding fs_write
run_steps fuel answer held behind i file [] s = some s
run_steps fuel answer held behind i file (make path kind ∷ steps) s =
    elim (fs_create fuel (answer i) behind path kind s) [
      | none ↦ none
      | some (node, s') ↦ run_steps fuel answer held behind (i + 1) node steps s'
    ]
run_steps fuel answer held behind i file (fill text ∷ steps) s =
    run_steps fuel answer held behind (i + 1) file steps
      (fs_write (answer i) (held i) file (some text) false s).2

motd : List ℕ
motd =
    codes "Welcome to LightningOS."
    ++ (10 ∷ codes "32-bit protected mode, preemptive tasks, ATA disk, no paging yet.")
    ++ (10 ∷ codes "Type 'help' to see what the shell can do.")
    ++ (10 ∷ [])

-- `version` is what ksnprintf() makes of the build constants, cut to 159 bytes.
init_steps : List ℕ → List Step
unfolding motd
init_steps version =
    make (codes "/bin") fs_dir
    ∷ make (codes "/etc") fs_dir
    ∷ make (codes "/dev") fs_dir
    ∷ make (codes "/tmp") fs_dir
    ∷ make (codes "/home") fs_dir
    ∷ make (codes "/root") fs_dir
    ∷ make (codes "/etc/motd") fs_file
    ∷ fill motd
    ∷ make (codes "/etc/hostname") fs_file
    ∷ fill (codes "lightning" ++ 10 ∷ [])
    ∷ make (codes "/etc/version") fs_file
    ∷ fill (take 159 version)
    ∷ make (codes "/etc/passwd") fs_file
    ∷ []

fs_init : ℕ → ℕ → (ℕ → ℕ) → (ℕ → ℕ → ℕ) → List ℕ → List ℕ → Fs → Option Fs
unfolding run_steps init_steps node_new
fs_init fuel root answer held behind version s = elim (node_new fuel root (b'/' ∷ []) fs_dir 0 s) [
  | none ↦ none
  | some (node, s') ↦
      run_steps fuel answer held behind 0 0 (init_steps version)
        (record s' { root = node; cwd = node })
]

zeroed : Fs
zeroed = record {
  node = λ p. record {
    name = [];
    kind = fs_file;
    block = 0;
    bytes = λ i. 0;
    size = 0;
    capacity = 0;
    parent = 0;
    children = 0;
    next = 0;
  };
  root = 0;
  cwd = 0;
  count = 0;
}

-- Eleven nodes, and the text of the host's name.
fs_init_runs :
    Option.map {B = ℕ × Option ℕ × ℕ × ℕ}
      (λ s.
        (s.count, fs_resolve 20 s (codes "etc/hostname"), (s.node 18).size, (s.node 18).bytes 9))
      (fs_init 20 5 (λ i. i + 10) (λ i j. 0) [] [] zeroed)
    ≡ some (11, some 18, 10, 10)
unfolding fs_init zeroed fs_create fs_resolve text_eq skip_slashes skip_component create_in
    last_name component follow
fs_init_runs = refl
