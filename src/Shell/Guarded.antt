-- ===== src/Shell/Guarded.antt =====
-- The commands of kernel/shell.c write only where the account may.
use lightning_os.Prelude.{
  ℕ, zero, suc, ◌≡◌, ◌≢◌, refl, Bool, false, not, ◌&&◌, ◌||◌, Option, some, List, [], ◌∷◌, ◌⊎◌, inl,
  inr, take, drop, arith, Bool-cases, Option-cases, ◌==◌, if_cases, is_empty,
}
use lightning_os.Prelude.Texts.{codes}
use lightning_os.Strings.Compare.{text_eq}
use lightning_os.Fs.{fs_dir, is_directory, fs_resolve, fs_create}
use lightning_os.Fs.Change.{fs_set_cwd, fs_remove}
use lightning_os.Strings.Split.{str_split}
use lightning_os.Shell.{
  Shell, Answers, Reply, done, printed, usage, no_such, not_dir, elsewhere, may_write, guarded,
  with_created, cmd_mkdir, cmd_touch, cmd_rm, cmd_echo, cmd_cd, enter, home_dir, with_path,
  dispatch, execute, skip_blanks, redirection, echo_target, starts_with, echo_to, trim_blanks,
  after_rm,
}
use lightning_os.Users.{tmp}
use lightning_os.Users.Names.{IsBelow}
use lightning_os.Fs.Names.{IsTree, Suffices}
use lightning_os.Shell.Places.{IsCharted, LeadsTo}
use lightning_os.Shell.Places.Leads.{target_abspath-LeadsTo}
use lightning_os.Shell.Changed.{Changed, with_created-Changed, after_rm-Changed, echo_to-Changed}
use lightning_os.Shell.Written.{
  Unwritten, Permitted, echo_path, first_path, written_path, line_target, same, Result,
  guarded-Result, kept, unchanged, touch-Result,
}

-- What a command leaves whose line names `target` as the path to write to.
abbrev Outcome : ℕ → Answers → Option (List ℕ) → Shell → Option (Reply × Shell) → Type 0
Outcome fuel m target s r =
    (reply : Reply) (s' : Shell)
    → r ≡ some (reply, s')
    → Unwritten s s'
      ⊎ ((path : List ℕ) × ((target ≡ some path)
            × (Permitted fuel s path × Changed fuel m path s s')))

-- A command on the path that its line names.
named :
    (fuel : ℕ) (m : Answers) (path : List ℕ) (target : Option (List ℕ)) (s : Shell)
    (r : Option (Reply × Shell))
    → target ≡ some path
    → Result fuel m path s r
    → Outcome fuel m target s r
named fuel m path target s r t f reply s' h = elim (f reply s' h) [
  | inl u ↦ inl u
  | inr p ↦ inr (path, (t, p))
]

still :
    (fuel : ℕ) (m : Answers) (target : Option (List ℕ)) (reply₀ : Reply) (s t : Shell)
    → Unwritten s t
    → Outcome fuel m target s (kept reply₀ t)
still fuel m target reply₀ s t u reply s' h = inl (unchanged reply₀ reply s t s' u h)

moved : (dir : ℕ) (s : Shell) → Unwritten s (enter dir s)
unfolding enter fs_set_cwd
moved dir s =
    if_cases (λ z. Unwritten s (record s { fs = z }))
      (not (dir == 0) && is_directory (s.fs.node dir).kind) (record s.fs { cwd = dir }) s.fs
      (λ e. record { nodes = refl; root = refl; count = refl; users = refl; dirty = refl })
      (λ e. same s)

cd-Outcome :
    (fuel : ℕ) (m : Answers) (target : Option (List ℕ)) (args : List (List ℕ)) (s : Shell)
    → Outcome fuel m target s (cmd_cd fuel args s)
unfolding cmd_cd
cd-Outcome fuel m target [] s reply s' h = elim (Option-cases (home_dir fuel s)) [
  | inl e ↦ absurd (ground (arith, e, h))
  | inr (zero, e) ↦
      still fuel m target done s (enter s.fs.root s) (moved s.fs.root s) reply s'
        (ground (arith, e, h))
  | inr (suc n, e) ↦
      still fuel m target done s (enter (suc n) s) (moved (suc n) s) reply s' (ground (arith, e, h))
]
cd-Outcome fuel m target (path ∷ more) s reply s' h =
    elim (Option-cases (fs_resolve fuel s.fs path)) [
      | inl e ↦ absurd (ground (arith, e, h))
      | inr (zero, e) ↦ still fuel m target no_such s s (same s) reply s' (ground (arith, e, h))
      | inr (suc n, e) ↦ elim (Bool-cases (is_directory (s.fs.node (suc n)).kind)) [
        | inl d ↦
            still fuel m target done s (enter (suc n) s) (moved (suc n) s) reply s'
              (ground (arith, e, d, h))
        | inr d ↦ still fuel m target not_dir s s (same s) reply s' (ground (arith, e, d, h))
      ]
    ]

echo-Outcome :
    (fuel : ℕ) (m : Answers) (args : List ℕ) (target : Option (List ℕ)) (s : Shell)
    → target ≡ echo_path args
    → Outcome fuel m target s (cmd_echo fuel m args s)
unfolding cmd_echo echo_path
echo-Outcome fuel m args target s t reply s' h = elim (Option-cases (redirection args)) [
  | inl e ↦ still fuel m target printed s s (same s) reply s' (ground (arith, e, h))
  | inr ((text, rest), e) ↦
      let path = echo_target (starts_with b'>' rest) rest in
      elim (Bool-cases (is_empty path)) [
        | inl d ↦ still fuel m target usage s s (same s) reply s' (ground (arith, e, d, h))
        | inr d ↦
            named fuel m path target s
              (guarded (may_write fuel s path)
                (echo_to fuel m (trim_blanks text) (starts_with b'>' rest) path s) s)
              (ground (arith, e, t))
              (guarded-Result fuel m path s
                (echo_to fuel m (trim_blanks text) (starts_with b'>' rest) path s)
                (echo_to-Changed fuel m (trim_blanks text) (starts_with b'>' rest) path s))
              reply s' (ground (arith, e, d, h))
      ]
]

path-Outcome :
    (fuel : ℕ) (m : Answers) (args : List (List ℕ)) (target : Option (List ℕ))
    (command : List ℕ → Option (Reply × Shell)) (s : Shell)
    → target ≡ first_path args
    → ((path : List ℕ) → Result fuel m path s (command path))
    → Outcome fuel m target s (with_path args command s)
unfolding first_path with_path
path-Outcome fuel m [] target command s t f = still fuel m target usage s s (same s)
path-Outcome fuel m (path ∷ more) target command s t f =
    named fuel m path target s (command path) t (f path)

dispatch-Outcome :
    (fuel : ℕ) (m : Answers) (name : List ℕ) (args : List (List ℕ)) (raw : List ℕ) (s : Shell)
    → Outcome fuel m (written_path name args raw) s (dispatch fuel m name args raw s)
unfolding dispatch written_path cmd_mkdir cmd_rm
dispatch-Outcome fuel m name args raw s =
    let target = written_path name args raw in
    let P : Option (Reply × Shell) → Type 0 = λ z. Outcome fuel m target s z in
    if_cases P (text_eq name (codes "cd")) _ _ (λ e. cd-Outcome fuel m target args s)
      (λ e1.
        if_cases P (text_eq name (codes "echo")) _ _
          (λ e. echo-Outcome fuel m (skip_blanks (drop 4 raw)) target s (ground (arith, e)))
          (λ e2.
            if_cases P (text_eq name (codes "mkdir")) _ _
              (λ e.
                path-Outcome fuel m args target (λ path. cmd_mkdir fuel m path s) s
                  (ground (arith, e2, e))
                  (λ path.
                    guarded-Result fuel m path s
                      (with_created s (fs_create fuel m.node m.behind path fs_dir s.fs))
                      (with_created-Changed fuel m path fs_dir s)))
              (λ e3.
                if_cases P (text_eq name (codes "touch")) _ _
                  (λ e.
                    path-Outcome fuel m args target (λ path. cmd_touch fuel m path s) s
                      (ground (arith, e2, e3, e)) (λ path. touch-Result fuel m path s))
                  (λ e4.
                    if_cases P (text_eq name (codes "rm")) _ _
                      (λ e.
                        path-Outcome fuel m args target (λ path. cmd_rm fuel path s) s
                          (ground (arith, e2, e3, e4, e))
                          (λ path.
                            guarded-Result fuel m path s (after_rm s (fs_remove fuel path s.fs))
                              (after_rm-Changed fuel m path s)))
                      (λ e5.
                        if_cases P (text_eq name (codes "logout") || text_eq name (codes "exit")) _
                          _
                          (λ e.
                            still fuel m target done s (record s { session_open = false })
                              (record {
                                nodes = refl;
                                root = refl;
                                count = refl;
                                users = refl;
                                dirty = refl;
                              }))
                          (λ e. still fuel m target elsewhere s s (same s)))))))

words_cases :
    (words : List (List ℕ))
    → (words ≡ []) ⊎ ((name : List ℕ) × ((args : List (List ℕ)) × (words ≡ name ∷ args)))
words_cases [] = inl refl
words_cases (name ∷ args) = inr (name, (args, refl))

execute-Outcome :
    (fuel : ℕ) (m : Answers) (line : List ℕ) (s : Shell)
    → Outcome fuel m (line_target line) s (execute fuel m line s)
unfolding execute line_target
execute-Outcome fuel m line s reply s' h = elim (words_cases (str_split 16 line)) [
  | inl e ↦ inl (unchanged done reply s s s' (same s) (ground (arith, e, h)))
  | inr (name, (args, e)) ↦
      elim (dispatch-Outcome fuel m name args (take 255 line) s reply s' (ground (arith, e, h))) [
        | inl u ↦ inl u
        | inr (path, (t, p)) ↦ inr (path, (ground (arith, e, t), p))
      ]
]

-- The account that is logged in may write to a place: it is an administrator's account, or the place
-- is its home directory or /tmp or below one of them.
pub MayWrite : Shell → List ℕ → Type 0
MayWrite s place =
    (s.users.current ≢ 0)
    × (((s.users.users s.users.current).uid ≡ 0)
        ⊎ (IsBelow (s.users.users s.users.current).home place ⊎ IsBelow tmp place))

-- On a tree in which every node has its place by the names of the directories above it, at most 32 of
-- them with at most 254 bytes, and for a fuel above the number of children of every directory: after
-- a line of the commands cd, echo, mkdir, touch, rm, logout and exit, whatever the accounts and the
-- allocator's answers, where execute() ends, nothing but the current directory and the session's end
-- differs from before; or the line names a path that leads, by the names of the directories, to a
-- place that the account logged in may write to, and the tree differs at most by one call of
-- fs_create(), fs_remove() or fs_write() on what this path names, or by fs_create() and fs_write() on
-- it, and the accounts and the session do not differ.
pub execute_guarded :
    (fuel : ℕ) (m : Answers) (line : List ℕ) (s : Shell) (reply : Reply) (s' : Shell)
    (used : ℕ → Bool) (kids : ℕ → List ℕ) (up : ℕ → List (List ℕ))
    → IsTree s.fs used kids
    → Suffices fuel used kids
    → IsCharted s.fs up used
    → execute fuel m line s ≡ some (reply, s')
    → Unwritten s s'
      ⊎ ((path : List ℕ) × (place : List ℕ) × (line_target line ≡ some path)
          × LeadsTo fuel s.fs path place
          × MayWrite s place
          × Changed fuel m path s s')
unfolding Permitted MayWrite
execute_guarded fuel m line s reply s' used kids up t f ch h =
    elim (execute-Outcome fuel m line s reply s' h) [
      | inl u ↦ inl u
      | inr (path, (named_so, ((place, (e, may)), changed))) ↦
          let leads = target_abspath-LeadsTo s.fs used kids up fuel path place t f ch e in
          inr (path, place, named_so, leads, may, changed)
    ]
