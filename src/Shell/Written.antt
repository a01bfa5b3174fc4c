-- ===== src/Shell/Written.antt =====
-- What the commands of kernel/shell.c may change, and where the account may write.
use lightning_os.Prelude.{
  sym, ap, ◌∙◌, ℕ, zero, suc, ◌≡◌, refl, true, ◌||◌, Option, some, none, List, [], ◌∷◌, ◌⊎◌, inl,
  inr, if◌then◌else◌, take, drop, arith, Option-cases, ◌≢◌, ap, sym,
}
use mathlib.Core.Path.{subst}
use lightning_os.Shell.Changed.{Changed, with_created-Changed}
use lightning_os.Prelude.Texts.{codes}
use lightning_os.Strings.Compare.{text_eq}
use lightning_os.Users.{users_may_write, tmp}
use lightning_os.Users.Names.{IsBelow}
use lightning_os.Users.Access.{users_may_write_iff}
use lightning_os.Fs.{fs_file, fs_resolve, fs_create}
use lightning_os.Strings.Split.{str_split}
use lightning_os.Shell.{
  Shell, Answers, Reply, done, printed, usage, denied, no_such, failed, not_file, not_dir,
  elsewhere, target_abspath, may_write, guarded, with_created, cmd_touch, skip_blanks, redirection,
  echo_target, starts_with,
}

-- Only the current directory or the end of the session may differ.
pub record Unwritten (s s' : Shell) : Type 0 where
  pub nodes : s'.fs.node ≡ s.fs.node
  pub root : s'.fs.root ≡ s.fs.root
  pub count : s'.fs.count ≡ s.fs.count
  pub users : s'.users ≡ s.users
  pub dirty : s'.dirty ≡ s.dirty

-- The path stands, or would stand, at a place that the account may write to: it is an administrator's
-- account, or the place is its home directory or /tmp or below one of them.
unfoldable pub Permitted : ℕ → Shell → List ℕ → Type 0
Permitted fuel s path =
    (abspath : List ℕ) × ((target_abspath fuel s.fs path ≡ some (some abspath))
      × ((s.users.current ≢ 0)
          × (((s.users.users s.users.current).uid ≡ 0)
              ⊎ (IsBelow (s.users.users s.users.current).home abspath ⊎ IsBelow tmp abspath))))

-- The path that a command writes to.
unfoldable pub echo_path : List ℕ → Option (List ℕ)
echo_path args = elim (redirection args) [
  | none ↦ none
  | some (text, rest) ↦ some (echo_target (starts_with b'>' rest) rest)
]

unfoldable pub first_path : List (List ℕ) → Option (List ℕ)
first_path [] = none
first_path (path ∷ more) = some path

unfoldable pub written_path : List ℕ → List (List ℕ) → List ℕ → Option (List ℕ)
written_path name args raw =
    if text_eq name (codes "echo")
    then echo_path (skip_blanks (drop 4 raw))
    else if text_eq name (codes "mkdir")
        || text_eq name (codes "touch")
        || text_eq name (codes "rm")
    then first_path args
    else none

unfoldable pub line_target : List ℕ → Option (List ℕ)
unfolding written_path echo_path
line_target line = elim (str_split 16 line) [
  | [] ↦ none
  | name ∷ args ↦ written_path name args (take 255 line)
]

pub same : (s : Shell) → Unwritten s s
same s = record { nodes = refl; root = refl; count = refl; users = refl; dirty = refl }

pub allowed :
    (fuel : ℕ) (s : Shell) (path : List ℕ)
    → may_write fuel s path ≡ some done
    → Permitted fuel s path
unfolding may_write Permitted
allowed fuel s path h = elim (Option-cases (target_abspath fuel s.fs path)) [
  | inl e ↦ absurd (ground (arith, e, h))
  | inr (none, e) ↦ absurd (ground (arith, e, h))
  | inr (some abspath, e) ↦
      let w : users_may_write s.users (some abspath) ≡ true = ground (arith, e, h) in
      (abspath, (e, (users_may_write_iff s.users abspath).0 w))
]

-- What a command behind may_write() leaves.
abbrev pub Result : ℕ → Answers → List ℕ → Shell → Option (Reply × Shell) → Type 0
Result fuel m path s r =
    (reply : Reply) (s' : Shell)
    → r ≡ some (reply, s')
    → Unwritten s s' ⊎ (Permitted fuel s path × Changed fuel m path s s')

-- A command that may_write() stops leaves everything as it was.
stopped :
    (answer : Option Reply) (next : Option (Reply × Shell)) (s : Shell) (reply : Reply) (s' : Shell)
    → guarded answer next s ≡ some (reply, s')
    → (answer ≡ some done) ⊎ (s ≡ s')
unfolding guarded
stopped none next s reply s' h = absurd (ground (arith, h))
stopped (some done) next s reply s' h = inl refl
stopped (some printed) next s reply s' h = inr (ground (arith, h))
stopped (some usage) next s reply s' h = inr (ground (arith, h))
stopped (some denied) next s reply s' h = inr (ground (arith, h))
stopped (some no_such) next s reply s' h = inr (ground (arith, h))
stopped (some failed) next s reply s' h = inr (ground (arith, h))
stopped (some not_file) next s reply s' h = inr (ground (arith, h))
stopped (some not_dir) next s reply s' h = inr (ground (arith, h))
stopped (some elsewhere) next s reply s' h = inr (ground (arith, h))

passed :
    {reply : Reply} {s' : Shell} (fuel : ℕ) (path : List ℕ) (s : Shell)
    (next : Option (Reply × Shell))
    → may_write fuel s path ≡ some done
    → guarded (may_write fuel s path) next s ≡ some (reply, s')
    → next ≡ some (reply, s')
unfolding guarded
passed fuel path s next e h = ap (λ z. guarded z next s) (sym e) ∙ h

pub guarded-Result :
    (fuel : ℕ) (m : Answers) (path : List ℕ) (s : Shell) (next : Option (Reply × Shell))
    → ((reply : Reply) (s' : Shell) → next ≡ some (reply, s') → Changed fuel m path s s')
    → Result fuel m path s (guarded (may_write fuel s path) next s)
guarded-Result fuel m path s next f reply s' h =
    elim (stopped (may_write fuel s path) next s reply s' h) [
      | inl e ↦ inr (allowed fuel s path e, f reply s' (passed fuel path s next e h))
      | inr e ↦ inl (subst (λ z. Unwritten s z) e (same s))
    ]

-- An answer that leaves everything as it was.
abbrev pub kept : Reply → Shell → Option (Reply × Shell)
kept reply s = some (reply, s)

pub unchanged :
    (reply₀ reply : Reply) (s t s' : Shell)
    → Unwritten s t
    → kept reply₀ t ≡ some (reply, s')
    → Unwritten s s'
unchanged reply₀ reply s t s' u h =
    let e : t ≡ s' = ground (arith, h) in subst (λ z. Unwritten s z) e u

pub touch-Result :
    (fuel : ℕ) (m : Answers) (path : List ℕ) (s : Shell)
    → Result fuel m path s (cmd_touch fuel m path s)
unfolding cmd_touch
touch-Result fuel m path s reply s' h = elim (Option-cases (fs_resolve fuel s.fs path)) [
  | inl e ↦ absurd (ground (arith, e, h))
  | inr (zero, e) ↦
      guarded-Result fuel m path s
        (with_created s (fs_create fuel m.node m.behind path fs_file s.fs))
        (with_created-Changed fuel m path fs_file s) reply s' (ground (arith, e, h))
  | inr (suc n, e) ↦ inl (unchanged done reply s s s' (same s) (ground (arith, e, h)))
]
