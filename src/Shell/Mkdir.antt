-- ===== src/Shell/Mkdir.antt =====
-- The command mkdir of kernel/shell.c on a tree, from the check of the account to the new directory.
use lightning_os.Prelude.{ℕ, ◌<◌, ◌≡◌, Bool, true, some, List, [], ◌⊎◌, ◌≢◌}
use lightning_os.Fs.{Fs, fs_dir, fs_create}
use lightning_os.Fs.Create.{Created}
use lightning_os.Shell.{Shell, Answers, Reply, done}
use lightning_os.Shell.Written.{Permitted}

-- What mkdir leaves: everything as it was, or a new directory, where the account may write.
pub Made : ℕ → Answers → List ℕ → (ℕ → Bool) → (ℕ → List ℕ) → Shell → Reply × Shell → Type 0
Made fuel m path used kids s r =
    ((r.0 ≢ done) × (r.1 ≡ s))
    ⊎ ((r.0 ≡ done)
        × Permitted fuel s path
        × (r.1.dirty ≡ true)
        × (r.1.users ≡ s.users)
        × (0 < m.node)
        × (fs_create fuel m.node [] path fs_dir s.fs ≡ some (m.node, r.1.fs))
        × Created s.fs used kids m.node (m.node, r.1.fs))
