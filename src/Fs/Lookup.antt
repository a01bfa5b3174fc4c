-- ===== src/Fs/Lookup.antt =====
-- find_child() of fs/ramfs.c on a directory of the tree.
use lightning_os.Prelude.{ℕ, ◌≡◌, ◌≢◌, ap, Bool, true, List, arith, if◌then◌else◌, some}
use lightning_os.Fs.{Fs, is_directory, find_child}
use lightning_os.Fs.Chain.{first_named, child_from_lem}
use lightning_os.Fs.Names.{IsTree, Suffices}

-- find_child() on a directory of the tree.
pub find_child_lem :
    (s : Fs) (used : ℕ → Bool) (kids : ℕ → List ℕ) (fuel dir : ℕ) (name : List ℕ)
    → IsTree s used kids
    → Suffices fuel used kids
    → used dir ≡ true
    → find_child fuel s.node dir name
      ≡ some (if is_directory (s.node dir).kind then first_named s.node name (kids dir) else 0)
unfolding find_child
find_child_lem s used kids fuel dir name t f u =
    let e =
      child_from_lem (kids dir) fuel s.node (s.node dir).children name (t.chain dir u) (f dir u) in
    let ne : dir ≢ 0 = λ z. cc (t.null, ap used z, u) in ground (arith, e, ne)
