-- ===== src/Fs/Create.antt =====
-- fs_create() of fs/ramfs.c: nothing, or one new node in the tree.
use mathlib.Core.Path.{subst}
use lightning_os.Prelude.{
  ℕ, ◌+◌, ◌<◌, ◌≤◌, ◌≡◌, refl, sym, ap, Bool, true, false, not, ◌||◌, List, [], ◌∷◌, ◌⊎◌, inl, inr,
  arith, ◌==◌, if◌then◌else◌, length, Bool-cases, some, take, ◌∙◌, append-nil, is_empty,
}
use lightning_os.Fs.{
  Fs, Kind, is_directory, walk, find_child, create_in, fs_create, node_new, last_name,
}
use lightning_os.Fs.Chain.{first_named}
use lightning_os.Fs.Names.{IsTree, Suffices}
use lightning_os.Fs.Lookup.{find_child_lem}
use lightning_os.Fs.Grown.{grown, grown_used, grown_kids, grown-IsTree, node_new_lem, grown_count}
use lightning_os.Fs.Walk.{IsKnown, walk_from_total, ℕ-cases}

-- What fs_create() does in a directory: nothing, or a new node.
abbrev pub CreateOutcome : Fs → (ℕ → Bool) → (ℕ → List ℕ) → ℕ → ℕ → List ℕ → Kind → ℕ × Fs → Type 0
CreateOutcome s used kids dir answer name kind r =
    (r ≡ (0, s))
    ⊎ ((used dir ≡ true)
        × (is_directory (s.node dir).kind ≡ true)
        × (0 < answer)
        × (is_empty name ≡ false)
        × (first_named s.node name (kids dir) ≡ 0)
        × (r ≡ (answer, grown s (kids dir) name kind dir answer)))

pub create_in_lem :
    (s : Fs) (used : ℕ → Bool) (kids : ℕ → List ℕ) (fuel answer : ℕ) (name : List ℕ) (kind : Kind)
    (dir : ℕ)
    → IsTree s used kids
    → Suffices fuel used kids
    → used answer ≡ false
    → IsKnown used dir
    → (r : ℕ × Fs) × (create_in fuel answer name kind dir s ≡ some r)
      × CreateOutcome s used kids dir answer name kind r
unfolding create_in node_new
create_in_lem s used kids fuel answer name kind dir t f ua k =
    let T : Type 0 =
      (r : ℕ × Fs) × (create_in fuel answer name kind dir s ≡ some r)
      × CreateOutcome s used kids dir answer name kind r in
    elim (Bool-cases (dir == 0 || not (is_directory (s.node dir).kind) || is_empty name)) [
      | inl e ↦ ((0, s), rw e refl, inl refl)
      | inr n ↦
          let u : used dir ≡ true = ground (arith, n, k) in
          let isd : is_directory (s.node dir).kind ≡ true = ground (arith, n) in
          let found : find_child fuel s.node dir name ≡ some (first_named s.node name (kids dir)) =
            find_child_lem s used kids fuel dir name t f u ∙ rw isd refl in
          elim (ℕ-cases (first_named s.node name (kids dir))) [
            | inr (j, z) ↦ ((0, s), rw (n, found, z) refl, inl refl)
            | inl z ↦ elim (ℕ-cases answer) [
              | inl a ↦ ((0, s), rw (n, found, z, a) refl, inl refl)
              | inr (j, a) ↦
                  let pos : 0 < answer = omega (arith, a) in
                  let e = node_new_lem s used kids t dir answer name kind u ua pos fuel f in
                  (
                    (answer, grown s (kids dir) name kind dir answer),
                    rw (n, found, z) e,
                    inr (u, isd, pos, ground (arith, n), z, refl),
                  )
            ]
          ]
    ]

-- walk() on any path.
pub walk_total :
    (s : Fs) (used : ℕ → Bool) (kids : ℕ → List ℕ) (fuel : ℕ) (stop : Bool) (path : List ℕ)
    → IsTree s used kids
    → Suffices fuel used kids
    → (p : ℕ) × (last : List ℕ) × (walk fuel s stop path ≡ some (p, last))
      × IsKnown used p
      × (length last ≤ 31)
unfolding walk
walk_total s used kids fuel stop [] t f = (0, [], refl, refl, omega arith)
walk_total s used kids fuel stop (c ∷ path) t f =
    let b = take 255 (c ∷ path) in
    let u : used (if c == b'/' then s.root else s.cwd) ≡ true = ground (arith, t.root, t.cwd) in
    walk_from_total s used kids (length b + 1) fuel stop b _ t f (omega arith) u

pub last_name_nil : (name : List ℕ) → last_name [] name ≡ name
unfolding last_name
last_name_nil name = ground (arith, append-nil name)

-- What a call of fs_create() comes to.
unfoldable pub Created : Fs → (ℕ → Bool) → (ℕ → List ℕ) → ℕ → ℕ × Fs → Type 0
Created s used kids answer r =
    (r ≡ (0, s))
    ⊎ ((dir : ℕ) × ((used dir ≡ true)
          × (is_directory (s.node dir).kind ≡ true)
          × (r.0 ≡ answer)
          × (0 < answer)
          × (r.1.count ≡ s.count + 1)
          × IsTree r.1 (grown_used used answer) (grown_kids kids dir answer)))

-- With the byte behind a name of 31 bytes being zero, and kcalloc() giving NULL or a node that is
-- not in use, fs_create() returns, for a fuel above the number of children of every directory.
-- Either it gives NULL and changes nothing, or it gives the new node, which stands at the end of
-- the list of a directory of the tree, counts one node more, and leaves a tree in which no
-- directory has a name twice.
pub fs_create-Created :
    (s : Fs) (used : ℕ → Bool) (kids : ℕ → List ℕ) (fuel answer : ℕ) (path : List ℕ) (kind : Kind)
    → IsTree s used kids
    → Suffices fuel used kids
    → used answer ≡ false
    → (r : ℕ × Fs) × (fs_create fuel answer [] path kind s ≡ some r) × Created s used kids answer r
unfolding fs_create Created
fs_create-Created s used kids fuel answer path kind t f ua =
    let (p, last, e, k, short) = walk_total s used kids fuel true path t f in
    let nm = last_name_nil last in
    let (r, c, o) = create_in_lem s used kids fuel answer last kind p t f ua k in
    (
      r,
      ground (arith, e, nm, c),
      elim o [
        | inl same ↦ inl same
        | inr (u, isd, pos, nonempty, free, made) ↦
            let tree = grown-IsTree s used kids t p answer last kind u ua pos short free in
            inr (
              p,
              (
                u,
                isd,
                ap (λ z. z.0) made,
                pos,
                ap (λ z. z.1.count) made ∙ grown_count s (kids p) last kind p answer,
                subst (λ z. IsTree z.1 (grown_used used answer) (grown_kids kids p answer))
                    (sym made) tree,
              ),
            )
      ],
    )
