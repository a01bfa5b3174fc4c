-- ===== src/Fs/Grown.antt =====
-- fs_create() of fs/ramfs.c: the tree with a new node at the end of a directory's list.
use lightning_os.Prelude.{
  ℕ, ◌+◌, ◌<◌, ◌≡◌, ◌≢◌, refl, sym, ap, Bool, true, false, ◌||◌, List, [], ◌∷◌, ◌++◌, ◌⊎◌, inl, inr,
  arith, ◌==◌, if◌then◌else◌, length, Bool-cases, some, take, ◌∙◌, ◌≤◌, take_short,
}
use mathlib.Core.Path.{subst}
use lightning_os.Fs.{Store, Fs, store_node, Kind, fresh_node, node_new}
use lightning_os.Fs.Chain.{
  Chain, Absent, AllDistinct, first_named, linked, append_child_lem, append_child-Chain,
  append_child-other, Chain-put_absent,
}
use lightning_os.Fs.Names.{
  AllUp, NamesDistinct, IsTree, Suffices, AllUp-Absent, AllUp-apart, first_named-same,
  NamesDistinct-same, NamesDistinct-append, Chain-AllNonzero,
}

-- The new node, the nodes in use and the lists after it is made.
abbrev pub grown_used : (ℕ → Bool) → ℕ → ℕ → Bool
grown_used used q x = x == q || used x

abbrev pub grown_kids : (ℕ → List ℕ) → ℕ → ℕ → ℕ → List ℕ
grown_kids kids dir q d = if d == q then [] else if d == dir then kids dir ++ q ∷ [] else kids d

pub grown : Fs → List ℕ → List ℕ → Kind → ℕ → ℕ → Fs
grown s siblings name kind dir q = record s {
  node = linked (store_node s.node q (fresh_node name kind dir)) dir q siblings;
  count = s.count + 1;
}

pub grown_count :
    (s : Fs) (siblings name : List ℕ) (kind : Kind) (dir q : ℕ)
    → (grown s siblings name kind dir q).count ≡ s.count + 1
unfolding grown
grown_count s siblings name kind dir q = refl

pub grown_root :
    (s : Fs) (siblings name : List ℕ) (kind : Kind) (dir q : ℕ)
    → ((grown s siblings name kind dir q).root ≡ s.root)
      × ((grown s siblings name kind dir q).cwd ≡ s.cwd)
unfolding grown
grown_root s siblings name kind dir q = (refl, refl)

-- What a new link leaves as it was.
linked_keeps :
    (xs : List ℕ) (c : Store) (dir q x : ℕ)
    → ((linked c dir q xs x).name ≡ (c x).name) × ((linked c dir q xs x).parent ≡ (c x).parent)
linked_keeps [] c dir q x = ground arith
linked_keeps (y ∷ ys) c dir q x = ground arith

linked_kind : (xs : List ℕ) (c : Store) (dir q x : ℕ) → (linked c dir q xs x).kind ≡ (c x).kind
linked_kind [] c dir q x = ground arith
linked_kind (y ∷ ys) c dir q x = ground arith

linked_children :
    (xs : List ℕ) (c : Store) (dir q x : ℕ)
    → x ≢ dir
    → (linked c dir q xs x).children ≡ (c x).children
linked_children [] c dir q x ne = ground arith
linked_children (y ∷ ys) c dir q x ne = ground arith

AllUp-grown :
    (xs : List ℕ) (c d : Store) (used : ℕ → Bool) (dir q : ℕ)
    → used q ≡ false
    → ((x : ℕ) → x ≢ q → (d x).parent ≡ (c x).parent)
    → AllUp c used dir xs
    → AllUp d (grown_used used q) dir xs
AllUp-grown [] c d used dir q n same h = tt
AllUp-grown (x ∷ xs) c d used dir q n same h =
    let ne : x ≢ q = λ e. cc (ap used e, n, h.1) in
    (same x ne ∙ h.0, ground (arith, h.1), AllUp-grown xs c d used dir q n same h.2)

AllUp-append :
    (xs : List ℕ) (c : Store) (used : ℕ → Bool) (dir q : ℕ)
    → AllUp c used dir xs
    → (c q).parent ≡ dir
    → used q ≡ true
    → AllUp c used dir (xs ++ q ∷ [])
AllUp-append [] c used dir q h p u = (p, u, tt)
AllUp-append (x ∷ xs) c used dir q h p u = (h.0, h.1, AllUp-append xs c used dir q h.2 p u)

Absent-append : (xs : List ℕ) (x q : ℕ) → Absent x xs → q ≢ x → Absent x (xs ++ q ∷ [])
Absent-append [] x q a n = (n, tt)
Absent-append (y ∷ ys) x q a n = (a.0, Absent-append ys x q a.1 n)

AllDistinct-append :
    (xs : List ℕ) (q : ℕ) → AllDistinct xs → Absent q xs → AllDistinct (xs ++ q ∷ [])
AllDistinct-append [] q h a = (tt, tt)
AllDistinct-append (x ∷ xs) q h a =
    (Absent-append xs x q h.0 (λ e. a.0 (sym e)), AllDistinct-append xs q h.1 a.1)

module _ (s : Fs) (used : ℕ → Bool) (kids : ℕ → List ℕ) (t : IsTree s used kids) (dir q : ℕ)
    (name : List ℕ) (kind : Kind) (ud : used dir ≡ true) (uq : used q ≡ false) (pos : 0 < q) where
  c0 : Store
  c0 = store_node s.node q (fresh_node name kind dir)

  c1 : Store
  unfolding c0
  c1 = linked c0 dir q (kids dir)

  ne_dir : q ≢ dir
  ne_dir e = cc (ud, uq, ap used e)

  c0_chain : (d : ℕ) → used d ≡ true → Chain c0 (c0 d).children (kids d)
  unfolding c0
  c0_chain d u =
      let ne : (d == q) ≡ false = ground (arith, λ (e : d ≡ q). ap used e, u, uq) in
      let a = AllUp-Absent (kids d) s.node used d q uq (t.up d u) in
      rw ne (Chain-put_absent (kids d) s.node (s.node d).children q _ a (t.chain d u))

  c1_name : (x : ℕ) → x ≢ q → (c1 x).name ≡ (s.node x).name
  unfolding c1 c0
  c1_name x ne = (linked_keeps (kids dir) c0 dir q x).0 ∙ ground arith

  c1_parent : (x : ℕ) → x ≢ q → (c1 x).parent ≡ (s.node x).parent
  unfolding c1 c0
  c1_parent x ne = (linked_keeps (kids dir) c0 dir q x).1 ∙ ground arith

  c1_new : ((c1 q).name ≡ take 31 name) × ((c1 q).parent ≡ dir) × ((c1 q).children ≡ 0)
  unfolding c1 c0 fresh_node
  c1_new = (
    (linked_keeps (kids dir) c0 dir q q).0 ∙ ground arith,
    (linked_keeps (kids dir) c0 dir q q).1 ∙ ground arith,
    linked_children (kids dir) c0 dir q q ne_dir ∙ ground arith,
  )

  grown_chain :
      (d : ℕ) → grown_used used q d ≡ true → Chain c1 (c1 d).children (grown_kids kids dir q d)
  unfolding c1 c0 fresh_node
  grown_chain d u = elim (Bool-cases (d == q)) [
    | inl e ↦ let de : d ≡ q = ground (arith, e) in rw (e, de) c1_new.2
    | inr n ↦ elim (Bool-cases (d == dir)) [
      | inl e ↦
          let de : d ≡ dir = ground (arith, e) in
          let a = AllUp-Absent (kids dir) s.node used dir q uq (t.up dir ud) in
          let z : (c0 q).next ≡ 0 = ground arith in
          rw (n, e, de)
            (append_child-Chain (kids dir) c0 dir q (c0_chain dir ud) (t.distinct dir ud) pos z
              ne_dir a)
      | inr m ↦
          let ne : d ≢ dir = λ (e : d ≡ dir). ground (arith, e, m) in
          let en : dir ≢ d = λ (e : dir ≡ d). ground (arith, e, m) in
          let u0 : used d ≡ true = ground (arith, u, n) in
          let apart =
            AllUp-apart (kids dir) (kids d) s.node used dir d en (t.up dir ud) (t.up d u0) in
          rw (n, m) (append_child-other (kids dir) (kids d) c0 dir q d ne apart (c0_chain d u0))
    ]
  ]

  grown_up :
      (d : ℕ)
      → grown_used used q d ≡ true
      → AllUp c1 (grown_used used q) d (grown_kids kids dir q d)
  grown_up d u = elim (Bool-cases (d == q)) [
    | inl e ↦ rw e tt
    | inr n ↦ elim (Bool-cases (d == dir)) [
      | inl e ↦
          let de : d ≡ dir = ground (arith, e) in
          let old = AllUp-grown (kids dir) s.node c1 used dir q uq c1_parent (t.up dir ud) in
          let here : grown_used used q q ≡ true = ground arith in
          rw (n, e, de) (AllUp-append (kids dir) c1 (grown_used used q) dir q old c1_new.1 here)
      | inr m ↦
          let u0 : used d ≡ true = ground (arith, u, n) in
          rw (n, m) (AllUp-grown (kids d) s.node c1 used d q uq c1_parent (t.up d u0))
    ]
  ]

  grown_distinct : (d : ℕ) → grown_used used q d ≡ true → AllDistinct (grown_kids kids dir q d)
  grown_distinct d u = elim (Bool-cases (d == q)) [
    | inl e ↦ rw e tt
    | inr n ↦ elim (Bool-cases (d == dir)) [
      | inl e ↦
          let a = AllUp-Absent (kids dir) s.node used dir q uq (t.up dir ud) in
          rw (n, e) (AllDistinct-append (kids dir) q (t.distinct dir ud) a)
      | inr m ↦ rw (n, m) (t.distinct d (ground (arith, u, n)))
    ]
  ]

  c1_same : (d : ℕ) → used d ≡ true → (x : ℕ) → Absent x (kids d) ⊎ ((c1 x).name ≡ (s.node x).name)
  c1_same d u x = elim (Bool-cases (x == q)) [
    | inl e ↦
        let xq : q ≡ x = ground (arith, e) in
        inl
          (subst (λ z. Absent z (kids d)) xq (AllUp-Absent (kids d) s.node used d q uq (t.up d u)))
    | inr n ↦ inr (c1_name x (λ e. ground (arith, e, n)))
  ]

  grown_names :
      length name ≤ 31
      → first_named s.node name (kids dir) ≡ 0
      → (d : ℕ) → grown_used used q d ≡ true
      → NamesDistinct c1 (grown_kids kids dir q d)
  grown_names short free d u = elim (Bool-cases (d == q)) [
    | inl e ↦ rw e tt
    | inr n ↦ elim (Bool-cases (d == dir)) [
      | inl e ↦
          let old = NamesDistinct-same (kids dir) s.node c1 (c1_same dir ud) (t.names dir ud) in
          let nonzero = Chain-AllNonzero (kids dir) s.node (s.node dir).children (t.chain dir ud) in
          let nm : (c1 q).name ≡ name = c1_new.0 ∙ take_short 31 name short in
          let none_named : first_named c1 (c1 q).name (kids dir) ≡ 0 =
            ap (λ z. first_named c1 z (kids dir)) nm
            ∙ first_named-same (kids dir) s.node c1 name (c1_same dir ud)
            ∙ free in
          rw (n, e) (NamesDistinct-append (kids dir) c1 q old nonzero none_named)
      | inr m ↦
          let u0 : used d ≡ true = ground (arith, u, n) in
          rw (n, m) (NamesDistinct-same (kids d) s.node c1 (c1_same d u0) (t.names d u0))
    ]
  ]

  grown_above :
      (x : ℕ)
      → grown_used used q x ≡ true
      → ((c1 x).parent == 0 || grown_used used q (c1 x).parent) ≡ true
  grown_above x u = elim (Bool-cases (x == q)) [
    | inl e ↦
        let xq : x ≡ q = ground (arith, e) in
        let p : (c1 x).parent ≡ dir = ap (λ z. (c1 z).parent) xq ∙ c1_new.1 in ground (arith, p, ud)
    | inr n ↦ let p = c1_parent x (λ e. ground (arith, e, n)) in ground (arith, p, t.above x, u, n)
  ]

  -- The tree after fs_create() has a new name in a directory.
  pub grown-IsTree :
      length name ≤ 31
      → first_named s.node name (kids dir) ≡ 0
      → IsTree (grown s (kids dir) name kind dir q) (grown_used used q) (grown_kids kids dir q)
  unfolding grown c1 c0
  grown-IsTree short free = record {
    null = ground (arith, t.null, pos);
    root = ground (arith, t.root);
    cwd = ground (arith, t.cwd);
    above = grown_above;
    chain = grown_chain;
    up = grown_up;
    distinct = grown_distinct;
    names = grown_names short free;
  }

  pub node_new_lem :
      (fuel : ℕ)
      → Suffices fuel used kids
      → node_new fuel q name kind dir s ≡ some (q, grown s (kids dir) name kind dir q)
  unfolding node_new grown c0
  node_new_lem fuel f =
      let e = append_child_lem (kids dir) fuel c0 dir q (c0_chain dir ud) (f dir ud) in
      let nz : (q == 0) ≡ false = ground (arith, pos) in
      let dz : (dir == 0) ≡ false = ground (arith, λ (z : dir ≡ 0). ap used z, t.null, ud) in
      rw (nz, dz, e) refl

  -- What the other nodes keep, and what the new node is.
  pub grown_keeps :
      (x : ℕ)
      → x ≢ q
      → let n = (grown s (kids dir) name kind dir q).node x in
        (n.name ≡ (s.node x).name) × (n.parent ≡ (s.node x).parent) × (n.kind ≡ (s.node x).kind)
  unfolding grown c1 c0
  grown_keeps x ne =
      (c1_name x ne, c1_parent x ne, linked_kind (kids dir) c0 dir q x ∙ ground arith)

  pub grown_new :
      let n = (grown s (kids dir) name kind dir q).node q in
      (n.name ≡ take 31 name) × (n.parent ≡ dir) × (n.children ≡ 0)
  unfolding grown c1 c0
  grown_new = c1_new
