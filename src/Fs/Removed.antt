-- ===== src/Fs/Removed.antt =====
-- fs_remove() of fs/ramfs.c on a node of the tree.
use lightning_os.Prelude.{
  ℕ, ◌+◌, ◌-◌, ◌*◌, ◌<◌, ◌≡◌, ◌≢◌, refl, sym, ap, Bool, true, false, List, [], ◌∷◌, ◌++◌, ◌⊎◌, inl,
  inr, arith, ◌==◌, length, Bool-cases, some, ◌∙◌, ℤ, pos, length-append, ==_refl,
}
use mathlib.Core.Path.{subst}
use lightning_os.Strings.Compare.{text_eq}
use lightning_os.Fs.{FsNode, Store, Fs, store_node}
use lightning_os.Fs.Change.{Freed, free_node, both, unlink, remove_node}
use lightning_os.Fs.Chain.{
  Chain, Absent, AllDistinct, last_of, Chain-put_absent, Chain-put_keep, first_named,
}
use lightning_os.Fs.Names.{
  IsTree, Suffices, AllUp-apart, NamesDistinct, first_named-same, text_eq-swap,
}
use lightning_os.Fs.Walk.{ℕ-cases}
use lightning_os.Fs.Remove.{
  Forest, bare, tree, tree_size, Holds, freed_from, freed_from-nodes, free_subtree_lem,
  prev_from_lem, Chain-unlink, Absent-middle,
}

-- The nodes after unlink(): of the first child, or of a later one.
abbrev pub unlinked : Store → ℕ → ℕ → List ℕ → Store
unlinked c dir x [] = store_node c dir (record (c dir) { children = (c x).next })
unlinked c dir x (b ∷ bs) =
    store_node c (last_of b bs) (record (c (last_of b bs)) { next = (c x).next })

last_of-pos :
    (bs rest : List ℕ) (c : Store) (p b : ℕ) → Chain c p (b ∷ (bs ++ rest)) → 0 < last_of b bs
last_of-pos [] rest c p b h = h.1
last_of-pos (y ∷ ys) rest c p b h = last_of-pos ys rest c (c b).next y h.2

unlink_lem :
    (before after : List ℕ) (fuel : ℕ) (c : Store) (dir x : ℕ)
    → Chain c (c dir).children (before ++ x ∷ after)
    → AllDistinct (before ++ x ∷ after)
    → length before < fuel
    → unlink fuel c dir x ≡ some (some (unlinked c dir x before))
unfolding unlink
unlink_lem [] after fuel c dir x h d f = ground (arith, h.0)
unlink_lem (b ∷ bs) after fuel c dir x h d f =
    let head = h.0 in
    let prev = prev_from_lem bs after fuel c b x h.1 h.2 d.1 (omega (arith, f)) in
    let ne : (b == x) ≡ false = ground (arith, Absent-middle bs after b x d.0) in
    let p = last_of-pos bs (x ∷ after) c (c dir).children b h in
    elim (ℕ-cases (last_of b bs)) [
      | inl z ↦ absurd (omega (arith, z, p))
      | inr (n, z) ↦ rw (head, ne, prev, z) refl
    ]

unlinked-Chain :
    (before after : List ℕ) (c : Store) (dir x : ℕ)
    → Chain c (c dir).children (before ++ x ∷ after)
    → AllDistinct (before ++ x ∷ after)
    → Chain (unlinked c dir x before) (unlinked c dir x before dir).children (before ++ after)
unlinked-Chain [] after c dir x h d =
    let n : FsNode = record (c dir) { children = (c x).next } in
    let e : (store_node c dir n dir).children ≡ (c x).next = ground arith in
    rw e (Chain-put_keep after c (c x).next dir n refl h.2)
unlinked-Chain (b ∷ bs) after c dir x h d =
    let l = last_of b bs in
    let n : FsNode = record (c l) { next = (c x).next } in
    let e : (store_node c l n dir).children ≡ b = ground (arith, h.0) in
    (e, h.1, Chain-unlink bs after c b x n refl h.2 d)

-- Another directory's list.
last_of-Absent :
    (bs rest : List ℕ) (b q : ℕ) → Absent q (b ∷ (bs ++ rest)) → (q == last_of b bs) ≡ false
last_of-Absent [] rest b q a = ground (arith, a.0)
last_of-Absent (y ∷ ys) rest b q a = last_of-Absent ys rest y q a.1

unlinked-other :
    (before after ys : List ℕ) (c : Store) (dir x e : ℕ)
    → e ≢ dir
    → ((q : ℕ) → Absent q (before ++ x ∷ after) ⊎ Absent q ys)
    → Chain c (c e).children ys
    → Chain (unlinked c dir x before) (unlinked c dir x before e).children ys
unlinked-other [] after ys c dir x e ne apart h =
    let n : FsNode = record (c dir) { children = (c x).next } in
    let same : (store_node c dir n e).children ≡ (c e).children = ground (arith, ne) in
    rw same (Chain-put_keep ys c (c e).children dir n refl h)
unlinked-other (b ∷ bs) after ys c dir x e ne apart h =
    let l = last_of b bs in
    let n : FsNode = record (c l) { next = (c x).next } in
    let same : (store_node c l n e).children ≡ (c e).children = ground arith in
    let off : Absent l ys = elim (apart l) [
      | inl a ↦ cc (last_of-Absent bs (x ∷ after) b l a, ==_refl l)
      | inr a ↦ a
    ] in
    rw same (Chain-put_absent ys c (c e).children l n off h)

-- A node is not among those of a forest.
abbrev pub Off : ℕ → Forest → Type 0
Off q bare = Unit {0}
Off q (tree x below rest) = (x ≢ q) × Off q below × Off q rest

abbrev pub AllOff : List ℕ → Forest → Type 0
AllOff [] t = Unit {0}
AllOff (q ∷ qs) t = Off q t × AllOff qs t

Holds-store_node :
    (t : Forest) (c : Store) (p q : ℕ) (n : FsNode)
    → Off q t
    → Holds c p t
    → Holds (store_node c q n) p t
Holds-store_node bare c p q n o h = h
Holds-store_node (tree x below rest) c p q n o h =
    let off : (x == q) ≡ false = ground (arith, o.0) in
    let b = Holds-store_node below c (c x).children q n o.1 h.2 in
    let r = Holds-store_node rest c (c x).next q n o.2 h.3 in (h.0, h.1, rw off b, rw off r)

AllOff-last : (bs : List ℕ) (b : ℕ) (t : Forest) → AllOff (b ∷ bs) t → Off (last_of b bs) t
AllOff-last [] b t o = o.0
AllOff-last (y ∷ ys) b t o = AllOff-last ys y t o.1

unlinked-Holds :
    (before : List ℕ) (t : Forest) (c : Store) (dir x : ℕ)
    → AllOff (dir ∷ before) t
    → x ≢ dir
    → Holds c (c x).children t
    → Holds (unlinked c dir x before) (unlinked c dir x before x).children t
unlinked-Holds [] t c dir x o ne h =
    let n : FsNode = record (c dir) { children = (c x).next } in
    let same : (store_node c dir n x).children ≡ (c x).children = ground (arith, ne) in
    rw same (Holds-store_node t c (c x).children dir n o.0 h)
unlinked-Holds (b ∷ bs) t c dir x o ne h =
    let l = last_of b bs in
    let n : FsNode = record (c l) { next = (c x).next } in
    let same : (store_node c l n x).children ≡ (c x).children = ground arith in
    rw same (Holds-store_node t c (c x).children l n (AllOff-last bs b t o.1) h)

free_node-same :
    (m n : FsNode) (x : ℕ) (below : Freed)
    → n.block ≡ m.block
    → free_node n x below ≡ free_node m x below
unfolding free_node
free_node-same m n x below e = rw e refl

freed_from-same :
    (t : Forest) (c d : Store)
    → ((y : ℕ) → (d y).block ≡ (c y).block)
    → freed_from d t ≡ freed_from c t
unfolding freed_from
freed_from-same bare c d e = refl
freed_from-same (tree x below rest) c d e =
    let b = freed_from-same below c d e in
    let r = freed_from-same rest c d e in
    rw (b, r)
      (ap (λ z. both z (freed_from c rest))
        (free_node-same (c x) (d x) x (freed_from c below) (e x)))

unlinked_keeps :
    (before : List ℕ) (c : Store) (dir x y : ℕ)
    → ((unlinked c dir x before y).block ≡ (c y).block)
      × ((unlinked c dir x before y).name ≡ (c y).name)
unlinked_keeps [] c dir x y = ground arith
unlinked_keeps (b ∷ bs) c dir x y = ground arith

-- After a name is taken off a list it is not on it.
-- A node behind another has another name.
name_ne :
    (bs after : List ℕ) (c : Store) (p b x : ℕ)
    → Chain c p (bs ++ x ∷ after)
    → first_named c (c b).name (bs ++ x ∷ after) ≡ 0
    → text_eq (c b).name (c x).name ≡ false
name_ne [] after c p b x h z = elim (Bool-cases (text_eq (c x).name (c b).name)) [
  | inl e ↦ absurd (ground (arith, e, z, h.1))
  | inr e ↦ text_eq-swap (c x).name (c b).name e
]
name_ne (y ∷ ys) after c p b x h z = name_ne ys after c (c y).next b x h.2 (ground (arith, z, h.1))

free_node-nodes :
    (c : Store) (t : Forest) (x : ℕ) → (free_node (c x) x (freed_from c t)).nodes ≡ tree_size t + 1
unfolding free_node
free_node-nodes c t x = omega (arith, freed_from-nodes c t)

first_named-gone :
    (before after : List ℕ) (c : Store) (p x : ℕ)
    → Chain c p (before ++ x ∷ after)
    → NamesDistinct c (before ++ x ∷ after)
    → first_named c (c x).name (before ++ after) ≡ 0
first_named-gone [] after c p x h n = n.0
first_named-gone (b ∷ bs) after c p x h n =
    let ih = first_named-gone bs after c (c b).next x h.2 n.1 in
    let ne = name_ne bs after c (c b).next b x h.2 n.0 in rw ne ih

-- What fs_remove() leaves, of a node x between `before` and `after` on the list of its directory.
pub record Removed (s : Fs) (used : ℕ → Bool) (kids : ℕ → List ℕ) (dir x : ℕ)
    (before after : List ℕ) (t : Forest) (r : ℤ × List ℕ × Fs) : Type 0 where
  pub status : r.0 ≡ pos 0
  pub freed : r.1 ≡ (free_node (s.node x) x (freed_from s.node t)).pointers
  pub counted : r.2.count ≡ s.count - (tree_size t + 1)
  pub here : Chain r.2.node (r.2.node dir).children (before ++ after)
  pub others : (e : ℕ) → used e ≡ true → e ≢ dir → Chain r.2.node (r.2.node e).children (kids e)
  pub gone : first_named r.2.node (s.node x).name (before ++ after) ≡ 0

-- In a tree, removing a node that is neither the root nor the current directory, and below which
-- neither its directory nor a node in front of it stands, ends, for a fuel above the number of
-- children of each directory and above twice the nodes that go and one. It gives 0; kfree() gets the
-- node and all below it, each after those below it and behind its text; they are taken off the
-- count; the directory's list is as before without the node, and has its name no more; the list of
-- every other directory is as before.
pub remove_node-Removed :
    (s : Fs) (used : ℕ → Bool) (kids : ℕ → List ℕ) (fuel x : ℕ) (before after : List ℕ) (t : Forest)
    → IsTree s used kids
    → Suffices fuel used kids
    → used x ≡ true
    → x ≢ s.root
    → x ≢ s.cwd
    → let dir = (s.node x).parent in
      used dir ≡ true
      → kids dir ≡ before ++ x ∷ after
      → x ≢ dir
      → AllOff (dir ∷ before) t
      → Holds s.node (s.node x).children t
      → 2 * tree_size t + 1 < fuel
      → (r : ℤ × List ℕ × Fs) × (remove_node fuel x s ≡ some r)
        × Removed s used kids dir x before after t r
unfolding remove_node
remove_node-Removed s used kids fuel x before after t tr f ux nr nc ud kd nd off holds enough =
    let dir = (s.node x).parent in
    let list : Chain s.node (s.node dir).children (before ++ x ∷ after) =
      subst (λ z. Chain s.node (s.node dir).children z) kd (tr.chain dir ud) in
    let dist : AllDistinct (before ++ x ∷ after) = subst AllDistinct kd (tr.distinct dir ud) in
    let nam : NamesDistinct s.node (before ++ x ∷ after) =
      subst (NamesDistinct s.node) kd (tr.names dir ud) in
    let len : length before < fuel =
      omega (arith, f dir ud, ap length kd, length-append before (x ∷ after)) in
    let u = unlink_lem before after fuel s.node dir x list dist len in
    let c : Store = unlinked s.node dir x before in
    let fr =
      free_subtree_lem t fuel c x (unlinked-Holds before t s.node dir x off nd holds) enough in
    let same : free_node (c x) x (freed_from c t) ≡ free_node (s.node x) x (freed_from s.node t) =
      ap (free_node (c x) x)
        (freed_from-same t s.node c (λ y. (unlinked_keeps before s.node dir x y).0))
      ∙ free_node-same (s.node x) (c x) x (freed_from s.node t)
          (unlinked_keeps before s.node dir x x).0 in
    let z0 : (x == 0) ≡ false = ground (arith, λ (e : x ≡ 0). ap used e, ux, tr.null) in
    let z1 : (x == s.root) ≡ false = ground (arith, nr) in
    let z2 : (x == s.cwd) ≡ false = ground (arith, nc) in
    let z3 : (dir == 0) ≡ false = ground (arith, λ (e : dir ≡ 0). ap used e, ud, tr.null) in
    let freed = free_node (s.node x) x (freed_from s.node t) in
    (
      (pos 0, freed.pointers, record s { node = c; count = s.count - freed.nodes }),
      ground (arith, z0, z1, z2, z3, u, fr, same),
      record {
        status = refl;
        freed = refl;
        counted = ap (λ z. s.count - z) (free_node-nodes s.node t x);
        here = unlinked-Chain before after s.node dir x list dist;
        others = λ e ue ne.
            unlinked-other before after (kids e) s.node dir x e ne
              (subst (λ z. (q : ℕ) → Absent q z ⊎ Absent q (kids e)) kd
                (AllUp-apart (kids dir) (kids e) s.node used dir e (λ z. ne (sym z)) (tr.up dir ud)
                  (tr.up e ue)))
              (tr.chain e ue);
        gone =
            first_named-same (before ++ after) s.node c (s.node x).name
              (λ y. inr (unlinked_keeps before s.node dir x y).1)
            ∙ first_named-gone before after s.node (s.node dir).children x list nam;
      },
    )
