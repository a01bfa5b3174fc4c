-- ===== src/Fs/Remove.antt =====
-- fs_remove() of fs/ramfs.c: the node is taken off its directory's list, and it is freed with all
-- that stands below it.
use lightning_os.Prelude.{
  ℕ, zero, suc, ◌+◌, ◌*◌, ◌<◌, ◌≡◌, ◌≢◌, refl, sym, List, [], ◌∷◌, ◌++◌, arith, length, some,
}
use lightning_os.Fs.{FsNode, Store, store_node}
use lightning_os.Fs.Change.{Freed, nothing, free_node, both, free_subtree, free_children, prev_from}
use lightning_os.Fs.Chain.{Chain, Absent, AllDistinct, last_of, last_of-ne, Chain-put_absent}

-- Store that stand one behind the other, each with what stands below it.
pub data Forest : Type 0 where
  bare : Forest
  tree : (x : ℕ) → (below rest : Forest) → Forest

unfoldable pub tree_size : Forest → ℕ
tree_size bare = 0
tree_size (tree x below rest) = tree_size below + tree_size rest + 1

abbrev pub Holds : Store → ℕ → Forest → Type 0
Holds c p bare = p ≡ 0
Holds c p (tree x below rest) =
    (p ≡ x) × (0 < x) × Holds c (c x).children below × Holds c (c x).next rest

-- Each node after those below it, its text first.
unfoldable pub freed_from : Store → Forest → Freed
freed_from c bare = nothing
freed_from c (tree x below rest) = both (free_node (c x) x (freed_from c below)) (freed_from c rest)

pub freed_from-nodes : (c : Store) (t : Forest) → (freed_from c t).nodes ≡ tree_size t
unfolding freed_from tree_size both free_node
freed_from-nodes c bare = refl
freed_from-nodes c (tree x below rest) =
    omega (arith, freed_from-nodes c below, freed_from-nodes c rest)

pub free_children_lem :
    (t : Forest) (fuel : ℕ) (c : Store) (p : ℕ)
    → Holds c p t
    → 2 * tree_size t < fuel
    → free_children fuel c p ≡ some (freed_from c t)
unfolding freed_from tree_size free_subtree
free_children_lem t zero c p h f = absurd (omega (arith, f))
free_children_lem bare (suc fuel) c p h f = rw h refl
free_children_lem (tree zero below rest) (suc fuel) c p h f = absurd (omega (arith, h.1))
free_children_lem (tree (suc n) below rest) (suc zero) c p h f = absurd (omega (arith, f))
free_children_lem (tree (suc n) below rest) (suc (suc fuel)) c p h f =
    let b = free_children_lem below fuel c (c (suc n)).children h.2 (omega (arith, f)) in
    let r = free_children_lem rest (suc fuel) c (c (suc n)).next h.3 (omega (arith, f)) in
    let e = h.0 in rw (e, b, r) refl

-- free_subtree() frees the node and all below it.
pub free_subtree_lem :
    (t : Forest) (fuel : ℕ) (c : Store) (x : ℕ)
    → Holds c (c x).children t
    → 2 * tree_size t + 1 < fuel
    → free_subtree fuel c x ≡ some (free_node (c x) x (freed_from c t))
unfolding free_subtree
free_subtree_lem t zero c x h f = absurd (omega (arith, f))
free_subtree_lem t (suc fuel) c x h f =
    let b = free_children_lem t fuel c (c x).children h (omega (arith, f)) in rw b refl

pub Absent-middle : (ys after : List ℕ) (y x : ℕ) → Absent y (ys ++ x ∷ after) → y ≢ x
Absent-middle [] after y x a = λ e. a.0 (sym e)
Absent-middle (z ∷ ys) after y x a = Absent-middle ys after y x a.1

Absent-front : (ys after : List ℕ) (b y : ℕ) → Absent b (y ∷ (ys ++ after)) → Absent b (y ∷ ys)
Absent-front [] after b y a = (a.0, tt)
Absent-front (z ∷ ys) after b y a = (a.0, Absent-front ys after b z a.1)

-- The loop of fs_remove() finds the node in front.
pub prev_from_lem :
    (bs after : List ℕ) (fuel : ℕ) (c : Store) (b x : ℕ)
    → 0 < b
    → Chain c (c b).next (bs ++ x ∷ after)
    → AllDistinct (bs ++ x ∷ after)
    → length bs < fuel
    → prev_from fuel c b x ≡ some (last_of b bs)
unfolding prev_from
prev_from_lem bs after zero c b x p h d f = absurd (omega (arith, f))
prev_from_lem [] after (suc fuel) c b x p h d f = ground (arith, h.0)
prev_from_lem (y ∷ ys) after (suc fuel) c b x p h d f =
    let ih = prev_from_lem ys after fuel c y x h.1 h.2 d.1 (omega (arith, f)) in
    let ne : y ≢ x = Absent-middle ys after y x d.0 in
    let e = h.0 in rw e (ground (arith, ih, ne, p))

-- The list without a node.
pub Chain-unlink :
    (bs after : List ℕ) (c : Store) (b x : ℕ) (n : FsNode)
    → n.next ≡ (c x).next
    → Chain c (c b).next (bs ++ x ∷ after)
    → AllDistinct (b ∷ (bs ++ x ∷ after))
    → Chain (store_node c (last_of b bs) n) (store_node c (last_of b bs) n b).next (bs ++ after)
Chain-unlink [] after c b x n e h d =
    let off : Absent b after = d.0.1 in
    let nx : (store_node c b n b).next ≡ (c x).next = ground (arith, e) in
    rw nx (Chain-put_absent after c (c x).next b n off h.2)
Chain-unlink (y ∷ ys) after c b x n e h d =
    let ih = Chain-unlink ys after c y x n e h.2 d.1 in
    let far = last_of-ne ys y b (Absent-front ys (x ∷ after) b y d.0) in (rw far h.0, h.1, ih)
