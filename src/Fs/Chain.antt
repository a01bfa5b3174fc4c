-- ===== src/Fs/Chain.antt =====
-- fs/ramfs.c: the list of a directory's children in memory, and the loops along it.
use lightning_os.Prelude.{
  ℕ, zero, suc, ◌<◌, ◌≡◌, ◌≢◌, refl, false, some, List, [], ◌∷◌, ◌++◌, arith, ◌==◌, if◌then◌else◌,
  length, ◌⊎◌, inl, ==_refl, inr,
}
use lightning_os.Strings.Compare.{text_eq}
use lightning_os.Fs.{FsNode, Store, store_node, last_from, append_child, child_from}

-- From `p` the nodes `xs` stand one behind the other, up to NULL.
abbrev pub Chain : Store → ℕ → List ℕ → Type 0
Chain c p [] = p ≡ 0
Chain c p (x ∷ xs) = (p ≡ x) × (0 < x) × Chain c (c x).next xs

abbrev pub Absent : ℕ → List ℕ → Type 0
Absent q [] = Unit {0}
Absent q (x ∷ xs) = (x ≢ q) × Absent q xs

abbrev pub AllDistinct : List ℕ → Type 0
AllDistinct [] = Unit {0}
AllDistinct (x ∷ xs) = Absent x xs × AllDistinct xs

abbrev pub last_of : ℕ → List ℕ → ℕ
last_of x [] = x
last_of x (y ∷ ys) = last_of y ys

-- The first node of a list that has the name, or NULL.
abbrev pub first_named : Store → List ℕ → List ℕ → ℕ
first_named c name [] = 0
first_named c name (x ∷ xs) = if text_eq (c x).name name then x else first_named c name xs

-- A change of a node that is not on the list, or that keeps its link.
pub Chain-put_absent :
    (xs : List ℕ) (c : Store) (p q : ℕ) (n : FsNode)
    → Absent q xs
    → Chain c p xs
    → Chain (store_node c q n) p xs
Chain-put_absent [] c p q n a h = h
Chain-put_absent (x ∷ xs) c p q n a h =
    let rest = Chain-put_absent xs c (c x).next q n a.1 h.2 in
    let off : (x == q) ≡ false = ground (arith, a.0) in (h.0, h.1, rw off rest)

pub Chain-put_keep :
    (xs : List ℕ) (c : Store) (p q : ℕ) (n : FsNode)
    → n.next ≡ (c q).next
    → Chain c p xs
    → Chain (store_node c q n) p xs
Chain-put_keep [] c p q n e h = h
Chain-put_keep (x ∷ xs) c p q n e h =
    let rest = Chain-put_keep xs c (c x).next q n e h.2 in
    let same : (store_node c q n x).next ≡ (c x).next = ground (arith, e) in
    (h.0, h.1, rw same rest)

-- The loop of find_child().
pub child_from_lem :
    (xs : List ℕ) (fuel : ℕ) (c : Store) (p : ℕ) (name : List ℕ)
    → Chain c p xs
    → length xs < fuel
    → child_from fuel c p name ≡ some (first_named c name xs)
unfolding child_from
child_from_lem xs zero c p name h f = absurd (omega (arith, f))
child_from_lem [] (suc fuel) c p name h f = ground (arith, h)
child_from_lem (x ∷ xs) (suc fuel) c p name h f =
    let ih = child_from_lem xs fuel c (c x).next name h.2 (omega (arith, f)) in
    rw h.0 (ground (arith, ih, h.1))

-- The loop of node_new().
pub last_from_lem :
    (xs : List ℕ) (fuel : ℕ) (c : Store) (x : ℕ)
    → Chain c (c x).next xs
    → length xs < fuel
    → last_from fuel c x ≡ some (last_of x xs)
unfolding last_from
last_from_lem xs zero c x h f = absurd (omega (arith, f))
last_from_lem [] (suc fuel) c x h f = ground (arith, h)
last_from_lem (y ∷ ys) (suc fuel) c x h f =
    let ih = last_from_lem ys fuel c y h.2 (omega (arith, f)) in
    let e = h.0 in rw e (ground (arith, ih, h.1))

pub last_of-ne : (xs : List ℕ) (x q : ℕ) → Absent q (x ∷ xs) → (q == last_of x xs) ≡ false
last_of-ne [] x q a = ground (arith, a.0)
last_of-ne (y ∷ ys) x q a = last_of-ne ys y q a.1

-- Links behind the last node of a list, and in front of it.
pub Chain-append :
    (xs : List ℕ) (c : Store) (x q : ℕ) (n : FsNode)
    → Chain c (c x).next xs
    → AllDistinct (x ∷ xs)
    → 0 < q
    → n.next ≡ q
    → (c q).next ≡ 0
    → Absent q (x ∷ xs)
    → Chain (store_node c (last_of x xs) n) (store_node c (last_of x xs) n x).next (xs ++ q ∷ [])
Chain-append [] c x q n h d pos e z a =
    let off : (q == x) ≡ false = ground (arith, a.0) in ground (arith, e, pos, z, off)
Chain-append (y ∷ ys) c x q n h d pos e z a =
    let ih = Chain-append ys c y q n h.2 d.1 pos e z a.1 in
    let far = last_of-ne ys y x d.0 in (rw far h.0, h.1, ih)

-- The nodes after append_child(): of an empty directory, or behind the last child.
abbrev pub linked : Store → ℕ → ℕ → List ℕ → Store
linked c dir q [] = store_node c dir (record (c dir) { children = q })
linked c dir q (x ∷ xs) = store_node c (last_of x xs) (record (c (last_of x xs)) { next = q })

pub append_child_lem :
    (xs : List ℕ) (fuel : ℕ) (c : Store) (dir q : ℕ)
    → Chain c (c dir).children xs
    → length xs < fuel
    → append_child fuel c dir q ≡ some (linked c dir q xs)
unfolding append_child
append_child_lem [] fuel c dir q h f = ground (arith, h)
append_child_lem (x ∷ xs) fuel c dir q h f =
    let e : last_from fuel c x ≡ some (last_of x xs) =
      last_from_lem xs fuel c x h.2 (omega (arith, f)) in
    let head = h.0 in
    let ne : ((c dir).children == 0) ≡ false = ground (arith, h.0, h.1) in rw (ne, head, e) refl

pub append_child-Chain :
    (xs : List ℕ) (c : Store) (dir q : ℕ)
    → Chain c (c dir).children xs
    → AllDistinct xs
    → 0 < q
    → (c q).next ≡ 0
    → q ≢ dir
    → Absent q xs
    → Chain (linked c dir q xs) (linked c dir q xs dir).children (xs ++ q ∷ [])
append_child-Chain [] c dir q h d pos z ne a = ground (arith, pos, z, ne)
append_child-Chain (x ∷ xs) c dir q h d pos z ne a =
    let rest = Chain-append xs c x q (record (c (last_of x xs)) { next = q }) h.2 d pos refl z a in
    let kept : (linked c dir q (x ∷ xs) dir).children ≡ x = ground (arith, h.0) in (kept, h.1, rest)

-- Another directory's list, which shares no node with this one.
pub append_child-other :
    (xs ys : List ℕ) (c : Store) (dir q e : ℕ)
    → e ≢ dir
    → ((x : ℕ) → Absent x xs ⊎ Absent x ys)
    → Chain c (c e).children ys
    → Chain (linked c dir q xs) (linked c dir q xs e).children ys
append_child-other [] ys c dir q e ne apart h =
    let n : FsNode = record (c dir) { children = q } in
    let same : (store_node c dir n e).children ≡ (c e).children = ground (arith, ne) in
    rw same (Chain-put_keep ys c (c e).children dir n refl h)
append_child-other (x ∷ xs) ys c dir q e ne apart h =
    let l = last_of x xs in
    let n : FsNode = record (c l) { next = q } in
    let same : (store_node c l n e).children ≡ (c e).children = ground arith in
    let off : Absent l ys = elim (apart l) [
      | inl a ↦ cc (last_of-ne xs x l a, ==_refl l)
      | inr a ↦ a
    ] in
    rw same (Chain-put_absent ys c (c e).children l n off h)
