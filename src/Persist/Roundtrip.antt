-- ===== src/Persist/Roundtrip.antt =====
-- What persist_save() of fs/persist.c writes, persist_mount() restores.
use lightning_os.Prelude.{
  ℕ, ◌+◌, ◌≤◌, ◌≡◌, refl, ap, sym, ◌∙◌, true, false, List, [], ◌∷◌, ◌++◌, arith, length,
  length-append, append-nil, take, take-append,
}
use lightning_os.Persist.Writer.{
  Writer, Account, put_users, Entry, Node, Nodes, file, dir, last, then_node, fs_abspath,
  write_node, write_tree, write_child, counted, max_payload,
}
use lightning_os.Persist.Reader.{Reader, take_users}
use lightning_os.Persist.Writing.{
  put_users-nil, Adds, Adds-then, put_user-Adds, write_node-Adds, users_bytes, IsEntry, node_bytes,
  nodes_bytes,
}
use lightning_os.Persist.Reading.{At, EveryAccount, EveryEntry, take_users-Reads, take_nodes-Reads}
use lightning_os.Persist.Snapshot.{payload, super_of, restore}

-- The entries of a tree with the paths that fs_abspath() gives, parents before their children.
unfoldable mutual
  pub stored : List (List ℕ) → Nodes → List Entry
  stored parts last = []
  stored parts (then_node node nodes) = child_stored parts node ++ stored parts nodes

  pub child_stored : List (List ℕ) → Node → List Entry
  child_stored parts (file name content) =
      record { is_dir = false; path = fs_abspath (parts ++ name ∷ []); content = content } ∷ []
  child_stored parts (dir name nodes) =
      record { is_dir = true; path = fs_abspath (parts ++ name ∷ []); content = [] }
      ∷ stored (parts ++ name ∷ []) nodes

nodes_bytes-append :
    (es fs : List Entry) (rest : List ℕ)
    → nodes_bytes (es ++ fs) rest ≡ nodes_bytes es (nodes_bytes fs rest)
unfolding nodes_bytes
nodes_bytes-append [] fs rest = refl
nodes_bytes-append (e ∷ es) fs rest = ap (node_bytes e) (nodes_bytes-append es fs rest)

EveryEntry-append : (es fs : List Entry) → EveryEntry (es ++ fs) → EveryEntry es × EveryEntry fs
unfolding EveryEntry
EveryEntry-append [] fs h = (tt, h)
EveryEntry-append (e ∷ es) fs (h, hs) = let r = EveryEntry-append es fs hs in ((h, r.0), r.1)

-- A walk that stores these entries and counts them.
record Stores (f : Writer × ℕ → Writer × ℕ) (es : List Entry) : Type 0 where
  law :
      (p : Writer × ℕ)
      → ((f p).0).overflow ≡ false
      → ((p.0).overflow ≡ false)
        × ((rest : List ℕ) → ((f p).0).buffer ++ rest ≡ (p.0).buffer ++ nodes_bytes es rest)
        × ((f p).1 ≡ p.1 + length es)
  fits :
      (p : Writer × ℕ) → length (p.0).buffer ≤ max_payload → length ((f p).0).buffer ≤ max_payload

Stores-then :
    (f g : Writer × ℕ → Writer × ℕ) (es fs : List Entry)
    → Stores f es
    → Stores g fs
    → Stores (λ p. g (f p)) (es ++ fs)
Stores-then f g es fs h k = record {
  law = λ p o.
      let (oa, ba, na) = k.law (f p) o in
      let (ob, bb, nb) = h.law p oa in
      (
        ob,
        λ rest.
            ba rest
            ∙ bb (nodes_bytes fs rest)
            ∙ ap (λ z. (p.0).buffer ++ z) (sym (nodes_bytes-append es fs rest)),
        omega (arith, na, nb, length-append es fs),
      );
  fits = λ p l. k.fits (f p) (h.fits p l);
}

entry-Stores : (e : Entry) → IsEntry e → Stores (λ p. (write_node e p.0, p.1 + counted e)) (e ∷ [])
unfolding nodes_bytes counted
entry-Stores e h = record {
  law = λ p o. let a = (write_node-Adds e h).law p.0 o in (a.0, a.1, ground (arith, h.path_some));
  fits = λ p l. (write_node-Adds e h).fits p.0 l;
}

mutual
  unfolding write_tree stored nodes_bytes EveryEntry

  tree-Stores :
      (parts : List (List ℕ)) (nodes : Nodes)
      → EveryEntry (stored parts nodes)
      → Stores (write_tree parts nodes) (stored parts nodes)
  tree-Stores parts last h = record { law = λ p o. (o, λ rest. refl, omega arith); fits = λ p l. l }
  tree-Stores parts (then_node node nodes) h =
      let hs = EveryEntry-append (child_stored parts node) (stored parts nodes) h in
      Stores-then (write_child parts node) (write_tree parts nodes) (child_stored parts node)
        (stored parts nodes) (child-Stores parts node hs.0) (tree-Stores parts nodes hs.1)

  child-Stores :
      (parts : List (List ℕ)) (node : Node)
      → EveryEntry (child_stored parts node)
      → Stores (write_child parts node) (child_stored parts node)
  child-Stores parts (file name content) h =
      entry-Stores
        (record { is_dir = false; path = fs_abspath (parts ++ name ∷ []); content = content }) h.0
  child-Stores parts (dir name nodes) h =
      let e : Entry = record {
        is_dir = true;
        path = fs_abspath (parts ++ name ∷ []);
        content = [];
      } in
      Stores-then (λ p. (write_node e p.0, p.1 + counted e)) (write_tree (parts ++ name ∷ []) nodes)
        (e ∷ []) (stored (parts ++ name ∷ []) nodes) (entry-Stores e h.0)
        (tree-Stores (parts ++ name ∷ []) nodes h.1)

put_users-Adds : (us : List Account) → EveryAccount us → Adds (put_users us) (users_bytes us)
unfolding put_users users_bytes EveryAccount
put_users-Adds [] h = put_users-nil
put_users-Adds (u ∷ us) (h, hs) = Adds-then (put_user-Adds u h) (put_users-Adds us hs)

-- The payload, byte for byte.
pub payload_lem :
    (users : List Account) (root : Nodes)
    → EveryAccount users
    → EveryEntry (stored [] root)
    → ((payload users root).0).overflow ≡ false
    → (((payload users root).0).buffer ≡ users_bytes users (nodes_bytes (stored [] root) []))
      × ((payload users root).1 ≡ length (stored [] root))
      × (length ((payload users root).0).buffer ≤ max_payload)
unfolding payload
payload_lem users root hu he o =
    let start : Writer = record { buffer = []; overflow = false } in
    let t = tree-Stores [] root he in
    let u = put_users-Adds users hu in
    let (o', b, n) = t.law (put_users users start, 0) o in
    let v = u.law start o' in
    (
      sym (append-nil _) ∙ b [] ∙ v.1 (nodes_bytes (stored [] root) []),
      omega (arith, n),
      t.fits (put_users users start, 0) (u.fits start (omega arith)),
    )

pub restore-payload :
    (users : List Account) (root : Nodes) (saves : ℕ) (pad : List ℕ)
    → EveryAccount users
    → EveryEntry (stored [] root)
    → ((payload users root).0).overflow ≡ false
    → restore (super_of users (payload users root) saves) (((payload users root).0).buffer ++ pad)
      ≡ ((users, stored [] root), false)
unfolding restore super_of
restore-payload users root saves pad hu he o =
    let (b, n, l) = payload_lem users root hu he o in
    let buffer = ((payload users root).0).buffer in
    let r : Reader = record {
      buffer = take (length buffer) (buffer ++ pad);
      at = 0;
      bad = false;
    } in
    let cut : take (length buffer) (buffer ++ pad) ≡ buffer = take-append buffer pad in
    let k : At r (users_bytes users (nodes_bytes (stored [] root) [])) = record {
      good = refl;
      ahead = cut ∙ b;
      inside = omega arith;
      small = omega (arith, ap length cut, l);
    } in
    let us = (take_users-Reads users hu).law r _ k in
    let es = (take_nodes-Reads (stored [] root) he).law (take_users (length users) r).1 [] us.1 in
    rw (n, us.0, es.0, es.1.good) refl
