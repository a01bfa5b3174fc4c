-- ===== src/Fs/Resolve.antt =====
-- fs_create() and then fs_resolve() of fs/ramfs.c with the same path.
use mathlib.Core.Option
use mathlib.Core.Path.{subst}
use lightning_os.Prelude.{
  ℕ, suc, ◌<◌, ◌≤◌, ◌≡◌, ◌≢◌, refl, sym, ap, Bool, true, false, List, [], ◌∷◌, ◌++◌, ◌⊎◌, inl, inr,
  arith, ◌==◌, length, Bool-cases, some, ◌∙◌, take_short, length-append, is_empty,
}
use lightning_os.Strings.Compare.{text_eq, text_eq_refl, text_eq_iff}
use lightning_os.Fs.{Fs, Kind, is_directory, walk, create_in, fs_create, follow, fs_resolve}
use lightning_os.Fs.Chain.{first_named, Absent}
use lightning_os.Fs.Names.{
  IsTree, Suffices, AllUp-Absent, first_named-same, first_named-append, first_named-kept,
  Chain-AllNonzero,
}
use lightning_os.Fs.Lookup.{find_child_lem}
use lightning_os.Fs.Grown.{
  grown, grown_used, grown_kids, grown-IsTree, grown_keeps, grown_new, grown_root,
}
use lightning_os.Fs.Walk.{IsKnown, follow_total, ℕ-cases}
use lightning_os.Fs.PathNames.{
  follow_all, follow_to_last, follow_but_last, walk-follow, start, cut_names, cut_names_root,
}
use lightning_os.Fs.Create.{create_in_lem, walk_total, last_name_nil}

module _ (s : Fs) (used : ℕ → Bool) (kids : ℕ → List ℕ) (t : IsTree s used kids) (fuel : ℕ)
    (f : Suffices fuel used kids) (dir q : ℕ) (name : List ℕ) (kind : Kind) (ud : used dir ≡ true)
    (uq : used q ≡ false) (pos : 0 < q) (short : length name ≤ 31)
    (isd : is_directory (s.node dir).kind ≡ true)
    (free : first_named s.node name (kids dir) ≡ 0) where
  s1 : Fs
  s1 = grown s (kids dir) name kind dir q

  tree : IsTree s1 (grown_used used q) (grown_kids kids dir q)
  unfolding s1
  tree = grown-IsTree s used kids t dir q name kind ud uq pos short free

  enough : Suffices (suc fuel) (grown_used used q) (grown_kids kids dir q)
  enough d u = elim (Bool-cases (d == q)) [
    | inl e ↦ rw e (omega arith)
    | inr n ↦ elim (Bool-cases (d == dir)) [
      | inl e ↦ rw (n, e) (omega (arith, f dir ud, length-append (kids dir) (q ∷ [])))
      | inr m ↦ rw (n, m) (omega (arith, f d (ground (arith, u, n))))
    ]
  ]

  ne_new : (d : ℕ) → used d ≡ true → d ≢ q
  ne_new d u e = cc (u, uq, ap used e)

  name_kept :
      (d : ℕ) → used d ≡ true → (x : ℕ) → Absent x (kids d) ⊎ ((s1.node x).name ≡ (s.node x).name)
  unfolding s1
  name_kept d u x = elim (Bool-cases (x == q)) [
    | inl e ↦
        let xq : q ≡ x = ground (arith, e) in
        inl
          (subst (λ z. Absent z (kids d)) xq (AllUp-Absent (kids d) s.node used d q uq (t.up d u)))
    | inr m ↦
        inr (grown_keeps s used kids t dir q name kind ud uq pos x (λ e. ground (arith, e, m))).0
  ]

  -- A name that is found is found again.
  found_again :
      (d : ℕ) (n : List ℕ)
      → used d ≡ true
      → first_named s.node n (kids d) ≢ 0
      → first_named s1.node n (grown_kids kids dir q d) ≡ first_named s.node n (kids d)
  unfolding s1
  found_again d n u nz =
      let old = first_named-same (kids d) s.node s1.node n (name_kept d u) in
      let dq : (d == q) ≡ false = ground (arith, ne_new d u) in
      elim (Bool-cases (d == dir)) [
        | inl e ↦
            let de : d ≡ dir = ground (arith, e) in
            rw (dq, e)
              (subst (λ z. first_named s1.node n (kids z ++ q ∷ []) ≡ first_named s.node n (kids d))
                de (first_named-kept (kids d) s1.node n q (λ z. nz (sym old ∙ z)) ∙ old))
        | inr m ↦ rw (dq, m) old
      ]

  follow_again :
      (d k : ℕ) (n : List ℕ)
      → used d ≡ true
      → follow fuel s d n ≡ some (suc k)
      → follow (suc fuel) s1 d n ≡ some (suc k)
  unfolding follow s1
  follow_again d k n u h =
      let (a, b, c) = grown_keeps s used kids t dir q name kind ud uq pos d (ne_new d u) in
      let old = find_child_lem s used kids fuel d n t f u in
      let here : grown_used used q d ≡ true = ground (arith, u) in
      let new =
        find_child_lem s1 (grown_used used q) (grown_kids kids dir q) (suc fuel) d n tree enough
          here in
      let again = found_again d n u in
      let (r, w) = grown_root s (kids dir) name kind dir q in
      ground (arith, a, b, c, old, new, h, again, r)

  -- The new node is found under its name.
  follow_new :
      text_eq name (b'.' ∷ []) ≡ false
      → text_eq name (b'.' ∷ b'.' ∷ []) ≡ false
      → follow (suc fuel) s1 dir name ≡ some q
  unfolding follow s1
  follow_new dot dots =
      let here : grown_used used q dir ≡ true = ground (arith, ud) in
      let new =
        find_child_lem s1 (grown_used used q) (grown_kids kids dir q) (suc fuel) dir name tree
          enough here in
      let (a, b, c) = grown_keeps s used kids t dir q name kind ud uq pos dir (ne_new dir ud) in
      let same : (x : ℕ) → Absent x (kids dir) ⊎ ((s1.node x).name ≡ (s.node x).name) =
        name_kept dir ud in
      let old = first_named-same (kids dir) s.node s1.node name same ∙ free in
      let nm : (s1.node q).name ≡ name =
        (grown_new s used kids t dir q name kind ud uq pos).0 ∙ take_short 31 name short in
      let nz = Chain-AllNonzero (kids dir) s.node (s.node dir).children (t.chain dir ud) in
      let all = first_named-append (kids dir) s1.node name q old nz in
      let dq : (dir == q) ≡ false = ground (arith, ne_new dir ud) in
      let eq = text_eq_refl name in ground (arith, dot, dots, c, isd, new, all, nm, eq, dq)

  -- The names before the last lead to the same directory.
  all_again :
      (ns : List (List ℕ)) (node : ℕ) (n : List ℕ)
      → used node ≡ true
      → text_eq name (b'.' ∷ []) ≡ false
      → text_eq name (b'.' ∷ b'.' ∷ []) ≡ false
      → follow_to_last fuel s node n ns ≡ some (dir, name)
      → follow_all (suc fuel) s1 node (n ∷ ns) ≡ some q
  unfolding follow_all follow_to_last
  all_again [] node n u dot dots h =
      let new = follow_new dot dots in
      let e1 : node ≡ dir = ground (arith, h) in
      let e2 : n ≡ name = ground (arith, h) in ground (arith, e1, e2, new, pos)
  all_again (m ∷ ns) node n u dot dots h =
      let (p, e, k) = follow_total s used kids fuel node n t f u in
      elim (ℕ-cases p) [
        | inl z ↦
            let d0 : dir ≢ 0 = λ z. cc (ud, t.null, ap used z) in
            absurd (ground (arith, e, z, h, d0))
        | inr (j, z) ↦
            let again = follow_again node j n u (ground (arith, e, z)) in
            let uj : used (suc j) ≡ true = ground (arith, k, z) in
            let ih = all_again ns (suc j) m uj dot dots (ground (arith, e, z, h)) in
            ground (arith, again, ih)
      ]

first_names :
    (ns : List (List ℕ)) (fuel : ℕ) (s : Fs) (node dir : ℕ) (name : List ℕ)
    → is_empty name ≡ false
    → follow_but_last fuel s node ns ≡ some (dir, name)
    → (n : List ℕ) × (ms : List (List ℕ)) × (ns ≡ n ∷ ms)
      × (follow_to_last fuel s node n ms ≡ some (dir, name))
unfolding follow_but_last
first_names [] fuel s node dir name z h = absurd (ground (arith, z, h))
first_names (n ∷ ms) fuel s node dir name z h = (n, ms, refl, h)

-- fs_resolve() on a path that is not empty and not the root's is walk().
resolve-walk :
    (fuel : ℕ) (s : Fs) (path : List ℕ)
    → is_empty path ≡ false
    → text_eq path (b'/' ∷ []) ≡ false
    → fs_resolve fuel s path ≡ Option.map (λ r. r.0) (walk fuel s false path)
unfolding fs_resolve
resolve-walk fuel s path a b = ground (arith, a, b)

create_in_null :
    (fuel answer : ℕ) (name : List ℕ) (kind : Kind) (s : Fs)
    → create_in fuel answer name kind 0 s ≡ some (0, s)
unfolding create_in
create_in_null fuel answer name kind s = refl

walk_null : (fuel : ℕ) (s : Fs) → walk fuel s true [] ≡ some (0, [])
unfolding walk
walk_null fuel s = refl

text_ne : (a b : List ℕ) → a ≢ b → text_eq a b ≡ false
text_ne a b n = elim (Bool-cases (text_eq a b)) [
  | inl e ↦ absurd (n ((text_eq_iff a b).0 e))
  | inr e ↦ e
]

cons_ne : {n : List ℕ} {ms : List (List ℕ)} → n ∷ ms ≢ []
cons_ne h = cc

-- In a tree, with the byte behind a name of 31 bytes being zero, where kcalloc() gives a node that is
-- not in use and fs_create() gives a node for a path whose last name is not `.` or `..`, fs_resolve()
-- afterwards finds that node under the path, for a fuel above the number of children of every
-- directory and one more.
pub fs_resolve-fs_create :
    (s : Fs) (used : ℕ → Bool) (kids : ℕ → List ℕ) (fuel answer : ℕ) (path : List ℕ) (kind : Kind)
    (dir : ℕ) (name : List ℕ) (s' : Fs)
    → IsTree s used kids
    → Suffices fuel used kids
    → used answer ≡ false
    → walk fuel s true path ≡ some (dir, name)
    → name ≢ b'.' ∷ []
    → name ≢ b'.' ∷ b'.' ∷ []
    → 0 < answer
    → fs_create fuel answer [] path kind s ≡ some (answer, s')
    → fs_resolve (suc fuel) s' path ≡ some answer
unfolding fs_create s1
fs_resolve-fs_create s used kids fuel answer [] kind dir name s' t f ua w dot dots pos h = absurd (
    ground (
      arith,
      w,
      h,
      pos,
      walk_null fuel s,
      last_name_nil name,
      create_in_null fuel answer name kind s,
    ))
fs_resolve-fs_create s used kids fuel answer (x ∷ path) kind dir name s' t f ua w dot dots pos h =
    let full = x ∷ path in
    let (p, last, e, k, short0) = walk_total s used kids fuel true full t f in
    let same : ◌≡◌ {A = ℕ × List ℕ} (p, last) (dir, name) = ground (arith, e, w) in
    let kd : IsKnown used dir = ground (arith, k, same) in
    let short : length name ≤ 31 = ground (arith, short0, same) in
    let (r, c, o) = create_in_lem s used kids fuel answer name kind dir t f ua kd in
    let made : r ≡ (answer, s') = ground (arith, c, w, h, last_name_nil name) in
    elim o [
      | inl e0 ↦ absurd (ground (arith, e0, made, pos))
      | inr (u, isd, pos', nonempty, free, e1) ↦
          let st : s' ≡ grown s (kids dir) name kind dir answer = ap (λ z. z.1) (sym made ∙ e1) in
          let go = walk-follow fuel s x path in
          let (n, ms, en, h2) =
            first_names (cut_names full) fuel s (start s full) dir name nonempty (sym go.1 ∙ w) in
          let us : used (start s full) ≡ true = ground (arith, t.root, t.cwd) in
          let dt : text_eq name (b'.' ∷ []) ≡ false = text_ne name _ dot in
          let dd : text_eq name (b'.' ∷ b'.' ∷ []) ≡ false = text_ne name _ dots in
          let found =
            all_again s used kids t fuel f dir answer name kind u ua pos short isd free ms
              (start s full) n us dt dd h2 in
          let (r1, r2) = grown_root s (kids dir) name kind dir answer in
          let not_root : text_eq full (b'/' ∷ []) ≡ false =
            text_ne full _ (λ z. cons_ne (sym en ∙ ap cut_names z ∙ cut_names_root)) in
          let s1 : Fs = grown s (kids dir) name kind dir answer in
          let same_start : start s1 full ≡ start s full = ground (arith, r1, r2) in
          let again = walk-follow (suc fuel) s1 x path in
          let all : follow_all (suc fuel) s1 (start s1 full) (cut_names full) ≡ some answer =
            ap (λ z. follow_all (suc fuel) s1 z (cut_names full)) same_start
            ∙ ap (follow_all (suc fuel) s1 (start s full)) en
            ∙ found in
          subst (λ z. fs_resolve (suc fuel) z full ≡ some answer) (sym st)
            (resolve-walk (suc fuel) s1 full refl not_root
              ∙ ap (Option.map (λ r. r.0)) (again.0 ∙ ap (Option.map (λ p. (p, []))) all))
    ]
