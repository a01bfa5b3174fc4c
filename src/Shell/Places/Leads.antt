-- ===== src/Shell/Places/Leads.antt =====
-- target_abspath() of kernel/shell.c gives the place that a path leads to.
use mathlib.Core.Option
use lightning_os.Prelude.{
  ℕ, zero, suc, ◌≤◌, ◌≡◌, ◌≢◌, refl, sym, ap, ◌∙◌, Bool, true, false, not, ◌||◌, List, [], ◌∷◌,
  ◌++◌, inl, inr, arith, ◌==◌, if◌then◌else◌, length, Bool-cases, Option-cases, some, none, Option,
  take, map, is_empty, length-append, append_assoc, take_short, length-take,
}
use lightning_os.Strings.Compare.{text_eq, text_eq_iff}
use lightning_os.Fs.{Fs, Store, fs_resolve, walk, is_directory, starts_at_root}
use lightning_os.Fs.Create.{walk_total}
use lightning_os.Fs.Walk.{ℕ-cases}
use lightning_os.Fs.Names.{IsTree, Suffices}
use lightning_os.Fs.PathNames.{
  path_names, cut_names, follow_all, follow_but_last, start, walk-follow,
}
use lightning_os.Fs.PathNames.Append.{
  path_names-append, path_names-slashless, slashless, follow_but_last-follow_all,
}
use lightning_os.Shell.{target_abspath, split_last, path_below, node_path}
use lightning_os.Shell.Places.{
  StandsBelow, below_root, location, LeadsTo, IsCharted, node_path-location,
}

-- The cut at the last slash.
split_last-none : (xs : List ℕ) → split_last xs ≡ none → slashless xs ≡ true
unfolding split_last slashless
split_last-none [] h = refl
split_last-none (c ∷ xs) h = elim (Option-cases (split_last xs)) [
  | inr ((front, name), e) ↦ absurd (ground (arith, e, h))
  | inl e ↦ ground (arith, e, h, split_last-none xs e)
]

split_last-some :
    (xs front name : List ℕ)
    → split_last xs ≡ some (front, name)
    → (xs ≡ front ++ b'/' ∷ name) × (slashless name ≡ true)
unfolding split_last
split_last-some [] front name h = absurd (ground (arith, h))
split_last-some (c ∷ xs) front name h = elim (Option-cases (split_last xs)) [
  | inr ((f, n), e) ↦
      let (cut, free) = split_last-some xs f n e in
      let q : front ≡ c ∷ f = ground (arith, e, h) in
      let r : name ≡ n = ground (arith, e, h) in
      (rw (q, r) (ap (λ z. c ∷ z) cut), ap slashless r ∙ free)
  | inl e ↦
      let at : c ≡ b'/' = ground (arith, e, h) in
      let q : front ≡ [] = ground (arith, e, h) in
      let r : name ≡ xs = ground (arith, e, h) in
      (rw (q, r) (ap (λ z. z ∷ xs) at), ap slashless r ∙ split_last-none xs e)
]

map_append :
    (xs ys : List (List ℕ)) → map (take 31) (xs ++ ys) ≡ map (take 31) xs ++ map (take 31) ys
map_append [] ys = refl
map_append (x ∷ xs) ys = ap (λ z. take 31 x ∷ z) (map_append xs ys)

-- The directory and the name that walk() finds for a path whose last name is `name`.
walk_to_name :
    (fuel : ℕ) (s : Fs) (c : ℕ) (path : List ℕ) (names : List (List ℕ)) (dir : ℕ) (name : List ℕ)
    → dir ≢ 0
    → path_names (take 255 (c ∷ path)) ≡ names ++ name ∷ []
    → follow_all fuel s (start s (c ∷ path)) (map (take 31) names) ≡ some dir
    → walk fuel s true (c ∷ path) ≡ some (dir, take 31 name)
unfolding cut_names
walk_to_name fuel s c path names dir name z e f =
    let cut : cut_names (c ∷ path) ≡ map (take 31) names ++ take 31 name ∷ [] =
      ap (map (take 31)) e ∙ map_append names (name ∷ []) in
    (walk-follow fuel s c path).1
    ∙ ap (follow_but_last fuel s (start s (c ∷ path))) cut
    ∙ follow_but_last-follow_all fuel s (start s (c ∷ path)) dir (map (take 31) names)
        (take 31 name) z f

map_first :
    (o : Option ℕ) (dir : ℕ)
    → Option.map (λ (r : ℕ × List ℕ). r.0) (Option.map (λ p. (p, [])) o) ≡ some dir
    → o ≡ some dir
map_first none dir h = absurd (ground (arith, h))
map_first (some q) dir h = h

same_start :
    (fuel : ℕ) (s : Fs) (c d : ℕ) (path f : List ℕ) (dir : ℕ)
    → c ≡ d
    → take 255 (d ∷ f) ≡ d ∷ f
    → Option.map (λ r. r.0) (walk fuel s false (d ∷ f)) ≡ some dir
    → follow_all fuel s (start s (c ∷ path)) (map (take 31) (path_names (d ∷ f))) ≡ some dir
unfolding cut_names starts_at_root
same_start fuel s c d path f dir at short walked =
    let names = map (take 31) (path_names (d ∷ f)) in
    let w = (walk-follow fuel s d f).0 in
    let cut : cut_names (d ∷ f) ≡ names = ap (λ z. map (take 31) (path_names z)) short in
    let from : start s (c ∷ path) ≡ start s (d ∷ f) =
      ap (λ z. if z == b'/' then s.root else s.cwd) at in
    let all : Option.map (λ r. r.0)
          (Option.map (λ p. (p, [])) (follow_all fuel s (start s (d ∷ f)) names))
        ≡ some dir =
      ap
        (λ z.
          Option.map (λ (r : ℕ × List ℕ). r.0)
            (Option.map (λ p. (p, [])) (follow_all fuel s (start s (d ∷ f)) z)))
        (sym cut)
      ∙ ap (Option.map (λ (r : ℕ × List ℕ). r.0)) (sym w)
      ∙ walked in
    ap (λ z. follow_all fuel s z names) from
    ∙ map_first (follow_all fuel s (start s (d ∷ f)) names) dir all

-- The directory of a path, and the one that fs_resolve() finds for what stands before the last slash.
front_leads :
    (fuel : ℕ) (s : Fs) (c : ℕ) (path front name : List ℕ) (dir : ℕ)
    → take 255 (c ∷ path) ≡ front ++ b'/' ∷ name
    → fs_resolve fuel s (if is_empty front then b'/' ∷ [] else front) ≡ some dir
    → follow_all fuel s (start s (c ∷ path)) (map (take 31) (path_names front)) ≡ some dir
unfolding fs_resolve follow_all path_names starts_at_root cut_names
front_leads fuel s c path [] name dir cut h =
    let at : c ≡ b'/' = ground (arith, cut) in
    let root : text_eq (b'/' ∷ []) (b'/' ∷ []) ≡ true =
      (text_eq_iff (b'/' ∷ []) (b'/' ∷ [])).1 refl in
    ground (arith, at, root, h)
front_leads fuel s c path (d ∷ f) name dir cut h =
    let at : c ≡ d = ground (arith, cut) in
    elim (Bool-cases (text_eq (d ∷ f) (b'/' ∷ []))) [
      | inl e ↦
          let root : d ∷ f ≡ b'/' ∷ [] = (text_eq_iff (d ∷ f) (b'/' ∷ [])).0 e in
          let a : d ≡ b'/' = ground (arith, root) in
          let b : f ≡ [] = ground (arith, root) in ground (arith, at, a, b, e, h)
      | inr n ↦
          let walked : Option.map (λ r. r.0) (walk fuel s false (d ∷ f)) ≡ some dir =
            ground (arith, n, h) in
          let size : length (take 255 (c ∷ path)) ≤ 255 =
            omega (arith, length-take 255 (c ∷ path)) in
          let short : take 255 (d ∷ f) ≡ d ∷ f =
            take_short 255 (d ∷ f)
              (omega (arith, size, ap length cut, length-append (d ∷ f) (b'/' ∷ name))) in
          same_start fuel s c d path f dir at short walked
    ]

-- What path_below() needs, and what it gives.
path_below-some :
    (s : Fs) (dir : ℕ) (name place : List ℕ)
    → path_below s dir name ≡ some place
    → let above = node_path s dir in
      (place ≡ take 255 (above ++ (if text_eq above (b'/' ∷ []) then [] else b'/' ∷ []) ++ name))
      × (dir ≢ 0)
      × (is_empty name ≡ false)
unfolding path_below
path_below-some s dir name place h =
    elim (Bool-cases (dir == 0 || not (is_directory (s.node dir).kind) || is_empty name)) [
      | inl e ↦ absurd (ground (arith, e, h))
      | inr e ↦ (ground (arith, e, h), ground (arith, e), ground (arith, e))
    ]

not_the_root :
    (up : List (List ℕ)) (name : List ℕ)
    → is_empty name ≡ false
    → text_eq (below_root (name ∷ up)) (b'/' ∷ []) ≡ false
unfolding below_root
not_the_root up [] h = absurd (ground (arith, h))
not_the_root up (c ∷ name) h =
    elim (Bool-cases (text_eq (below_root up ++ b'/' ∷ c ∷ name) (b'/' ∷ []))) [
      | inr n ↦ n
      | inl e ↦
          let same = (text_eq_iff (below_root up ++ b'/' ∷ c ∷ name) (b'/' ∷ [])).0 e in
          absurd (omega (arith, ap length same, length-append (below_root up) (b'/' ∷ c ∷ name)))
    ]

-- The separator of target_abspath() stands between the directory and the name.
separated :
    (c : Store) (dir : ℕ) (up : List (List ℕ)) (name : List ℕ)
    → StandsBelow c dir up
    → location up ++ (if text_eq (location up) (b'/' ∷ []) then [] else b'/' ∷ []) ++ name
      ≡ below_root up ++ b'/' ∷ name
unfolding location below_root StandsBelow
separated c dir [] name h =
    let root : text_eq (b'/' ∷ []) (b'/' ∷ []) ≡ true =
      (text_eq_iff (b'/' ∷ []) (b'/' ∷ [])).1 refl in
    rw root refl
separated c dir (n ∷ up) name (z, e, some_name, p, h) =
    ap (λ b. below_root (n ∷ up) ++ (if b then [] else b'/' ∷ []) ++ name)
      (not_the_root up n some_name)
    ∙ append_assoc (below_root (n ∷ up)) (b'/' ∷ []) name

place_of :
    (s : Fs) (up : ℕ → List (List ℕ)) (used : ℕ → Bool) (dir : ℕ) (name place : List ℕ)
    → IsCharted s up used
    → used dir ≡ true
    → path_below s dir name ≡ some place
    → place ≡ take 255 (below_root (up dir) ++ b'/' ∷ name)
place_of s up used dir name place ch u h =
    let at = node_path-location s dir (up dir) (ch.stands dir u) (ch.deep dir u) (ch.short dir u) in
    (path_below-some s dir name place h).0
    ∙ ap (λ z. take 255 (z ++ (if text_eq z (b'/' ∷ []) then [] else b'/' ∷ []) ++ name)) at
    ∙ ap (take 255) (separated s.node dir (up dir) name (ch.stands dir u))

-- What fs_resolve() finds is in use.
fs_resolve-used :
    (s : Fs) (used : ℕ → Bool) (kids : ℕ → List ℕ) (fuel : ℕ) (path : List ℕ) (n : ℕ)
    → IsTree s used kids
    → Suffices fuel used kids
    → fs_resolve fuel s path ≡ some n
    → n ≢ 0
    → used n ≡ true
unfolding fs_resolve
fs_resolve-used s used kids fuel path n t f h z =
    let (p, last, e, k, short) = walk_total s used kids fuel false path t f in
    elim (Bool-cases (is_empty path)) [
      | inl i ↦ let q : s.cwd ≡ n = ground (arith, i, h) in ap used (sym q) ∙ t.cwd
      | inr i ↦ elim (Bool-cases (text_eq path (b'/' ∷ []))) [
        | inl r ↦ let q : s.root ≡ n = ground (arith, i, r, h) in ap used (sym q) ∙ t.root
        | inr r ↦
            let q : p ≡ n = ground (arith, i, r, e, h) in
            let m : (p == 0 || used p) ≡ true = k in
            let y : (p == 0) ≡ false = ground (arith, q, z) in
            ap used (sym q) ∙ ground (arith, m, y)
      ]
    ]

-- A path that leads to no node, and target_abspath()'s place for it.
new-LeadsTo :
    (s : Fs) (used : ℕ → Bool) (kids : ℕ → List ℕ) (up : ℕ → List (List ℕ)) (fuel dir c : ℕ)
    (path name place : List ℕ) (names : List (List ℕ))
    → IsCharted s up used
    → used dir ≡ true
    → fs_resolve fuel s (c ∷ path) ≡ some 0
    → path_below s dir name ≡ some place
    → path_names (take 255 (c ∷ path)) ≡ names ++ name ∷ []
    → follow_all fuel s (start s (c ∷ path)) (map (take 31) names) ≡ some dir
    → LeadsTo fuel s (c ∷ path) place
unfolding LeadsTo
new-LeadsTo s used kids up fuel dir c path name place names ch u e h cut f =
    let (_, z, _) = path_below-some s dir name place h in
    inr (
      dir,
      name,
      up dir,
      e,
      walk_to_name fuel s c path names dir name z cut f,
      ch.stands dir u,
      place_of s up used dir name place ch u h,
    )

slashless_names :
    (name : List ℕ) → is_empty name ≡ false → slashless name ≡ true → path_names name ≡ name ∷ []
slashless_names [] e h = absurd (ground (arith, e))
slashless_names (c ∷ s) e h = path_names-slashless c s h

first_at_cwd :
    (s : Fs) (c : ℕ) (path : List ℕ)
    → slashless (take 255 (c ∷ path)) ≡ true
    → start s (c ∷ path) ≡ s.cwd
unfolding slashless starts_at_root
first_at_cwd s c path h = ground (arith, h)

old-LeadsTo :
    (s : Fs) (used : ℕ → Bool) (kids : ℕ → List ℕ) (up : ℕ → List (List ℕ)) (fuel n : ℕ)
    (path place : List ℕ)
    → IsTree s used kids
    → Suffices fuel used kids
    → IsCharted s up used
    → fs_resolve fuel s path ≡ some n
    → n ≢ 0
    → place ≡ node_path s n
    → LeadsTo fuel s path place
unfolding LeadsTo
old-LeadsTo s used kids up fuel n path place t f ch e z q =
    let u = fs_resolve-used s used kids fuel path n t f e z in
    let at = node_path-location s n (up n) (ch.stands n u) (ch.deep n u) (ch.short n u) in
    inl (n, up n, e, ch.stands n u, q ∙ at)

-- A slash in the path: the directory is what stands before the last one.
slash-LeadsTo :
    (s : Fs) (used : ℕ → Bool) (kids : ℕ → List ℕ) (up : ℕ → List (List ℕ)) (fuel dir c : ℕ)
    (path front name place : List ℕ)
    → IsTree s used kids
    → Suffices fuel used kids
    → IsCharted s up used
    → fs_resolve fuel s (c ∷ path) ≡ some 0
    → split_last (take 255 (c ∷ path)) ≡ some (front, name)
    → fs_resolve fuel s (if is_empty front then b'/' ∷ [] else front) ≡ some dir
    → path_below s dir name ≡ some place
    → LeadsTo fuel s (c ∷ path) place
slash-LeadsTo s used kids up fuel dir c path front name place t f ch e l r p =
    let (cut, free) = split_last-some (take 255 (c ∷ path)) front name l in
    let (_, z, some_name) = path_below-some s dir name place p in
    let above : List ℕ = if is_empty front then b'/' ∷ [] else front in
    let u = fs_resolve-used s used kids fuel above dir t f r z in
    let names =
      ap path_names cut
      ∙ path_names-append front name
      ∙ ap (λ z. path_names front ++ z) (slashless_names name some_name free) in
    new-LeadsTo s used kids up fuel dir c path name place (path_names front) ch u e p names
      (front_leads fuel s c path front name dir cut r)

resolve_nothing : (fuel : ℕ) (s : Fs) → fs_resolve fuel s [] ≡ some s.cwd
unfolding fs_resolve
resolve_nothing fuel s = refl

-- On a tree whose nodes have their places, target_abspath() gives the place that the path leads to.
pub target_abspath-LeadsTo :
    (s : Fs) (used : ℕ → Bool) (kids : ℕ → List ℕ) (up : ℕ → List (List ℕ)) (fuel : ℕ)
    (path place : List ℕ)
    → IsTree s used kids
    → Suffices fuel used kids
    → IsCharted s up used
    → target_abspath fuel s path ≡ some (some place)
    → LeadsTo fuel s path place
unfolding target_abspath follow_all
target_abspath-LeadsTo s used kids up fuel [] place t f ch h = elim (ℕ-cases s.cwd) [
  | inl z ↦ absurd (ground (arith, ap used z, t.cwd, t.null))
  | inr (k, z) ↦
      let e = resolve_nothing fuel s ∙ ap some z in
      old-LeadsTo s used kids up fuel (suc k) [] place t f ch e (cc) (ground (arith, e, h))
]
target_abspath-LeadsTo s used kids up fuel (c ∷ path) place t f ch h =
    elim (Option-cases (fs_resolve fuel s (c ∷ path))) [
      | inl e ↦ absurd (ground (arith, e, h))
      | inr (suc n, e) ↦
          old-LeadsTo s used kids up fuel (suc n) (c ∷ path) place t f ch e (cc)
            (ground (arith, e, h))
      | inr (zero, e) ↦
          let b = take 255 (c ∷ path) in
          elim (Option-cases (split_last b)) [
            | inl l ↦
                let p : path_below s s.cwd b ≡ some place = ground (arith, e, l, h) in
                let free = split_last-none b l in
                let some_name = (path_below-some s s.cwd b place p).2 in
                new-LeadsTo s used kids up fuel s.cwd c path b place [] ch t.cwd e p
                  (slashless_names b some_name free) (ap some (first_at_cwd s c path free))
            | inr ((front, name), l) ↦
                let above : List ℕ = if is_empty front then b'/' ∷ [] else front in
                elim (Option-cases (fs_resolve fuel s above)) [
                  | inl r ↦ absurd (ground (arith, e, l, r, h))
                  | inr (dir, r) ↦
                      slash-LeadsTo s used kids up fuel dir c path front name place t f ch e l r
                        (ground (arith, e, l, r, h))
                ]
          ]
    ]
