-- ===== src/Shell/Places.antt =====
-- Where a path leads, by the names of the directories above it, against target_abspath() of
-- kernel/shell.c.
pub mod Leads
use mathlib.Core.Option
use lightning_os.Prelude.{
  ℕ, zero, suc, ◌<◌, ◌≤◌, ◌≡◌, ◌≢◌, refl, sym, ap, ◌∙◌, Bool, true, false, not, ◌||◌, List, [], ◌∷◌,
  ◌++◌, inl, inr, ◌⊎◌, arith, ◌==◌, if◌then◌else◌, length, Bool-cases, Option-cases, some, none,
  Option, take, map, is_empty, length-append, append_assoc, append-nil, take_short, length-take,
}
use lightning_os.Strings.Compare.{text_eq, text_eq_iff}
use lightning_os.Persist.Writer.{fs_abspath}
use lightning_os.Persist.Paths.{joined, Short, abspath_of}
use lightning_os.Fs.{Fs, Store, fs_resolve, walk, is_directory, starts_at_root}
use lightning_os.Fs.Create.{walk_total}
use lightning_os.Fs.Walk.{ℕ-cases}
use lightning_os.Fs.Names.{IsTree, Suffices}
use lightning_os.Fs.PathNames.{
  path_names, cut_names, follow_all, follow_but_last, start, walk-follow,
}
use lightning_os.Fs.PathNames.Append.{
  path_names-append, path_names-slashless, slashless, follow_but_last-follow_all,
}
use lightning_os.Shell.{target_abspath, split_last, path_below, node_path, names_up}

-- The node stands below these names, its own first: each is the name of the node above the one
-- before, up to one without a parent, the root.
unfoldable pub StandsBelow : Store → ℕ → List (List ℕ) → Type 0
StandsBelow c n [] = (n ≢ 0) × ((c n).parent ≡ 0)
StandsBelow c n (name ∷ up) =
    (n ≢ 0)
    × ((c n).name ≡ name)
    × (is_empty name ≡ false)
    × ((c n).parent ≢ 0)
    × StandsBelow c (c n).parent up

-- The names from the root down, a slash before each.
unfoldable pub below_root : List (List ℕ) → List ℕ
below_root [] = []
below_root (name ∷ up) = below_root up ++ b'/' ∷ name

unfoldable pub location : List (List ℕ) → List ℕ
unfolding below_root
location [] = b'/' ∷ []
location (name ∷ up) = below_root (name ∷ up)

-- Where a path leads: to a node that is there, or to the name behind a directory that is there. The
-- name is not cut to 31 bytes, the place is cut to 255.
unfoldable pub LeadsTo : ℕ → Fs → List ℕ → List ℕ → Type 0
unfolding location
LeadsTo fuel s path place =
    ((n : ℕ) × (up : List (List ℕ)) × (fs_resolve fuel s path ≡ some n)
      × StandsBelow s.node n up
      × (place ≡ location up))
    ⊎ ((dir : ℕ) × (name : List ℕ) × (up : List (List ℕ)) × (fs_resolve fuel s path ≡ some 0)
        × (walk fuel s true path ≡ some (dir, take 31 name))
        × StandsBelow s.node dir up
        × (place ≡ take 255 (below_root up ++ b'/' ∷ name)))

-- Every node but those of no use has its place, at most 32 names deep, of at most 254 bytes.
pub record IsCharted (s : Fs) (up : ℕ → List (List ℕ)) (used : ℕ → Bool) : Type 0 where
  pub stands : (n : ℕ) → used n ≡ true → StandsBelow s.node n (up n)
  pub deep : (n : ℕ) → used n ≡ true → length (up n) ≤ 32
  pub short : (n : ℕ) → used n ≡ true → length (below_root (up n)) < 255

top_down : List (List ℕ) → List (List ℕ)
top_down [] = []
top_down (name ∷ up) = top_down up ++ name ∷ []

names_up-StandsBelow :
    (left : ℕ) (c : Store) (n : ℕ) (up : List (List ℕ))
    → StandsBelow c n up
    → length up ≤ left
    → names_up left c n ≡ top_down up
unfolding names_up StandsBelow top_down
names_up-StandsBelow zero c n [] h l = refl
names_up-StandsBelow zero c n (x ∷ up) h l = absurd (omega (arith, l))
names_up-StandsBelow (suc left) c n [] h l = ground (arith, h.0, h.1)
names_up-StandsBelow (suc left) c n (name ∷ up) (z, e, some_name, p, h) l =
    let ih = names_up-StandsBelow left c (c n).parent up h (omega (arith, l)) in
    ground (arith, z, e, p, ih)

joined-snoc : (xs : List (List ℕ)) (x : List ℕ) → joined (xs ++ x ∷ []) ≡ joined xs ++ b'/' ∷ x
unfolding joined
joined-snoc [] x = ap (λ z. b'/' ∷ z) (append-nil x)
joined-snoc (y ∷ ys) x =
    ap (λ z. b'/' ∷ (y ++ z)) (joined-snoc ys x)
    ∙ ap (λ z. b'/' ∷ z) (sym (append_assoc y (joined ys) (b'/' ∷ x)))

joined-top_down : (up : List (List ℕ)) → joined (top_down up) ≡ below_root up
unfolding top_down below_root joined
joined-top_down [] = refl
joined-top_down (name ∷ up) =
    joined-snoc (top_down up) name ∙ ap (λ z. z ++ b'/' ∷ name) (joined-top_down up)

length-top_down : (up : List (List ℕ)) → length (top_down up) ≡ length up
unfolding top_down
length-top_down [] = refl
length-top_down (name ∷ up) =
    omega (arith, length-append (top_down up) (name ∷ []), length-top_down up)

not_empty : (xs : List ℕ) (c : ℕ) (ys : List ℕ) → is_empty (xs ++ c ∷ ys) ≡ false
not_empty [] c ys = refl
not_empty (x ∷ xs) c ys = refl

-- What the code takes for the path of a node is its place.
node_path-location :
    (s : Fs) (n : ℕ) (up : List (List ℕ))
    → StandsBelow s.node n up
    → length up ≤ 32
    → length (below_root up) < 255
    → node_path s n ≡ location up
unfolding node_path location top_down below_root fs_abspath Short
node_path-location s n [] h deep short =
    let e = names_up-StandsBelow 32 s.node n [] h deep in
    ap (λ z. if is_empty (fs_abspath z) then b'/' ∷ [] else fs_abspath z) e
node_path-location s n (name ∷ up) h deep short =
    let parts = top_down up in
    let e = names_up-StandsBelow 32 s.node n (name ∷ up) h deep in
    let down = joined-top_down (name ∷ up) in
    let fits : Short (parts ++ name ∷ []) =
      (omega (arith, length-top_down (name ∷ up), deep), omega (arith, ap length down, short)) in
    let path = abspath_of parts name fits ∙ down in
    ap (λ z. if is_empty (fs_abspath z) then b'/' ∷ [] else fs_abspath z) e
    ∙ ap (λ z. if is_empty z then b'/' ∷ [] else z) path
    ∙ ap (λ b. if b then b'/' ∷ [] else below_root (name ∷ up))
        (not_empty (below_root up) b'/' name)
