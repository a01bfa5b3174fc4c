-- ===== src/Fs/PathNames.antt =====
-- walk() of fs/ramfs.c against its specification: a path is the list of its names, and each is
-- followed from the directory that the names before it lead to.
pub mod Append
use mathlib.Core.Option
use lightning_os.Prelude.{
  ℕ, zero, suc, ◌+◌, ◌<◌, ◌≡◌, refl, sym, ap, Bool, true, false, List, [], ◌∷◌, inl, inr, arith,
  ◌==◌, if◌then◌else◌, length, Bool-cases, some, none, Option, take, map, ◌∙◌, Option-cases,
  is_empty,
}
use lightning_os.Fs.{
  Fs, skip_slashes, component, skip_component, follow, walk_from, walk, starts_at_root,
}
use lightning_os.Fs.Walk.{shorter, ℕ-cases}

-- The names of a path: what stands between its slashes.
ends_name : List ℕ → Bool
ends_name [] = true
ends_name (c ∷ s) = c == b'/'

in_front : ℕ → List (List ℕ) → List (List ℕ)
in_front c [] = (c ∷ []) ∷ []
in_front c (w ∷ ws) = (c ∷ w) ∷ ws

unfoldable pub path_names : List ℕ → List (List ℕ)
unfolding ends_name in_front
path_names [] = []
path_names (c ∷ s) =
    if c == b'/'
    then path_names s
    else if ends_name s
    then (c ∷ []) ∷ path_names s
    else in_front c (path_names s)

-- The path as walk() reads it: 255 bytes, and of each name 31.
unfoldable pub cut_names : List ℕ → List (List ℕ)
unfolding path_names
cut_names path = map (take 31) (path_names (take 255 path))

-- Every name followed.
unfoldable pub follow_all : ℕ → Fs → ℕ → List (List ℕ) → Option ℕ
follow_all fuel s node [] = some node
follow_all fuel s node (n ∷ ns) = elim (follow fuel s node n) [
  | none ↦ none
  | some zero ↦ some 0
  | some (suc k) ↦ follow_all fuel s (suc k) ns
]

-- Every name but the last followed, with the last.
unfoldable pub follow_to_last : ℕ → Fs → ℕ → List ℕ → List (List ℕ) → Option (ℕ × List ℕ)
follow_to_last fuel s node n [] = some (node, n)
follow_to_last fuel s node n (m ∷ ns) = elim (follow fuel s node n) [
  | none ↦ none
  | some zero ↦ some (0, [])
  | some (suc k) ↦ follow_to_last fuel s (suc k) m ns
]

unfoldable pub follow_but_last : ℕ → Fs → ℕ → List (List ℕ) → Option (ℕ × List ℕ)
unfolding follow_to_last
follow_but_last fuel s node [] = some (node, [])
follow_but_last fuel s node (n ∷ ns) = follow_to_last fuel s node n ns

-- The bytes up to a slash.
word : List ℕ → List ℕ
word [] = []
word (c ∷ s) = if c == b'/' then [] else c ∷ word s

component-take : (n : ℕ) (s : List ℕ) → component n s ≡ take n (word s)
unfolding component word
component-take zero s = refl
component-take (suc n) [] = refl
component-take (suc n) (c ∷ s) = ground (arith, component-take n s)

path_names-skip_slashes : (s : List ℕ) → path_names s ≡ path_names (skip_slashes s)
unfolding path_names skip_slashes
path_names-skip_slashes [] = refl
path_names-skip_slashes (c ∷ s) = ground (arith, path_names-skip_slashes s)

path_names-word :
    (s : List ℕ) (c : ℕ)
    → (c == b'/') ≡ false
    → path_names (c ∷ s) ≡ word (c ∷ s) ∷ path_names (skip_component (c ∷ s))
unfolding path_names word skip_component ends_name in_front
path_names-word [] c h = rw h refl
path_names-word (d ∷ s) c h = ground (arith, path_names-word s d, h)

head_not_slash :
    (s : List ℕ)
    → is_empty (skip_slashes s) ≡ false
    → (c : ℕ) × (r : List ℕ) × (skip_slashes s ≡ c ∷ r) × ((c == b'/') ≡ false)
unfolding skip_slashes
head_not_slash [] h = absurd (cc)
head_not_slash (c ∷ s) h = elim (Bool-cases (c == b'/')) [
  | inl e ↦ rw e (head_not_slash s (ground (arith, h, e)))
  | inr n ↦ (c, s, rw n refl, n)
]

-- A component, and what stands behind it.
path_names-more :
    (s : List ℕ)
    → is_empty (skip_slashes s) ≡ false
    → map (take 31) (path_names s)
      ≡ component 31 (skip_slashes s) ∷ map (take 31) (path_names (skip_component (skip_slashes s)))
path_names-more s h =
    let (c, r, e, n) = head_not_slash s h in
    ap (map (take 31)) (path_names-skip_slashes s ∙ ap path_names e ∙ path_names-word r c n)
    ∙ rw e (
        ap (λ z. z ∷ map (take 31) (path_names (skip_component (c ∷ r))))
          (sym (component-take 31 (c ∷ r))))

path_names-done : (s : List ℕ) → is_empty (skip_slashes s) ≡ true → path_names s ≡ []
unfolding path_names skip_slashes
path_names-done [] h = refl
path_names-done (c ∷ s) h = ground (arith, path_names-done s, h)

-- walk() to the end of the path.
pub walk_from-follow_all :
    (rounds fuel : ℕ) (s : Fs) (buffer : List ℕ) (node : ℕ)
    → length buffer < rounds
    → walk_from rounds fuel s false buffer node
      ≡ Option.map (λ p. (p, [])) (follow_all fuel s node (map (take 31) (path_names buffer)))
unfolding walk_from follow_all
walk_from-follow_all zero fuel s buffer node h = absurd (omega (arith, h))
walk_from-follow_all (suc rounds) fuel s buffer node h =
    let here = skip_slashes buffer in
    let behind = skip_component here in
    elim (Bool-cases (is_empty here)) [
      | inl e ↦ ground (arith, e, path_names-done buffer e)
      | inr n ↦
          let more = path_names-more buffer n in
          let lt : length behind < rounds = ground (arith, shorter buffer, n, h) in
          elim (Option-cases (follow fuel s node (component 31 here))) [
            | inl eq ↦ ground (arith, n, more, eq)
            | inr (q, eq) ↦ elim (ℕ-cases q) [
              | inl z ↦ ground (arith, n, more, eq, z)
              | inr (k, z) ↦
                  let ih = walk_from-follow_all rounds fuel s behind (suc k) lt in
                  ground (arith, n, more, eq, z, ih)
            ]
          ]
    ]

path_names-last :
    (s : List ℕ) → is_empty (skip_slashes s) ≡ true → map (take 31) (path_names s) ≡ []
path_names-last s e = ap (map (take 31)) (path_names-done s e)

-- walk() up to the last name.
pub walk_from-follow_but_last :
    (rounds fuel : ℕ) (s : Fs) (buffer : List ℕ) (node : ℕ)
    → length buffer < rounds
    → walk_from rounds fuel s true buffer node
      ≡ follow_but_last fuel s node (map (take 31) (path_names buffer))
unfolding walk_from follow_but_last follow_to_last
walk_from-follow_but_last zero fuel s buffer node h = absurd (omega (arith, h))
walk_from-follow_but_last (suc rounds) fuel s buffer node h =
    let here = skip_slashes buffer in
    let behind = skip_component here in
    let name = component 31 here in
    elim (Bool-cases (is_empty here)) [
      | inl e ↦ ground (arith, e, path_names-done buffer e)
      | inr n ↦
          let more = path_names-more buffer n in
          let lt : length behind < rounds = ground (arith, shorter buffer, n, h) in
          elim (Bool-cases (is_empty (skip_slashes behind))) [
            | inl l ↦ ground (arith, n, l, more, path_names-last behind l)
            | inr l ↦
                let again = path_names-more behind l in
                elim (Option-cases (follow fuel s node name)) [
                  | inl eq ↦ ground (arith, n, l, more, again, eq)
                  | inr (q, eq) ↦ elim (ℕ-cases q) [
                    | inl z ↦ ground (arith, n, l, more, again, eq, z)
                    | inr (k, z) ↦
                        let ih = walk_from-follow_but_last rounds fuel s behind (suc k) lt in
                        ground (arith, n, l, more, again, eq, z, ih)
                  ]
                ]
          ]
    ]

-- Where walk() sets out from.
abbrev pub start : Fs → List ℕ → ℕ
start s path = if starts_at_root (take 255 path) then s.root else s.cwd

-- walk() is the specification, on every path that is not empty.
pub walk-follow :
    (fuel : ℕ) (s : Fs) (c : ℕ) (path : List ℕ)
    → (walk fuel s false (c ∷ path)
        ≡ Option.map (λ p. (p, [])) (follow_all fuel s (start s (c ∷ path)) (cut_names (c ∷ path))))
      × (walk fuel s true (c ∷ path)
          ≡ follow_but_last fuel s (start s (c ∷ path)) (cut_names (c ∷ path)))
unfolding walk cut_names
walk-follow fuel s c path =
    let b = take 255 (c ∷ path) in
    (
      walk_from-follow_all (length b + 1) fuel s b _ (omega arith),
      walk_from-follow_but_last (length b + 1) fuel s b _ (omega arith),
    )

pub cut_names_root : cut_names (b'/' ∷ []) ≡ []
unfolding cut_names
cut_names_root = refl
