-- ===== src/Fs/PathNames/Append.antt =====
-- A path of fs/ramfs.c, cut at its last slash: the directory, and the name in it.
use lightning_os.Prelude.{
  ℕ, suc, ◌≡◌, ◌≢◌, refl, Bool, true, false, List, [], ◌∷◌, ◌++◌, inl, inr, arith, ◌==◌,
  if◌then◌else◌, Bool-cases, Option-cases, some,
}
use lightning_os.Fs.{Fs, skip_component, follow}
use lightning_os.Fs.Walk.{ℕ-cases}
use lightning_os.Fs.PathNames.{
  ends_name, in_front, path_names, path_names-word, word, follow_all, follow_to_last,
  follow_but_last,
}

ends_name-append : (xs ys : List ℕ) → ends_name (xs ++ b'/' ∷ ys) ≡ ends_name xs
unfolding ends_name
ends_name-append [] ys = refl
ends_name-append (x ∷ xs) ys = refl

first_name :
    (xs : List ℕ)
    → ends_name xs ≡ false
    → (w : List ℕ) × (ws : List (List ℕ)) × (path_names xs ≡ w ∷ ws)
unfolding ends_name
first_name [] h = absurd (ground (arith, h))
first_name (c ∷ s) h = (word (c ∷ s), path_names (skip_component (c ∷ s)), path_names-word s c h)

in_front-append :
    (c : ℕ) (w : List ℕ) (ws more names : List (List ℕ))
    → names ≡ w ∷ ws
    → in_front c (names ++ more) ≡ in_front c names ++ more
unfolding in_front
in_front-append c w ws more names e = rw e refl

pub path_names-append :
    (xs ys : List ℕ) → path_names (xs ++ b'/' ∷ ys) ≡ path_names xs ++ path_names ys
unfolding path_names
path_names-append [] ys = refl
path_names-append (c ∷ xs) ys =
    let ih = path_names-append xs ys in
    let ends = ends_name-append xs ys in
    elim (Bool-cases (c == b'/')) [
      | inl e ↦ ground (arith, e, ih)
      | inr n ↦ elim (Bool-cases (ends_name xs)) [
        | inl l ↦ ground (arith, n, ends, l, ih)
        | inr l ↦
            let (w, ws, q) = first_name xs l in
            let front = in_front-append c w ws (path_names ys) (path_names xs) q in
            ground (arith, n, ends, l, ih, front)
      ]
    ]

-- No slash.
unfoldable pub slashless : List ℕ → Bool
slashless [] = true
slashless (c ∷ s) = if c == b'/' then false else slashless s

pub path_names-slashless :
    (c : ℕ) (s : List ℕ) → slashless (c ∷ s) ≡ true → path_names (c ∷ s) ≡ (c ∷ s) ∷ []
unfolding path_names slashless ends_name in_front
path_names-slashless c [] h = ground (arith, h)
path_names-slashless c (d ∷ s) h =
    let n : (c == b'/') ≡ false = ground (arith, h) in
    let m : (d == b'/') ≡ false = ground (arith, h, n) in
    let ih = path_names-slashless d s (ground (arith, h, n)) in ground (arith, n, m, ih)

follow_to_last-follow_all :
    (fuel : ℕ) (s : Fs) (node p : ℕ) (m : List ℕ) (ms : List (List ℕ)) (n : List ℕ)
    → p ≢ 0
    → follow_all fuel s node (m ∷ ms) ≡ some p
    → follow_to_last fuel s node m (ms ++ n ∷ []) ≡ some (p, n)
unfolding follow_all follow_to_last
follow_to_last-follow_all fuel s node p m [] n z h = ground (arith, z, h)
follow_to_last-follow_all fuel s node p m (k ∷ ms) n z h =
    elim (Option-cases (follow fuel s node m)) [
      | inl e ↦ absurd (ground (arith, e, h))
      | inr (q, e) ↦ elim (ℕ-cases q) [
        | inl o ↦ absurd (ground (arith, e, o, h, z))
        | inr (r, o) ↦
            let on : follow_all fuel s (suc r) (k ∷ ms) ≡ some p = ground (arith, e, o, h) in
            let ih = follow_to_last-follow_all fuel s (suc r) p k ms n z on in
            ground (arith, e, o, ih)
      ]
    ]

-- Where all names lead to a node, all but one more lead to it too.
pub follow_but_last-follow_all :
    (fuel : ℕ) (s : Fs) (node p : ℕ) (names : List (List ℕ)) (n : List ℕ)
    → p ≢ 0
    → follow_all fuel s node names ≡ some p
    → follow_but_last fuel s node (names ++ n ∷ []) ≡ some (p, n)
unfolding follow_all follow_but_last follow_to_last
follow_but_last-follow_all fuel s node p [] n z h = ground (arith, h)
follow_but_last-follow_all fuel s node p (m ∷ ms) n z h =
    follow_to_last-follow_all fuel s node p m ms n z h
