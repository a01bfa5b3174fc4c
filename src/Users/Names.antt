-- ===== src/Users/Names.antt =====
-- Texts of kernel/users.c: names that are cut, and paths below a directory.
use lightning_os.Prelude.{
  ℕ, ◌≡◌, ◌↔◌, refl, ap, ◌∙◌, ◌⊎◌, inl, inr, true, List, [], ◌∷◌, ◌++◌, arith, ==_iff, take,
  take_short, some, sym,
}
use lightning_os.Users.{is_below, valid_name}

-- A valid name is not cut.
pub take-valid_name : (name : List ℕ) → valid_name (some name) ≡ true → take 31 name ≡ name
unfolding valid_name
take-valid_name [] h = refl
take-valid_name (c ∷ cs) h = take_short 31 (c ∷ cs) (ground (arith, h))

-- The path is the directory, or goes on behind it with a slash.
pub IsBelow : List ℕ → List ℕ → Type 0
IsBelow dir path =
    (rest : List ℕ) × ((path ≡ dir ++ rest)
      × ((rest ≡ []) ⊎ ((more : List ℕ) × (rest ≡ b'/' ∷ more))))

pub is_below→IsBelow : (dir path : List ℕ) → is_below dir path ≡ true → IsBelow dir path
unfolding is_below IsBelow
is_below→IsBelow [] [] h = ([], (refl, inl refl))
is_below→IsBelow [] (c ∷ path) h =
    (c ∷ path, (refl, inr (path, ap (λ z. z ∷ path) ((==_iff c b'/').0 h))))
is_below→IsBelow (d ∷ dir) [] h = absurd (ground (arith, h))
is_below→IsBelow (d ∷ dir) (c ∷ path) h =
    let r = is_below→IsBelow dir path (ground (arith, h)) in
    let e : d ≡ c = ground (arith, h) in
    (r.0, (ap (λ z. z ∷ path) (sym e) ∙ ap (λ z. d ∷ z) r.1.0, r.1.1))

is_below-append :
    (dir rest : List ℕ)
    → (rest ≡ []) ⊎ ((more : List ℕ) × (rest ≡ b'/' ∷ more))
    → is_below dir (dir ++ rest) ≡ true
unfolding is_below
is_below-append [] rest (inl e) = rw e refl
is_below-append [] rest (inr (more, e)) = rw e refl
is_below-append (d ∷ dir) rest h = ground (arith, is_below-append dir rest h)

pub is_below_iff : (dir path : List ℕ) → (is_below dir path ≡ true) ↔ IsBelow dir path
unfolding IsBelow
is_below_iff dir path =
    (is_below→IsBelow dir path, λ (rest, (e, h)). ap (is_below dir) e ∙ is_below-append dir rest h)
