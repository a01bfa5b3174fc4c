-- ===== src/Fs/Names.antt =====
-- fs/ramfs.c: the shape of the tree in memory, with the names in each directory distinct.
use lightning_os.Prelude.{
  ℕ, ◌<◌, ◌≡◌, ◌≢◌, refl, sym, ap, Bool, true, false, ◌||◌, List, [], ◌∷◌, ◌++◌, ◌⊎◌, inl, inr,
  arith, ◌==◌, if◌then◌else◌, length, Bool-cases, ◌∙◌,
}
use lightning_os.Strings.Compare.{text_eq, text_eq_iff}
use lightning_os.Fs.{Store, Fs}
use lightning_os.Fs.Chain.{Chain, Absent, AllDistinct, first_named}

-- Each node of a list is in use and points up to the directory.
abbrev pub AllUp : Store → (ℕ → Bool) → ℕ → List ℕ → Type 0
AllUp c used dir [] = Unit {0}
AllUp c used dir (x ∷ xs) = ((c x).parent ≡ dir) × (used x ≡ true) × AllUp c used dir xs

abbrev pub AllNonzero : List ℕ → Type 0
AllNonzero [] = Unit {0}
AllNonzero (x ∷ xs) = (0 < x) × AllNonzero xs

pub Chain-AllNonzero : (xs : List ℕ) (c : Store) (p : ℕ) → Chain c p xs → AllNonzero xs
Chain-AllNonzero [] c p h = tt
Chain-AllNonzero (x ∷ xs) c p h = (h.1, Chain-AllNonzero xs c (c x).next h.2)

-- No name of a list stands twice on it.
abbrev pub NamesDistinct : Store → List ℕ → Type 0
NamesDistinct c [] = Unit {0}
NamesDistinct c (x ∷ xs) = (first_named c (c x).name xs ≡ 0) × NamesDistinct c xs

-- The nodes in use form a tree: `kids` lists the children of each.
pub record IsTree (s : Fs) (used : ℕ → Bool) (kids : ℕ → List ℕ) : Type 0 where
  pub null : used 0 ≡ false
  pub root : used s.root ≡ true
  pub cwd : used s.cwd ≡ true
  pub above : (x : ℕ) → used x ≡ true → ((s.node x).parent == 0 || used (s.node x).parent) ≡ true
  pub chain : (d : ℕ) → used d ≡ true → Chain s.node (s.node d).children (kids d)
  pub up : (d : ℕ) → used d ≡ true → AllUp s.node used d (kids d)
  pub distinct : (d : ℕ) → used d ≡ true → AllDistinct (kids d)
  pub names : (d : ℕ) → used d ≡ true → NamesDistinct s.node (kids d)

-- Enough rounds for the list of every directory.
abbrev pub Suffices : ℕ → (ℕ → Bool) → (ℕ → List ℕ) → Type 0
Suffices fuel used kids = (d : ℕ) → used d ≡ true → length (kids d) < fuel

pub AllUp-Absent :
    (xs : List ℕ) (c : Store) (used : ℕ → Bool) (dir q : ℕ)
    → used q ≡ false
    → AllUp c used dir xs
    → Absent q xs
AllUp-Absent [] c used dir q n h = tt
AllUp-Absent (x ∷ xs) c used dir q n h =
    (λ e. cc (h.1, ap used e, n), AllUp-Absent xs c used dir q n h.2)

AllUp-ne :
    (xs : List ℕ) (c : Store) (used : ℕ → Bool) (dir q : ℕ)
    → (c q).parent ≢ dir
    → AllUp c used dir xs
    → Absent q xs
AllUp-ne [] c used dir q n h = tt
AllUp-ne (x ∷ xs) c used dir q n h =
    (λ e. n (ap (λ z. (c z).parent) (sym e) ∙ h.0), AllUp-ne xs c used dir q n h.2)

-- The lists of two directories share no node.
pub AllUp-apart :
    (xs ys : List ℕ) (c : Store) (used : ℕ → Bool) (d e : ℕ)
    → d ≢ e
    → AllUp c used d xs
    → AllUp c used e ys
    → (q : ℕ) → Absent q xs ⊎ Absent q ys
AllUp-apart xs ys c used d e ne h k q = elim (Bool-cases ((c q).parent == d)) [
  | inl p ↦ inr (AllUp-ne ys c used e q (λ r. ne (ground (arith, p, r))) k)
  | inr p ↦ inl (AllUp-ne xs c used d q (λ r. ground (arith, p, r)) h)
]

-- A lookup finds NULL or a node in use, and reads only the names.
pub first_named-used :
    (xs : List ℕ) (c : Store) (used : ℕ → Bool) (dir : ℕ) (name : List ℕ)
    → AllUp c used dir xs
    → (first_named c name xs == 0 || used (first_named c name xs)) ≡ true
first_named-used [] c used dir name h = refl
first_named-used (x ∷ xs) c used dir name h =
    ground (arith, first_named-used xs c used dir name h.2, h.1)

pub first_named-same :
    (xs : List ℕ) (c d : Store) (name : List ℕ)
    → ((x : ℕ) → Absent x xs ⊎ ((d x).name ≡ (c x).name))
    → first_named d name xs ≡ first_named c name xs
first_named-same [] c d name same = refl
first_named-same (x ∷ xs) c d name same =
    let ih =
      first_named-same xs c d name (λ y. elim (same y) [ inl a ↦ inl a.1 | inr e ↦ inr e ]) in
    elim (same x) [ inl a ↦ absurd (a.0 refl) | inr e ↦ rw (e, ih) refl ]

pub NamesDistinct-same :
    (xs : List ℕ) (c d : Store)
    → ((x : ℕ) → Absent x xs ⊎ ((d x).name ≡ (c x).name))
    → NamesDistinct c xs
    → NamesDistinct d xs
NamesDistinct-same [] c d same h = tt
NamesDistinct-same (x ∷ xs) c d same h =
    let off : (y : ℕ) → Absent y xs ⊎ ((d y).name ≡ (c y).name) =
      λ y. elim (same y) [ inl a ↦ inl a.1 | inr e ↦ inr e ] in
    elim (same x) [
      | inl a ↦ absurd (a.0 refl)
      | inr e ↦ (
        first_named-same xs c d (d x).name off ∙ ap (λ z. first_named c z xs) e ∙ h.0,
        NamesDistinct-same xs c d off h.1,
      )
    ]

pub text_eq-swap : (a b : List ℕ) → text_eq a b ≡ false → text_eq b a ≡ false
text_eq-swap a b e = elim (Bool-cases (text_eq b a)) [
  | inl t ↦ absurd (cc (e, (text_eq_iff a b).1 (sym ((text_eq_iff b a).0 t))))
  | inr f ↦ f
]

pub first_named-append :
    (xs : List ℕ) (c : Store) (name : List ℕ) (q : ℕ)
    → first_named c name xs ≡ 0
    → AllNonzero xs
    → first_named c name (xs ++ q ∷ []) ≡ (if text_eq (c q).name name then q else 0)
first_named-append [] c name q h n = refl
first_named-append (x ∷ xs) c name q h n = ground (arith, first_named-append xs c name q, n.0)

pub first_named-kept :
    (xs : List ℕ) (c : Store) (name : List ℕ) (q : ℕ)
    → first_named c name xs ≢ 0
    → first_named c name (xs ++ q ∷ []) ≡ first_named c name xs
first_named-kept [] c name q h = absurd (h refl)
first_named-kept (x ∷ xs) c name q h = ground (arith, first_named-kept xs c name q)

-- A name that is not on a list goes behind it.
pub NamesDistinct-append :
    (xs : List ℕ) (c : Store) (q : ℕ)
    → NamesDistinct c xs
    → AllNonzero xs
    → first_named c (c q).name xs ≡ 0
    → NamesDistinct c (xs ++ q ∷ [])
NamesDistinct-append [] c q h n e = (refl, tt)
NamesDistinct-append (x ∷ xs) c q h n e =
    let ne : text_eq (c x).name (c q).name ≡ false = ground (arith, e, n.0) in
    let en : text_eq (c q).name (c x).name ≡ false = text_eq-swap (c x).name (c q).name ne in
    let ih = NamesDistinct-append xs c q h.1 n.1 (ground (arith, e, ne)) in
    (first_named-append xs c (c x).name q h.0 n.1 ∙ rw en refl, ih)
