-- ===== src/Fs/Walk.antt =====
-- walk() of fs/ramfs.c: it ends, stays in the tree, and follows the components of the path.
use lightning_os.Prelude.{
  ℕ, zero, suc, ◌<◌, ◌≤◌, ◌≡◌, refl, Bool, true, false, ◌&&◌, ◌||◌, List, [], ◌∷◌, ◌⊎◌, inl, inr,
  arith, ◌==◌, length, some, Option, if_cases, is_empty,
}
use lightning_os.Strings.Compare.{text_eq}
use lightning_os.Fs.{Fs, skip_slashes, component, skip_component, follow, walk_from}
use lightning_os.Fs.Names.{IsTree, Suffices, first_named-used}
use lightning_os.Fs.Lookup.{find_child_lem}

length-skip_slashes : (s : List ℕ) → length (skip_slashes s) ≤ length s
unfolding skip_slashes
length-skip_slashes [] = omega arith
length-skip_slashes (c ∷ s) = ground (arith, length-skip_slashes s)

length-skip_component : (s : List ℕ) → length (skip_component s) ≤ length s
unfolding skip_component
length-skip_component [] = omega arith
length-skip_component (c ∷ s) = ground (arith, length-skip_component s)

pub length-component : (n : ℕ) (s : List ℕ) → length (component n s) ≤ n
unfolding component
length-component zero s = omega arith
length-component (suc n) [] = omega arith
length-component (suc n) (c ∷ s) = ground (arith, length-component n s)

-- What stands behind a component is shorter.
pub shorter :
    (s : List ℕ)
    → is_empty (skip_slashes s) ≡ false
    → length (skip_component (skip_slashes s)) < length s
unfolding skip_slashes skip_component
shorter [] h = cc
shorter (c ∷ s) h = ground (arith, shorter s, length-skip_component s)

-- NULL, or a node in use.
abbrev pub IsKnown : (ℕ → Bool) → ℕ → Type 0
IsKnown used p = (p == 0 || used p) ≡ true

pub follow_total :
    (s : Fs) (used : ℕ → Bool) (kids : ℕ → List ℕ) (fuel node : ℕ) (name : List ℕ)
    → IsTree s used kids
    → Suffices fuel used kids
    → used node ≡ true
    → (p : ℕ) × (follow fuel s node name ≡ some p) × IsKnown used p
unfolding follow
follow_total s used kids fuel node name t f u =
    let k = first_named-used (kids node) s.node used node name (t.up node u) in
    let up = t.above node u in
    let r = t.root in
    let e = find_child_lem s used kids fuel node name t f u in
    if_cases (λ o. (p : ℕ) × (o ≡ some p) × IsKnown used p) (text_eq name (b'.' ∷ [])) _ _
      (λ d. (node, refl, ground (arith, u)))
      (λ d.
        if_cases (λ o. (p : ℕ) × (o ≡ some p) × IsKnown used p) (text_eq name (b'.' ∷ b'.' ∷ [])) _
          _ (λ d. (_, refl, ground (arith, up, r))) (λ d. (_, e, ground (arith, k))))

pub ℕ-cases : (p : ℕ) → (p ≡ 0) ⊎ ((n : ℕ) × (p ≡ suc n))
ℕ-cases zero = inl refl
ℕ-cases (suc n) = inr (n, refl)

pub walk_from_total :
    (s : Fs) (used : ℕ → Bool) (kids : ℕ → List ℕ) (rounds fuel : ℕ) (stop : Bool) (buffer : List ℕ)
    (node : ℕ)
    → IsTree s used kids
    → Suffices fuel used kids
    → length buffer < rounds
    → used node ≡ true
    → (p : ℕ) × (last : List ℕ) × (walk_from rounds fuel s stop buffer node ≡ some (p, last))
      × IsKnown used p
      × (length last ≤ 31)
unfolding walk_from
walk_from_total s used kids zero fuel stop buffer node t f r u = absurd (omega (arith, r))
walk_from_total s used kids (suc rounds) fuel stop buffer node t f r u =
    let P : Option (ℕ × List ℕ) → Type 0 =
      λ o. (p : ℕ) × (last : List ℕ) × (o ≡ some (p, last)) × IsKnown used p × (length last ≤ 31) in
    let here = skip_slashes buffer in
    let behind = skip_component here in
    let name = component 31 here in
    if_cases P (is_empty here) _ _ (λ e. (node, [], refl, ground (arith, u), omega arith))
      (λ e.
        if_cases P (stop && is_empty (skip_slashes behind)) _ _
          (λ g. (node, name, refl, ground (arith, u), length-component 31 here))
          (λ g.
            let (q, eq, k) = follow_total s used kids fuel node name t f u in
            elim (ℕ-cases q) [
              | inl z ↦ (0, [], rw (eq, z) refl, refl, omega arith)
              | inr (n, z) ↦
                  let un : used (suc n) ≡ true = ground (arith, k, z) in
                  let ih =
                    walk_from_total s used kids rounds fuel stop behind (suc n) t f
                      (ground (arith, shorter buffer, e, r)) un in
                  (ih.0, ih.1, rw (eq, z) ih.2, ih.3, ih.4)
            ]))
