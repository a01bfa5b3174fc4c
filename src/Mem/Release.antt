-- ===== src/Mem/Release.antt =====
-- Freeing any block of the list: where it stands, and what it leaves.
use lightning_os.Prelude.{
  ==_refl, ==_false, ℕ, ◌+◌, ◌≤◌, ◌<◌, ◌≡◌, refl, ap, ◌∙◌, sym, ◌⊎◌, inl, inr, false, List, [], ◌∷◌,
  arith, ◌==◌, if◌then◌else◌, if_cases,
}
use lightning_os.Mem.{Block, header_size, block_magic}
use lightning_os.Mem.Chain.{Piece, next_of, end_of, header, Chain}
use lightning_os.Mem.Free.{
  join_next, join_prev, freed, free_cells, free_first, free_behind-Chain, free_behind_below,
}

-- The blocks after the one at `x` is freed, where `x` is not the first.
abbrev pub release_behind : ℕ → ℕ → List Piece → List Piece
release_behind x a [] = []
release_behind x a (q ∷ []) = q ∷ []
release_behind x a (q ∷ b ∷ bs) =
    if x == end_of a q
    then join_prev q (join_next (freed b) bs)
    else q ∷ release_behind x (end_of a q) (b ∷ bs)

unfoldable pub release : ℕ → ℕ → List Piece → List Piece
release x a [] = []
release x a (b ∷ bs) = if x == a then join_next (freed b) bs else release_behind x a (b ∷ bs)

-- A block in use stands at `x`.
abbrev pub InUse : ℕ → ℕ → List Piece → Type 0
InUse x a [] = ⊥
InUse x a (b ∷ bs) = (x ≡ a) × (b.is_free ≡ false) ⊎ InUse x (end_of a b) bs

pub InUse-le : (bs : List Piece) (x a : ℕ) → InUse x a bs → a ≤ x
InUse-le [] x a u = absurd u
InUse-le (b ∷ bs) x a (inl u) = omega arith
InUse-le (b ∷ bs) x a (inr u) = omega (arith, InUse-le bs x (end_of a b) u)

next_of-release_behind :
    (x a : ℕ) (q : Piece) (bs : List Piece) → next_of a (release_behind x a (q ∷ bs)) 0 ≡ a
next_of-release_behind x a q [] = refl
next_of-release_behind x a q (b ∷ bs) = ground arith

release_behind-Chain :
    (bs : List Piece) (q : Piece) (c : ℕ → Block) (p a x : ℕ)
    → 0 < a
    → Chain c p a (q ∷ bs) 0
    → InUse x (end_of a q) bs
    → Chain (free_cells c x) p a (release_behind x a (q ∷ bs)) 0
      × ((y : ℕ) → y < a → free_cells c x y ≡ c y)
release_behind-Chain [] q c p a x pos h u = absurd u
release_behind-Chain (b ∷ bs) q c p a x pos h (inl u) =
    rw (u.0, ==_refl (end_of a q))
      (free_behind-Chain c p a q b bs pos h, free_behind_below c p a q b bs pos h)
release_behind-Chain (b ∷ bs) q c p a x pos h (inr u) =
    let r = release_behind-Chain bs b c a (end_of a q) x (omega arith) h.1 u in
    rw (other) (
      (
        r.1 a (omega arith)
            ∙ h.0
            ∙ ap (λ n. header q n p) (sym (next_of-release_behind x (end_of a q) b bs)),
        r.0,
      ),
      λ y l. r.1 y (omega arith),
    )
  where
    other : (x == end_of a q) ≡ false
    other = ==_false x (end_of a q) (omega (arith, InUse-le bs x (end_of (end_of a q) b) u))

-- Freeing a block in use on a chain with no predecessor keeps it a chain.
pub release-Chain :
    (bs : List Piece) (c : ℕ → Block) (a x : ℕ)
    → 0 < a
    → Chain c 0 a bs 0
    → InUse x a bs
    → Chain (free_cells c x) 0 a (release x a bs) 0
unfolding release
release-Chain [] c a x pos h u = absurd u
release-Chain (b ∷ bs) c a x pos h (inl u) = rw (u.0, ==_refl a) (free_first c a b bs pos h)
release-Chain (b ∷ bs) c a x pos h (inr u) = rw other (release_behind-Chain bs b c 0 a x pos h u).0
  where
    other : (x == a) ≡ false
    other = ==_false x a (omega (arith, InUse-le bs x (end_of a b) u))

pub next_of-release : (bs : List Piece) (x a : ℕ) → next_of a (release x a bs) 0 ≡ next_of a bs 0
unfolding release
next_of-release [] x a = refl
next_of-release (b ∷ bs) x a =
    if_cases (λ ds. next_of a ds 0 ≡ a) (x == a) _ (release_behind x a (b ∷ bs)) (λ _. refl)
      λ _. next_of-release_behind x a b bs

-- The header of a block in use.
pub InUse-header :
    (bs : List Piece) (c : ℕ → Block) (p a x : ℕ)
    → Chain c p a bs 0
    → InUse x a bs
    → ((c x).magic ≡ block_magic) × ((c x).free ≡ false)
InUse-header [] c p a x h u = absurd u
InUse-header (b ∷ bs) c p a x h (inl u) = rw (u.0, h.0, u.1) (refl, refl)
InUse-header (b ∷ bs) c p a x h (inr u) = InUse-header bs c a (end_of a b) x h.1 u

-- The bytes in use, headers included.
abbrev pub in_use : List Piece → ℕ
in_use [] = 0
in_use (b ∷ bs) = (if b.is_free then 0 else header_size + b.bytes) + in_use bs
