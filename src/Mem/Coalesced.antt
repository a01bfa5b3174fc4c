-- ===== src/Mem/Coalesced.antt =====
-- kfree() of kernel/mem.c leaves no two free blocks side by side, and kmalloc() makes none.
use lightning_os.Prelude.{
  ℕ, ◌+◌, ◌≡◌, refl, inl, inr, Bool, true, false, ◌&&◌, some, List, [], ◌∷◌, arith, ltb, Bool-cases,
  ==_refl, ==_false,
}
use lightning_os.Mem.{header_size}
use lightning_os.Mem.Chain.{Piece, end_of}
use lightning_os.Mem.Alloc.{carve, first_fit}
use lightning_os.Mem.Free.{join_head, join_tail, join_next, join_prev, freed}
use lightning_os.Mem.Release.{release_behind, release, InUse, InUse-le}
use lightning_os.Mem.Sums.{here, further, first_fit-Fit}

-- No two neighbours are free, where the block before is free as `f` says.
abbrev pub After : Bool → List Piece → Type 0
After f [] = Unit {0}
After f (b ∷ bs) = ((f && b.is_free) ≡ false) × After b.is_free bs

abbrev pub IsCoalesced : List Piece → Type 0
IsCoalesced bs = After false bs

After-false : (f : Bool) (bs : List Piece) → After f bs → After false bs
After-false f [] k = tt
After-false f (b ∷ bs) k = (refl, k.1)

carve-After :
    (f : Bool) (size : ℕ) (b : Piece) (bs : List Piece)
    → b.is_free ≡ true
    → After f (b ∷ bs)
    → After f (carve size b bs)
carve-After f size b bs free k = elim (Bool-cases (ltb b.bytes (size + header_size + 16))) [
  | inl e ↦ rw e (not_free f, After-false b.is_free bs k.1)
  | inr e ↦ rw e (not_free f, (refl, rw free at k.1))
]
  where
    not_free : (f : Bool) → (f && false) ≡ false
    not_free true = refl
    not_free false = refl

pub first_fit-After :
    (bs : List Piece) (f : Bool) (size a x : ℕ) (ds : List Piece)
    → first_fit size a bs ≡ some (x, ds)
    → After f bs
    → After f ds
first_fit-After [] f size a x ds e k = absurd (unfold first_fit in cc)
first_fit-After (b ∷ bs) f size a x ds e k = elim (first_fit-Fit size a b bs x ds e) [
  | here free h ex ed ↦ rw ed (carve-After f size b bs free k)
  | further es h ed ↦ rw ed (k.0, first_fit-After bs b.is_free size (end_of a b) x es h k.1)
]

join_tail-After : (bs : List Piece) → After false bs → After true (join_tail bs)
join_tail-After [] k = tt
join_tail-After (d ∷ bs) k = elim (Bool-cases d.is_free) [
  | inl e ↦ rw e (rw e at k.1)
  | inr e ↦ rw e (refl, rw e at k.1)
]

join_head-free : (b : Piece) (bs : List Piece) → (join_head (freed b) bs).is_free ≡ true
join_head-free b [] = refl
join_head-free b (d ∷ bs) = ground arith

join_next-After :
    (b : Piece) (bs : List Piece) → After false bs → After false (join_next (freed b) bs)
join_next-After b bs k = (refl, rw (join_head-free b bs) (join_tail-After bs k))

join_prev-After :
    (f g : Bool) (n : ℕ) (b : Piece) (bs : List Piece)
    → (f && g) ≡ false
    → After false bs
    → After f (join_prev (record { bytes = n; is_free = g }) (join_next (freed b) bs))
join_prev-After f true n b bs e k = (e, join_tail-After bs k)
join_prev-After f false n b bs e k = (e, (refl, rw (join_head-free b bs) (join_tail-After bs k)))

pub release_behind-After :
    (bs : List Piece) (q : Piece) (f : Bool) (x a : ℕ)
    → InUse x (end_of a q) bs
    → After f (q ∷ bs)
    → After f (release_behind x a (q ∷ bs))
release_behind-After [] q f x a u k = absurd u
release_behind-After (b ∷ bs) q f x a (inl u) k =
    rw (u.0, ==_refl (end_of a q))
      (join_prev-After f q.is_free q.bytes b bs k.0 (After-false b.is_free bs k.1.1))
release_behind-After (b ∷ bs) q f x a (inr u) k =
    rw (==_false x (end_of a q) (omega (arith, InUse-le bs x (end_of (end_of a q) b) u)))
      (k.0, release_behind-After bs b q.is_free x (end_of a q) u k.1)

pub release-IsCoalesced :
    (bs : List Piece) (x a : ℕ) → InUse x a bs → IsCoalesced bs → IsCoalesced (release x a bs)
unfolding release
release-IsCoalesced [] x a u k = absurd u
release-IsCoalesced (b ∷ bs) x a (inl u) k =
    rw (u.0, ==_refl a) (join_next-After b bs (After-false b.is_free bs k.1))
release-IsCoalesced (b ∷ bs) x a (inr u) k =
    rw (==_false x a (omega (arith, InUse-le bs x (end_of a b) u)))
      (release_behind-After bs b false x a u k)
