-- ===== src/Mem/Sums.antt =====
-- Bytes, in total and in use, before and after kmalloc() and kfree() on the list of blocks.
use lightning_os.Prelude.{
  Option-cases, ℕ, ◌+◌, ◌-◌, ◌≤◌, ◌≡◌, refl, ap, ◌∙◌, inl, inr, true, not, ◌||◌, some, List, [],
  ◌∷◌, arith, ltb, ◌==◌, if◌then◌else◌, Bool-cases, ==_refl, ==_false,
}
use lightning_os.Mem.{header_size}
use lightning_os.Mem.Chain.{Piece, total, end_of}
use lightning_os.Mem.Alloc.{carve, first_fit}
use lightning_os.Mem.Free.{join_head, join_tail, join_next, join_prev, freed}
use lightning_os.Mem.Release.{release_behind, release, InUse, InUse-le, in_use}

-- The payload of the block at `x`.
abbrev pub bytes_at : ℕ → ℕ → List Piece → ℕ
bytes_at x a [] = 0
bytes_at x a (b ∷ bs) = if x == a then b.bytes else bytes_at x (end_of a b) bs

-- The total stays, and what the taken block came to is in use besides.
abbrev pub Sums : List Piece → ℕ → List Piece → Type 0
Sums bs more ds = (total ds ≡ total bs) × (in_use ds ≡ in_use bs + more)

carve-Sums :
    (size : ℕ) (b : Piece) (bs : List Piece) (a : ℕ)
    → b.is_free ≡ true
    → size ≤ b.bytes
    → Sums (b ∷ bs) (header_size + bytes_at a a (carve size b bs)) (carve size b bs)
carve-Sums size b bs a f h = elim (Bool-cases (ltb b.bytes (size + header_size + 16))) [
  | inl e ↦ rw (e, ==_refl a, f) (omega arith)
  | inr e ↦ rw (e, ==_refl a, f) (cut (ground arith))
]
  where
    cut :
        size + header_size + 16 ≤ b.bytes
        → (header_size + size + (header_size + (b.bytes - size - header_size) + total bs)
            ≡ header_size + b.bytes + total bs)
          × (header_size + size + (0 + in_use bs) ≡ 0 + in_use bs + (header_size + size))
    cut k = omega arith

-- How a fit was found: here, or further on.
pub data Fit (size a : ℕ) (b : Piece) (bs : List Piece) (x : ℕ) (ds : List Piece) : Type 0 where
  here : b.is_free ≡ true → size ≤ b.bytes → x ≡ a → ds ≡ carve size b bs → Fit size a b bs x ds
  further :
      (es : List Piece)
      → first_fit size (end_of a b) bs ≡ some (x, es)
      → ds ≡ b ∷ es
      → Fit size a b bs x ds

pub first_fit-Fit :
    (size a : ℕ) (b : Piece) (bs : List Piece) (x : ℕ) (ds : List Piece)
    → first_fit size a (b ∷ bs) ≡ some (x, ds)
    → Fit size a b bs x ds
unfolding first_fit
first_fit-Fit size a b bs x ds e = elim (Bool-cases (not b.is_free || ltb b.bytes size)) [
  | inl no_fit ↦ elim (Option-cases (first_fit size (end_of a b) bs)) [
    | inl n ↦ absurd (ground (arith, n))
    | inr (r, s) ↦
        further r.1 (s ∙ ap (λ (y : ℕ). some (y, r.1)) (ground (arith, s))) (ground (arith, s))
  ]
  | inr fits ↦ here (ground arith) (ground arith) (ground arith) (ground arith)
]

carve-InUse : (size a : ℕ) (b : Piece) (bs : List Piece) → InUse a a (carve size b bs)
carve-InUse size a b bs = elim (Bool-cases (ltb b.bytes (size + header_size + 16))) [
  | inl e ↦ rw e (inl (refl, refl))
  | inr e ↦ rw e (inl (refl, refl))
]

pub first_fit-Sums :
    (bs : List Piece) (size a x : ℕ) (ds : List Piece)
    → first_fit size a bs ≡ some (x, ds)
    → (a ≤ x) × Sums bs (header_size + bytes_at x a ds) ds × InUse x a ds
first_fit-Sums [] size a x ds e = absurd (unfold first_fit in cc)
first_fit-Sums (b ∷ bs) size a x ds e = elim (first_fit-Fit size a b bs x ds e) [
  | here f k ex ed ↦ rw (ex, ed) (omega arith, carve-Sums size b bs a f k, carve-InUse size a b bs)
  | further es f ed ↦
      (let r = first_fit-Sums bs size (end_of a b) x es f in
        rw (ed, ==_false x a (omega arith)) (omega arith, omega arith, inr r.2))
]

join_next-Sums : (b : Piece) (bs : List Piece) → Sums (freed b ∷ bs) 0 (join_next (freed b) bs)
join_next-Sums b [] = omega arith
join_next-Sums b (d ∷ bs) = ground arith

join_prev-Sums :
    (q b : Piece) (bs : List Piece) → b.is_free ≡ true → Sums (q ∷ b ∷ bs) 0 (join_prev q (b ∷ bs))
join_prev-Sums q b bs f = ground arith

join_head-is_free : (b : Piece) (bs : List Piece) → (join_head (freed b) bs).is_free ≡ true
join_head-is_free b [] = refl
join_head-is_free b (d ∷ bs) = ground arith

-- Freeing gives back what the block came to.
pub release_behind-Sums :
    (bs : List Piece) (q : Piece) (x a : ℕ)
    → InUse x (end_of a q) bs
    → Sums (release_behind x a (q ∷ bs)) (header_size + bytes_at x (end_of a q) bs) (q ∷ bs)
release_behind-Sums [] q x a u = absurd u
release_behind-Sums (b ∷ bs) q x a (inl u) =
    rw (u.0, ==_refl (end_of a q))
      (ground (
        arith,
        join_prev-Sums q (join_head (freed b) bs) (join_tail bs) (join_head-is_free b bs),
        join_next-Sums b bs,
        u.1,
      ))
release_behind-Sums (b ∷ bs) q x a (inr u) =
    rw (==_false x (end_of a q) (omega (arith, InUse-le bs x (end_of (end_of a q) b) u)))
      (omega (arith, release_behind-Sums bs b x (end_of a q) u))

pub release-Sums :
    (bs : List Piece) (x a : ℕ)
    → InUse x a bs
    → Sums (release x a bs) (header_size + bytes_at x a bs) bs
unfolding release
release-Sums [] x a u = absurd u
release-Sums (b ∷ bs) x a (inl u) = rw (u.0, ==_refl a) (ground (arith, join_next-Sums b bs, u.1))
release-Sums (b ∷ bs) x a (inr u) =
    rw (==_false x a (omega (arith, InUse-le bs x (end_of a b) u))) (release_behind-Sums bs b x a u)
