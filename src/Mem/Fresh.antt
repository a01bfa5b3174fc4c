-- ===== src/Mem/Fresh.antt =====
-- What kmalloc() of kernel/mem.c hands out: enough bytes, apart from every other block in use.
use lightning_os.Prelude.{
  ltb-false, ℕ, ◌+◌, ◌-◌, ◌^◌, ◌≤◌, ◌<◌, ◌≡◌, refl, ◌∙◌, sym, ◌≢◌, ◌⊎◌, inl, inr, true, some, List,
  [], ◌∷◌, arith, ltb, ◌==◌, Bool-cases, ==_refl, ==_false, Option-cases,
}
use lightning_os.Mem.{header_size, heap_base, align8}
use native.Mathlib.Decide.{dec_lt}
use lightning_os.Mem.Chain.{total, Piece, end_of}
use lightning_os.Mem.Alloc.{carve, first_fit}
use lightning_os.Mem.Release.{InUse, InUse-le}
use lightning_os.Mem.Sums.{bytes_at, here, further, first_fit-Fit, first_fit-Sums}
use lightning_os.Mem.Heap.{malloc}

-- Two blocks in use do not overlap, headers included.
pub InUse-apart :
    (bs : List Piece) (x y a : ℕ)
    → InUse x a bs
    → InUse y a bs
    → x < y
    → x + header_size + bytes_at x a bs ≤ y
InUse-apart [] x y a u v l = absurd u
InUse-apart (b ∷ bs) x y a (inl u) (inl v) l = absurd (omega arith)
InUse-apart (b ∷ bs) x y a (inl u) (inr v) l =
    rw (u.0, ==_refl a) (omega (arith, InUse-le bs y (end_of a b) v))
InUse-apart (b ∷ bs) x y a (inr u) (inl v) l = absurd (omega (arith, InUse-le bs x (end_of a b) u))
InUse-apart (b ∷ bs) x y a (inr u) (inr v) l =
    rw (==_false x a (omega (arith, InUse-le bs x (end_of a b) u)))
      (InUse-apart bs x y (end_of a b) u v l)

-- A block in use before the call: still in use, of the same size, and not the new one.
abbrev Kept : ℕ → ℕ → ℕ → List Piece → List Piece → Type 0
Kept x y a bs ds = InUse y a ds × (bytes_at y a ds ≡ bytes_at y a bs) × (y ≢ x)

carve-Kept :
    (bs : List Piece) (size y a : ℕ) (b : Piece)
    → b.is_free ≡ true
    → size ≤ b.bytes
    → InUse y a (b ∷ bs)
    → Kept a y a (b ∷ bs) (carve size b bs)
carve-Kept bs size y a b free fits (inl u) = absurd (cc (sym u.1 ∙ free))
carve-Kept bs size y a b free fits (inr u) =
    elim (Bool-cases (ltb b.bytes (size + header_size + 16))) [
      | inl e ↦ rw (e, ==_false y a beyond) (inr u, refl, λ h. omega (arith, beyond))
      | inr e ↦
          let join : a + (header_size + size) + (header_size + (b.bytes - size - header_size))
              ≡ end_of a b =
            omega (arith, ltb-false _ _ e) in
          rw
            (
              e,
              join,
              ==_false y a beyond,
              ==_false y (a + (header_size + size))
                  (omega (arith, ltb-false _ _ e, InUse-le bs y (end_of a b) u)),
            )
            (inr (inr u), refl, λ h. omega (arith, beyond))
    ]
  where
    beyond : a < y
    beyond = omega (arith, InUse-le bs y (end_of a b) u)

first_fit-Kept :
    (bs : List Piece) (size y a x : ℕ) (ds : List Piece)
    → first_fit size a bs ≡ some (x, ds)
    → InUse y a bs
    → Kept x y a bs ds
first_fit-Kept [] size y a x ds e u = absurd u
first_fit-Kept (b ∷ bs) size y a x ds e u = elim (first_fit-Fit size a b bs x ds e) [
  | here free h ex ed ↦ rw (ex, ed) (carve-Kept bs size y a b free h u)
  | further es h ed ↦ rw ed (behind es h u (first_fit-Kept bs size y (end_of a b) x es h))
]
  where
    behind :
        (es : List Piece)
        → first_fit size (end_of a b) bs ≡ some (x, es)
        → InUse y a (b ∷ bs)
        → (InUse y (end_of a b) bs → Kept x y (end_of a b) bs es)
        → Kept x y a (b ∷ bs) (b ∷ es)
    behind es h (inl v) k =
        (inl v, rw (v.0, ==_refl a), λ q. omega (arith, first_fit-Sums bs size (end_of a b) x es h))
    behind es h (inr v) k =
        rw (==_false y a (omega (arith, InUse-le bs y (end_of a b) v)))
          (inr (k v).0, (k v).1, (k v).2)

carve-le :
    (size a : ℕ) (b : Piece) (bs : List Piece)
    → size ≤ b.bytes
    → size ≤ bytes_at a a (carve size b bs)
carve-le size a b bs h = elim (Bool-cases (ltb b.bytes (size + header_size + 16))) [
  | inl e ↦ rw (e, ==_refl a) h
  | inr e ↦ rw (e, ==_refl a) (omega arith)
]

first_fit-le :
    (bs : List Piece) (size a x : ℕ) (ds : List Piece)
    → first_fit size a bs ≡ some (x, ds)
    → size ≤ bytes_at x a ds
first_fit-le [] size a x ds e = absurd (unfold first_fit in cc)
first_fit-le (b ∷ bs) size a x ds e = elim (first_fit-Fit size a b bs x ds e) [
  | here free h ex ed ↦ rw (ex, ed) (carve-le size a b bs h)
  | further es h ed ↦
      rw (ed, ==_false x a (omega (arith, first_fit-Sums bs size (end_of a b) x es h)))
        (first_fit-le bs size (end_of a b) x es h)
]

InUse-inside :
    (bs : List Piece) (x a : ℕ) → InUse x a bs → x + header_size + bytes_at x a bs ≤ a + total bs
InUse-inside [] x a u = absurd u
InUse-inside (b ∷ bs) x a (inl u) = rw (u.0, ==_refl a) (omega arith)
InUse-inside (b ∷ bs) x a (inr u) =
    rw (==_false x a (omega (arith, InUse-le bs x (end_of a b) u)))
      (omega (arith, InUse-inside bs x (end_of a b) u))

-- The block at `x` is apart from what the client held before.
pub record IsFresh (x size : ℕ) (bs ds : List Piece) : Type 0 where
  pub used : InUse x heap_base ds
  pub enough : size ≤ bytes_at x heap_base ds
  pub inside : x + header_size + bytes_at x heap_base ds ≤ heap_base + total ds
  pub kept :
      (y : ℕ)
      → InUse y heap_base bs
      → InUse y heap_base ds
        × (bytes_at y heap_base ds ≡ bytes_at y heap_base bs)
        × ((y + header_size + bytes_at y heap_base ds ≤ x)
            ⊎ (x + header_size + bytes_at x heap_base ds ≤ y))

Kept-apart :
    (bs ds : List Piece) (x y : ℕ)
    → InUse x heap_base ds
    → Kept x y heap_base bs ds
    → InUse y heap_base ds
      × (bytes_at y heap_base ds ≡ bytes_at y heap_base bs)
      × ((y + header_size + bytes_at y heap_base ds ≤ x)
          ⊎ (x + header_size + bytes_at x heap_base ds ≤ y))
Kept-apart bs ds x y u (v, same, ne) = (
  v,
  same,
  elim (dec_lt y x) [
    | yes l ↦ inl (InUse-apart ds y x heap_base v u l)
    | no l ↦ inr (InUse-apart ds x y heap_base u v (omega arith))
  ],
)

-- A pointer that kmalloc() returns for a size which its rounding does not overflow stands behind a
-- block in use of at least that size, inside the heap, and apart from every block that was in use
-- before, all of which keep their place and size.
pub malloc-IsFresh :
    (bs : List Piece) (size : ℕ)
    → size + 7 < 2 ^ 32
    → (malloc bs size).0 ≢ 0
    → (x : ℕ) × ((malloc bs size).0 ≡ x + header_size) × IsFresh x size bs (malloc bs size).1
unfolding malloc
malloc-IsFresh bs size small ok = elim (Bool-cases (size == 0)) [
  | inl e ↦ absurd (ok (rw e))
  | inr e ↦ elim (Option-cases (first_fit (align8 size) heap_base bs)) [
    | inl n ↦ absurd (ok (rw (e, n)))
    | inr (r, s) ↦ (
      r.0,
      rw (e, s),
      rw (e, s)
          (record {
            used = (first_fit-Sums bs (align8 size) heap_base r.0 r.1 s).2;
            enough = omega (arith, first_fit-le bs (align8 size) heap_base r.0 r.1 s);
            inside =
                InUse-inside r.1 r.0 heap_base
                  (first_fit-Sums bs (align8 size) heap_base r.0 r.1 s).2;
            kept = λ y u.
                Kept-apart bs r.1 r.0 y (first_fit-Sums bs (align8 size) heap_base r.0 r.1 s).2
                  (first_fit-Kept bs (align8 size) y heap_base r.0 r.1 s u);
          }),
    )
  ]
]
