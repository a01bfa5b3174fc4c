-- ===== src/Mem/Chain.antt =====
-- The heap of kernel/mem.c as a list of blocks that fill a range of addresses without gaps.
use lightning_os.Prelude.{
  if_cases, ℕ, ◌+◌, ◌≤◌, ◌<◌, ◌≡◌, refl, ◌⊎◌, inl, Bool, List, [], ◌∷◌, ◌++◌, arith, ◌==◌,
}
use lightning_os.Mem.{Block, put, relink, header_size, block_magic}

-- A block without its place: how many payload bytes, and whether it is free.
pub record Piece : Type 0 where
  pub bytes : ℕ
  pub is_free : Bool

abbrev pub total : List Piece → ℕ
total [] = 0
total (b ∷ bs) = header_size + b.bytes + total bs

-- Where the list goes on: the address `a` if a block is there, and `t` if none is.
abbrev pub next_of : ℕ → List Piece → ℕ → ℕ
next_of a [] t = t
next_of a (b ∷ bs) t = a

abbrev pub end_of : ℕ → Piece → ℕ
end_of a b = a + (header_size + b.bytes)

abbrev pub header : Piece → ℕ → ℕ → Block
header b next prev = record {
  magic = block_magic;
  size = b.bytes;
  free = b.is_free;
  next = next;
  prev = prev;
}

-- From address `a` on, memory holds the headers of these blocks, one behind the other, linked both
-- ways: `p` stands before the first, and the last links to `t`.
abbrev pub Chain : (ℕ → Block) → ℕ → ℕ → List Piece → ℕ → Type 0
Chain c p a [] t = Unit {0}
Chain c p a (b ∷ bs) t =
    (c a ≡ header b (next_of (end_of a b) bs t) p) × Chain c a (end_of a b) bs t

-- The address of the last block, or `p` if there is none.
abbrev pub last_of : ℕ → ℕ → List Piece → ℕ
last_of p a [] = p
last_of p a (b ∷ bs) = last_of a (end_of a b) bs

-- Where the blocks end.
abbrev pub stop : ℕ → List Piece → ℕ
stop a [] = a
stop a (b ∷ bs) = stop (end_of a b) bs

pub stop-total : (a : ℕ) (bs : List Piece) → stop a bs ≡ a + total bs
stop-total a [] = omega arith
stop-total a (b ∷ bs) = omega (arith, stop-total (end_of a b) bs)

-- A header written outside the range changes nothing in it.
pub Chain-put :
    (bs : List Piece) (c : ℕ → Block) (p a t x : ℕ) (v : Block)
    → (x < a) ⊎ (stop a bs ≤ x)
    → Chain c p a bs t
    → Chain (put c x v) p a bs t
Chain-put [] c p a t x v h k = tt
Chain-put (b ∷ bs) c p a t x v h k = (
  ground (arith, stop-total (end_of a b) bs),
  Chain-put bs c a (end_of a b) t x v (ground arith) k.1,
)

next_of-append :
    (bs ds : List Piece) (a t : ℕ)
    → next_of a (bs ++ ds) t ≡ next_of a bs (next_of (stop a bs) ds t)
next_of-append [] ds a t = refl
next_of-append (b ∷ bs) ds a t = refl

pub Chain-append :
    (bs ds : List Piece) (c : ℕ → Block) (p a t : ℕ)
    → Chain c p a bs (next_of (stop a bs) ds t)
    → Chain c (last_of p a bs) (stop a bs) ds t
    → Chain c p a (bs ++ ds) t
Chain-append [] ds c p a t h k = k
Chain-append (b ∷ bs) ds c p a t h k =
    (rw (next_of-append bs ds (end_of a b) t) h.0, Chain-append bs ds c a (end_of a b) t h.1 k)

pub Chain-split :
    (bs ds : List Piece) (c : ℕ → Block) (p a t : ℕ)
    → Chain c p a (bs ++ ds) t
    → Chain c p a bs (next_of (stop a bs) ds t) × Chain c (last_of p a bs) (stop a bs) ds t
Chain-split [] ds c p a t h = (tt, h)
Chain-split (b ∷ bs) ds c p a t h =
    let r = Chain-split bs ds c a (end_of a b) t h.1 in
    ((rw (next_of-append bs ds (end_of a b) t) at h.0, r.0), r.1)

-- The last block's address lies in the range.
pub last_of_bounds :
    (b : Piece) (bs : List Piece) (p a : ℕ)
    → (a ≤ last_of p a (b ∷ bs)) × (last_of p a (b ∷ bs) + header_size ≤ stop a (b ∷ bs))
last_of_bounds b [] p a = omega arith
last_of_bounds b (d ∷ bs) p a = omega (arith, last_of_bounds d bs a (end_of a b))

-- Another block before the range: only the first header changes.
pub Chain-set_prev :
    (b : Piece) (bs : List Piece) (c : ℕ → Block) (p q a t : ℕ)
    → Chain c p a (b ∷ bs) t
    → Chain (put c a (record (c a) { prev = q })) q a (b ∷ bs) t
Chain-set_prev b bs c p q a t h =
    (ground arith, Chain-put bs c a (end_of a b) t a _ (omega (arith)) h.1)

-- The same, as the code writes it: nothing is done at NULL.
pub Chain-relink :
    (bs : List Piece) (c : ℕ → Block) (p q a : ℕ)
    → 0 < a
    → Chain c p a bs 0
    → Chain (relink c (next_of a bs 0) q) q a bs 0
Chain-relink [] c p q a h k = tt
Chain-relink (b ∷ bs) c p q a h k =
    if_cases (λ c'. Chain c' q a (b ∷ bs) 0) (a == 0) _ _ (λ e. absurd (ground arith))
      λ _. Chain-set_prev b bs c p q a 0 k

-- It writes nothing below `a`.
pub relink_below :
    (bs : List Piece) (c : ℕ → Block) (q a x : ℕ) → x < a → relink c (next_of a bs 0) q x ≡ c x
relink_below [] c q a x h = refl
relink_below (b ∷ bs) c q a x h = ground arith

-- Marking the first block free or in use.
pub Chain-mark :
    (b : Piece) (bs : List Piece) (c : ℕ → Block) (p a t : ℕ) (f : Bool)
    → Chain c p a (b ∷ bs) t
    → Chain (put c a (record (c a) { free = f })) p a (record b { is_free = f } ∷ bs) t
Chain-mark b bs c p a t f h =
    (ground arith, Chain-put bs c a (end_of a b) t a _ (inl (omega arith)) h.1)
