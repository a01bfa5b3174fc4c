-- ===== src/Mem/Alloc.antt =====
-- kmalloc() of kernel/mem.c against first fit on the list of blocks.
use mathlib.Core.Option
use mathlib.Core.Path.{subst}
use lightning_os.Prelude.{
  ℕ, zero, suc, ◌+◌, ◌-◌, ◌^◌, ◌≤◌, ◌<◌, ◌≡◌, refl, ap, ◌∙◌, sym, inl, inr, true, false, not, ◌||◌,
  Option, some, none, List, [], ◌∷◌, arith, ltb, if◌then◌else◌, Bool-cases, length,
}
use lightning_os.Mem.{
  Block, put, relink, header_size, insert_rest, split_block, take_cells, find_block, block_magic,
}
use lightning_os.Mem.Chain.{
  Chain-mark, Piece, total, next_of, end_of, header, Chain, Chain-put, Chain-relink, relink_below,
}

-- What is left of a block from which `size` bytes are taken.
abbrev pub carve : ℕ → Piece → List Piece → List Piece
carve size b bs =
    if ltb b.bytes (size + header_size + 16)
    then record b { is_free = false } ∷ bs
    else record { bytes = size; is_free = false }
      ∷ record { bytes = b.bytes - size - header_size; is_free = true }
      ∷ bs

-- First fit: the address of the block that is taken, and the blocks afterwards.
unfoldable pub first_fit : ℕ → ℕ → List Piece → Option (ℕ × List Piece)
first_fit size a [] = none
first_fit size a (b ∷ bs) =
    if not b.is_free || ltb b.bytes size
    then Option.map (λ r. (r.0, b ∷ r.1)) (first_fit size (end_of a b) bs)
    else some (a, carve size b bs)

-- The memory that insert_rest() leaves, `n` being the block's old successor.
abbrev inserted : (ℕ → Block) → ℕ → ℕ → ℕ → ℕ → ℕ → Block
inserted c a r size n =
    let c₂ =
      relink
        (put c r (record {
          magic = block_magic;
          size = (c a).size - size - header_size;
          free = true;
          next = n;
          prev = a;
        }))
        n r in
    put c₂ a (record (c₂ a) { next = r; size = size })

insert_rest-inserted :
    (c : ℕ → Block) (a r size n : ℕ)
    → (c a).next ≡ n
    → insert_rest c a r size ≡ inserted c a r size n
unfolding insert_rest
insert_rest-inserted c a r size n e = ap (inserted c a r size) e

module _ (c : ℕ → Block) (p a size r : ℕ) (b : Piece) (bs : List Piece) (pos : 0 < a)
    (er : r ≡ a + (header_size + size)) (room : size + header_size + 16 ≤ b.bytes)
    (h : Chain c p a (b ∷ bs) 0) where
  c₁ : ℕ → Block
  c₁ = put c r (record {
    magic = block_magic;
    size = (c a).size - size - header_size;
    free = true;
    next = next_of (end_of a b) bs 0;
    prev = a;
  })

  c₂ : ℕ → Block
  unfolding c₁
  c₂ = relink c₁ (next_of (end_of a b) bs 0) r

  c₂_low : (x : ℕ) → x < r → c₂ x ≡ c x
  unfolding c₂
  c₂_low x l = relink_below bs c₁ r (end_of a b) x (omega arith) ∙ ground arith

  c₂_rest : c₂ r ≡ c₁ r
  unfolding c₂
  c₂_rest = relink_below bs c₁ r (end_of a b) r (omega arith)

  abbrev cut_pieces : List Piece
  cut_pieces =
      record { bytes = size; is_free = b.is_free }
      ∷ record { bytes = b.bytes - size - header_size; is_free = true }
      ∷ bs

  inserted-Chain : Chain (inserted c a r size (next_of (end_of a b) bs 0)) p a cut_pieces 0
  unfolding c₂
  inserted-Chain =
      let join : r + (header_size + (b.bytes - size - header_size)) ≡ end_of a b = omega arith in
      rw (← er, join)
        (
          ground (arith, c₂_low a (omega arith), h.0),
          (
            ground (arith, c₂_rest, h.0),
            Chain-put bs c₂ r (end_of a b) 0 a _ (inl (omega arith)) (
                Chain-relink bs c₁ a r (end_of a b) (omega arith)
                  (Chain-put bs c a (end_of a b) 0 r _ (inl (omega arith)) h.1)),
          ),
        )

  is_inserted : insert_rest c a r size ≡ inserted c a r size (next_of (end_of a b) bs 0)
  is_inserted = insert_rest-inserted c a r size _ (ap (λ (k : Block). k.next) h.0)

  insert_rest-Chain : Chain (insert_rest c a r size) p a cut_pieces 0
  insert_rest-Chain = subst (λ c'. Chain c' p a cut_pieces 0) (sym is_inserted) inserted-Chain

  -- It writes nothing below the block.
  insert_rest_below : (x : ℕ) → x < a → insert_rest c a r size x ≡ c x
  unfolding c₂
  insert_rest_below x l =
      ap (λ (f : ℕ → Block). f x) is_inserted ∙ ground (arith, c₂_low x (omega arith))

-- The blocks that kmalloc() handles are below 2 ^ 31 bytes, so its sums do not wrap.
module _ (c : ℕ → Block) (p a size : ℕ) (b : Piece) (bs : List Piece) (pos : 0 < a)
    (small : b.bytes < 2 ^ 31) (fits : size ≤ b.bytes) (h : Chain c p a (b ∷ bs) 0) where
  split_block-cut : split_block c a size ≡ (
      if ltb b.bytes (size + header_size + 16)
      then c
      else insert_rest c a (a + header_size + size) size)
  unfolding split_block
  split_block-cut = ground (arith, h.0)

  take_cells-Chain : Chain (take_cells c a size) p a (carve size b bs) 0
  unfolding take_cells
  take_cells-Chain =
      subst (λ c'. Chain (put c' a (record (c' a) { free = false })) p a (carve size b bs) 0)
        (sym split_block-cut)
        (elim (Bool-cases (ltb b.bytes (size + header_size + 16))) [
          | inl e ↦ rw e (Chain-mark b bs c p a 0 false h)
          | inr e ↦ rw e (
              Chain-mark (record { bytes = size; is_free = b.is_free })
                (record { bytes = b.bytes - size - header_size; is_free = true } ∷ bs)
                (insert_rest c a (a + header_size + size) size) p a 0 false
                (insert_rest-Chain c p a size (a + header_size + size) b bs pos (omega arith)
                  (ground arith) h))
        ])

  take_cells_below : (x : ℕ) → x < a → take_cells c a size x ≡ c x
  unfolding take_cells
  take_cells_below x l =
      subst (λ c'. put c' a (record (c' a) { free = false }) x ≡ c x) (sym split_block-cut)
        (elim (Bool-cases (ltb b.bytes (size + header_size + 16))) [
          | inl e ↦ rw e (ground arith)
          | inr e ↦ rw e (
              ground (
                arith,
                insert_rest_below c p a size (a + header_size + size) b bs pos (omega arith)
                    (ground arith) h x l,
              ))
        ])

-- What the walk and the split come to, on a chain from `a`.
pub data Outcome (c : ℕ → Block) (fuel p a size : ℕ) (bs : List Piece) : Type 0 where
  full :
      find_block fuel c (next_of a bs 0) size ≡ some 0
      → first_fit size a bs ≡ none
      → Outcome c fuel p a size bs
  fit :
      (x : ℕ) (ds : List Piece)
      → find_block fuel c (next_of a bs 0) size ≡ some x
      → first_fit size a bs ≡ some (x, ds)
      → a ≤ x
      → Chain (take_cells c x size) p a ds 0
      → next_of a ds 0 ≡ next_of a bs 0
      → ((y : ℕ) → y < a → take_cells c x size y ≡ c y)
      → Outcome c fuel p a size bs

pub next_of-carve : (size a t : ℕ) (b : Piece) (bs : List Piece) → next_of a (carve size b bs) t ≡ a
next_of-carve size a t b bs = ground arith

pub find_fit :
    (bs : List Piece) (c : ℕ → Block) (fuel p a size : ℕ)
    → 0 < a
    → total bs < 2 ^ 31
    → length bs < fuel
    → Chain c p a bs 0
    → Outcome c fuel p a size bs
unfolding find_block first_fit
find_fit bs c zero p a size pos small len h = absurd (omega arith)
find_fit [] c (suc fuel) p a size pos small len h = full refl refl
find_fit (b ∷ bs) c (suc fuel) p a size pos small len h =
    elim (Bool-cases (not b.is_free || ltb b.bytes size)) [
      | inl e ↦
          further e
            (find_fit bs c fuel a (end_of a b) size (omega arith) (omega arith) (omega arith) h.1)
      | inr e ↦
          fit a (carve size b bs) (ground (arith, h.0)) (rw e) (omega arith)
            (take_cells-Chain c p a size b bs pos (omega arith) (ground arith) h)
            (next_of-carve size a 0 b bs)
            (take_cells_below c p a size b bs pos (omega arith) (ground arith) h)
    ]
  where
    further :
        (not b.is_free || ltb b.bytes size) ≡ true
        → Outcome c fuel a (end_of a b) size bs
        → Outcome c (suc fuel) p a size (b ∷ bs)
    further e (full f n) = full (ground (arith, h.0, f)) (rw (e, n))
    further e (fit x ds f n le k same below) =
        fit x (b ∷ ds) (ground (arith, h.0, f)) (rw (e, n)) (omega arith)
          (below a (omega arith) ∙ h.0 ∙ ap (λ n. header b n p) (sym same), k) refl
          (λ y l. below y (omega arith))
