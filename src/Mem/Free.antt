-- ===== src/Mem/Free.antt =====
-- kfree() of kernel/mem.c against merging on the list of blocks.
use mathlib.Core.Path.{subst}
use lightning_os.Prelude.{
  ℕ, ◌+◌, ◌<◌, ◌≡◌, ap, ◌∙◌, sym, inl, Bool, true, false, List, [], ◌∷◌, arith, if◌then◌else◌,
}
use lightning_os.Mem.{Block, put, relink, header_size, absorb, merge_next, merge_prev, coalesce}
use lightning_os.Mem.Chain.{
  Piece, next_of, end_of, Chain, Chain-put, Chain-relink, relink_below, Chain-mark,
}

-- Two neighbours in one, as free as the first.
abbrev pub fuse : Piece → Piece → Piece
fuse b d = record { bytes = b.bytes + (d.bytes + header_size); is_free = b.is_free }

abbrev absorbed : (ℕ → Block) → ℕ → ℕ → ℕ → ℕ → Block
absorbed c a size n = relink (put c a (record (c a) { size = size; next = n })) n a

module _ (c : ℕ → Block) (p a : ℕ) (b d : Piece) (bs : List Piece) (pos : 0 < a)
    (h : Chain c p a (b ∷ d ∷ bs) 0) where
  is_absorbed :
      absorb c a (end_of a b)
      ≡ absorbed c a (b.bytes + (d.bytes + header_size)) (next_of (end_of (end_of a b) d) bs 0)
  unfolding absorb
  is_absorbed = rw (h.0, h.1.0)

  grown : ℕ → Block
  grown = put c a (record (c a) {
    size = b.bytes + (d.bytes + header_size);
    next = next_of (end_of (end_of a b) d) bs 0;
  })

  absorb-Chain : Chain (absorb c a (end_of a b)) p a (fuse b d ∷ bs) 0
  unfolding grown
  absorb-Chain =
      let join : end_of a (fuse b d) ≡ end_of (end_of a b) d = omega arith in
      subst (λ c'. Chain c' p a (fuse b d ∷ bs) 0) (sym is_absorbed)
        (rw join (
          relink_below bs grown a (end_of (end_of a b) d) a (omega arith) ∙ ground (arith, h.0),
          Chain-relink bs grown (end_of a b) a (end_of (end_of a b) d) (omega arith)
              (Chain-put bs c (end_of a b) (end_of (end_of a b) d) 0 a _ (inl (omega arith)) h.1.1),
        ))

  absorb_below : (x : ℕ) → x < a → absorb c a (end_of a b) x ≡ c x
  unfolding grown
  absorb_below x l =
      ap (λ (f : ℕ → Block). f x) is_absorbed
      ∙ relink_below bs grown a (end_of (end_of a b) d) x (omega arith)
      ∙ ground arith

-- The first half of coalesce(), on the blocks from the freed one on.
abbrev pub join_head : Piece → List Piece → Piece
join_head b [] = b
join_head b (d ∷ bs) = if d.is_free then fuse b d else b

abbrev pub join_tail : List Piece → List Piece
join_tail [] = []
join_tail (d ∷ bs) = if d.is_free then bs else d ∷ bs

abbrev pub join_next : Piece → List Piece → List Piece
join_next b bs = join_head b bs ∷ join_tail bs

-- The second half, on its predecessor and the blocks from the freed one on.
abbrev pub join_prev : Piece → List Piece → List Piece
join_prev q [] = q ∷ []
join_prev q (b ∷ bs) = if q.is_free then fuse q b ∷ bs else q ∷ b ∷ bs

merge_next-absorb :
    (c : ℕ → Block) (p a : ℕ) (b d : Piece) (bs : List Piece)
    → 0 < a
    → Chain c p a (b ∷ d ∷ bs) 0
    → merge_next c a ≡ (if d.is_free then absorb c a (end_of a b) else c)
unfolding merge_next
merge_next-absorb c p a b d bs pos h = ground (arith, h.0, h.1.0)

merge_next-Chain :
    (bs : List Piece) (c : ℕ → Block) (p a : ℕ) (b : Piece)
    → 0 < a
    → Chain c p a (b ∷ bs) 0
    → Chain (merge_next c a) p a (join_next b bs) 0
unfolding merge_next
merge_next-Chain [] c p a b pos h = rw h.0 h
merge_next-Chain (d ∷ bs) c p a b pos h =
    subst (λ c'. Chain c' p a (join_next b (d ∷ bs)) 0) (sym (merge_next-absorb c p a b d bs pos h))
      (both d.is_free (absorb-Chain c p a b d bs pos h))
  where
    both :
        (f : Bool)
        → Chain (absorb c a (end_of a b)) p a (fuse b d ∷ bs) 0
        → Chain
            (if f then absorb c a (end_of a b) else c)
            p
            a
            ((if f then fuse b d else b) ∷ (if f then bs else d ∷ bs))
            0
    both true k = k
    both false k = h

merge_next_below :
    (bs : List Piece) (c : ℕ → Block) (p a x : ℕ) (b : Piece)
    → 0 < a
    → x < a
    → Chain c p a (b ∷ bs) 0
    → merge_next c a x ≡ c x
unfolding merge_next
merge_next_below [] c p a x b pos l h = ground (arith, h.0)
merge_next_below (d ∷ bs) c p a x b pos l h =
    ground (arith, h.0, absorb_below c p a b d bs pos h x l)

merge_prev-absorb :
    (c : ℕ → Block) (p a : ℕ) (q b : Piece) (bs : List Piece)
    → 0 < a
    → Chain c p a (q ∷ b ∷ bs) 0
    → merge_prev c (end_of a q) ≡ (if q.is_free then absorb c a (end_of a q) else c)
unfolding merge_prev
merge_prev-absorb c p a q b bs pos h = ground (arith, h.0, h.1.0)

merge_prev-Chain :
    (c : ℕ → Block) (p a : ℕ) (q b : Piece) (bs : List Piece)
    → 0 < a
    → Chain c p a (q ∷ b ∷ bs) 0
    → Chain (merge_prev c (end_of a q)) p a (join_prev q (b ∷ bs)) 0
merge_prev-Chain c p a q b bs pos h =
    subst (λ c'. Chain c' p a (join_prev q (b ∷ bs)) 0) (sym (merge_prev-absorb c p a q b bs pos h))
      (both q.is_free (absorb-Chain c p a q b bs pos h))
  where
    both :
        (f : Bool)
        → Chain (absorb c a (end_of a q)) p a (fuse q b ∷ bs) 0
        → Chain
            (if f then absorb c a (end_of a q) else c)
            p
            a
            (if f then fuse q b ∷ bs else q ∷ b ∷ bs)
            0
    both true k = k
    both false k = h

-- kfree() on the headers.
abbrev pub free_cells : (ℕ → Block) → ℕ → ℕ → Block
free_cells c x = coalesce (put c x (record (c x) { free = true })) x

abbrev pub freed : Piece → Piece
freed b = record b { is_free = true }

marked : (ℕ → Block) → ℕ → ℕ → Block
marked c x = put c x (record (c x) { free = true })

merge_prev_first : (c : ℕ → Block) (a : ℕ) → (c a).prev ≡ 0 → merge_prev c a ≡ c
unfolding merge_prev
merge_prev_first c a e = rw e

-- A freed block with no predecessor.
pub free_first :
    (c : ℕ → Block) (a : ℕ) (b : Piece) (bs : List Piece)
    → 0 < a
    → Chain c 0 a (b ∷ bs) 0
    → Chain (free_cells c a) 0 a (join_next (freed b) bs) 0
unfolding coalesce marked
free_first c a b bs pos h =
    subst (λ c'. Chain c' 0 a (join_next (freed b) bs) 0)
      (sym (merge_prev_first (merge_next (marked c a) a) a (ap (λ (x : Block). x.prev) k.0))) k
  where
    k : Chain (merge_next (marked c a) a) 0 a (join_next (freed b) bs) 0
    k = merge_next-Chain bs (marked c a) 0 a (freed b) pos (Chain-mark b bs c 0 a 0 true h)

-- One with a predecessor `q`.
module _ (c : ℕ → Block) (p a : ℕ) (q b : Piece) (bs : List Piece) (pos : 0 < a)
    (h : Chain c p a (q ∷ b ∷ bs) 0) where
  merged : ℕ → Block
  merged = merge_next (marked c (end_of a q)) (end_of a q)

  marked-Chain : Chain (marked c (end_of a q)) a (end_of a q) (freed b ∷ bs) 0
  unfolding marked
  marked-Chain = Chain-mark b bs c a (end_of a q) 0 true h.1

  merged_below : (x : ℕ) → x < end_of a q → merged x ≡ c x
  unfolding merged marked
  merged_below x l =
      merge_next_below bs (marked c (end_of a q)) a (end_of a q) x (freed b) (omega arith) l
        marked-Chain
      ∙ ground arith

  merged-Chain : Chain merged p a (q ∷ join_next (freed b) bs) 0
  unfolding merged
  merged-Chain = (
    merged_below a (omega arith) ∙ h.0,
    merge_next-Chain bs (marked c (end_of a q)) a (end_of a q) (freed b) (omega arith) marked-Chain,
  )

  pub free_behind-Chain :
      Chain (free_cells c (end_of a q)) p a (join_prev q (join_next (freed b) bs)) 0
  unfolding coalesce merged marked
  free_behind-Chain =
      merge_prev-Chain merged p a q (join_head (freed b) bs) (join_tail bs) pos merged-Chain

  pub free_behind_below : (x : ℕ) → x < a → free_cells c (end_of a q) x ≡ c x
  unfolding coalesce merged marked
  free_behind_below x l =
      ap (λ (f : ℕ → Block). f x)
        (merge_prev-absorb merged p a q (join_head (freed b) bs) (join_tail bs) pos merged-Chain)
      ∙ both q.is_free
          (absorb_below merged p a q (join_head (freed b) bs) (join_tail bs) pos merged-Chain x l)
    where
      both :
          (f : Bool)
          → absorb merged a (end_of a q) x ≡ merged x
          → (if f then absorb merged a (end_of a q) else merged) x ≡ c x
      both true k = k ∙ merged_below x (omega arith)
      both false k = merged_below x (omega arith)
