-- ===== src/Mem/Heap.antt =====
-- The heap of kernel/mem.c against its specification: a list of blocks, kmalloc() as first fit and
-- kfree() as merging, with the bytes in use counted.
use lightning_os.Prelude.{
  ℕ, ◌+◌, ◌-◌, ◌≤◌, ◌<◌, ◌≡◌, refl, ap, ◌∙◌, sym, inl, inr, false, Option, some, none, List, [],
  ◌∷◌, arith, ◌==◌, if◌then◌else◌, Bool-cases, length, ==_refl, ==_false,
}
use lightning_os.Mem.{
  give_back, Mem, Block, header_size, heap_base, heap_max_size, block_magic, align8, find_block,
  take_cells, take_block, kmalloc, kfree,
}
use lightning_os.Mem.Chain.{Piece, total, next_of, end_of, Chain}
use lightning_os.Mem.Alloc.{first_fit, find_fit, full, fit}
use lightning_os.Mem.Release.{
  next_of-release, release, InUse, InUse-header, InUse-le, release-Chain, in_use,
}
use lightning_os.Mem.Sums.{bytes_at, first_fit-Sums, release-Sums}

-- The blocks `bs` fill the heap from HEAP_BASE to its end, linked both ways, and `heap_used` counts
-- the bytes in use, headers included.
pub record IsHeap (m : Mem) (bs : List Piece) : Type 0 where
  pub head : m.heap_head ≡ next_of heap_base bs 0
  pub chain : Chain m.cell 0 heap_base bs 0
  pub filled : total bs ≡ m.heap_size
  pub bounded : m.heap_size ≤ heap_max_size
  pub counted : m.heap_used ≡ in_use bs

-- kmalloc() on the blocks: the pointer, and the blocks afterwards.
unfoldable pub malloc : List Piece → ℕ → ℕ × List Piece
malloc bs size = if size == 0 then (0, bs) else elim (first_fit (align8 size) heap_base bs) [
  | none ↦ (0, bs)
  | some r ↦ (r.0 + header_size, r.1)
]

length-le-total : (bs : List Piece) → length bs ≤ total bs
length-le-total [] = omega arith
length-le-total (b ∷ bs) = omega (arith, length-le-total bs)

in_use-le-total : (bs : List Piece) → in_use bs ≤ total bs
in_use-le-total [] = omega arith
in_use-le-total (b ∷ bs) = ground (arith, in_use-le-total bs)

-- The header at a block says its size.
size-bytes_at :
    (bs : List Piece) (c : ℕ → Block) (p a x : ℕ)
    → Chain c p a bs 0
    → InUse x a bs
    → (c x).size ≡ bytes_at x a bs
size-bytes_at [] c p a x h u = absurd u
size-bytes_at (b ∷ bs) c p a x h (inl u) = rw (u.0, ==_refl a, h.0)
size-bytes_at (b ∷ bs) c p a x h (inr u) =
    rw (==_false x a (omega (arith, InUse-le bs x (end_of a b) u)))
      (size-bytes_at bs c a (end_of a b) x h.1 u)

-- The heap after kmalloc() took a block that first fit finds.
took-IsHeap :
    (m : Mem) (bs ds : List Piece) (size x : ℕ)
    → IsHeap m bs
    → first_fit size heap_base bs ≡ some (x, ds)
    → Chain (take_cells m.cell x size) 0 heap_base ds 0
    → next_of heap_base ds 0 ≡ next_of heap_base bs 0
    → IsHeap (take_block m size x).1 ds × ((take_block m size x).0 ≡ x + header_size)
unfolding take_block
took-IsHeap m bs ds size x h e k same =
    let (above, sums, used) = first_fit-Sums bs size heap_base x ds e in
    rw (==_false x 0 (omega arith)) (
      record {
        head = h.head ∙ sym same;
        chain = k;
        filled = omega (arith, h.filled);
        bounded = h.bounded;
        counted = omega (
          arith,
          size-bytes_at ds (take_cells m.cell x size) 0 heap_base x k used,
          in_use-le-total ds,
          h.filled,
          h.bounded,
          h.counted,
        );
      },
      refl,
    )

-- kmalloc() returns, given more fuel than the heap has bytes, and does what first fit does on the
-- blocks: the same pointer, the same blocks afterwards, or NULL and no change where nothing fits.
pub kmalloc_refines :
    (m : Mem) (bs : List Piece) (fuel size : ℕ)
    → IsHeap m bs
    → m.heap_size < fuel
    → (m' : Mem) × (kmalloc fuel m size ≡ some ((malloc bs size).0, m'))
      × IsHeap m' (malloc bs size).1
unfolding kmalloc malloc
kmalloc_refines m bs fuel size h f = elim (Bool-cases (size == 0)) [
  | inl e ↦ rw e (m, refl, h)
  | inr e ↦
      rw e
        (elim (find_fit bs m.cell fuel 0 heap_base (align8 size) (omega arith)
          (omega (arith, h.filled, h.bounded)) (omega (arith, h.filled, length-le-total bs))
          h.chain) [
            | full walk no_fit ↦ rw (from_head walk, no_fit) (m, unfold take_block in refl, h)
            | fit x ds walk fits le k same low ↦
                (let (ok, ptr) = took-IsHeap m bs ds (align8 size) x h fits k same in
                  rw (from_head walk, fits)
                    (
                      (take_block m (align8 size) x).1,
                      ap (λ p. some (p, (take_block m (align8 size) x).1)) ptr,
                      ok,
                    ))
          ])
]
  where
    from_head :
        {o : Option ℕ}
        → find_block fuel m.cell (next_of heap_base bs 0) (align8 size) ≡ o
        → find_block fuel m.cell m.heap_head (align8 size) ≡ o
    from_head e = ap (λ q. find_block fuel m.cell q (align8 size)) h.head ∙ e

pub kfree-give_back :
    (m : Mem) (x : ℕ)
    → (m.cell x).magic ≡ block_magic
    → (m.cell x).free ≡ false
    → kfree m (x + header_size) ≡ some (give_back m x)
unfolding kfree
kfree-give_back m x magic free =
    let e : x + header_size - header_size ≡ x = omega arith in rw e (ground arith)

give_back-IsHeap :
    (m : Mem) (bs : List Piece) (x : ℕ)
    → IsHeap m bs
    → InUse x heap_base bs
    → IsHeap (give_back m x) (release x heap_base bs)
unfolding give_back
give_back-IsHeap m bs x h u = record {
  head = h.head ∙ sym (next_of-release bs x heap_base);
  chain = release-Chain bs m.cell heap_base x (omega arith) h.chain u;
  filled = omega (arith, h.filled, release-Sums bs x heap_base u);
  bounded = h.bounded;
  counted = omega (
    arith,
    size-bytes_at bs m.cell 0 heap_base x h.chain u,
    release-Sums bs x heap_base u,
    in_use-le-total bs,
    h.filled,
    h.bounded,
    h.counted,
  );
}

-- kfree() of a block in use does not panic, and does what merging does on the blocks.
pub kfree_refines :
    (m : Mem) (bs : List Piece) (x : ℕ)
    → IsHeap m bs
    → InUse x heap_base bs
    → (m' : Mem) × (kfree m (x + header_size) ≡ some m') × IsHeap m' (release x heap_base bs)
kfree_refines m bs x h u =
    let (magic, free) = InUse-header bs m.cell 0 heap_base x h.chain u in
    (give_back m x, kfree-give_back m x magic free, give_back-IsHeap m bs x h u)
