-- ===== src/Mem/Run.antt =====
-- Sequences of calls of kernel/mem.c: what a client that frees only what it holds can rely on.
use mathlib.Core.Option
use lightning_os.Prelude.{
  ==_iff, inl, inr, ℕ, suc, ◌+◌, ◌-◌, ◌≡◌, refl, ◌∙◌, true, false, Option, some, none, List, [],
  ◌∷◌, arith, ◌==◌, Bool-cases, Option-cases, inl, inr,
}
use lightning_os.Mem.{
  Mem, Block, put, header_size, heap_base, align8, block_magic, absorb, merge_next, merge_prev,
  coalesce, kmalloc, kfree, give_back,
}
use lightning_os.Mem.Chain.{Piece}
use lightning_os.Mem.Alloc.{first_fit}
use lightning_os.Mem.Release.{release, InUse}
use lightning_os.Mem.Heap.{IsHeap, malloc, kmalloc_refines, kfree_refines}
use lightning_os.Mem.Coalesced.{IsCoalesced, first_fit-After, release-IsCoalesced}

-- A call: an allocation, or the freeing of the block at an address.
pub data Call : Type 0 where
  malloc_of : ℕ → Call
  free_of : ℕ → Call

-- The code's calls, with more fuel than the heap has bytes. `none` is a panic.
pub run : Mem → List Call → Option Mem
run m [] = some m
run m (malloc_of size ∷ cs) = Option.bind (kmalloc (suc m.heap_size) m size) (λ r. run r.1 cs)
run m (free_of x ∷ cs) = Option.bind (kfree m (x + header_size)) (λ m'. run m' cs)

-- The blocks afterwards.
pub blocks_after : List Piece → List Call → List Piece
blocks_after bs [] = bs
blocks_after bs (malloc_of size ∷ cs) = blocks_after (malloc bs size).1 cs
blocks_after bs (free_of x ∷ cs) = blocks_after (release x heap_base bs) cs

-- The client frees only blocks in use.
abbrev pub FreesItsOwn : List Piece → List Call → Type 0
FreesItsOwn bs [] = Unit {0}
FreesItsOwn bs (malloc_of size ∷ cs) = FreesItsOwn (malloc bs size).1 cs
FreesItsOwn bs (free_of x ∷ cs) = InUse x heap_base bs × FreesItsOwn (release x heap_base bs) cs

malloc-IsCoalesced : (bs : List Piece) (size : ℕ) → IsCoalesced bs → IsCoalesced (malloc bs size).1
unfolding malloc
malloc-IsCoalesced bs size k = elim (Bool-cases (size == 0)) [
  | inl e ↦ rw e k
  | inr e ↦ elim (Option-cases (first_fit (align8 size) heap_base bs)) [
    | inl n ↦ rw (e, n) k
    | inr (r, s) ↦ rw (e, s) (first_fit-After bs false (align8 size) heap_base r.0 r.1 s k)
  ]
]

-- No sequence of calls by such a client makes the heap panic; each call refines its specification,
-- the blocks go on filling the heap exactly with the counter right, and no two free blocks are ever
-- left side by side.
pub run_refines :
    (cs : List Call) (m : Mem) (bs : List Piece)
    → IsHeap m bs
    → IsCoalesced bs
    → FreesItsOwn bs cs
    → (m' : Mem) × (run m cs ≡ some m')
      × IsHeap m' (blocks_after bs cs)
      × IsCoalesced (blocks_after bs cs)
unfolding run blocks_after Option.bind
run_refines [] m bs h k d = (m, refl, h, k)
run_refines (malloc_of size ∷ cs) m bs h k d =
    let (m', e, h') = kmalloc_refines m bs (suc m.heap_size) size h (omega arith) in
    rw e (run_refines cs m' (malloc bs size).1 h' (malloc-IsCoalesced bs size k) d)
run_refines (free_of x ∷ cs) m bs h k d =
    let (m', e, h') = kfree_refines m bs x h d.0 in
    rw e
      (run_refines cs m' (release x heap_base bs) h' (release-IsCoalesced bs x heap_base d.0 k) d.1)

-- The magic word and the free flag of a header, which merging leaves alone everywhere.
abbrev Marks : (ℕ → Block) → (ℕ → Block) → ℕ → Type 0
Marks c c' x = ((c' x).magic ≡ (c x).magic) × ((c' x).free ≡ (c x).free)

absorb-Marks : (c : ℕ → Block) (a n x : ℕ) → Marks c (absorb c a n) x
unfolding absorb
absorb-Marks c a n x = ground arith

coalesce-Marks : (c : ℕ → Block) (block x : ℕ) → Marks c (coalesce c block) x
unfolding coalesce merge_next merge_prev
coalesce-Marks c block x = ground (
  arith,
  absorb-Marks c block (c block).next x,
  absorb-Marks (merge_next c block) ((merge_next c block) block).prev block x,
)

kfree-free :
    (m : Mem) (ptr : ℕ)
    → (m.cell (ptr - header_size)).magic ≡ block_magic
    → (m.cell (ptr - header_size)).free ≡ true
    → kfree m ptr ≡ some m
unfolding kfree
kfree-free m ptr e f = ground arith

give_back-Marks :
    (m : Mem) (x : ℕ)
    → (((give_back m x).cell x).magic ≡ (m.cell x).magic) × (((give_back m x).cell x).free ≡ true)
unfolding give_back
give_back-Marks m x =
    let (magic, free) = coalesce-Marks (put m.cell x (record (m.cell x) { free = true })) x x in
    (magic ∙ ground arith, free ∙ ground arith)

freed_again :
    (m : Mem) (ptr : ℕ)
    → (m.cell (ptr - header_size)).magic ≡ block_magic
    → kfree (give_back m (ptr - header_size)) ptr ≡ some (give_back m (ptr - header_size))
freed_again m ptr e =
    let (magic, free) = give_back-Marks m (ptr - header_size) in
    kfree-free (give_back m (ptr - header_size)) ptr (magic ∙ e) free

-- What kfree() comes to.
data Freed (m : Mem) (ptr : ℕ) : Type 0 where
  refused : kfree m ptr ≡ none → Freed m ptr
  nothing : kfree m ptr ≡ some m → Freed m ptr
  given :
      (m.cell (ptr - header_size)).magic ≡ block_magic
      → kfree m ptr ≡ some (give_back m (ptr - header_size))
      → Freed m ptr

kfree-Freed : (m : Mem) (ptr : ℕ) → Freed m ptr
unfolding kfree
kfree-Freed m ptr = elim (Bool-cases (ptr == 0)) [
  | inl e ↦ nothing (rw e)
  | inr e ↦ elim (Bool-cases ((m.cell (ptr - header_size)).magic == block_magic)) [
    | inr bad ↦ refused (rw (e, bad))
    | inl good ↦ elim (Bool-cases (m.cell (ptr - header_size)).free) [
      | inl f ↦ nothing (rw (e, good, f))
      | inr f ↦ given ((==_iff _ _).0 good) (rw (e, good, f))
    ]
  ]
]

-- Freeing a pointer a second time changes nothing, whatever the state of the heap, even when the
-- block's header has meanwhile become part of its neighbour.
pub kfree_twice : (m : Mem) (ptr : ℕ) → Option.bind (kfree m ptr) (λ m'. kfree m' ptr) ≡ kfree m ptr
unfolding Option.bind
kfree_twice m ptr = elim (kfree-Freed m ptr) [
  | refused e ↦ rw e
  | nothing e ↦ rw e e
  | given magic e ↦ rw e (freed_again m ptr magic)
]
