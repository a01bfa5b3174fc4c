-- ===== src/Mem/Calloc.antt =====
-- kcalloc() of kernel/mem.c: a fresh block, and its bytes cleared.
use mathlib.Core.Option
use lightning_os.Prelude.{
  ℕ, ◌+◌, ◌*◌, ◌%◌, ◌^◌, ◌<◌, ◌≡◌, refl, ◌⊎◌, inl, inr, some, List, arith, ◌==◌, if◌then◌else◌,
  Bool-cases, Option-cases, ◌≢◌, ap,
}
use lightning_os.Strings.{memset}
use lightning_os.Strings.Move.{inside, memset_at}
use lightning_os.Mem.{Mem, header_size, heap_base, align8, kmalloc, kcalloc, cleared, memset}
use lightning_os.Mem.Chain.{Piece}
use lightning_os.Mem.Alloc.{first_fit}
use lightning_os.Mem.Heap.{IsHeap, malloc, kmalloc_refines}
use lightning_os.Mem.Fresh.{IsFresh, malloc-IsFresh}

malloc_null : (bs : List Piece) (size : ℕ) → (malloc bs size).0 ≡ 0 → (malloc bs size).1 ≡ bs
unfolding malloc
malloc_null bs size h = elim (Bool-cases (size == 0)) [
  | inl e ↦ ground (arith, e)
  | inr e ↦ elim (Option-cases (first_fit (align8 size) heap_base bs)) [
    | inl n ↦ ground (arith, e, n)
    | inr (r, s) ↦ absurd (ground (arith, e, s, h))
  ]
]

-- What kcalloc() returned, for `n` bytes: NULL, and no change; or a block apart from all that were
-- in use, with all its n bytes zero, and all other memory as before.
pub Cleared : List Piece → (ℕ → ℕ) → ℕ → ℕ → List Piece → (ℕ → ℕ) → Type 0
Cleared bs payload n ptr ds payload' =
    ((ptr ≡ 0) × (ds ≡ bs) × (payload' ≡ payload))
    ⊎ ((x : ℕ) × ((ptr ≡ x + header_size)
          × IsFresh x n bs ds
          × ((a : ℕ) → payload' a ≡ (if inside ptr n a then 0 else payload a))))

no_wrap : (n : ℕ) → n < 2 ^ 32 → n % 2 ^ 32 ≡ n
no_wrap n h = omega (arith, h)

kcalloc-kmalloc :
    (m m' : Mem) (fuel count size : ℕ) (payload : ℕ → ℕ) (ptr : ℕ)
    → kmalloc fuel m (count * size) ≡ some (ptr, m')
    → count * size < 2 ^ 32
    → kcalloc fuel m payload count size ≡ some (cleared (count * size) payload (ptr, m'))
unfolding kcalloc
kcalloc-kmalloc m m' fuel count size payload ptr e small =
    let wrap : (count * size) % 2 ^ 32 ≡ count * size = no_wrap (count * size) small in
    rw wrap (ap (Option.map (cleared (count * size) payload)) e)

-- On a heap, where count * size is at least eight below 2^32, kcalloc() ends, given more fuel than
-- the heap has bytes, and leaves a heap. It returns NULL and changes nothing, or it returns a
-- pointer behind the header of a block that is in use afterwards, has that many bytes, lies inside
-- the heap and apart from every block that was in use, each of which keeps its place and size; then
-- these bytes are zero, and every other byte is as it was.
pub kcalloc-Cleared :
    (m : Mem) (bs : List Piece) (fuel count size : ℕ) (payload : ℕ → ℕ)
    → IsHeap m bs
    → m.heap_size < fuel
    → count * size + 7 < 2 ^ 32
    → (ptr : ℕ) × (m' : Mem) × (payload' : ℕ → ℕ) × (ds : List Piece) × (kcalloc fuel m payload
          count size
        ≡ some (ptr, m', payload'))
      × IsHeap m' ds
      × Cleared bs payload (count * size) ptr ds payload'
unfolding Cleared cleared
kcalloc-Cleared m bs fuel count size payload h f small =
    let n = count * size in
    let (m', e, h') = kmalloc_refines m bs fuel n h f in
    let ptr = (malloc bs n).0 in
    let r = kcalloc-kmalloc m m' fuel count size payload ptr e (omega (arith, small)) in
    elim (Bool-cases (ptr == 0)) [
      | inl z ↦
          let null : ptr ≡ 0 = ground (arith, z) in
          (
            ptr,
            m',
            payload,
            (malloc bs n).1,
            ground (arith, r, z),
            h',
            inl (null, malloc_null bs n null, refl),
          )
      | inr z ↦
          let some_block : ptr ≢ 0 = ground (arith, z) in
          let (x, at, fresh) = malloc-IsFresh bs n small some_block in
          (
            ptr,
            m',
            memset payload ptr 0 n,
            (malloc bs n).1,
            ground (arith, r, z),
            h',
            inr (x, (at, fresh, λ a. memset_at n payload ptr 0 a)),
          )
    ]
