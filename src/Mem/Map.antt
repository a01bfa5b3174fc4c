-- ===== src/Mem/Map.antt =====
-- The memory map and mem_init() of kernel/mem.c.
use lightning_os.Prelude.{
  ltb→lt, ltb-false, ℕ, ◌+◌, ◌-◌, ◌%◌, ◌^◌, ◌≤◌, ◌<◌, ◌≡◌, refl, ◌⊎◌, inl, inr, true, ◌&&◌, some,
  none, List, [], ◌∷◌, arith, ltb, leb, ◌==◌, Bool-cases, take, if_cases,
}
use lightning_os.Mem.{
  sum_usable, put, block_magic, Mem, E820Entry, heap_base, heap_max_size, heap_min_size,
  header_size, usable_heap_size, read_memory_map, mem_init,
}
use lightning_os.Mem.Heap.{IsHeap}

-- The entry is usable memory, does not pass the end of the 64-bit space, and holds `n` bytes from
-- HEAP_BASE on.
abbrev pub Holds : ℕ → E820Entry → Type 0
Holds n r = (r.kind ≡ 1) × (r.base ≤ heap_base) × (heap_base + n ≤ r.base + r.len)

abbrev pub Somewhere : ℕ → List E820Entry → Type 0
Somewhere n [] = ⊥
Somewhere n (r ∷ rs) = Holds n r ⊎ Somewhere n rs

-- The size that usable_heap_size() finds is at most 32 MiB, and lies within one usable region of
-- the map, unless it is the 1 MiB that is assumed where no region holds HEAP_BASE.
pub usable_heap_size_lem :
    (rs : List E820Entry)
    → (usable_heap_size rs ≤ heap_max_size)
      × ((usable_heap_size rs ≡ heap_min_size) ⊎ Somewhere (usable_heap_size rs) rs)
unfolding usable_heap_size
usable_heap_size_lem [] = (omega arith, inl refl)
usable_heap_size_lem (r ∷ rs) =
    let end = (r.base + r.len) % 2 ^ 64 in
    if_cases (λ n. (n ≤ heap_max_size) × ((n ≡ heap_min_size) ⊎ (Holds n r ⊎ Somewhere n rs)))
      (r.kind == 1 && leb r.base heap_base && ltb heap_base end) _ _
      (λ e. (ground arith, inr (inl (ground arith))))
      (λ e.
        let (l, w) = usable_heap_size_lem rs in (l, elim w [ inl q ↦ inl q | inr q ↦ inr (inr q) ]))

-- mem_init() either panics, when the region is under 1 MiB, or leaves a heap of one free block.
pub mem_init-IsHeap :
    (m : Mem) (src : List E820Entry)
    → let size = usable_heap_size (take 32 src) in
      ((size < heap_min_size) × (mem_init m src ≡ none))
      ⊎ ((m' : Mem) × (mem_init m src ≡ some m')
          × (m'.heap_size ≡ size)
          × IsHeap m' (record { bytes = size - header_size; is_free = true } ∷ []))
unfolding mem_init read_memory_map
mem_init-IsHeap m src = elim (Bool-cases (ltb (usable_heap_size (take 32 src)) heap_min_size)) [
  | inl e ↦ inl (ltb→lt _ _ e, rw e)
  | inr e ↦ inr (
    booted,
    rw e,
    refl,
    record {
      head = refl;
      chain = (refl, tt);
      filled = omega (arith, ltb-false _ _ e);
      bounded = (usable_heap_size_lem (take 32 src)).0;
      counted = refl;
    },
  )
]
  where
    booted : Mem
    booted = record m {
      regions = take 32 src;
      total_usable = sum_usable m.total_usable (take 32 src);
      cell = put m.cell heap_base (record {
        magic = block_magic;
        size = usable_heap_size (take 32 src) - header_size;
        free = true;
        next = 0;
        prev = 0;
      });
      heap_head = heap_base;
      heap_size = usable_heap_size (take 32 src);
      heap_used = 0;
    }
