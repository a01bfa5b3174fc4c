-- ===== src/Mem/Tests.antt =====
-- Runs of kernel/mem.c, and the theorems about it at concrete heaps.
use mathlib.Core.Option
use lightning_os.Prelude.{
  ℕ, ◌+◌, ◌-◌, ◌*◌, ◌^◌, ◌%◌, ◌<◌, ◌≤◌, ◌≡◌, refl, ◌⊎◌, inl, true, false, some, none, List, [], ◌∷◌,
  arith,
}
use lightning_os.Mem.{
  Mem, Block, E820Entry, put, header_size, heap_base, heap_max_size, heap_min_size, block_magic,
  kmalloc, kcalloc, kfree, mem_init, usable_heap_size,
}
use lightning_os.Mem.Chain.{Piece}
use lightning_os.Mem.Alloc.{first_fit}
use lightning_os.Mem.Release.{release}
use lightning_os.Mem.Heap.{IsHeap, malloc, kmalloc_refines, kfree_refines}
use lightning_os.Mem.Calloc.{Cleared, kcalloc-Cleared}
use lightning_os.Mem.Coalesced.{IsCoalesced}
use lightning_os.Mem.Run.{Call, malloc_of, free_of, run, blocks_after, run_refines, kfree_twice}
use lightning_os.Mem.Map.{mem_init-IsHeap, usable_heap_size_lem, Somewhere}

abbrev no_block : Block
no_block = record { magic = 0; size = 0; free = false; next = 0; prev = 0 }

-- A heap of one mebibyte with one free block.
abbrev booted : Mem
booted = record {
  cell =
      put (λ x. no_block) heap_base
        (record { magic = block_magic; size = 1048556; free = true; next = 0; prev = 0 });
  regions = [];
  total_usable = 0;
  heap_head = heap_base;
  heap_size = heap_min_size;
  heap_used = 0;
}

abbrev one_piece : List Piece
one_piece = record { bytes = 1048556; is_free = true } ∷ []

booted-IsHeap : IsHeap booted one_piece
booted-IsHeap = record {
  head = refl;
  chain = (refl, tt);
  filled = refl;
  bounded = omega arith;
  counted = refl;
}

-- The heap with one block of 16 bytes in use.
abbrev two_pieces : List Piece
two_pieces =
    record { bytes = 16; is_free = false } ∷ record { bytes = 1048520; is_free = true } ∷ []

malloc_runs : malloc one_piece 10 ≡ (heap_base + header_size, two_pieces)
unfolding malloc first_fit
malloc_runs = refl

-- Rounding a size close to 2 ^ 32 up to eight bytes wraps to 0, and a block of no bytes is taken.
malloc_wraps : malloc one_piece (2 ^ 32 - 3) ≡ (
  heap_base + header_size,
  record { bytes = 0; is_free = false } ∷ record { bytes = 1048536; is_free = true } ∷ [],
)
unfolding malloc first_fit
malloc_wraps = refl

-- The payload is not at a multiple of eight.
malloc_misaligned : (malloc one_piece 10).0 % 8 ≡ 4
unfolding malloc first_fit
malloc_misaligned = refl

kmalloc_refines_example :
    (m' : Mem) × (kmalloc 2_000_000 booted 10 ≡ some ((malloc one_piece 10).0, m'))
    × IsHeap m' (malloc one_piece 10).1
kmalloc_refines_example = kmalloc_refines booted one_piece 2_000_000 10 booted-IsHeap (omega arith)

abbrev used_heap : Mem
used_heap = record booted {
  cell =
      put
        (put (λ x. no_block) (heap_base + 36)
          (record { magic = block_magic; size = 1048520; free = true; next = 0; prev = heap_base }))
        heap_base
        (record { magic = block_magic; size = 16; free = false; next = heap_base + 36; prev = 0 });
  heap_used = 36;
}

used_heap-IsHeap : IsHeap used_heap two_pieces
used_heap-IsHeap = record {
  head = refl;
  chain = (refl, (refl, tt));
  filled = refl;
  bounded = omega arith;
  counted = refl;
}

kfree_refines_example :
    (m' : Mem) × (kfree used_heap (heap_base + header_size) ≡ some m')
    × IsHeap m' (release heap_base heap_base two_pieces)
kfree_refines_example =
    kfree_refines used_heap two_pieces heap_base used_heap-IsHeap (inl (refl, refl))

abbrev bytes : ℕ → ℕ
bytes a = 165

kcalloc-Cleared_example :
    (ptr : ℕ) × (m' : Mem) × (payload' : ℕ → ℕ) × (ds : List Piece) × (kcalloc 2_000_000 booted
        bytes 3 4
      ≡ some (ptr, m', payload'))
    × IsHeap m' ds
    × Cleared one_piece bytes (3 * 4) ptr ds payload'
kcalloc-Cleared_example =
    kcalloc-Cleared booted one_piece 2_000_000 3 4 bytes booted-IsHeap (omega arith) (omega arith)

-- Four times 2^30 + 2 bytes are eight bytes.
product_wraps : kcalloc 2_000_000 booted bytes (2 ^ 30 + 2) 4 ≡ kcalloc 2_000_000 booted bytes 2 4
unfolding kcalloc
product_wraps = refl

abbrev session : List Call
session = malloc_of 10 ∷ free_of heap_base ∷ malloc_of 64 ∷ []

run_refines_example :
    (m' : Mem) × (run booted session ≡ some m')
    × IsHeap m' (blocks_after one_piece session)
    × IsCoalesced (blocks_after one_piece session)
unfolding malloc first_fit
run_refines_example =
    run_refines session booted one_piece booted-IsHeap (refl, tt) (inl (refl, refl), tt)

kfree_twice_example : Option.bind (kfree used_heap 100) (λ m'. kfree m' 100) ≡ kfree used_heap 100
kfree_twice_example = kfree_twice used_heap 100

abbrev pc_map : List E820Entry
pc_map =
    record { base = 0; len = 0x9fc00; kind = 1 }
    ∷ record { base = 0x100000; len = 0x3000000; kind = 1 }
    ∷ []

usable_heap_size_lem_example :
    (usable_heap_size pc_map ≤ heap_max_size)
    × ((usable_heap_size pc_map ≡ heap_min_size) ⊎ Somewhere (usable_heap_size pc_map) pc_map)
usable_heap_size_lem_example = usable_heap_size_lem pc_map

mem_init-IsHeap_example :
    ((usable_heap_size pc_map < heap_min_size) × (mem_init booted pc_map ≡ none))
    ⊎ ((m' : Mem) × (mem_init booted pc_map ≡ some m')
        × (m'.heap_size ≡ usable_heap_size pc_map)
        × IsHeap m' (record { bytes = usable_heap_size pc_map - header_size; is_free = true } ∷ []))
mem_init-IsHeap_example = mem_init-IsHeap booted pc_map
