-- ===== src/Mem.antt =====
-- kernel/mem.c: the BIOS memory map and the kernel heap, a doubly linked list of block headers kept
-- at the blocks' own addresses. A pointer is an address and NULL is 0. The interrupt flag, which
-- irq_save() and irq_restore() keep around each critical section, is not part of the state: a call
-- runs undisturbed.
pub mod Map
pub mod Chain
pub mod Alloc
pub mod Free
pub mod Release
pub mod Sums
pub mod Heap
pub mod Coalesced
pub mod Fresh
pub mod Calloc
pub mod Run
mod Tests
use mathlib.Core.Option
use lightning_os.Prelude.{
  get_elem?, ℕ, zero, suc, ◌+◌, ◌-◌, ◌*◌, ◌/◌, ◌%◌, ◌^◌, Bool, true, false, not, ◌&&◌, ◌||◌, Option,
  some, none, List, [], ◌∷◌, ltb, leb, ◌==◌, if◌then◌else◌, length, take,
}
use lightning_os.Strings.{memset}

abbrev pub heap_base : ℕ
heap_base = 0x200000

abbrev pub heap_max_size : ℕ
heap_max_size = 32 * 1024 * 1024

abbrev pub heap_min_size : ℕ
heap_min_size = 1024 * 1024

abbrev pub block_magic : ℕ
block_magic = 0x4c4f5342

-- sizeof(block_t) on i386: five four-byte slots, the bool padded.
abbrev pub header_size : ℕ
header_size = 20

pub record E820Entry : Type 0 where
  pub base : ℕ
  pub len : ℕ
  pub kind : ℕ

pub record Block : Type 0 where
  pub magic : ℕ
  pub size : ℕ
  pub free : Bool
  pub next : ℕ
  pub prev : ℕ

-- The file's static variables, and the headers in memory.
pub record Mem : Type 0 where
  pub cell : ℕ → Block
  pub regions : List E820Entry
  pub total_usable : ℕ
  pub heap_head : ℕ
  pub heap_size : ℕ
  pub heap_used : ℕ

abbrev pub put : (ℕ → Block) → ℕ → Block → ℕ → Block
put c a b x = if x == a then b else c x

-- read_memory_map(): at most 32 entries; usable lengths add up in 64 bits.
pub sum_usable : ℕ → List E820Entry → ℕ
sum_usable acc [] = acc
sum_usable acc (r ∷ rs) = sum_usable (if r.kind == 1 then (acc + r.len) % 2 ^ 64 else acc) rs

pub read_memory_map : Mem → List E820Entry → Mem
unfolding sum_usable
read_memory_map m src = record m {
  regions = take 32 src;
  total_usable = sum_usable m.total_usable (take 32 src);
}

-- usable_heap_size()
pub usable_heap_size : List E820Entry → ℕ
usable_heap_size [] = heap_min_size
usable_heap_size (r ∷ rs) =
    let end = (r.base + r.len) % 2 ^ 64 in
    if r.kind == 1 && leb r.base heap_base && ltb heap_base end
    then (if ltb heap_max_size (end - heap_base) then heap_max_size else end - heap_base)
    else usable_heap_size rs

-- mem_init(): `none` is the panic.
pub mem_init : Mem → List E820Entry → Option Mem
unfolding read_memory_map usable_heap_size
mem_init m src =
    let m' = read_memory_map m src in
    let size = usable_heap_size m'.regions in
    if ltb size heap_min_size
    then none
    else some (record m' {
      cell = put m'.cell heap_base (record {
        magic = block_magic;
        size = size - header_size;
        free = true;
        next = 0;
        prev = 0;
      });
      heap_head = heap_base;
      heap_size = size;
      heap_used = 0;
    })

-- if (n) n->prev = q;
abbrev pub relink : (ℕ → Block) → ℕ → ℕ → ℕ → Block
relink c n q = if n == 0 then c else put c n (record (c n) { prev = q })

-- The part of split_block() behind its guard: `rest` becomes a free block behind `block`.
pub insert_rest : (ℕ → Block) → ℕ → ℕ → ℕ → ℕ → Block
insert_rest c block rest size =
    let c₁ = put c rest (record {
      magic = block_magic;
      size = (c block).size - size - header_size;
      free = true;
      next = (c block).next;
      prev = block;
    }) in
    let c₂ = relink c₁ (c block).next rest in
    put c₂ block (record (c₂ block) { next = rest; size = size })

-- split_block(), on the headers.
pub split_block : (ℕ → Block) → ℕ → ℕ → ℕ → Block
unfolding insert_rest
split_block c block size =
    if ltb (c block).size ((size + header_size + 16) % 2 ^ 32)
    then c
    else insert_rest c block (block + header_size + size) size

-- size = (size + 7) & ~7, in 32 bits.
abbrev pub align8 : ℕ → ℕ
align8 size = (size + 7) % 2 ^ 32 / 8 * 8

-- The walk of kmalloc(): the first free block that is large enough, or NULL.
pub find_block : ℕ → (ℕ → Block) → ℕ → ℕ → Option ℕ
find_block zero c block size = none
find_block (suc fuel) c block size =
    let rest = find_block fuel c (c block).next size in
    if block == 0
    then some 0
    else if not (c block).free || ltb (c block).size size
    then rest
    else some block

-- What kmalloc() does to the headers once it has a block.
pub take_cells : (ℕ → Block) → ℕ → ℕ → ℕ → Block
unfolding split_block
take_cells c block size =
    let c' = split_block c block size in put c' block (record (c' block) { free = false })

pub take_block : Mem → ℕ → ℕ → ℕ × Mem
unfolding take_cells
take_block m size block =
    if block == 0
    then (0, m)
    else (let c = take_cells m.cell block size in
        (
          block + header_size,
          record m {
            cell = c;
            heap_used = (m.heap_used + ((c block).size + header_size)) % 2 ^ 32;
          },
        ))

-- kmalloc(): the pointer, and the heap afterwards. `none` only where the fuel runs out.
pub kmalloc : ℕ → Mem → ℕ → Option (ℕ × Mem)
unfolding find_block take_block
kmalloc fuel m size =
    if size == 0
    then some (0, m)
    else Option.map (take_block m (align8 size)) (find_block fuel m.cell m.heap_head (align8 size))

-- What kcalloc() does with the pointer: the bytes in memory are `payload`, which the headers are no
-- part of.
pub cleared : ℕ → (ℕ → ℕ) → ℕ × Mem → ℕ × Mem × (ℕ → ℕ)
cleared n payload (ptr, m) = (ptr, m, if ptr == 0 then payload else memset payload ptr 0 n)

-- kcalloc(): size_t wraps in the product.
pub kcalloc : ℕ → Mem → (ℕ → ℕ) → ℕ → ℕ → Option (ℕ × Mem × (ℕ → ℕ))
unfolding cleared
kcalloc fuel m payload count size =
    let n = (count * size) % 2 ^ 32 in Option.map (cleared n payload) (kmalloc fuel m n)

-- What both halves of coalesce() do: the block at `a` takes in its successor `n`.
pub absorb : (ℕ → Block) → ℕ → ℕ → ℕ → Block
absorb c a n =
    relink
      (put c a (record (c a) { size = (c a).size + ((c n).size + header_size); next = (c n).next }))
      (c n).next a

-- The first half of coalesce(): the block takes in a free successor.
pub merge_next : (ℕ → Block) → ℕ → ℕ → Block
unfolding absorb
merge_next c block =
    let n = (c block).next in if n == 0 || not (c n).free then c else absorb c block n

-- The second half: a free predecessor takes in the block.
pub merge_prev : (ℕ → Block) → ℕ → ℕ → Block
unfolding absorb
merge_prev c block =
    let p = (c block).prev in if p == 0 || not (c p).free then c else absorb c p block

pub coalesce : (ℕ → Block) → ℕ → ℕ → Block
unfolding merge_next merge_prev
coalesce c block = merge_prev (merge_next c block) block

-- What kfree() does with a block in use. heap_used is a size_t.
pub give_back : Mem → ℕ → Mem
give_back m block = record m {
  cell = coalesce (put m.cell block (record (m.cell block) { free = true })) block;
  heap_used = (m.heap_used + 2 ^ 32 - ((m.cell block).size + header_size)) % 2 ^ 32;
}

-- kfree(): `none` is the panic.
pub kfree : Mem → ℕ → Option Mem
kfree m ptr =
    let block = ptr - header_size in
    if ptr == 0
    then some m
    else if not ((m.cell block).magic == block_magic)
    then none
    else if (m.cell block).free
    then some m
    else some (give_back m block)

-- mem_heap_free(): size_t subtraction.
pub mem_heap_free : Mem → ℕ
mem_heap_free m = (m.heap_size + 2 ^ 32 - m.heap_used) % 2 ^ 32

-- mem_region_info() for the outputs that are not NULL.
pub mem_region_info : Mem → ℕ → Option E820Entry
mem_region_info m index = get_elem? m.regions index
