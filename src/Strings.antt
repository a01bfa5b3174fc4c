-- ===== src/Strings.antt =====
-- lib/string.c over byte-addressed memory. A pointer is an address, NULL is 0, and no object
-- reaches the end of the address space, so pointer arithmetic does not wrap. A loop that stops at a
-- terminator takes fuel, and is `none` where the fuel runs out.
pub mod Move
pub mod Compare
pub mod Copy
pub mod Split
mod Tests
use lightning_os.Prelude.{
  ℕ, zero, suc, ◌+◌, ◌-◌, ◌%◌, ◌≡◌, ◌<◌, Bool, true, false, not, ◌&&◌, ◌||◌, Option, some, none,
  List, [], ◌∷◌, ltb, leb, ◌==◌, if◌then◌else◌, ℤ, pos, sub_ℕ,
}

abbrev pub Memory : Type 0
Memory = ℕ → ℕ

abbrev pub store : Memory → ℕ → ℕ → Memory
store m a v x = if x == a then v else m x

-- memset(): the value is cut to a byte.
pub memset : Memory → ℕ → ℕ → ℕ → Memory
memset m dst value zero = m
memset m dst value (suc count) = memset (store m dst (value % 256)) (dst + 1) value count

pub memcpy : Memory → ℕ → ℕ → ℕ → Memory
memcpy m dst src zero = m
memcpy m dst src (suc count) = memcpy (store m dst (m src)) (dst + 1) (src + 1) count

-- The second loop of memmove(), from the end down.
pub copy_down : Memory → ℕ → ℕ → ℕ → Memory
copy_down m dst src zero = m
copy_down m dst src (suc count) = copy_down (store m (dst + count) (m (src + count))) dst src count

-- memmove(): its first loop is that of memcpy().
pub memmove : Memory → ℕ → ℕ → ℕ → Memory
memmove m dst src count =
    if dst == src || count == 0
    then m
    else if ltb dst src
    then memcpy m dst src count
    else copy_down m dst src count

pub memcmp : Memory → ℕ → ℕ → ℕ → ℤ
memcmp m a b zero = pos 0
memcmp m a b (suc count) =
    if not (m a == m b) then sub_ℕ (m a) (m b) else memcmp m (a + 1) (b + 1) count

-- strlen(): `n` is the loop's counter.
pub strlen_from : ℕ → Memory → ℕ → ℕ → Option ℕ
strlen_from zero m s n = none
strlen_from (suc fuel) m s n =
    let rest = strlen_from fuel m s (n + 1) in if m (s + n) == 0 then some n else rest

pub strlen : ℕ → Memory → ℕ → Option ℕ
unfolding strlen_from
strlen fuel m s = strlen_from fuel m s 0

pub strcmp : ℕ → Memory → ℕ → ℕ → Option ℤ
strcmp zero m a b = none
strcmp (suc fuel) m a b =
    let rest = strcmp fuel m (a + 1) (b + 1) in
    if not (m a == 0) && (m a == m b) then rest else some (sub_ℕ (m a) (m b))

-- strncmp(): the loop counts `n` down, so it needs no fuel.
pub strncmp : Memory → ℕ → ℕ → ℕ → ℤ
strncmp m a b zero = pos 0
strncmp m a b (suc n) =
    if not (m a == 0) && (m a == m b) then strncmp m (a + 1) (b + 1) n else sub_ℕ (m a) (m b)

-- The copying loop of strcpy() and strcat().
pub strcpy : ℕ → Memory → ℕ → ℕ → Option Memory
strcpy zero m dst src = none
strcpy (suc fuel) m dst src =
    let m' = store m dst (m src) in
    let rest = strcpy fuel m' (dst + 1) (src + 1) in if m src == 0 then some m' else rest

-- strncpy(): the first loop copies up to the terminator, the second pads with NUL.
pub pad_nul : Memory → ℕ → ℕ → ℕ → Memory
pad_nul m dst i zero = m
pad_nul m dst i (suc left) = pad_nul (store m (dst + i) 0) dst (i + 1) left

pub strncpy_from : Memory → ℕ → ℕ → ℕ → ℕ → Memory
strncpy_from m dst src i zero = m
strncpy_from m dst src i (suc left) = elim (m (src + i) == 0) [
  | true ↦ pad_nul m dst i (suc left)
  | false ↦ strncpy_from (store m (dst + i) (m (src + i))) dst src (i + 1) left
]

pub strncpy : Memory → ℕ → ℕ → ℕ → Memory
unfolding strncpy_from pad_nul
strncpy m dst src n = strncpy_from m dst src 0 n

pub strcat : ℕ → Memory → ℕ → ℕ → Option Memory
unfolding strcpy
strcat zero m dst src = none
strcat (suc fuel) m dst src =
    let rest = strcat fuel m (dst + 1) src in
    if m dst == 0 then strcpy (suc fuel) m dst src else rest

-- strchr(), and strrchr() with the last match so far.
pub strchr : ℕ → Memory → ℕ → ℕ → Option ℕ
strchr zero m s c = none
strchr (suc fuel) m s c =
    let rest = strchr fuel m (s + 1) c in
    if m s == 0 then some (if c == 0 then s else 0) else if m s == c then some s else rest

pub strrchr_from : ℕ → Memory → ℕ → ℕ → ℕ → Option ℕ
strrchr_from zero m s c found = none
strrchr_from (suc fuel) m s c found =
    let rest = strrchr_from fuel m (s + 1) c (if m s == c then s else found) in
    if m s == 0 then some found else rest

pub strrchr : ℕ → Memory → ℕ → ℕ → Option ℕ
unfolding strrchr_from
strrchr fuel m s c = strrchr_from fuel m s c 0

-- The bytes of a text stand at an address, with their terminator.
abbrev pub IsText : Memory → ℕ → List ℕ → Type 0
IsText m p [] = m p ≡ 0
IsText m p (c ∷ s) = (m p ≡ c) × (0 < c) × IsText m (p + 1) s

-- A text's bytes, without memory.
abbrev pub AllPos : List ℕ → Type 0
AllPos [] = Unit {0}
AllPos (c ∷ s) = (0 < c) × AllPos s
