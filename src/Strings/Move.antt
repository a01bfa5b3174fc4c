-- ===== src/Strings/Move.antt =====
-- The block operations of lib/string.c: what each byte of memory is afterwards.
use lightning_os.Prelude.{
  ℕ, zero, suc, ◌+◌, ◌-◌, ◌%◌, ◌≤◌, ◌≡◌, ◌⊎◌, Bool, ◌&&◌, arith, ltb, leb, if◌then◌else◌,
}
use lightning_os.Strings.{Memory, store, memset, memcpy, copy_down, memmove}

-- The address lies in the `n` bytes from `p`.
abbrev pub inside : ℕ → ℕ → ℕ → Bool
inside p n x = leb p x && ltb x (p + n)

memcpy_at :
    (n : ℕ) (m : Memory) (d s x : ℕ)
    → (d ≤ s) ⊎ (s + n ≤ d)
    → memcpy m d s n x ≡ (if inside d n x then m (s + (x - d)) else m x)
unfolding memcpy
memcpy_at zero m d s x h = ground arith
memcpy_at (suc n) m d s x h = ground (arith, memcpy_at n (store m d (m s)) (d + 1) (s + 1) x)

copy_down_at :
    (n : ℕ) (m : Memory) (d s x : ℕ)
    → s ≤ d
    → copy_down m d s n x ≡ (if inside d n x then m (s + (x - d)) else m x)
unfolding copy_down
copy_down_at zero m d s x h = ground arith
copy_down_at (suc n) m d s x h =
    ground (arith, copy_down_at n (store m (d + n) (m (s + n))) d s x h)

-- memmove() makes the `n` bytes at `dst` what the `n` bytes at `src` were, however the two ranges
-- overlap, and changes no other byte.
pub memmove_at :
    (n : ℕ) (m : Memory) (d s x : ℕ)
    → memmove m d s n x ≡ (if inside d n x then m (s + (x - d)) else m x)
unfolding memmove
memmove_at n m d s x = ground (arith, memcpy_at n m d s x, copy_down_at n m d s x)

-- memcpy() does the same where the ranges are disjoint or the target does not start above the
-- source.
pub memcpy-memmove :
    (n : ℕ) (m : Memory) (d s x : ℕ) → (d ≤ s) ⊎ (s + n ≤ d) → memcpy m d s n x ≡ memmove m d s n x
memcpy-memmove n m d s x h = ground (arith, memcpy_at n m d s x, memmove_at n m d s x)

pub memset_at :
    (n : ℕ) (m : Memory) (d v x : ℕ) → memset m d v n x ≡ (if inside d n x then v % 256 else m x)
unfolding memset
memset_at zero m d v x = ground arith
memset_at (suc n) m d v x = ground (arith, memset_at n (store m d (v % 256)) (d + 1) v x)
