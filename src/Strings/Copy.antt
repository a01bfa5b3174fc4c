-- ===== src/Strings/Copy.antt =====
-- The copies of lib/string.c: strcpy() and strncpy() against the text that they copy.
use native.Mathlib.Nat.{add-zero}
use lightning_os.Prelude.{
  ◌∙◌, sym, ap, ℕ, zero, suc, ◌+◌, ◌-◌, ◌≤◌, ◌<◌, ◌≡◌, refl, ◌⊎◌, false, List, [], ◌∷◌, arith, ◌==◌,
  if◌then◌else◌, length, take, get_or,
}
use lightning_os.Strings.{AllPos, Memory, IsText, store, strncpy, strncpy_from, pad_nul}
use lightning_os.Strings.Move.{inside}

pad_nul_at :
    (left : ℕ) (m : Memory) (d i x : ℕ)
    → pad_nul m d i left x ≡ (if inside (d + i) left x then 0 else m x)
unfolding pad_nul
pad_nul_at zero m d i x = ground arith
pad_nul_at (suc left) m d i x = ground (arith, pad_nul_at left (store m (d + i) 0) d (i + 1) x)

-- Writing outside a text leaves it there.
pub IsText-store :
    (s : List ℕ) (m : Memory) (p a v : ℕ)
    → (a < p) ⊎ (p + length s < a)
    → IsText m p s
    → IsText (store m a v) p s
IsText-store [] m p a v h t = ground arith
IsText-store (c ∷ s) m p a v h t =
    (ground arith, t.1, IsText-store s m (p + 1) a v (ground arith) t.2)

get_or-cons :
    (c : ℕ) (s : List ℕ) (k : ℕ) → get_or (c ∷ s) k 0 ≡ (if k == 0 then c else get_or s (k - 1) 0)
get_or-cons c s zero = refl
get_or-cons c s (suc k) = let e : suc k - 1 ≡ k = omega arith in ground arith

-- What strncpy() leaves at offset `i` of the target: the text's byte, and NUL past its end.
strncpy_from_at :
    (left : ℕ) (s : List ℕ) (m : Memory) (d p i x : ℕ)
    → IsText m (p + i) s
    → (d + i + left ≤ p + i) ⊎ (p + i + length s < d + i)
    → strncpy_from m d p i left x
      ≡ (if inside (d + i) left x then get_or s (x - (d + i)) 0 else m x)
unfolding strncpy_from
strncpy_from_at zero s m d p i x t h = ground arith
strncpy_from_at (suc left) [] m d p i x t h = ground (arith, pad_nul_at (suc left) m d i x)
strncpy_from_at (suc left) (c ∷ s) m d p i x t h = ground (
  arith,
  t.0,
  more,
  get_or-cons c s (x - (d + i)),
  strncpy_from_at left s m' d p (i + 1) x kept (ground arith),
)
  where
    m' : Memory
    m' = store m (d + i) (m (p + i))

    more : (m (p + i) == 0) ≡ false
    more = ground arith

    shift : p + (i + 1) ≡ p + i + 1
    shift = omega arith

    kept : IsText m' (p + (i + 1)) s
    kept = rw shift (IsText-store s m (p + i + 1) (d + i) _ (ground arith) t.2)

-- strncpy() fills exactly the `n` bytes of the target: with the bytes of the text while it lasts,
-- and with NUL from there on, provided that the target does not meet the text.
pub strncpy_at :
    (n : ℕ) (s : List ℕ) (m : Memory) (d p x : ℕ)
    → IsText m p s
    → (d + n ≤ p) ⊎ (p + length s < d)
    → strncpy m d p n x ≡ (if inside d n x then get_or s (x - d) 0 else m x)
unfolding strncpy
strncpy_at n s m d p x t h =
    ground (arith, strncpy_from_at n s m d p 0 x (rw (add-zero p) t) (ground arith))

IsText-of_bytes :
    (n : ℕ) (s : List ℕ) (m : Memory) (d : ℕ)
    → AllPos s
    → ((k : ℕ) → k < n → m (d + k) ≡ get_or s k 0)
    → m (d + n) ≡ 0
    → IsText m d (take n s)
IsText-of_bytes zero s m d a h z = ap m (sym (add-zero d)) ∙ z
IsText-of_bytes (suc n) [] m d a h z = ap m (sym (add-zero d)) ∙ h 0 (omega arith)
IsText-of_bytes (suc n) (c ∷ s) m d a h z = (
  ap m (sym (add-zero d)) ∙ h 0 (omega arith),
  a.0,
  IsText-of_bytes n s m (d + 1) a.1 (λ k l. ap m (omega arith) ∙ h (suc k) (omega arith))
      (ap m (omega arith) ∙ z),
)

IsText-AllPos : (s : List ℕ) (m : Memory) (p : ℕ) → IsText m p s → AllPos s
IsText-AllPos [] m p t = tt
IsText-AllPos (c ∷ s) m p t = (t.1, IsText-AllPos s m (p + 1) t.2)

-- A field of `n + 1` bytes whose last is NUL holds, after strncpy() of a text with bound `n`, the
-- text cut to `n` bytes.
pub strncpy-IsText :
    (n : ℕ) (s : List ℕ) (m : Memory) (d p : ℕ)
    → IsText m p s
    → (d + n ≤ p) ⊎ (p + length s < d)
    → m (d + n) ≡ 0
    → IsText (strncpy m d p n) d (take n s)
strncpy-IsText n s m d p t h z =
    IsText-of_bytes n s (strncpy m d p n) d (IsText-AllPos s m p t)
      (λ k l. strncpy_at n s m d p (d + k) t h ∙ inner k l)
      (strncpy_at n s m d p (d + n) t h ∙ ground arith)
  where
    inner :
        (k : ℕ)
        → k < n
        → (if inside d n (d + k) then get_or s (d + k - d) 0 else m (d + k)) ≡ get_or s k 0
    inner k l = let e : d + k - d ≡ k = omega arith in rw e (ground arith)
