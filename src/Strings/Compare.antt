-- ===== src/Strings/Compare.antt =====
-- The comparisons and strlen() of lib/string.c on texts: they return for enough fuel, and decide
-- equality and prefix.
use lightning_os.Prelude.{
  ℕ, zero, suc, ◌+◌, ◌<◌, ◌≡◌, refl, ◌↔◌, inl, inr, Bool, true, false, ◌&&◌, some, List, [], ◌∷◌,
  arith, ◌==◌, ℤ, pos, sub_ℕ, is_zero, Bool-cases, length, take,
}
use lightning_os.Strings.{Memory, IsText, strlen_from, strlen, strcmp, strncmp}

-- Equality of texts, as a test.
unfoldable pub text_eq : List ℕ → List ℕ → Bool
text_eq [] [] = true
text_eq [] (b ∷ t) = false
text_eq (a ∷ s) [] = false
text_eq (a ∷ s) (b ∷ t) = (a == b) && text_eq s t

pub text_eq_sound : (s t : List ℕ) → text_eq s t ≡ true → s ≡ t
unfolding text_eq
text_eq_sound [] [] e = refl
text_eq_sound [] (b ∷ t) e = cc
text_eq_sound (a ∷ s) [] e = cc
text_eq_sound (a ∷ s) (b ∷ t) e = ground (arith, text_eq_sound s t)

pub text_eq_refl : (s : List ℕ) → text_eq s s ≡ true
unfolding text_eq
text_eq_refl [] = refl
text_eq_refl (a ∷ s) = ground (arith, text_eq_refl s)

pub text_eq_iff : (s t : List ℕ) → (text_eq s t ≡ true) ↔ (s ≡ t)
text_eq_iff s t = (text_eq_sound s t, λ e. rw e (text_eq_refl t))

strlen_from_lem :
    (s : List ℕ) (m : Memory) (p n fuel : ℕ)
    → IsText m (p + n) s
    → length s < fuel
    → strlen_from fuel m p n ≡ some (n + length s)
unfolding strlen_from
strlen_from_lem s m p n zero h f = absurd (omega arith)
strlen_from_lem [] m p n (suc fuel) h f = ground arith
strlen_from_lem (c ∷ s) m p n (suc fuel) h f =
    ground (arith, strlen_from_lem s m p (n + 1) fuel (rw shift h.2))
  where
    shift : p + (n + 1) ≡ p + n + 1
    shift = omega arith

-- strlen() of a text returns its length, within as many rounds as the text has bytes and one more.
pub strlen_text :
    (s : List ℕ) (m : Memory) (p fuel : ℕ)
    → IsText m p s
    → length s < fuel
    → strlen fuel m p ≡ some (length s)
unfolding strlen
strlen_text s m p fuel h f = ground (arith, strlen_from_lem s m p 0 fuel (rw shift h))
  where
    shift : p + 0 ≡ p
    shift = omega arith

strcmp_lem :
    (s t : List ℕ) (m : Memory) (p q fuel : ℕ)
    → IsText m p s
    → IsText m q t
    → length s < fuel
    → (z : ℤ) × (strcmp fuel m p q ≡ some z) × (is_zero z ≡ text_eq s t)
unfolding strcmp text_eq
strcmp_lem s t m p q zero hs ht f = absurd (omega arith)
strcmp_lem [] [] m p q (suc fuel) hs ht f = (pos 0, ground arith, refl)
strcmp_lem [] (b ∷ t) m p q (suc fuel) hs ht f = (sub_ℕ 0 b, ground arith, ground arith)
strcmp_lem (a ∷ s) [] m p q (suc fuel) hs ht f = (pos a, ground arith, ground arith)
strcmp_lem (a ∷ s) (b ∷ t) m p q (suc fuel) hs ht f = elim (Bool-cases (a == b)) [
  | inl e ↦
      let (z, r, i) = strcmp_lem s t m (p + 1) (q + 1) fuel hs.2 ht.2 (omega arith) in
      (z, ground arith, ground arith)
  | inr e ↦ (sub_ℕ a b, ground arith, ground arith)
]

-- strcmp() of two texts returns, and its result is 0 exactly when the texts are equal.
pub strcmp_text :
    (s t : List ℕ) (m : Memory) (p q fuel : ℕ)
    → IsText m p s
    → IsText m q t
    → length s < fuel
    → (z : ℤ) × (strcmp fuel m p q ≡ some z) × ((is_zero z ≡ true) ↔ (s ≡ t))
strcmp_text s t m p q fuel hs ht f =
    let (z, r, i) = strcmp_lem s t m p q fuel hs ht f in (z, r, rw i (text_eq_iff s t))

-- strncmp() of two texts is 0 exactly when their first `n` bytes are equal.
pub strncmp_text :
    (n : ℕ) (s t : List ℕ) (m : Memory) (p q : ℕ)
    → IsText m p s
    → IsText m q t
    → is_zero (strncmp m p q n) ≡ text_eq (take n s) (take n t)
unfolding strncmp text_eq
strncmp_text zero s t m p q hs ht = refl
strncmp_text (suc n) [] [] m p q hs ht = ground arith
strncmp_text (suc n) [] (b ∷ t) m p q hs ht = ground arith
strncmp_text (suc n) (a ∷ s) [] m p q hs ht = ground arith
strncmp_text (suc n) (a ∷ s) (b ∷ t) m p q hs ht =
    ground (arith, strncmp_text n s t m (p + 1) (q + 1) hs.2 ht.2)
