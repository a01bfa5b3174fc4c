-- ===== src/Strings/Tests.antt =====
-- The theorems about lib/string.c at concrete memories.
use lightning_os.Prelude.{
  ℕ, ◌+◌, ◌-◌, ◌≡◌, ◌↔◌, refl, inr, true, some, List, [], ◌∷◌, arith, ◌==◌, if◌then◌else◌, ℤ,
  is_zero,
}
use lightning_os.Strings.{Memory, IsText, memmove, strlen, strcmp, strncmp, strncpy}
use lightning_os.Strings.Move.{inside, memmove_at}
use lightning_os.Strings.Compare.{text_eq, strlen_text, strcmp_text, strncmp_text}
use lightning_os.Strings.Copy.{strncpy-IsText}

-- "ab" at 10, and zeros elsewhere.
abbrev small_memory : Memory
small_memory x = if x == 10 then b'a' else if x == 11 then b'b' else 0

memmove_at_example :
    memmove small_memory 11 10 2 12
    ≡ (if inside 11 2 12 then small_memory (10 + (12 - 11)) else small_memory 12)
memmove_at_example = memmove_at 2 small_memory 11 10 12

strlen_text_example : strlen 5 small_memory 10 ≡ some 2
strlen_text_example = strlen_text (b'a' ∷ b'b' ∷ []) small_memory 10 5 (omega arith) (omega arith)

strcmp_text_example :
    (z : ℤ) × (strcmp 5 small_memory 10 11 ≡ some z)
    × ((is_zero z ≡ true) ↔ (◌≡◌ {A = List ℕ} (b'a' ∷ b'b' ∷ []) (b'b' ∷ [])))
strcmp_text_example =
    strcmp_text (b'a' ∷ b'b' ∷ []) (b'b' ∷ []) small_memory 10 11 5 (omega arith) (omega arith)
      (omega arith)

strncmp_text_example : is_zero (strncmp small_memory 10 11 1) ≡ text_eq (b'a' ∷ []) (b'b' ∷ [])
strncmp_text_example =
    strncmp_text 1 (b'a' ∷ b'b' ∷ []) (b'b' ∷ []) small_memory 10 11 (omega arith) (omega arith)

strncpy-IsText_example : IsText (strncpy small_memory 20 10 1) 20 (b'a' ∷ [])
strncpy-IsText_example =
    strncpy-IsText 1 (b'a' ∷ b'b' ∷ []) small_memory 20 10 (omega arith) (inr (omega arith)) refl
