-- ===== src/Printf/Tests.antt =====
-- Concrete runs of lib/printf.c.
use lightning_os.Prelude.{ℕ, ◌<◌, ◌≡◌, refl, inr, true, List, [], ◌∷◌, some, none, arith, length}
use lightning_os.Printf.{
  word, text, format, format_from, format_uint, emit, convert, take_width, emit_padded, emit_signed,
  digits_from, text_or_null, after_flags,
}
use lightning_os.Printf.Number.{IsNumeral, format_uint-IsNumeral}

format_uint-IsNumeral_example :
    IsNumeral 16 true 48879 (format_uint 48879 16 true) × (length (format_uint 48879 16 true) < 36)
format_uint-IsNumeral_example = format_uint-IsNumeral 48879 16 true (inr refl) (omega arith)

abbrev hello : List ℕ
hello = b'h' ∷ b'e' ∷ b'l' ∷ b'l' ∷ b'o' ∷ []

-- "%4u|%-4x|%s" of 42, 255 and "hello".
format_test :
    format
      (b'%' ∷ b'4' ∷ b'u' ∷ b'|' ∷ b'%' ∷ b'-' ∷ b'4' ∷ b'x' ∷ b'|' ∷ b'%' ∷ b's' ∷ [])
      (word 42 ∷ word 255 ∷ text (some hello) ∷ [])
    ≡ some (some (b' ' ∷ b' ' ∷ b'4' ∷ b'2' ∷ b'|' ∷ b'f' ∷ b'f' ∷ b' ' ∷ b' ' ∷ b'|' ∷ hello))
unfolding format format_from emit after_flags convert take_width emit_padded format_uint digits_from
    text_or_null
format_test = refl

-- "%4d" of -3: the padding stands between the sign and the digit.
padded_sign :
    format (b'%' ∷ b'4' ∷ b'd' ∷ []) (word 4294967293 ∷ [])
    ≡ some (some (b'-' ∷ b' ' ∷ b' ' ∷ b' ' ∷ b'3' ∷ []))
unfolding format format_from emit after_flags convert take_width emit_padded emit_signed format_uint
    digits_from
padded_sign = refl

-- "%4": the format ends in a conversion.
cut_format : format (b'%' ∷ b'4' ∷ []) [] ≡ some none
unfolding format format_from emit after_flags take_width
cut_format = refl
