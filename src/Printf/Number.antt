-- ===== src/Printf/Number.antt =====
-- format_uint() of lib/printf.c: the digits and the value.
use mathlib.Core.Path.{subst}
use lightning_os.Prelude.{
  ℕ, zero, suc, ◌+◌, ◌-◌, ◌*◌, ◌/◌, ◌%◌, ◌^◌, ◌≤◌, ◌<◌, ◌≡◌, refl, sym, ap, ◌∙◌, ◌⊎◌, inl, inr,
  Bool, true, false, not, ◌&&◌, ◌||◌, List, [], ◌∷◌, arith, leb, ◌==◌, if◌then◌else◌, if_cases,
  length, Bool-cases,
}
use lightning_os.Printf.{digit, digits_from, format_uint}

-- A digit of base 10 or 16, the letters small or capital, and its value.
pub is_digit : ℕ → Bool → ℕ → Bool
is_digit base upper c =
    leb b'0' c && leb c b'9'
    || not (base == 10) && (if upper then leb b'A' c && leb c b'F' else leb b'a' c && leb c b'f')

pub char_value : ℕ → ℕ
char_value c = if leb c b'9' then c - b'0' else if leb c b'Z' then c - b'A' + 10 else c - b'a' + 10

pub all_digits : ℕ → Bool → List ℕ → Bool
all_digits base upper [] = true
all_digits base upper (c ∷ cs) = is_digit base upper c && all_digits base upper cs

-- A digit stands in front, and it is no zero.
pub leads : List ℕ → Bool
leads [] = false
leads (c ∷ cs) = not (c == b'0')

-- The value of digits behind a number.
pub read_number : ℕ → ℕ → List ℕ → ℕ
read_number base acc [] = acc
read_number base acc (c ∷ cs) = read_number base (acc * base + char_value c) cs

-- The text is the numeral of `v`: of digits, without zeros in front, and read as `v`.
pub record IsNumeral (base : ℕ) (upper : Bool) (v : ℕ) (t : List ℕ) : Type 0 where
  pub value : read_number base 0 t ≡ v
  pub digits : all_digits base upper t ≡ true
  pub front : (t ≡ b'0' ∷ []) ⊎ (leads t ≡ true)

char_value-digit : (upper : Bool) (d : ℕ) → d < 16 → char_value (digit upper d) ≡ d
unfolding char_value
char_value-digit upper d h = ground (arith, h)

digit_ok :
    (upper : Bool) (base d : ℕ)
    → (base ≡ 10) ⊎ (base ≡ 16)
    → d < base
    → is_digit base upper (digit upper d) ≡ true
unfolding is_digit
digit_ok upper base d (inl b) h = let s : d < 10 = omega (arith, b, h) in ground (arith, b, s)
digit_ok upper base d (inr b) h = let s : d < 16 = omega (arith, b, h) in ground (arith, b, s)

remainder : (v base : ℕ) → (base ≡ 10) ⊎ (base ≡ 16) → v % base < base
remainder v base (inl e) = subst (λ b. v % b < b) (sym e) (omega arith)
remainder v base (inr e) = subst (λ b. v % b < b) (sym e) (omega arith)

whole : (v base : ℕ) → (base ≡ 10) ⊎ (base ≡ 16) → 0 < v → v / base ≡ 0 → 0 < v % base
whole v base (inl e) =
    subst (λ b. 0 < v → v / b ≡ 0 → 0 < v % b) (sym e) (λ p q. omega (arith, p, q))
whole v base (inr e) =
    subst (λ b. 0 < v → v / b ≡ 0 → 0 < v % b) (sym e) (λ p q. omega (arith, p, q))

digits_from-digits :
    (fuel v base : ℕ) (upper : Bool) (out : List ℕ)
    → (base ≡ 10) ⊎ (base ≡ 16)
    → all_digits base upper out ≡ true
    → all_digits base upper (digits_from fuel v base upper out) ≡ true
unfolding digits_from all_digits
digits_from-digits zero v base upper out b h = h
digits_from-digits (suc fuel) v base upper out b h =
    let small : v % base < base = remainder v base b in
    let ok = digit_ok upper base (v % base) b small in
    let more : all_digits base upper (digit upper (v % base) ∷ out) ≡ true =
      ground (arith, ok, h) in
    let ih = digits_from-digits fuel (v / base) base upper (digit upper (v % base) ∷ out) b more in
    if_cases (λ t. all_digits base upper t ≡ true) (v == 0) _ _ (λ _. h) (λ _. ih)

-- What fits into `n` halvings.
doubles : ℕ → ℕ
doubles zero = 1
doubles (suc n) = 2 * doubles n

divided :
    (v base : ℕ)
    → (base ≡ 10) ⊎ (base ≡ 16)
    → (v / base * base + v % base ≡ v) × (v % base < 16) × (2 * (v / base) ≤ v)
divided v base (inl e) =
    subst (λ b. (v / b * b + v % b ≡ v) × (v % b < 16) × (2 * (v / b) ≤ v)) (sym e)
      (omega arith, omega arith, omega arith)
divided v base (inr e) =
    subst (λ b. (v / b * b + v % b ≡ v) × (v % b < 16) × (2 * (v / b) ≤ v)) (sym e)
      (omega arith, omega arith, omega arith)

leads-digit : (upper : Bool) (d : ℕ) (out : List ℕ) → 0 < d → leads (digit upper d ∷ out) ≡ true
unfolding leads
leads-digit upper d out h = ground (arith, h)

-- The last digit that is found is the first of the value, and no zero.
digits_from-leads :
    (fuel v base : ℕ) (upper : Bool) (out : List ℕ)
    → (base ≡ 10) ⊎ (base ≡ 16)
    → v < doubles fuel
    → (leads out ≡ true) ⊎ (0 < v)
    → leads (digits_from fuel v base upper out) ≡ true
unfolding digits_from doubles
digits_from-leads zero v base upper out b h (inl l) = l
digits_from-leads zero v base upper out b h (inr p) = absurd (omega (arith, h, p))
digits_from-leads (suc fuel) v base upper out b h l =
    let (sum, small, half) = divided v base b in
    if_cases (λ t. leads t ≡ true) (v == 0) _ _
      (λ z. elim l [ inl o ↦ o | inr p ↦ absurd (ground (arith, p, z)) ])
      (λ n.
        digits_from-leads fuel (v / base) base upper (digit upper (v % base) ∷ out) b
          (omega (arith, h, half))
          (elim (Bool-cases (v / base == 0)) [
            | inl q ↦ inl (
                leads-digit upper (v % base) out
                  (whole v base b (ground (arith, n)) (ground (arith, q))))
            | inr q ↦ inr (ground (arith, q))
          ]))

zero_of : (v : ℕ) → v < 1 → 0 ≡ v
zero_of v h = omega (arith, h)

digits_from_value :
    (fuel v base : ℕ) (upper : Bool) (out : List ℕ)
    → (base ≡ 10) ⊎ (base ≡ 16)
    → v < doubles fuel
    → read_number base 0 (digits_from fuel v base upper out) ≡ read_number base v out
unfolding digits_from doubles read_number
digits_from_value zero v base upper out b h =
    ap (λ z. read_number base z out) (zero_of v (omega (arith, h)))
digits_from_value (suc fuel) v base upper out b h =
    let (sum, small, half) = divided v base b in
    let next : v / base * base + char_value (digit upper (v % base)) ≡ v =
      ap (λ n. v / base * base + n) (char_value-digit upper (v % base) small) ∙ sum in
    if_cases (λ t. read_number base 0 t ≡ read_number base v out) (v == 0) out
      (digits_from fuel (v / base) base upper (digit upper (v % base) ∷ out))
      (λ z. ap (λ n. read_number base n out) (zero_of v (ground (arith, z))))
      (λ _.
        digits_from_value fuel (v / base) base upper (digit upper (v % base) ∷ out) b
          (omega (arith, h, half))
        ∙ ap (λ n. read_number base n out) next)

length-digits_from :
    (fuel v base : ℕ) (upper : Bool) (out : List ℕ)
    → length (digits_from fuel v base upper out) ≤ fuel + length out
unfolding digits_from
length-digits_from zero v base upper out = omega arith
length-digits_from (suc fuel) v base upper out =
    ground (arith, length-digits_from fuel (v / base) base upper (digit upper (v % base) ∷ out))

doubles_32 : doubles 32 ≡ 2 ^ 32
unfolding doubles
doubles_32 = refl

zero-IsNumeral : (v base : ℕ) (upper : Bool) → v ≡ 0 → IsNumeral base upper v (b'0' ∷ [])
unfolding read_number char_value all_digits is_digit
zero-IsNumeral v base upper z = record {
  value = ground (arith, z);
  digits = refl;
  front = inl refl;
}

-- In base 10 and 16, format_uint() of a 32-bit value gives its numeral: digits of the base, its
-- letters capital or small as asked, that read as the value, with no zero in front but for the value
-- 0, which is one zero; they are few enough for the scratch of 36 bytes with their terminator.
pub format_uint-IsNumeral :
    (v base : ℕ) (upper : Bool)
    → (base ≡ 10) ⊎ (base ≡ 16)
    → v < 2 ^ 32
    → IsNumeral base upper v (format_uint v base upper) × (length (format_uint v base upper) < 36)
unfolding format_uint read_number all_digits
format_uint-IsNumeral v base upper b h =
    let low : v < doubles 32 = omega (arith, h, doubles_32) in
    if_cases (λ t. IsNumeral base upper v t × (length t < 36)) (v == 0) _ _
      (λ z. (zero-IsNumeral v base upper (ground (arith, z)), omega arith))
      (λ n. (
        record {
          value = digits_from_value 32 v base upper [] b low;
          digits = digits_from-digits 32 v base upper [] b refl;
          front = inr (digits_from-leads 32 v base upper [] b low (inr (ground (arith, n))));
        },
        omega (arith, length-digits_from 32 v base upper []),
      ))
