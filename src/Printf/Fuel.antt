-- ===== src/Printf/Fuel.antt =====
-- The loop of format() in lib/printf.c ends.
use lightning_os.Prelude.{
  ℕ, zero, suc, ◌+◌, ◌*◌, ◌-◌, ◌≤◌, ◌<◌, ◌≡◌, refl, ap, Bool, true, false, not, ◌&&◌, List, [], ◌∷◌,
  ◌++◌, Option, some, none, arith, leb, ◌==◌, if◌then◌else◌, if_cases, length,
}
use mathlib.Core.Option
use lightning_os.Printf.{
  Arg, take_width, starts, tail, is_nil, convert, emit, after_flags, format_from,
}

length-tail : (cs : List ℕ) → length (tail cs) ≤ length cs
length-tail [] = omega arith
length-tail (c ∷ cs) = omega arith

length-skip : (b : Bool) (cs : List ℕ) → length (if b then tail cs else cs) ≤ length cs
length-skip true cs = length-tail cs
length-skip false cs = omega arith

length-take_width : (width : ℕ) (cs : List ℕ) → length (take_width width cs).1 ≤ length cs
unfolding take_width
length-take_width width [] = omega arith
length-take_width width (c ∷ cs) =
    let r = length-take_width (width * 10 + (c - b'0')) cs in
    if_cases (λ (z : ℕ × List ℕ). length z.1 ≤ suc (length cs)) (leb b'0' c && leb c b'9') _ _
      (λ _. omega (arith, r)) (λ _. omega arith)

-- The fuel did not run out.
pub Ends {ℓ} : {A : Type ℓ} → Option A → Type ℓ
Ends {A = A} result = (value : A) × (result ≡ some value)

emit-Ends : (out : List ℕ) (rest : Option (Option (List ℕ))) → Ends rest → Ends (emit out rest)
unfolding Ends emit
emit-Ends out rest (value, e) =
    (Option.map (λ more. out ++ more) value, ap (Option.map (Option.map (λ more. out ++ more))) e)

after_flags-Ends :
    (more : List ℕ → List Arg → Option (Option (List ℕ))) (rest : List ℕ) (width pad : ℕ)
    (left : Bool) (args : List Arg)
    → ((ks : List ℕ) (a : List Arg) → length ks < length rest → Ends (more ks a))
    → Ends (after_flags more rest width pad left args)
unfolding after_flags Ends
after_flags-Ends more [] width pad left args h = (none, refl)
after_flags-Ends more (c ∷ cs) width pad left args h =
    elim (convert c width pad left args)
      as (λ o. Ends (elim o [ none ↦ some none | some (out, args') ↦ emit out (more cs args') ])) [
        | none ↦ (none, refl)
        | some (out, args') ↦ emit-Ends out (more cs args') (h cs args' (omega arith))
      ]

-- With more fuel than the format has characters the loop ends: each round takes a character at
-- least, with the flags and the width of a conversion or without.
pub format_from-Ends :
    (fuel : ℕ) (fmt : List ℕ) (args : List Arg)
    → length fmt < fuel
    → Ends (format_from fuel fmt args)
unfolding format_from Ends
format_from-Ends zero fmt args h = absurd (omega (arith, h))
format_from-Ends (suc fuel) [] args h = (some [], refl)
format_from-Ends (suc fuel) (c ∷ cs) args h =
    let left = starts b'-' cs in
    let after_left : List ℕ = if left then tail cs else cs in
    let zeros = starts b'0' after_left in
    let after_zero : List ℕ = if zeros then tail after_left else after_left in
    let rest = (take_width 0 after_zero).1 in
    let width = (take_width 0 after_zero).0 in
    let short : length rest ≤ length cs =
      omega (
        arith,
        length-take_width 0 after_zero,
        length-skip zeros after_left,
        length-skip left cs,
      ) in
    let pad : ℕ = if zeros then b'0' else b' ' in
    if_cases Ends (not (c == b'%')) _ _
      (λ _.
        emit-Ends (c ∷ []) (format_from fuel cs args)
          (format_from-Ends fuel cs args (omega (arith, h))))
      (λ _.
        if_cases Ends (is_nil cs) _ _ (λ _. (some [], refl))
          (λ _.
            after_flags-Ends (format_from fuel) rest width pad left args
              (λ ks a l. format_from-Ends fuel ks a (omega (arith, h, l, short)))))
