-- ===== src/Printf/Buffer.antt =====
-- The buffer that kvsnprintf() of lib/printf.c fills.
use lightning_os.Prelude.{
  if_cases, ap, ◌∙◌, ℕ, zero, suc, ◌+◌, ◌-◌, ◌≤◌, ◌≡◌, refl, ◌&&◌, List, [], ◌∷◌, arith, ltb, leb,
  ◌==◌, if◌then◌else◌, length, get_or,
}
use Prim.Native.Nat.{min}
use lightning_os.Printf.{Sink, sink_putc, sink_puts, finish}

sink_putc-pos : (s : Sink) (c : ℕ) → (sink_putc s c).pos ≡ s.pos + 1
unfolding sink_putc
sink_putc-pos s c =
    if_cases (λ (t : Sink). t.pos ≡ s.pos + 1) (ltb (s.pos + 1) s.size) _ _ (λ _. refl) (λ _. refl)

sink_putc-size : (s : Sink) (c : ℕ) → (sink_putc s c).size ≡ s.size
unfolding sink_putc
sink_putc-size s c =
    if_cases (λ (t : Sink). t.size ≡ s.size) (ltb (s.pos + 1) s.size) _ _ (λ _. refl) (λ _. refl)

sink_putc_at :
    (s : Sink) (c x : ℕ)
    → (sink_putc s c).buf x ≡ (if x == s.pos && ltb (s.pos + 1) s.size then c else s.buf x)
unfolding sink_putc
sink_putc_at s c x =
    if_cases (λ (t : Sink). t.buf x ≡ (if x == s.pos && ltb (s.pos + 1) s.size then c else s.buf x))
      (ltb (s.pos + 1) s.size) _ _ (λ b. ground (arith, b)) (λ b. ground (arith, b))

pred_suc : (n : ℕ) → n ≡ suc n - 1
pred_suc n = omega arith

get_or-cons :
    (c : ℕ) (cs : List ℕ) (n : ℕ)
    → get_or (c ∷ cs) n 0 ≡ (if n == 0 then c else get_or cs (n - 1) 0)
get_or-cons c cs zero = refl
get_or-cons c cs (suc n) = ground (arith, ap (λ m. get_or cs m 0) (pred_suc n))

-- The characters that fit before the last byte, and how many there were.
sink_puts_at :
    (out : List ℕ) (s : Sink) (x : ℕ)
    → ((sink_puts s out).buf x ≡ (
        if leb s.pos x && ltb x (s.pos + length out) && ltb (x + 1) s.size
        then get_or out (x - s.pos) 0
        else s.buf x))
      × ((sink_puts s out).pos ≡ s.pos + length out)
unfolding sink_puts
sink_puts_at [] s x = (ground arith, omega arith)
sink_puts_at (c ∷ cs) s x =
    let t = sink_putc s c in
    let r = sink_puts_at cs t x in
    let back : x - (s.pos + 1) ≡ x - s.pos - 1 = omega arith in
    let ahead : x - t.pos ≡ x - s.pos - 1 = ap (λ n. x - n) (sink_putc-pos s c) ∙ back in
    (
      ground (
        arith,
        r.0,
        sink_putc-pos s c,
        sink_putc-size s c,
        sink_putc_at s c x,
        get_or-cons c cs (x - s.pos),
        ap (λ m. get_or cs m 0) ahead,
      ),
      omega (arith, r.1, sink_putc-pos s c),
    )

-- In a buffer that is not empty, the text is cut to what leaves room for its terminator, the
-- terminator stands behind it, and every other byte is as it was.
finish_at :
    (buf : ℕ → ℕ) (size : ℕ) (out : List ℕ) (x : ℕ)
    → 1 ≤ size
    → let n = min (length out) (size - 1) in
      finish buf size out x ≡ (if ltb x n then get_or out x 0 else if x == n then 0 else buf x)
unfolding finish
finish_at buf size out x h =
    let s : Sink = record { buf = buf; size = size; pos = 0 } in
    let r = sink_puts_at out s x in
    let same : x - 0 ≡ x = omega arith in ground (arith, r.0, r.1, h, ap (λ m. get_or out m 0) same)
