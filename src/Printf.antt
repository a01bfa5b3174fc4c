-- ===== src/Printf.antt =====
-- lib/printf.c: the formatter, as the list of the characters that it gives to sink_putc() in order,
-- and the sink that is a buffer. A list of variable arguments is a list of words and texts; where the
-- code would read an argument that is not there, or beyond the end of the format, the model gives
-- `some none`, and `none` only where a loop runs out of its fuel.
pub mod Number
pub mod Buffer
pub mod Fuel
mod Tests
use mathlib.Core.Option
use lightning_os.Prelude.{
  ◌||◌, ℕ, zero, suc, ◌+◌, ◌-◌, ◌*◌, ◌/◌, ◌%◌, ◌^◌, Bool, true, false, not, ◌&&◌, Option, some,
  none, List, [], ◌∷◌, ◌++◌, ltb, leb, ◌==◌, if◌then◌else◌, length, replicate,
}

pub data Arg : Type 0 where
  word : ℕ → Arg
  text : Option (List ℕ) → Arg

-- A sink that is a buffer of `size` bytes.
pub record Sink : Type 0 where
  pub buf : ℕ → ℕ
  pub size : ℕ
  pub pos : ℕ

abbrev pub set_char : (ℕ → ℕ) → ℕ → ℕ → ℕ → ℕ
set_char buf i c x = if x == i then c else buf x

pub sink_putc : Sink → ℕ → Sink
sink_putc s c =
    if ltb (s.pos + 1) s.size
    then record s { buf = set_char s.buf s.pos c; pos = s.pos + 1 }
    else record s { pos = s.pos + 1 }

pub sink_puts : Sink → List ℕ → Sink
sink_puts s [] = s
sink_puts s (c ∷ cs) = sink_puts (sink_putc s c) cs

-- The digit of a value under 16, from digits_lower or digits_upper.
abbrev pub digit : Bool → ℕ → ℕ
digit upper d = if ltb d 10 then b'0' + d else if upper then b'A' + (d - 10) else b'a' + (d - 10)

-- The second loop of format_uint(), on what the first one has found: `out` is the text so far, the
-- digits come from the lowest on. The fuel is for a value that falls with each division.
pub digits_from : ℕ → ℕ → ℕ → Bool → List ℕ → List ℕ
digits_from zero value base upper out = out
digits_from (suc fuel) value base upper out =
    let rest = digits_from fuel (value / base) base upper (digit upper (value % base) ∷ out) in
    if value == 0 then out else rest

pub format_uint : ℕ → ℕ → Bool → List ℕ
format_uint value base upper = if value == 0 then b'0' ∷ [] else digits_from 32 value base upper []

pub emit_padded : List ℕ → ℕ → ℕ → Bool → List ℕ
emit_padded t width pad left =
    let len = length t in
    if left then t ++ replicate (width - len) b' ' else replicate (width - len) pad ++ t

-- The digits of a width.
pub take_width : ℕ → List ℕ → ℕ × List ℕ
take_width width [] = (width, [])
take_width width (c ∷ cs) =
    let rest = take_width (width * 10 + (c - b'0')) cs in
    if leb b'0' c && leb c b'9' then rest else (width, c ∷ cs)

abbrev pub null_text : List ℕ
null_text = b'(' ∷ b'n' ∷ b'u' ∷ b'l' ∷ b'l' ∷ b')' ∷ []

-- The conversions 'd' and 'i' of a 32-bit word.
pub emit_signed : ℕ → ℕ → ℕ → Bool → List ℕ
emit_signed value width pad left =
    if leb (2 ^ 31) value
    then b'-' ∷ emit_padded (format_uint ((2 ^ 32 - value) % 2 ^ 32) 10 false) width pad left
    else emit_padded (format_uint value 10 false) width pad left

pub text_or_null : Option (List ℕ) → List ℕ
text_or_null none = null_text
text_or_null (some t) = t

-- The conversions of a number.
pub takes_word : ℕ → Bool
takes_word c =
    c == b'c' || c == b'd' || c == b'i' || c == b'u' || c == b'x' || c == b'X' || c == b'p'

-- The switch of format(): what it emits, and the arguments that are left.
pub convert : ℕ → ℕ → ℕ → Bool → List Arg → Option (List ℕ × List Arg)
convert c width pad left (word v ∷ args) =
    if c == b'c'
    then some (v % 256 ∷ [], args)
    else if c == b'd' || c == b'i'
    then some (emit_signed (v % 2 ^ 32) width pad left, args)
    else if c == b'u'
    then some (emit_padded (format_uint (v % 2 ^ 32) 10 false) width pad left, args)
    else if c == b'x'
    then some (emit_padded (format_uint (v % 2 ^ 32) 16 false) width pad left, args)
    else if c == b'X'
    then some (emit_padded (format_uint (v % 2 ^ 32) 16 true) width pad left, args)
    else if c == b'p'
    then some (b'0' ∷ b'x' ∷ emit_padded (format_uint (v % 2 ^ 32) 16 false) 8 b'0' false, args)
    else if c == b's'
    then none
    else if c == b'%'
    then some (b'%' ∷ [], word v ∷ args)
    else some (b'%' ∷ c ∷ [], word v ∷ args)
convert c width pad left (text t ∷ args) =
    if c == b's'
    then some (emit_padded (text_or_null t) width b' ' left, args)
    else if takes_word c
    then none
    else if c == b'%'
    then some (b'%' ∷ [], text t ∷ args)
    else some (b'%' ∷ c ∷ [], text t ∷ args)
convert c width pad left [] =
    if c == b's' || takes_word c
    then none
    else if c == b'%'
    then some (b'%' ∷ [], [])
    else some (b'%' ∷ c ∷ [], [])

abbrev pub starts : ℕ → List ℕ → Bool
starts c [] = false
starts c (d ∷ ds) = d == c

abbrev pub tail : List ℕ → List ℕ
tail [] = []
tail (c ∷ cs) = cs

abbrev pub is_nil : List ℕ → Bool
is_nil [] = true
is_nil (c ∷ cs) = false

-- The characters that are emitted before those of the rest.
pub emit : List ℕ → Option (Option (List ℕ)) → Option (Option (List ℕ))
emit out rest = Option.map (Option.map (λ more. out ++ more)) rest

-- What format() does behind the flags and the width, with `more` for the characters after it.
pub after_flags :
    (List ℕ → List Arg → Option (Option (List ℕ)))
    → List ℕ
    → ℕ
    → ℕ
    → Bool
    → List Arg
    → Option (Option (List ℕ))
unfolding emit
after_flags more [] width pad left args = some none
after_flags more (c ∷ cs) width pad left args = elim (convert c width pad left args) [
  | none ↦ some none
  | some (out, args') ↦ emit out (more cs args')
]

-- format(), on a format and arguments. The outer `none` is a loop that runs out of its fuel.
pub format_from : ℕ → List ℕ → List Arg → Option (Option (List ℕ))
unfolding after_flags emit
format_from zero fmt args = none
format_from (suc fuel) [] args = some (some [])
format_from (suc fuel) (c ∷ cs) args =
    let left = starts b'-' cs in
    let after_left = if left then tail cs else cs in
    let zeros = starts b'0' after_left in
    let after_zero = if zeros then tail after_left else after_left in
    let (width, rest) = take_width 0 after_zero in
    let plain = emit (c ∷ []) (format_from fuel cs args) in
    let converted =
      after_flags (format_from fuel) rest width (if zeros then b'0' else b' ') left args in
    if not (c == b'%') then plain else if is_nil cs then some (some []) else converted

pub format : List ℕ → List Arg → Option (Option (List ℕ))
format fmt args = format_from (length fmt + 1) fmt args

-- What the sink holds after the characters, terminated.
pub finish : (ℕ → ℕ) → ℕ → List ℕ → ℕ → ℕ
finish buf size out =
    let sink = sink_puts (record { buf = buf; size = size; pos = 0 }) out in
    if size == 0
    then sink.buf
    else set_char sink.buf (if ltb sink.pos size then sink.pos else size - 1) 0

-- kvsnprintf() into a buffer.
pub kvsnprintf : (ℕ → ℕ) → ℕ → List ℕ → List Arg → Option (Option (ℕ → ℕ))
unfolding format finish
kvsnprintf buf size fmt args =
    Option.map (Option.map (λ out. finish buf size out)) (format fmt args)
