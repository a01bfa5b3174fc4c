-- ===== src/Mouse/Packets.antt =====
-- The packet decoder of drivers/mouse.c.
use mathlib.Core.Path.{subst}
use lightning_os.Prelude.{
  ℕ, zero, suc, ◌+◌, ◌-◌, ◌*◌, ◌/◌, ◌%◌, ◌≡◌, ◌<◌, ◌≤◌, refl, sym, ap, ◌∙◌, ◌&&◌, Option, some,
  none, List, [], ◌∷◌, ◌++◌, ltb, ◌==◌, pos, neg, set, get_or, ℤ, arith, length, length-set,
  if_cases, inl, inr, ◌⊎◌,
}
use lightning_os.Ports.{Ports}
use lightning_os.Vga.{Vga}
use lightning_os.Vga.Frame.{Shows}
use lightning_os.Vga.Shows.{vga_scroll_view-Shows}
use lightning_os.Mouse.{Mouse, wheel_lines, packet_done, take_byte, scroll_by, mouse_callback}

-- The next byte goes into the packet.
pub record IsDecoder (m : Mouse) : Type 0 where
  pub storage : length m.packet ≡ 4
  pub index : m.packet_index < m.packet_size
  pub size : m.packet_size ≤ 4

take_byte-IsDecoder : (byte : ℕ) (m : Mouse) → IsDecoder m → IsDecoder (take_byte byte m).0
unfolding take_byte
take_byte-IsDecoder byte m d =
    let a = d.storage in
    let b = d.index in
    let c = d.size in
    let l = length-set m.packet m.packet_index byte in
    let P : Mouse × Option ℤ → Type 0 = λ r. IsDecoder r.0 in
    let stored : IsDecoder
        (record m { packet = set m.packet m.packet_index byte; packet_index = 0 }) =
      record { storage = l ∙ a; index = omega (arith, b); size = c } in
    if_cases P (m.packet_index == 0 && byte / 8 % 2 == 0) _ _ (λ e. d)
      (λ e.
        if_cases P (ltb (m.packet_index + 1) m.packet_size) _ _
          (λ f. record { storage = l ∙ a; index = ground (arith, f); size = c })
          (λ f. if_cases P (ltb m.packet_size 4) _ _ (λ g. stored) (λ g. stored)))

scroll_by-Shows : (lines : Option ℤ) (v : Vga) → Shows v → Shows (scroll_by lines v)
unfolding scroll_by
scroll_by-Shows none v s = s
scroll_by-Shows (some lines) v s = vga_scroll_view-Shows lines v s

-- A byte of the mouse keeps the decoder's index inside the packet, and the screen right, whatever
-- the controller says.
pub mouse_callback-IsDecoder :
    {D : Type 0} (io : Ports D) (m : Mouse) (v : Vga) (d : D)
    → IsDecoder m
    → Shows v
    → let (m', v', d') = mouse_callback io m v d in IsDecoder m' × Shows v'
unfolding mouse_callback
mouse_callback-IsDecoder {D} io m v d i s =
    let byte = (io.inb 0x60 (io.inb 0x64 d).1).0 in
    let rest = (io.inb 0x60 (io.inb 0x64 d).1).1 in
    let P : Mouse × Vga × D → Type 0 = λ r. IsDecoder r.0 × Shows r.1 in
    if_cases P ((io.inb 0x64 d).0 % 2 == 0) _ _ (λ e. (i, s))
      (λ e. (take_byte-IsDecoder byte m i, scroll_by-Shows (take_byte byte m).1 v s))

abbrev pub with_lines : Option ℤ → List ℤ → List ℤ
with_lines none more = more
with_lines (some lines) more = lines ∷ more

-- The scrolls that bytes lead to, in order.
unfoldable pub take_bytes : List ℕ → Mouse → Mouse × List ℤ
unfolding take_byte
take_bytes [] m = (m, [])
take_bytes (byte ∷ bytes) m =
    let (m', lines) = take_byte byte m in
    let (m'', more) = take_bytes bytes m' in (m'', with_lines lines more)

-- What the wheel did: notches towards the user or away from him.
pub data Wheel : Type 0 where
  still : Wheel
  towards away : ℕ → Wheel

-- A packet of a mouse with a wheel. The high half of its last byte holds other buttons.
pub record Packet : Type 0 where
  pub flags : ℕ
  pub x : ℕ
  pub y : ℕ
  pub high : ℕ
  pub wheel : Wheel

-- The notches as four bits with a sign: from 1 to 7 towards the user, from 1 to 8 away.
abbrev pub Fits : Wheel → Type 0
Fits still = Unit {0}
Fits (towards n) = (0 < n) × (n ≤ 7)
Fits (away n) = (0 < n) × (n ≤ 8)

unfoldable pub z_field : Wheel → ℕ
z_field still = 0
z_field (towards n) = n
z_field (away n) = 16 - n

-- Bit 3 of the first byte is set, and the wheel fits.
abbrev pub AllFlagged : List Packet → Type 0
AllFlagged [] = Unit {0}
AllFlagged (p ∷ ps) = (p.flags / 8 % 2 ≡ 1) × Fits p.wheel × AllFlagged ps

unfoldable pub bytes_of : List Packet → List ℕ
unfolding z_field
bytes_of [] = []
bytes_of (p ∷ ps) = p.flags ∷ p.x ∷ p.y ∷ (p.high * 16 + z_field p.wheel) ∷ bytes_of ps

-- Three lines a notch, back to older lines for a wheel that turns away from the user.
unfoldable pub lines_of : Wheel → Option ℤ
lines_of still = none
lines_of (towards n) = some (neg (3 * n))
lines_of (away n) = some (pos (3 * n))

unfoldable pub scrolls_of : List Packet → List ℤ
unfolding lines_of
scrolls_of [] = []
scrolls_of (p ∷ ps) = with_lines (lines_of p.wheel) (scrolls_of ps)

wheel_lines_lem : (high : ℕ) (w : Wheel) → Fits w → wheel_lines (high * 16 + z_field w) ≡ lines_of w
unfolding wheel_lines z_field lines_of
wheel_lines_lem high still f = let z : (high * 16 + 0) % 16 ≡ 0 = omega arith in ground (arith, z)
wheel_lines_lem high (towards n) f =
    let z : (high * 16 + n) % 16 ≡ n = omega (arith, f.1) in ground (arith, z, f.0, f.1)
wheel_lines_lem high (away n) f =
    let z : (high * 16 + (16 - n)) % 16 ≡ 16 - n = omega (arith, f.0, f.1) in
    let back : 16 - (16 - n) ≡ n = omega (arith, f.1) in ground (arith, z, back, f.0, f.1)

-- The packet of a mouse with a wheel, at its beginning.
pub record Aligned (m : Mouse) : Type 0 where
  pub storage : length m.packet ≡ 4
  pub index : m.packet_index ≡ 0
  pub size : m.packet_size ≡ 4

-- The decoder with a byte stored.
abbrev stored : Mouse → ℕ → ℕ → Mouse
stored m byte next = record m { packet = set m.packet m.packet_index byte; packet_index = next }

inside :
    (byte i : ℕ) (m : Mouse)
    → m.packet_index ≡ i
    → m.packet_size ≡ 4
    → i < 3
    → (i ≡ 0) ⊎ (0 < i)
    → (i ≡ 0 → byte / 8 % 2 ≡ 1)
    → take_byte byte m ≡ (stored m byte (i + 1), none)
unfolding take_byte
inside byte i m e n h (inl z) f = let g = f z in ground (arith, e, n, h, z, g)
inside byte i m e n h (inr p) f = ground (arith, e, n, h, p)

get_or-set : (xs : List ℕ) (i v : ℕ) → i < length xs → get_or (set xs i v) i 0 ≡ v
get_or-set [] i v h = absurd (omega (arith, h))
get_or-set (x ∷ xs) zero v h = refl
get_or-set (x ∷ xs) (suc i) v h = get_or-set xs i v (omega (arith, h))

at_end :
    (byte : ℕ) (m : Mouse)
    → length m.packet ≡ 4
    → m.packet_index ≡ 3
    → m.packet_size ≡ 4
    → take_byte byte m ≡ (stored m byte 0, wheel_lines byte)
unfolding take_byte packet_done
at_end byte m l e n =
    let g : get_or (set m.packet 3 byte) 3 0 ≡ byte =
      get_or-set m.packet 3 byte (omega (arith, l)) in
    ground (arith, l, e, n, g)

take_bytes_step :
    (byte : ℕ) (bytes : List ℕ) (m m' : Mouse) (lines : Option ℤ)
    → take_byte byte m ≡ (m', lines)
    → take_bytes (byte ∷ bytes) m
      ≡ ((take_bytes bytes m').0, with_lines lines (take_bytes bytes m').1)
unfolding take_bytes
take_bytes_step byte bytes m m' lines e =
    ap
      (λ (r : Mouse × Option ℤ).
        ((take_bytes bytes r.0).0, with_lines r.1 (take_bytes bytes r.0).1))
      e

one_packet :
    (p : Packet) (m : Mouse) (bytes : List ℕ)
    → Aligned m
    → p.flags / 8 % 2 ≡ 1
    → (m' : Mouse) × (Aligned m'
        × (take_bytes (p.flags ∷ p.x ∷ p.y ∷ (p.high * 16 + z_field p.wheel) ∷ bytes) m ≡ (
          (take_bytes bytes m').0,
          with_lines (wheel_lines (p.high * 16 + z_field p.wheel)) (take_bytes bytes m').1,
        )))
one_packet p m bytes a f =
    let z = p.high * 16 + z_field p.wheel in
    let n = a.size in
    let l1 = length-set m.packet m.packet_index p.flags ∙ a.storage in
    let m1 : Mouse = stored m p.flags 1 in
    let m2 : Mouse = stored m1 p.x 2 in
    let m3 : Mouse = stored m2 p.y 3 in
    let l2 = length-set m1.packet 1 p.x ∙ l1 in
    let l3 = length-set m2.packet 2 p.y ∙ l2 in
    let e1 = inside p.flags 0 m a.index n (omega arith) (inl refl) (λ z. f) in
    let e2 =
      inside p.x 1 m1 refl n (omega arith) (inr (omega arith)) (λ z. absurd (omega (arith, z))) in
    let e3 =
      inside p.y 2 m2 refl n (omega arith) (inr (omega arith)) (λ z. absurd (omega (arith, z))) in
    let e4 = at_end z m3 l3 refl n in
    (
      stored m3 z 0,
      (
        record { storage = length-set m3.packet 3 z ∙ l3; index = refl; size = n },
        take_bytes_step p.flags (p.x ∷ p.y ∷ z ∷ bytes) m m1 none e1
            ∙ take_bytes_step p.x (p.y ∷ z ∷ bytes) m1 m2 none e2
            ∙ take_bytes_step p.y (z ∷ bytes) m2 m3 none e3
            ∙ take_bytes_step z bytes m3 (stored m3 z 0) (wheel_lines z) e4,
      ),
    )

-- Bytes before a packet whose bit 3 is clear are dropped.
abbrev pub NoneFlagged : List ℕ → Type 0
NoneFlagged [] = Unit {0}
NoneFlagged (b ∷ bs) = (b / 8 % 2 ≡ 0) × NoneFlagged bs

dropped :
    (bs bytes : List ℕ) (m : Mouse)
    → Aligned m
    → NoneFlagged bs
    → take_bytes (bs ++ bytes) m ≡ take_bytes bytes m
unfolding take_bytes take_byte
dropped [] bytes m a n = refl
dropped (b ∷ bs) bytes m a n = ground (arith, a.index, n.0, dropped bs bytes m a n.1)

decode :
    (ps : List Packet) (m : Mouse)
    → Aligned m
    → AllFlagged ps
    → let (m', scrolls) = take_bytes (bytes_of ps) m in (scrolls ≡ scrolls_of ps) × Aligned m'
unfolding bytes_of scrolls_of take_bytes
decode [] m a f = (refl, a)
decode (p ∷ ps) m a f =
    let (m', (a', e)) = one_packet p m (bytes_of ps) a f.0 in
    let (s, l) = decode ps m' a' f.2 in
    let lines = wheel_lines_lem p.high p.wheel f.1 in
    (
      ap (λ r. r.1) e
          ∙ ap (λ z. with_lines z (take_bytes (bytes_of ps) m').1) lines
          ∙ ap (with_lines (lines_of p.wheel)) s,
      subst (λ (r : Mouse × List ℤ). Aligned r.0) (sym e) l,
    )

-- From the beginning of a packet, with a wheel: bytes whose bit 3 is clear are dropped, and of the
-- packets behind them, whose first bytes have it set and whose last bytes hold the notches as four
-- bits with a sign, each with a wheel movement scrolls the screen by three lines a notch, back to
-- older lines where the wheel turns away from the user, in order; the decoder stands at the
-- beginning of a packet again.
pub packets_decode :
    (noise : List ℕ) (ps : List Packet) (m : Mouse)
    → Aligned m
    → NoneFlagged noise
    → AllFlagged ps
    → let (m', scrolls) = take_bytes (noise ++ bytes_of ps) m in
      (scrolls ≡ scrolls_of ps) × Aligned m'
packets_decode noise ps m a n f =
    let e = dropped noise (bytes_of ps) m a n in
    let (s, l) = decode ps m a f in
    (ap (λ r. r.1) e ∙ s, subst (λ (r : Mouse × List ℤ). Aligned r.0) (sym e) l)
