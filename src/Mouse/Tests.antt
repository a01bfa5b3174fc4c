-- ===== src/Mouse/Tests.antt =====
-- drivers/mouse.c on a stream of bytes.
use lightning_os.Prelude.{List, [], ◌∷◌, ◌++◌, ◌≡◌, refl, arith, pos, neg, true}
use lightning_os.Mouse.{Mouse, take_byte}
use lightning_os.Mouse.Packets.{
  Aligned, Packet, towards, away, z_field, bytes_of, scrolls_of, take_bytes, packets_decode,
}

abbrev wheel_mouse : Mouse
wheel_mouse = record {
  packet = 0 ∷ 0 ∷ 0 ∷ 0 ∷ [];
  packet_index = 0;
  packet_size = 4;
  device_id = 3;
  present = true;
}

-- A notch towards the user, and one away from him.
abbrev notches : List Packet
notches =
    record { flags = 8; x = 0; y = 0; high = 0; wheel = towards 1 }
    ∷ record { flags = 24; x = 255; y = 2; high = 1; wheel = away 1 }
    ∷ []

wheel_mouse-Aligned : Aligned wheel_mouse
wheel_mouse-Aligned = record { storage = refl; index = refl; size = refl }

packets_decode_example :
    let (m', scrolls) = take_bytes (1 ∷ 2 ∷ [] ++ bytes_of notches) wheel_mouse in
    (scrolls ≡ scrolls_of notches) × Aligned m'
packets_decode_example =
    packets_decode (1 ∷ 2 ∷ []) notches wheel_mouse wheel_mouse-Aligned (omega arith) (omega arith)

scrolls : (take_bytes (1 ∷ 2 ∷ [] ++ bytes_of notches) wheel_mouse).1 ≡ neg 3 ∷ pos 3 ∷ []
unfolding take_bytes bytes_of z_field take_byte
scrolls = refl
