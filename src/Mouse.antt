-- ===== src/Mouse.antt =====
-- drivers/mouse.c: the PS/2 mouse, over the ports, and its wheel, which scrolls the screen. A function
-- that waits gives true or false; a byte that is read is `none` where the wait failed.
pub mod Packets
mod Tests
use lightning_os.Prelude.{
  ℕ, zero, suc, ◌+◌, ◌-◌, ◌*◌, ◌/◌, ◌%◌, Bool, true, false, not, ◌&&◌, ◌||◌, Option, some, none,
  List, [], ◌∷◌, ltb, ◌==◌, if◌then◌else◌, replicate, set, get_or, ℤ, pos, neg,
}
use lightning_os.Ports.{Ports}
use lightning_os.Vga.{Vga, vga_scroll_view}

-- The file's static variables.
pub record Mouse : Type 0 where
  pub packet : List ℕ
  pub packet_index : ℕ
  pub packet_size : ℕ
  pub device_id : ℕ
  pub present : Bool

pub static_mouse : Mouse
static_mouse = record {
  packet = replicate 4 0;
  packet_index = 0;
  packet_size = 3;
  device_id = 0;
  present = false;
}

-- The Z field of a packet: 4 bits with a sign. What vga_scroll_view() is called with, if it is.
unfoldable pub wheel_lines : ℕ → Option ℤ
wheel_lines byte =
    let z = byte % 16 in
    if z == 0 then none else if ltb z 8 then some (neg (z * 3)) else some (pos ((16 - z) * 3))

-- mouse_callback(), with the byte that the controller has.
unfoldable pub packet_done : Mouse → Mouse × Option ℤ
unfolding wheel_lines
packet_done m =
    let m' = record m { packet_index = 0 } in
    if ltb m.packet_size 4 then (m', none) else (m', wheel_lines (get_or m.packet 3 0))

unfoldable pub take_byte : ℕ → Mouse → Mouse × Option ℤ
unfolding packet_done
take_byte byte m =
    let m' = record m {
      packet = set m.packet m.packet_index byte;
      packet_index = m.packet_index + 1;
    } in
    if m.packet_index == 0 && byte / 8 % 2 == 0
    then (m, none)
    else if ltb m'.packet_index m.packet_size
    then (m', none)
    else packet_done m'

pub scroll_by : Option ℤ → Vga → Vga
scroll_by none v = v
scroll_by (some lines) v = vga_scroll_view lines v

module _ {D : Type 0} (io : Ports D) where
  open io use {inb, outb}

  pub mouse_callback : Mouse → Vga → D → Mouse × Vga × D
  unfolding take_byte scroll_by
  mouse_callback m v d =
      let (status, d1) = inb 0x64 d in
      let (byte, d2) = inb 0x60 d1 in
      let (m', lines) = take_byte byte m in
      if status % 2 == 0 then (m, v, d1) else (m', scroll_by lines v, d2)

  -- The loops of wait_writable() and wait_readable().
  pub wait_status : ℕ → (ℕ → Bool) → D → Bool × D
  wait_status zero ready d = (false, d)
  wait_status (suc left) ready d =
      let (status, d') = inb 0x64 d in
      let rest = wait_status left ready d' in if ready status then (true, d') else rest

  pub wait_writable : D → Bool × D
  unfolding wait_status
  wait_writable d = wait_status 100000 (λ status. status / 2 % 2 == 0) d

  pub wait_readable : D → Bool × D
  unfolding wait_status
  wait_readable d = wait_status 100000 (λ status. status % 2 == 1) d

  pub read_data : D → Option ℕ × D
  unfolding wait_readable
  read_data d =
      let (ready, d1) = wait_readable d in
      let (byte, d2) = inb 0x60 d1 in if ready then (some byte, d2) else (none, d1)

  -- A byte to a port, once the controller takes one.
  pub send : ℕ → ℕ → D → Bool × D
  unfolding wait_writable
  send port value d =
      let (ready, d1) = wait_writable d in if ready then (true, outb port value d1) else (false, d1)

  pub mouse_command : ℕ → D → Option ℕ × D
  unfolding send read_data
  mouse_command value d =
      let (told, d1) = send 0x64 0xD4 d in
      let (sent, d2) = send 0x60 value d1 in
      if not told then (none, d1) else if not sent then (none, d2) else read_data d2

  -- 0xFA is the mouse's answer that it has taken a command.
  pub acknowledged : Option ℕ → Bool
  acknowledged none = false
  acknowledged (some byte) = byte == 0xFA

  pub set_sample_rate : ℕ → D → D
  unfolding mouse_command acknowledged
  set_sample_rate rate d =
      let (answer, d1) = mouse_command 0xF3 d in
      if acknowledged answer then (mouse_command rate d1).1 else d1

  -- device_id is -1, here 2 ^ 32 - 1, where no answer comes.
  pub known_as : Option ℕ → Mouse → Mouse
  known_as none m = record m { device_id = 4294967295 }
  known_as (some id) m = record m {
    device_id = id;
    packet_size = if id == 3 then 4 else m.packet_size;
  }

  pub enable_wheel : Mouse → D → Mouse × D
  unfolding set_sample_rate mouse_command acknowledged known_as
  enable_wheel m d =
      let (answer, d1) =
        mouse_command 0xF2 (set_sample_rate 80 (set_sample_rate 100 (set_sample_rate 200 d))) in
      let (id, d2) = read_data d1 in if acknowledged answer then (known_as id m, d2) else (m, d1)

  -- The configuration byte: interrupt 12 on, and the clock of the mouse not off.
  pub configured : ℕ → ℕ
  configured config =
      let on = if config / 2 % 2 == 0 then config + 2 else config in
      if on / 32 % 2 == 1 then on - 32 else on

  -- mouse_init(), once the configuration byte is read. (It ends by installing the handler.)
  pub mouse_setup : ℕ → Mouse → D → Mouse × D
  unfolding send configured mouse_command acknowledged enable_wheel
  mouse_setup config m d =
      let (told, d1) = send 0x64 0x60 d in
      let (sent, d2) = send 0x60 (configured config) d1 in
      let (reset, d3) = mouse_command 0xF6 d2 in
      let (m', d4) = enable_wheel m d3 in
      let (started, d5) = mouse_command 0xF4 d4 in
      if not told
      then (m, d1)
      else if not sent
      then (m, d2)
      else if not (acknowledged reset)
      then (m, d3)
      else if not (acknowledged started)
      then (m', d5)
      else (record m' { present = true; packet_index = 0 }, d5)

  pub mouse_init : Mouse → D → Mouse × D
  unfolding send read_data mouse_setup
  mouse_init m d =
      let (enabled, d1) = send 0x64 0xA8 d in
      let (asked, d2) = send 0x64 0x20 d1 in
      let (config, d3) = read_data d2 in
      if not enabled
      then (m, d1)
      else if not asked
      then (m, d2)
      else elim config [ none ↦ (m, d3) | some byte ↦ mouse_setup byte m d3 ]
