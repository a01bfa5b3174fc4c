-- ===== src/Ata.antt =====
-- drivers/ata.c: the polled disk driver, over the ports. A function that returns 0 or -1 gives true
-- or false. A buffer is a function from the index of a word of 16 bits to the word.
pub mod Chunks
mod Tests
use lightning_os.Prelude.{
  ℕ, zero, suc, ◌+◌, ◌-◌, ◌*◌, ◌/◌, ◌%◌, ◌^◌, Bool, true, false, not, ◌&&◌, ◌||◌, Option, some,
  none, List, [], ◌∷◌, ◌++◌, ltb, leb, ◌==◌, if◌then◌else◌, take, length,
}
use lightning_os.Ports.{Ports}

pub record DriveInfo : Type 0 where
  pub present : Bool
  pub sectors : ℕ
  pub model : List ℕ

abbrev pub Drives : Type 0
Drives = ℕ → DriveInfo

unfoldable pub ata_present : Drives → ℕ → Bool
ata_present drives drive = leb drive 1 && (drives drive).present

unfoldable pub ata_sector_count : Drives → ℕ → ℕ
unfolding ata_present
ata_sector_count drives drive = if ata_present drives drive then (drives drive).sectors else 0

pub ata_model : Drives → ℕ → List ℕ
unfolding ata_present
ata_model drives drive = if ata_present drives drive then (drives drive).model else []

-- `status & bit`, for a bit given by its value.
abbrev pub has_bit : ℕ → ℕ → Bool
has_bit status bit = status / bit % 2 == 1

-- The bytes of a model's name, each word's high byte first.
pub model_bytes : (ℕ → ℕ) → ℕ → ℕ → List ℕ
model_bytes id i zero = []
model_bytes id i (suc left) = id (27 + i) / 256 ∷ id (27 + i) % 256 ∷ model_bytes id (i + 1) left

-- Blanks and NUL bytes at the end go; a NUL byte before them ends the text.
pub trim : List ℕ → List ℕ
trim [] = []
trim (c ∷ s) =
    let rest = trim s in if (c == b' ' || c == 0) && length rest == 0 then [] else c ∷ rest

pub before_nul : List ℕ → List ℕ
before_nul [] = []
before_nul (c ∷ s) = if c == 0 then [] else c ∷ before_nul s

-- copy_model(): the text of 40 bytes.
pub copy_model : (ℕ → ℕ) → List ℕ
unfolding model_bytes trim before_nul
copy_model id = before_nul (trim (model_bytes id 0 20))

pub poll_limit : ℕ
poll_limit = 1000000

module _ {D : Type 0} (io : Ports D) where
  open io use {inb, inw, outb, outw}

  pub io_delay_400ns : D → D
  io_delay_400ns d = (inb 0x3F6 (inb 0x3F6 (inb 0x3F6 (inb 0x3F6 d).1).1).1).1

  pub select_drive : ℕ → ℕ → D → D
  unfolding io_delay_400ns
  select_drive drive lba d =
      io_delay_400ns (outb 0x1F6 ((if drive == 1 then 0xF0 else 0xE0) + lba / 2 ^ 24 % 16) d)

  -- The loop of wait_not_busy(), and of wait_drq().
  pub wait_not_busy : ℕ → D → Bool × D
  wait_not_busy zero d = (false, d)
  wait_not_busy (suc left) d =
      let (status, d') = inb 0x1F7 d in
      let rest = wait_not_busy left d' in if has_bit status 0x80 then rest else (true, d')

  pub wait_drq : ℕ → D → Bool × D
  wait_drq zero d = (false, d)
  wait_drq (suc left) d =
      let (status, d') = inb 0x1F7 d in
      let rest = wait_drq left d' in
      if has_bit status 0x01 || has_bit status 0x20
      then (false, d')
      else if not (has_bit status 0x80) && has_bit status 0x08
      then (true, d')
      else rest

  -- `count` words, from index `i` of the buffer on.
  pub send_words : (ℕ → ℕ) → ℕ → ℕ → D → D
  send_words buffer i zero d = d
  send_words buffer i (suc count) d = send_words buffer (i + 1) count (outw 0x1F0 (buffer i) d)

  pub receive_words : (ℕ → ℕ) → ℕ → ℕ → D → (ℕ → ℕ) × D
  receive_words buffer i zero d = (buffer, d)
  receive_words buffer i (suc count) d =
      let (word, d') = inw 0x1F0 d in
      receive_words (λ j. if j == i then word else buffer j) (i + 1) count d'

  -- identify(), after the command: `none` where nothing that the driver can use is there.
  pub identify_answer : D → Option (ℕ × List ℕ) × D
  unfolding poll_limit wait_not_busy wait_drq receive_words copy_model
  identify_answer d =
      let (status, d1) = inb 0x1F7 d in
      let (free, d2) = wait_not_busy poll_limit d1 in
      let (mid, d3) = inb 0x1F4 d2 in
      let (high, d4) = inb 0x1F5 d3 in
      let (ready, d5) = wait_drq poll_limit d4 in
      let (id, d6) = receive_words (λ i. 0) 0 256 d5 in
      let sectors = id 60 + id 61 * 2 ^ 16 in
      if status == 0
      then (none, d1)
      else if not free
      then (none, d2)
      else if not (mid == 0)
      then (none, d3)
      else if not (high == 0)
      then (none, d4)
      else if not ready
      then (none, d5)
      else (some (sectors, copy_model id), d6)

  -- The entry of a drive keeps its old model where none is found.
  pub identified : Option (ℕ × List ℕ) → DriveInfo → DriveInfo
  identified none info = record info { present = false }
  identified (some (sectors, model)) info =
      if sectors == 0
      then record info { present = false; sectors = 0 }
      else record { present = true; sectors = sectors; model = model }

  pub identify : ℕ → Drives → D → Drives × D
  unfolding select_drive io_delay_400ns identify_answer identified
  identify drive drives d =
      let d1 = outb 0x1F5 0 (outb 0x1F4 0 (outb 0x1F3 0 (outb 0x1F2 0 (select_drive drive 0 d)))) in
      let (answer, d2) = identify_answer (io_delay_400ns (outb 0x1F7 0xEC d1)) in
      ((λ n. if n == drive then identified answer (drives n) else drives n), d2)

  pub ata_init : D → Drives × D
  unfolding identify
  ata_init d =
      let (drives, d1) =
        identify 0 (λ n. record { present = false; sectors = 0; model = [] }) (outb 0x3F6 0x02 d) in
      identify 1 drives d1

  -- The sectors of a command, one by one.
  pub sectors_from : Bool → (ℕ → ℕ) → ℕ → ℕ → D → Bool × (ℕ → ℕ) × D
  unfolding poll_limit wait_drq send_words receive_words
  sectors_from write buffer at zero d = (true, buffer, d)
  sectors_from write buffer at (suc left) d =
      let (ready, d1) = wait_drq poll_limit d in
      let (buffer', d2) =
        if write then (buffer, send_words buffer at 256 d1) else receive_words buffer at 256 d1 in
      let rest = sectors_from write buffer' (at + 256) left d2 in
      if not ready then (false, buffer, d1) else rest

  -- What follows a write: the cache is flushed.
  pub flush : D → Bool × D
  unfolding poll_limit wait_not_busy
  flush d =
      let (free, d1) = wait_not_busy poll_limit d in
      if not free then (false, d1) else wait_not_busy poll_limit (outb 0x1F7 0xE7 d1)

  -- transfer_chunk(): the words stand in the buffer from index `at` on.
  pub transfer_chunk : ℕ → ℕ → ℕ → (ℕ → ℕ) → ℕ → Bool → D → Bool × (ℕ → ℕ) × D
  unfolding poll_limit wait_not_busy select_drive sectors_from flush
  transfer_chunk drive lba count buffer at write d =
      let (free, d1) = wait_not_busy poll_limit d in
      let d2 = outb 0x1F2 count (outb 0x1F1 0 (select_drive drive lba d1)) in
      let d3 =
        outb 0x1F5 (lba / 2 ^ 16 % 256)
          (outb 0x1F4 (lba / 2 ^ 8 % 256) (outb 0x1F3 (lba % 256) d2)) in
      let d4 = outb 0x1F7 (if write then 0x30 else 0x20) d3 in
      let (done, buffer', d5) =
        sectors_from write buffer at (if count == 0 then 256 else count) d4 in
      let (flushed, d6) = flush d5 in
      if not free
      then (false, buffer, d1)
      else if not done
      then (false, buffer', d5)
      else if write
      then (flushed, buffer', d6)
      else (true, buffer', d5)

  -- The loop of transfer(): a round takes a sector at least.
  pub transfer_from : ℕ → ℕ → ℕ → ℕ → (ℕ → ℕ) → ℕ → Bool → D → Option (Bool × (ℕ → ℕ) × D)
  transfer_from zero drive lba count buffer at write d = none
  transfer_from (suc fuel) drive lba count buffer at write d =
      let chunk = if ltb 255 count then 255 else count in
      let (done, buffer', d') = transfer_chunk drive lba chunk buffer at write d in
      let rest =
        transfer_from fuel drive (lba + chunk) (count - chunk) buffer' (at + chunk * 256) write
          d' in
      if count == 0
      then some (true, buffer, d)
      else if not done
      then some (false, buffer', d')
      else rest

  -- transfer(): the sum of its test is one of 32 bits.
  pub transfer : Drives → ℕ → ℕ → ℕ → (ℕ → ℕ) → Bool → D → Option (Bool × (ℕ → ℕ) × D)
  unfolding ata_present transfer_from
  transfer drives drive lba count buffer write d =
      if not (ata_present drives drive)
      then some (false, buffer, d)
      else if count == 0
      then some (true, buffer, d)
      else if ltb (drives drive).sectors ((lba + count) % 2 ^ 32)
      then some (false, buffer, d)
      else transfer_from (count + 1) drive lba count buffer 0 write d

  pub ata_read : Drives → ℕ → ℕ → ℕ → (ℕ → ℕ) → D → Option (Bool × (ℕ → ℕ) × D)
  unfolding transfer
  ata_read drives drive lba count buffer d = transfer drives drive lba count buffer false d

  pub ata_write : Drives → ℕ → ℕ → ℕ → (ℕ → ℕ) → D → Option (Bool × (ℕ → ℕ) × D)
  unfolding transfer
  ata_write drives drive lba count buffer d = transfer drives drive lba count buffer true d
