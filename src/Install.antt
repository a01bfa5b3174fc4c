-- ===== src/Install.antt =====
-- kernel/install.c: the copy of the kernel's image, the choice of a disk, and what is written to it.
-- The boot sector, which the build generates, and the disk behind ata_write() are parameters; a
-- buffer that is written is the list of its bytes, a whole number of sectors.
pub mod Layout
pub mod Menu
mod Tests
use lightning_os.Prelude.{
  ℕ, ◌+◌, ◌-◌, ◌*◌, ◌/◌, ◌<◌, ◌≤◌, ◌≡◌, Bool, true, false, not, ◌&&◌, ◌||◌, Option, some, none,
  List, [], ◌∷◌, ◌++◌, ltb, leb, ◌==◌, if◌then◌else◌, replicate, length, ℤ, pos, neg, get_or,
}
use lightning_os.Ata.{Drives, ata_present, ata_sector_count}

-- ata_write() of a drive from a sector on. `byte` is what the drive holds at a place: a write that
-- succeeds, from one of the first sectors on, so that the sum of the range does not wrap, puts the
-- bytes there and changes nothing else on that drive.
pub record Disk (D : Type 0) : Type 0 where
  pub write : (drive lba : ℕ) → List ℕ → D → Bool × D
  pub byte : D → ℕ → ℕ → ℕ
  pub written :
      (drive lba : ℕ) (bytes : List ℕ) (d : D)
      → lba ≤ 2048
      → (write drive lba bytes d).0 ≡ true
      → (i : ℕ)
      → byte (write drive lba bytes d).1 drive i ≡ (
          if leb (lba * 512) i && ltb i (lba * 512 + length bytes)
          then get_or bytes (i - lba * 512) 0
          else byte d drive i)

-- memset(..., 0, n)
pub zeros : ℕ → List ℕ
zeros n = replicate n 0

pub record Image : Type 0 where
  pub copy : Option (List ℕ)
  pub bytes : ℕ

-- install_capture_image(): `room` says whether kmalloc() gives the memory.
pub install_capture_image : Bool → List ℕ → Image
install_capture_image room image = record {
  copy = if room then some image else none;
  bytes = length image;
}

pub install_image_sectors : Image → ℕ
install_image_sectors m = (m.bytes + 512 - 1) / 512

pub install_find_target : Drives → Option ℕ
install_find_target drives =
    if ata_present drives 0 then some 0 else if ata_present drives 1 then some 1 else none

-- The flag that the CD's boot stage leaves at 0x7000.
pub install_booted_from_medium : ℕ → Bool
install_booted_from_medium flag = flag == 0x4F534943

module _ {D : Type 0} (disk : Disk D) (boot : List ℕ) where
  open disk use {write}

  -- The three writes; `room` says whether kmalloc() gives the buffer.
  pub write_installation : Bool → List ℕ → ℕ → ℕ → D → ℤ × D
  write_installation room image sectors drive d =
      let (boot_done, d1) = write drive 0 boot d in
      let padded = image ++ zeros (sectors * 512 - length image) in
      let (kernel_done, d2) = write drive 1 padded d1 in
      let (blank_done, d3) = write drive 2048 (zeros 512) d2 in
      if not boot_done
      then (neg 5, d1)
      else if not room
      then (neg 6, d1)
      else if not kernel_done
      then (neg 7, d2)
      else if not blank_done
      then (neg 8, d3)
      else (pos 0, d3)

  pub install_checked : Bool → Image → List ℕ → Drives → ℕ → D → ℤ × D
  unfolding install_image_sectors write_installation
  install_checked room m image drives drive d =
      let sectors = install_image_sectors m in
      if m.bytes == 0
      then (neg 1, d)
      else if not (ata_present drives drive)
      then (neg 2, d)
      else if ltb 256 sectors
      then (neg 3, d)
      else if ltb (ata_sector_count drives drive) (2048 + 64)
      then (neg 4, d)
      else write_installation room image sectors drive d

  pub install_to_disk : Bool → Image → Drives → ℕ → D → ℤ × D
  unfolding install_checked
  install_to_disk room m drives drive d = elim m.copy [
    | none ↦ (neg 1, d)
    | some image ↦ install_checked room m image drives drive d
  ]
