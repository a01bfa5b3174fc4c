-- ===== src/Install/Layout.antt =====
-- install_to_disk() of kernel/install.c: what stands on the disk afterwards.
use lightning_os.Prelude.{
  ℕ, zero, suc, ◌+◌, ◌-◌, ◌*◌, ◌/◌, ◌≤◌, ◌≡◌, refl, sym, ap, ◌∙◌, Bool, true, false, not, ◌&&◌,
  some, List, [], ◌∷◌, ◌++◌, ltb, leb, ◌==◌, if◌then◌else◌, replicate, length, pos, get_or, arith,
  length-append, length-replicate, ◌≢◌, Bool-cases, inr, inl,
}
use lightning_os.Ata.{Drives, ata_present, ata_sector_count}
use lightning_os.Install.{
  Disk, Image, install_image_sectors, write_installation, install_checked, install_to_disk,
  install_capture_image, zeros,
}

-- The byte of an installed disk at a place: the boot sector, the image from the second sector on
-- with zeros up to the end of its last sector, a sector of zeros at 2048, and what was there before.
pub installed_byte : List ℕ → List ℕ → (ℕ → ℕ) → ℕ → ℕ
installed_byte boot image old i =
    let sectors = (length image + 511) / 512 in
    if ltb i 512
    then get_or boot i 0
    else if ltb i (512 + sectors * 512)
    then get_or image (i - 512) 0
    else if leb (2048 * 512) i && ltb i (2048 * 512 + 512)
    then 0
    else old i

get_or-replicate : (n i : ℕ) → get_or {A = ℕ} (replicate n 0) i 0 ≡ 0
get_or-replicate zero i = refl
get_or-replicate (suc n) zero = refl
get_or-replicate (suc n) (suc i) = get_or-replicate n i

get_or-zeros : (n i : ℕ) → get_or (zeros n) i 0 ≡ 0
unfolding zeros
get_or-zeros n i = get_or-replicate n i

length-zeros : (n : ℕ) → length (zeros n) ≡ n
unfolding zeros
length-zeros n = length-replicate {A = ℕ} n 0

get_or-padded : (image : List ℕ) (n i : ℕ) → get_or (image ++ zeros n) i 0 ≡ get_or image i 0
get_or-padded [] n i = get_or-zeros n i
get_or-padded (c ∷ image) n zero = refl
get_or-padded (c ∷ image) n (suc i) = get_or-padded image n i

-- The image was captured, it is at most 256 sectors, and the disk is there and has room for it and
-- 64 sectors of data.
abbrev pub suits : Bool → List ℕ → Drives → ℕ → Bool
suits captured image drives drive =
    captured
    && not (length image == 0)
    && ata_present drives drive
    && leb ((length image + 511) / 512) 256
    && leb 2112 (ata_sector_count drives drive)

module _ {D : Type 0} (disk : Disk D) (boot : List ℕ) (size : length boot ≡ 512) where
  open disk use {write, byte, written}

  installed_all :
      (room : Bool) (image : List ℕ) (drive : ℕ) (d : D)
      → let sectors = (length image + 511) / 512 in
        sectors ≤ 256
        → (write_installation disk boot room image sectors drive d).0 ≡ pos 0
        → (i : ℕ)
        → byte (write_installation disk boot room image sectors drive d).1 drive i
          ≡ installed_byte boot image (byte d drive) i
  unfolding write_installation installed_byte
  installed_all room image drive d few ok i =
      let sectors = (length image + 511) / 512 in
      let pad = sectors * 512 - length image in
      let padded = image ++ zeros pad in
      let d1 = (write drive 0 boot d).1 in
      let d2 = (write drive 1 padded d1).1 in
      let a : (write drive 0 boot d).0 ≡ true = ground (arith, ok) in
      let b : (write drive 1 padded d1).0 ≡ true = ground (arith, ok) in
      let c : (write drive 2048 (zeros 512) d2).0 ≡ true = ground (arith, ok) in
      let r : room ≡ true = ground (arith, ok) in
      let w1 = written drive 0 boot d (omega arith) a i in
      let w2 = written drive 1 padded d1 (omega arith) b i in
      let w3 = written drive 2048 (zeros 512) d2 (omega arith) c i in
      let n2 : length padded ≡ sectors * 512 =
        omega (arith, length-append image (zeros pad), length-zeros pad) in
      let z = get_or-zeros 512 (i - 2048 * 512) in
      let p = get_or-padded image pad (i - 1 * 512) in
      let n3 = length-zeros 512 in
      let e0 : i - 0 * 512 ≡ i = omega arith in
      ground (arith, w1, w2, w3, size, n2, n3, z, p, few, a, b, c, r, e0)

  checked_lem :
      (room : Bool) (image : List ℕ) (drives : Drives) (drive : ℕ) (d : D)
      → let m : Image = record { copy = some image; bytes = length image } in
        (suits true image drives drive ≡ false
          → ((install_checked disk boot room m image drives drive d).1 ≡ d)
            × ((install_checked disk boot room m image drives drive d).0 ≢ pos 0))
        × (suits true image drives drive ≡ true
            → ((length image + 511) / 512 ≤ 256)
              × (install_checked disk boot room m image drives drive d
                  ≡ write_installation disk boot room image ((length image + 511) / 512) drive d))
  unfolding install_checked install_image_sectors
  checked_lem room image drives drive d =
      let e : length image + 512 - 1 ≡ length image + 511 = omega arith in
      (
        λ h. (ground (arith, h, e), λ z. ground (arith, h, e, z)),
        λ h. (ground (arith, h), ground (arith, h, e)),
      )

  -- install_to_disk() of a captured image, whatever the allocator gives: where the image or the disk
  -- does not suit, it fails and nothing is written; where it gives 0 they do suit, and the disk holds
  -- the boot sector, the image from its second sector on, zeros behind it up to the end of the
  -- sector, a sector of zeros at 2048, and everywhere else what it held before.
  pub install_to_disk_lem :
      (captured room : Bool) (image : List ℕ) (drives : Drives) (drive : ℕ) (d : D)
      → let r =
          install_to_disk disk boot room (install_capture_image captured image) drives drive d in
        (suits captured image drives drive ≡ false → (r.1 ≡ d) × (r.0 ≢ pos 0))
        × (r.0 ≡ pos 0
            → (suits captured image drives drive ≡ true)
              × ((i : ℕ) → byte r.1 drive i ≡ installed_byte boot image (byte d drive) i))
  unfolding install_to_disk install_capture_image
  install_to_disk_lem false room image drives drive d = (λ h. (refl, λ e. cc), λ e. absurd (cc))
  install_to_disk_lem true room image drives drive d =
      let (fails, go) = checked_lem room image drives drive d in
      (
        fails,
        λ ok. elim (Bool-cases (suits true image drives drive)) [
          | inr n ↦ absurd ((fails n).1 ok)
          | inl y ↦
              let (few, same) = go y in
              (
                y,
                λ i.
                    ap (λ z. byte z.1 drive i) same
                    ∙ installed_all room image drive d few (ap (λ z. z.0) (sym same) ∙ ok) i,
              )
        ],
      )
