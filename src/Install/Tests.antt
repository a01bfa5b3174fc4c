-- ===== src/Install/Tests.antt =====
-- kernel/install.c on a disk that takes every write.
use mathlib.Core.Path.{◌≡◌, refl}
use lightning_os.Prelude.{
  ℕ, List, [], ◌∷◌, ◌+◌, ◌-◌, ◌*◌, ◌≢◌, arith, ◌==◌, if◌then◌else◌, ltb, leb, ◌&&◌, some, none,
  true, false, get_or, length, pos, replicate, length-replicate,
}
use lightning_os.Strings.Compare.{text_eq}
use lightning_os.Ata.{Drives, ata_present, ata_sector_count}
use lightning_os.Install.{Disk, install_to_disk, install_capture_image}
use lightning_os.Install.Layout.{install_to_disk_lem, suits, installed_byte}
use lightning_os.Install.Menu.{Lines, End, run_menu, run_menu_keeps, asks_to_install}

abbrev Bytes : Type 0
Bytes = ℕ → ℕ → ℕ

abbrev put_bytes : ℕ → ℕ → List ℕ → Bytes → Bytes
put_bytes drive lba bytes d k i =
    if k == drive && (leb (lba * 512) i && ltb i (lba * 512 + length bytes))
    then get_or bytes (i - lba * 512) 0
    else d k i

put_bytes_lem :
    (drive lba : ℕ) (bytes : List ℕ) (d : Bytes) (i : ℕ)
    → put_bytes drive lba bytes d drive i ≡ (
        if leb (lba * 512) i && ltb i (lba * 512 + length bytes)
        then get_or bytes (i - lba * 512) 0
        else d drive i)
put_bytes_lem drive lba bytes d i = ground arith

abbrev plain_disk : Disk Bytes
plain_disk = record {
  write = λ drive lba bytes d. (true, put_bytes drive lba bytes d);
  byte = λ d drive i. d drive i;
  written = λ drive lba bytes d low ok i. put_bytes_lem drive lba bytes d i;
}

boot_code : List ℕ
boot_code = replicate 512 0x90

boot_code-length : length boot_code ≡ 512
unfolding boot_code
boot_code-length = length-replicate {A = ℕ} 512 0x90

abbrev one_disk : Drives
one_disk n = record { present = n == 0; sectors = 20000; model = [] }

abbrev kernel : List ℕ
kernel = 1 ∷ 2 ∷ 3 ∷ []

install_to_disk_lem_example :
    let d : Bytes = λ k i. 255 in
    let r =
      install_to_disk plain_disk boot_code true (install_capture_image true kernel) one_disk 0 d in
    (suits true kernel one_disk 0 ≡ false → (r.1 ≡ d) × (r.0 ≢ pos 0))
    × (r.0 ≡ pos 0
        → (suits true kernel one_disk 0 ≡ true)
          × ((i : ℕ) → r.1 0 i ≡ installed_byte boot_code kernel (λ i. 255) i))
install_to_disk_lem_example =
    install_to_disk_lem plain_disk boot_code boot_code-length true true kernel one_disk 0
      (λ k i. 255)

installs :
    (install_to_disk plain_disk boot_code true
      (install_capture_image true kernel)
      one_disk
      0
      (λ k i. 255)).0
    ≡ pos 0
unfolding install_to_disk install_capture_image ata_present ata_sector_count
installs = refl

abbrev typed : Lines
typed = some (b'1' ∷ []) ∷ some (b'n' ∷ b'o' ∷ []) ∷ none ∷ some (b'5' ∷ []) ∷ []

run_menu_keeps_example :
    (end : End) × (run_menu plain_disk boot_code true
        (install_capture_image true kernel)
        one_disk
        9
        typed
        (λ k i. 255)
      ≡ some (end, λ k i. 255))
unfolding asks_to_install text_eq
run_menu_keeps_example =
    run_menu_keeps plain_disk boot_code true (install_capture_image true kernel) one_disk 9 typed
      (λ k i. 255) (omega arith) refl
