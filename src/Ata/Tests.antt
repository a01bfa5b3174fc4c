-- ===== src/Ata/Tests.antt =====
-- drivers/ata.c with a machine that is always ready, and that keeps what is written to its registers.
use mathlib.Core.Option
use lightning_os.Prelude.{
  ℕ, List, [], ◌∷◌, ◌≡◌, ◌-◌, ◌^◌, refl, arith, ◌==◌, if◌then◌else◌, some, true, false, Bool,
}
use lightning_os.Ports.{Ports}
use lightning_os.Ata.{Drives, transfer, ata_present, ata_read, transfer_chunk}
use lightning_os.Ata.Chunks.{Chunk, Covers, run_chunks, transfer-run_chunks}

abbrev ready : Ports (List (ℕ × ℕ))
ready = record {
  inb = λ port d. (if port == 0x1F7 then 0x48 else 0, d);
  inw = λ port d. (7, d);
  outb = λ port v d. (port, v) ∷ d;
  outw = λ port v d. d;
}

abbrev disk : Drives
disk n = record { present = n == 0; sectors = 1000; model = [] }

transfer-run_chunks_example :
    let r = transfer ready disk 0 10 300 (λ i. 0) false [] in
    (false ≡ true → r ≡ some (false, λ i. 0, []))
    × (false ≡ true → r ≡ some (true, λ i. 0, []))
    × (true ≡ true
        → (cs : List Chunk) × (Covers cs 10 300 0
            × (r ≡ some (run_chunks ready 0 false cs (λ i. 0) []))))
unfolding ata_present
transfer-run_chunks_example =
    transfer-run_chunks ready disk 0 10 300 (λ i. 0) false [] (omega arith)

-- A range whose end wraps is taken for one on the disk: the command goes out for the last sector
-- number of 32 bits.
range_wraps :
    Option.map
      (λ (r : Bool × (ℕ → ℕ) × List (ℕ × ℕ)). r.0)
      (ata_read ready disk 0 (2 ^ 32 - 1) 2 (λ i. 0) [])
    ≡ some true
unfolding ata_read transfer_chunk
range_wraps = refl
