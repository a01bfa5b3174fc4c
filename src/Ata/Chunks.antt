-- ===== src/Ata/Chunks.antt =====
-- transfer() of drivers/ata.c: the commands that a transfer is split into.
use lightning_os.Prelude.{
  ℕ, zero, suc, ◌+◌, ◌-◌, ◌*◌, ◌%◌, ◌^◌, ◌≡◌, ◌<◌, ◌≤◌, refl, Bool, true, false, not, ◌&&◌, ◌||◌,
  some, List, [], ◌∷◌, ltb, ◌==◌, if◌then◌else◌, arith, Bool-cases, inl, inr,
}
use lightning_os.Ports.{Ports}
use lightning_os.Ata.{Drives, ata_present, transfer_chunk, transfer_from, transfer}

-- A command: its first sector, how many sectors, and where its words stand in the buffer.
pub record Chunk : Type 0 where
  pub first : ℕ
  pub sectors : ℕ
  pub words : ℕ

-- Commands of 1 to 255 sectors that cover `count` sectors from `lba` on, each once and in order.
abbrev pub Covers : List Chunk → ℕ → ℕ → ℕ → Type 0
Covers [] lba count words = count ≡ 0
Covers (c ∷ cs) lba count words =
    (c.first ≡ lba)
    × (0 < c.sectors)
    × (c.sectors ≤ 255)
    × (c.sectors ≤ count)
    × (c.words ≡ words)
    × Covers cs (lba + c.sectors) (count - c.sectors) (words + c.sectors * 256)

-- The commands one after the other, up to the first that fails.
pub run_chunks : {D : Type 0} → Ports D → ℕ → Bool → List Chunk → (ℕ → ℕ) → D → Bool × (ℕ → ℕ) × D
run_chunks io drive write [] buffer d = (true, buffer, d)
run_chunks io drive write (c ∷ cs) buffer d =
    let (done, buffer', d') = transfer_chunk io drive c.first c.sectors buffer c.words write d in
    let rest = run_chunks io drive write cs buffer' d' in
    if not done then (false, buffer', d') else rest

chunks : ℕ → ℕ → ℕ → ℕ → List Chunk
chunks zero lba count words = []
chunks (suc fuel) lba count words =
    let size = if ltb 255 count then 255 else count in
    let rest = chunks fuel (lba + size) (count - size) (words + size * 256) in
    if count == 0 then [] else record { first = lba; sectors = size; words = words } ∷ rest

chunks-Covers :
    (fuel lba count words : ℕ) → count < fuel → Covers (chunks fuel lba count words) lba count words
unfolding chunks
chunks-Covers zero lba count words h = absurd (omega (arith, h))
chunks-Covers (suc fuel) lba count words h = elim (Bool-cases (count == 0)) [
  | inl e ↦ rw e (ground (arith, e))
  | inr n ↦
      let size = if ltb 255 count then 255 else count in
      let ih =
        chunks-Covers fuel (lba + size) (count - size) (words + size * 256)
          (ground (arith, n, h)) in
      rw n (refl, ground (arith, n), ground arith, ground arith, refl, ih)
]

module _ {D : Type 0} (io : Ports D) where
  transfer_from-run_chunks :
      (fuel drive lba count : ℕ) (buffer : ℕ → ℕ) (words : ℕ) (write : Bool) (d : D)
      → count < fuel
      → transfer_from io fuel drive lba count buffer words write d
        ≡ some (run_chunks io drive write (chunks fuel lba count words) buffer d)
  unfolding transfer_from run_chunks chunks
  transfer_from-run_chunks zero drive lba count buffer words write d h = absurd (omega (arith, h))
  transfer_from-run_chunks (suc fuel) drive lba count buffer words write d h =
      elim (Bool-cases (count == 0)) [
        | inl e ↦ rw e refl
        | inr n ↦
            let size = if ltb 255 count then 255 else count in
            let r = transfer_chunk io drive lba size buffer words write d in
            let ih =
              transfer_from-run_chunks fuel drive (lba + size) (count - size) r.1
                (words + size * 256) write r.2 (ground (arith, n, h)) in
            rw n (elim (Bool-cases (not r.0)) [ inl y ↦ rw y refl | inr z ↦ rw z ih ])
      ]

  -- Where the end of the range does not wrap, a transfer ends. One of a drive that is not there, or
  -- that goes past the last sector of the drive, fails and touches neither the ports nor the buffer,
  -- and one of no sectors succeeds so. Any other is the run, up to the first command that fails, of
  -- commands of 1 to 255 sectors that cover the range in order, each sector once, with the words of
  -- the buffer that belong to them.
  pub transfer-run_chunks :
      (drives : Drives) (drive lba count : ℕ) (buffer : ℕ → ℕ) (write : Bool) (d : D)
      → lba + count < 2 ^ 32
      → let r = transfer io drives drive lba count buffer write d in
        let present = ata_present drives drive in
        let past = ltb (drives drive).sectors (lba + count) in
        (not present || (past && not (count == 0)) ≡ true → r ≡ some (false, buffer, d))
        × (present && count == 0 ≡ true → r ≡ some (true, buffer, d))
        × (present && not (count == 0) && not past ≡ true
            → (cs : List Chunk) × (Covers cs lba count 0
                × (r ≡ some (run_chunks io drive write cs buffer d))))
  unfolding transfer
  transfer-run_chunks drives drive lba count buffer write d h =
      let w : (lba + count) % 2 ^ 32 ≡ lba + count = omega (arith, h) in
      let run =
        transfer_from-run_chunks (count + 1) drive lba count buffer 0 write d (omega arith) in
      (
        λ e. ground (arith, w, e),
        λ e. ground (arith, w, e),
        λ e. (
          chunks (count + 1) lba count 0,
          (chunks-Covers (count + 1) lba count 0 (omega arith), ground (arith, w, e, run)),
        ),
      )
