-- ===== src/Persist/Snapshot.antt =====
-- persist_save(), persist_format() and persist_mount() of fs/persist.c. Whether an allocation or a
-- transfer of the disk succeeds is an argument.
use Prim.Native.Nat.{bit_xor}
use lightning_os.Prelude.{
  ℕ, ◌+◌, ◌-◌, ◌*◌, ◌/◌, ◌%◌, ◌^◌, Bool, true, false, not, ◌&&◌, ◌||◌, Option, some, none,
  replicate, List, [], ◌∷◌, ◌++◌, ltb, leb, ◌==◌, if◌then◌else◌, take, length, ℤ, pos, neg,
}
use lightning_os.Persist.Writer.{max_payload, Account, Entry, Nodes, Writer, put_users, write_tree}
use lightning_os.Persist.Reader.{Reader, take_users, take_nodes}

abbrev pub persist_version : ℕ
persist_version = 1

abbrev pub sector_size : ℕ
sector_size = 512

unfoldable pub checksum_from : ℕ → List ℕ → ℕ
checksum_from hash [] = hash
checksum_from hash (b ∷ bs) = checksum_from (bit_xor hash b * 16777619 % 2 ^ 32) bs

unfoldable pub checksum : List ℕ → ℕ
checksum bs = checksum_from 2166136261 bs

unfoldable pub sectors_for : ℕ → ℕ
sectors_for bytes = (bytes + sector_size - 1) / sector_size

-- The fields of super_t that are not reserved; `magic` is whether the magic bytes are right.
pub record Super : Type 0 where
  pub magic : Bool
  pub version : ℕ
  pub payload_bytes : ℕ
  pub node_count : ℕ
  pub user_count : ℕ
  pub checksum : ℕ
  pub saves : ℕ

abbrev pub wiped : Super
wiped = record {
  magic = false;
  version = 0;
  payload_bytes = 0;
  node_count = 0;
  user_count = 0;
  checksum = 0;
  saves = 0;
}

pub data PersistState : Type 0 where
  no_disk empty loaded error : PersistState

abbrev pub is_no_disk : PersistState → Bool
is_no_disk no_disk = true
is_no_disk _ = false

pub record Persist : Type 0 where
  pub state : PersistState
  pub dirty : Bool
  pub bytes_used : ℕ
  pub save_count : ℕ
  pub sealed : Bool

-- The writes to the data area.
pub data Write : Type 0 where
  write_payload : List ℕ → Write
  write_super : Super → Write

-- The payload that persist_save() builds, and its counts.
unfoldable pub payload : List Account → Nodes → Writer × ℕ
payload users root =
    write_tree [] root (put_users users (record { buffer = []; overflow = false }), 0)

unfoldable pub super_of : List Account → Writer × ℕ → ℕ → Super
super_of users (w, count) saves = record {
  magic = true;
  version = persist_version;
  payload_bytes = length w.buffer;
  node_count = count;
  user_count = length users;
  checksum = checksum w.buffer;
  saves = saves;
}

-- The payload rounded up to whole sectors, at least one.
unfoldable pub padded : List ℕ → List ℕ
padded bytes =
    let sectors = sectors_for (length bytes) in
    let size = (if sectors == 0 then 1 else sectors) * sector_size in
    bytes ++ replicate (size - length bytes) 0

-- persist_save(): the result, the state, and the writes that it tries in order. `room` is whether
-- kmalloc() gives a buffer, and `payload_ok` and `super_ok` whether the two writes succeed.
unfoldable pub persist_save :
    (room payload_ok super_ok : Bool) → List Account → Nodes → Persist → ℤ × (Persist × List Write)
persist_save room payload_ok super_ok users root s =
    let p = payload users root in
    let saves = (s.save_count + 1) % 2 ^ 32 in
    let counted = record s { save_count = saves } in
    let first = write_payload (padded (p.0).buffer) in
    let second = write_super (super_of users p saves) in
    if s.sealed
    then (neg 5, (s, []))
    else if is_no_disk s.state
    then (pos 0, (s, []))
    else if not room
    then (neg 1, (s, []))
    else if (p.0).overflow
    then (neg 2, (s, []))
    else if not payload_ok
    then (neg 3, (counted, first ∷ []))
    else if not super_ok
    then (neg 4, (counted, first ∷ second ∷ []))
    else (
      pos 0,
      (
        record counted { bytes_used = length (p.0).buffer; state = loaded; dirty = false },
        first ∷ second ∷ [],
      ),
    )

unfoldable pub persist_format : (super_ok : Bool) → Persist → ℤ × (Persist × List Write)
persist_format super_ok s =
    if is_no_disk s.state
    then (neg 1, (s, []))
    else if not super_ok
    then (neg 2, (s, write_super wiped ∷ []))
    else (
      pos 0,
      (
        record { state = empty; dirty = false; bytes_used = 0; save_count = 0; sealed = true },
        write_super wiped ∷ [],
      ),
    )

unfoldable pub persist_mark_dirty : Persist → Persist
persist_mark_dirty s = record s { dirty = true }

unfoldable pub persist_flush :
    (room payload_ok super_ok : Bool) → List Account → Nodes → Persist → ℤ × (Persist × List Write)
persist_flush room payload_ok super_ok users root s =
    let save = persist_save room payload_ok super_ok users root s in
    if not s.dirty then (pos 0, (s, [])) else save

-- The drive of the snapshot, and what it holds behind the sector where the snapshot would start: the
-- superblock and the payload, `none` where ata_read() fails.
pub record Drive : Type 0 where
  pub present : Bool
  pub sectors : ℕ
  pub super : Option Super
  pub bytes : Option (List ℕ)

abbrev pub install_data_lba : ℕ
install_data_lba = 2048

abbrev pub has_magic : Option Super → Bool
has_magic none = false
has_magic (some super) = super.magic

unfoldable pub probe : Drive → ℕ → Bool
probe drive base =
    if not drive.present
    then false
    else if leb drive.sectors (base + 1)
    then false
    else has_magic drive.super

-- Where the snapshot lives: on the slave from its first sector on, or in the data area of the boot
-- disk.
pub data Place : Type 0 where
  slave_start boot_area : Place

unfoldable pub choose_location : Drive → Drive → Option Place
unfolding probe
choose_location slave boot =
    if probe slave 0
    then some slave_start
    else if probe boot install_data_lba
    then some boot_area
    else if slave.present
    then some slave_start
    else if boot.present && ltb (install_data_lba + 64) boot.sectors
    then some boot_area
    else none

abbrev pub chosen : Place → Drive → Drive → Drive
chosen slave_start slave boot = slave
chosen boot_area slave boot = boot

-- persist_mount() behind choose_location(). `from_medium` is the answer of
-- install_booted_from_medium(), `super` and `bytes` what ata_read() gives, if it succeeds. The
-- accounts and the entries are what it restores after fs_reset().
unfoldable pub restore : Super → List ℕ → (List Account × List Entry) × Bool
restore super bytes =
    let r : Reader = record { buffer = take super.payload_bytes bytes; at = 0; bad = false } in
    let (users, r') = take_users super.user_count r in
    let (entries, r'') = take_nodes super.node_count r' in ((users, entries), r''.bad)

abbrev pub is_none : Option (List ℕ) → Bool
is_none none = true
is_none (some _) = false

unfoldable pub mount_from :
    (from_medium located room : Bool)
    → Option Super
    → Option (List ℕ)
    → Persist
    → Persist × Option (List Account × List Entry)
mount_from from_medium located room none bytes s =
    if from_medium || not located
    then (record s { sealed = false; state = no_disk }, none)
    else (record s { sealed = false; state = error }, none)
mount_from from_medium located room (some super) bytes s =
    let read : List ℕ = elim bytes [ none ↦ [] | some b ↦ b ] in
    let restored = restore super read in
    if from_medium || not located
    then (record s { sealed = false; state = no_disk }, none)
    else if not super.magic
    then (record s { sealed = false; state = empty }, none)
    else if not (super.version == persist_version)
        || super.payload_bytes == 0
        || ltb max_payload super.payload_bytes
    then (record s { sealed = false; state = error }, none)
    else if not room
    then (record s { sealed = false; state = error }, none)
    else if is_none bytes || not (checksum (take super.payload_bytes read) == super.checksum)
    then (record s { sealed = false; state = error }, none)
    else if restored.1
    then (record s { sealed = false; state = error }, some restored.0)
    else (
      record {
        state = loaded;
        dirty = false;
        bytes_used = super.payload_bytes;
        save_count = super.saves;
        sealed = false;
      },
      some restored.0,
    )

unfoldable pub persist_mount :
    (from_medium room : Bool)
    → Drive
    → Drive
    → Persist
    → Persist × Option (List Account × List Entry)
unfolding choose_location mount_from
persist_mount from_medium room slave boot s = elim (choose_location slave boot) [
  | none ↦ mount_from from_medium false room none none s
  | some place ↦
      let drive = chosen place slave boot in
      mount_from from_medium true room drive.super drive.bytes s
]
