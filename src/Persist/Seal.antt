-- ===== src/Persist/Seal.antt =====
-- What mount_from() finds after persist_save() and after persist_format() in fs/persist.c.
use mathlib.Core.Path.{subst}
use lightning_os.Prelude.{
  ℕ, ◌+◌, ◌%◌, ◌^◌, ◌≡◌, ◌≢◌, refl, ap, sym, ◌∙◌, Bool, true, false, not, ◌||◌, List, [], ◌∷◌,
  arith, ltb, ◌==◌, if◌then◌else◌, if_cases, length, Option, some, none, ℤ, pos, take, take-append,
  ◌<◌,
}
use lightning_os.Persist.Writer.{Account, Entry, Nodes, max_payload}
use lightning_os.Persist.Reading.{EveryAccount, EveryEntry}
use lightning_os.Persist.Roundtrip.{stored, payload_lem, restore-payload}
use lightning_os.Persist.Paths.{entries, Shallow, stored-entries}
use lightning_os.Persist.Snapshot.{
  Drive, Place, slave_start, boot_area, install_data_lba, probe, choose_location, mount_from, Super,
  Persist, loaded, error, is_no_disk, Write, write_payload, write_super, payload, super_of, padded,
  checksum, persist_save, mount_from, persist_version, persist_mount,
}

-- A successful persist_save() and the two writes of it.
Saved : List Account → Nodes → Persist → ℤ × (Persist × List Write) → Type 0
Saved users root s (r, (s', ws)) =
    r ≡ pos 0
    → is_no_disk s.state ≡ false
    → (((payload users root).0).overflow ≡ false)
      × (ws
          ≡ write_payload (padded ((payload users root).0).buffer)
            ∷ write_super (super_of users (payload users root) ((s.save_count + 1) % 2 ^ 32))
            ∷ [])

save-Saved :
    (room payload_ok super_ok : Bool) (users : List Account) (root : Nodes) (s : Persist)
    → Saved users root s (persist_save room payload_ok super_ok users root s)
unfolding persist_save Saved
save-Saved room payload_ok super_ok users root s =
    let P = Saved users root s in
    let o = ((payload users root).0).overflow in
    if_cases P s.sealed _ _ (λ _ e. absurd (ground (arith, e)))
      (λ _.
        if_cases P (is_no_disk s.state) _ _ (λ b e d. absurd (ground (arith, b, d)))
          (λ _.
            if_cases P (not room) _ _ (λ _ e. absurd (ground (arith, e)))
              (λ _.
                if_cases P o _ _ (λ _ e. absurd (ground (arith, e)))
                  (λ f.
                    if_cases P (not payload_ok) _ _ (λ _ e. absurd (ground (arith, e)))
                      (λ _.
                        if_cases P (not super_ok) _ _ (λ _ e. absurd (ground (arith, e)))
                          (λ _ _ _. (f, refl)))))))

-- The payload and the superblock that a list of writes leaves on the disk.
unfoldable pub disk_payload : List Write → Option (List ℕ)
disk_payload [] = none
disk_payload (write_payload bytes ∷ ws) = some bytes
disk_payload (write_super super ∷ ws) = disk_payload ws

unfoldable pub disk_super : List Write → Option Super
disk_super [] = none
disk_super (write_payload bytes ∷ ws) = disk_super ws
disk_super (write_super super ∷ ws) = some super

mount_payload :
    (users : List Account) (root : Nodes) (saves : ℕ) (s : Persist)
    → EveryAccount users
    → EveryEntry (stored [] root)
    → ((payload users root).0).overflow ≡ false
    → length ((payload users root).0).buffer ≢ 0
    → mount_from false true true
        (some (super_of users (payload users root) saves))
        (some (padded ((payload users root).0).buffer))
        s
      ≡ (
        record {
          state = loaded;
          dirty = false;
          bytes_used = length ((payload users root).0).buffer;
          save_count = saves;
          sealed = false;
        },
        some (users, stored [] root),
      )
unfolding mount_from padded super_of
mount_payload users root saves s hu he o z =
    let (_, _, l) = payload_lem users root hu he o in
    let buffer = ((payload users root).0).buffer in
    let cut : take (length buffer) (padded buffer) ≡ buffer = take-append buffer _ in
    let result : (List Account × List Entry) × Bool → Persist × Option (List Account × List Entry) =
      λ x. if x.1 then (record s { sealed = false; state = error }, some x.0) else (
        record {
          state = loaded;
          dirty = false;
          bytes_used = length buffer;
          save_count = saves;
          sealed = false;
        },
        some x.0,
      ) in
    let target = result ((users, stored [] root), false) in
    if_cases (λ x. x ≡ target)
      (not (persist_version == persist_version)
        || length buffer == 0
        || ltb max_payload (length buffer))
      _ _ (λ b. absurd (ground (arith, b, z, l)))
      (λ _.
        if_cases (λ x. x ≡ target)
          (not (checksum (take (length buffer) (padded buffer)) == checksum buffer)) _ _
          (λ b.
            absurd (ground (arith, sym (ap (λ y. not (checksum y == checksum buffer)) cut) ∙ b)))
          (λ _. ap result (restore-payload users root saves _ hu he o)))

-- A drive after the writes of persist_save() or persist_format().
unfoldable pub written : List Write → Drive → Drive
unfolding disk_super disk_payload
written ws drive = record drive {
  super = elim (disk_super ws) [ none ↦ drive.super | some super ↦ some super ];
  bytes = elim (disk_payload ws) [ none ↦ drive.bytes | some bytes ↦ some bytes ];
}

-- The drives after the writes to the place of the snapshot.
unfoldable pub slave_after : Place → List Write → Drive → Drive
slave_after slave_start ws slave = written ws slave
slave_after boot_area ws slave = slave

unfoldable pub boot_after : Place → List Write → Drive → Drive
boot_after slave_start ws boot = boot
boot_after boot_area ws boot = written ws boot

-- A drive that has room for the superblock behind the start of the place.
abbrev pub HasRoom : Place → Drive → Drive → Type 0
HasRoom slave_start slave boot = (slave.present ≡ true) × (1 < slave.sectors)
HasRoom boot_area slave boot = (boot.present ≡ true) × (install_data_lba + 1 < boot.sectors)

-- No other snapshot comes before the place.
abbrev pub IsFirst : Place → Drive → Type 0
IsFirst slave_start slave = Unit {0}
IsFirst boot_area slave = probe slave 0 ≡ false

found :
    (place : Place) (super : Super) (bytes : List ℕ) (slave boot : Drive)
    → HasRoom place slave boot
    → IsFirst place slave
    → super.magic ≡ true
    → let ws = write_payload bytes ∷ write_super super ∷ [] in
      (room : Bool) (s : Persist)
      → persist_mount false room (slave_after place ws slave) (boot_after place ws boot) s
        ≡ mount_from false true room (some super) (some bytes) s
unfolding persist_mount choose_location probe written slave_after boot_after disk_super disk_payload
found slave_start super bytes slave boot (p, n) first magic room s = ground (arith, p, n, magic)
found boot_area super bytes slave boot (p, n) first magic room s =
    ground (arith, p, n, magic, first)

-- Where persist_save() returns 0 with a disk, with accounts that fit their fields, nodes at most 32
-- names deep with paths of at most 254 bytes, contents under 2^32 - 2^20 bytes, and a payload that is
-- not empty: persist_mount(), where it finds no snapshot on the slave before one in the data area of
-- the boot disk, takes what was written for a good snapshot, and restores the accounts and the tree,
-- each node under the path of all the names that lead to it, parents before their children.
pub mount-save :
    (room payload_ok super_ok : Bool) (users : List Account) (root : Nodes) (s s' : Persist)
    (place : Place) (slave boot : Drive)
    → EveryAccount users
    → Shallow [] root
    → EveryEntry (entries [] root)
    → is_no_disk s.state ≡ false
    → length ((payload users root).0).buffer ≢ 0
    → HasRoom place slave boot
    → IsFirst place slave
    → (persist_save room payload_ok super_ok users root s).0 ≡ pos 0
    → let ws = (persist_save room payload_ok super_ok users root s).1.1 in
      let m = persist_mount false true (slave_after place ws slave) (boot_after place ws boot) s' in
      ((m.0).state ≡ loaded) × ((m.0).dirty ≡ false) × (m.1 ≡ some (users, entries [] root))
unfolding Saved super_of
mount-save room payload_ok super_ok users root s s' place slave boot hu deep he d z fit first e =
    let same = stored-entries [] root deep in
    let hs : EveryEntry (stored [] root) = subst EveryEntry (sym same) he in
    let saves = (s.save_count + 1) % 2 ^ 32 in
    let save = persist_save room payload_ok super_ok users root s in
    let (o, ws) = save-Saved room payload_ok super_ok users root s e d in
    let super = super_of users (payload users root) saves in
    let m =
      ap (λ w. persist_mount false true (slave_after place w slave) (boot_after place w boot) s') ws
      ∙ found place super (padded ((payload users root).0).buffer) slave boot fit first refl true s'
      ∙ mount_payload users root saves s' hu hs o z in
    (
      ap (λ x. (x.0).state) m,
      ap (λ x. (x.0).dirty) m,
      ap (λ x. x.1) m ∙ ap (λ z. some (users, z)) same,
    )
