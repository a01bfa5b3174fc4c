-- ===== src/Persist/Tests.antt =====
-- Concrete runs of fs/persist.c.
use lightning_os.Prelude.{
  ℕ, zero, suc, List, ◌≡◌, refl, true, false, [], ◌∷◌, ◌++◌, arith, some, none, pos,
}
use lightning_os.Persist.Writer.{
  Account, Nodes, file, dir, last, then_node, fs_abspath, join_from, put_users, put_user,
  write_tree, put_bytes, le_bytes, put_string, write_node, put_u8, put_u16, put_u32,
}
use lightning_os.Persist.Writing.{IsAccount}
use lightning_os.Persist.Reading.{EveryEntry, EveryAccount}
use lightning_os.Persist.Paths.{entries, joined, Shallow, Short}
use lightning_os.Persist.Snapshot.{
  Drive, slave_start, boot_area, choose_location, probe, mount_from, Persist, loaded, empty, wiped,
  write_super, payload, persist_save, persist_mount, persist_format, super_of, error,
}
use lightning_os.Persist.Seal.{
  mount-save, disk_super, disk_payload, written, slave_after, boot_after,
}
use lightning_os.Persist.Format.{run, flush_op, mark_op, format_seals, LeavesBlank}

-- The account "ann", and the tree /etc with the file /etc/motd.
abbrev ann : Account
ann = record {
  name = b'a' ∷ b'n' ∷ b'n' ∷ [];
  home = b'/' ∷ b'a' ∷ [];
  uid = 1000;
  gid = 1000;
  pw_hash = 7;
}

abbrev tree : Nodes
tree =
    then_node
      (dir (b'e' ∷ b't' ∷ b'c' ∷ [])
        (then_node (file (b'm' ∷ b'o' ∷ b't' ∷ b'd' ∷ []) (b'h' ∷ b'i' ∷ [])) last))
      last

abbrev mounted : Persist
mounted = record { state = empty; dirty = true; bytes_used = 0; save_count = 4; sealed = false }

ann-IsAccount : IsAccount ann
ann-IsAccount = record {
  name = omega arith;
  home = omega arith;
  uid = omega arith;
  gid = omega arith;
  pw_hash = omega arith;
}

-- A blank drive for the data, and a boot disk.
abbrev data_disk : Drive
data_disk = record { present = true; sectors = 4096; super = none; bytes = none }

abbrev boot_disk : Drive
boot_disk = record { present = true; sectors = 1024; super = none; bytes = none }

mount-save_example :
    let ws = (persist_save true true true (ann ∷ []) tree mounted).1.1 in
    let m =
      persist_mount false true
        (slave_after slave_start ws data_disk)
        (boot_after slave_start ws boot_disk)
        mounted in
    ((m.0).state ≡ loaded) × ((m.0).dirty ≡ false) × (m.1 ≡ some (ann ∷ [], entries [] tree))
unfolding EveryEntry EveryAccount Shallow Short entries joined fs_abspath join_from payload
    put_users put_user put_string put_bytes le_bytes write_tree write_node put_u8 put_u16 put_u32
    persist_save
mount-save_example =
    mount-save true true true (ann ∷ []) tree mounted mounted slave_start data_disk boot_disk
      (ann-IsAccount, tt)
      ((((omega arith), (omega arith)), (((omega arith), (omega arith)), tt)), tt)
      (
        record { path_some = omega arith; path_fits = omega arith; content_fits = omega arith },
        (
          record { path_some = omega arith; path_fits = omega arith; content_fits = omega arith },
          tt,
        ),
      )
      refl (λ e. omega (arith, e)) (refl, omega arith) tt refl

format_seals_example :
    let ws =
      (persist_format true mounted).1.1
      ++ (run
          (mark_op ∷ flush_op true true true (ann ∷ []) tree ∷ [])
          (persist_format true mounted).1.0).1 in
    (ws ≡ write_super wiped ∷ [])
    × LeavesBlank (
        persist_mount false true
          (slave_after slave_start ws data_disk)
          (boot_after slave_start ws boot_disk)
          mounted)
unfolding persist_format
format_seals_example =
    format_seals true true mounted mounted (mark_op ∷ flush_op true true true (ann ∷ []) tree ∷ [])
      slave_start data_disk boot_disk refl refl

-- A snapshot in the data area of the boot disk is taken once the one on the slave is wiped.
old_snapshot :
    choose_location (written (write_super wiped ∷ []) data_disk) (record {
      present = true;
      sectors = 4096;
      super = some (record wiped { magic = true });
      bytes = none;
    })
    ≡ some boot_area
unfolding choose_location probe written disk_super
old_snapshot = refl

-- With no account and an empty tree, the snapshot is written with an empty payload, and is an error
-- when it is mounted.
empty_is_error :
    let ws = (persist_save true true true [] last mounted).1.1 in
    let m =
      persist_mount false true
        (slave_after slave_start ws data_disk)
        (boot_after slave_start ws boot_disk)
        mounted in
    ((persist_save true true true [] last mounted).0 ≡ pos 0) × ((m.0).state ≡ error)
unfolding persist_save persist_mount mount_from choose_location probe payload write_tree put_users
    super_of disk_super disk_payload slave_after boot_after written
empty_is_error = (refl, refl)

-- fs_abspath() reads 32 names: a directory 33 names deep is stored under the path that the same names
-- without the first have.
names_from : ℕ → List (List ℕ)
names_from zero = []
names_from (suc n) = (b'a' ∷ []) ∷ names_from n

deep_path : fs_abspath ((b'x' ∷ []) ∷ names_from 32) ≡ fs_abspath (names_from 32)
unfolding fs_abspath join_from names_from
deep_path = refl
