-- ===== src/Persist/Format.antt =====
-- What persist_format() of fs/persist.c leaves, and what persist_mount() finds afterwards.
use mathlib.Core.Path.{subst}
use lightning_os.Prelude.{
  ℕ, ◌≡◌, ◌≢◌, refl, ap, sym, Bool, true, false, not, List, [], ◌∷◌, ◌++◌, arith, if_cases, Option,
  some, none, ℤ, pos, neg,
}
use lightning_os.Persist.Writer.{Account, Entry, Nodes}
use lightning_os.Persist.Snapshot.{
  Drive, Place, slave_start, boot_area, has_magic, chosen, choose_location, mount_from, Super,
  Persist, empty, loaded, is_no_disk, Write, write_super, wiped, persist_save, persist_format,
  persist_mark_dirty, persist_flush, mount_from, persist_mount,
}
use lightning_os.Persist.Seal.{written, slave_after, boot_after, disk_super, disk_payload}

-- What may follow in the running system, with any arguments.
pub data Op : Type 0 where
  save_op : Bool → Bool → Bool → List Account → Nodes → Op
  flush_op : Bool → Bool → Bool → List Account → Nodes → Op
  mark_op : Op

-- The state and the writes after the operations.
pub run : List Op → Persist → Persist × List Write
run [] s = (s, [])
run (save_op a b c users root ∷ ops) s =
    let r = persist_save a b c users root s in let rest = run ops r.1.0 in (rest.0, r.1.1 ++ rest.1)
run (flush_op a b c users root ∷ ops) s =
    let r = persist_flush a b c users root s in
    let rest = run ops r.1.0 in (rest.0, r.1.1 ++ rest.1)
run (mark_op ∷ ops) s = run ops (persist_mark_dirty s)

sealed-save :
    (a b c : Bool) (users : List Account) (root : Nodes) (s : Persist)
    → s.sealed ≡ true
    → persist_save a b c users root s ≡ (neg 5, (s, []))
unfolding persist_save
sealed-save a b c users root s h =
    if_cases (λ x. x ≡ (neg 5, (s, []))) s.sealed _ _ (λ _. refl)
      (λ f. absurd (ground (arith, f, h)))

run_sealed :
    (ops : List Op) (s : Persist)
    → s.sealed ≡ true
    → ((run ops s).1 ≡ []) × (((run ops s).0).sealed ≡ true)
unfolding run persist_flush persist_mark_dirty
run_sealed [] s h = (refl, h)
run_sealed (save_op a b c users root ∷ ops) s h =
    let e = sealed-save a b c users root s h in
    subst
      (λ (r : ℤ × (Persist × List Write)).
        (r.1.1 ++ (run ops r.1.0).1 ≡ []) × (((run ops r.1.0).0).sealed ≡ true))
      (sym e) (run_sealed ops s h)
run_sealed (flush_op a b c users root ∷ ops) s h =
    let e = sealed-save a b c users root s h in
    if_cases
      (λ (r : ℤ × (Persist × List Write)).
        (r.1.1 ++ (run ops r.1.0).1 ≡ []) × (((run ops r.1.0).0).sealed ≡ true))
      (not s.dirty) (pos 0, (s, [])) (persist_save a b c users root s) (λ _. run_sealed ops s h)
      (λ _.
        subst
          (λ (r : ℤ × (Persist × List Write)).
            (r.1.1 ++ (run ops r.1.0).1 ≡ []) × (((run ops r.1.0).0).sealed ≡ true))
          (sym e) (run_sealed ops s h))
run_sealed (mark_op ∷ ops) s h = run_sealed ops (record s { dirty = true }) h

-- The place that persist_format() did not wipe holds no snapshot.
abbrev pub IsOnly : Place → Drive → Drive → Type 0
IsOnly slave_start slave boot = has_magic boot.super ≡ false
IsOnly boot_area slave boot = has_magic slave.super ≡ false

-- A mount that restores nothing.
abbrev pub LeavesBlank : Persist × Option (List Account × List Entry) → Type 0
LeavesBlank m = ((m.0).state ≢ loaded) × (m.1 ≡ none)

mount_from-LeavesBlank :
    (located room : Bool) (super : Option Super) (bytes : Option (List ℕ)) (s : Persist)
    → has_magic super ≡ false
    → LeavesBlank (mount_from false located room super bytes s)
unfolding mount_from
mount_from-LeavesBlank located room none bytes s h =
    if_cases LeavesBlank (not located) _ _ (λ _. (cc, refl)) (λ _. (cc, refl))
mount_from-LeavesBlank located room (some super) bytes s h =
    if_cases LeavesBlank (not located) _ _ (λ _. (cc, refl))
      (λ _.
        if_cases LeavesBlank (not super.magic) _ _ (λ _. (cc, refl))
          (λ m. absurd (ground (arith, m, h))))

-- Wherever the snapshot is looked for.
mount_at-LeavesBlank :
    (at : Option Place) (room : Bool) (slave boot : Drive) (s : Persist)
    → ((place : Place) → has_magic (chosen place slave boot).super ≡ false)
    → LeavesBlank (elim at [
      | none ↦ mount_from false false room none none s
      | some place ↦
          mount_from false true room
            (chosen place slave boot).super
            (chosen place slave boot).bytes
            s
    ])
mount_at-LeavesBlank none room slave boot s h = mount_from-LeavesBlank false room none none s refl
mount_at-LeavesBlank (some place) room slave boot s h =
    mount_from-LeavesBlank true room (chosen place slave boot).super (chosen place slave boot).bytes
      s (h place)

no_magic :
    (place : Place) (slave boot : Drive)
    → IsOnly place slave boot
    → (at : Place)
    → let ws = write_super wiped ∷ [] in
      has_magic (chosen at (slave_after place ws slave) (boot_after place ws boot)).super ≡ false
unfolding slave_after boot_after written disk_super disk_payload
no_magic slave_start slave boot h slave_start = refl
no_magic slave_start slave boot h boot_area = h
no_magic boot_area slave boot h slave_start = h
no_magic boot_area slave boot h boot_area = refl

wiped-LeavesBlank :
    (place : Place) (slave boot : Drive) (room : Bool) (s : Persist)
    → IsOnly place slave boot
    → let ws = write_super wiped ∷ [] in
      LeavesBlank
        (persist_mount false room (slave_after place ws slave) (boot_after place ws boot) s)
unfolding persist_mount
wiped-LeavesBlank place slave boot room s h =
    let ws = write_super wiped ∷ [] in
    let slave' = slave_after place ws slave in
    let boot' = boot_after place ws boot in
    mount_at-LeavesBlank (choose_location slave' boot') room slave' boot' s
      (no_magic place slave boot h)

-- Where persist_format() returns 0, no sequence of persist_save(), persist_flush() and
-- persist_mark_dirty() writes to the disk any more, whatever the tree and the accounts are; the only
-- write is that of a superblock of zeros. Where the other place, at which persist_mount() looks for a
-- snapshot too, has none, the next persist_mount() restores nothing.
pub format_seals :
    (super_ok room : Bool) (s s' : Persist) (ops : List Op) (place : Place) (slave boot : Drive)
    → IsOnly place slave boot
    → (persist_format super_ok s).0 ≡ pos 0
    → let ws = (persist_format super_ok s).1.1 ++ (run ops (persist_format super_ok s).1.0).1 in
      (ws ≡ write_super wiped ∷ [])
      × LeavesBlank
          (persist_mount false room (slave_after place ws slave) (boot_after place ws boot) s')
unfolding persist_format
format_seals super_ok room s s' ops place slave boot h =
    let mount : List Write → Persist × Option (List Account × List Entry) =
      λ ws. persist_mount false room (slave_after place ws slave) (boot_after place ws boot) s' in
    let P : ℤ × (Persist × List Write) → Type 0 = λ r.
      r.0 ≡ pos 0
      → (r.1.1 ++ (run ops r.1.0).1 ≡ write_super wiped ∷ [])
        × LeavesBlank (mount (r.1.1 ++ (run ops r.1.0).1)) in
    if_cases P (is_no_disk s.state) _ _ (λ _ e. absurd (ground (arith, e)))
      (λ _.
        if_cases P (not super_ok) _ _ (λ _ e. absurd (ground (arith, e)))
          (λ _ _.
            let f : Persist = record {
              state = empty;
              dirty = false;
              bytes_used = 0;
              save_count = 0;
              sealed = true;
            } in
            let only = ap (λ z. write_super wiped ∷ z) (run_sealed ops f refl).0 in
            (
              only,
              subst (λ ws. LeavesBlank (mount ws)) (sym only)
                  (wiped-LeavesBlank place slave boot room s' h),
            )))
