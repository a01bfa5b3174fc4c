-- ===== src/Install/Menu.antt =====
-- The installer's screen of kernel/install.c: what the lines that the user enters lead to. What it
-- prints is left out. A line is what console_read_line() gives, `none` where it is cancelled.
use lightning_os.Prelude.{
  ℕ, zero, suc, ◌≡◌, refl, Bool, false, ◌&&◌, ◌||◌, Option, some, none, List, [], ◌∷◌,
  if◌then◌else◌, arith, Bool-cases, Option-cases, length, ◌<◌, ◌≤◌, inl, inr,
}
use lightning_os.Strings.Compare.{text_eq}
use lightning_os.Ata.{Drives}
use lightning_os.Install.{Disk, Image, install_to_disk, install_find_target}

abbrev pub Lines : Type 0
Lines = List (Option (List ℕ))

-- strcmp(line, text) == 0, of a line that was not cancelled.
unfoldable pub says : Option (List ℕ) → List ℕ → Bool
says none text = false
says (some line) text = text_eq line text

abbrev pub yes_text : List ℕ
yes_text = b'Y' ∷ b'E' ∷ b'S' ∷ []

-- What a line chooses in the menu.
pub data Choice : Type 0 where
  install try_it reboot other : Choice

pub chosen : Option (List ℕ) → Choice
unfolding says
chosen line =
    if says line (b'1' ∷ [])
    then install
    else if says line (b'2' ∷ [])
    then try_it
    else if says line (b'3' ∷ [])
    then reboot
    else other

-- Where the menu comes to an end, or waits for a line.
pub data End : Type 0 where
  live rebooted waits : End

abbrev pub first_says_yes : Lines → Bool
first_says_yes [] = false
first_says_yes (line ∷ lines) = says line yes_text

-- The lines that say YES right after a 1.
unfoldable pub asks_to_install : Lines → Bool
unfolding says
asks_to_install [] = false
asks_to_install (line ∷ lines) =
    (says line (b'1' ∷ []) && first_says_yes lines) || asks_to_install lines

module _ {D : Type 0} (disk : Disk D) (boot : List ℕ) (room : Bool) (m : Image)
    (drives : Drives) where
  -- do_install(): the lines that are left, and the disk; `none` where it waits.
  pub confirm : Option ℕ → Option (List ℕ) → D → D
  unfolding says
  confirm none line d = d
  confirm (some target) line d =
      if says line yes_text then (install_to_disk disk boot room m drives target d).1 else d

  -- One line where there is no disk; otherwise the answer, and one more. What is left of the lines.
  pub do_install : Lines → D → Option Lines × D
  unfolding confirm
  do_install [] d = (none, d)
  do_install (line ∷ []) d = elim (install_find_target drives) [
    | none ↦ (some [], d)
    | some target ↦ (none, confirm (some target) line d)
  ]
  do_install (line ∷ enter ∷ lines) d = elim (install_find_target drives) [
    | none ↦ (some (enter ∷ lines), d)
    | some target ↦ (some lines, confirm (some target) line d)
  ]

  -- install_run_menu(): a round takes a line at least.
  pub run_menu : ℕ → Lines → D → Option (End × D)
  unfolding chosen
  run_menu zero lines d = none
  run_menu (suc fuel) [] d = some (waits, d)
  run_menu (suc fuel) (line ∷ lines) d = elim (chosen line) [
    | install ↦ elim (do_install lines d).0 [
      | none ↦ some (waits, (do_install lines d).1)
      | some rest ↦ run_menu fuel rest (do_install lines d).1
    ]
    | try_it ↦ some (live, d)
    | reboot ↦ some (rebooted, d)
    | other ↦ run_menu fuel lines d
  ]

  do_install_keeps :
      (lines : Lines) (d : D)
      → first_says_yes lines ≡ false
      → ((do_install lines d).1 ≡ d)
        × ((rest : Lines)
            → (do_install lines d).0 ≡ some rest
            → asks_to_install lines ≡ false
            → (asks_to_install rest ≡ false) × (length rest ≤ length lines))
  unfolding do_install asks_to_install confirm
  do_install_keeps [] d h = (refl, λ rest e. absurd (cc))
  do_install_keeps (line ∷ []) d h = elim (Option-cases (install_find_target drives)) [
    | inl e ↦ (ground (arith, e), λ rest r n. (ground (arith, r, e), ground (arith, r, e)))
    | inr (t, e) ↦ (ground (arith, h, e), λ rest r n. (ground (arith, r, e), ground (arith, r, e)))
  ]
  do_install_keeps (line ∷ enter ∷ lines) d h = elim (Option-cases (install_find_target drives)) [
    | inl e ↦ (ground (arith, e), λ rest r n. (ground (arith, r, n, e), ground (arith, r, e)))
    | inr (t, e) ↦
        (ground (arith, h, e), λ rest r n. (ground (arith, r, n, e), ground (arith, r, e)))
  ]

  -- The menu ends or waits for more lines, for a fuel above the number of lines, and whatever the
  -- user enters, the disks are as before unless he answers the menu with 1 and then with YES.
  pub run_menu_keeps :
      (fuel : ℕ) (lines : Lines) (d : D)
      → length lines < fuel
      → asks_to_install lines ≡ false
      → (end : End) × (run_menu fuel lines d ≡ some (end, d))
  unfolding run_menu asks_to_install chosen
  run_menu_keeps zero lines d f h = absurd (omega (arith, f))
  run_menu_keeps (suc fuel) [] d f h = (waits, refl)
  run_menu_keeps (suc fuel) (line ∷ lines) d f h = elim (Bool-cases (says line (b'1' ∷ []))) [
    | inl one ↦
        let (same, left) = do_install_keeps lines d (ground (arith, one, h)) in
        let later : asks_to_install lines ≡ false = ground (arith, h) in
        elim (Option-cases (do_install lines d).0) [
          | inl e ↦ (waits, ground (arith, one, e, same))
          | inr (rest, e) ↦
              let (quiet, short) = left rest e later in
              let (end, ih) =
                run_menu_keeps fuel rest (do_install lines d).1 (omega (arith, f, short)) quiet in
              (end, ground (arith, one, e, same, ih))
        ]
    | inr n ↦
        let (end, ih) = run_menu_keeps fuel lines d (omega (arith, f)) (ground (arith, h)) in
        elim (Bool-cases (says line (b'2' ∷ []))) [
          | inl two ↦ (live, ground (arith, n, two))
          | inr m ↦ elim (Bool-cases (says line (b'3' ∷ []))) [
            | inl three ↦ (rebooted, ground (arith, n, m, three))
            | inr k ↦ (end, ground (arith, n, m, k, ih))
          ]
        ]
  ]
