-- ===== src/Vga/Archive.antt =====
-- vga_clear() and vga_init() of drivers/vga.c: the screen goes into the scrollback.
use mathlib.Core.Path.{subst}
use lightning_os.Prelude.{
  ℕ, zero, suc, ◌+◌, ◌-◌, ◌≡◌, ◌<◌, ◌≤◌, refl, sym, ap, ◌∙◌, true, false, List, [], ◌∷◌, ◌++◌, ltb,
  if◌then◌else◌, arith, Bool-cases, inl, inr, ◌⊎◌, append_assoc, append-nil, length, drop,
}
use lightning_os.Vga.{
  Vga, Line, char_cell, push_scrollback, push_rows, used_rows, has_text, archive_screen, vga_clear,
  vga_init, repaint, scrollback_line,
}
use lightning_os.Vga.Frame.{InRange, Shows, push_scrollback-InRange}
use lightning_os.Vga.Ring.{
  kept, newest, kept-push_scrollback, newest-append, length-kept, kept-same,
}
use lightning_os.Vga.Shows.{repaint-Shows}

pub rows : (ℕ → Line) → ℕ → ℕ → List Line
rows screen row zero = []
rows screen row (suc n) = screen row ∷ rows screen (row + 1) n

push_rows-InRange :
    (n row : ℕ) (screen : ℕ → Line) (v : Vga) → InRange v → InRange (push_rows screen row n v)
unfolding push_rows
push_rows-InRange zero row screen v r = r
push_rows-InRange (suc n) row screen v r =
    push_rows-InRange n (row + 1) screen (push_scrollback v (screen row))
      (push_scrollback-InRange v (screen row) r)

short_newest : (v : Vga) → InRange v → newest (kept v) ≡ kept v
short_newest v r =
    let e : length (kept v) - 512 ≡ 0 = omega (arith, length-kept v, r.count) in
    ap (λ z. drop z (kept v)) e

kept-push_rows :
    (n row : ℕ) (screen : ℕ → Line) (v : Vga)
    → InRange v
    → kept (push_rows screen row n v) ≡ newest (kept v ++ rows screen row n)
unfolding push_rows rows
kept-push_rows zero row screen v r = sym (short_newest v r) ∙ ap newest (sym (append-nil (kept v)))
kept-push_rows (suc n) row screen v r =
    let line = screen row in
    let more = rows screen (row + 1) n in
    kept-push_rows n (row + 1) screen (push_scrollback v line) (push_scrollback-InRange v line r)
    ∙ ap (λ z. newest (z ++ more)) (kept-push_scrollback v line r)
    ∙ newest-append (kept v ++ line ∷ []) more
    ∙ ap newest (append_assoc (kept v) (line ∷ []) more)

-- How many rows there are up to the last one with text.
pub UpToLast : (ℕ → Line) → ℕ → ℕ → Type 0
UpToLast screen height n =
    (n ≤ height)
    × ((r : ℕ) → n ≤ r → r < height → has_text (screen r) 0 80 ≡ false)
    × ((n ≡ 0) ⊎ (has_text (screen (n - 1)) 0 80 ≡ true))

blank_to :
    (row used : ℕ) (screen : ℕ → Line)
    → has_text (screen row) 0 80 ≡ false
    → ((r : ℕ) → used ≤ r → r < row → has_text (screen r) 0 80 ≡ false)
    → (r : ℕ) → used ≤ r
    → r < row + 1
    → has_text (screen r) 0 80 ≡ false
blank_to row used screen n blank r a b = elim (Bool-cases (ltb r row)) [
  | inl e ↦ blank r a (ground (arith, e))
  | inr m ↦ let e : r ≡ row = ground (arith, m, b) in rw e n
]

used_rows_lem :
    (left row used : ℕ) (screen : ℕ → Line)
    → UpToLast screen row used
    → UpToLast screen (row + left) (used_rows screen row left used)
unfolding used_rows UpToLast
used_rows_lem zero row used screen h = let e : row + 0 ≡ row = omega arith in rw e h
used_rows_lem (suc left) row used screen (low, blank, last) =
    let e : row + suc left ≡ row + 1 + left = omega arith in
    elim (Bool-cases (has_text (screen row) 0 80)) [
      | inl y ↦
          let back : row + 1 - 1 ≡ row = omega arith in
          rw (e, y)
            (used_rows_lem left (row + 1) (row + 1) screen
              (omega arith, λ r a b. absurd (omega (arith, a, b)), inr (rw back y)))
      | inr n ↦
          rw (e, n)
            (used_rows_lem left (row + 1) used screen
              (omega (arith, low), λ r a b. blank_to row used screen n blank r a b, last))
    ]

push_rows_keeps :
    (n row : ℕ) (screen : ℕ → Line) (v : Vga)
    → ((push_rows screen row n v).screen ≡ v.screen)
      × ((push_rows screen row n v).attribute ≡ v.attribute)
unfolding push_rows push_scrollback
push_rows_keeps zero row screen v = (refl, refl)
push_rows_keeps (suc n) row screen v =
    push_rows_keeps n (row + 1) screen (push_scrollback v (screen row))

UpToLast-zero : (screen : ℕ → Line) → UpToLast screen 0 0
unfolding UpToLast
UpToLast-zero screen = (omega arith, λ r a b. absurd (omega (arith, b)), inl refl)

-- The screen that vga_clear() paints.
abbrev blanked : Vga → Vga
blanked v = record v {
  screen = λ r c. if ltb r 25 then char_cell b' ' v.attribute else v.screen r c;
  row = 0;
  col = 0;
  view_offset = 0;
}

pub repaint_keeps :
    (v : Vga)
    → ((repaint v).screen ≡ v.screen)
      × ((repaint v).row ≡ v.row)
      × ((repaint v).col ≡ v.col)
      × (kept (repaint v) ≡ kept v)
unfolding repaint scrollback_line
repaint_keeps v = (refl, refl, refl, kept-same v (repaint v) refl (λ i. refl))

blanked-kept : (v : Vga) → kept (blanked v) ≡ kept v
unfolding scrollback_line
blanked-kept v = kept-same v (blanked v) refl (λ i. refl)

clear_is : (v : Vga) → vga_clear v ≡ repaint (blanked (archive_screen v))
unfolding vga_clear
clear_is v = refl

archive_is : (v : Vga) → archive_screen v ≡ push_rows v.screen 0 (used_rows v.screen 0 25 0) v
unfolding archive_screen
archive_is v = refl

blanked-Shows : (v : Vga) → InRange v → Shows (repaint (blanked v))
blanked-Shows v r =
    repaint-Shows (blanked v) (record { head = r.head; count = r.count; view = omega arith })
      (record { row = omega arith; col = omega arith })

archive-InRange : (v : Vga) → InRange v → InRange (archive_screen v)
archive-InRange v r =
    subst InRange (sym (archive_is v))
      (push_rows-InRange (used_rows v.screen 0 25 0) 0 v.screen v r)

pub vga_clear-Shows : (v : Vga) → InRange v → Shows (vga_clear v)
vga_clear-Shows v r =
    subst Shows (sym (clear_is v)) (blanked-Shows (archive_screen v) (archive-InRange v r))

pub vga_init-Shows : (v : Vga) → Shows (vga_init v)
unfolding vga_init
vga_init-Shows v =
    vga_clear-Shows _ (record { head = omega arith; count = omega arith; view = omega arith })

-- On a ring in range vga_clear() leaves blank rows and the cursor in the corner, and the scrollback
-- is the last 512 of its lines and the rows of the screen up to the last one that has a character
-- other than a blank or NUL.
vga_clear_lem :
    (v : Vga)
    → InRange v
    → (n : ℕ) × (UpToLast v.screen 25 n
        × (kept (vga_clear v) ≡ newest (kept v ++ rows v.screen 0 n))
        × ((r c : ℕ) → r < 25 → (vga_clear v).screen r c ≡ char_cell b' ' v.attribute)
        × ((vga_clear v).row ≡ 0)
        × ((vga_clear v).col ≡ 0))
vga_clear_lem v r =
    let n = used_rows v.screen 0 25 0 in
    let w = archive_screen v in
    let (s, a, b, k) = repaint_keeps (blanked w) in
    let attr : w.attribute ≡ v.attribute =
      ap (λ z. z.attribute) (archive_is v) ∙ (push_rows_keeps n 0 v.screen v).1 in
    (
      n,
      (
        subst (λ z. UpToLast v.screen z n) (omega arith)
            (used_rows_lem 25 0 0 v.screen (UpToLast-zero v.screen)),
        ap kept (clear_is v)
            ∙ k
            ∙ blanked-kept w
            ∙ ap kept (archive_is v)
            ∙ kept-push_rows n 0 v.screen v r,
        λ row c h.
            ap (λ z. z.screen row c) (clear_is v) ∙ ap (λ z. z row c) s ∙ ground (arith, h, attr),
        ap (λ z. z.row) (clear_is v) ∙ a,
        ap (λ z. z.col) (clear_is v) ∙ b,
      ),
    )
