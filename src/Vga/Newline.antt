-- ===== src/Vga/Newline.antt =====
-- A newline on the last row of drivers/vga.c: the screen moves up by a row.
use lightning_os.Prelude.{
  ℕ, [], ◌∷◌, ◌≡◌, ◌+◌, ◌<◌, ◌++◌, refl, ap, ◌∙◌, arith, ◌==◌, ltb, Bool-cases, inl, inr, false,
}
use lightning_os.Vga.{
  Vga, char_cell, vga_putc, vga_scroll_to_bottom, scroll_up_one, finish_line, wrap_line, advance,
  push_scrollback, repaint, scrollback_line,
}
use lightning_os.Vga.Frame.{InRange}
use lightning_os.Vga.Ring.{kept, newest, kept-push_scrollback, kept-same}
use lightning_os.Vga.Archive.{repaint_keeps}

abbrev next_row : Vga → Vga
next_row v = record v { col = 0; row = v.row + 1 }

newline_is :
    (b : Vga)
    → b.row ≡ 24
    → finish_line (wrap_line (advance 10 b)) ≡ repaint (scroll_up_one (next_row b))
unfolding finish_line wrap_line advance
newline_is b e = let n : ltb (b.row + 1) 25 ≡ false = ground (arith, e) in rw n refl

putc_is :
    (c : ℕ) (v : Vga) → vga_putc c v ≡ finish_line (wrap_line (advance c (vga_scroll_to_bottom v)))
unfolding vga_putc
putc_is c v = refl

scrolled_kept :
    (b : Vga) → InRange b → kept (scroll_up_one (next_row b)) ≡ newest (kept b ++ b.screen 0 ∷ [])
unfolding scroll_up_one scrollback_line
scrolled_kept b r =
    kept-same (push_scrollback b (b.screen 0)) (scroll_up_one (next_row b)) refl (λ i. refl)
    ∙ kept-push_scrollback b (b.screen 0) r

scrolled_screen :
    (b : Vga) (r c : ℕ)
    → (r < 24 → (scroll_up_one (next_row b)).screen r c ≡ b.screen (r + 1) c)
      × ((scroll_up_one (next_row b)).screen 24 c ≡ char_cell b' ' b.attribute)
      × ((scroll_up_one (next_row b)).row ≡ 24)
      × ((scroll_up_one (next_row b)).col ≡ 0)
unfolding scroll_up_one
scrolled_screen b r c = (λ h. ground (arith, h), refl, refl, refl)

bottom_keeps :
    (v : Vga)
    → let b = vga_scroll_to_bottom v in
      (b.screen ≡ v.screen)
      × (b.row ≡ v.row)
      × (b.attribute ≡ v.attribute)
      × (kept b ≡ kept v)
      × (InRange v → InRange b)
unfolding vga_scroll_to_bottom repaint scrollback_line
bottom_keeps v = elim (Bool-cases (v.view_offset == 0)) [
  | inl e ↦ rw e (refl, refl, refl, refl, λ r. r)
  | inr n ↦ rw n (
    refl,
    refl,
    refl,
    kept-same v (repaint (record v { view_offset = 0 })) refl (λ i. refl),
    λ r. record { head = r.head; count = r.count; view = omega arith },
  )
]

-- On a ring in range, a newline on the last row puts the top row behind the lines of the scrollback,
-- of which the last 512 stay; each other row is the one that was below it, the last row is blank, and
-- the cursor stands at its beginning.
pub newline_scrolls :
    (v : Vga)
    → InRange v
    → v.row ≡ 24
    → (kept (vga_putc 10 v) ≡ newest (kept v ++ v.screen 0 ∷ []))
      × ((r c : ℕ) → r < 24 → (vga_putc 10 v).screen r c ≡ v.screen (r + 1) c)
      × ((c : ℕ) → (vga_putc 10 v).screen 24 c ≡ char_cell b' ' v.attribute)
      × ((vga_putc 10 v).row ≡ 24)
      × ((vga_putc 10 v).col ≡ 0)
newline_scrolls v range e =
    let b = vga_scroll_to_bottom v in
    let (screen, row, attr, lines, inr') = bottom_keeps v in
    let step : vga_putc 10 v ≡ repaint (scroll_up_one (next_row b)) =
      putc_is 10 v ∙ newline_is b (row ∙ e) in
    let (s, r0, c0, k) = repaint_keeps (scroll_up_one (next_row b)) in
    (
      ap kept step
          ∙ k
          ∙ scrolled_kept b (inr' range)
          ∙ ap (λ z. newest (z ++ b.screen 0 ∷ [])) lines
          ∙ ap (λ z. newest (kept v ++ z 0 ∷ [])) screen,
      λ r c h.
          ap (λ z. z.screen r c) step
          ∙ ap (λ z. z r c) s
          ∙ (scrolled_screen b r c).0 h
          ∙ ap (λ z. z (r + 1) c) screen,
      λ c.
          ap (λ z. z.screen 24 c) step
          ∙ ap (λ z. z 24 c) s
          ∙ (scrolled_screen b 24 c).1
          ∙ ap (char_cell b' ') attr,
      ap (λ z. z.row) step ∙ r0 ∙ (scrolled_screen b 0 0).2,
      ap (λ z. z.col) step ∙ c0 ∙ (scrolled_screen b 0 0).3,
    )
