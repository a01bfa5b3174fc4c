-- ===== src/Vga/Tests.antt =====
-- drivers/vga.c on a screen with text.
use lightning_os.Prelude.{ℕ, [], ◌∷◌, pos, ◌≡◌, ◌+◌, ◌<◌, ◌++◌, refl, arith}
use lightning_os.Vga.{Vga, vga_init, vga_putc, char_cell}
use lightning_os.Vga.Frame.{Shows, InRange}
use lightning_os.Vga.Ring.{kept, newest}
use lightning_os.Vga.Newline.{newline_scrolls}
use lightning_os.Vga.Reach.{write, scroll_view, clear, run, run-Shows}

abbrev power_on : Vga
power_on = record {
  vram = λ i. 0;
  screen = λ r c. 0;
  scrollback = λ s c. 0;
  head = 0;
  count = 0;
  view_offset = 0;
  row = 0;
  col = 0;
  attribute = 0;
  pointer = 0;
}

run-Shows_example :
    Shows
      (run (write (b'h' ∷ b'i' ∷ 10 ∷ []) ∷ clear ∷ scroll_view (pos 1) ∷ []) (vga_init power_on))
run-Shows_example =
    run-Shows (write (b'h' ∷ b'i' ∷ 10 ∷ []) ∷ clear ∷ scroll_view (pos 1) ∷ []) power_on

-- The last row, with lines in the scrollback.
abbrev last_row : Vga
last_row = record power_on { head = 3; count = 3; row = 24; col = 5; attribute = 7 }

last_row-InRange : InRange last_row
last_row-InRange = record { head = omega arith; count = omega arith; view = omega arith }

newline_scrolls_example :
    (kept (vga_putc 10 last_row) ≡ newest (kept last_row ++ last_row.screen 0 ∷ []))
    × ((r c : ℕ) → r < 24 → (vga_putc 10 last_row).screen r c ≡ last_row.screen (r + 1) c)
    × ((c : ℕ) → (vga_putc 10 last_row).screen 24 c ≡ char_cell b' ' 7)
    × ((vga_putc 10 last_row).row ≡ 24)
    × ((vga_putc 10 last_row).col ≡ 0)
newline_scrolls_example = newline_scrolls last_row last_row-InRange refl
