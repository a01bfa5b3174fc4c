-- ===== src/Vga/Reach.antt =====
-- Any sequence of calls of drivers/vga.c.
use lightning_os.Prelude.{ℕ, List, [], ◌∷◌, ℤ}
use lightning_os.Vga.{
  Vga, vga_init, vga_clear, vga_putc, vga_write, vga_set_color, vga_set_cursor, vga_scroll_view,
  vga_scroll_to_bottom,
}
use lightning_os.Vga.Frame.{Shows}
use lightning_os.Vga.Shows.{
  vga_putc-Shows, vga_write-Shows, vga_set_cursor-Shows, vga_scroll_view-Shows, vga_set_color-Shows,
  vga_scroll_to_bottom-Shows,
}
use lightning_os.Vga.Archive.{vga_clear-Shows, vga_init-Shows}

pub data Call : Type 0 where
  clear : Call
  put_char : (c : ℕ) → Call
  write : (text : List ℕ) → Call
  set_color : (fg bg : ℕ) → Call
  set_cursor : (row col : ℤ) → Call
  scroll_view : (lines : ℤ) → Call
  scroll_to_bottom : Call

perform : Call → Vga → Vga
perform clear v = vga_clear v
perform (put_char c) v = vga_putc c v
perform (write text) v = vga_write text v
perform (set_color fg bg) v = vga_set_color fg bg v
perform (set_cursor row col) v = vga_set_cursor row col v
perform (scroll_view lines) v = vga_scroll_view lines v
perform scroll_to_bottom v = vga_scroll_to_bottom v

pub run : List Call → Vga → Vga
unfolding perform
run [] v = v
run (call ∷ calls) v = run calls (perform call v)

perform-Shows : (call : Call) (v : Vga) → Shows v → Shows (perform call v)
unfolding perform
perform-Shows clear v s = vga_clear-Shows v s.range
perform-Shows (put_char c) v s = vga_putc-Shows c v s
perform-Shows (write text) v s = vga_write-Shows text v s
perform-Shows (set_color fg bg) v s = vga_set_color-Shows fg bg v s
perform-Shows (set_cursor row col) v s = vga_set_cursor-Shows row col v s
perform-Shows (scroll_view lines) v s = vga_scroll_view-Shows lines v s
perform-Shows scroll_to_bottom v s = vga_scroll_to_bottom-Shows v s

run_keeps : (calls : List Call) (v : Vga) → Shows v → Shows (run calls v)
unfolding run
run_keeps [] v s = s
run_keeps (call ∷ calls) v s = run_keeps calls (perform call v) (perform-Shows call v s)

-- After vga_init(), whatever the state before, and any sequence of calls, the cursor stands within
-- 25 rows of 80, the view goes no further back than the at most 512 lines that are kept, every char_cell
-- of video memory is the char_cell of the scrollback or the screen that is in view there, and the CRTC
-- has the place of the cursor, or the place off the screen while the view is scrolled back.
pub run-Shows : (calls : List Call) (v : Vga) → Shows (run calls (vga_init v))
run-Shows calls v = run_keeps calls (vga_init v) (vga_init-Shows v)
