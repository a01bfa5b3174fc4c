-- ===== src/Vga.antt =====
-- drivers/vga.c: the text screen, its scrollback and the video memory. A cell is its character and,
-- above it, its attribute. `pointer` is the position that the CRTC was given last. A loop that writes
-- each cell of a range once is the function of the cell's place. An operation that masks interrupts
-- is one step.
pub mod Ring
pub mod Frame
pub mod Shows
pub mod Archive
pub mod Newline
pub mod Reach
mod Tests
use Prim.Native.Nat.{bit_or}
use lightning_os.Prelude.{
  ℕ, zero, suc, ◌+◌, ◌-◌, ◌*◌, ◌/◌, ◌%◌, ◌^◌, Bool, true, false, not, ◌&&◌, ◌||◌, List, [], ◌∷◌,
  ltb, ◌==◌, if◌then◌else◌, ℤ, pos, negsuc,
}

abbrev pub Line : Type 0
Line = ℕ → ℕ

abbrev pub scrollback_lines : ℕ
scrollback_lines = 512

pub record Vga : Type 0 where
  pub vram : ℕ → ℕ
  pub screen : ℕ → Line
  pub scrollback : ℕ → Line
  pub head : ℕ
  pub count : ℕ
  pub view_offset : ℕ
  pub row : ℕ
  pub col : ℕ
  pub attribute : ℕ
  pub pointer : ℕ

-- cell()
unfoldable pub char_cell : ℕ → ℕ → ℕ
char_cell c attribute = c % 256 + attribute * 256

pub move_hardware_cursor : Vga → Vga
move_hardware_cursor v = record v {
  pointer = if ltb 0 v.view_offset then 80 * 25 else (v.row * 80 + v.col) % 2 ^ 16;
}

-- A line of the scrollback, 0 being the oldest.
pub scrollback_line : Vga → ℕ → Line
scrollback_line v index =
    v.scrollback ((v.head + index + scrollback_lines - v.count) % scrollback_lines)

-- The source of a row in repaint().
pub source : Vga → ℕ → Line
unfolding scrollback_line
source v row =
    let index = v.count + row - v.view_offset in
    if ltb index v.count then scrollback_line v index else v.screen (index - v.count)

pub repaint : Vga → Vga
unfolding source move_hardware_cursor
repaint v =
    move_hardware_cursor
      (record v { vram = λ i. if ltb i (25 * 80) then source v (i / 80) (i % 80) else v.vram i })

pub push_scrollback : Vga → Line → Vga
push_scrollback v line = record v {
  scrollback = λ slot. if slot == v.head then line else v.scrollback slot;
  head = (v.head + 1) % scrollback_lines;
  count = if ltb v.count scrollback_lines then v.count + 1 else v.count;
}

pub scroll_up_one : Vga → Vga
unfolding push_scrollback char_cell
scroll_up_one v =
    let v' = push_scrollback v (v.screen 0) in
    record v' {
      screen = λ r c.
          if ltb r 24
          then v.screen (r + 1) c
          else if r == 24
          then char_cell b' ' v.attribute
          else v.screen r c;
      row = 24;
    }

pub vga_set_color : ℕ → ℕ → Vga → Vga
vga_set_color fg bg v = record v { attribute = bit_or fg (bg * 16) % 256 }

-- vga_get_color(): the foreground and the background.
pub vga_get_color : Vga → ℕ × ℕ
vga_get_color v = (v.attribute % 16, v.attribute / 16 % 16)

-- archive_screen(): the scan of a row stops at its first character.
pub has_text : Line → ℕ → ℕ → Bool
has_text line c zero = false
has_text line c (suc left) =
    let rest = has_text line (c + 1) left in
    if not (line c % 256 == b' ') && not (line c % 256 == 0) then true else rest

-- One more than `last`.
pub used_rows : (ℕ → Line) → ℕ → ℕ → ℕ → ℕ
unfolding has_text
used_rows screen row zero used = used
used_rows screen row (suc left) used =
    used_rows screen (row + 1) left (if has_text (screen row) 0 80 then row + 1 else used)

pub push_rows : (ℕ → Line) → ℕ → ℕ → Vga → Vga
unfolding push_scrollback
push_rows screen row zero v = v
push_rows screen row (suc left) v = push_rows screen (row + 1) left (push_scrollback v (screen row))

pub archive_screen : Vga → Vga
archive_screen v = push_rows v.screen 0 (used_rows v.screen 0 25 0) v

pub vga_clear : Vga → Vga
vga_clear v =
    let v' = archive_screen v in
    repaint (record v' {
      screen = λ r c. if ltb r 25 then char_cell b' ' v'.attribute else v'.screen r c;
      row = 0;
      col = 0;
      view_offset = 0;
    })

-- vga_init(): light grey on black. (The shape of the cursor is not modelled.)
pub vga_init : Vga → Vga
unfolding vga_clear vga_set_color
vga_init v = vga_clear (record (vga_set_color 7 0 v) { head = 0; count = 0; view_offset = 0 })

-- A cell written to the screen and to video memory.
pub put_cell : Vga → ℕ → Vga
put_cell v x = record v {
  screen = λ r c. if r == v.row && c == v.col then x else v.screen r c;
  vram = λ i. if i == v.row * 80 + v.col then x else v.vram i;
}

-- The cases of vga_putc().
pub step_back : Vga → Vga
step_back v =
    if ltb 0 v.col
    then record v { col = v.col - 1 }
    else if ltb 0 v.row
    then record v { row = v.row - 1; col = 79 }
    else v

pub advance : ℕ → Vga → Vga
unfolding put_cell step_back char_cell
advance c v =
    if c == 10
    then record v { col = 0; row = v.row + 1 }
    else if c == 13
    then record v { col = 0 }
    else if c == 9
    then record v { col = (v.col + 4) / 4 * 4 }
    else if c == 8
    then put_cell (step_back v) (char_cell b' ' v.attribute)
    else let v' = put_cell v (char_cell c v.attribute) in record v' { col = v'.col + 1 }

pub wrap_line : Vga → Vga
wrap_line v = if ltb v.col 80 then v else record v { col = 0; row = v.row + 1 }

pub finish_line : Vga → Vga
unfolding scroll_up_one repaint move_hardware_cursor
finish_line v = if ltb v.row 25 then move_hardware_cursor v else repaint (scroll_up_one v)

pub vga_scroll_to_bottom : Vga → Vga
unfolding repaint
vga_scroll_to_bottom v = if v.view_offset == 0 then v else repaint (record v { view_offset = 0 })

-- vga_putc(): it begins as vga_scroll_to_bottom() does.
pub vga_putc : ℕ → Vga → Vga
unfolding vga_scroll_to_bottom advance wrap_line finish_line
vga_putc c v = finish_line (wrap_line (advance c (vga_scroll_to_bottom v)))

pub vga_write : List ℕ → Vga → Vga
unfolding vga_putc
vga_write [] v = v
vga_write (c ∷ s) v = vga_write s (vga_putc c v)

-- An int brought into 0 .. n - 1.
pub clamp_index : ℕ → ℤ → ℕ
clamp_index n (pos i) = if ltb i n then i else n - 1
clamp_index n (negsuc i) = 0

pub vga_set_cursor : ℤ → ℤ → Vga → Vga
unfolding clamp_index move_hardware_cursor
vga_set_cursor row col v =
    move_hardware_cursor (record v { row = clamp_index 25 row; col = clamp_index 80 col })

-- The target of vga_scroll_view(): below 0 it is 0.
pub moved_view : ℕ → ℤ → ℕ
moved_view offset (pos n) = offset + n
moved_view offset (negsuc n) = offset - (n + 1)

pub vga_scroll_view : ℤ → Vga → Vga
unfolding moved_view repaint
vga_scroll_view lines v =
    let moved = moved_view v.view_offset lines in
    let target = if ltb v.count moved then v.count else moved in
    if target == v.view_offset then v else repaint (record v { view_offset = target })
