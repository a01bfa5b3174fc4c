-- ===== src/Vga/Frame.antt =====
-- drivers/vga.c: what holds of the screen between two operations.
use lightning_os.Prelude.{
  ℕ, ◌+◌, ◌-◌, ◌*◌, ◌/◌, ◌%◌, ◌≡◌, ◌<◌, ◌≤◌, ◌==◌, if◌then◌else◌, ltb, arith,
}
use lightning_os.Vga.{Vga, Line, push_scrollback}

-- The ring and the view are in range.
pub record InRange (v : Vga) : Type 0 where
  pub head : v.head < 512
  pub count : v.count ≤ 512
  pub view : v.view_offset ≤ v.count

-- The cursor stands on the screen.
pub record OnScreen (v : Vga) : Type 0 where
  pub row : v.row < 25
  pub col : v.col < 80

-- The row of 25 that stands `view_offset` lines above the screen: in front of the screen's own rows
-- stand the newest lines of the scrollback, the newest last. The slot in front of `head` has the
-- newest line.
unfoldable pub in_view : Vga → ℕ → Line
in_view v row =
    if ltb row v.view_offset
    then v.scrollback ((v.head + 512 - (v.view_offset - row)) % 512)
    else v.screen (row - v.view_offset)

-- Every cell in video memory is the cell in view, and the CRTC has the place of the cursor, or a
-- place off the screen where the view is scrolled back.
pub record Shows (v : Vga) : Type 0 where
  pub range : InRange v
  pub cursor : OnScreen v
  pub painted : (i : ℕ) → i < 2000 → v.vram i ≡ in_view v (i / 80) (i % 80)
  pub pointed : v.pointer ≡ (if v.view_offset == 0 then v.row * 80 + v.col else 2000)

pub push_scrollback-InRange : (v : Vga) (line : Line) → InRange v → InRange (push_scrollback v line)
unfolding push_scrollback
push_scrollback-InRange v line r = record {
  head = omega arith;
  count = ground (arith, r.count);
  view = ground (arith, r.view);
}
