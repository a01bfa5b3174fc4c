-- ===== src/Console.antt =====
-- kernel/console.c: the history of lines, and the line editor on the text screen. A line is its bytes
-- before the terminator. keyboard_getchar() gives the keys of a list, and `prompt` is the function
-- that draws the caller's prompt.
pub mod Kept
pub mod Invariant
pub mod Typed
mod Tests
use lightning_os.Prelude.{
  ℕ, zero, suc, ◌+◌, ◌-◌, ◌%◌, Bool, true, false, not, ◌&&◌, ◌||◌, Option, some, none, List, [],
  ◌∷◌, ◌++◌, ltb, ◌==◌, if◌then◌else◌, take, length, ℤ, pos, negsuc, neg,
}
use lightning_os.Strings.Compare.{text_eq}
use lightning_os.Keyboard.Keymap.{key_up, key_down, key_pageup, key_pagedown}
use lightning_os.Vga.{Vga, vga_putc, vga_write, vga_clear, vga_scroll_view, vga_scroll_to_bottom}

pub record History : Type 0 where
  pub slot : ℕ → List ℕ
  pub total : ℕ

unfoldable pub console_history_push : Option (List ℕ) → History → History
console_history_push none h = h
console_history_push (some []) h = h
console_history_push (some (c ∷ s)) h =
    let line = c ∷ s in
    if ltb 0 h.total && text_eq (h.slot ((h.total - 1) % 16)) line then h else record {
      slot = λ i. if i == h.total % 16 then take 255 line else h.slot i;
      total = h.total + 1;
    }

-- console_history_at(), at an index that is not negative.
pub console_history_at : ℕ → History → Option (List ℕ)
console_history_at index h =
    if not (ltb index h.total)
    then none
    else if ltb 16 h.total && ltb index (h.total - 16)
    then none
    else some (h.slot (index % 16))

pub data Echo : Type 0 where
  plain hidden stars : Echo

abbrev pub is_hidden : Echo → Bool
is_hidden plain = false
is_hidden hidden = true
is_hidden stars = false

pub echo_char : Echo → ℕ → Vga → Vga
echo_char plain c v = vga_putc c v
echo_char hidden c v = v
echo_char stars c v = vga_putc b'*' v

pub echo_string : Echo → List ℕ → Vga → Vga
unfolding echo_char
echo_string echo [] v = v
echo_string echo (c ∷ s) v = echo_string echo s (echo_char echo c v)

-- The loop of redraw(): as many backspaces as there are characters drawn.
pub wipe : ℕ → Vga → Vga
wipe zero v = v
wipe (suc n) v = wipe n (vga_putc 8 v)

-- The variables of console_read_line(), and the screen.
pub record Editor : Type 0 where
  pub out : List ℕ
  pub len : ℕ
  pub drawn : ℕ
  pub browse : ℕ
  pub vga : Vga

pub redraw : Echo → List ℕ → Editor → Editor
unfolding wipe echo_string
redraw echo line e = record e {
  vga = echo_string echo line (wipe e.drawn e.vga);
  drawn = if is_hidden echo then 0 else length line;
}

-- A line that the user ends, one that he cancels, or one that goes on.
pub data Outcome : Type 0 where
  entered cancelled more : Outcome

pub backspace : Echo → Editor → Editor
backspace echo e =
    if e.len == 0
    then e
    else if is_hidden echo
    then record e { len = e.len - 1; out = take (e.len - 1) e.out }
    else record e {
      len = e.len - 1;
      out = take (e.len - 1) e.out;
      vga = vga_putc 8 e.vga;
      drawn = e.drawn - 1;
    }

pub clear_line : Echo → Editor → Editor
unfolding redraw
clear_line echo e = record (redraw echo [] e) { out = []; len = 0 }

-- The line of the history at `target`, if it is kept.
pub recall : Echo → ℕ → ℕ → Option (List ℕ) → Editor → Editor
unfolding redraw
recall echo limit target none e = e
recall echo limit target (some entry) e =
    let line = take limit entry in
    redraw echo line (record e { browse = target; out = line; len = length line })

pub arrow : Echo → Bool → ℕ → History → Bool → Editor → Editor
unfolding clear_line recall
arrow echo use_history limit h up e =
    if not use_history
    then record e { vga = vga_scroll_view (if up then pos 3 else neg 3) e.vga }
    else if up && e.browse == 0
    then e
    else let target = if up then e.browse - 1 else e.browse + 1 in
      if not (ltb target h.total)
      then clear_line echo (record e { browse = h.total })
      else recall echo limit target (console_history_at target h) e

pub insert_key : Echo → ℕ → ℕ → Editor → Editor
unfolding echo_char
insert_key echo limit key e =
    if ltb key 32 || ltb 126 key then e else if not (ltb e.len limit) then e else record e {
      out = take e.len e.out ++ key ∷ [];
      len = e.len + 1;
      vga = echo_char echo key (vga_scroll_to_bottom e.vga);
      drawn = if is_hidden echo then e.drawn else e.drawn + 1;
    }

-- One round of console_read_line().
pub handle_key : Echo → Bool → (Vga → Vga) → ℕ → History → ℕ → Editor → Outcome × Editor
handle_key echo use_history prompt limit h key e =
    if key == 10
    then (
      entered,
      record e { vga = vga_putc 10 (vga_scroll_to_bottom e.vga); out = take e.len e.out },
    )
    else if key == 8
    then (more, backspace echo e)
    else if key == 3
    then (
      cancelled,
      record e { vga = vga_write (b'^' ∷ b'C' ∷ 10 ∷ []) (vga_scroll_to_bottom e.vga); out = [] },
    )
    else if key == 12
    then (more, redraw echo e.out (record e { vga = prompt (vga_clear e.vga); drawn = 0 }))
    else if key == 21
    then (more, clear_line echo e)
    else if key == key_pageup
    then (more, record e { vga = vga_scroll_view (pos 23) e.vga })
    else if key == key_pagedown
    then (more, record e { vga = vga_scroll_view (neg 23) e.vga })
    else if key == key_up || key == key_down
    then (more, arrow echo use_history limit h (key == key_up) e)
    else (more, insert_key echo limit key e)

-- The loop: `none` where it still waits for a key.
pub read_from : Echo → Bool → (Vga → Vga) → ℕ → History → List ℕ → Editor → Option (Bool × Editor)
read_from echo use_history prompt limit h [] e = none
read_from echo use_history prompt limit h (key ∷ keys) e =
    let (outcome, e') = handle_key echo use_history prompt limit h key e in
    elim outcome [
      | entered ↦ some (true, e')
      | cancelled ↦ some (false, e')
      | more ↦ read_from echo use_history prompt limit h keys e'
    ]

pub fresh_line : History → Vga → Editor
fresh_line h v = record { out = []; len = 0; drawn = 0; browse = h.total; vga = v }

-- console_read_line(), into a buffer of `size` bytes, at least one.
abbrev pub line_limit : ℕ → ℕ
line_limit size = (if ltb size 256 then size else 256) - 1

pub console_read_line :
    ℕ → Echo → Bool → (Vga → Vga) → History → List ℕ → Vga → Option (Bool × Editor)
unfolding read_from fresh_line
console_read_line size echo use_history prompt h keys v =
    read_from echo use_history prompt (line_limit size) h keys (fresh_line h v)
