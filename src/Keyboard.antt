-- ===== src/Keyboard.antt =====
-- drivers/keyboard.c: the key ring, the scancode handler of IRQ1 and the poll.
pub mod Keymap
pub mod Ring
pub mod Keys
pub mod Modifiers
mod Tests
use lightning_os.Prelude.{
  ℕ, ◌+◌, ◌-◌, ◌/◌, ◌%◌, Bool, true, false, not, ◌&&◌, ◌||◌, List, [], ◌∷◌, Option, none, some, ltb,
  leb, ◌==◌, if◌then◌else◌, get_or, set, replicate,
}
use Keymap.{
  keymap, keymap_shift, lookup_key, key_up, key_down, key_left, key_right, key_home, key_end,
  key_delete, key_pageup, key_pagedown,
}

-- The file's static variables.
pub record Keyboard : Type 0 where
  pub buffer : List ℕ
  pub head : ℕ
  pub tail : ℕ
  pub shift_down : Bool
  pub caps_lock : Bool
  pub ctrl_down : Bool
  pub extended : Bool

abbrev pub buffer_len : ℕ
buffer_len = 128

-- push(): drops the keystroke when the ring is full.
pub push : Keyboard → ℕ → Keyboard
push k key =
    let next = (k.head + 1) % buffer_len in
    if next == k.tail then k else record k { buffer = set k.buffer k.head key; head = next }

-- The key that an extended make code stands for.
pub extended_key : ℕ → Option ℕ
extended_key scancode =
    if scancode == 0x48
    then some key_up
    else if scancode == 0x50
    then some key_down
    else if scancode == 0x4b
    then some key_left
    else if scancode == 0x4d
    then some key_right
    else if scancode == 0x47
    then some key_home
    else if scancode == 0x4f
    then some key_end
    else if scancode == 0x53
    then some key_delete
    else if scancode == 0x49
    then some key_pageup
    else if scancode == 0x51
    then some key_pagedown
    else none

abbrev pub push_if : Keyboard → Option ℕ → Keyboard
push_if k none = k
push_if k (some key) = push k key

pub is_lower : ℕ → Bool
is_lower c = leb b'a' c && leb c b'z'

pub is_upper : ℕ → Bool
is_upper c = leb b'A' c && leb c b'Z'

pub apply_caps : Bool → ℕ → ℕ
unfolding is_lower is_upper
apply_caps caps c =
    if caps
    then (if is_lower c then c - b'a' + b'A' else if is_upper c then c - b'A' + b'a' else c)
    else c

pub apply_ctrl : Bool → ℕ → ℕ
unfolding is_lower is_upper
apply_ctrl ctrl c =
    if ctrl
    then (if is_lower c then c - b'a' + 1 else if is_upper c then c - b'A' + 1 else c)
    else c

-- What keyboard_callback() does once the prefix, the releases and the modifiers are dealt with.
pub type_key : Keyboard → ℕ → Keyboard
unfolding apply_caps apply_ctrl
type_key k scancode =
    let c = lookup_key (if k.shift_down then keymap_shift else keymap) scancode in
    if leb 128 scancode
    then k
    else if c == 0
    then k
    else push k (apply_ctrl k.ctrl_down (apply_caps k.caps_lock c))

pub release : Keyboard → ℕ → Keyboard
release k made =
    if made == 0x2a || made == 0x36
    then record k { shift_down = false }
    else if made == 0x1d
    then record k { ctrl_down = false }
    else k

pub press : Keyboard → ℕ → Keyboard
press k scancode =
    if scancode == 0x2a || scancode == 0x36
    then record k { shift_down = true }
    else if scancode == 0x1d
    then record k { ctrl_down = true }
    else if scancode == 0x3a
    then record k { caps_lock = not k.caps_lock }
    else type_key k scancode

-- keyboard_callback(), given the byte that inb(KBD_DATA) reads. Bit 7 of a byte is `128 ≤ b`.
pub keyboard_callback : Keyboard → ℕ → Keyboard
unfolding release press
keyboard_callback k scancode =
    if scancode == 0xe0
    then record k { extended = true }
    else if k.extended
    then (let k' = record k { extended = false } in
        if leb 128 scancode then k' else push_if k' (extended_key scancode))
    else if leb 128 scancode
    then release k (scancode % 128)
    else press k scancode

-- keyboard_init(): only the two indices are reset.
pub keyboard_init : Keyboard → Keyboard
keyboard_init k = record k { head = 0; tail = 0 }

-- The state at load time, all static storage zero.
abbrev pub static_zero : Keyboard
static_zero = record {
  buffer = replicate buffer_len 0;
  head = 0;
  tail = 0;
  shift_down = false;
  caps_lock = false;
  ctrl_down = false;
  extended = false;
}

-- keyboard_poll(): 0 when nothing is queued.
pub keyboard_poll : Keyboard → ℕ × Keyboard
keyboard_poll k =
    if k.head == k.tail
    then (0, k)
    else (get_or k.buffer k.tail 0, record k { tail = (k.tail + 1) % buffer_len })
