-- ===== src/Keyboard/Modifiers.antt =====
-- Shift, caps lock, control and the 0xE0 prefix in keyboard_callback() of drivers/keyboard.c.
use lightning_os.Prelude.{
  ◌≢◌, ◌-◌, ℕ, zero, suc, ◌+◌, ◌-◌, ◌<◌, ◌≡◌, refl, Bool, true, false, ◌&&◌, ◌||◌, not, arith, ◌==◌,
  if◌then◌else◌, ==_iff, ◌≤◌,
}
use lightning_os.Keyboard.Ring.{IsValid, queued, enqueue, push_refines}
use lightning_os.Keyboard.Keymap.{keymap, keymap_shift, lookup_key}
use lightning_os.Keyboard.{
  is_lower, is_upper, apply_caps, apply_ctrl, press, type_key, keyboard_callback, Keyboard, push,
}

each_code : (count first : ℕ) → (ℕ → Bool) → Bool
each_code zero first test = true
each_code (suc count) first test = test first && each_code count (first + 1) test

each_code_at :
    (count first : ℕ) (test : ℕ → Bool) (code : ℕ)
    → first ≤ code
    → code < first + count
    → each_code count first test ≡ true
    → test code ≡ true
unfolding each_code
each_code_at zero first test code h k e = absurd (omega (arith, h, k))
each_code_at (suc count) first test code h k e =
    ground (arith, each_code_at count (first + 1) test code, h, k, e)

-- What a press of an ordinary key comes to under the three modifiers.
pub translate : Bool → Bool → Bool → ℕ → ℕ
translate shift caps ctrl scancode =
    apply_ctrl ctrl (apply_caps caps (lookup_key (if shift then keymap_shift else keymap) scancode))

abbrev pub is_letter_code : ℕ → Bool
is_letter_code scancode = is_lower (lookup_key keymap scancode)

-- One scancode of the tables: what control, and caps lock with shift, make of a letter's key.
check_ctrl : Bool → Bool → ℕ → Bool
check_ctrl shift caps scancode =
    not (is_letter_code scancode)
    || (translate shift caps true scancode == lookup_key keymap scancode - 96)

check_caps : ℕ → Bool
check_caps scancode =
    not (is_letter_code scancode)
    || ((translate true true false scancode == lookup_key keymap scancode)
        && (translate true false false scancode == translate false true false scancode)
        && (translate true false false scancode + 32 == lookup_key keymap scancode))

ctrl_table : (shift caps : Bool) → each_code 128 0 (check_ctrl shift caps) ≡ true
unfolding each_code check_ctrl translate apply_ctrl apply_caps is_lower is_upper lookup_key
ctrl_table true true = refl
ctrl_table true false = refl
ctrl_table false true = refl
ctrl_table false false = refl

caps_table : each_code 128 0 check_caps ≡ true
unfolding each_code check_caps translate apply_ctrl apply_caps is_lower is_upper lookup_key
caps_table = refl

-- Whatever shift and caps lock are, control makes the key of a letter its number in the alphabet.
pub translate_ctrl :
    (shift caps : Bool) (scancode : ℕ)
    → scancode < 128
    → is_letter_code scancode ≡ true
    → translate shift caps true scancode ≡ lookup_key keymap scancode - 96
translate_ctrl shift caps scancode h l =
    let t =
      each_code_at 128 0 _ scancode (omega arith) (omega (arith, h)) (ctrl_table shift caps) in
    (==_iff _ _).0 (unfold check_ctrl in rw l at t)

-- Caps lock acts as shift does on letters, and the two together cancel.
pub translate_caps :
    (scancode : ℕ)
    → scancode < 128
    → is_letter_code scancode ≡ true
    → (translate true true false scancode ≡ lookup_key keymap scancode)
      × (translate true false false scancode ≡ translate false true false scancode)
      × (translate true false false scancode + 32 ≡ lookup_key keymap scancode)
unfolding check_caps
translate_caps scancode h l =
    ground (arith, each_code_at 128 0 _ scancode (omega arith) (omega (arith, h)) caps_table)

check_plain : ℕ → Bool
check_plain scancode =
    not (is_letter_code scancode)
    || not (scancode == 0x2a || scancode == 0x36 || scancode == 0x1d || scancode == 0x3a)

plain_table : each_code 128 0 check_plain ≡ true
unfolding each_code check_plain is_lower lookup_key
plain_table = refl

letter-press :
    (k : Keyboard) (scancode : ℕ)
    → scancode < 128
    → is_letter_code scancode ≡ true
    → press k scancode ≡ type_key k scancode
unfolding press check_plain
letter-press k scancode h l =
    ground (arith, each_code_at 128 0 _ scancode (omega arith) (omega (arith, h)) plain_table)

letter-type :
    (k : Keyboard) (scancode : ℕ)
    → scancode < 128
    → translate k.shift_down k.caps_lock k.ctrl_down scancode ≢ 0
    → type_key k scancode ≡ push k (translate k.shift_down k.caps_lock k.ctrl_down scancode)
unfolding type_key translate apply_ctrl apply_caps
letter-type k scancode h n = ground arith

lower_bound : (c : ℕ) → is_lower c ≡ true → 96 < c
unfolding is_lower
lower_bound c h = ground arith

-- With control held, pressing the key of a letter queues the letter's number in the alphabet
-- (if there is room), whatever shift and caps lock are.
pub ctrl_press :
    (k : Keyboard) (scancode : ℕ)
    → IsValid k
    → k.extended ≡ false
    → k.ctrl_down ≡ true
    → scancode < 128
    → is_letter_code scancode ≡ true
    → queued (keyboard_callback k scancode) ≡ enqueue (queued k) (lookup_key keymap scancode - 96)
unfolding keyboard_callback
ctrl_press k scancode v x c h l =
    let t : translate k.shift_down k.caps_lock k.ctrl_down scancode
        ≡ lookup_key keymap scancode - 96 =
      rw c (translate_ctrl k.shift_down k.caps_lock scancode h l) in
    ground (
      arith,
      letter-press k scancode h l,
      letter-type k scancode h,
      t,
      lower_bound (lookup_key keymap scancode) l,
      push_refines k (lookup_key keymap scancode - 96) v,
    )

-- After the prefix byte 0xE0, any next byte but another prefix leaves shift, control and caps lock
-- as they were and ends the sequence, so the keys that share a code with a modifier do not act as
-- one.
pub prefix_keeps_modifiers :
    (k : Keyboard) (b : ℕ)
    → b ≢ 0xe0
    → let k' = keyboard_callback (keyboard_callback k 0xe0) b in
      (k'.shift_down ≡ k.shift_down)
      × (k'.ctrl_down ≡ k.ctrl_down)
      × (k'.caps_lock ≡ k.caps_lock)
      × (k'.extended ≡ false)
unfolding keyboard_callback push
prefix_keeps_modifiers k b h = ground arith
