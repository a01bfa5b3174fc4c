-- ===== src/Keyboard/Keys.antt =====
-- What the scancode handler of drivers/keyboard.c puts into the ring.
use lightning_os.Prelude.{
  ◌%◌, ◌||◌, ℕ, zero, suc, ◌%◌, ◌≤◌, ◌<◌, ◌≡◌, refl, ◌≢◌, ◌↔◌, inl, inr, Bool, false, ◌||◌, Option,
  some, none, List, [], ◌∷◌, ◌++◌, arith, ltb, leb, ◌==◌, if◌then◌else◌, get_or, length, Bool-cases,
  if_cases, ap,
}
use lightning_os.Keyboard.Keymap.{keymap, keymap_shift, lookup_key}
use lightning_os.Keyboard.{
  Keyboard, static_zero, push, push_if, extended_key, apply_caps, apply_ctrl, type_key, release,
  press, keyboard_callback, keyboard_poll,
}
use lightning_os.Keyboard.Ring.{
  IsValid, queued, waiting, enqueue, dequeue, push-IsValid, poll-IsValid, push_refines,
  poll_refines,
}

-- A key that the console can meet: a character or one of the key codes, never 0.
abbrev pub IsKey : ℕ → Type 0
IsKey key = (0 < key) × (key ≤ 0x109)

abbrev pub AllKeys : List ℕ → Type 0
AllKeys [] = Unit {0}
AllKeys (key ∷ q) = IsKey key × AllKeys q

abbrev AllLe : ℕ → List ℕ → Type 0
AllLe b [] = Unit {0}
AllLe b (x ∷ xs) = (x ≤ b) × AllLe b xs

get_or-le : (b : ℕ) (xs : List ℕ) (i : ℕ) → AllLe b xs → get_or xs i 0 ≤ b
get_or-le b [] i h = omega arith
get_or-le b (x ∷ xs) zero h = h.0
get_or-le b (x ∷ xs) (suc i) h = get_or-le b xs i h.1

lookup_key-keymap : (scancode : ℕ) → lookup_key keymap scancode ≤ 126
unfolding lookup_key
lookup_key-keymap scancode = get_or-le 126 keymap scancode (omega arith)

lookup_key-keymap_shift : (scancode : ℕ) → lookup_key keymap_shift scancode ≤ 126
unfolding lookup_key
lookup_key-keymap_shift scancode = get_or-le 126 keymap_shift scancode (omega arith)

AllKeys-snoc : (q : List ℕ) (key : ℕ) → AllKeys q → IsKey key → AllKeys (q ++ key ∷ [])
AllKeys-snoc [] key h k = (k, tt)
AllKeys-snoc (x ∷ q) key h k = (h.0, AllKeys-snoc q key h.1 k)

-- A ring in order that holds keys only.
pub record IsClean (k : Keyboard) : Type 0 where
  pub valid : IsValid k
  pub keys : AllKeys (queued k)

push-IsClean : (k : Keyboard) (key : ℕ) → IsKey key → IsClean k → IsClean (push k key)
push-IsClean k key h c = record {
  valid = push-IsValid k key c.valid;
  keys = rw (push_refines k key c.valid) (kept (queued k) c.keys);
}
  where
    kept : (q : List ℕ) → AllKeys q → AllKeys (enqueue q key)
    kept q a = elim (Bool-cases (ltb (length q) 127)) [
      | inl e ↦ rw e (AllKeys-snoc q key a h)
      | inr e ↦ rw e a
    ]

translated-IsKey :
    (ctrl caps : Bool) (c : ℕ) → c ≢ 0 → c ≤ 126 → IsKey (apply_ctrl ctrl (apply_caps caps c))
unfolding apply_ctrl apply_caps
translated-IsKey ctrl caps c h l = ground arith

extended_key-IsKey : (scancode key : ℕ) → extended_key scancode ≡ some key → IsKey key
unfolding extended_key
extended_key-IsKey scancode key e = ground arith

-- Fields that the ring does not depend on.
modifiers-IsClean :
    (k : Keyboard) (s c t e : Bool)
    → IsClean k
    → IsClean (record k { shift_down = s; caps_lock = c; ctrl_down = t; extended = e })
unfolding queued
modifiers-IsClean k s c t e h = record {
  valid = record {
    storage = h.valid.storage;
    head_in = h.valid.head_in;
    tail_in = h.valid.tail_in;
  };
  keys = h.keys;
}

type_key-IsClean : (k : Keyboard) (scancode : ℕ) → IsClean k → IsClean (type_key k scancode)
unfolding type_key
type_key-IsClean k scancode h =
    if_cases IsClean (leb 128 scancode) _ _ (λ _. h)
      λ _. typed _ (
        if_cases (λ m. lookup_key m scancode ≤ 126) k.shift_down _ _
          (λ _. lookup_key-keymap_shift scancode) (λ _. lookup_key-keymap scancode))
  where
    typed :
        (c : ℕ)
        → c ≤ 126
        → IsClean (if c == 0 then k else push k (apply_ctrl k.ctrl_down (apply_caps k.caps_lock c)))
    typed c l =
        if_cases IsClean (c == 0) _ _ (λ _. h)
          λ e. push-IsClean k _ (translated-IsKey k.ctrl_down k.caps_lock c (ground arith) l) h

push_if-IsClean :
    (k : Keyboard) (o : Option ℕ)
    → ((key : ℕ) → o ≡ some key → IsKey key)
    → IsClean k
    → IsClean (push_if k o)
push_if-IsClean k none h c = c
push_if-IsClean k (some key) h c = push-IsClean k key (h key refl) c

release-IsClean : (k : Keyboard) (made : ℕ) → IsClean k → IsClean (release k made)
unfolding release
release-IsClean k made h =
    if_cases IsClean (made == 0x2a || made == 0x36) _ _ (λ _. modifiers-IsClean k _ _ _ _ h)
      λ _. if_cases IsClean (made == 0x1d) _ _ (λ _. modifiers-IsClean k _ _ _ _ h) (λ _. h)

press-IsClean : (k : Keyboard) (scancode : ℕ) → IsClean k → IsClean (press k scancode)
unfolding press
press-IsClean k scancode h =
    if_cases IsClean (scancode == 0x2a || scancode == 0x36) _ _ (λ _. modifiers-IsClean k _ _ _ _ h)
      λ _.
        if_cases IsClean (scancode == 0x1d) _ _ (λ _. modifiers-IsClean k _ _ _ _ h)
          λ _.
            if_cases IsClean (scancode == 0x3a) _ _ (λ _. modifiers-IsClean k _ _ _ _ h)
              λ _. type_key-IsClean k scancode h

pub callback-IsClean : (k : Keyboard) (b : ℕ) → IsClean k → IsClean (keyboard_callback k b)
unfolding keyboard_callback
callback-IsClean k b h =
    if_cases IsClean (b == 0xe0) _ _ (λ _. modifiers-IsClean k _ _ _ _ h)
      λ _.
        if_cases IsClean k.extended _ _
          (λ _.
            if_cases IsClean (leb 128 b) _ _ (λ _. plain)
              λ _. push_if-IsClean _ (extended_key b) (extended_key-IsKey b) plain)
          (λ _.
            if_cases IsClean (leb 128 b) _ _ (λ _. release-IsClean k (b % 128) h)
              λ _. press-IsClean k b h)
  where
    plain : IsClean (record k { extended = false })
    plain = modifiers-IsClean k _ _ _ _ h

poll-IsClean : (k : Keyboard) → IsClean k → IsClean (keyboard_poll k).1
poll-IsClean k h = record {
  valid = poll-IsValid k h.valid;
  keys = rw (ap (λ r. r.1) (poll_refines k h.valid)) (rest (queued k) h.keys);
}
  where
    rest : (q : List ℕ) → AllKeys q → AllKeys (dequeue q).1
    rest [] a = tt
    rest (key ∷ q) a = a.1

-- What happens to the driver: an interrupt brings a byte, or the console asks for a key.
pub data Event : Type 0 where
  irq : ℕ → Event
  poll : Event

unfoldable pub step : Keyboard → Event → Keyboard
step k (irq b) = keyboard_callback k b
step k poll = (keyboard_poll k).1

unfoldable pub run : Keyboard → List Event → Keyboard
run k [] = k
run k (e ∷ es) = run (step k e) es

run-IsClean : (es : List Event) (k : Keyboard) → IsClean k → IsClean (run k es)
unfolding run step
run-IsClean [] k h = h
run-IsClean (irq b ∷ es) k h = run-IsClean es _ (callback-IsClean k b h)
run-IsClean (poll ∷ es) k h = run-IsClean es _ (poll-IsClean k h)

static_zero-IsClean : IsClean static_zero
unfolding queued waiting
static_zero-IsClean = record { valid = omega arith; keys = tt }

poll-zero_iff : (k : Keyboard) → IsClean k → ((keyboard_poll k).0 ≡ 0) ↔ (queued k ≡ [])
poll-zero_iff k h = rw (ap (λ r. r.0) (poll_refines k h.valid)) (empty (queued k) h.keys)
  where
    empty : (q : List ℕ) → AllKeys q → ((dequeue q).0 ≡ 0) ↔ (q ≡ [])
    empty [] a = (λ _. refl, λ _. refl)
    empty (key ∷ q) a = (λ e. absurd (omega arith), λ e. cc)

-- From power on, after any interleaving of interrupts (with any bytes) and polls, every key that
-- waits is between 1 and KEY_PAGEDOWN, and keyboard_poll() returns 0 exactly when none waits.
pub poll_after_run :
    (es : List Event)
    → AllKeys (queued (run static_zero es))
      × (((keyboard_poll (run static_zero es)).0 ≡ 0) ↔ (queued (run static_zero es) ≡ []))
poll_after_run es = let c = run-IsClean es _ static_zero-IsClean in (c.keys, poll-zero_iff _ c)
