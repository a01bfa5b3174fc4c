-- ===== src/Keyboard/Tests.antt =====
-- Runs of drivers/keyboard.c, and the theorems about it at concrete states.
use lightning_os.Prelude.{◌+◌, ◌-◌, ◌≡◌, ◌↔◌, refl, true, false, List, [], ◌∷◌, arith}
use lightning_os.Keyboard.Keymap.{keymap, lookup_key}
use lightning_os.Keyboard.{
  extended_key, Keyboard, static_zero, push, release, press, type_key, is_lower, keyboard_callback,
  keyboard_poll,
}
use lightning_os.Keyboard.Ring.{
  IsValid, queued, waiting, enqueue, ring_refines, ring_run, queue_run, arrive, collect,
}
use lightning_os.Keyboard.Keys.{Event, irq, poll, run, step, AllKeys, poll_after_run}
use lightning_os.Keyboard.Modifiers.{ctrl_press, translate, translate_caps}

abbrev fresh : Keyboard
fresh = static_zero

fresh-IsValid : IsValid fresh
fresh-IsValid = omega arith

-- Shift and `a`, then the up arrow.
typed : queued (run fresh (irq 0x2a ∷ irq 0x1e ∷ irq 0xe0 ∷ irq 0x48 ∷ [])) ≡ b'A' ∷ 0x101 ∷ []
unfolding run step keyboard_callback press release type_key push lookup_key queued waiting
    extended_key
typed = refl

ring_refines_example :
    let (keys, k') = ring_run (arrive 65 ∷ collect ∷ collect ∷ []) fresh in
    (keys, queued k') ≡ queue_run (arrive 65 ∷ collect ∷ collect ∷ []) (queued fresh)
ring_refines_example = ring_refines (arrive 65 ∷ collect ∷ collect ∷ []) fresh fresh-IsValid

abbrev events : List Event
events = irq 0x1e ∷ poll ∷ irq 0xe0 ∷ irq 0x48 ∷ []

poll_after_run_example :
    AllKeys (queued (run static_zero events))
    × (((keyboard_poll (run static_zero events)).0 ≡ 0) ↔ (queued (run static_zero events) ≡ []))
poll_after_run_example = poll_after_run events

abbrev ctrl_held : Keyboard
ctrl_held = record static_zero { ctrl_down = true; caps_lock = true }

ctrl_press_example :
    queued (keyboard_callback ctrl_held 0x2e)
    ≡ enqueue (queued ctrl_held) (lookup_key keymap 0x2e - 96)
unfolding is_lower lookup_key
ctrl_press_example = ctrl_press ctrl_held 0x2e (omega arith) refl refl (omega arith) refl

translate_caps_example :
    (translate true true false 0x1e ≡ lookup_key keymap 0x1e)
    × (translate true false false 0x1e ≡ translate false true false 0x1e)
    × (translate true false false 0x1e + 32 ≡ lookup_key keymap 0x1e)
unfolding is_lower lookup_key
translate_caps_example = translate_caps 0x1e (omega arith) refl
