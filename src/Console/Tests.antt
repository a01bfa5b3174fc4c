-- ===== src/Console/Tests.antt =====
-- kernel/console.c on a blank screen.
use lightning_os.Prelude.{refl, [], ◌∷◌, ◌≡◌, arith, some, true, false}
use lightning_os.Vga.{Vga, vga_init}
use lightning_os.Vga.Reach.{run, run-Shows}
use lightning_os.Prelude.{replicate}
use lightning_os.Strings.Compare.{text_eq}
use lightning_os.Console.{
  console_history_push, stars, plain, Editor, console_read_line, console_history_at,
  console_history_push, text_eq,
}
use lightning_os.Console.Kept.{push_all, pushed_all, no_history, entry_at, history_lem}
use lightning_os.Console.Typed.{Returned, console_read_line-Returned, read_line-typed}

abbrev power_on : Vga
power_on = record {
  vram = λ i. 0;
  screen = λ r c. 0;
  scrollback = λ s c. 0;
  head = 0;
  count = 0;
  view_offset = 0;
  row = 0;
  col = 0;
  attribute = 0;
  pointer = 0;
}

abbrev booted : Vga
booted = run [] (vga_init power_on)

console_read_line-Returned_example :
    Returned 3
      (console_read_line 4 stars false (λ v. v) no_history (b'a' ∷ 8 ∷ b'b' ∷ 3 ∷ []) booted)
console_read_line-Returned_example =
    console_read_line-Returned 4 stars false (λ v. v) no_history (b'a' ∷ 8 ∷ b'b' ∷ 3 ∷ []) booted
      (λ v s. s) (run-Shows [] power_on)

read_line-typed_example :
    (e : Editor) × (console_read_line 3 plain true
        (λ v. v)
        no_history
        (b'a' ∷ b'b' ∷ b'c' ∷ 10 ∷ [])
        booted
      ≡ some (true, e))
    × (e.out ≡ b'a' ∷ b'b' ∷ [])
read_line-typed_example =
    read_line-typed 3 plain true (λ v. v) no_history (b'a' ∷ b'b' ∷ b'c' ∷ []) [] booted (λ v s. s)
      (run-Shows [] power_on) (omega arith)

history_lem_example :
    console_history_at 1 (
      push_all
        (some (b'l' ∷ b's' ∷ []) ∷ some (b'l' ∷ b's' ∷ []) ∷ some (b'w' ∷ []) ∷ [])
        no_history)
    ≡ entry_at 1
        (pushed_all (some (b'l' ∷ b's' ∷ []) ∷ some (b'l' ∷ b's' ∷ []) ∷ some (b'w' ∷ []) ∷ []) [])
history_lem_example =
    history_lem (some (b'l' ∷ b's' ∷ []) ∷ some (b'l' ∷ b's' ∷ []) ∷ some (b'w' ∷ []) ∷ []) 1

-- A line of 256 bytes that comes twice is kept twice.
long_line_twice :
    (push_all (some (replicate 256 b'a') ∷ some (replicate 256 b'a') ∷ []) no_history).total ≡ 2
unfolding push_all console_history_push no_history text_eq
long_line_twice = refl
