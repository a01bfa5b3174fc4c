-- ===== src/Console/Typed.antt =====
-- What console_read_line() of kernel/console.c returns.
use lightning_os.Prelude.{
  ℕ, ◌≡◌, ◌≤◌, refl, sym, ap, ◌∙◌, Bool, true, false, ◌||◌, Option, some, none, List, [], ◌∷◌, ◌++◌,
  ltb, ◌==◌, if◌then◌else◌, take, length, arith, Bool-cases, inl, inr, length-take, if_cases, pos,
  neg, take-length, take-append, take_short, append-nil, append_assoc, ltb-false,
}
use lightning_os.Keyboard.Keymap.{key_up, key_down, key_pageup, key_pagedown}
use lightning_os.Vga.{Vga, vga_clear, vga_scroll_to_bottom}
use lightning_os.Vga.Frame.{Shows}
use lightning_os.Vga.Shows.{vga_putc-Shows, vga_write-Shows, vga_scroll_to_bottom-Shows}
use lightning_os.Vga.Archive.{vga_clear-Shows}
use lightning_os.Console.{
  Echo, Editor, Outcome, entered, cancelled, more, insert_key, handle_key, read_from, History,
  fresh_line, console_read_line, line_limit,
}
use lightning_os.Console.Invariant.{
  IsEditor, KeepsShows, redraw-IsEditor, backspace-IsEditor, clear_line-IsEditor, arrow-IsEditor,
  insert_key-IsEditor, moved_view-IsEditor,
}

-- What is true of the editor after a key that ends the line, cancels it or does neither.
abbrev pub AfterKey : Echo → ℕ → Outcome × Editor → Type 0
AfterKey echo limit (entered, e) = (length e.out ≤ limit) × Shows e.vga
AfterKey echo limit (cancelled, e) = (e.out ≡ []) × Shows e.vga
AfterKey echo limit (more, e) = IsEditor echo limit e

-- What the loop gives: the line fits, or it is cancelled and empty.
abbrev pub Returned : ℕ → Option (Bool × Editor) → Type 0
Returned limit none = Unit {0}
Returned limit (some (true, e)) = (length e.out ≤ limit) × Shows e.vga
Returned limit (some (false, e)) = (e.out ≡ []) × Shows e.vga

abbrev pub AllPrintable : List ℕ → Type 0
AllPrintable [] = Unit {0}
AllPrintable (c ∷ s) = (32 ≤ c) × (c ≤ 126) × AllPrintable s

take_full : (n : ℕ) (xs ys : List ℕ) → length xs ≡ n → take n (xs ++ ys) ≡ xs
take_full n xs ys e = ap (λ k. take k (xs ++ ys)) (sym e) ∙ take-append xs ys

fresh-IsEditor :
    (echo : Echo) (limit : ℕ) (h : History) (v : Vga)
    → Shows v
    → IsEditor echo limit (fresh_line h v)
unfolding fresh_line
fresh-IsEditor echo limit h v s = record {
  fits = omega arith;
  counted = refl;
  drawn = ground arith;
  shows = s;
}

module _ (echo : Echo) (use_history : Bool) (prompt : Vga → Vga) (limit : ℕ) (h : History)
    (p : KeepsShows prompt) where
  handle_key-AfterKey :
      (key : ℕ) (e : Editor)
      → IsEditor echo limit e
      → AfterKey echo limit (handle_key echo use_history prompt limit h key e)
  unfolding handle_key
  handle_key-AfterKey key e i =
      let P : Outcome × Editor → Type 0 = AfterKey echo limit in
      let bottom = vga_scroll_to_bottom-Shows e.vga i.shows in
      let cleared = p (vga_clear e.vga) (vga_clear-Shows e.vga i.shows.range) in
      if_cases P (key == 10) _ _
        (λ y. (
          omega (arith, length-take e.len e.out, i.fits),
          vga_putc-Shows 10 (vga_scroll_to_bottom e.vga) bottom,
        ))
        (λ y.
          if_cases P (key == 8) _ _ (λ y. backspace-IsEditor echo limit e i)
            (λ y.
              if_cases P (key == 3) _ _
                (λ y. (
                  refl,
                  vga_write-Shows (b'^' ∷ b'C' ∷ 10 ∷ []) (vga_scroll_to_bottom e.vga) bottom,
                ))
                (λ y.
                  if_cases P (key == 12) _ _
                    (λ y.
                      redraw-IsEditor echo limit e.out
                        (record e { vga = prompt (vga_clear e.vga); drawn = 0 }) refl
                        (sym i.counted) (omega (arith, i.counted, i.fits)) cleared)
                    (λ y.
                      if_cases P (key == 21) _ _ (λ y. clear_line-IsEditor echo limit e i.shows)
                        (λ y.
                          if_cases P (key == key_pageup) _ _
                            (λ y. moved_view-IsEditor echo limit (pos 23) e i)
                            (λ y.
                              if_cases P (key == key_pagedown) _ _
                                (λ y. moved_view-IsEditor echo limit (neg 23) e i)
                                (λ y.
                                  if_cases P (key == key_up || key == key_down) _ _
                                    (λ y.
                                      arrow-IsEditor echo limit use_history h (key == key_up) e i)
                                    (λ y. insert_key-IsEditor echo limit key e i))))))))

  pub read_from-Returned :
      (keys : List ℕ) (e : Editor)
      → IsEditor echo limit e
      → Returned limit (read_from echo use_history prompt limit h keys e)
  unfolding read_from
  read_from-Returned [] e i = tt
  read_from-Returned (key ∷ keys) e i =
      let (o, e') = handle_key echo use_history prompt limit h key e in
      ended keys o e' (handle_key-AfterKey key e i) (read_from-Returned keys)
    where
      ended :
          (keys : List ℕ) (o : Outcome) (e' : Editor)
          → AfterKey echo limit (o, e')
          → ((e : Editor)
              → IsEditor echo limit e
              → Returned limit (read_from echo use_history prompt limit h keys e))
          → Returned limit (elim o [
            | entered ↦ some (true, e')
            | cancelled ↦ some (false, e')
            | more ↦ read_from echo use_history prompt limit h keys e'
          ])
      ended keys entered e' a ih = a
      ended keys cancelled e' a ih = a
      ended keys more e' a ih = ih e' a

  typed_key :
      (key : ℕ) (e : Editor)
      → 32 ≤ key
      → key ≤ 126
      → handle_key echo use_history prompt limit h key e ≡ (more, insert_key echo limit key e)
  unfolding handle_key
  typed_key key e a b = ground (arith, a, b)

  enter_key :
      (e : Editor)
      → (e' : Editor) × (handle_key echo use_history prompt limit h 10 e ≡ (entered, e'))
        × (e'.out ≡ take e.len e.out)
  unfolding handle_key
  enter_key e = (_, refl, refl)

  insert_out :
      (key : ℕ) (e : Editor)
      → 32 ≤ key
      → key ≤ 126
      → IsEditor echo limit e
      → ((insert_key echo limit key e).out ≡ (if ltb e.len limit then e.out ++ key ∷ [] else e.out))
  unfolding insert_key
  insert_out key e a b i =
      let whole : take e.len e.out ≡ e.out =
        ap (λ n. take n e.out) (sym i.counted) ∙ take-length e.out in
      ground (arith, a, b, whole)

  read_entered :
      (key : ℕ) (keys : List ℕ) (e e' : Editor)
      → handle_key echo use_history prompt limit h key e ≡ (entered, e')
      → read_from echo use_history prompt limit h (key ∷ keys) e ≡ some (true, e')
  unfolding read_from
  read_entered key keys e e' k = ground (arith, k)

  read_more :
      (key : ℕ) (keys : List ℕ) (e e' : Editor)
      → handle_key echo use_history prompt limit h key e ≡ (more, e')
      → read_from echo use_history prompt limit h (key ∷ keys) e
        ≡ read_from echo use_history prompt limit h keys e'
  unfolding read_from
  read_more key keys e e' k = ground (arith, k)

  pub typed_from :
      (text rest : List ℕ) (e : Editor)
      → AllPrintable text
      → IsEditor echo limit e
      → (e' : Editor) × (read_from echo use_history prompt limit h (text ++ 10 ∷ rest) e
          ≡ some (true, e'))
        × (e'.out ≡ take limit (e.out ++ text))
  typed_from [] rest e a i =
      let (e', k, o) = enter_key e in
      let whole : take e.len e.out ≡ e.out =
        ap (λ n. take n e.out) (sym i.counted) ∙ take-length e.out in
      let fit : length e.out ≤ limit = omega (arith, i.fits, i.counted) in
      (
        e',
        read_entered 10 rest e e' k,
        o ∙ whole ∙ sym (take_short limit e.out fit) ∙ ap (take limit) (sym (append-nil e.out)),
      )
  typed_from (c ∷ text) rest e a i =
      let k = typed_key c e a.0 a.1 in
      let out = insert_out c e a.0 a.1 i in
      let (e', r, o) =
        typed_from text rest (insert_key echo limit c e) a.2
          (insert_key-IsEditor echo limit c e i) in
      (
        e',
        read_more c (text ++ 10 ∷ rest) e (insert_key echo limit c e) k ∙ r,
        o ∙ elim (Bool-cases (ltb e.len limit)) [
          | inl y ↦
              ap (λ z. take limit (z ++ text)) (out ∙ rw y refl)
              ∙ ap (take limit) (append_assoc e.out (c ∷ []) text)
          | inr n ↦
              let full : length e.out ≡ limit =
                omega (arith, i.fits, i.counted, ltb-false e.len limit n) in
              ap (λ z. take limit (z ++ text)) (out ∙ rw n refl)
              ∙ take_full limit e.out text full
              ∙ sym (take_full limit e.out (c ∷ text) full)
        ],
      )

-- console_read_line() of any keys, whatever the echo, the history and the screen: where the screen
-- shows what is in view before, and the caller's prompt keeps that, it still does after the line is
-- read; a line that is entered has fewer bytes than the buffer, and fewer than 256; a line that is
-- cancelled is empty.
pub console_read_line-Returned :
    (size : ℕ) (echo : Echo) (use_history : Bool) (prompt : Vga → Vga) (h : History) (keys : List ℕ)
    (v : Vga)
    → KeepsShows prompt
    → Shows v
    → Returned (line_limit size) (console_read_line size echo use_history prompt h keys v)
unfolding console_read_line fresh_line
console_read_line-Returned size echo use_history prompt h keys v p s =
    read_from-Returned echo use_history prompt (line_limit size) h p keys (fresh_line h v)
      (fresh-IsEditor echo (line_limit size) h v s)

-- Printable keys and then the newline give, in a buffer of `size` bytes, the text that was typed,
-- cut to one byte less than the smaller of `size` and 256, whatever keys come later.
pub read_line-typed :
    (size : ℕ) (echo : Echo) (use_history : Bool) (prompt : Vga → Vga) (h : History)
    (text rest : List ℕ) (v : Vga)
    → KeepsShows prompt
    → Shows v
    → AllPrintable text
    → (e : Editor) × (console_read_line size echo use_history prompt h (text ++ 10 ∷ rest) v
        ≡ some (true, e))
      × (e.out ≡ take (line_limit size) text)
unfolding console_read_line fresh_line
read_line-typed size echo use_history prompt h text rest v p s a =
    typed_from echo use_history prompt (line_limit size) h p text rest (fresh_line h v) a
      (fresh-IsEditor echo (line_limit size) h v s)
