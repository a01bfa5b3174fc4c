-- ===== src/Console/Invariant.antt =====
-- What holds of the line editor of kernel/console.c between two keys.
use lightning_os.Prelude.{
  ℕ, zero, suc, ◌+◌, ◌-◌, ◌≡◌, ◌≤◌, refl, ap, ◌∙◌, Bool, not, ◌&&◌, ◌||◌, Option, some, none, List,
  [], ◌∷◌, ltb, ◌==◌, if◌then◌else◌, take, length, arith, length-append, length-take, if_cases, ℤ,
  pos, neg,
}
use lightning_os.Vga.{Vga, vga_putc, vga_scroll_view, vga_scroll_to_bottom}
use lightning_os.Vga.Frame.{Shows}
use lightning_os.Vga.Shows.{vga_putc-Shows, vga_scroll_view-Shows, vga_scroll_to_bottom-Shows}
use lightning_os.Console.{
  Echo, plain, hidden, stars, is_hidden, echo_char, echo_string, wipe, Editor, redraw, backspace,
  clear_line, recall, arrow, insert_key, History, console_history_at,
}

-- The line fits the buffer, the count is right, as many characters stand on the screen as the echo
-- shows, and the screen is as it should be.
pub record IsEditor (echo : Echo) (limit : ℕ) (e : Editor) : Type 0 where
  pub fits : e.len ≤ limit
  pub counted : length e.out ≡ e.len
  pub drawn : e.drawn ≡ (if is_hidden echo then 0 else e.len)
  pub shows : Shows e.vga

-- A function on the screen that keeps what the screen shows.
abbrev pub KeepsShows : (Vga → Vga) → Type 0
KeepsShows f = (v : Vga) → Shows v → Shows (f v)

pub echo_char-Shows : (echo : Echo) (c : ℕ) → KeepsShows (echo_char echo c)
unfolding echo_char
echo_char-Shows plain c v s = vga_putc-Shows c v s
echo_char-Shows hidden c v s = s
echo_char-Shows stars c v s = vga_putc-Shows b'*' v s

echo_string-Shows : (echo : Echo) (text : List ℕ) → KeepsShows (echo_string echo text)
unfolding echo_string
echo_string-Shows echo [] v s = s
echo_string-Shows echo (c ∷ text) v s =
    echo_string-Shows echo text (echo_char echo c v) (echo_char-Shows echo c v s)

wipe-Shows : (n : ℕ) → KeepsShows (wipe n)
unfolding wipe
wipe-Shows zero v s = s
wipe-Shows (suc n) v s = wipe-Shows n (vga_putc 8 v) (vga_putc-Shows 8 v s)

redraw-Shows :
    (echo : Echo) (line : List ℕ) (e : Editor) → Shows e.vga → Shows (redraw echo line e).vga
unfolding redraw
redraw-Shows echo line e s =
    echo_string-Shows echo line (wipe e.drawn e.vga) (wipe-Shows e.drawn e.vga s)

redraw_fields :
    (echo : Echo) (line : List ℕ) (e : Editor)
    → let r = redraw echo line e in
      (r.out ≡ e.out)
      × (r.len ≡ e.len)
      × (r.browse ≡ e.browse)
      × (r.drawn ≡ (if is_hidden echo then 0 else length line))
unfolding redraw
redraw_fields echo line e = (refl, refl, refl, refl)

module _ (echo : Echo) (limit : ℕ) where
  pub redraw-IsEditor :
      (line : List ℕ) (e : Editor)
      → e.out ≡ line
      → e.len ≡ length line
      → length line ≤ limit
      → Shows e.vga
      → IsEditor echo limit (redraw echo line e)
  redraw-IsEditor line e o l fit s =
      let (a, b, c, d) = redraw_fields echo line e in
      let n : length (redraw echo line e).out ≡ length line = ap length (a ∙ o) in
      record {
        fits = omega (arith, b, l, fit);
        counted = omega (arith, n, b, l);
        drawn = ground (arith, d, b, l);
        shows = redraw-Shows echo line e s;
      }

  pub backspace-IsEditor :
      (e : Editor) → IsEditor echo limit e → IsEditor echo limit (backspace echo e)
  unfolding backspace
  backspace-IsEditor e i =
      let fit = i.fits in
      let count = i.counted in
      let dr = i.drawn in
      let short : length (take (e.len - 1) e.out) ≡ e.len - 1 =
        omega (arith, length-take (e.len - 1) e.out, count) in
      if_cases (IsEditor echo limit) (e.len == 0) _ _ (λ z. i)
        (λ z.
          if_cases (IsEditor echo limit) (is_hidden echo) _ _
            (λ y. record {
              fits = omega (arith, fit);
              counted = short;
              drawn = ground (arith, dr, y);
              shows = i.shows;
            })
            (λ y. record {
              fits = omega (arith, fit);
              counted = short;
              drawn = ground (arith, dr, y);
              shows = vga_putc-Shows 8 e.vga i.shows;
            }))

  pub clear_line-IsEditor : (e : Editor) → Shows e.vga → IsEditor echo limit (clear_line echo e)
  unfolding clear_line
  clear_line-IsEditor e s =
      let (a, b, c, d) = redraw_fields echo [] e in
      record { fits = omega arith; counted = refl; drawn = d; shows = redraw-Shows echo [] e s }

  recall-IsEditor :
      (target : ℕ) (entry : Option (List ℕ)) (e : Editor)
      → IsEditor echo limit e
      → IsEditor echo limit (recall echo limit target entry e)
  unfolding recall
  recall-IsEditor target none e i = i
  recall-IsEditor target (some entry) e i =
      let line = take limit entry in
      redraw-IsEditor line (record e { browse = target; out = line; len = length line }) refl refl
        (omega (arith, length-take limit entry)) i.shows

  pub moved_view-IsEditor :
      (n : ℤ) (e : Editor)
      → IsEditor echo limit e
      → IsEditor echo limit (record e { vga = vga_scroll_view n e.vga })
  moved_view-IsEditor n e i = record {
    fits = i.fits;
    counted = i.counted;
    drawn = i.drawn;
    shows = vga_scroll_view-Shows n e.vga i.shows;
  }

  pub arrow-IsEditor :
      (use_history : Bool) (h : History) (up : Bool) (e : Editor)
      → IsEditor echo limit e
      → IsEditor echo limit (arrow echo use_history limit h up e)
  unfolding arrow
  arrow-IsEditor use_history h up e i =
      let P : Editor → Type 0 = IsEditor echo limit in
      let target = if up then e.browse - 1 else e.browse + 1 in
      if_cases P (not use_history) _ _ (λ y. moved_view-IsEditor (if up then pos 3 else neg 3) e i)
        (λ y.
          if_cases P (up && e.browse == 0) _ _ (λ z. i)
            (λ z.
              if_cases P (not (ltb target h.total)) _ _
                (λ w. clear_line-IsEditor (record e { browse = h.total }) i.shows)
                (λ w. recall-IsEditor target (console_history_at target h) e i)))

  pub insert_key-IsEditor :
      (key : ℕ) (e : Editor)
      → IsEditor echo limit e
      → IsEditor echo limit (insert_key echo limit key e)
  unfolding insert_key
  insert_key-IsEditor key e i =
      let P : Editor → Type 0 = IsEditor echo limit in
      let count = i.counted in
      let dr = i.drawn in
      if_cases P (ltb key 32 || ltb 126 key) _ _ (λ y. i)
        (λ y.
          if_cases P (not (ltb e.len limit)) _ _ (λ z. i)
            (λ z. record {
              fits = ground (arith, z);
              counted = omega (
                arith,
                count,
                length-append (take e.len e.out) (key ∷ []),
                length-take e.len e.out,
              );
              drawn = ground (arith, dr);
              shows =
                  echo_char-Shows echo key (vga_scroll_to_bottom e.vga)
                    (vga_scroll_to_bottom-Shows e.vga i.shows);
            }))
