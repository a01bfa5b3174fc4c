-- ===== src/Vga/Shows.antt =====
-- drivers/vga.c: the video memory shows the part of the scrollback and the screen that is in view.
use lightning_os.Prelude.{
  ℕ, ◌+◌, ◌-◌, ◌*◌, ◌/◌, ◌%◌, ◌≡◌, ◌<◌, ◌≤◌, refl, sym, ap, ◌∙◌, true, false, List, [], ◌∷◌, ltb,
  ◌==◌, if◌then◌else◌, ℤ, pos, negsuc, arith, Bool-cases, inl, inr, if_cases,
}
use lightning_os.Vga.{
  Vga, char_cell, move_hardware_cursor, source, scrollback_line, repaint, scroll_up_one, put_cell,
  step_back, advance, wrap_line, finish_line, vga_scroll_to_bottom, vga_putc, vga_write,
  clamp_index, vga_set_cursor, moved_view, vga_scroll_view, vga_set_color,
}
use lightning_os.Vga.Frame.{in_view, InRange, OnScreen, Shows, push_scrollback-InRange}

-- The line that repaint() takes for a row is the one in view.
source-in_view : (v : Vga) (row : ℕ) → InRange v → source v row ≡ in_view v row
unfolding source scrollback_line in_view
source-in_view v row r =
    let h = r.head in
    let c = r.count in
    let w = r.view in
    elim (Bool-cases (ltb row v.view_offset)) [
      | inl old ↦
          let lt : row < v.view_offset = ground (arith, old) in
          let above : ltb (v.count + row - v.view_offset) v.count ≡ true = ground (arith, w, lt) in
          let slot : (v.head + (v.count + row - v.view_offset) + 512 - v.count)
              ≡ v.head + 512 - (v.view_offset - row) =
            omega (arith, c, w, lt) in
          rw (above, old) (ap (λ z. v.scrollback (z % 512)) slot)
      | inr live ↦
          let ge : v.view_offset ≤ row = ground (arith, live) in
          let below : ltb (v.count + row - v.view_offset) v.count ≡ false = ground (arith, w, ge) in
          let at : v.count + row - v.view_offset - v.count ≡ row - v.view_offset =
            omega (arith, w, ge) in
          rw (below, live, at) refl
    ]

-- At the bottom the view is the screen.
in_view-live : (v : Vga) (r : ℕ) → v.view_offset ≡ 0 → in_view v r ≡ v.screen r
unfolding in_view
in_view-live v r e =
    let n : ltb r v.view_offset ≡ false = ground (arith, e) in
    let z : r - v.view_offset ≡ r = omega (arith, e) in rw (n, z) refl

repaint-vram : (v : Vga) (i : ℕ) → i < 2000 → (repaint v).vram i ≡ source v (i / 80) (i % 80)
unfolding repaint
repaint-vram v i h = ground (arith, h)

repaint-in_view : (v : Vga) (row : ℕ) → in_view (repaint v) row ≡ in_view v row
unfolding repaint in_view
repaint-in_view v row = refl

pub repaint-Shows : (v : Vga) → InRange v → OnScreen v → Shows (repaint v)
unfolding repaint
repaint-Shows v r c =
    let a = c.row in
    let b = c.col in
    record {
      range = record { head = r.head; count = r.count; view = r.view };
      cursor = record { row = a; col = b };
      painted = λ i h.
          repaint-vram v i h
          ∙ ap (λ l. l (i % 80)) (source-in_view v (i / 80) r ∙ sym (repaint-in_view v (i / 80)));
      pointed = ground (arith, a, b);
    }

pub vga_scroll_to_bottom-Shows : (v : Vga) → Shows v → Shows (vga_scroll_to_bottom v)
unfolding vga_scroll_to_bottom
vga_scroll_to_bottom-Shows v s = elim (Bool-cases (v.view_offset == 0)) [
  | inl e ↦ rw e s
  | inr n ↦ rw n (
      repaint-Shows (record v { view_offset = 0 })
        (record { head = s.range.head; count = s.range.count; view = omega arith })
        (record { row = s.cursor.row; col = s.cursor.col }))
]

pub vga_scroll_to_bottom-live : (v : Vga) → (vga_scroll_to_bottom v).view_offset ≡ 0
unfolding vga_scroll_to_bottom repaint
vga_scroll_to_bottom-live v = ground arith

-- What video memory shows while a character is written.
record Live (v : Vga) : Type 0 where
  pub view : v.view_offset ≡ 0
  pub range : InRange v
  pub painted : (i : ℕ) → i < 2000 → v.vram i ≡ v.screen (i / 80) (i % 80)

Shows-Live : (v : Vga) → Shows v → v.view_offset ≡ 0 → Live v
Shows-Live v s e = record {
  view = e;
  range = s.range;
  painted = λ i h. s.painted i h ∙ ap (λ l. l (i % 80)) (in_view-live v (i / 80) e);
}

put_cell-Live : (v : Vga) (x : ℕ) → v.col < 80 → Live v → Live (put_cell v x)
unfolding put_cell
put_cell-Live v x c l =
    let r = l.range in
    record {
      view = l.view;
      range = record { head = r.head; count = r.count; view = r.view };
      painted = λ i h. ground (arith, c, h, l.painted i h);
    }

step_back-Live : (v : Vga) → OnScreen v → Live v → Live (step_back v) × OnScreen (step_back v)
unfolding step_back
step_back-Live v c l =
    let p = l.painted in
    let r = l.range in
    let a = c.row in
    let b = c.col in
    let keep : (w : Vga) → Type 0 = λ w. Live w × OnScreen w in
    if_cases keep (ltb 0 v.col) _ _
      (λ e. (
        record {
          view = l.view;
          range = record { head = r.head; count = r.count; view = r.view };
          painted = p;
        },
        record { row = a; col = omega (arith, b) },
      ))
      (λ e.
        if_cases keep (ltb 0 v.row) _ _
          (λ g. (
            record {
              view = l.view;
              range = record { head = r.head; count = r.count; view = r.view };
              painted = p;
            },
            record { row = omega (arith, a); col = omega arith },
          ))
          (λ g. (l, c)))

-- Where the cursor may be before the line is finished.
abbrev Fits : Vga → Type 0
Fits v = Live v × (v.row ≤ 25) × (v.col ≤ 80) × (v.row + v.col / 80 ≤ 25)

advance-Fits : (c : ℕ) (v : Vga) → OnScreen v → Live v → Fits (advance c v)
unfolding advance
advance-Fits c v o l =
    let r = l.range in
    let a = o.row in
    let b = o.col in
    let moved : (row col : ℕ) → Live (record v { row = row; col = col }) = λ row col. record {
      view = l.view;
      range = record { head = r.head; count = r.count; view = r.view };
      painted = l.painted;
    } in
    let back = step_back-Live v o l in
    if_cases Fits (c == 10) _ _
      (λ e. (moved (v.row + 1) 0, omega (arith, a), omega arith, omega (arith, a)))
      (λ e.
        if_cases Fits (c == 13) _ _
          (λ e. (moved v.row 0, omega (arith, a), omega arith, omega (arith, a)))
          (λ e.
            if_cases Fits (c == 9) _ _
              (λ e. (
                moved v.row ((v.col + 4) / 4 * 4),
                omega (arith, a),
                omega (arith, b),
                omega (arith, a, b),
              ))
              (λ e.
                if_cases Fits (c == 8) _ _
                  (λ e. (
                    put_cell-Live (step_back v) _ back.1.col back.0,
                    omega arith,
                    omega arith,
                    omega arith,
                  ))
                  (λ e.
                    let p = put_cell-Live v (char_cell c v.attribute) b l in
                    let q = p.range in
                    (
                      record {
                        view = p.view;
                        range = record { head = q.head; count = q.count; view = q.view };
                        painted = p.painted;
                      },
                      omega (arith, a),
                      omega (arith, b),
                      omega (arith, a, b),
                    )))))

wrap_line-Live :
    (v : Vga) → Fits v → Live (wrap_line v) × ((wrap_line v).row ≤ 25) × ((wrap_line v).col < 80)
unfolding wrap_line
wrap_line-Live v (l, a, b, c) = elim (Bool-cases (ltb v.col 80)) [
  | inl e ↦ rw e (l, a, ground (arith, e))
  | inr n ↦
      let r = l.range in
      let low : 80 ≤ v.col = ground (arith, n) in
      let one : 1 ≤ v.col / 80 = omega (arith, low) in
      rw n (
        record {
          view = l.view;
          range = record { head = r.head; count = r.count; view = r.view };
          painted = l.painted;
        },
        omega (arith, a, one, c),
        omega arith,
      )
]

scroll_up_one-range : (v : Vga) → Live v → InRange (scroll_up_one v)
unfolding scroll_up_one
scroll_up_one-range v l =
    let r = push_scrollback-InRange v (v.screen 0) l.range in
    record { head = r.head; count = r.count; view = r.view }

scroll_up_one-cursor : (v : Vga) → v.col < 80 → OnScreen (scroll_up_one v)
unfolding scroll_up_one
scroll_up_one-cursor v h = record { row = omega arith; col = h }

move_hardware_cursor-Shows :
    (v : Vga) → Live v → v.row < 25 → v.col < 80 → Shows (move_hardware_cursor v)
unfolding move_hardware_cursor
move_hardware_cursor-Shows v l a b =
    let r = l.range in
    record {
      range = record { head = r.head; count = r.count; view = r.view };
      cursor = record { row = a; col = b };
      painted = λ i h.
          l.painted i h
          ∙ sym (ap (λ k. k (i % 80)) (in_view-live (move_hardware_cursor v) (i / 80) l.view));
      pointed = ground (arith, a, b, l.view);
    }

clamp_index-lt : (n : ℕ) (i : ℤ) → 0 < n → clamp_index n i < n
unfolding clamp_index
clamp_index-lt n (pos i) h = ground (arith, h)
clamp_index-lt n (negsuc i) h = h

finish_line-Shows : (v : Vga) → Live v → v.row ≤ 25 → v.col < 80 → Shows (finish_line v)
unfolding finish_line
finish_line-Shows v l a b = elim (Bool-cases (ltb v.row 25)) [
  | inl e ↦ rw e (move_hardware_cursor-Shows v l (ground (arith, e)) b)
  | inr n ↦
      rw n (repaint-Shows (scroll_up_one v) (scroll_up_one-range v l) (scroll_up_one-cursor v b))
]

-- Whatever is written, the video memory shows what is in view.
pub vga_putc-Shows : (c : ℕ) (v : Vga) → Shows v → Shows (vga_putc c v)
unfolding vga_putc
vga_putc-Shows c v s =
    let b = vga_scroll_to_bottom-Shows v s in
    let live = Shows-Live (vga_scroll_to_bottom v) b (vga_scroll_to_bottom-live v) in
    let f = advance-Fits c (vga_scroll_to_bottom v) b.cursor live in
    let (w, row, col) = wrap_line-Live (advance c (vga_scroll_to_bottom v)) f in
    finish_line-Shows (wrap_line (advance c (vga_scroll_to_bottom v))) w row col

pub vga_write-Shows : (text : List ℕ) (v : Vga) → Shows v → Shows (vga_write text v)
unfolding vga_write
vga_write-Shows [] v s = s
vga_write-Shows (c ∷ text) v s = vga_write-Shows text (vga_putc c v) (vga_putc-Shows c v s)

pub vga_set_cursor-Shows : (row col : ℤ) (v : Vga) → Shows v → Shows (vga_set_cursor row col v)
unfolding vga_set_cursor in_view
vga_set_cursor-Shows row col v s =
    let r = s.range in
    let a = clamp_index-lt 25 row (omega arith) in
    let b = clamp_index-lt 80 col (omega arith) in
    record {
      range = record { head = r.head; count = r.count; view = r.view };
      cursor = record { row = a; col = b };
      painted = s.painted;
      pointed = ground (arith, a, b);
    }

pub vga_scroll_view-Shows : (lines : ℤ) (v : Vga) → Shows v → Shows (vga_scroll_view lines v)
unfolding vga_scroll_view
vga_scroll_view-Shows lines v s =
    let moved = moved_view v.view_offset lines in
    let target = if ltb v.count moved then v.count else moved in
    if_cases Shows (target == v.view_offset) _ _ (λ e. s)
      (λ n.
        repaint-Shows (record v { view_offset = target })
          (record { head = s.range.head; count = s.range.count; view = ground arith })
          (record { row = s.cursor.row; col = s.cursor.col }))

pub vga_set_color-Shows : (fg bg : ℕ) (v : Vga) → Shows v → Shows (vga_set_color fg bg v)
unfolding vga_set_color in_view
vga_set_color-Shows fg bg v s =
    let r = s.range in
    let c = s.cursor in
    record {
      range = record { head = r.head; count = r.count; view = r.view };
      cursor = record { row = c.row; col = c.col };
      painted = s.painted;
      pointed = s.pointed;
    }
