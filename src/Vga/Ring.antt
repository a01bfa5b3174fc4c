-- ===== src/Vga/Ring.antt =====
-- The scrollback of drivers/vga.c against its specification: the last 512 lines.
use lightning_os.Prelude.{
  ℕ, zero, suc, ◌+◌, ◌-◌, ◌%◌, ◌≡◌, ◌<◌, ◌≤◌, refl, sym, ap, ◌∙◌, true, false, List, [], ◌∷◌, ◌++◌,
  ltb, ◌==◌, if◌then◌else◌, arith, Bool-cases, inl, inr, length, drop, length-append, length-drop,
  drop-drop, ==_refl,
}
use lightning_os.Vga.{Vga, Line, scrollback_line, push_scrollback}
use lightning_os.Vga.Frame.{InRange}

-- `n` lines from line `i` on.
pub lines : Vga → ℕ → ℕ → List Line
lines v i zero = []
lines v i (suc n) = scrollback_line v i ∷ lines v (i + 1) n

-- The lines that the scrollback keeps, the oldest first.
pub kept : Vga → List Line
kept v = lines v 0 v.count

-- The last 512 of a list.
abbrev pub newest : List Line → List Line
newest xs = drop (length xs - 512) xs

lines-snoc : (n i : ℕ) (v : Vga) → lines v i (n + 1) ≡ lines v i n ++ scrollback_line v (i + n) ∷ []
unfolding lines
lines-snoc zero i v = let e : i + 0 ≡ i = omega arith in rw e refl
lines-snoc (suc n) i v =
    let e : i + 1 + n ≡ i + suc n = omega arith in
    let z : suc n + 1 ≡ suc (n + 1) = omega arith in rw (z, lines-snoc n (i + 1) v, e) refl

lines-same :
    (n i k : ℕ) (v w : Vga)
    → ((j : ℕ) → j < n → scrollback_line w (i + j) ≡ scrollback_line v (k + j))
    → lines w i n ≡ lines v k n
unfolding lines
lines-same zero i k v w h = refl
lines-same (suc n) i k v w h =
    let shift : (a j : ℕ) → a + 1 + j ≡ a + suc j = λ a j. omega arith in
    let here : (a : ℕ) → a + 0 ≡ a = λ a. omega arith in
    let e =
      ap (scrollback_line w) (sym (here i)) ∙ h 0 (omega arith) ∙ ap (scrollback_line v) (here k) in
    let ih = lines-same n (i + 1) (k + 1) v w (λ j lt.
      ap (scrollback_line w) (shift i j)
      ∙ h (suc j) (omega (arith, lt))
      ∙ ap (scrollback_line v) (sym (shift k j))) in
    rw ih (ap (λ z. z ∷ lines v (k + 1) n) e)

length-lines : (n i : ℕ) (v : Vga) → length (lines v i n) ≡ n
unfolding lines
length-lines zero i v = refl
length-lines (suc n) i v = ap suc (length-lines n (i + 1) v)

pub length-kept : (v : Vga) → length (kept v) ≡ v.count
unfolding kept
length-kept v = length-lines v.count 0 v

push_old :
    (v : Vga) (line : Line) (i : ℕ)
    → InRange v
    → v.count < 512
    → i < v.count
    → scrollback_line (push_scrollback v line) i ≡ scrollback_line v i
unfolding scrollback_line push_scrollback
push_old v line i r c h =
    let a = r.head in
    let room : ltb v.count 512 ≡ true = ground (arith, c) in
    let e : ((v.head + 1) % 512 + i + 512 - (v.count + 1)) % 512
        ≡ (v.head + i + 512 - v.count) % 512 =
      omega (arith, a, c, h) in
    let n : ((v.head + i + 512 - v.count) % 512 == v.head) ≡ false = ground (arith, a, c, h) in
    rw (room, e, n) refl

push_new :
    (v : Vga) (line : Line)
    → InRange v
    → v.count < 512
    → scrollback_line (push_scrollback v line) v.count ≡ line
unfolding scrollback_line push_scrollback
push_new v line r c =
    let a = r.head in
    let room : ltb v.count 512 ≡ true = ground (arith, c) in
    let e : ((v.head + 1) % 512 + v.count + 512 - (v.count + 1)) % 512 ≡ v.head =
      omega (arith, a, c) in
    rw (room, e, ==_refl v.head) refl

push_full :
    (v : Vga) (line : Line) (i : ℕ)
    → InRange v
    → v.count ≡ 512
    → i < 511
    → scrollback_line (push_scrollback v line) i ≡ scrollback_line v (1 + i)
unfolding scrollback_line push_scrollback
push_full v line i r c h =
    let a = r.head in
    let room : ltb v.count 512 ≡ false = ground (arith, c) in
    let e : ((v.head + 1) % 512 + i + 512 - v.count) % 512
        ≡ (v.head + (1 + i) + 512 - v.count) % 512 =
      omega (arith, a, c, h) in
    let n : ((v.head + (1 + i) + 512 - v.count) % 512 == v.head) ≡ false =
      ground (arith, a, c, h) in
    rw (room, e, n) refl

push_last :
    (v : Vga) (line : Line)
    → InRange v
    → v.count ≡ 512
    → scrollback_line (push_scrollback v line) 511 ≡ line
unfolding scrollback_line push_scrollback
push_last v line r c =
    let a = r.head in
    let room : ltb v.count 512 ≡ false = ground (arith, c) in
    let e : ((v.head + 1) % 512 + 511 + 512 - v.count) % 512 ≡ v.head = omega (arith, a, c) in
    rw (room, e, ==_refl v.head) refl

push_count :
    (v : Vga) (line : Line)
    → (push_scrollback v line).count ≡ (if ltb v.count 512 then v.count + 1 else v.count)
unfolding push_scrollback
push_count v line = refl

drop-append_short :
    (n : ℕ) (xs ys : List Line) → n ≤ length xs → drop n (xs ++ ys) ≡ drop n xs ++ ys
drop-append_short zero xs ys h = refl
drop-append_short (suc n) [] ys h = absurd (omega (arith, h))
drop-append_short (suc n) (x ∷ xs) ys h = drop-append_short n xs ys (omega (arith, h))

-- Lines that go before later ones come make no difference.
pub newest-append : (xs ys : List Line) → newest (newest xs ++ ys) ≡ newest (xs ++ ys)
newest-append xs ys =
    let n = length xs - 512 in
    let e : length (newest xs ++ ys) - 512 + n ≡ length (xs ++ ys) - 512 =
      omega (arith, length-append (newest xs) ys, length-append xs ys, length-drop n xs) in
    ap (drop (length (newest xs ++ ys) - 512)) (sym (drop-append_short n xs ys (omega arith)))
    ∙ drop-drop (length (newest xs ++ ys) - 512) n (xs ++ ys)
    ∙ ap (λ z. drop z (xs ++ ys)) (omega (arith, e))

push_with_room :
    (v : Vga) (line : Line)
    → InRange v
    → v.count < 512
    → kept (push_scrollback v line) ≡ newest (kept v ++ line ∷ [])
unfolding kept
push_with_room v line r c =
    let w = push_scrollback v line in
    let n : w.count ≡ v.count + 1 = ground (arith, push_count v line, c) in
    let old =
      lines-same v.count 0 0 v w (λ j lt. push_old v line (0 + j) r c (omega (arith, lt))) in
    let new : scrollback_line w (0 + v.count) ≡ line =
      ap (scrollback_line w) (omega arith) ∙ push_new v line r c in
    let short : length (kept v ++ line ∷ []) - 512 ≡ 0 =
      omega (arith, length-append (kept v) (line ∷ []), length-kept v, c) in
    ap (lines w 0) n
    ∙ lines-snoc v.count 0 w
    ∙ rw (old, new) refl
    ∙ ap (λ z. drop z (kept v ++ line ∷ [])) (sym short)

full_head :
    (v : Vga) (line : Line)
    → v.count ≡ 512
    → lines v 1 511 ++ line ∷ [] ≡ drop 1 (kept v ++ line ∷ [])
unfolding kept lines
full_head v line c = rw c refl

push_when_full :
    (v : Vga) (line : Line)
    → InRange v
    → v.count ≡ 512
    → kept (push_scrollback v line) ≡ newest (kept v ++ line ∷ [])
unfolding kept
push_when_full v line r c =
    let w = push_scrollback v line in
    let n : w.count ≡ 511 + 1 = ground (arith, push_count v line, c) in
    let old =
      lines-same 511 0 1 v w
        (λ j lt. ap (scrollback_line w) (omega arith) ∙ push_full v line j r c lt) in
    let new : scrollback_line w (0 + 511) ≡ line = push_last v line r c in
    let one : length (kept v ++ line ∷ []) - 512 ≡ 1 =
      omega (arith, length-append (kept v) (line ∷ []), length-kept v, c) in
    ap (lines w 0) n
    ∙ lines-snoc 511 0 w
    ∙ ap (λ z. z ++ scrollback_line w (0 + 511) ∷ []) old
    ∙ ap (λ z. lines v 1 511 ++ z ∷ []) new
    ∙ full_head v line c
    ∙ ap (λ z. drop z (kept v ++ line ∷ [])) (sym one)

-- push_scrollback() puts the line behind the others, and of 513 the oldest goes.
pub kept-push_scrollback :
    (v : Vga) (line : Line)
    → InRange v
    → kept (push_scrollback v line) ≡ newest (kept v ++ line ∷ [])
kept-push_scrollback v line r = elim (Bool-cases (ltb v.count 512)) [
  | inl e ↦ push_with_room v line r (ground (arith, e))
  | inr n ↦ push_when_full v line r (ground (arith, n, r.count))
]

-- What does not touch the ring.
pub kept-same :
    (v w : Vga)
    → w.count ≡ v.count
    → ((i : ℕ) → scrollback_line w i ≡ scrollback_line v i)
    → kept w ≡ kept v
unfolding kept
kept-same v w e h = ap (lines w 0) e ∙ lines-same v.count 0 0 v w (λ j lt. h (0 + j))
