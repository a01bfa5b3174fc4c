-- ===== src/Console/Kept.antt =====
-- The history of kernel/console.c against the list of all lines that were ever kept.
use lightning_os.Prelude.{
  ℕ, zero, suc, ◌+◌, ◌-◌, ◌%◌, ◌≡◌, ◌<◌, ◌≤◌, refl, sym, ap, ◌∙◌, Bool, false, ◌&&◌, Option, some,
  none, List, [], ◌∷◌, ◌++◌, ltb, ◌==◌, if◌then◌else◌, take, length, arith, get_elem?, Bool-cases,
  inl, inr, length-append, ==_refl,
}
use lightning_os.Strings.Compare.{text_eq}
use lightning_os.Console.{History, console_history_push, console_history_at}

-- The history after the lines: they are counted, and the last 16 stand in the slots.
pub record Keeps (h : History) (entries : List (List ℕ)) : Type 0 where
  pub counted : h.total ≡ length entries
  pub kept : (i : ℕ) → i < h.total → h.total ≤ i + 16 → get_elem? entries i ≡ some (h.slot (i % 16))

-- The line entered last.
pub last_line : List (List ℕ) → Option (List ℕ)
last_line [] = none
last_line (x ∷ []) = some x
last_line (x ∷ y ∷ ys) = last_line (y ∷ ys)

pub is_last : List (List ℕ) → List ℕ → Bool
unfolding last_line
is_last entries line = elim (last_line entries) [ none ↦ false | some l ↦ text_eq l line ]

-- The lines after one more: it is not kept where it is empty, or the same as the line kept last. That
-- one was cut to 255 bytes, so that a longer line is kept however often it comes.
pub pushed : Option (List ℕ) → List (List ℕ) → List (List ℕ)
unfolding is_last
pushed none entries = entries
pushed (some []) entries = entries
pushed (some (c ∷ s)) entries =
    if is_last entries (c ∷ s) then entries else entries ++ take 255 (c ∷ s) ∷ []

last_line-get :
    (x : List ℕ) (xs : List (List ℕ)) → last_line (x ∷ xs) ≡ get_elem? (x ∷ xs) (length xs)
unfolding last_line
last_line-get x [] = refl
last_line-get x (y ∷ ys) = last_line-get y ys

get_elem?-front :
    (xs ys : List (List ℕ)) (i : ℕ) → i < length xs → get_elem? (xs ++ ys) i ≡ get_elem? xs i
get_elem?-front [] ys i h = absurd (omega (arith, h))
get_elem?-front (x ∷ xs) ys zero h = refl
get_elem?-front (x ∷ xs) ys (suc i) h = get_elem?-front xs ys i (omega (arith, h))

get_elem?-last : (xs : List (List ℕ)) (y : List ℕ) → get_elem? (xs ++ y ∷ []) (length xs) ≡ some y
get_elem?-last [] y = refl
get_elem?-last (x ∷ xs) y = get_elem?-last xs y

-- The test of console_history_push() looks at the last line.
repeats :
    (h : History) (entries : List (List ℕ)) (line : List ℕ)
    → Keeps h entries
    → (ltb 0 h.total && text_eq (h.slot ((h.total - 1) % 16)) line) ≡ is_last entries line
unfolding is_last
repeats h [] line k = let e = k.counted in ground (arith, e)
repeats h (x ∷ xs) line k =
    let e = k.counted in
    let n : h.total - 1 ≡ length xs = omega (arith, e) in
    let s = k.kept (h.total - 1) (omega (arith, e)) (omega arith) in
    let l = last_line-get x xs in
    let t : last_line (x ∷ xs) ≡ some (h.slot ((h.total - 1) % 16)) =
      l ∙ ap (get_elem? (x ∷ xs)) (sym n) ∙ s in
    ground (arith, t, e)

-- console_history_push() keeps the lines that it should.
pub console_history_push-Keeps :
    (line : Option (List ℕ)) (h : History) (entries : List (List ℕ))
    → Keeps h entries
    → Keeps (console_history_push line h) (pushed line entries)
unfolding console_history_push pushed
console_history_push-Keeps none h entries k = k
console_history_push-Keeps (some []) h entries k = k
console_history_push-Keeps (some (c ∷ s)) h entries k =
    let line = c ∷ s in
    let same = repeats h entries line k in
    let e = k.counted in
    elim (Bool-cases (is_last entries line)) [
      | inl y ↦ rw (same, y) k
      | inr n ↦
          rw (same, n)
            (record {
              counted = omega (arith, e, length-append entries (take 255 line ∷ []));
              kept = λ i lt near. elim (Bool-cases (ltb i h.total)) [
                | inl old ↦
                    let front =
                      get_elem?-front entries (take 255 line ∷ []) i (ground (arith, old, e)) in
                    let was = k.kept i (ground (arith, old)) (omega (arith, near)) in
                    let off : (i % 16 == h.total % 16) ≡ false = ground (arith, old, near) in
                    rw off (front ∙ was)
                | inr new ↦
                    let at : i ≡ h.total = ground (arith, lt, new) in
                    rw (at, ==_refl (h.total % 16))
                      (ap (get_elem? (entries ++ take 255 line ∷ [])) e
                        ∙ get_elem?-last entries (take 255 line))
              ];
            })
    ]

-- The line that console_history_at() should give.
pub entry_at : ℕ → List (List ℕ) → Option (List ℕ)
entry_at i entries = if ltb i (length entries - 16) then none else get_elem? entries i

get_elem?-past : (xs : List (List ℕ)) (i : ℕ) → length xs ≤ i → get_elem? xs i ≡ none
get_elem?-past [] i h = refl
get_elem?-past (x ∷ xs) zero h = absurd (omega (arith, h))
get_elem?-past (x ∷ xs) (suc i) h = get_elem?-past xs i (omega (arith, h))

pub console_history_at-Keeps :
    (i : ℕ) (h : History) (entries : List (List ℕ))
    → Keeps h entries
    → console_history_at i h ≡ entry_at i entries
unfolding console_history_at entry_at
console_history_at-Keeps i h entries k =
    let e = k.counted in
    elim (Bool-cases (ltb i h.total)) [
      | inr n ↦ ground (arith, n, e, get_elem?-past entries i (ground (arith, n, e)))
      | inl y ↦ elim (Bool-cases (ltb i (h.total - 16))) [
        | inl old ↦ ground (arith, y, old, e)
        | inr near ↦ ground (arith, y, near, e, k.kept i (ground (arith, y)) (ground (arith, near)))
      ]
    ]

-- The history after any lines.
unfoldable pub push_all : List (Option (List ℕ)) → History → History
unfolding console_history_push
push_all [] h = h
push_all (l ∷ ls) h = push_all ls (console_history_push l h)

pub pushed_all : List (Option (List ℕ)) → List (List ℕ) → List (List ℕ)
unfolding pushed
pushed_all [] entries = entries
pushed_all (l ∷ ls) entries = pushed_all ls (pushed l entries)

push_all-Keeps :
    (ls : List (Option (List ℕ))) (h : History) (entries : List (List ℕ))
    → Keeps h entries
    → Keeps (push_all ls h) (pushed_all ls entries)
unfolding push_all pushed_all
push_all-Keeps [] h entries k = k
push_all-Keeps (l ∷ ls) h entries k =
    push_all-Keeps ls (console_history_push l h) (pushed l entries)
      (console_history_push-Keeps l h entries k)

unfoldable pub no_history : History
no_history = record { slot = λ i. []; total = 0 }

-- Any lines are pushed on an empty history. A line is kept, cut to 255 bytes, where it is not empty and
-- differs, uncut, from the line that was kept last, as it was cut. Of the lines kept,
-- console_history_at() gives the one with the given number if it is among the last 16, and nothing
-- for every other number.
pub history_lem :
    (ls : List (Option (List ℕ))) (i : ℕ)
    → console_history_at i (push_all ls no_history) ≡ entry_at i (pushed_all ls [])
unfolding no_history
history_lem ls i = console_history_at-Keeps i (push_all ls no_history) (pushed_all ls []) (
    push_all-Keeps ls no_history []
      (record { counted = refl; kept = λ i lt near. absurd (omega (arith, lt)) }))
