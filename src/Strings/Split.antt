-- ===== src/Strings/Split.antt =====
-- is_space() and str_split() of lib/string.c, without the terminators that it writes to the line.
pub mod Words
use lightning_os.Prelude.{
  ℕ, zero, suc, Bool, true, false, ◌||◌, List, [], ◌∷◌, ◌==◌, if◌then◌else◌, is_empty,
}

-- The words that str_split() leaves in argv: at most `room` of them. The space behind
-- a word is zeroed when the next word is looked for, so the last that there is room for goes on to
-- the end of the line.
unfoldable pub is_space : ℕ → Bool
is_space c = c == b' ' || c == 9

unfoldable pub first_word : List ℕ → List ℕ
unfolding is_space
first_word [] = []
first_word (c ∷ s) = if is_space c then [] else c ∷ first_word s

unfoldable pub after_word : List ℕ → List ℕ
unfolding is_space
after_word [] = []
after_word (c ∷ s) = if is_space c then c ∷ s else after_word s

unfoldable pub skip_spaces : List ℕ → List ℕ
unfolding is_space
skip_spaces [] = []
skip_spaces (c ∷ s) = if is_space c then skip_spaces s else c ∷ s

unfoldable pub str_split : ℕ → List ℕ → List (List ℕ)
unfolding first_word after_word skip_spaces
str_split zero line = []
str_split (suc room) line =
    let here = skip_spaces line in
    let rest = str_split room (after_word here) in
    if is_empty here then [] else (if room == 0 then here else first_word here) ∷ rest
