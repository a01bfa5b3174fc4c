-- ===== src/Strings/Split/Words.antt =====
-- str_split() of lib/string.c on a line of words.
use lightning_os.Prelude.{
  ℕ, zero, suc, ◌≡◌, ◌≤◌, ◌==◌, length, refl, ap, ◌∙◌, Bool, true, false, not, ◌&&◌, List, [], ◌∷◌,
  ◌++◌, arith, if◌then◌else◌, append-nil, is_empty,
}
use lightning_os.Strings.Split.{str_split, first_word, after_word, skip_spaces, is_space}

-- A word has a byte, and none that str_split() takes for a space.
unfoldable pub no_space : List ℕ → Bool
no_space [] = true
no_space (c ∷ s) = not (is_space c) && no_space s

unfoldable pub is_word : List ℕ → Bool
unfolding no_space
is_word w = not (is_empty w) && no_space w

unfoldable pub all_words : List (List ℕ) → Bool
all_words [] = true
all_words (w ∷ ws) = is_word w && all_words ws

-- The words of a line, each behind a blank.
pub blank_joined : List (List ℕ) → List ℕ
blank_joined [] = []
blank_joined (w ∷ ws) = b' ' ∷ w ++ blank_joined ws

first_word-append :
    (w : List ℕ) (ws : List (List ℕ)) → no_space w ≡ true → first_word (w ++ blank_joined ws) ≡ w
unfolding first_word blank_joined no_space is_space
first_word-append [] [] h = refl
first_word-append [] (x ∷ ws) h = refl
first_word-append (c ∷ w) ws h = ground (arith, h, first_word-append w ws)

after_word-append :
    (w : List ℕ) (ws : List (List ℕ))
    → no_space w ≡ true
    → after_word (w ++ blank_joined ws) ≡ blank_joined ws
unfolding after_word blank_joined no_space is_space
after_word-append [] [] h = refl
after_word-append [] (x ∷ ws) h = refl
after_word-append (c ∷ w) ws h = ground (arith, h, after_word-append w ws)

no_words : (room : ℕ) → str_split (suc room) (blank_joined []) ≡ []
unfolding str_split blank_joined skip_spaces
no_words room = refl

skip_spaces-joined :
    (w : List ℕ) (ws : List (List ℕ))
    → is_word w ≡ true
    → skip_spaces (blank_joined (w ∷ ws)) ≡ w ++ blank_joined ws
unfolding blank_joined skip_spaces is_word no_space is_space
skip_spaces-joined [] ws h = absurd (ground (arith, h))
skip_spaces-joined (c ∷ w) ws h = ground (arith, h)

word_not_empty : (w rest : List ℕ) → is_word w ≡ true → is_empty (w ++ rest) ≡ false
unfolding is_word
word_not_empty [] rest h = absurd (ground (arith, h))
word_not_empty (c ∷ w) rest h = ground arith

-- The words that there is room for, the last one with all that stands behind it.
pub kept_words : ℕ → List (List ℕ) → List (List ℕ)
kept_words zero words = []
kept_words (suc room) [] = []
kept_words (suc room) (w ∷ ws) =
    (if room == 0 then w ++ blank_joined ws else w) ∷ kept_words room ws

str_split-kept_words :
    (room : ℕ) (words : List (List ℕ))
    → all_words words ≡ true
    → str_split room (blank_joined words) ≡ kept_words room words
unfolding str_split all_words is_word kept_words
str_split-kept_words zero words h = refl
str_split-kept_words (suc room) [] h = no_words room
str_split-kept_words (suc room) (w ∷ ws) h =
    let hw : is_word w ≡ true = ground (arith, h) in
    let skip = skip_spaces-joined w ws hw in
    let first = first_word-append w ws (ground (arith, h)) in
    let after = after_word-append w ws (ground (arith, h)) in
    let ne = word_not_empty w (blank_joined ws) hw in
    let ih = str_split-kept_words room ws (ground (arith, h)) in
    ground (arith, skip, first, after, ne, ih)

append_none : (w : List ℕ) → w ++ blank_joined [] ≡ w
unfolding blank_joined
append_none w = append-nil w

kept_words_lem :
    (room : ℕ) (words : List (List ℕ)) → length words ≤ room → kept_words room words ≡ words
unfolding kept_words
kept_words_lem zero [] h = refl
kept_words_lem zero (w ∷ ws) h = absurd (omega (arith, h))
kept_words_lem (suc room) [] h = refl
kept_words_lem (suc zero) (w ∷ []) h = ap (λ z. z ∷ []) (append_none w)
kept_words_lem (suc zero) (w ∷ (x ∷ ws)) h = absurd (omega (arith, h))
kept_words_lem (suc (suc room)) (w ∷ ws) h =
    let ih = kept_words_lem (suc room) ws (omega (arith, h)) in ground (arith, ih)

-- A line of words, a blank before each, is split into these words, where there is room for them all.
pub str_split-blank_joined :
    (room : ℕ) (words : List (List ℕ))
    → all_words words ≡ true
    → length words ≤ room
    → str_split room (blank_joined words) ≡ words
str_split-blank_joined room words h enough =
    str_split-kept_words room words h ∙ kept_words_lem room words enough
