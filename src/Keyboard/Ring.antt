-- ===== src/Keyboard/Ring.antt =====
-- The ring of drivers/keyboard.c as a bounded queue: push() and keyboard_poll() lose, reorder and
-- make up nothing.
use lightning_os.Prelude.{
  ℕ, zero, suc, ◌+◌, ◌-◌, ◌%◌, ◌<◌, ◌≡◌, refl, ap, ◌≢◌, List, [], ◌∷◌, ◌++◌, arith, ltb,
  if◌then◌else◌, get_or, set, length, length-set, ◌∙◌,
}
use lightning_os.Keyboard.{Keyboard, buffer_len, push, keyboard_poll}

pub record IsValid (k : Keyboard) : Type 0 where
  pub storage : length k.buffer ≡ buffer_len
  pub head_in : k.head < buffer_len
  pub tail_in : k.tail < buffer_len

get_or-set_self : (xs : List ℕ) (i v : ℕ) → i < length xs → get_or (set xs i v) i 0 ≡ v
get_or-set_self [] i v h = absurd (omega arith)
get_or-set_self (x ∷ xs) zero v h = refl
get_or-set_self (x ∷ xs) (suc i) v h = get_or-set_self xs i v (omega arith)

get_or-set_ne : (xs : List ℕ) (i j v : ℕ) → i ≢ j → get_or (set xs i v) j 0 ≡ get_or xs j 0
get_or-set_ne [] i j v h = refl
get_or-set_ne (x ∷ xs) zero zero v h = absurd (h refl)
get_or-set_ne (x ∷ xs) zero (suc j) v h = refl
get_or-set_ne (x ∷ xs) (suc i) zero v h = refl
get_or-set_ne (x ∷ xs) (suc i) (suc j) v h = get_or-set_ne xs i j v (λ e. h (ap suc e))

-- The `n` keys from index `t` on, going round at the end of the array.
abbrev pub queued_from : List ℕ → ℕ → ℕ → List ℕ
queued_from buf t zero = []
queued_from buf t (suc n) = get_or buf t 0 ∷ queued_from buf ((t + 1) % buffer_len) n

-- How many keys wait between the two indices.
unfoldable pub waiting : Keyboard → ℕ
waiting k = (k.head + buffer_len - k.tail) % buffer_len

-- The keys that wait, oldest first.
unfoldable pub queued : Keyboard → List ℕ
unfolding waiting
queued k = queued_from k.buffer k.tail (waiting k)

queued_from-set :
    (buf : List ℕ) (key n t i : ℕ)
    → length buf ≡ buffer_len
    → t < buffer_len
    → n < 127
    → i ≡ (t + n) % buffer_len
    → queued_from (set buf i key) t (suc n) ≡ queued_from buf t n ++ key ∷ []
queued_from-set buf key zero t i hl ht hn e =
    let here : i ≡ t = omega arith in
    rw here (ap (λ x. x ∷ []) (get_or-set_self buf t key (omega arith)))
queued_from-set buf key (suc n) t i hl ht hn e = rw (get_or-set_ne buf i t key (omega arith)) (
    ap (λ l. get_or buf t 0 ∷ l)
      (queued_from-set buf key n ((t + 1) % buffer_len) i hl (omega arith) (omega arith)
        (omega arith)))

queued_from_pos :
    (buf : List ℕ) (t n : ℕ)
    → n ≢ 0
    → queued_from buf t n ≡ get_or buf t 0 ∷ queued_from buf ((t + 1) % buffer_len) (n - 1)
queued_from_pos buf t zero h = absurd (h refl)
queued_from_pos buf t (suc n) h =
    ap (λ m. get_or buf t 0 ∷ queued_from buf ((t + 1) % buffer_len) m) (omega arith)

pub push-IsValid : (k : Keyboard) (key : ℕ) → IsValid k → IsValid (push k key)
unfolding push
push-IsValid k key v = ground (arith, length-set k.buffer k.head key)

pub poll-IsValid : (k : Keyboard) → IsValid k → IsValid (keyboard_poll k).1
unfolding keyboard_poll
poll-IsValid k v = ground arith

-- The queue that the ring stands for.
abbrev pub enqueue : List ℕ → ℕ → List ℕ
enqueue q key = if ltb (length q) 127 then q ++ key ∷ [] else q

abbrev pub dequeue : List ℕ → ℕ × List ℕ
dequeue [] = (0, [])
dequeue (key ∷ q) = (key, q)

length-queued_from : (buf : List ℕ) (t n : ℕ) → length (queued_from buf t n) ≡ n
length-queued_from buf t zero = refl
length-queued_from buf t (suc n) = ap suc (length-queued_from buf ((t + 1) % buffer_len) n)

-- On a valid ring push() appends the key if fewer than 127 keys wait, and otherwise drops it.
pub push_refines :
    (k : Keyboard) (key : ℕ) → IsValid k → queued (push k key) ≡ enqueue (queued k) key
unfolding push queued
push_refines k key v = ground (
  arith,
  length-queued_from k.buffer k.tail (waiting k),
  queued_from-set k.buffer key (waiting k) k.tail k.head,
)

-- On a valid ring keyboard_poll() returns and removes the oldest key, or returns 0 if none waits.
pub poll_refines :
    (k : Keyboard)
    → IsValid k
    → let (key, k') = keyboard_poll k in (key, queued k') ≡ dequeue (queued k)
unfolding keyboard_poll queued
poll_refines k v = ground (arith, queued_from_pos k.buffer k.tail (waiting k))

pub data Use : Type 0 where
  arrive : (key : ℕ) → Use
  collect : Use

-- The keys that the polls give, and the ring afterwards.
pub ring_run : List Use → Keyboard → List ℕ × Keyboard
ring_run [] k = ([], k)
ring_run (arrive key ∷ uses) k = ring_run uses (push k key)
ring_run (poll ∷ uses) k =
    let (key, k') = keyboard_poll k in let (keys, k'') = ring_run uses k' in (key ∷ keys, k'')

pub queue_run : List Use → List ℕ → List ℕ × List ℕ
queue_run [] q = ([], q)
queue_run (arrive key ∷ uses) q = queue_run uses (enqueue q key)
queue_run (poll ∷ uses) q =
    let (key, q') = dequeue q in let (keys, q'') = queue_run uses q' in (key ∷ keys, q'')

-- On a ring whose indices are in range, push() and keyboard_poll() in any order are a queue of at
-- most 127 keys: a key that finds no room is dropped, and a poll gives the oldest key, or 0 if none
-- waits.
pub ring_refines :
    (uses : List Use) (k : Keyboard)
    → IsValid k
    → let (keys, k') = ring_run uses k in (keys, queued k') ≡ queue_run uses (queued k)
unfolding ring_run queue_run
ring_refines [] k v = refl
ring_refines (arrive key ∷ uses) k v =
    ring_refines uses (push k key) (push-IsValid k key v)
    ∙ ap (queue_run uses) (push_refines k key v)
ring_refines (poll ∷ uses) k v =
    let one = poll_refines k v in
    let k' = (keyboard_poll k).1 in
    let ih = ring_refines uses k' (poll-IsValid k v) in
    ap (λ (r : List ℕ × List ℕ). ((keyboard_poll k).0 ∷ r.0, r.1)) ih
    ∙ ap (λ (r : ℕ × List ℕ). let q = queue_run uses r.1 in (r.0 ∷ q.0, q.1)) one
