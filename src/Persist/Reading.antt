-- ===== src/Persist/Reading.antt =====
-- What the reader of fs/persist.c takes from the buffer.
use lightning_os.Prelude.{
  ℕ, zero, suc, ◌+◌, ◌*◌, ◌/◌, ◌%◌, ◌^◌, ◌≤◌, ◌<◌, ◌≡◌, refl, ap, sym, ◌∙◌, Bool, false, List, [],
  ◌∷◌, ◌++◌, arith, ltb, leb, ◌==◌, if_cases, length, take, drop, take-append, drop-append,
  drop-drop, length-drop, length-append, Option, some, ==_iff,
}
use mathlib.Core.Path.{subst}
use lightning_os.Persist.Writer.{le_bytes, Account, Entry, kind_dir, fs_path_max}
use lightning_os.Persist.Reader.{
  Reader, take_bytes, from_le, take_number, take_string, take_ids, take_user, take_users,
  take_content, take_node, take_nodes,
}
use lightning_os.Persist.Writing.{
  length-le_bytes, string_bytes, IsAccount, user_bytes, users_bytes, IsEntry, node_bytes,
  nodes_bytes, kind_of, length-zero,
}

-- The reader stands before these bytes.
pub record At (r : Reader) (rest : List ℕ) : Type 0 where
  pub good : r.bad ≡ false
  pub ahead : drop r.at r.buffer ≡ rest
  pub inside : r.at ≤ length r.buffer
  pub small : length r.buffer < 2 ^ 32

-- `f` takes the bytes that `F` puts in front of a list, and returns `v`.
pub record Reads {A : Type 0} (f : Reader → A × Reader) (v : A) (F : List ℕ → List ℕ) : Type 0 where
  pub law : (r : Reader) (rest : List ℕ) → At r (F rest) → ((f r).0 ≡ v) × At (f r).1 rest

-- Past the next `n` bytes.
At-skip :
    (r : Reader) (n : ℕ) (bs rest : List ℕ)
    → length bs ≡ n
    → At r (bs ++ rest)
    → (ltb (length r.buffer) ((r.at + n) % 2 ^ 32) ≡ false)
      × (take n (drop r.at r.buffer) ≡ bs)
      × At (record r { at = (r.at + n) % 2 ^ 32 }) rest
At-skip r n bs rest h k =
    let room : r.at + n ≤ length r.buffer =
      omega
        (arith, h, k.inside, ap length k.ahead, length-drop r.at r.buffer, length-append bs rest) in
    let same : (r.at + n) % 2 ^ 32 ≡ r.at + n = omega (arith, room, k.small) in
    let cut : take n (drop r.at r.buffer) ≡ bs =
      ap (take n) k.ahead ∙ ap (λ m. take m (bs ++ rest)) (sym h) ∙ take-append bs rest in
    let left : drop ((r.at + n) % 2 ^ 32) r.buffer ≡ rest =
      ap (λ m. drop m r.buffer) same
      ∙ sym (drop-drop n r.at r.buffer)
      ∙ ap (drop n) k.ahead
      ∙ ap (λ m. drop m (bs ++ rest)) (sym h)
      ∙ drop-append bs rest in
    (
      ground (arith, same, room),
      cut,
      record { good = k.good; ahead = left; inside = omega (arith, same, room); small = k.small },
    )

pub take_bytes-Reads :
    (n : ℕ) (bs : List ℕ)
    → length bs ≡ n
    → Reads (λ r. take_bytes r n) (some bs) (λ rest. bs ++ rest)
unfolding take_bytes
take_bytes-Reads n bs h = record {
  law = λ r rest k.
      let (fits, cut, next) = At-skip r n bs rest h k in
      if_cases (λ (x : Option (List ℕ) × Reader). (x.0 ≡ some bs) × At x.1 rest)
        (ltb (length r.buffer) ((r.at + n) % 2 ^ 32)) _ _ (λ b. absurd (ground (arith, b, fits)))
        (λ _. (ap some cut, next));
}

-- What fits into `n` bytes.
pub numbers : ℕ → ℕ
numbers zero = 1
numbers (suc n) = 256 * numbers n

from_le-le_bytes : (n v : ℕ) → v < numbers n → from_le (le_bytes n v) ≡ v
unfolding from_le le_bytes numbers
from_le-le_bytes zero v h = omega (arith, h)
from_le-le_bytes (suc n) v h = omega (arith, h, from_le-le_bytes n (v / 256) (omega (arith, h)))

pub take_number-Reads :
    (n v : ℕ) → v < numbers n → Reads (take_number n) v (λ rest. le_bytes n v ++ rest)
unfolding take_number
take_number-Reads n v h = record {
  law = λ r rest k.
      let t = (take_bytes-Reads n (le_bytes n v) (length-le_bytes n v)).law r rest k in
      (rw (take_number, t.0) (from_le-le_bytes n v h), rw (take_number, t.0) t.1);
}

pub take_string-Reads :
    (size : ℕ) (s : List ℕ)
    → length s < size
    → size ≤ 256
    → Reads (λ r. take_string r size) (some s) (string_bytes s)
unfolding take_string string_bytes numbers
take_string-Reads size s h l = record {
  law = λ r rest k.
      let t = (take_number-Reads 1 (length s) (omega (arith, h, l))).law r (s ++ rest) k in
      let u = (take_bytes-Reads (length s) s refl).law (take_number 1 r).1 rest t.1 in
      let fits : leb size (length s) ≡ false = ground (arith, h) in
      (rw (take_string, t.0, t.1.good, fits) u.0, rw (take_string, t.0, t.1.good, fits) u.1);
}

take_ids-Reads :
    (u : Account)
    → IsAccount u
    → Reads
        (take_ids u.name u.home)
        (some u)
        (λ rest. le_bytes 4 u.uid ++ (le_bytes 4 u.gid ++ (le_bytes 4 u.pw_hash ++ rest)))
unfolding take_ids numbers
take_ids-Reads u h = record {
  law = λ r rest k.
      let a = (take_number-Reads 4 u.uid h.uid).law r _ k in
      let b = (take_number-Reads 4 u.gid h.gid).law (take_number 4 r).1 _ a.1 in
      let c =
        (take_number-Reads 4 u.pw_hash h.pw_hash).law (take_number 4 (take_number 4 r).1).1 rest
          b.1 in
      (rw (take_ids, a.0, b.0, c.0, c.1.good), rw (take_ids, c.1.good) c.1);
}

pub take_user-Reads : (u : Account) → IsAccount u → Reads take_user (some u) (user_bytes u)
unfolding take_user user_bytes
take_user-Reads u h = record {
  law = λ r rest k.
      let a = (take_string-Reads 32 u.name h.name (omega arith)).law r _ k in
      let b = (take_string-Reads 64 u.home h.home (omega arith)).law (take_string r 32).1 _ a.1 in
      let c = (take_ids-Reads u h).law (take_string (take_string r 32).1 64).1 rest b.1 in
      (rw (take_user, a.0, b.0) c.0, rw (take_user, a.0, b.0) c.1);
}

take_content-Reads :
    (is_dir : Bool) (path content : List ℕ)
    → Reads
        (take_content is_dir path (length content))
        (record { is_dir = is_dir; path = path; content = content } ∷ [])
        (λ rest. content ++ rest)
unfolding take_content
take_content-Reads is_dir path content = record {
  law = λ r rest k.
      let (fits, cut, next) = At-skip r (length content) content rest refl k in
      let P = λ (x : List Entry × Reader).
        (x.0 ≡ record { is_dir = is_dir; path = path; content = content } ∷ []) × At x.1 rest in
      if_cases P (length content == 0) _ _
        (λ b.
          let e = length-zero content ((==_iff (length content) 0).0 b) in
          (
            ap (λ c. record { is_dir = is_dir; path = path; content = c } ∷ []) (sym e),
            subst (λ c. At r (c ++ rest)) e k,
          ))
        (λ _.
          if_cases P (ltb (length r.buffer) ((r.at + length content) % 2 ^ 32)) _ _
            (λ b. absurd (ground (arith, b, fits)))
            (λ _. (ap (λ c. record { is_dir = is_dir; path = path; content = c } ∷ []) cut, next)));
}

kind_of-dir : (e : Entry) → (kind_of e == kind_dir) ≡ e.is_dir
unfolding kind_of
kind_of-dir e = ground arith

kind_of_small : (e : Entry) → kind_of e < 256
unfolding kind_of
kind_of_small e = ground arith

pub take_node-Reads : (e : Entry) → IsEntry e → Reads take_node (e ∷ []) (node_bytes e)
unfolding take_node node_bytes numbers
take_node-Reads e h = record {
  law = λ r rest k.
      let a = (take_number-Reads 1 (kind_of e) (kind_of_small e)).law r _ k in
      let b =
        (take_number-Reads 2 (length e.path) (omega (arith, h.path_fits))).law (take_number 1 r).1 _
          a.1 in
      let c =
        (take_number-Reads 4 (length e.content) (omega (arith, h.content_fits))).law
          (take_number 2 (take_number 1 r).1).1 _ b.1 in
      let d =
        (take_bytes-Reads (length e.path) e.path refl).law
          (take_number 4 (take_number 2 (take_number 1 r).1).1).1 _ c.1 in
      let f =
        (take_content-Reads e.is_dir e.path e.content).law
          (take_bytes (take_number 4 (take_number 2 (take_number 1 r).1).1).1 (length e.path)).1
          rest d.1 in
      let some_path : (length e.path == 0) ≡ false = ground (arith, h.path_some) in
      let fits : leb fs_path_max (length e.path) ≡ false = ground (arith, h.path_fits) in
      (
        rw (take_node, b.0, c.1.good, some_path, fits, d.0, a.0, c.0, kind_of-dir e, b.0) f.0,
        rw (take_node, b.0, c.1.good, some_path, fits, d.0, a.0, c.0, kind_of-dir e, b.0) f.1,
      );
}

-- All the accounts.
unfoldable pub EveryAccount : List Account → Type 0
EveryAccount [] = Unit {0}
EveryAccount (u ∷ us) = IsAccount u × EveryAccount us

unfoldable pub EveryEntry : List Entry → Type 0
EveryEntry [] = Unit {0}
EveryEntry (e ∷ es) = IsEntry e × EveryEntry es

pub take_users-Reads :
    (us : List Account) → EveryAccount us → Reads (take_users (length us)) us (users_bytes us)
unfolding take_users users_bytes EveryAccount
take_users-Reads [] h = record { law = λ r rest k. (refl, k) }
take_users-Reads (u ∷ us) (h, hs) = record {
  law = λ r rest k.
      let a = (take_user-Reads u h).law r _ k in
      let b = (take_users-Reads us hs).law (take_user r).1 rest a.1 in
      if_cases (λ (x : List Account × Reader). (x.0 ≡ u ∷ us) × At x.1 rest) r.bad _ _
        (λ f. absurd (ground (arith, f, k.good))) (λ _. (rw (a.0, b.0) refl, rw a.0 b.1));
}

pub take_nodes-Reads :
    (es : List Entry) → EveryEntry es → Reads (take_nodes (length es)) es (nodes_bytes es)
unfolding take_nodes nodes_bytes EveryEntry
take_nodes-Reads [] h = record { law = λ r rest k. (refl, k) }
take_nodes-Reads (e ∷ es) (h, hs) = record {
  law = λ r rest k.
      let a = (take_node-Reads e h).law r _ k in
      let b = (take_nodes-Reads es hs).law (take_node r).1 rest a.1 in
      if_cases (λ (x : List Entry × Reader). (x.0 ≡ e ∷ es) × At x.1 rest) r.bad _ _
        (λ f. absurd (ground (arith, f, k.good))) (λ _. (rw (a.0, b.0) refl, b.1));
}
