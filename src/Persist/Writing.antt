-- ===== src/Persist/Writing.antt =====
-- What the writer of fs/persist.c adds to the buffer.
use lightning_os.Prelude.{
  zero, suc, length-append, Bool-cases, ==_iff, inl, inr, ℕ, ◌+◌, ◌%◌, ◌^◌, ◌≤◌, ◌<◌, ◌≡◌, refl, ap,
  sym, ◌∙◌, true, false, List, [], ◌∷◌, ◌++◌, arith, ltb, ◌==◌, if◌then◌else◌, if_cases, length,
  take, take-length, append_assoc, suc, ◌/◌,
}
use mathlib.Core.Path.{subst}
use lightning_os.Persist.Writer.{
  Writer, put_bytes, le_bytes, put_u8, put_u16, put_u32, put_string, Account, put_user, Entry,
  write_node, kind_dir, kind_file, max_payload,
}

-- `f` puts the bytes that `F` puts in front of a list, and an overflow is not forgotten.
pub record Adds (f : Writer → Writer) (F : List ℕ → List ℕ) : Type 0 where
  pub law :
      (w : Writer)
      → (f w).overflow ≡ false
      → (w.overflow ≡ false) × ((rest : List ℕ) → (f w).buffer ++ rest ≡ w.buffer ++ F rest)
  pub fits : (w : Writer) → length w.buffer ≤ max_payload → length (f w).buffer ≤ max_payload

pub Adds-then :
    {f g : Writer → Writer} {F G : List ℕ → List ℕ}
    → Adds f F
    → Adds g G
    → Adds (λ w. g (f w)) (λ rest. F (G rest))
Adds-then {f = f} {g = g} {G = G} h k = record {
  law =
      λ w o. let a = k.law (f w) o in let b = h.law w a.0 in (b.0, λ rest. a.1 rest ∙ b.1 (G rest));
  fits = λ w l. k.fits (f w) (h.fits w l);
}

Adds-same :
    {f g : Writer → Writer} {F : List ℕ → List ℕ} → ((w : Writer) → f w ≡ g w) → Adds g F → Adds f F
Adds-same {f = f} {g = g} {F = F} e h = record {
  law = λ w o.
      let a = h.law w (sym (ap (λ v. v.overflow) (e w)) ∙ o) in
      (a.0, λ rest. ap (λ v. v.buffer ++ rest) (e w) ∙ a.1 rest);
  fits = λ w l. subst (λ v. length v.buffer ≤ max_payload) (sym (e w)) (h.fits w l);
}

-- Bytes for which the test of put_bytes() does not wrap.
abbrev pub Small : List ℕ → Type 0
Small bs = length bs + max_payload < 2 ^ 32

pub put_bytes-Adds : (bs : List ℕ) → Small bs → Adds (put_bytes bs) (λ rest. bs ++ rest)
unfolding put_bytes
put_bytes-Adds bs small = record {
  law = λ w.
      if_cases
        (λ v.
          v.overflow ≡ false
          → (w.overflow ≡ false) × ((rest : List ℕ) → v.buffer ++ rest ≡ w.buffer ++ (bs ++ rest)))
        (ltb max_payload ((length w.buffer + length bs) % 2 ^ 32)) (record w { overflow = true })
        (record w { buffer = w.buffer ++ bs }) (λ _ o. absurd (ground (arith, o)))
        (λ _ o. (o, λ rest. append_assoc w.buffer bs rest));
  fits = λ w l.
      let whole : (length w.buffer + length bs) % 2 ^ 32 ≡ length w.buffer + length bs =
        omega (arith, l, small) in
      if_cases (λ v. length v.buffer ≤ max_payload)
        (ltb max_payload ((length w.buffer + length bs) % 2 ^ 32)) (record w { overflow = true })
        (record w { buffer = w.buffer ++ bs }) (λ _. l)
        (λ t. ground (arith, t, whole, length-append w.buffer bs));
}

pub length-le_bytes : (n v : ℕ) → length (le_bytes n v) ≡ n
unfolding le_bytes
length-le_bytes zero v = refl
length-le_bytes (suc n) v = ap suc (length-le_bytes n (v / 256))

put_number-Adds : (n v : ℕ) → n ≤ 4 → Adds (put_bytes (le_bytes n v)) (λ rest. le_bytes n v ++ rest)
put_number-Adds n v h = put_bytes-Adds (le_bytes n v) (omega (arith, length-le_bytes n v, h))

-- A text behind its length.
unfoldable pub string_bytes : List ℕ → List ℕ → List ℕ
string_bytes s rest = le_bytes 1 (length s) ++ (s ++ rest)

pub put_string-Adds : (s : List ℕ) → length s < 256 → Adds (put_string s) (string_bytes s)
unfolding put_string string_bytes put_u8
put_string-Adds s h =
    let e : length s % 256 ≡ length s = omega (arith, h) in
    subst (λ n. Adds (λ w. put_bytes (take n s) (put_bytes (le_bytes 1 n) w)) (string_bytes s))
      (sym e)
      (subst (λ t. Adds (λ w. put_bytes t (put_bytes (le_bytes 1 (length s)) w)) (string_bytes s))
        (sym (take-length s))
        (Adds-then (put_number-Adds 1 (length s) (omega arith))
          (put_bytes-Adds s (omega (arith, h)))))

-- An account that the snapshot holds: texts that fit their fields, and 32-bit numbers.
pub record IsAccount (u : Account) : Type 0 where
  pub name : length u.name < 32
  pub home : length u.home < 64
  pub uid : u.uid < 2 ^ 32
  pub gid : u.gid < 2 ^ 32
  pub pw_hash : u.pw_hash < 2 ^ 32

unfoldable pub user_bytes : Account → List ℕ → List ℕ
user_bytes u rest =
    string_bytes u.name (
      string_bytes u.home
        (le_bytes 4 u.uid ++ (le_bytes 4 u.gid ++ (le_bytes 4 u.pw_hash ++ rest))))

pub put_user-Adds : (u : Account) → IsAccount u → Adds (put_user u) (user_bytes u)
unfolding put_user user_bytes put_u32
put_user-Adds u h = Adds-then (put_string-Adds u.name (omega (arith, h.name))) (
    Adds-then (put_string-Adds u.home (omega (arith, h.home))) (
      Adds-then (put_number-Adds 4 u.uid (omega arith)) (
        Adds-then (put_number-Adds 4 u.gid (omega arith))
          (put_number-Adds 4 u.pw_hash (omega arith)))))

-- A node that the snapshot holds whole.
pub record IsEntry (e : Entry) : Type 0 where
  pub path_some : 1 ≤ length e.path
  pub path_fits : length e.path < 256
  pub content_fits : Small e.content

unfoldable pub kind_of : Entry → ℕ
kind_of e = if e.is_dir then kind_dir else kind_file

unfoldable pub node_bytes : Entry → List ℕ → List ℕ
node_bytes e rest =
    le_bytes 1 (kind_of e)
    ++ (le_bytes 2 (length e.path)
        ++ (le_bytes 4 (length e.content) ++ (e.path ++ (e.content ++ rest))))

-- All but the content.
head_of : Entry → Writer → Writer
head_of e w = put_bytes e.path (
    put_bytes (le_bytes 4 (length e.content))
      (put_bytes (le_bytes 2 (length e.path)) (put_bytes (le_bytes 1 (kind_of e)) w)))

head_of-Adds :
    (e : Entry)
    → length e.path < 256
    → Adds (head_of e) (λ rest.
      le_bytes 1 (kind_of e)
      ++ (le_bytes 2 (length e.path) ++ (le_bytes 4 (length e.content) ++ (e.path ++ rest))))
unfolding head_of
head_of-Adds e h = Adds-then (put_number-Adds 1 (kind_of e) (omega arith)) (
    Adds-then (put_number-Adds 2 (length e.path) (omega arith)) (
      Adds-then (put_number-Adds 4 (length e.content) (omega arith))
        (put_bytes-Adds e.path (omega (arith, h)))))

pub length-zero : (xs : List ℕ) → length xs ≡ 0 → xs ≡ []
length-zero [] h = refl
length-zero (x ∷ xs) h = absurd (omega (arith, h))

content_nil : (e : Entry) → (length e.content == 0) ≡ true → e.content ≡ []
content_nil e b = length-zero e.content ((==_iff (length e.content) 0).0 b)

write_node-head :
    (e : Entry) (w : Writer)
    → IsEntry e
    → (length e.content == 0) ≡ true
    → write_node e w ≡ head_of e w
unfolding write_node head_of put_u8 put_u16 put_u32 kind_of
write_node-head e w h b =
    let p : length e.path % 2 ^ 16 ≡ length e.path = omega (arith, h.path_fits) in
    let c : length e.content % 2 ^ 32 ≡ length e.content = omega (arith, h.content_fits) in
    let z : (length e.path == 0) ≡ false = ground (arith, h.path_some) in rw (p, c, z, b)

write_node-content :
    (e : Entry) (w : Writer)
    → IsEntry e
    → (length e.content == 0) ≡ false
    → write_node e w ≡ put_bytes e.content (head_of e w)
unfolding write_node head_of put_u8 put_u16 put_u32 kind_of
write_node-content e w h b =
    let p : length e.path % 2 ^ 16 ≡ length e.path = omega (arith, h.path_fits) in
    let c : length e.content % 2 ^ 32 ≡ length e.content = omega (arith, h.content_fits) in
    let z : (length e.path == 0) ≡ false = ground (arith, h.path_some) in rw (p, c, z, b)

pub write_node-Adds : (e : Entry) → IsEntry e → Adds (write_node e) (node_bytes e)
unfolding node_bytes
write_node-Adds e h = elim (Bool-cases (length e.content == 0)) [
  | inl b ↦
      Adds-same (λ w. write_node-head e w h b)
        (subst
          (λ c. Adds (head_of e) (λ rest.
            le_bytes 1 (kind_of e)
            ++ (le_bytes 2 (length e.path)
                ++ (le_bytes 4 (length e.content) ++ (e.path ++ (c ++ rest))))))
          (sym (content_nil e b)) (head_of-Adds e h.path_fits))
  | inr b ↦
      Adds-same (λ w. write_node-content e w h b)
        (Adds-then (head_of-Adds e h.path_fits) (put_bytes-Adds e.content h.content_fits))
]

unfoldable pub nodes_bytes : List Entry → List ℕ → List ℕ
nodes_bytes [] rest = rest
nodes_bytes (e ∷ es) rest = node_bytes e (nodes_bytes es rest)

unfoldable pub users_bytes : List Account → List ℕ → List ℕ
users_bytes [] rest = rest
users_bytes (u ∷ us) rest = user_bytes u (users_bytes us rest)

pub put_users-nil : Adds (λ w. w) (λ rest. rest)
put_users-nil = record { law = λ w o. (o, λ rest. refl); fits = λ w l. l }
