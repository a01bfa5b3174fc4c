-- ===== src/Fs/Write.antt =====
-- fs_write_n() of fs/ramfs.c: the buffer of a file against the text that it holds.
use lightning_os.Prelude.{
  ℕ, zero, suc, ◌+◌, ◌-◌, ◌%◌, ◌^◌, ◌<◌, ◌≤◌, ◌≡◌, ◌≢◌, refl, sym, ap, Bool, true, false, not, ◌&&◌,
  ◌||◌, List, [], ◌∷◌, ◌++◌, ◌⊎◌, inl, inr, arith, ◌==◌, ltb, if◌then◌else◌, length, Bool-cases,
  some, none, ◌∙◌, Option-cases, ℤ, pos, neg, get_or,
}
use lightning_os.Fs.{FsNode, Fs, is_directory, store_node}
use lightning_os.Fs.Change.{grow, write_bytes, fs_write_n}

-- `count` bytes from offset `i` on.
abbrev pub read : (ℕ → ℕ) → ℕ → ℕ → List ℕ
read m i zero = []
read m i (suc count) = m i ∷ read m (i + 1) count

-- The text that a file holds.
pub contents : FsNode → List ℕ
contents f = read f.bytes 0 f.size

-- A file has no buffer yet, or one with room for its text and a terminator.
pub record IsBuffer (f : FsNode) : Type 0 where
  pub empty : f.block ≡ 0 → (f.size ≡ 0) × (f.capacity ≡ 0)
  pub room : f.block ≢ 0 → f.size < f.capacity

read-same :
    (n : ℕ) (m k : ℕ → ℕ) (i : ℕ) → ((j : ℕ) → j < i + n → m j ≡ k j) → read m i n ≡ read k i n
read-same zero m k i h = refl
read-same (suc n) m k i h =
    let e = h i (omega arith) in
    let ih = read-same n m k (i + 1) (λ j lt. h j (omega (arith, lt))) in rw (e, ih) refl

read-append : (n p : ℕ) (m : ℕ → ℕ) (i : ℕ) → read m i (n + p) ≡ read m i n ++ read m (i + n) p
read-append zero p m i =
    let e : i + 0 ≡ i = omega arith in let z : 0 + p ≡ p = omega arith in rw (e, z) refl
read-append (suc n) p m i =
    let ih = read-append n p m (i + 1) in
    let e : i + 1 + n ≡ i + suc n = omega arith in
    let z : suc n + p ≡ suc (n + p) = omega arith in rw (z, ih, e) refl

-- Bytes that stand at an offset are read back.
read-bytes :
    (bytes : List ℕ) (m : ℕ → ℕ) (i : ℕ)
    → ((j : ℕ) → j < length bytes → m (i + j) ≡ get_or bytes j 0)
    → read m i (length bytes) ≡ bytes
read-bytes [] m i h = refl
read-bytes (c ∷ s) m i h =
    let e : m i ≡ c = ap m (omega arith) ∙ h 0 (omega arith) in
    let ih = read-bytes s m (i + 1) (λ j lt. ap m (omega arith) ∙ h (suc j) (omega (arith, lt))) in
    rw (e, ih) refl

-- What stays of a text that is written over.
abbrev pub kept_text : Bool → FsNode → List ℕ
kept_text append f = if append then contents f else []

-- A file after a write that did not fail.
pub record Written (f : FsNode) (bytes : List ℕ) (append : Bool) (g : FsNode) : Type 0 where
  pub text : contents g ≡ kept_text append f ++ bytes
  pub terminated : g.bytes g.size ≡ 0
  pub buffer : IsBuffer g
  pub in_use : g.block ≢ 0
  pub same :
      (g.name ≡ f.name)
      × (g.kind ≡ f.kind)
      × (g.parent ≡ f.parent)
      × (g.children ≡ f.children)
      × (g.next ≡ f.next)

module _ (bytes : List ℕ) (base : ℕ) (f g : FsNode) where
  -- The old bytes are those below `base`, wherever the buffer is now.
  write_bytes-read :
      ((j : ℕ) → j < base → g.bytes j ≡ f.bytes j)
      → contents (write_bytes base bytes g) ≡ read f.bytes 0 base ++ bytes
  unfolding contents write_bytes
  write_bytes-read old =
      let m : ℕ → ℕ = (write_bytes base bytes g).bytes in
      let low = read-same base m f.bytes 0 (λ j lt. ground (arith, old j, lt)) in
      let high =
        read-bytes bytes m base
          λ j lt. let e : base + j - base ≡ j = omega arith in ground (arith, lt, e) in
      let z : 0 + base ≡ base = omega arith in
      read-append base (length bytes) m 0 ∙ rw (z, low, high) refl

-- What a write asks of the file and of the size_t arithmetic.
abbrev pub Fits : Fs → ℕ → List ℕ → Type 0
Fits s file bytes = (s.node file).size + length bytes + 65 < 2 ^ 32

-- The result of a call of fs_write_n() on a file of the tree.
pub WriteOutcome : Fs → ℕ → ℕ → List ℕ → Bool → ℤ × List ℕ × Fs → Type 0
WriteOutcome s answer file bytes append r =
    ((r ≡ (neg 1, [], s)) × (answer ≡ 0))
    ⊎ ((g : FsNode) × ((r.0 ≡ pos 0)
          × (r.2 ≡ record s { node = store_node s.node file g })
          × Written (s.node file) bytes append g))

-- A buffer with room: it starts with the old bytes, and the other fields are kept.
grow_lem :
    (answer : ℕ) (held : ℕ → ℕ) (base needed : ℕ) (f g : FsNode) (freed : List ℕ)
    → IsBuffer f
    → base ≤ f.size
    → 0 < needed
    → needed + 64 < 2 ^ 32
    → grow answer held base needed f ≡ some (g, freed)
    → ((j : ℕ) → j < base → g.bytes j ≡ f.bytes j)
      × (needed ≤ g.capacity)
      × (g.block ≢ 0)
      × ((g.name ≡ f.name)
          × (g.kind ≡ f.kind)
          × (g.parent ≡ f.parent)
          × (g.children ≡ f.children)
          × (g.next ≡ f.next))
unfolding grow
grow_lem answer held base needed f g freed b low more fits h =
    let e0 = b.empty in
    elim (Bool-cases (ltb f.capacity needed)) [
      | inr n ↦
          let same : g ≡ f = ground (arith, h, n) in
          let nz : f.block ≢ 0 = λ z. absurd (ground (arith, e0 z, n, more)) in
          (
            λ j lt. ap (λ z. z.bytes j) same,
            ground (arith, same, n),
            λ z. nz (ap (λ y. y.block) (sym same) ∙ z),
            (
              ap (λ z. z.name) same,
              ap (λ z. z.kind) same,
              ap (λ z. z.parent) same,
              ap (λ z. z.children) same,
              ap (λ z. z.next) same,
            ),
          )
      | inl y ↦
          let a : (answer == 0) ≡ false = elim (Bool-cases (answer == 0)) [
            | inl a ↦ absurd (ground (arith, h, y, a))
            | inr a ↦ a
          ] in
          let w : (needed + 64) % 2 ^ 32 ≡ needed + 64 = omega (arith, fits) in
          let made : g ≡ record f {
            block = answer;
            bytes = λ i.
                if (not (base == 0) && not (f.block == 0)) && ltb i base then f.bytes i else held i;
            capacity = (needed + 64) % 2 ^ 32;
          } =
            ground (arith, h, y, a) in
          (
            λ j lt. ap (λ z. z.bytes j) made ∙ ground (arith, lt, e0, low),
            omega (arith, w, ap (λ z. z.capacity) made),
            λ z. absurd (ground (arith, sym (ap (λ y. y.block) made) ∙ z, a)),
            (
              ap (λ z. z.name) made,
              ap (λ z. z.kind) made,
              ap (λ z. z.parent) made,
              ap (λ z. z.children) made,
              ap (λ z. z.next) made,
            ),
          )
    ]

grow_fails :
    (answer : ℕ) (held : ℕ → ℕ) (base needed : ℕ) (f : FsNode)
    → grow answer held base needed f ≡ none
    → answer ≡ 0
unfolding grow
grow_fails answer held base needed f e = ground (arith, e)

contents_old :
    (append : Bool) (f : FsNode)
    → read f.bytes 0 (if append then f.size else 0) ≡ kept_text append f
unfolding contents
contents_old true f = refl
contents_old false f = refl

write_bytes_fields :
    (base : ℕ) (bytes : List ℕ) (g : FsNode)
    → let w = write_bytes base bytes g in
      (w.bytes w.size ≡ 0)
      × (w.size ≡ base + length bytes)
      × (w.block ≡ g.block)
      × (w.capacity ≡ g.capacity)
      × ((w.name ≡ g.name)
          × (w.kind ≡ g.kind)
          × (w.parent ≡ g.parent)
          × (w.children ≡ g.children)
          × (w.next ≡ g.next))
unfolding write_bytes
write_bytes_fields base bytes g = (ground arith, refl, refl, refl, (refl, refl, refl, refl, refl))

-- On a file with a well-formed buffer, with no wrap of the size, fs_write_n() either fails, because
-- kmalloc() does, and changes nothing, or gives 0 and changes only that file: its text is the new
-- bytes, behind the old text where it appends; a zero byte stands behind it, the buffer has room
-- for both, and the name, the type and the links are kept.
pub fs_write_n_lem :
    (s : Fs) (answer : ℕ) (held : ℕ → ℕ) (file : ℕ) (bytes : List ℕ) (append : Bool)
    → file ≢ 0
    → is_directory (s.node file).kind ≡ false
    → IsBuffer (s.node file)
    → Fits s file bytes
    → WriteOutcome s answer file bytes append (fs_write_n answer held file (some bytes) append s)
unfolding fs_write_n WriteOutcome
fs_write_n_lem s answer held file bytes append nz isf b fits =
    let f = s.node file in
    let base : ℕ = if append then f.size else 0 in
    let low : base ≤ f.size = ground arith in
    let needed : ℕ = (base + length bytes + 1) % 2 ^ 32 in
    let w : needed ≡ base + length bytes + 1 = omega (arith, low, fits) in
    let guard : (file == 0 || is_directory f.kind) ≡ false = ground (arith, nz, isf) in
    elim (Option-cases (grow answer held base needed f)) [
      | inl e ↦ inl (ground (arith, guard, e), grow_fails answer held base needed f e)
      | inr ((g, freed), e) ↦
          let (old, room, used, same) =
            grow_lem answer held base needed f g freed b low (omega (arith, w))
              (omega (arith, w, low, fits)) e in
          let (zero_behind, size, block, cap, kept) = write_bytes_fields base bytes g in
          inr (
            write_bytes base bytes g,
            (
              ground (arith, guard, e),
              ground (arith, guard, e),
              record {
                text =
                    write_bytes-read bytes base f g old
                    ∙ ap (λ z. z ++ bytes) (contents_old append f);
                terminated = zero_behind;
                buffer = record {
                  empty = λ z. absurd (used (sym block ∙ z));
                  room = λ z. omega (arith, size, cap, room, w);
                };
                in_use = λ z. used (sym block ∙ z);
                same = (
                  kept.0 ∙ same.0,
                  kept.1 ∙ same.1,
                  kept.2 ∙ same.2,
                  kept.3 ∙ same.3,
                  kept.4 ∙ same.4,
                );
              },
            ),
          )
    ]
