-- ===== src/Shell/Changed.antt =====
-- What the commands of kernel/shell.c that may write do to the filesystem.
use lightning_os.Prelude.{
  sym, ap, is_zero, if_cases, ◌==◌, ◌++◌, ℤ, ℕ, zero, suc, ◌≡◌, refl, true, some, List, [], ◌∷◌,
  ◌⊎◌, inl, inr, take, arith, Option-cases, ◌≢◌, ap, ℤ, sym, Bool, Bool-cases, is_zero,
}
use mathlib.Core.Path.{subst}
use lightning_os.Fs.Change.{fs_write, fs_remove}
use lightning_os.Fs.{Fs, Kind, fs_file, fs_resolve, fs_create, Fs, Kind, is_directory}
use lightning_os.Shell.{
  after_rm, write_to, echo_to, Shell, Answers, Reply, with_created, after_rm, fs_remove, fs_write,
}

-- What was done to the tree: one call of the filesystem on the path, or one on the file there.
pub data Call (fuel : ℕ) (m : Answers) (path : List ℕ) (before after : Fs) : Type 0 where
  creates :
      (kind : Kind) (r : ℕ × Fs)
      → fs_create fuel m.node m.behind path kind before ≡ some r
      → after ≡ r.1
      → Call fuel m path before after
  removes :
      (r : ℤ × List ℕ × Fs)
      → fs_remove fuel path before ≡ some r
      → after ≡ r.2
      → Call fuel m path before after
  writes :
      (n : ℕ) (text : List ℕ) (append : Bool)
      → fs_resolve fuel before path ≡ some n
      → n ≢ 0
      → after ≡ (fs_write m.block m.held n (some text) append before).2
      → Call fuel m path before after
  writes_new :
      (r : ℕ × Fs) (text : List ℕ) (append : Bool)
      → fs_create fuel m.node m.behind path fs_file before ≡ some r
      → after ≡ (fs_write m.block m.held r.0 (some text) append r.1).2
      → Call fuel m path before after

-- The tree is as it was, or one such call was made; the accounts and the session are as they were.
pub Changed : ℕ → Answers → List ℕ → Shell → Shell → Type 0
Changed fuel m path s s' =
    ((s'.fs ≡ s.fs) ⊎ Call fuel m path s.fs s'.fs)
    × (s'.users ≡ s.users)
    × (s'.session_open ≡ s.session_open)

pub with_created-Changed :
    (fuel : ℕ) (m : Answers) (path : List ℕ) (kind : Kind) (s : Shell) (reply : Reply) (s' : Shell)
    → with_created s (fs_create fuel m.node m.behind path kind s.fs) ≡ some (reply, s')
    → Changed fuel m path s s'
unfolding with_created Changed
with_created-Changed fuel m path kind s reply s' h =
    elim (Option-cases (fs_create fuel m.node m.behind path kind s.fs)) [
      | inl e ↦ absurd (ground (arith, e, h))
      | inr ((zero, fs), e) ↦
          let t : record s { fs = fs } ≡ s' = ground (arith, e, h) in
          (
            inr (creates kind (0, fs) e (sym (ap (λ z. z.fs) t))),
            sym (ap (λ z. z.users) t),
            sym (ap (λ z. z.session_open) t),
          )
      | inr ((suc n, fs), e) ↦
          let t : record s { fs = fs; dirty = true } ≡ s' = ground (arith, e, h) in
          (
            inr (creates kind (suc n, fs) e (sym (ap (λ z. z.fs) t))),
            sym (ap (λ z. z.users) t),
            sym (ap (λ z. z.session_open) t),
          )
    ]

pub after_rm-Changed :
    (fuel : ℕ) (m : Answers) (path : List ℕ) (s : Shell) (reply : Reply) (s' : Shell)
    → after_rm s (fs_remove fuel path s.fs) ≡ some (reply, s')
    → Changed fuel m path s s'
unfolding after_rm Changed
after_rm-Changed fuel m path s reply s' h = elim (Option-cases (fs_remove fuel path s.fs)) [
  | inl e ↦ absurd (ground (arith, e, h))
  | inr ((status, freed, fs), e) ↦ elim (Bool-cases (is_zero status)) [
    | inl z ↦
        let t : record s { fs = fs; dirty = true } ≡ s' = ground (arith, e, z, h) in
        (
          inr (removes (status, freed, fs) e (sym (ap (λ z. z.fs) t))),
          sym (ap (λ z. z.users) t),
          sym (ap (λ z. z.session_open) t),
        )
    | inr z ↦
        let t : record s { fs = fs } ≡ s' = ground (arith, e, z, h) in
        (
          inr (removes (status, freed, fs) e (sym (ap (λ z. z.fs) t))),
          sym (ap (λ z. z.users) t),
          sym (ap (λ z. z.session_open) t),
        )
  ]
]

-- The file is written, or it is left.
write_to-Changed :
    (m : Answers) (text : List ℕ) (append : Bool) (s : Shell) (file : ℕ) (fs : Fs)
    → let t = take 257 (text ++ 10 ∷ []) in
      let s' = (write_to m text append s (file, fs)).1 in
      ((s'.fs ≡ fs) ⊎ (s'.fs ≡ (fs_write m.block m.held file (some t) append fs).2))
      × (s'.users ≡ s.users)
      × (s'.session_open ≡ s.session_open)
unfolding write_to
write_to-Changed m text append s file fs =
    let t = take 257 (text ++ 10 ∷ []) in
    let P : Reply × Shell → Type 0 = λ r.
      ((r.1.fs ≡ fs) ⊎ (r.1.fs ≡ (fs_write m.block m.held file (some t) append fs).2))
      × (r.1.users ≡ s.users)
      × (r.1.session_open ≡ s.session_open) in
    if_cases P (file == 0) _ _ (λ _. (inl refl, refl, refl))
      (λ _.
        if_cases P (is_directory (fs.node file).kind) _ _ (λ _. (inl refl, refl, refl))
          (λ _.
            if_cases P (is_zero (fs_write m.block m.held file (some t) append fs).0) _ _
              (λ _. (inr refl, refl, refl)) (λ _. (inr refl, refl, refl))))

pub echo_to-Changed :
    (fuel : ℕ) (m : Answers) (text : List ℕ) (append : Bool) (path : List ℕ) (s : Shell)
    (reply : Reply) (s' : Shell)
    → echo_to fuel m text append path s ≡ some (reply, s')
    → Changed fuel m path s s'
unfolding echo_to Changed
echo_to-Changed fuel m text append path s reply s' h =
    let t = take 257 (text ++ 10 ∷ []) in
    elim (Option-cases (fs_resolve fuel s.fs path)) [
      | inl e ↦ absurd (ground (arith, e, h))
      | inr (suc n, e) ↦
          let (w, u, o) = write_to-Changed m text append s (suc n) s.fs in
          let r : (write_to m text append s (suc n, s.fs)).1 ≡ s' = ground (arith, e, h) in
          subst
            (λ z.
              ((z.fs ≡ s.fs) ⊎ Call fuel m path s.fs z.fs)
              × (z.users ≡ s.users)
              × (z.session_open ≡ s.session_open))
            r (elim w [ inl q ↦ inl q | inr q ↦ inr (writes (suc n) t append e (cc) q) ], u, o)
      | inr (zero, e) ↦ elim (Option-cases (fs_create fuel m.node m.behind path fs_file s.fs)) [
        | inl f ↦ absurd (ground (arith, e, f, h))
        | inr ((n, fs), f) ↦
            let (w, u, o) = write_to-Changed m text append s n fs in
            let r : (write_to m text append s (n, fs)).1 ≡ s' = ground (arith, e, f, h) in
            subst
              (λ z.
                ((z.fs ≡ s.fs) ⊎ Call fuel m path s.fs z.fs)
                × (z.users ≡ s.users)
                × (z.session_open ≡ s.session_open))
              r
              (
                elim w [
                  | inl q ↦ inr (creates fs_file (n, fs) f q)
                  | inr q ↦ inr (writes_new (n, fs) t append f q)
                ],
                u,
                o,
              )
      ]
    ]
