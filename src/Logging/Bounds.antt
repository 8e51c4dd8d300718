-- ===== src/Logging/Bounds.antt =====
-- The size of the log over its writes.
use dropboy.Base.{
  ℕ, ◌+◌, ◌≤◌, ◌<◌, ltb, Text, text_eq, ◌==◌, if◌then◌else◌, Bool, true, false, Bool-cases, Option,
  none, some, ◌++◌, length, length-append, ◌≡◌, refl, ap, ◌∙◌, ◌⊎◌, inl, inr, arith, ==-refl, [],
}
use dropboy.Base.Outcome.{ok, Error}
use dropboy.Logging.{LogFiles, max_log_bytes, numbered, RotatingWriter, rotate, write, written}
use dropboy.Logging.Rotation.{
  IsFaithful, IsWell, rotate-content, shifted-one, shifted-two, numbered-ne, or_else,
}

unless : (b : Bool) (x y : Option Text) → b ≡ false → (if b then x else y) ≡ y
unless b x y h = rw h refl

ltb-le : (m n : ℕ) → ltb m n ≡ false → n ≤ m
ltb-le m n h = ground arith

ltb-lt : (m n : ℕ) → ltb m n ≡ true → m < n
ltb-lt m n h = ground arith

module _ (F : LogFiles) (faithful : IsFaithful F) where
  -- What a write has added to the log.
  pub record Added (r : RotatingWriter F) (c p d : Text) (s t : F.State) : Type 0 where
    pub whole : d ≡ c ++ p
    pub small : length d ≤ max_log_bytes
    pub others : (q : Text) → (q == r.path) ≡ false → faithful.content t q ≡ faithful.content s q

  -- What a write has started anew.
  pub record Rotated (r : RotatingWriter F) (c p d : Text) (s t : F.State) : Type 0 where
    pub fresh : d ≡ p
    pub due : max_log_bytes < length c + length p
    pub first : faithful.content t (numbered r.path 1) ≡ some c
    pub second :
        faithful.content t (numbered r.path 2)
        ≡ or_else (faithful.content s (numbered r.path 1)) (faithful.content s (numbered r.path 2))

  -- A file beside the log, over a write to the log after a rotation.
  older :
      (r : RotatingWriter F) (t u : F.State) (i : ℕ) (a b : Option Text) (new : Text)
      → faithful.content u (numbered r.path i)
        ≡ (if numbered r.path i == r.path then some new else faithful.content t (numbered r.path i))
      → faithful.content t (numbered r.path i) ≡ (if numbered r.path i == r.path then a else b)
      → faithful.content u (numbered r.path i) ≡ b
  older r t u i a b new later after =
      later ∙ unless _ _ _ (numbered-ne r.path i) ∙ after ∙ unless _ _ _ (numbered-ne r.path i)

  written-IsWell :
      (f : F.File) (r : RotatingWriter F) (c p : Text) (s : F.State)
      → faithful.Points s f r.path
      → faithful.content s r.path ≡ some c
      → r.n ≡ length c
      → let (result, r', t) = written F (some f) r p s in
        (result ≡ (length p, none))
        × ((r.file ≡ some f) → IsWell F faithful r' (c ++ p) t)
        × ((q : Text)
            → faithful.content t q ≡ (if q == r.path then some (c ++ p) else faithful.content s q))
  unfolding written
  written-IsWell f r c p s points log size =
      let (t, wrote, still, after) = faithful.write f r.path c p s points log in
      rw wrote (
        refl,
        (λ same. record {
          file = f;
          is_open = same;
          points = still;
          log = after r.path ∙ rw (==-refl r.path) refl;
          size = omega (arith, size, length-append c p);
        }),
        after,
      )

  -- What a call of Write returns and leaves.
  abbrev pub Wrote :
      RotatingWriter F
      → Text
      → Text
      → F.State
      → (ℕ × Option Error) × RotatingWriter F × F.State
      → Type 0
  Wrote r c p s (result, r', t) =
      (result ≡ (length p, none))
      × ((d : Text) × IsWell F faithful r' d t × (Added r c p d s t ⊎ Rotated r c p d s t))

  write-fits :
      (r : RotatingWriter F) (f : F.File) (p : Text) (s : F.State)
      → r.file ≡ some f
      → ltb max_log_bytes (r.n + length p) ≡ false
      → write F r p s ≡ written F (some f) r p s
  unfolding write
  write-fits r f p s is_open h = rw h (ap (λ o. written F o r p s) is_open)

  write-over :
      (r new : RotatingWriter F) (f : F.File) (p : Text) (s t : F.State)
      → rotate F r s ≡ (ok tt, new, t)
      → new.file ≡ some f
      → ltb max_log_bytes (r.n + length p) ≡ true
      → write F r p s ≡ written F (some f) new p t
  unfolding write
  write-over r new f p s t turns is_open h = rw h (rw turns (ap (λ o. written F o new p t) is_open))

  added :
      (r : RotatingWriter F) (c p : Text) (s : F.State)
      → IsWell F faithful r c s
      → ltb max_log_bytes (r.n + length p) ≡ false
      → Wrote r c p s (write F r p s)
  added r c p s well fits =
      let (wrote, keeps, after) = written-IsWell well.file r c p s well.points well.log well.size in
      rw (write-fits r well.file p s well.is_open fits) (
        wrote,
        (
          c ++ p,
          keeps well.is_open,
          inl (record {
            whole = refl;
            small = omega (arith, length-append c p, well.size, ltb-le _ _ fits);
            others = λ q other. after q ∙ rw other refl;
          }),
        ),
      )

  rotated :
      (r : RotatingWriter F) (c p : Text) (s : F.State)
      → IsWell F faithful r c s
      → ltb max_log_bytes (r.n + length p) ≡ true
      → Wrote r c p s (write F r p s)
  rotated r c p s well over =
      let (f, t, turns, points, after) = rotate-content F faithful r s in
      let new = record r { file = some f; n = 0 } in
      let (wrote, keeps, later) =
        written-IsWell f new [] p t points (after r.path ∙ rw (==-refl r.path) refl) refl in
      rw (write-over r new f p s t turns refl over) (
        wrote,
        (
          p,
          keeps refl,
          inr (record {
            fresh = refl;
            due = omega (arith, well.size, ltb-lt _ _ over);
            first = older r t _ 1 _ _ _ (later _) (after _) ∙ shifted-one _ r.path c well.log;
            second = older r t _ 2 _ _ _ (later _) (after _) ∙ shifted-two _ r.path c well.log;
          }),
        ),
      )

  -- On files that do what their calls say, Write of a writer whose file is the log and which knows the
  -- log's size writes all the bytes, and leaves a writer of that kind. Either the log is the old one
  -- and the bytes, within ten mebibytes, and no other file has changed; or these would have exceeded
  -- ten mebibytes, the log is the bytes alone, the old log is the first of the older logs, and the
  -- second of these is what was the first, where there was one.
  pub write-bounds :
      (r : RotatingWriter F) (c p : Text) (s : F.State)
      → IsWell F faithful r c s
      → Wrote r c p s (write F r p s)
  write-bounds r c p s well = elim (Bool-cases (ltb max_log_bytes (r.n + length p))) [
    | inr fits ↦ added r c p s well fits
    | inl over ↦ rotated r c p s well over
  ]
