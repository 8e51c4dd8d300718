-- ===== src/Logging/Rotation.antt =====
-- What a write leaves in the log and in the older logs, on files that do what their calls say.
use dropboy.Base.{
  ℕ, Text, text_eq, codes, ◌==◌, if◌then◌else◌, false, Bool-cases, Option, Option-cases, none, some,
  [], ◌∷◌, ◌++◌, length, length-append, ◌≡◌, eq_of_==, ==-comm, refl, ap, ◌∙◌, inl, inr, arith,
  ==-refl,
}
use dropboy.Base.Outcome.{ok}
use dropboy.Logging.{
  LogFiles, truncating, numbered, itoa, source, RotatingWriter, rotate, shift, close_file, reopened,
}

abbrev pub Files : Type 0
Files = Text → Option Text

abbrev pub moved : Option Text → Text → Text → Text → Option Text → Option Text
moved none src dst q old = old
moved (some c) src dst q old = if q == dst then some c else if q == src then none else old

-- The files after a rename: without the source nothing happens.
unfoldable pub renamed : Files → Text → Text → Files
renamed files src dst q = moved (files src) src dst q (files q)

pub record IsFaithful (F : LogFiles) : Type 1 where
  pub content : F.State → Files
  -- An open file writes to the path under which it was opened.
  pub Points : F.State → F.File → Text → Type 0
  pub close : (f : F.File) (s : F.State) (q : Text) → content (F.close f s).1 q ≡ content s q
  pub rename :
      (src dst : Text) (s : F.State) (q : Text)
      → content (F.rename src dst s).1 q ≡ renamed (content s) src dst q
  pub truncate :
      (path : Text) (mode : ℕ) (s : F.State)
      → (f : F.File) × (t : F.State) × (F.open_file path truncating mode s ≡ (ok f, t))
        × Points t f path
        × ((q : Text) → content t q ≡ (if q == path then some [] else content s q))
  pub write :
      (f : F.File) (path c p : Text) (s : F.State)
      → Points s f path
      → content s path ≡ some c
      → (t : F.State) × (F.write f p s ≡ ((length p, none), t))
        × Points t f path
        × ((q : Text) → content t q ≡ (if q == path then some (c ++ p) else content s q))

abbrev pub or_else : Option Text → Option Text → Option Text
or_else none b = b
or_else (some c) b = some c

differ : (s t : Text) → ¬ (length s ≡ length t) → (s == t) ≡ false
differ s t h = elim (Bool-cases (s == t)) [
  | inl same ↦ absurd (h (ap length (eq_of_== s t same)))
  | inr other ↦ other
]

append-==-append : (path s t : Text) → (path ++ s == path ++ t) ≡ (s == t)
append-==-append [] s t = refl
append-==-append (c ∷ path) s t = ground (arith, append-==-append path s t)

pub numbered-ne : (path : Text) (i : ℕ) → (numbered path i == path) ≡ false
unfolding numbered
numbered-ne path i = differ _ path (λ h. omega (arith, h, length-append path (codes "." ++ itoa i)))

decided : (codes ".1" == codes ".2") ≡ false
unfolding text_eq
decided = refl

one_two : (path : Text) → (numbered path 1 == numbered path 2) ≡ false
unfolding numbered
one_two path = append-==-append path (codes ".1") (codes ".2") ∙ decided

renamed-some :
    (files : Files) (src dst q c : Text)
    → files src ≡ some c
    → renamed files src dst q ≡ (if q == dst then some c else if q == src then none else files q)
unfolding renamed
renamed-some files src dst q c h = rw h refl

moved-or_else :
    (files : Files) (src dst : Text) → renamed files src dst dst ≡ or_else (files src) (files dst)
unfolding renamed
moved-or_else files src dst = elim (Option-cases (files src)) [
  | inl missing ↦ rw missing refl
  | inr (older, there) ↦ rw there (rw (==-refl dst) refl)
]

-- The files after the renames of a rotation.
unfoldable pub shifted : Files → Text → Files
shifted files path =
    renamed (renamed files (numbered path 1) (numbered path 2)) path (numbered path 1)

module _ (files : Files) (path c : Text) (now : files path ≡ some c) where
  first_kept : renamed files (numbered path 1) (numbered path 2) path ≡ some c
  unfolding renamed
  first_kept = elim (Option-cases (files (numbered path 1))) [
    | inl missing ↦ rw missing now
    | inr (older, there) ↦ rw there (
        rw
          (
            ==-comm path (numbered path 2),
            numbered-ne path 2,
            ==-comm path (numbered path 1),
            numbered-ne path 1,
          )
          now)
  ]

  pub shifted-one : shifted files path (numbered path 1) ≡ some c
  unfolding shifted
  shifted-one =
      renamed-some _ path (numbered path 1) (numbered path 1) c first_kept
      ∙ rw (==-refl (numbered path 1)) refl

  pub shifted-two :
      shifted files path (numbered path 2)
      ≡ or_else (files (numbered path 1)) (files (numbered path 2))
  unfolding shifted
  shifted-two =
      renamed-some _ path (numbered path 1) (numbered path 2) c first_kept
      ∙ rw (==-comm (numbered path 2) (numbered path 1)) (
          rw (one_two path)
            (rw (numbered-ne path 2) (moved-or_else files (numbered path 1) (numbered path 2))))

renamed-same :
    (f g : Files) (src dst q : Text)
    → ((x : Text) → f x ≡ g x)
    → renamed f src dst q ≡ renamed g src dst q
unfolding renamed
renamed-same f g src dst q h = rw (h src, h q) refl

module _ (F : LogFiles) (faithful : IsFaithful F) where
  -- A writer whose file is the log, of which it knows the size.
  pub record IsWell (r : RotatingWriter F) (c : Text) (s : F.State) : Type 0 where
    pub file : F.File
    pub is_open : r.file ≡ some file
    pub points : faithful.Points s file r.path
    pub log : faithful.content s r.path ≡ some c
    pub size : r.n ≡ length c

  close_file-content :
      (f : Option F.File) (s : F.State) (q : Text)
      → faithful.content (close_file F f s) q ≡ faithful.content s q
  unfolding close_file
  close_file-content none s q = refl
  close_file-content (some f) s q = faithful.close f s q

  shift-content :
      (path : Text) (s : F.State) (q : Text)
      → faithful.content (shift F path 2 s) q ≡ shifted (faithful.content s) path q
  unfolding shift shifted source
  shift-content path s q =
      faithful.rename path (numbered path 1) _ q
      ∙ renamed-same _ _ path (numbered path 1) q
          (faithful.rename (numbered path 1) (numbered path 2) s)

  shifted-same :
      (f g : Files) (path q : Text) → ((x : Text) → f x ≡ g x) → shifted f path q ≡ shifted g path q
  unfolding shifted
  shifted-same f g path q h =
      renamed-same _ _ path (numbered path 1) q
        (λ x. renamed-same f g (numbered path 1) (numbered path 2) x h)

  pub rotate-content :
      (r : RotatingWriter F) (s : F.State)
      → (f : F.File) × (t : F.State) × (rotate F r s
          ≡ (ok tt, record r { file = some f; n = 0 }, t))
        × faithful.Points t f r.path
        × ((q : Text)
            → faithful.content t q
              ≡ (if q == r.path then some [] else shifted (faithful.content s) r.path q))
  unfolding rotate reopened
  rotate-content r s =
      let (f, t, opens, points, after) =
        faithful.truncate r.path 0x1A4 (shift F r.path 2 (close_file F r.file s)) in
      (
        f,
        t,
        rw opens refl,
        points,
        λ q.
            after q
            ∙ ap (λ o. if q == r.path then some [] else o)
                (shift-content r.path (close_file F r.file s) q
                  ∙ shifted-same _ _ r.path q (close_file-content r.file s)),
      )
