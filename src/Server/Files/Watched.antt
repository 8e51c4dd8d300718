-- ===== src/Server/Files/Watched.antt =====
-- No path leads out of the watched folders.
use dropboy.Base.{
  Text, text_eq, nat_eq, codes, ◌==◌, if◌then◌else◌, Bool, true, false, ◌||◌, ◌&&◌, some, List, [],
  ◌∷◌, ◌++◌, ◌≡◌, refl, sym, ◌∙◌, ap, arith, ◌⊎◌, inl, inr, Bool-cases, Option-cases, trim_prefix,
  append-trim_prefix, eq_of_==,
}
use mathlib.Core.List.{append_assoc}
use dropboy.Base.Outcome.{Outcome, ok, err, panic}
use dropboy.Config.{Folder}
use dropboy.Server.Files.{Paths}
use dropboy.Server.Files.Lookup.{is_under, candidate, resolve_segments, resolve_in, resolve_watched}

-- The first element of a path.
before_slash : Text → Text
unfolding nat_eq
before_slash [] = []
before_slash (c ∷ t) = let rest = before_slash t in if c == b'/' then [] else c ∷ rest

-- Whether an element after the first slash is "..".
climbs_below : Text → Bool
unfolding before_slash
climbs_below [] = false
climbs_below (c ∷ t) = (c == b'/' && before_slash t == codes "..") || climbs_below t

-- Whether an element of the path is "..".
unfoldable pub climbs : Text → Bool
unfolding before_slash climbs_below
climbs t = before_slash t == codes ".." || climbs_below t

climbs_below-append : (a b : Text) → climbs_below (a ++ (codes "/" ++ b)) ≡ false → climbs b ≡ false
unfolding climbs climbs_below
climbs_below-append [] b h = h
climbs_below-append (c ∷ a) b h = climbs_below-append a b (ground (arith, h))

climbs-append : (a b : Text) → climbs (a ++ (codes "/" ++ b)) ≡ false → climbs b ≡ false
unfolding climbs
climbs-append a b h = climbs_below-append a b (ground (arith, h))

-- The path is that of the folder, or leads down from it: what comes after the folder and a slash
-- has no element "..".
abbrev pub Inside : Text → Text → Type 0
Inside base c =
    (c ≡ base) ⊎ ((below : Text) × (c ≡ base ++ (codes "/" ++ below)) × (climbs below ≡ false))

-- What Abs makes of a folder of the list, of which the last element is `first`, joined with `rest`,
-- and it is inside the folder, made absolute.
pub data IsWatched (P : Paths) (first : Text) (rest : List Text) (c : Text)
    : List Folder → Type 0 where
  here :
      {f : Folder} {fs : List Folder} (base : Text)
      → P.base f.path ≡ first
      → P.abs (P.join (f.path ∷ rest)) ≡ ok c
      → P.abs f.path ≡ ok base
      → Inside base c
      → IsWatched P first rest c (f ∷ fs)
  there :
      {f : Folder} {fs : List Folder}
      → IsWatched P first rest c fs
      → IsWatched P first rest c (f ∷ fs)

module _ (P : Paths) where
  is_under-Inside : (base c : Text) → is_under P base c ≡ true → climbs c ≡ false → Inside base c
  unfolding is_under
  is_under-Inside base c under stays = elim (Bool-cases (c == base)) [
    | inl same ↦ inl (eq_of_== c base same)
    | inr other ↦
        let below = trim_prefix c (base ++ codes "/") in
        let joined : (base ++ codes "/") ++ below ≡ c =
          append-trim_prefix c (base ++ codes "/") (rw other at under) in
        let split : c ≡ base ++ (codes "/" ++ below) =
          sym joined ∙ append_assoc base (codes "/") below in
        inr (below, split, climbs-append base below (sym (ap climbs split) ∙ stays))
  ]

  candidate-under :
      (clean base : Outcome Text) (c : Text)
      → candidate P clean base ≡ some c
      → (b : Text) × (clean ≡ ok c) × (base ≡ ok b) × (is_under P b c ≡ true)
  candidate-under (ok clean) (ok base) c h = elim (Bool-cases (is_under P base clean)) [
    | inl under ↦ (base, ground arith, refl, ground arith)
    | inr out ↦ ground arith
  ]
  candidate-under (ok clean) (err e) c h = ground arith
  candidate-under (ok clean) panic c h = ground arith
  candidate-under (err e) base c h = ground arith
  candidate-under panic base c h = ground arith

  module _ (cleans : (p c : Text) → P.abs p ≡ ok c → climbs c ≡ false) where
    resolve_in-IsWatched :
        (fs : List Folder) (first : Text) (rest : List Text)
        → ¬ (resolve_in P fs first rest ≡ [])
        → IsWatched P first rest (resolve_in P fs first rest) fs
    unfolding resolve_in
    resolve_in-IsWatched [] first rest h = ground arith
    resolve_in-IsWatched (f ∷ fs) first rest h = elim (Bool-cases (P.base f.path == first)) [
      | inr other ↦ rw other (there (resolve_in-IsWatched fs first rest (rw other at h)))
      | inl named ↦
          elim (Option-cases (candidate P (P.abs (P.join (f.path ∷ rest))) (P.abs f.path))) [
            | inl outside ↦
                rw (named, outside)
                  (there (resolve_in-IsWatched fs first rest (rw (named, outside) at h)))
            | inr (clean, found) ↦
                let (base, made, at, under) = candidate-under _ _ clean found in
                rw (named, found)
                  (here base (eq_of_== _ _ named) made at
                    (is_under-Inside base clean under (cleans _ clean made)))
          ]
    ]

    -- Where Abs, which cleans its result, leaves no element ".." in it, a path that resolveWatched
    -- gives out, which is not empty, is what Abs makes of a watched folder joined with the segments
    -- after the first one, which is the name of that folder; and the path is that of the folder, as Abs
    -- gives it, or the folder's, a slash and a rest without "..".
    pub resolve_watched-IsWatched :
        (folders : List Folder) (virtual : Text)
        → ¬ (resolve_watched P folders virtual ≡ [])
        → (first : Text) × (rest : List Text) × (P.segments virtual ≡ first ∷ rest)
          × IsWatched P first rest (resolve_watched P folders virtual) folders
    unfolding resolve_watched
    resolve_watched-IsWatched folders virtual h = go (P.segments virtual) h
      where
        go :
            (segs : List Text)
            → ¬ (resolve_segments P folders segs ≡ [])
            → (first : Text) × (rest : List Text) × (segs ≡ first ∷ rest)
              × IsWatched P first rest (resolve_segments P folders segs) folders
        go [] h = ground arith
        go (first ∷ rest) h = elim (Bool-cases (first == [])) [
          | inl empty ↦ ground arith
          | inr set ↦
              (first, rest, refl, rw set (resolve_in-IsWatched folders first rest (rw set at h)))
        ]
