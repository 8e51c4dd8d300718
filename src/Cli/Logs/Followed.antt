-- ===== src/Cli/Logs/Followed.antt =====
-- tailFollow prints what is added to the file, each byte once.
use dropboy.Base.{
  ℕ, zero, suc, Text, nat_eq, ◌==◌, true, false, length, List, [], ◌∷◌, ◌++◌, ◌≡◌, refl, ◌∙◌, sym,
  ap, arith, ◌<◌, Bool-cases, inl, inr,
}
use mathlib.Core.List.{append-nil}
use dropboy.Cli.Logs.{read_string, read_lines, from, follow_from, tail_follow}

-- What is read and what is left are the text.
read_string-parts : (s : Text) → (read_string s).0 ++ (read_string s).1 ≡ s
unfolding read_string
read_string-parts [] = refl
read_string-parts (c ∷ s) = elim (Bool-cases (c == b'\n')) [
  | inl e ↦ rw e refl
  | inr n ↦ rw n (ap (λ (t : Text). c ∷ t) (read_string-parts s))
]

-- Without a newline all was read; with one, something was.
read_string-rest :
    (s : Text)
    → ((read_string s).2 ≡ false → (read_string s).1 ≡ [])
      × ((read_string s).2 ≡ true → length (read_string s).1 < length s)
unfolding read_string
read_string-rest [] = (λ h. refl, λ h. absurd (cc))
read_string-rest (c ∷ s) = elim (Bool-cases (c == b'\n')) [
  | inl e ↦ rw e (λ h. absurd (cc), λ h. omega arith)
  | inr n ↦ rw n ((read_string-rest s).0, λ h. omega (arith, (read_string-rest s).1 h))
]

-- The lines of a text, read one after the other, are the text.
read_lines-all : (fuel : ℕ) (s : Text) → length s < fuel → read_lines fuel s ≡ s
unfolding read_lines
read_lines-all zero s h = absurd (omega arith)
read_lines-all (suc fuel) s h = elim (Bool-cases (read_string s).2) [
  | inl e ↦
      rw (e, read_lines-all fuel (read_string s).1 (omega (arith, (read_string-rest s).1 e)))
        (read_string-parts s)
  | inr n ↦ rw n (
      sym (append-nil _)
      ∙ ap (λ (t : Text). (read_string s).0 ++ t) (sym ((read_string-rest s).0 n))
      ∙ read_string-parts s)
]

from-append : (s t : Text) → from (length s) (s ++ t) ≡ t
unfolding from
from-append [] t = refl
from-append (c ∷ s) t = from-append s t

-- The contents of a file to which something is added before each end of file.
abbrev pub grown : Text → List Text → List Text
grown s [] = []
grown s (added ∷ later) = (s ++ added) ∷ grown (s ++ added) later

abbrev pub all_of : List Text → Text
all_of [] = []
all_of (added ∷ later) = added ++ all_of later

follow_from-grown :
    (s : Text) (additions : List Text)
    → follow_from (length s) (grown s additions) ≡ all_of additions
unfolding follow_from
follow_from-grown s [] = refl
follow_from-grown s (added ∷ later) =
    rw
      (
        from-append s added,
        read_lines-all (suc (length added)) added (omega arith),
        follow_from-grown (s ++ added) later,
      )
      refl

-- Of a file that only grows, tailFollow prints what is added after it has opened the file, all of it, in
-- order and once, wherever the newlines are and however the additions fall between two ends of file.
pub tail_follow-grown :
    (s : Text) (additions : List Text) → tail_follow s (grown s additions) ≡ all_of additions
unfolding tail_follow
tail_follow-grown s additions = follow_from-grown s additions
