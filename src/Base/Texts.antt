-- ===== src/Base/Texts.antt =====
-- Go strings as lists of bytes, and what the program uses of package strings.
use Prim.Native.Nat.{ℕ, ◌+◌, ◌-◌, ◌/◌, ◌%◌}
use Prim.Native.Char.{code}
use Prim.Native.String.{String}
use mathlib.Core.Path.{◌≡◌, refl}
use mathlib.Core.Bool.{Bool, true, false, ◌||◌, ◌&&◌}
use mathlib.Core.Option.{Option, none, some}
use mathlib.Core.List.{List, [], ◌∷◌, ◌++◌}
use native.Mathlib.Omega.{arith}
use native.Mathlib.Decide.{ℕ_discrete}
use dropboy.Base.Tests.{Eq, ◌==◌, nat_eq, ltb, if◌then◌else◌}

abbrev pub Text : Type 0
Text = List ℕ

-- The em dash in UTF-8.
abbrev pub long_dash : Text
long_dash = 0xE2 ∷ 0x80 ∷ 0x94 ∷ []

-- The bytes of an ASCII literal.
abbrev pub codes : String → Text
codes String.[] = []
codes (String.◌∷◌ c s) = code c ∷ codes s

text_dec : Discrete Text
text_dec = hlevel ℕ_discrete

instance unfoldable pub text_eq : Eq Text
unfolding text_dec ℕ_discrete
text_eq = record { dec = text_dec }

pub cons-eq-nil : (c : ℕ) (s : Text) → ((c ∷ s) == []) ≡ false
cons-eq-nil c s = ground arith

-- strings.HasPrefix
unfoldable pub has_prefix : Text → Text → Bool
unfolding nat_eq
has_prefix s [] = true
has_prefix [] (c ∷ p) = false
has_prefix (d ∷ s) (c ∷ p) = d == c && has_prefix s p

-- strings.TrimPrefix
drop_prefix : Text → Text → Text
drop_prefix s [] = s
drop_prefix [] (c ∷ p) = []
drop_prefix (d ∷ s) (c ∷ p) = drop_prefix s p

unfoldable pub trim_prefix : Text → Text → Text
unfolding has_prefix drop_prefix
trim_prefix s p = if has_prefix s p then drop_prefix s p else s

-- strings.Contains
unfoldable pub has_infix : Text → Text → Bool
unfolding has_prefix
has_infix [] p = has_prefix [] p
has_infix (c ∷ s) p = has_prefix (c ∷ s) p || has_infix s p

pub has_prefix-append : (p s : Text) → has_prefix (p ++ s) p ≡ true
unfolding has_prefix
has_prefix-append [] s = refl
has_prefix-append (c ∷ p) s = ground (arith, has_prefix-append p s)

pub has_prefix-append_both : (p s t : Text) → has_prefix (p ++ s) (p ++ t) ≡ has_prefix s t
unfolding has_prefix
has_prefix-append_both [] s t = refl
has_prefix-append_both (c ∷ p) s t = ground (arith, has_prefix-append_both p s t)

drop_prefix-append : (p s : Text) → drop_prefix (p ++ s) p ≡ s
unfolding drop_prefix
drop_prefix-append [] s = refl
drop_prefix-append (c ∷ p) s = drop_prefix-append p s

pub trim_prefix-append : (p s : Text) → trim_prefix (p ++ s) p ≡ s
unfolding trim_prefix
trim_prefix-append p s = rw has_prefix-append (drop_prefix-append p s)

-- A text that has the prefix is the prefix and the rest.
pub append-trim_prefix : (s p : Text) → has_prefix s p ≡ true → p ++ trim_prefix s p ≡ s
unfolding trim_prefix
append-trim_prefix s [] h = refl
append-trim_prefix [] (c ∷ p) h = ground arith
append-trim_prefix (d ∷ s) (c ∷ p) h = ground (arith, append-trim_prefix s p)

-- hex.EncodeToString
hex_digit : ℕ → ℕ
hex_digit n = if ltb n 10 then b'0' + n else b'a' + (n - 10)

unfoldable pub hex_encode : Text → Text
unfolding hex_digit
hex_encode [] = []
hex_encode (b ∷ s) = hex_digit (b / 16) ∷ hex_digit (b % 16) ∷ hex_encode s

-- The text before the last slash, if there is one.
before_last_slash : Text → Option Text
unfolding nat_eq
before_last_slash [] = none
before_last_slash (c ∷ s) = elim (before_last_slash s) [
  | some d ↦ some (c ∷ d)
  | none ↦ if c == b'/' then some [] else none
]

-- filepath.Dir of a clean path.
unfoldable pub dir_name : Text → Text
unfolding before_last_slash
dir_name p = elim (before_last_slash p) [
  | none ↦ codes "."
  | some [] ↦ codes "/"
  | some (c ∷ d) ↦ c ∷ d
]

-- filepath.Join of a clean directory and a name.
unfoldable pub join_path : Text → Text → Text
join_path dir name = dir ++ (b'/' ∷ name)

test_dir : dir_name (codes "/a/b.txt") ≡ codes "/a"
unfolding dir_name
test_dir = refl

test_hex : hex_encode (b'/' ∷ 255 ∷ []) ≡ codes "2fff"
unfolding hex_encode
test_hex = refl

test_contains : has_infix (codes "a/.dropboy/x") (codes "/.dropboy/") ≡ true
unfolding has_infix
test_contains = refl

test_eq : (codes "ab" == codes "ab") ≡ true
unfolding text_eq
test_eq = refl
