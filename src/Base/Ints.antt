-- ===== src/Base/Ints.antt =====
-- Go's int where it can be negative.
use Prim.Native.Nat.{ℕ, zero, suc, ◌*◌, ◌-◌}
use mathlib.Core.Bool.{Bool, true, false}
use mathlib.Core.List.{List, ◌∷◌}
use native.Mathlib.Decide.{ℕ_discrete}
use dropboy.Base.Tests.{Eq}

-- negsuc n is -(n + 1).
pub data ℤ : Type 0 where
  pos : ℕ → ℤ
  negsuc : ℕ → ℤ

ℤ_discrete : Discrete ℤ
ℤ_discrete = hlevel ℕ_discrete

instance unfoldable pub int_eq : Eq ℤ
unfolding ℤ_discrete ℕ_discrete
int_eq = record { dec = ℤ_discrete }

-- The product of a positive number and an integer.
abbrev pub scale : ℕ → ℤ → ℤ
scale k (pos n) = pos (k * n)
scale k (negsuc n) = negsuc (k * suc n - 1)

abbrev pub is_positive : ℤ → Bool
is_positive (pos zero) = false
is_positive (pos (suc n)) = true
is_positive (negsuc n) = false

-- The verb %d of an integer, over that of its size.
abbrev pub int_text : (ℕ → List ℕ) → ℤ → List ℕ
int_text digits (pos n) = digits n
int_text digits (negsuc n) = b'-' ∷ digits (suc n)
