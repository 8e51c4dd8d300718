-- ===== src/Base/Outcome.antt =====
-- Results of Go code, and code that changes a state on the way. A function that returns an error
-- keeps what it had written before, so the state comes back beside every outcome.
use mathlib.Core.Option.{Option, none, some}
use dropboy.Base.Texts.{Text}

-- Error values: the sentinels that the program compares with, and texts, alone or wrapped by %w.
pub data Error : Type 0 where
  not_exist : Error
  object_not_found : Error
  entry_not_found : Error
  bad_passphrase : Error
  not_initialized : Error
  message : Text → Error
  wrapped : Text → Error → Error

-- `panic` is a run-time panic, which no caller in the program recovers from outside the server.
pub data Outcome {ℓ} (A : Type ℓ) : Type ℓ where
  ok : A → Outcome A
  err : Error → Outcome A
  panic : Outcome A

-- The result of a function that returns only an error.
abbrev pub Done : Type 0
Done = Unit {0}

abbrev pub Exec {ℓ} : Type ℓ → Type ℓ → Type ℓ
Exec S A = S → Outcome A × S

module _ {ℓ} {S A : Type ℓ} where
  abbrev pub pure : A → Exec S A
  pure a s = (ok a, s)

  abbrev pub fail : Error → Exec S A
  fail e s = (err e, s)

  abbrev pub lift : Outcome A → Exec S A
  lift r s = (r, s)

  abbrev pub gets : (S → A) → Exec S A
  gets f s = (ok (f s), s)

module _ {ℓ} {S A B : Type ℓ} where
  abbrev pub continue : Outcome A → (A → Exec S B) → Exec S B
  continue (ok a) f s = f a s
  continue (err e) f s = (err e, s)
  continue panic f s = (panic, s)

  infixl 10 ◌>>=◌ ◌>>◌
  abbrev pub ◌>>=◌ : Exec S A → (A → Exec S B) → Exec S B
  ◌>>=◌ m f s = let (r, s') = m s in continue r f s'

  abbrev pub ◌>>◌ : Exec S A → Exec S B → Exec S B
  m >> n = m >>= λ _. n

-- `if err != nil { return fmt.Errorf("text: %w", err) }`
module _ {ℓ} {A : Type ℓ} where
  abbrev pub wrap : Text → Outcome A → Outcome A
  wrap t (ok a) = ok a
  wrap t (err e) = err (wrapped t e)
  wrap t panic = panic

module _ {ℓ} {S A : Type ℓ} where
  abbrev pub wrapping : Text → Exec S A → Exec S A
  wrapping t m s = let (r, s') = m s in (wrap t r, s')

-- `if err != nil { return nil }`: an error is dropped, a panic is not.
abbrev pub optional {ℓ} : {A : Type ℓ} → Outcome A → Outcome (Option A)
optional (ok a) = ok (some a)
optional (err e) = ok none
optional panic = panic

-- `x, _ := f()`: the error is dropped, and the state is kept.
module _ {ℓ} {S A : Type ℓ} where
  abbrev pub trying : Exec S A → Exec S (Option A)
  trying m s = let (r, s') = m s in (optional r, s')
