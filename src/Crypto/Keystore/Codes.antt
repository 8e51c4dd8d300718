-- ===== src/Crypto/Keystore/Codes.antt =====
-- Recovery codes are made where no call fails.
use dropboy.Base.{ℕ, zero, suc, Text, [], ◌∷◌, length, ◌<◌, ◌≡◌, refl, ap, arith}
use dropboy.Base.Outcome.{ok}
use dropboy.Os.{Os, IsReliable}
use dropboy.Crypto.Keystore.{
  char_at, recovery_alphabet, recovery_code_len, recovery_chars, generate_recovery_code,
}

char_at-ok : (s : Text) (i : ℕ) → i < length s → (c : ℕ) × (char_at s i ≡ ok c)
unfolding char_at
char_at-ok [] i h = absurd (omega arith)
char_at-ok (c ∷ s) zero h = (c, refl)
char_at-ok (c ∷ s) (suc i) h = char_at-ok s i (omega arith)

module _ (X : Os) (R : IsReliable X) where
  recovery_chars-ok :
      (n : ℕ) (s : X.State)
      → (code : Text) × (t : X.State) × (recovery_chars X n s ≡ (ok code, t)) × (length code ≡ n)
  unfolding recovery_chars
  recovery_chars-ok zero s = ([], s, refl, refl)
  recovery_chars-ok (suc n) s =
      let (i, s₁, e₁, below) = R.random_int s (length recovery_alphabet) (omega arith) in
      let (c, e₂) = char_at-ok recovery_alphabet i below in
      let (code, s₂, e₃, size) = recovery_chars-ok n s₁ in
      (c ∷ code, s₂, rw (e₁, e₂, e₃), ap suc size)

  -- GenerateRecoveryCode gives twenty characters.
  pub generate_recovery_code-ok :
      (s : X.State)
      → (code : Text) × (t : X.State) × (generate_recovery_code X s ≡ (ok code, t))
        × (length code ≡ 20)
  unfolding generate_recovery_code
  generate_recovery_code-ok s = recovery_chars-ok recovery_code_len s
