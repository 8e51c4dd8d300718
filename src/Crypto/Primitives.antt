-- ===== src/Crypto/Primitives.antt =====
-- The primitives that the program calls: AES-256-GCM and Argon2id, SHA-256 and base64, and the
-- formats of package fmt and package time.
use dropboy.Base.{ℕ, [], length, ◌+◌, Text, Option, some, ◌≡◌}

pub record Primitives : Type 0 where
  -- key, nonce, plaintext; a key of 32 bytes and a nonce of 12
  pub gcm_seal : Text → Text → Text → Text
  -- key, nonce, ciphertext; `none` when the message does not authenticate
  pub gcm_open : Text → Text → Text → Option Text
  -- argon2.IDKey for keys of 32 bytes: secret, salt, time, memory, threads
  pub argon2 : Text → Text → ℕ → ℕ → ℕ → Text
  pub sha256 : Text → Text
  pub base64_encode : Text → Text
  -- the bytes that DecodeString returns, also beside an error
  pub base64_decode : Text → Text
  -- "%d", and what Sscanf "%d" leaves in a variable that was 0
  pub format_int : ℕ → Text
  pub scan_int : Text → ℕ
  pub format_time : ℕ → Text

pub record IsLawful (P : Primitives) : Type 0 where
  pub open-seal :
      (key nonce plain : Text) → P.gcm_open key nonce (P.gcm_seal key nonce plain) ≡ some plain
  -- the authentication tag has 16 bytes
  pub length-seal :
      (key nonce plain : Text) → length (P.gcm_seal key nonce plain) ≡ length plain + 16
  pub length-argon2 :
      (secret salt : Text) (time memory threads : ℕ)
      → length (P.argon2 secret salt time memory threads) ≡ 32
  pub decode-encode : (b : Text) → P.base64_decode (P.base64_encode b) ≡ b
  pub encode-eq-nil : (b : Text) → P.base64_encode b ≡ [] → b ≡ []
