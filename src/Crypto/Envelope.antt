-- ===== src/Crypto/Envelope.antt =====
-- backend/internal/crypto/envelope.go
pub mod RoundTrip
use dropboy.Base.{
  ℕ, Text, codes, nat_eq, ◌==◌, not, if◌then◌else◌, Option, none, some, length, ◌≡◌, arith,
}
use dropboy.Base.Outcome.{
  Exec, Done, Outcome, ok, err, panic, message, wrapped, wrap, wrapping, lift, pure, ◌>>=◌, ◌>>◌,
}
use dropboy.Os.{Os}
use dropboy.Crypto.Primitives.{Primitives}

abbrev pub key_size : ℕ
key_size = 32

abbrev pub nonce_size : ℕ
nonce_size = 12

pub record SealedDek : Type 0 where
  pub nonce : Text
  pub ciphertext : Text

-- The guard of newGCM; aes.NewCipher and cipher.NewGCM accept every key of this size.
unfoldable pub new_gcm : Text → Outcome Done
new_gcm key =
    if not (length key == key_size) then err (message (codes "invalid key size")) else ok tt

-- The guard passes for a key of 32 bytes, and for no other.
pub new_gcm-eq-ok : (key : Text) → length key ≡ 32 → new_gcm key ≡ ok tt
unfolding new_gcm
new_gcm-eq-ok key h = ground arith

module _ (P : Primitives) where
  decrypted : Option Text → Outcome Text
  decrypted none =
      err (wrapped (codes "decrypt") (message (codes "cipher: message authentication failed")))
  decrypted (some plain) = ok plain

  -- `open`. The AEAD panics on a nonce of another length than 12.
  unfoldable pub open_sealed : Text → Text → Text → Outcome Text
  unfolding decrypted
  open_sealed key nonce ciphertext = elim (new_gcm key) [
    | ok _ ↦
        if length nonce == nonce_size then decrypted (P.gcm_open key nonce ciphertext) else panic
    | err e ↦ err e
    | panic ↦ panic
  ]

  unfoldable pub unwrap_key : Text → SealedDek → Outcome Text
  unwrap_key master_key sealed =
      wrap (codes "unwrap key") (open_sealed master_key sealed.nonce sealed.ciphertext)

  unfoldable pub open_payload : Text → Text → Text → Outcome Text
  unfolding open_sealed
  open_payload dek nonce ciphertext = open_sealed dek nonce ciphertext

module _ (X : Os) where
  unfoldable pub generate_key : Exec X.State Text
  generate_key = wrapping (codes "generate key") (X.random key_size)

module _ (P : Primitives) (X : Os) where
  -- The ciphertext and the nonce.
  unfoldable pub seal : Text → Text → Exec X.State (Text × Text)
  seal key plaintext = do
    lift (new_gcm key)
    nonce ← wrapping (codes "nonce") (X.random nonce_size)
    pure (P.gcm_seal key nonce plaintext, nonce)

  unfoldable pub wrap_key : Text → Text → Exec X.State SealedDek
  wrap_key master_key dek = do
    (ct, nonce) ← wrapping (codes "wrap key") (seal master_key dek)
    pure (record { nonce = nonce; ciphertext = ct })

  unfoldable pub seal_payload : Text → Text → Exec X.State (Text × Text)
  unfolding seal
  seal_payload dek plaintext = seal dek plaintext
