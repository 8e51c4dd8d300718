-- ===== src/Crypto/Envelope/RoundTrip.antt =====
-- Opening what was sealed.
use dropboy.Base.{Text, nat_eq, ◌≡◌, refl, arith, length, ◌+◌, some}
use dropboy.Base.Outcome.{ok}
use dropboy.Os.{Os, IsReliable}
use dropboy.Crypto.Primitives.{Primitives, IsLawful}
use dropboy.Crypto.Envelope.{
  SealedDek, new_gcm-eq-ok, open_sealed, seal, wrap_key, unwrap_key, generate_key,
}

pub open_sealed-eq-ok :
    (P : Primitives) (key nonce ct plain : Text)
    → length key ≡ 32
    → length nonce ≡ 12
    → P.gcm_open key nonce ct ≡ some plain
    → open_sealed P key nonce ct ≡ ok plain
unfolding open_sealed
open_sealed-eq-ok P key nonce ct plain h n e = ground (arith, new_gcm-eq-ok key h)

module _ (P : Primitives) (law : IsLawful P) (X : Os) (R : IsReliable X) where
  pub seal-open :
      (key plain : Text) (s : X.State)
      → length key ≡ 32
      → (ct nonce : Text) × (t : X.State) × (seal P X key plain s ≡ (ok (ct, nonce), t))
        × (open_sealed P key nonce ct ≡ ok plain)
        × (length nonce ≡ 12)
        × (length ct ≡ length plain + 16)
        × ((q : Text) → R.content t q ≡ R.content s q)
        × (ct ≡ P.gcm_seal key nonce plain)
  unfolding seal
  seal-open key plain s h =
      let (nonce, t, e, n, same) = R.random s 12 in
      (
        P.gcm_seal key nonce plain,
        nonce,
        t,
        rw (new_gcm-eq-ok key h) (rw e),
        open_sealed-eq-ok P key nonce _ plain h n (law.open-seal key nonce plain),
        n,
        law.length-seal key nonce plain,
        same,
        refl,
      )

  -- A data key that was wrapped under a master key of 32 bytes is unwrapped by it.
  pub wrap_key-unwrap_key :
      (master_key dek : Text) (s : X.State)
      → length master_key ≡ 32
      → (sealed : SealedDek) × (t : X.State) × (wrap_key P X master_key dek s ≡ (ok sealed, t))
        × (unwrap_key P master_key sealed ≡ ok dek)
        × (length sealed.nonce ≡ 12)
        × (length sealed.ciphertext ≡ length dek + 16)
        × ((q : Text) → R.content t q ≡ R.content s q)
  unfolding wrap_key unwrap_key
  wrap_key-unwrap_key master_key dek s h =
      let (ct, nonce, t, e, o, n, l, same, _) = seal-open master_key dek s h in
      (record { nonce = nonce; ciphertext = ct }, t, rw e, rw o, n, l, same)

  -- A fresh key has 32 bytes.
  pub generate_key_lem :
      (s : X.State)
      → (key : Text) × (t : X.State) × (generate_key X s ≡ (ok key, t))
        × (length key ≡ 32)
        × ((q : Text) → R.content t q ≡ R.content s q)
  unfolding generate_key
  generate_key_lem s = let (key, t, e, n, same) = R.random s 32 in (key, t, rw e, n, same)
