-- ===== src/Crypto/Keystore/Loading.antt =====
-- Loading a sealed master key.
use native.Mathlib.Decide.{ℕ_discrete}
use dropboy.Base.{
  Text, text_eq, codes, ◌==◌, if◌then◌else◌, none, some, ◌≡◌, refl, ◌∙◌, ap, arith, ==-refl, length,
  false, ==-of_ne, trim_prefix-append, join_path, inl, inr, ◌⊎◌, ltb, ◌||◌, nat_eq, Option-cases,
  ◌≤◌, Bool-cases,
}
use dropboy.Base.Outcome.{Exec, Outcome, ok, err, panic, bad_passphrase, wrapped, wrap, lift, ◌>>=◌}
use dropboy.Os.{Os, IsReliable}
use dropboy.Crypto.Primitives.{Primitives, IsLawful}
use dropboy.Crypto.Envelope.{new_gcm-eq-ok, open_sealed}
use dropboy.Crypto.Envelope.RoundTrip.{open_sealed-eq-ok, seal-open, generate_key_lem}
use dropboy.Crypto.Keystore.{
  SealedMaster, Fits, Blobs, key_path, recovery_key_path, derive_kek, derive_stored, seal_and_write,
  load_and_open, create_master_key, load_master_key, load_master_key_with_recovery,
  as_bad_passphrase,
}

-- The two files of a directory are two files.
paths_apart : (data_dir : Text) → (key_path data_dir == recovery_key_path data_dir) ≡ false
unfolding key_path recovery_key_path join_path
paths_apart data_dir = ==-of_ne (key_path data_dir) (recovery_key_path data_dir) (λ e. cc (
  trim_prefix-append data_dir (codes "/master.key"),
  trim_prefix-append data_dir (codes "/master.recovery.key"),
))

-- A message that does not authenticate counts as a wrong secret.
open_sealed-refused :
    (P : Primitives) (key nonce ct : Text)
    → length key ≡ 32
    → length nonce ≡ 12
    → P.gcm_open key nonce ct ≡ none
    → as_bad_passphrase (open_sealed P key nonce ct) ≡ err bad_passphrase
unfolding open_sealed
open_sealed-refused P key nonce ct h n e = ground (arith, new_gcm-eq-ok key h)

module _ (P : Primitives) (law : IsLawful P) (J : Blobs) (X : Os) (R : IsReliable X) where
  length-derive_kek : (secret salt : Text) → length (derive_kek P secret salt) ≡ 32
  unfolding derive_kek
  length-derive_kek secret salt = law.length-argon2 secret salt _ _ _

  -- A file that was written with a secret opens with that secret, and nothing else changed.
  seal_and_write_lem :
      (path secret master : Text) (s : X.State)
      → (blob : SealedMaster) × (t : X.State) × (seal_and_write P J X path secret master s
          ≡ (ok tt, t))
        × ((q : Text)
            → R.content t q ≡ (if q == path then some (J.marshal blob) else R.content s q))
        × (open_sealed P (derive_kek P secret blob.salt) blob.nonce blob.ciphertext ≡ ok master)
        × ((q : Text) → derive_stored P q blob ≡ ok (derive_kek P q blob.salt))
        × (blob.ciphertext ≡ P.gcm_seal (derive_kek P secret blob.salt) blob.nonce master)
        × (length blob.nonce ≡ 12)
        × Fits blob
  unfolding seal_and_write
  seal_and_write_lem path secret master s =
      let (salt, s₁, e₁, n₁, c₁) = R.random s 16 in
      let (ct, nonce, s₂, e₂, o₂, n₂, l₂, c₂, made) =
        seal-open P law X R (derive_kek P secret salt) master s₁ (length-derive_kek secret salt) in
      let blob : SealedMaster = record {
        salt = salt;
        nonce = nonce;
        ciphertext = ct;
        time = 3;
        memory = 65536;
        threads = 4;
      } in
      let (s₃, e₃, c₃) = R.write_file s₂ path (J.marshal blob) 0o600 in
      (
        blob,
        s₃,
        rw (e₁, e₂) e₃,
        λ q. c₃ q ∙ rw (c₂, c₁),
        o₂,
        unfold derive_stored derive_kek in λ q. refl,
        made,
        n₂,
        record { time = ground arith; memory = ground arith; threads = ground arith },
      )

  -- Loading reads the file and leaves the system as it was.
  load_and_open_lem :
      (path secret kek : Text) (blob : SealedMaster) (s : X.State)
      → Fits blob
      → R.content s path ≡ some (J.marshal blob)
      → derive_stored P secret blob ≡ ok kek
      → load_and_open P J X path secret s
        ≡ (as_bad_passphrase (open_sealed P kek blob.nonce blob.ciphertext), s)
  unfolding load_and_open
  load_and_open_lem path secret kek blob s fits h d =
      rw (R.read_file s path _ h, J.unmarshal-marshal blob fits, d)

  -- Where no call fails, a fresh master key has 32 bytes, and both the passphrase and the recovery
  -- code load that key again, each from its own file.
  pub create_master_key-load :
      (data_dir passphrase recovery_code : Text) (s : X.State)
      → (master : Text) × (t : X.State) × (create_master_key P J X data_dir passphrase recovery_code
            s
          ≡ (ok master, t))
        × (length master ≡ 32)
        × (load_master_key P J X data_dir passphrase t ≡ (ok master, t))
        × (load_master_key_with_recovery P J X data_dir recovery_code t ≡ (ok master, t))
  unfolding create_master_key load_master_key load_master_key_with_recovery
  create_master_key-load data_dir passphrase recovery_code s =
      let (s₁, e₁, c₁) = R.mkdir_all s data_dir 0o700 in
      let (master, s₂, e₂, m₂, c₂) = generate_key_lem P law X R s₁ in
      let (b₃, s₃, e₃, c₃, o₃, d₃, _, _, f₃) =
        seal_and_write_lem (key_path data_dir) passphrase master s₂ in
      let (b₄, s₄, e₄, c₄, o₄, d₄, _, _, f₄) =
        seal_and_write_lem (recovery_key_path data_dir) recovery_code master s₃ in
      (
        master,
        s₄,
        rw (e₁, e₂, e₃, e₄) refl,
        m₂,
        load_and_open_lem _ passphrase _ b₃ s₄ f₃ (c₄ _ ∙ rw (paths_apart data_dir, c₃, ==-refl))
              (d₃ passphrase)
            ∙ rw o₃,
        load_and_open_lem _ recovery_code _ b₄ s₄ f₄ (c₄ _ ∙ rw ==-refl) (d₄ recovery_code) ∙ rw o₄,
      )

  -- Where no call fails and no message sealed under a key of the passphrase opens under the key that
  -- the secret has for the same salt, the secret is answered with ErrBadPassphrase.
  pub load_master_key_wrong :
      (data_dir passphrase recovery_code secret : Text) (s : X.State)
      → ((salt n m : Text)
          → P.gcm_open (derive_kek P secret salt) n (P.gcm_seal (derive_kek P passphrase salt) n m)
            ≡ none)
      → (t : X.State) × ((create_master_key P J X data_dir passphrase recovery_code s).1 ≡ t)
        × (load_master_key P J X data_dir secret t ≡ (err bad_passphrase, t))
  unfolding create_master_key load_master_key
  load_master_key_wrong data_dir passphrase recovery_code secret s authentic =
      let (s₁, e₁, c₁) = R.mkdir_all s data_dir 0o700 in
      let (master, s₂, e₂, m₂, c₂) = generate_key_lem P law X R s₁ in
      let (b₃, s₃, e₃, c₃, o₃, d₃, made, n₃, f₃) =
        seal_and_write_lem (key_path data_dir) passphrase master s₂ in
      let (b₄, s₄, e₄, c₄, o₄, d₄, _, _, _) =
        seal_and_write_lem (recovery_key_path data_dir) recovery_code master s₃ in
      (
        s₄,
        rw (e₁, e₂, e₃, e₄) refl,
        load_and_open_lem _ secret _ b₃ s₄ f₃ (c₄ _ ∙ rw (paths_apart data_dir, c₃, ==-refl))
              (d₃ secret)
            ∙ rw (
              made,
              open_sealed-refused P _ b₃.nonce _ (length-derive_kek secret b₃.salt) n₃
                  (authentic b₃.salt b₃.nonce master),
            ),
      )

open_sealed-panics :
    (P : Primitives) (key nonce ct : Text)
    → length key ≡ 32
    → ¬ (length nonce ≡ 12)
    → open_sealed P key nonce ct ≡ panic
unfolding open_sealed
open_sealed-panics P key nonce ct h n = ground (arith, new_gcm-eq-ok key h)

-- What the parameters of a sealed key must be for it to be opened at all.
pub record IsWellFormed (blob : SealedMaster) : Type 0 where
  pub time : 1 ≤ blob.time
  pub threads : 1 ≤ blob.threads
  pub nonce : length blob.nonce ≡ 12

-- The answer to a file of these bytes, by what decoding them gives.
abbrev pub Answers : Outcome SealedMaster → Outcome Text → Type 0
Answers (ok blob) r =
    (IsWellFormed blob × (((master : Text) × (r ≡ ok master)) ⊎ (r ≡ err bad_passphrase)))
    ⊎ ((¬ IsWellFormed blob) × (r ≡ panic))
Answers (err e) r = r ≡ err (wrapped (codes "decode sealed key") e)
Answers panic r = r ≡ panic

module _ (P : Primitives) (law : IsLawful P) (J : Blobs) (X : Os) (R : IsReliable X) where
  -- Opening under a derived key: it works or the secret is wrong, but for a nonce of another size.
  open_stored :
      (kek nonce ct : Text)
      → length kek ≡ 32
      → ((length nonce ≡ 12)
          × (((master : Text) × (as_bad_passphrase (open_sealed P kek nonce ct) ≡ ok master))
              ⊎ (as_bad_passphrase (open_sealed P kek nonce ct) ≡ err bad_passphrase)))
        ⊎ ((¬ (length nonce ≡ 12)) × (as_bad_passphrase (open_sealed P kek nonce ct) ≡ panic))
  open_stored kek nonce ct h = elim (ℕ_discrete (length nonce) 12) [
    | yes sized ↦ elim (Option-cases (P.gcm_open kek nonce ct)) [
      | inl refused ↦ inl (sized, inr (open_sealed-refused P kek nonce ct h sized refused))
      | inr (master, opened) ↦ inl (
        sized,
        inl (master, ap as_bad_passphrase (open_sealed-eq-ok P kek nonce ct master h sized opened)),
      )
    ]
    | no other ↦ inr (other, ap as_bad_passphrase (open_sealed-panics P kek nonce ct h other))
  ]

  abbrev open_decoded_key : Text → Outcome SealedMaster → Exec X.State Text
  open_decoded_key secret decoded = do
    blob ← lift (wrap (codes "decode sealed key") decoded)
    kek ← lift (derive_stored P secret blob)
    lift (as_bad_passphrase (open_sealed P kek blob.nonce blob.ciphertext))

  -- A decoded key, opened under the key that the secret has with its parameters.
  open_decoded :
      (secret : Text) (decoded : Outcome SealedMaster) (s : X.State)
      → (r : Outcome Text) × (open_decoded_key secret decoded s ≡ (r, s)) × Answers decoded r
  unfolding derive_stored
  open_decoded secret (err e) s = (_, refl, refl)
  open_decoded secret panic s = (_, refl, refl)
  open_decoded secret (ok blob) s = elim (Bool-cases (ltb blob.time 1 || ltb blob.threads 1)) [
    | inl spent ↦ (panic, rw spent refl, inr (λ w. ground (arith, w.time, w.threads), refl))
    | inr set ↦
        let kek = P.argon2 secret blob.salt blob.time blob.memory blob.threads in
        (
          as_bad_passphrase (open_sealed P kek blob.nonce blob.ciphertext),
          rw set refl,
          elim (open_stored kek blob.nonce blob.ciphertext
              (law.length-argon2 secret blob.salt _ _ _)) [
                | inl (n, opened) ↦
                    inl (record { time = ground arith; threads = ground arith; nonce = n }, opened)
                | inr (n, e) ↦ inr (λ w. n w.nonce, e)
              ],
        )
  ]

  -- Whatever the bytes of a readable key file and whatever the secret: a file that decodes with at
  -- least one round, one lane and a nonce of 12 bytes either opens or is answered with
  -- ErrBadPassphrase; one that decodes otherwise panics; and an error of decoding is returned.
  -- Nothing changes.
  pub load_and_open-outcome :
      (path secret bytes : Text) (s : X.State)
      → R.content s path ≡ some bytes
      → (r : Outcome Text) × (load_and_open P J X path secret s ≡ (r, s))
        × Answers (J.unmarshal bytes) r
  unfolding load_and_open
  load_and_open-outcome path secret bytes s h =
      rw (R.read_file s path bytes h) (open_decoded secret (J.unmarshal bytes) s)
