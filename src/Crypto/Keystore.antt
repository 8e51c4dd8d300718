-- ===== src/Crypto/Keystore.antt =====
-- backend/internal/crypto/keystore.go. `Blobs` is encoding/json for the sealed key.
pub mod Loading
pub mod Codes
use dropboy.Base.{
  ℕ, zero, suc, ◌*◌, Text, codes, if◌then◌else◌, Bool, true, false, ◌||◌, Option, none, some, List,
  [], ◌∷◌, ◌++◌, length, ltb, join_path, ◌≡◌, ◌<◌,
}
use dropboy.Base.Outcome.{
  Exec, Done, Outcome, ok, err, panic, bad_passphrase, wrap, wrapping, lift, pure, trying, ◌>>=◌,
  ◌>>◌,
}
use dropboy.Os.{Os, FileInfo}
use dropboy.Crypto.Primitives.{Primitives}
use dropboy.Crypto.Envelope.{generate_key, seal, open_sealed}

abbrev pub salt_size : ℕ
salt_size = 16

abbrev pub argon_time : ℕ
argon_time = 3

abbrev pub argon_mem : ℕ
argon_mem = 64 * 1024

abbrev pub argon_thread : ℕ
argon_thread = 4

abbrev pub recovery_code_len : ℕ
recovery_code_len = 20

abbrev pub recovery_alphabet : Text
recovery_alphabet = codes "abcdefghjkmnpqrstuvwxyzABCDEFGHJKLMNPQRSTUVWXYZ23456789"

pub record SealedMaster : Type 0 where
  pub salt : Text
  pub nonce : Text
  pub ciphertext : Text
  pub time : ℕ
  pub memory : ℕ
  pub threads : ℕ

-- Time and Memory are of type uint32, and Threads is of type uint8.
pub record Fits (b : SealedMaster) : Type 0 where
  pub time : b.time < 4294967296
  pub memory : b.memory < 4294967296
  pub threads : b.threads < 256

-- Unmarshal refuses a number that does not fit its field.
pub record Blobs : Type 0 where
  pub marshal : SealedMaster → Text
  pub unmarshal : Text → Outcome SealedMaster
  pub unmarshal-Fits : (bytes : Text) (b : SealedMaster) → unmarshal bytes ≡ ok b → Fits b
  pub unmarshal-marshal : (b : SealedMaster) → Fits b → unmarshal (marshal b) ≡ ok b

unfoldable pub key_path : Text → Text
key_path data_dir = join_path data_dir (codes "master.key")

unfoldable pub recovery_key_path : Text → Text
recovery_key_path data_dir = join_path data_dir (codes "master.recovery.key")

-- The byte of the alphabet at an index; an index out of range panics.
unfoldable pub char_at : Text → ℕ → Outcome ℕ
char_at [] i = panic
char_at (c ∷ s) zero = ok c
char_at (c ∷ s) (suc i) = char_at s i

module _ (X : Os) where
  -- The loop of GenerateRecoveryCode over the bytes that are left.
  recovery_chars : ℕ → Exec X.State Text
  unfolding char_at
  recovery_chars zero = pure []
  recovery_chars (suc n) = do
    i ← wrapping (codes "recovery code") (X.random_int (length recovery_alphabet))
    c ← lift (char_at recovery_alphabet i)
    rest ← recovery_chars n
    pure (c ∷ rest)

  unfoldable pub generate_recovery_code : Exec X.State Text
  unfolding recovery_chars
  generate_recovery_code = recovery_chars recovery_code_len

  -- Whether the file is there, to judge by Stat.
  has_file : Text → Exec X.State Bool
  has_file path = do
    found ← trying (X.stat path)
    pure (elim found [ none ↦ false | some _ ↦ true ])

  unfoldable pub has_master_key : Text → Exec X.State Bool
  unfolding has_file
  has_master_key data_dir = has_file (key_path data_dir)

  unfoldable pub has_recovery_key : Text → Exec X.State Bool
  unfolding has_file
  has_recovery_key data_dir = has_file (recovery_key_path data_dir)

module _ (P : Primitives) where
  unfoldable pub derive_kek : Text → Text → Text
  derive_kek secret salt = P.argon2 secret salt argon_time argon_mem argon_thread

  -- argon2.IDKey with the parameters of a file, which panics on no rounds or no lanes.
  unfoldable pub derive_stored : Text → SealedMaster → Outcome Text
  derive_stored secret blob =
      if ltb blob.time 1 || ltb blob.threads 1
      then panic
      else ok (P.argon2 secret blob.salt blob.time blob.memory blob.threads)

-- Every error of `open` counts as a wrong secret.
abbrev as_bad_passphrase : Outcome Text → Outcome Text
as_bad_passphrase (ok master) = ok master
as_bad_passphrase (err e) = err bad_passphrase
as_bad_passphrase panic = panic

module _ (P : Primitives) (J : Blobs) (X : Os) where
  unfoldable pub seal_and_write : Text → Text → Text → Exec X.State Done
  seal_and_write path secret master = do
    salt ← wrapping (codes "salt") (X.random salt_size)
    (ct, nonce) ← seal P X (derive_kek P secret salt) master
    X.write_file path
        (J.marshal (record {
          salt = salt;
          nonce = nonce;
          ciphertext = ct;
          time = argon_time;
          memory = argon_mem;
          threads = argon_thread;
        }))
        0o600

  unfoldable pub load_and_open : Text → Text → Exec X.State Text
  load_and_open path secret = do
    bytes ← wrapping (codes "read sealed key") (X.read_file path)
    blob ← lift (wrap (codes "decode sealed key") (J.unmarshal bytes))
    kek ← lift (derive_stored P secret blob)
    lift (as_bad_passphrase (open_sealed P kek blob.nonce blob.ciphertext))

  unfoldable pub create_master_key : Text → Text → Text → Exec X.State Text
  create_master_key data_dir passphrase recovery_code = do
    X.mkdir_all data_dir 0o700
    master ← generate_key X
    seal_and_write (key_path data_dir) passphrase master
    seal_and_write (recovery_key_path data_dir) recovery_code master
    pure master

  unfoldable pub load_master_key : Text → Text → Exec X.State Text
  load_master_key data_dir passphrase = load_and_open (key_path data_dir) passphrase

  unfoldable pub load_master_key_with_recovery : Text → Text → Exec X.State Text
  load_master_key_with_recovery data_dir recovery_code =
      load_and_open (recovery_key_path data_dir) recovery_code

  unfoldable pub add_recovery_key : Text → Text → Text → Exec X.State Done
  add_recovery_key data_dir recovery_code master =
      seal_and_write (recovery_key_path data_dir) recovery_code master
