-- ===== src/Cli/Init/Keys.antt =====
-- The keys that the set-up makes open with the passphrase that it was given.
use dropboy.Base.{ℕ, Text, some, List, length, ◌≡◌}
use dropboy.Base.Outcome.{Exec, ok}
use dropboy.Os.{Os, IsReliable}
use dropboy.Config.Files.{Yaml}
use dropboy.Crypto.Primitives.{Primitives, IsLawful}
use dropboy.Crypto.Keystore.{Blobs, load_master_key, load_master_key_with_recovery}
use dropboy.Crypto.Keystore.Codes.{generate_recovery_code-ok}
use dropboy.Crypto.Keystore.Loading.{create_master_key-load}
use dropboy.Cli.Init.{
  Words, Session, show_recovery_code, prompt_passphrase, confirm_recovery_code, create_keys,
}

module _ (P : Primitives) (law : IsLawful P) (J : Blobs) (X : Os) (R : IsReliable X) (Y : Yaml)
    (home : Exec X.State Text) (W : Words X.State) where
  -- Where no call fails, a passphrase was chosen and the recovery code is confirmed, the set-up of the keys
  -- succeeds: the passphrase and a recovery code of twenty characters both load one master key of 32
  -- bytes from the files that it leaves.
  pub create_keys-load :
      (fuel : ℕ) (data_dir passphrase : Text) (s t : Session P J X Y home W) (rest : List Text)
      → prompt_passphrase P J X Y home W s ≡ (ok passphrase, t)
      → show_recovery_code W fuel t.lines ≡ some rest
      → (u : Session P J X Y home W) × (code : Text) × (master : Text) × (create_keys P J X Y home W
            fuel data_dir s
          ≡ (ok tt, u))
        × (length code ≡ 20)
        × (length master ≡ 32)
        × (load_master_key P J X data_dir passphrase u.os ≡ (ok master, u.os))
        × (load_master_key_with_recovery P J X data_dir code u.os ≡ (ok master, u.os))
  unfolding create_keys confirm_recovery_code
  create_keys-load fuel data_dir passphrase s t rest chosen confirmed =
      let (code, s₁, e₁, n₁) = generate_recovery_code-ok X R t.os in
      let (master, s₂, e₂, m₂, by_passphrase, by_code) =
        create_master_key-load P law J X R data_dir passphrase code s₁ in
      (
        record { os = s₂; lines = rest },
        code,
        master,
        rw (chosen, e₁, e₂, confirmed),
        n₁,
        m₂,
        by_passphrase,
        by_code,
      )
