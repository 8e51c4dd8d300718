-- ===== src/Cli/Init.antt =====
-- backend/internal/cli/init.go: the questions of the set-up, and what it writes. The standard input is
-- its lines; a text without a newline at the end of it counts as the end. `Words` is what the code
-- calls of strings and os.
use dropboy.Base.{
  ◌++◌, long_dash, ℕ, zero, suc, Text, text_eq, nat_eq, codes, ◌==◌, if◌then◌else◌, Bool, true,
  false, not, ◌&&◌, ◌||◌, has_prefix, map, length, Option, none, some, List, [], ◌∷◌,
}
use dropboy.Base.Outcome.{
  Exec, Done, Outcome, ok, err, panic, Error, message, not_initialized, wrapping, lift, pure, fail,
  continue, ◌>>=◌, ◌>>◌, trying,
}
use dropboy.Os.{Os}
use dropboy.Config
use dropboy.Config.{Config}
use dropboy.Config.Files.{Yaml, load, save, dir}
use dropboy.Crypto.Primitives.{Primitives}
use dropboy.Crypto.Keystore.{
  Blobs, char_at, has_master_key, generate_recovery_code, create_master_key,
}
pub mod Asking
pub mod Keys

pub record Words (S : Type 0) : Type 0 where
  pub trim_space : Text → Text
  pub to_lower : Text → Text
  -- `host, _ := os.Hostname()`
  pub hostname : S → Text × S

-- strings.TrimSuffix
unfoldable pub trim_suffix : Text → Text → Text
trim_suffix [] suffix = []
trim_suffix (c ∷ s) suffix =
    let rest = trim_suffix s suffix in if (c ∷ s) == suffix then [] else c ∷ rest

-- strings.ReplaceAll of one byte by another
unfoldable pub replace_byte : ℕ → ℕ → Text → Text
replace_byte old new = map (λ c. if c == old then new else c)

pub passphrase_alphabet : Text
passphrase_alphabet = codes "abcdefghjkmnpqrstuvwxyzABCDEFGHJKLMNPQRSTUVWXYZ23456789"

module _ (X : Os) where
  unfoldable pub generate_passphrase : ℕ → Exec X.State Text
  unfolding char_at
  generate_passphrase zero = pure []
  generate_passphrase (suc n) = do
    i ← X.random_int (length passphrase_alphabet)
    c ← lift (char_at passphrase_alphabet i)
    rest ← generate_passphrase n
    pure (c ∷ rest)

module _ {S : Type 0} (W : Words S) where
  -- The answer, and the lines that are left. The label is only printed.
  unfoldable pub prompt : Text → Bool → List Text → Text × List Text
  prompt def required [] = (def, [])
  prompt def required (typed ∷ lines) =
      let line = W.trim_space typed in
      let again = prompt def required lines in
      if line == []
      then (if not (def == []) || not required then (def, lines) else again)
      else (line, lines)

  -- The loop of showRecoveryCode, none while it still asks when the fuel is used up.
  unfoldable pub show_recovery_code : ℕ → List Text → Option (List Text)
  unfolding prompt
  show_recovery_code zero lines = none
  show_recovery_code (suc fuel) lines =
      let (ack, rest) = prompt [] true lines in
      let again = show_recovery_code fuel rest in
      if W.to_lower ack == codes "saved" then some rest else again

  unfoldable pub sanitize_machine_id : Text → Text
  unfolding trim_suffix replace_byte
  sanitize_machine_id host = replace_byte b' ' b'-' (trim_suffix (W.to_lower host) (codes ".local"))

-- The command, over the system and the lines of the standard input.
module _ (P : Primitives) (J : Blobs) (X : Os) (Y : Yaml) (home : Exec X.State Text)
    (W : Words X.State) where
  pub record Session : Type 0 where
    pub os : X.State
    pub lines : List Text

  module _ {A : Type 0} where
    abbrev pub on_os : Exec X.State A → Exec Session A
    on_os m s = let (r, t) = m s.os in (r, record s { os = t })

  unfoldable pub ask : Text → Bool → Exec Session Text
  unfolding prompt
  ask def required s =
      let (answer, rest) = prompt W def required s.lines in (ok answer, record s { lines = rest })

  -- `config.ErrNotInitialized` is compared with ==.
  or_default : Outcome Config → Outcome Config
  or_default (ok cfg) = ok cfg
  or_default (err not_initialized) = ok Config.default
  or_default (err e) = err e
  or_default panic = panic

  unfoldable pub load_or_default : Exec X.State Config
  unfolding or_default
  load_or_default s = let (r, t) = load X Y home s in (or_default r, t)

  -- die with a label and an error
  dying : {A : Type 0} → Text → Exec Session A → Exec Session A
  dying label = wrapping label

  unfoldable pub prompt_passphrase : Exec Session Text
  unfolding ask generate_passphrase dying
  prompt_passphrase = do
    answer ← ask (codes "Y") false
    let gen = W.to_lower answer
    if gen == [] || has_prefix gen (codes "y")
        then (do
          generated ← dying (codes "generate passphrase") (on_os (generate_passphrase X 20))
          ack ← ask [] true
          if W.to_lower ack == codes "saved"
              then pure generated
              else fail (
                  message (
                    codes "aborted " ++ (long_dash ++ codes " passphrase not confirmed as saved"))))
        else (do
          pass1 ← ask [] true
          pass2 ← ask [] true
          if pass1 == pass2 then pure pass1 else fail (message (codes "passphrases do not match")))

  abbrev shown : Option (List Text) → Exec Session Done
  shown none s = (panic, s)
  shown (some rest) s = (ok tt, record s { lines = rest })

  -- showRecoveryCode; a run that still asks when the fuel is used up is a panic.
  unfoldable pub confirm_recovery_code : ℕ → Exec Session Done
  unfolding show_recovery_code
  confirm_recovery_code fuel s = shown (show_recovery_code W fuel s.lines) s

  -- The branch of a machine without a master key.
  unfoldable pub create_keys : ℕ → Text → Exec Session Done
  unfolding prompt_passphrase confirm_recovery_code dying
  create_keys fuel data_dir = do
    passphrase ← prompt_passphrase
    code ← dying (codes "generate recovery code") (on_os (generate_recovery_code X))
    master ←
        dying (codes "create master key") (on_os (create_master_key P J X data_dir passphrase code))
    confirm_recovery_code fuel

  unfoldable pub run_interactive_init : ℕ → Config → Exec Session Done
  unfolding ask sanitize_machine_id create_keys dying
  run_interactive_init fuel cfg = do
    bucket ← ask cfg.bucket true
    region ← ask cfg.region false
    profile ← ask cfg.aws_profile false
    host ← on_os (λ s. let (h, t) = W.hostname s in (ok h, t))
    machine_id ←
        ask (if cfg.machine_id == [] then sanitize_machine_id W host else cfg.machine_id) true
    data_dir ← dying (codes "data dir") (on_os (dir X Y home))
    sealed ← on_os (has_master_key X data_dir)
    if sealed then pure tt else create_keys fuel data_dir
    on_os (
        save X Y home (record cfg {
          bucket = bucket;
          region = region;
          aws_profile = profile;
          machine_id = machine_id;
        }))

  -- The command init, by its flag.
  unfoldable pub run_init : ℕ → Bool → Exec Session Done
  unfolding load_or_default run_interactive_init
  run_init fuel non_interactive = do
    cfg ← on_os load_or_default
    if non_interactive then on_os (save X Y home cfg) else run_interactive_init fuel cfg
