-- ===== src/Config/Files.antt =====
-- Dir, Path, Load and Save of backend/internal/config/config.go. `Yaml` is gopkg.in/yaml.v3 for a
-- Config: Unmarshal fills in a config that has values already.
use dropboy.Base.{Text, text_eq, codes, ◌==◌, join_path, ◌≡◌, refl, ◌∙◌, ==-refl, false}
use dropboy.Base.Outcome.{
  Exec, Done, Outcome, ok, err, panic, not_exist, not_initialized, wrapped, wrap, wrapping, lift,
  pure, ◌>>=◌, ◌>>◌,
}
use dropboy.Os.{Os, IsReliable}
use dropboy.Config.{Config, default}

pub record Yaml : Type 0 where
  pub marshal : Config → Outcome Text
  pub unmarshal : Text → Config → Outcome Config

-- What Load makes of an error of ReadFile.
as_not_initialized : Outcome Text → Outcome Text
as_not_initialized (ok bytes) = ok bytes
as_not_initialized (err not_exist) = err not_initialized
as_not_initialized (err e) = err (wrapped (codes "read config") e)
as_not_initialized panic = panic

-- `home` is os.UserHomeDir.
module _ (X : Os) (Y : Yaml) (home : Exec X.State Text) where
  unfoldable pub dir : Exec X.State Text
  dir = do h ← home; pure (join_path h (codes ".dropboy"))

  unfoldable pub path : Exec X.State Text
  unfolding dir
  path = do d ← dir; pure (join_path d (codes "config.yaml"))

  unfoldable pub load : Exec X.State Config
  unfolding path as_not_initialized
  load = do
    p ← path
    bytes ← (λ s. let (r, s') = X.read_file p s in (as_not_initialized r, s'))
    lift (wrap (codes "parse config") (Y.unmarshal bytes default))

  unfoldable pub save : Config → Exec X.State Done
  unfolding dir
  save cfg = do
    d ← dir
    wrapping (codes "create config dir") (X.mkdir_all d 0o700)
    bytes ← lift (wrap (codes "marshal config") (Y.marshal cfg))
    wrapping (codes "write config") (X.write_file (join_path d (codes "config.yaml")) bytes 0o600)

  -- Where no call fails, the home directory is known, and the text of the config decodes to the config
  -- over any values, Save succeeds, Load then returns the config, and no other file has changed.
  pub save-load :
      (R : IsReliable X) (h text : Text) (cfg : Config) (s : X.State)
      → Y.marshal cfg ≡ ok text
      → ((old : Config) → Y.unmarshal text old ≡ ok cfg)
      → ((t : X.State) → home t ≡ (ok h, t))
      → (t : X.State) × (save cfg s ≡ (ok tt, t))
        × (load t ≡ (ok cfg, t))
        × ((q : Text)
            → (q == join_path (join_path h (codes ".dropboy")) (codes "config.yaml")) ≡ false
            → R.content t q ≡ R.content s q)
  unfolding save load path dir
  save-load R h text cfg s made back at_home =
      let (s₁, e₁, c₁) = R.mkdir_all s (join_path h (codes ".dropboy")) 0o700 in
      let file = join_path (join_path h (codes ".dropboy")) (codes "config.yaml") in
      let (s₂, e₂, c₂) = R.write_file s₁ file text 0o600 in
      (
        s₂,
        rw (at_home s, e₁, made, e₂) refl,
        rw (at_home s₂, R.read_file s₂ file text (c₂ file ∙ rw (==-refl file)), back default) refl,
        λ q other. c₂ q ∙ rw (other, c₁),
      )
