-- ===== src/Daemon.antt =====
-- backend/internal/daemon/daemon.go: the process that owns the engine. The mutex makes each call
-- of Unlock and UnlockWithRecovery one step; the HTTP server runs in the `Server` modules.
pub mod Goes
pub mod Locking
pub mod Running
pub mod Adapter
pub mod Loop
pub mod Unlocking
use dropboy.Base.{
  ◌++◌, long_dash, ℕ, ◌*◌, Text, text_eq, nat_eq, codes, ◌==◌, if◌then◌else◌, Bool, true, false,
  ◌||◌, ◌&&◌, not, Option, none, some, List, [], ◌∷◌, is_some, join_path, map,
}
use dropboy.Base.Outcome.{
  Exec, Done, Error, Outcome, ok, err, panic, message, wrap, wrapping, wrapped, pure, lift, gets,
  fail, trying, continue, ◌>>=◌, ◌>>◌,
}
use dropboy.Config.{Config}
use dropboy.Crypto.Keystore.{
  Blobs, has_master_key, has_recovery_key, load_master_key, load_master_key_with_recovery,
}
use dropboy.Sync.Ops.{Op}
use dropboy.Sync.Engine.{Env, World, Engine, new_engine, resolve_conflict}
use dropboy.Sync.Reconcile.{Ranges, reconcile_once}

-- The keychain, and the constructors of the store and of the S3 client.
pub record Services : Type 1 where
  pub State : Type 0
  pub keychain_get : Text → Exec State Text
  pub keychain_set : Text → Text → Exec State Done
  pub keychain_delete : Text → Exec State Done
  pub open_store : Text → Exec State Done
  pub close_store : Exec State Done
  -- bucket, region, profile
  pub new_client : Text → Text → Text → Exec State Done

pub record Daemon : Type 0 where
  pub cfg : Config
  pub data_dir : Text
  pub engine : Option Engine
  pub master : Text
  pub loop_started : Bool
  pub paused : Bool
  pub locked : Bool

pub record Options : Type 0 where
  pub passphrase : Text
  pub no_s3 : Bool
  pub no_sync : Bool

-- New
unfoldable pub new_daemon : Config → Text → Daemon
new_daemon cfg data_dir = record {
  cfg = cfg;
  data_dir = data_dir;
  engine = none;
  master = [];
  loop_started = false;
  paused = false;
  locked = false;
}

unfoldable pub passphrase_account : Daemon → Text
passphrase_account d = if not (d.cfg.machine_id == []) then d.cfg.machine_id else codes "default"

abbrev not_configured : Error
not_configured = message (codes "S3 not configured (run `dropboy init`)")

module _ (E : Env) (J : Blobs) (K : Services) where
  pub record Process : Type 0 where
    pub os : E.os.State
    pub db : E.db.State
    pub cloud : E.cloud.State
    pub services : K.State
    pub daemon : Daemon

  module _ {A : Type 0} where
    abbrev pub on_os : Exec E.os.State A → Exec Process A
    on_os m p = let (r, s) = m p.os in (r, record p { os = s })

    abbrev pub on_services : Exec K.State A → Exec Process A
    on_services m p = let (r, s) = m p.services in (r, record p { services = s })

  abbrev pub on_daemon : (Daemon → Daemon) → Exec Process Done
  on_daemon f p = (ok tt, record p { daemon = f p.daemon })

  -- `if err != nil { _ = st.Close(); return … }`
  abbrev or_close : Outcome Done → Exec Process Done
  or_close (ok _) = pure tt
  or_close (err e) = do on_services (trying K.close_store); fail (wrapped (codes "s3 client") e)
  or_close panic = lift panic

  unfoldable pub init_engine_with_master : Text → Exec Process Done
  init_engine_with_master master = do
    d ← gets (λ p. p.daemon)
    if d.cfg.bucket == [] then fail not_configured else do
      wrapping (codes "state db")
          (on_services (K.open_store (join_path d.data_dir (codes "state.db"))))
      client ← on_services (λ s.
          let (r, s') = K.new_client d.cfg.bucket d.cfg.region d.cfg.aws_profile s in (ok r, s'))
      or_close client
      on_daemon λ d. record d {
        master = master;
        engine = some (new_engine d.cfg master d.cfg.machine_id);
      }

  unfoldable pub load_or_create_master : Text → Exec Process Text
  load_or_create_master pass = do
    dir ← gets (λ p. p.daemon.data_dir)
    sealed ← on_os (has_master_key E.os dir)
    if not sealed
        then fail (
            message
              (codes "encryption not initialized " ++ (long_dash ++ codes " run `dropboy init`")))
        else if pass == []
        then fail (message (codes "encryption passphrase required"))
        else on_os (load_master_key E.primitives J E.os dir pass)

  unfoldable pub load_master_with_recovery : Text → Exec Process Text
  load_master_with_recovery code = do
    dir ← gets (λ p. p.daemon.data_dir)
    sealed ← on_os (has_recovery_key E.os dir)
    if not sealed
        then fail (
            message (
              codes "no recovery key on disk "
              ++ (long_dash ++ codes " this install predates recovery codes")))
        else if code == []
        then fail (message (codes "recovery code required"))
        else on_os (load_master_key_with_recovery E.primitives J E.os dir code)

  unfoldable pub init_engine : Options → Text → Exec Process Done
  init_engine opts pass = do
    d ← gets (λ p. p.daemon)
    if opts.no_s3 || d.cfg.bucket == []
        then fail not_configured
        else do master ← load_or_create_master pass; init_engine_with_master master

  -- The Once lets the first call through; the loop itself calls `reconcile`.
  abbrev start_reconcile_loop : Exec Process Done
  start_reconcile_loop = on_daemon (λ d. record d { loop_started = true })

  -- The passphrase of Run: the option, or what the keychain has.
  unfoldable pub boot_passphrase : Options → Exec Process Text
  boot_passphrase opts = if not (opts.passphrase == []) then pure opts.passphrase else do
    account ← gets (λ p. passphrase_account p.daemon)
    found ← on_services (trying (K.keychain_get account))
    pure (elim found [ none ↦ [] | some v ↦ v ])

  -- What Run does before it serves.
  unfoldable pub boot : Options → Exec Process Done
  unfolding boot_passphrase
  boot opts = do
    pass ← boot_passphrase opts
    engine ← trying (init_engine opts pass)
    on_daemon (λ d. if is_some engine then d else record d { locked = true })
    d ← gets (λ p. p.daemon)
    if is_some d.engine && not opts.no_sync then start_reconcile_loop else pure tt

  abbrev default_options : Options
  default_options = record { passphrase = []; no_s3 = false; no_sync = false }

  unfoldable pub unlock : Text → Bool → Exec Process Done
  unlock passphrase remember = do
    d ← gets (λ p. p.daemon)
    if is_some d.engine then pure tt else do
      init_engine default_options passphrase
      on_daemon (λ d. record d { locked = false })
      (if remember
          then (do on_services (trying (K.keychain_set (passphrase_account d) passphrase)); pure tt)
          else pure tt)
      start_reconcile_loop

  unfoldable pub unlock_with_recovery : Text → Exec Process Done
  unlock_with_recovery code = do
    d ← gets (λ p. p.daemon)
    if is_some d.engine then pure tt else do
      master ← load_master_with_recovery code
      init_engine_with_master master
      on_daemon (λ d. record d { locked = false })
      start_reconcile_loop

  unfoldable pub forget_passphrase : Exec Process Done
  forget_passphrase = do
    account ← gets (λ p. passphrase_account p.daemon)
    on_services (K.keychain_delete account)

  unfoldable pub set_paused : Bool → Exec Process Done
  set_paused v = on_daemon (λ d. record d { paused = v })

  -- Engine.ReconcileOnce on the daemon's engine, which may be nil.
  on_engine : (Text → Text → Bool) → Ranges → Option Engine → Exec Process (List Op)
  on_engine glob ranges none p = (panic, p)
  on_engine glob ranges (some e) p =
      let w : World E = record { os = p.os; db = p.db; cloud = p.cloud; engine = e } in
      let (r, w') = reconcile_once E glob ranges w in
      (
        r,
        record p {
          os = w'.os;
          db = w'.db;
          cloud = w'.cloud;
          daemon = record p.daemon { engine = some w'.engine };
        },
      )

  module _ (glob : Text → Text → Bool) (ranges : Ranges) where
    unfoldable pub kick_sync : Exec Process Done
    unfolding on_engine
    kick_sync = do
      d ← gets (λ p. p.daemon)
      if not (is_some d.engine)
          then fail (message (codes "sync engine not running"))
          else do on_engine glob ranges d.engine; pure tt

    -- reconcileOnce prints an error and goes on.
    unfoldable pub reconcile : Exec Process Done
    unfolding on_engine
    reconcile = do d ← gets (λ p. p.daemon); trying (on_engine glob ranges d.engine); pure tt

  abbrev pub resolve_in : Text → Option Engine → Exec Process Bool
  resolve_in id none p = (ok false, p)
  resolve_in id (some e) p =
      let (e', found) = resolve_conflict id e in
      (ok found, record p { daemon = record p.daemon { engine = some e' } })

  -- ResolveConflict of the daemon
  unfoldable pub resolve : Text → Exec Process Bool
  resolve id p = resolve_in id p.daemon.engine p
