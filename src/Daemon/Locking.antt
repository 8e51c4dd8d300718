-- ===== src/Daemon/Locking.antt =====
-- Daemon.Unlock and Daemon.UnlockWithRecovery: what they leave, also when they fail.
use dropboy.Base.{
  inr, Text, text_eq, Bool, true, false, none, [], ◌≡◌, ◌≢◌, refl, ap, ne_of_==, is_some,
}
use dropboy.Base.Outcome.{
  Exec, Done, Outcome, ok, err, panic, pure, continue, optional, trying, ◌>>=◌, ◌>>◌,
}
use dropboy.Crypto.Keystore.{Blobs}
use dropboy.Sync.Engine.{Env}
use dropboy.Daemon.{
  Services, Daemon, Options, Process, on_services, on_daemon, start_reconcile_loop,
  init_engine_with_master, load_or_create_master, load_master_with_recovery, init_engine, unlock,
  unlock_with_recovery,
}
use dropboy.Daemon.Goes.{
  online, serving, opened, started, After, Engaged, Unlocked, Goes, goes_rules, continue_sure,
  Goes-daemon, Goes-else, Goes-bind,
}

module _ (E : Env) (J : Blobs) (K : Services) where
  init_engine_with_master-Goes :
      (master : Text) (d : Daemon) → Goes E J K d (Engaged d) (init_engine_with_master E J K master)
  unfolding init_engine_with_master
  init_engine_with_master-Goes master d = search (goes_rules, ne_of_==) depth 20

  load_or_create_master-Goes :
      (pass : Text) (d : Daemon) → Goes E J K d (λ e. e ≡ d) (load_or_create_master E J K pass)
  unfolding load_or_create_master
  load_or_create_master-Goes pass d = search goes_rules depth 20

  load_master_with_recovery-Goes :
      (code : Text) (d : Daemon) → Goes E J K d (λ e. e ≡ d) (load_master_with_recovery E J K code)
  unfolding load_master_with_recovery
  load_master_with_recovery-Goes code d = search goes_rules depth 20

  pub init_engine-Goes :
      (opts : Options) (pass : Text) (d : Daemon)
      → Goes E J K d (Engaged d) (init_engine E J K opts pass)
  unfolding init_engine
  init_engine-Goes opts pass d =
      search (goes_rules, load_or_create_master-Goes, init_engine_with_master-Goes) depth 20

  -- The end of Unlock: no step of it returns an error.
  remembered :
      (d : Daemon) (r : Outcome Done) (q : Process E J K)
      → (master : Text) × (q.daemon ≡ record (online master d) { locked = false })
      → d.cfg.bucket ≢ []
      → let (a, t) = continue {B = Done} (optional r) (λ _. pure tt) q in
        let (b, u) = continue a (λ _. start_reconcile_loop E J K) t in
        After d (Unlocked d) b u.daemon
  remembered d (ok _) q (master, same) set = (set, (master, ap started same))
  remembered d (err e) q (master, same) set = (set, (master, ap started same))
  remembered d panic q (master, same) set = inr (rw same refl)

  -- The steps that follow the engine's start in one of the two calls.
  record Serves (d : Daemon) (m : Exec (Process E J K) Done) : Type 0 where
    pub at : (q : Process E J K) → Engaged d q.daemon → After d (Unlocked d) (m q).0 (m q).1.daemon

  Serves-remember :
      (d : Daemon) (m : Exec K.State Done)
      → Serves d (
          on_daemon E J K opened
          >> ((on_services E J K (trying m) >> pure tt) >> start_reconcile_loop E J K))
  Serves-remember d m = record {
    at = λ q (set, (master, same)). remembered d (m q.services).0 _ (master, ap opened same) set;
  }

  Serves-open :
      (d : Daemon) → Serves d (on_daemon E J K opened >> (pure tt >> start_reconcile_loop E J K))
  Serves-open d = record { at = λ q (set, (master, same)). (set, (master, ap serving same)) }

  Serves-recover : (d : Daemon) → Serves d (on_daemon E J K opened >> start_reconcile_loop E J K)
  Serves-recover d = record { at = λ q (set, (master, same)). (set, (master, ap serving same)) }

  Goes-after :
      (d : Daemon) (m : Exec (Process E J K) Done) (f : Done → Exec (Process E J K) Done)
      → Goes E J K d (Engaged d) m
      → Serves d (f tt)
      → Goes E J K d (Unlocked d) (m >>= f)
  Goes-after d m f g k = record {
    at = λ q same. continue_sure E J K d _ _ (m q).0 f (m q).1 (g.at q same) k.at;
  }

  unlock-Goes :
      (passphrase : Text) (remember : Bool) (d : Daemon)
      → is_some d.engine ≡ false
      → Goes E J K d (Unlocked d) (unlock E J K passphrase remember)
  unfolding unlock
  unlock-Goes passphrase true d h =
      search (Goes-daemon, Goes-else, Goes-after, init_engine-Goes, Serves-remember) depth 20
  unlock-Goes passphrase false d h =
      search (Goes-daemon, Goes-else, Goes-after, init_engine-Goes, Serves-open) depth 20

  unlock_with_recovery-Goes :
      (code : Text) (d : Daemon)
      → is_some d.engine ≡ false
      → Goes E J K d (Unlocked d) (unlock_with_recovery E J K code)
  unfolding unlock_with_recovery
  unlock_with_recovery-Goes code d h =
      search
        (
          Goes-daemon, Goes-else, Goes-bind, load_master_with_recovery-Goes, Goes-after,
          init_engine_with_master-Goes, Serves-recover,
        )
        depth 20

  -- Called on a daemon without an engine, Unlock and UnlockWithRecovery either return an error and
  -- leave the daemon as it is, or return no error, and then the bucket is configured and the daemon
  -- has an engine for the master key that it keeps, is not locked, and has its loop started. A call
  -- that panics leaves the daemon as it is or with an engine.
  pub unlock-Unlocked :
      (passphrase code : Text) (remember : Bool) (p : Process E J K)
      → p.daemon.engine ≡ none
      → (let (r, q) = unlock E J K passphrase remember p in
          After p.daemon (Unlocked p.daemon) r q.daemon)
        × (let (r, q) = unlock_with_recovery E J K code p in
            After p.daemon (Unlocked p.daemon) r q.daemon)
  unlock-Unlocked passphrase code remember p h = (
    (unlock-Goes passphrase remember p.daemon (ap is_some h)).at p refl,
    (unlock_with_recovery-Goes code p.daemon (ap is_some h)).at p refl,
  )
