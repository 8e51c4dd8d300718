-- ===== src/Daemon/Unlocking.antt =====
-- The unlock route of the API on the daemon.
use dropboy.Base.{
  Text, text_eq, nat_eq, codes, ◌==◌, Bool, true, false, Option, none, some, [], ◌≡◌, refl, ◌⊎◌,
  inl, inr, is_some,
}
use dropboy.Base.Outcome.{Done, Outcome, ok, err, panic}
use dropboy.Crypto.Keystore.{Blobs}
use dropboy.Sync.Engine.{Env}
use dropboy.Sync.Reconcile.{Ranges}
use dropboy.Server.Answer.{Answer, granted, refused}
use dropboy.Server.Api.{System, Server, Reply, unlocked}
use dropboy.Server.Api.Control.{UnlockPayload, handle_unlock, on_ready}
use dropboy.Daemon.{Services, Daemon, Process, unlock}
use dropboy.Daemon.Goes.{After, Unlocked}
use dropboy.Daemon.Locking.{unlock-Unlocked}
use dropboy.Daemon.Adapter.{as_engine}

module _ (E : Env) (J : Blobs) (K : Services) (glob : Text → Text → Bool) (ranges : Ranges)
    (X : System) where
  -- The answer of the route to a passphrase, and the daemon that it leaves of `d`.
  abbrev pub Answers : Daemon → Bool → Answer Reply → Option (Process E J K) → Type 0
  Answers d remember a none = ⊥
  Answers d remember a (some q) =
      ((a ≡ granted (unlocked remember)) × Unlocked d q.daemon)
      ⊎ ((msg : Text) × (a ≡ refused 401 msg) × (q.daemon ≡ d))
      ⊎ ((a ≡ refused 500 (codes "internal error"))
          × ((q.daemon ≡ d) ⊎ (is_some q.daemon.engine ≡ true)))

  answered :
      (passphrase : Text) (remember : Bool) (s : Server (as_engine E J K glob ranges) X)
      (p q : Process E J K) (r : Outcome Done)
      → s.engine ≡ some p
      → (passphrase == []) ≡ false
      → unlock E J K passphrase remember p ≡ (r, q)
      → After p.daemon (Unlocked p.daemon) r q.daemon
      → let payload : UnlockPayload = record { passphrase = passphrase; remember = remember } in
        let (a, t) = handle_unlock (as_engine E J K glob ranges) X (ok payload) s in
        Answers p.daemon remember a t.engine
  unfolding handle_unlock on_ready
  answered passphrase remember s p q (ok _) served given runs left =
      rw given (rw served (rw runs (inl (refl, left))))
  answered passphrase remember s p q (err e) served given runs left =
      rw given (rw served (rw runs (inr (inl (_, refl, left)))))
  answered passphrase remember s p q panic served given runs left =
      rw given (rw served (rw runs (inr (inr (refl, left)))))

  -- On a server whose engine is a daemon that has no sync engine yet, the unlock route with a
  -- passphrase that is not empty answers in one of three ways: it says that the daemon is unlocked, and
  -- then its bucket is configured, it has an engine for the master key that it keeps, is not locked,
  -- and has its loop started; or it refuses with 401 and leaves the daemon as it was; or a panic is
  -- answered with 500, and the daemon is as it was or has an engine.
  pub handle_unlock-Answers :
      (passphrase : Text) (remember : Bool) (s : Server (as_engine E J K glob ranges) X)
      (p : Process E J K)
      → s.engine ≡ some p
      → p.daemon.engine ≡ none
      → (passphrase == []) ≡ false
      → let payload : UnlockPayload = record { passphrase = passphrase; remember = remember } in
        let (a, t) = handle_unlock (as_engine E J K glob ranges) X (ok payload) s in
        Answers p.daemon remember a t.engine
  handle_unlock-Answers passphrase remember s p served idle given =
      answered passphrase remember s p _ _ served given refl
        (unlock-Unlocked E J K passphrase [] remember p idle).0
