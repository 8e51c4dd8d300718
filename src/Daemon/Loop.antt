-- ===== src/Daemon/Loop.antt =====
-- runReconcileLoop of backend/internal/daemon/daemon.go, over the sequence of its wake-ups.
use dropboy.Base.{
  ℤ, pos, int_eq, scale, is_positive, ℕ, ◌*◌, nat_eq, Text, ◌==◌, if◌then◌else◌, Bool, true, List,
  [], ◌∷◌, ◌≡◌, refl,
}
use dropboy.Base.Outcome.{Exec, Done, Outcome, ok, panic, lift, pure, gets, ◌>>=◌, ◌>>◌}
use dropboy.Config.{Config}
use dropboy.Crypto.Keystore.{Blobs}
use dropboy.Sync.Engine.{Env}
use dropboy.Sync.Reconcile.{Ranges}
use dropboy.Daemon.{Services, Process, reconcile}

abbrev second : ℕ
second = 1000000000

-- The intervals of the two tickers, in nanoseconds, where they fit an int64.
unfoldable pub remote_interval : Config → ℤ
remote_interval cfg =
    let remote = scale second cfg.poll.remote_seconds in
    if remote == pos 0 then pos (60 * second) else remote

unfoldable pub full_interval : Config → ℤ
full_interval cfg =
    let full = scale (60 * second) cfg.poll.full_scan_minutes in
    if full == pos 0 then pos (15 * (60 * second)) else full

-- time.NewTicker panics on an interval that is not positive.
unfoldable pub new_ticker : ℤ → Outcome Done
new_ticker interval = if is_positive interval then ok tt else panic

-- What wakes the loop: the watcher, or one of the tickers.
pub data Wake : Type 0 where
  tick : Wake
  remote : Wake
  full : Wake

module _ (E : Env) (J : Blobs) (K : Services) (glob : Text → Text → Bool) (ranges : Ranges) where
  -- One turn of the select, which does the same for each of the three.
  unfoldable pub wake : Wake → Exec (Process E J K) Done
  wake w = do d ← gets (λ p. p.daemon); if d.paused then pure tt else reconcile E J K glob ranges

  wakes : List Wake → Exec (Process E J K) Done
  unfolding wake
  wakes [] = pure tt
  wakes (w ∷ ws) = do wake w; wakes ws

  -- The loop from its start until the context is cancelled, after these wake-ups.
  unfoldable pub run_reconcile_loop : List Wake → Exec (Process E J K) Done
  unfolding wakes
  run_reconcile_loop ws = do
    d ← gets (λ p. p.daemon)
    lift (new_ticker (remote_interval d.cfg))
    lift (new_ticker (full_interval d.cfg))
    reconcile E J K glob ranges
    wakes ws

  -- A paused daemon is left as it is by any wake-ups.
  paused_wakes :
      (ws : List Wake) (p : Process E J K) → p.daemon.paused ≡ true → wakes ws p ≡ (ok tt, p)
  unfolding wakes
  paused_wakes [] p h = refl
  paused_wakes (w ∷ ws) p h = simp h (paused_wakes ws p h)
