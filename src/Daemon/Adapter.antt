-- ===== src/Daemon/Adapter.antt =====
-- What the daemon gives the server as its engine: Conflicts and Stats of backend/internal/daemon/daemon.go
-- and the calls of Daemon.antt.
use dropboy.Base.{Text, Bool, false, Option, none, some, List, [], map}
use dropboy.Base.Outcome.{Outcome, ok}
use dropboy.Crypto.Keystore.{Blobs}
use dropboy.Sync
use dropboy.Sync.Engine.{Env, Engine}
use dropboy.Sync.Reconcile.{Ranges}
use dropboy.Server
use dropboy.Server.Api.{EngineStats}
use dropboy.Daemon
use dropboy.Daemon.{Services, Process}

abbrev stats_of : Option Engine → Bool → EngineStats
stats_of none paused = record {
  last_run = 0;
  queue_up = 0;
  queue_down = 0;
  bytes_up = 0;
  bytes_down = 0;
  conflicts = 0;
  paused = paused;
}
stats_of (some e) paused =
    let s = Sync.Engine.stats e in
    record {
      last_run = s.last_run;
      queue_up = s.queue_up;
      queue_down = s.queue_down;
      bytes_up = s.bytes_up;
      bytes_down = s.bytes_down;
      conflicts = s.conflicts;
      paused = paused;
    }

-- `detected` keeps the time, which the code formats.
conflict_of : Text → Sync.Engine.Conflict → Server.Api.Conflict
conflict_of machine c = record {
  id = c.id;
  path = c.path;
  machine = machine;
  detected = c.detected;
  local = c.local;
  remote = c.remote;
}

abbrev conflicts_of : Text → Option Engine → List Server.Api.Conflict
unfolding conflict_of
conflicts_of machine none = []
conflicts_of machine (some e) = map (conflict_of machine) e.conflicts

module _ (E : Env) (J : Blobs) (K : Services) (glob : Text → Text → Bool) (ranges : Ranges) where
  unfoldable pub daemon_stats : Process E J K → EngineStats
  daemon_stats p = stats_of p.daemon.engine p.daemon.paused

  unfoldable pub daemon_conflicts : Process E J K → List Server.Api.Conflict
  unfolding conflict_of
  daemon_conflicts p = conflicts_of p.daemon.cfg.machine_id p.daemon.engine

  abbrev found_of : Outcome Bool → Bool
  found_of (ok found) = found
  found_of _ = false

  -- The daemon as the server's engine.
  abbrev pub as_engine : Server.Api.Engine
  as_engine = record {
    State = Process E J K;
    stats = daemon_stats;
    conflicts = daemon_conflicts;
    resolve_conflict = λ id p. let (found, q) = Daemon.resolve E J K id p in (found_of found, q);
    kick_sync = Daemon.kick_sync E J K glob ranges;
    set_paused = λ v p. (Daemon.set_paused E J K v p).1;
    locked = λ p. p.daemon.locked;
    unlock = Daemon.unlock E J K;
    unlock_with_recovery = Daemon.unlock_with_recovery E J K;
    forget_passphrase = Daemon.forget_passphrase E J K;
  }
