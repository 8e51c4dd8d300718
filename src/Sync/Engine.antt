-- ===== src/Sync/Engine.antt =====
-- The Engine of backend/internal/sync/engine.go and the world that it works in.
pub mod Reliable
use dropboy.Base.{
  ℕ, Text, text_eq, codes, ◌==◌, if◌then◌else◌, Option, none, some, Bool, true, false, List, [],
  ◌∷◌, ◌++◌, ◌+◌, any, length,
}
use dropboy.Base.Outcome.{Exec, Done, Outcome, ok, pure, gets, ◌>>=◌, ◌>>◌}
use dropboy.Os.{Os}
use dropboy.Store.{Store}
use dropboy.S3.{Client}
use dropboy.Crypto.Primitives.{Primitives}
use dropboy.Config.{Config}
use dropboy.Sync.Ops.{Op}

pub record Conflict : Type 0 where
  pub id : Text
  pub path : Text
  pub detected : ℕ
  pub local : Text
  pub remote : Text

-- The store and the client stand beside the engine, in `World`.
pub record Engine : Type 0 where
  pub cfg : Config
  pub master : Text
  pub machine_id : Text
  pub last_run : ℕ
  pub last_ops : List Op
  pub conflicts : List Conflict
  pub up_q : ℕ
  pub down_q : ℕ
  pub bytes_up : ℕ
  pub bytes_down : ℕ

unfoldable pub new_engine : Config → Text → Text → Engine
new_engine cfg master machine_id = record {
  cfg = cfg;
  master = master;
  machine_id = machine_id;
  last_run = 0;
  last_ops = [];
  conflicts = [];
  up_q = 0;
  down_q = 0;
  bytes_up = 0;
  bytes_down = 0;
}

pub record Stats : Type 0 where
  pub last_run : ℕ
  pub queue_up : ℕ
  pub queue_down : ℕ
  pub bytes_up : ℕ
  pub bytes_down : ℕ
  pub conflicts : ℕ

-- Engine.Stats
unfoldable pub stats : Engine → Stats
stats e = record {
  last_run = e.last_run;
  queue_up = e.up_q;
  queue_down = e.down_q;
  bytes_up = e.bytes_up;
  bytes_down = e.bytes_down;
  conflicts = length e.conflicts;
}

-- The loop of ResolveConflict, which leaves out the first conflict of that id.
unfoldable pub without_conflict : Text → List Conflict → Option (List Conflict)
without_conflict id [] = none
without_conflict id (c ∷ rest) =
    let later = without_conflict id rest in
    if c.id == id then some rest else elim later [ none ↦ none | some cs ↦ some (c ∷ cs) ]

-- Engine.ResolveConflict
unfoldable pub resolve_conflict : Text → Engine → Engine × Bool
unfolding without_conflict
resolve_conflict id e = elim (without_conflict id e.conflicts) [
  | none ↦ (e, false)
  | some rest ↦ (record e { conflicts = rest }, true)
]

-- What the engine reaches: the system, the state database, the bucket and the primitives.
pub record Env : Type 1 where
  pub os : Os
  pub db : Store
  pub cloud : Client
  pub primitives : Primitives

module _ (E : Env) where
  pub record World : Type 0 where
    pub os : E.os.State
    pub db : E.db.State
    pub cloud : E.cloud.State
    pub engine : Engine

  module _ {A : Type 0} where
    abbrev pub on_os : Exec E.os.State A → Exec World A
    on_os m w = let (r, s) = m w.os in (r, record w { os = s })

    abbrev pub on_db : Exec E.db.State A → Exec World A
    on_db m w = let (r, s) = m w.db in (r, record w { db = s })

    abbrev pub on_cloud : Exec E.cloud.State A → Exec World A
    on_cloud m w = let (r, s) = m w.cloud in (r, record w { cloud = s })

  abbrev pub on_engine : (Engine → Engine) → Exec World Done
  on_engine f w = (ok tt, record w { engine = f w.engine })

  -- time.Now().UTC()
  abbrev pub now : Exec World ℕ
  now w = let (t, s) = E.os.now w.os in (ok t, record w { os = s })

  -- recordConflict
  unfoldable pub record_conflict : Text → Exec World Done
  record_conflict path = do
    e ← gets (λ w. w.engine)
    if any (λ c. c.path == path) e.conflicts then pure tt else do
      stamp ← now
      detected ← now
      on_engine λ e. record e {
        conflicts =
            e.conflicts
            ++ record {
              id = codes "c-" ++ E.primitives.format_int stamp;
              path = path;
              detected = detected;
              local = codes "local modified";
              remote = codes "remote modified";
            }
              ∷ [];
      }
