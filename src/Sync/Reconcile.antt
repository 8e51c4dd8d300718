-- ===== src/Sync/Reconcile.antt =====
-- ReconcileOnce and execute of backend/internal/sync/engine.go.
pub mod Frame
pub mod Pass
pub mod Executed
pub mod Sequence
pub mod Due
pub mod Settled
pub mod Second
pub mod Observed
use dropboy.Base.{
  ℕ, Text, text_eq, codes, ◌==◌, if◌then◌else◌, Option, none, some, List, [], ◌∷◌, ◌++◌, Bool, true,
  false,
}
use dropboy.Base.Dict.{Dict, lookup}
use dropboy.Base.Outcome.{
  Exec, Done, Outcome, gets, ok, err, panic, Error, not_exist, wrapped, pure, lift, wrapping, ◌>>=◌,
  ◌>>◌,
}
use dropboy.Sync.Ops.{
  OpKind, noop, upload, download, delete_remote, delete_local, conflict, Op, kind_string,
  count_kind,
}
use dropboy.Sync.Plan.{LocalEntry, RemoteEntry, plan}
use dropboy.Sync.Engine.{
  Env, World, Engine, on_os, on_db, on_cloud, on_engine, now, record_conflict,
}
use dropboy.Sync.Transfer.{do_upload, do_download}
use dropboy.Sync.Snapshot.{snapshot_local, snapshot_remote, snapshot_state}

-- errors.Is(err, os.ErrNotExist)
unfoldable pub is_not_exist : Error → Bool
is_not_exist not_exist = true
is_not_exist (wrapped t e) = is_not_exist e
is_not_exist _ = false

-- `if err != nil && !errors.Is(err, os.ErrNotExist) { return err }`
unfoldable pub allow_missing : Outcome Done → Outcome Done
unfolding is_not_exist
allow_missing (ok _) = ok tt
allow_missing (err e) = if is_not_exist e then ok tt else err e
allow_missing panic = panic

-- The zero value of a map lookup that finds nothing.
abbrev no_local : LocalEntry
no_local = record { path = []; size = 0; mtime = 0; hash = [] }

abbrev local_or_zero : Option LocalEntry → LocalEntry
local_or_zero none = no_local
local_or_zero (some l) = l

-- The order in which one pass ranges over its two maps.
pub record Ranges : Type 0 where
  pub local : Dict LocalEntry → Dict LocalEntry
  pub remote : Dict RemoteEntry → Dict RemoteEntry

module _ (E : Env) where
  dispatch : OpKind → Text → Text → LocalEntry → Exec (World E) Done
  dispatch upload path key local = do_upload E path key local
  dispatch download path key local = do_download E path key
  dispatch delete_remote path key local = do
    on_cloud E (E.cloud.delete key)
    on_db E (E.db.delete path)
  dispatch delete_local path key local = do
    on_os E (λ s. let (r, s') = E.os.remove path s in (allow_missing r, s'))
    on_db E (E.db.delete path)
  dispatch conflict path key local = record_conflict E path
  dispatch noop path key local = pure tt

  unfoldable pub execute : Op → LocalEntry → Exec (World E) Done
  unfolding dispatch
  execute op local = dispatch op.kind op.path op.s3_key local

  -- The text of the error of one operation, "execute <kind> <path>".
  execute_context : Op → Text
  execute_context op = codes "execute " ++ (kind_string op.kind ++ (codes " " ++ op.path))

  -- The loop over the plan, which ends with the first error.
  unfoldable pub execute_all : Dict LocalEntry → List Op → Exec (World E) Done
  unfolding execute_context
  execute_all local [] = pure tt
  execute_all local (op ∷ ops) = do
    wrapping (execute_context op) (execute op (local_or_zero (lookup op.path local)))
    execute_all local ops

  -- The queue counters, set under the engine's lock.
  abbrev queued : List Op → Engine → Engine
  queued ops e = record e { up_q = count_kind ops upload; down_q = count_kind ops download }

  abbrev finished : List Op → ℕ → Engine → Engine
  finished ops t e = record e { last_run = t; last_ops = ops; up_q = 0; down_q = 0 }

  -- What follows the loop.
  unfoldable pub finish : List Op → Exec (World E) (List Op)
  finish ops = do t ← now E; on_engine E (finished ops t); pure ops

  -- What follows the planning.
  unfoldable pub run_plan : Dict LocalEntry → List Op → Exec (World E) (List Op)
  unfolding finish
  run_plan local ops = do on_engine E (queued ops); execute_all local ops; finish ops

  unfoldable pub reconcile_once : (Text → Text → Bool) → Ranges → Exec (World E) (List Op)
  reconcile_once glob ranges = do
    local ← wrapping (codes "snapshot local") (snapshot_local glob E)
    remote ← wrapping (codes "snapshot remote") (snapshot_remote E)
    state ← wrapping (codes "snapshot state") (snapshot_state E)
    machine_id ← gets (λ w. w.engine.machine_id)
    run_plan local (plan (ranges.local local) (ranges.remote remote) state machine_id)
