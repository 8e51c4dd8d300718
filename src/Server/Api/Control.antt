-- ===== src/Server/Api/Control.antt =====
-- The handlers of the status, of the conflicts, of syncing and of the lock. `decoded` is what
-- readJSON makes of the request's body.
use dropboy.Base.{
  ℕ, suc, Text, text_eq, nat_eq, codes, ◌==◌, if◌then◌else◌, Bool, true, false, Option, none, some,
  [], ◌∷◌,
}
use dropboy.Base.Outcome.{Exec, Done, Outcome, ok, err, panic}
use dropboy.Config.{Config}
use dropboy.Server.Answer.{Serve, grant, refuse, answer_of, calling, unless, ◌>>=◌, ◌>>◌}
use dropboy.Server.Api.{
  Engine, EngineStats, System, Server, Status, Reply, healthy, machines, conflicts, resolution,
  queued, queued_restore, unlocked, unlocked_via_recovery, forgotten, on_system, now, announce,
}

pub record ResolvePayload : Type 0 where
  pub id : Text
  pub resolution : Text

pub record RestorePayload : Type 0 where
  pub machine : Text
  pub path : Text
  pub into : Text

pub record UnlockPayload : Type 0 where
  pub passphrase : Text
  pub remember : Bool

abbrev host_or : Outcome Text → Outcome Text
host_or (ok h) = ok h
host_or (err e) = ok (codes "this-machine")
host_or panic = panic

-- The status of the config alone.
abbrev base_status : Config → Status
base_status cfg = record {
  running = true;
  locked = false;
  paused = false;
  queue_uploads = 0;
  queue_downloads = 0;
  bytes_up = 0;
  bytes_down = 0;
  conflicts = 0;
  last_sync_at = 0;
  bucket = cfg.bucket;
  region = cfg.region;
  machine_id = cfg.machine_id;
}

abbrev with_engine : EngineStats → Bool → Status → Status
with_engine es is_locked st = record st {
  locked = is_locked;
  paused = es.paused;
  queue_uploads = es.queue_up;
  queue_downloads = es.queue_down;
  bytes_up = es.bytes_up;
  bytes_down = es.bytes_down;
  conflicts = es.conflicts;
  last_sync_at = es.last_run;
}

module _ (G : Engine) (X : System) where
  read_json : {A : Type 0} → Outcome A → Serve (Server G X) A
  read_json decoded s = (answer_of 400 X.error_text decoded, s)

  -- handleHealth
  unfoldable pub health : Serve (Server G X) Reply
  health = grant healthy

  -- handleMachines: one machine, by its id, which is also its label.
  unfoldable pub handle_machines : Serve (Server G X) Reply
  handle_machines s =
      (if s.cfg.machine_id == []
          then (do
            host ←
                calling 500 X.error_text
                  (on_system G X (λ x. let (r, x') = X.hostname x in (host_or r, x')))
            grant (machines (host ∷ [])))
          else grant (machines (s.cfg.machine_id ∷ [])))
        s

  status_of : Config → Option G.State → Status
  status_of cfg none = base_status cfg
  status_of cfg (some g) = with_engine (G.stats g) (G.locked g) (base_status cfg)

  -- handleStatus: without a last sync it gives the time of the request.
  unfoldable pub handle_status : Serve (Server G X) Reply
  unfolding status_of
  handle_status s =
      let st = status_of s.cfg s.engine in
      if st.last_sync_at == 0
      then (let (t, s') = now G X s in grant (Reply.status (record st { last_sync_at = t })) s')
      else grant (Reply.status st) s

  -- handleConflictsList
  unfoldable pub conflicts_list : Serve (Server G X) Reply
  conflicts_list s = grant (conflicts (elim s.engine [ none ↦ [] | some g ↦ G.conflicts g ])) s

  -- eng.ResolveConflict, or false without an engine.
  resolve_in : Text → Option G.State → Bool × Option G.State
  resolve_in id none = (false, none)
  resolve_in id (some g) = let (found, g') = G.resolve_conflict id g in (found, some g')

  -- handleConflictsResolve
  unfoldable pub conflicts_resolve : Outcome ResolvePayload → Serve (Server G X) Reply
  unfolding read_json resolve_in
  conflicts_resolve decoded = do
    p ← read_json decoded
    λ s.
        let (found, engine) = resolve_in p.id s.engine in
        grant (resolution p.id p.resolution found) (record s { engine = engine })

  -- handleRestore
  unfoldable pub restore : Outcome RestorePayload → Serve (Server G X) Reply
  unfolding read_json
  restore decoded = do
    p ← read_json decoded
    unless (p.machine == []) 400 (codes "machine required")
    grant (queued_restore p.machine p.path p.into)

  -- handleSync
  unfoldable pub sync : Serve (Server G X) Reply
  sync s =
      let s' = announce G X (codes "sync.kick") s in
      grant queued (elim s.engine [ none ↦ s' | some _ ↦ record s' { kicks = suc s'.kicks } ])

  -- handlePause and handleResume
  set_paused : Bool → Server G X → Server G X
  set_paused v s = record s {
    engine = elim s.engine [ none ↦ none | some g ↦ some (G.set_paused v g) ];
  }

  unfoldable pub pause : Serve (Server G X) Reply
  unfolding set_paused
  pause s = grant (Reply.paused true) (announce G X (codes "sync.paused") (set_paused true s))

  unfoldable pub resume : Serve (Server G X) Reply
  unfolding set_paused
  resume s = grant (Reply.paused false) (announce G X (codes "sync.resumed") (set_paused false s))

  -- A call of the engine, or 503 without one.
  with_ready : ℕ → Exec G.State Done → Option G.State → Serve (Server G X) Done
  with_ready status m none s = refuse 503 (codes "daemon not ready") s
  with_ready status m (some g) s =
      let (r, g') = m g in (answer_of status X.error_text r, record s { engine = some g' })

  unfoldable pub on_ready : ℕ → Exec G.State Done → Serve (Server G X) Done
  unfolding with_ready
  on_ready status m s = with_ready status m s.engine s

  announced : Text → Serve (Server G X) Done
  announced kind s = grant tt (announce G X kind s)

  -- handleUnlock
  unfoldable pub handle_unlock : Outcome UnlockPayload → Serve (Server G X) Reply
  unfolding read_json announced
  handle_unlock decoded = do
    p ← read_json decoded
    unless (p.passphrase == []) 400 (codes "passphrase required")
    on_ready 401 (G.unlock p.passphrase p.remember)
    announced (codes "unlocked")
    grant (unlocked p.remember)

  -- handleRecover
  unfoldable pub handle_recover : Outcome Text → Serve (Server G X) Reply
  unfolding read_json announced
  handle_recover decoded = do
    code ← read_json decoded
    unless (code == []) 400 (codes "recovery code required")
    on_ready 401 (G.unlock_with_recovery code)
    announced (codes "unlocked")
    grant unlocked_via_recovery

  -- handleForgetPassphrase
  unfoldable pub handle_forget : Serve (Server G X) Reply
  handle_forget = do on_ready 500 G.forget_passphrase; grant forgotten
