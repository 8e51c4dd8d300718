-- ===== src/Server/Api/Heartbeat.antt =====
-- tickStatus of backend/internal/server/events.go, and the bytes that handleEvents of it writes. A tick is one
-- step; the payload of its event comes beside the server. `marshal` is json.Marshal of an event.
use dropboy.Base.{
  ℕ, Text, nat_eq, codes, ◌==◌, if◌then◌else◌, true, false, Option, none, some, List, [], ◌∷◌, ◌++◌,
  ◌≡◌, refl, Bool-cases, inl, inr,
}
use dropboy.Config.{Config}
use dropboy.Server.Answer.{granted}
use dropboy.Server.Events.{Event, publish}
use dropboy.Server.Api.{Engine, System, Server, Status, Reply}
use dropboy.Server.Api.Control.{handle_status}

module _ (G : Engine) (X : System) where
  beat_of : Config → Option G.State → ℕ → Status
  beat_of cfg none now = record {
    running = true;
    locked = false;
    paused = false;
    queue_uploads = 0;
    queue_downloads = 0;
    bytes_up = 0;
    bytes_down = 0;
    conflicts = 0;
    last_sync_at = now;
    bucket = cfg.bucket;
    region = cfg.region;
    machine_id = cfg.machine_id;
  }
  beat_of cfg (some g) now =
      let es = G.stats g in
      record {
        running = true;
        locked = G.locked g;
        paused = es.paused;
        queue_uploads = es.queue_up;
        queue_downloads = es.queue_down;
        bytes_up = es.bytes_up;
        bytes_down = es.bytes_down;
        conflicts = es.conflicts;
        last_sync_at = if es.last_run == 0 then now else es.last_run;
        bucket = cfg.bucket;
        region = cfg.region;
        machine_id = cfg.machine_id;
      }

  -- What a tick at a time does.
  unfoldable pub tick_status : ℕ → Server G X → Status × Server G X
  unfolding beat_of
  tick_status now s = (
    beat_of s.cfg s.engine now,
    record s { events = publish (record { kind = codes "status"; time = now }) s.events },
  )

  -- The payload of a tick is what the status route answers at that time.
  pub handle_status-tick_status :
      (s : Server G X)
      → (handle_status G X s).0 ≡ granted (Reply.status (tick_status (X.now s.system).0 s).0)
  unfolding tick_status handle_status nat_eq
  handle_status-tick_status s = answers s.engine refl
    where
      answers :
          (e : Option G.State)
          → s.engine ≡ e
          → (handle_status G X s).0 ≡ granted (Reply.status (tick_status (X.now s.system).0 s).0)
      answers none h = rw h
      answers (some g) h = rw h (elim (Bool-cases ((G.stats g).last_run == 0)) [
        | inl never ↦ rw never
        | inr once ↦ rw once
      ])

-- What wakes the loop of handleEvents up.
pub data Wake : Type 0 where
  keepalive : Wake
  event : Event → Wake

module _ (marshal : Event → Text) where
  unfoldable pub written : Wake → Text
  written keepalive = codes ": ping" ++ (b'\n' ∷ b'\n' ∷ [])
  written (event e) =
      codes "event: "
      ++ (e.kind ++ (b'\n' ∷ (codes "data: " ++ (marshal e ++ (b'\n' ∷ b'\n' ∷ [])))))

  later_bytes : List Wake → Text
  unfolding written
  later_bytes [] = []
  later_bytes (w ∷ wakes) = written w ++ later_bytes wakes

  -- The bytes of the stream after these.
  unfoldable pub stream : List Wake → Text
  unfolding later_bytes
  stream wakes = codes ": connected" ++ (b'\n' ∷ b'\n' ∷ later_bytes wakes)
