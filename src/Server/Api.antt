-- ===== src/Server/Api.antt =====
-- What the handlers of backend/internal/server/handlers.go work on: the server's state, the engine
-- that the daemon gives it, and what it calls of the system.
pub mod Folders
pub mod Control
pub mod Heartbeat
use dropboy.Base.{ℕ, Text, codes, Bool, Option, none, some, List}
use dropboy.Base.Outcome.{Exec, Done, Error, Outcome}
use dropboy.Os.{FileInfo}
use dropboy.Config.{Config, Folder}
use dropboy.Server.Answer.{Serve}
use dropboy.Server.Events.{Event, EventHub, publish}

pub record EngineStats : Type 0 where
  pub last_run : ℕ
  pub queue_up : ℕ
  pub queue_down : ℕ
  pub bytes_up : ℕ
  pub bytes_down : ℕ
  pub conflicts : ℕ
  pub paused : Bool

pub record Conflict : Type 0 where
  pub id : Text
  pub path : Text
  pub machine : Text
  pub detected : ℕ
  pub local : Text
  pub remote : Text

pub record Engine : Type 1 where
  pub State : Type 0
  pub stats : State → EngineStats
  pub conflicts : State → List Conflict
  pub resolve_conflict : Text → State → Bool × State
  pub kick_sync : Exec State Done
  pub set_paused : Bool → State → State
  pub locked : State → Bool
  pub unlock : Text → Bool → Exec State Done
  pub unlock_with_recovery : Text → Exec State Done
  pub forget_passphrase : Exec State Done

-- The system: os.Stat, os.Hostname, filepath.Abs, time.Now and config.Save.
pub record System : Type 1 where
  pub State : Type 0
  pub stat : Text → Exec State FileInfo
  pub hostname : Exec State Text
  pub abs : Text → Exec State Text
  pub now : State → ℕ × State
  pub save : Config → Exec State Done
  pub error_text : Error → Text

pub record Status : Type 0 where
  pub running : Bool
  pub locked : Bool
  pub paused : Bool
  pub queue_uploads : ℕ
  pub queue_downloads : ℕ
  pub bytes_up : ℕ
  pub bytes_down : ℕ
  pub conflicts : ℕ
  pub last_sync_at : ℕ
  pub bucket : Text
  pub region : Text
  pub machine_id : Text

-- What the handlers encode.
pub data Reply : Type 0 where
  healthy : Reply
  machines : List Text → Reply
  status : Status → Reply
  settings : Config → Reply
  folders : List Folder → Reply
  conflicts : List Conflict → Reply
  resolution : Text → Text → Bool → Reply
  queued : Reply
  queued_restore : Text → Text → Text → Reply
  paused : Bool → Reply
  unlocked : Bool → Reply
  unlocked_via_recovery : Reply
  forgotten : Reply

module _ (G : Engine) (X : System) where
  -- Server: the engine is nil until SetEngine.
  pub record Server : Type 0 where
    pub cfg : Config
    pub engine : Option G.State
    pub events : EventHub
    -- the goroutines of handleSync that are to call KickSync
    pub kicks : ℕ
    pub system : X.State

  module _ {A : Type 0} where
    abbrev pub on_system : Exec X.State A → Exec Server A
    on_system m s = let (r, x) = m s.system in (r, record s { system = x })

  -- time.Now().UTC()
  abbrev pub now : Server → ℕ × Server
  now s = let (t, x) = X.now s.system in (t, record s { system = x })

  -- s.events.publish(Event{Type: kind, Time: time.Now().UTC()})
  abbrev pub announce : Text → Server → Server
  announce kind s =
      let (t, s') = now s in
      record s' { events = publish (record { kind = kind; time = t }) s'.events }
