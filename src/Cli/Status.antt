-- ===== src/Cli/Status.antt =====
-- backend/internal/cli/status.go and doctor.go. What a command prints is its list of lines. `Shown` is what the code
-- calls of fmt and encoding/json.
pub mod Served
use dropboy.Base.{
  pos, int_eq, int_text, ℕ, nat_eq, ◌*◌, Text, text_eq, codes, ◌==◌, if◌then◌else◌, Bool, true,
  false, not, leb, ltb, length, List, [], ◌∷◌, ◌++◌, Option, none, some,
}
use dropboy.Base.Dict.{Dict}
use dropboy.Base.Outcome.{Exec, Error, Outcome, ok, err, panic, message, pure, fail, lift, ◌>>=◌}
use dropboy.Os.{Os}
use dropboy.Config.{Config}
use dropboy.Config.Files.{Yaml, load}
use dropboy.Server.Http.{Request}
use dropboy.Cli.Client.{Net, Url, Answer, read_ui_token}

pub record ApiStatus : Type 0 where
  pub running : Bool
  pub locked : Bool
  pub paused : Bool
  pub queue_uploads : ℕ
  pub queue_downloads : ℕ
  pub bytes_up : ℕ
  pub bytes_down : ℕ
  pub conflicts : ℕ
  pub last_sync_at : Text
  pub bucket : Text
  pub region : Text
  pub machine_id : Text

pub record Shown : Type 0 where
  -- "%.1f" of the quotient of two numbers as floats
  pub tenths : ℕ → ℕ → Text
  -- the verb %v of an error
  pub error_text : Error → Text
  -- json.Unmarshal into an apiStatus
  pub unmarshal : Text → Outcome ApiStatus

-- The middle dot in UTF-8.
abbrev dot : Text
dot = 0x20 ∷ 0xC2 ∷ 0xB7 ∷ 0x20 ∷ []

-- `if err != nil { return apiStatus{}, fmt.Errorf("daemon not reachable") }`
abbrev pub reaching {ℓ} : {A : Type ℓ} → Outcome A → Outcome A
reaching (ok a) = ok a
reaching (err e) = err (message (codes "daemon not reachable"))
reaching panic = panic

-- The request of fetchDaemonStatus, as the server sees it.
unfoldable pub status_request : Url → Text → Text → Request
status_request url token remote = record {
  method = codes "GET";
  host = url.host;
  url_path = url.path;
  remote_addr = remote;
  headers = (codes "Authorization", codes "Bearer " ++ token) ∷ [];
  cookies = [];
  query = url.query;
}

unfoldable pub human_bytes : (ℕ → Text) → (ℕ → ℕ → Text) → ℕ → Text
human_bytes format_int tenths n =
    if ltb n 1024
    then format_int n ++ codes " B"
    else if ltb n (1024 * 1024)
    then tenths n 1024 ++ codes " KB"
    else if ltb n (1024 * 1024 * 1024)
    then tenths n (1024 * 1024) ++ codes " MB"
    else tenths n (1024 * 1024 * 1024) ++ codes " GB"

-- The line of the daemon's state.
unfoldable pub daemon_line : ApiStatus → Text
daemon_line st =
    codes "daemon:     "
    ++ (if st.locked
        then codes "running" ++ (dot ++ codes "locked (no passphrase)")
        else if st.paused
        then codes "running" ++ (dot ++ codes "paused")
        else codes "running")

module _ (X : Os) (Y : Yaml) (home : Exec X.State Text) (N : Net X.State) (remote : Text)
    (V : Shown) where
  read_answer : Answer → Exec X.State ApiStatus
  read_answer a =
      if leb 400 a.status_code
      then fail (message (codes "status " ++ N.format_int a.status_code))
      else lift (V.unmarshal a.body)

  abbrev pub status_url : Config → Text
  status_url cfg =
      let port = if cfg.ui.port == pos 0 then pos 7777 else cfg.ui.port in
      codes "http://127.0.0.1:" ++ (int_text N.format_int port ++ codes "/api/v1/status")

  unfoldable pub fetch_daemon_status : Config → Exec X.State ApiStatus
  unfolding read_answer
  fetch_daemon_status cfg = do
    token ← λ s. let (r, t) = read_ui_token X Y home N remote s in (reaching r, t)
    u ← lift (N.parse_url (status_url cfg))
    a ← λ s. let (r, t) = N.send (status_request u token remote) none s in (reaching r, t)
    read_answer a

  -- The lines that stand first.
  config_lines : Config → List Text
  config_lines cfg =
      (codes "bucket:     " ++ (cfg.bucket ++ (codes " (" ++ (cfg.region ++ codes ")"))))
      ∷ (codes "machine:    " ++ cfg.machine_id)
      ∷ (codes "folders:    " ++ N.format_int (length cfg.folders))
      ∷ (codes "encryption: "
          ++ (cfg.encryption.scheme ++ (codes " (" ++ (cfg.encryption.keyring ++ codes ")"))))
      ∷ []

  -- The lines about a daemon that has answered.
  unfoldable pub status_lines : ApiStatus → List Text
  status_lines st =
      daemon_line st
      ∷ (codes "queue:      "
          ++ (N.format_int st.queue_uploads
              ++ (codes " up / " ++ (N.format_int st.queue_downloads ++ codes " down"))))
      ∷ (codes "transfer:   "
          ++ (human_bytes N.format_int V.tenths st.bytes_up
              ++ (codes " up / "
                  ++ (human_bytes N.format_int V.tenths st.bytes_down ++ codes " down"))))
      ∷ (codes "conflicts:  " ++ N.format_int st.conflicts)
      ∷ (if st.last_sync_at == [] then [] else (codes "last sync:  " ++ st.last_sync_at) ∷ [])

  -- What follows the fetch.
  report : Config → Outcome ApiStatus → Exec X.State (List Text)
  unfolding config_lines status_lines
  report cfg (ok st) = pure (config_lines cfg ++ status_lines st)
  report cfg (err e) = pure (
      config_lines cfg ++ (codes "daemon:     not running (" ++ (V.error_text e ++ codes ")")) ∷ [])
  report cfg panic = λ s. (panic, s)

  unfoldable pub status : Exec X.State (List Text)
  unfolding report fetch_daemon_status
  status = do cfg ← load X Y home; λ s. let (r, t) = fetch_daemon_status cfg s in report cfg r t

-- newRestoreCmd, which restores nothing yet.
unfoldable pub restore : Text → Text → Outcome (List Text)
restore machine into =
    if machine == []
    then err (message (codes "--machine is required"))
    else ok (
        (codes "restore not yet implemented (machine="
          ++ (machine ++ (codes " into=" ++ (into ++ codes ")"))))
        ∷ [])

-- newConflictsCmd
abbrev pub conflicts : List Text
conflicts = codes "no conflicts (sync engine pending)" ∷ []

-- check, by its label, its value and its mark
pub record Check : Type 0 where
  pub label : Text
  pub value : Text
  pub passed : Bool

module _ (X : Os) (Y : Yaml) (home : Exec X.State Text) (format_int : ℕ → Text)
    (error_text : Error → Text) (goos goarch : Text) where
  -- The checks of doctor; the tip on linux is left out.
  checks : Outcome Config → Exec X.State (List Check)
  checks (ok cfg) = pure (
      record { label = codes "OS / Arch"; value = goos ++ (codes "/" ++ goarch); passed = true }
      ∷ record { label = codes "Config"; value = codes "loaded"; passed = true }
      ∷ record { label = codes "Bucket"; value = cfg.bucket; passed = not (cfg.bucket == []) }
      ∷ record { label = codes "Region"; value = cfg.region; passed = not (cfg.region == []) }
      ∷ record {
        label = codes "Machine ID";
        value = cfg.machine_id;
        passed = not (cfg.machine_id == []);
      }
      ∷ record {
        label = codes "Folders";
        value = format_int (length cfg.folders) ++ codes " watched";
        passed = ltb 0 (length cfg.folders);
      }
      ∷ record {
        label = codes "AWS credentials";
        value = codes "verification pending (needs S3 client wiring)";
        passed = false;
      }
      ∷ record {
        label = codes "Daemon";
        value = codes "not running (daemon impl pending)";
        passed = false;
      }
      ∷ [])
  checks (err e) = pure (
      record { label = codes "OS / Arch"; value = goos ++ (codes "/" ++ goarch); passed = true }
      ∷ record { label = codes "Config"; value = error_text e; passed = false }
      ∷ [])
  checks panic = λ s. (panic, s)

  unfoldable pub doctor : Exec X.State (List Check)
  unfolding checks
  doctor s = let (r, t) = load X Y home s in checks r t
