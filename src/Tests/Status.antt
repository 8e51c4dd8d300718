-- ===== src/Tests/Status.antt =====
-- A run of the status command against a server whose engine is locked.
use dropboy.Base.{
  ℕ, Text, text_eq, nat_eq, codes, ◌==◌, Bool, true, false, some, [], ◌∷◌, ◌++◌, length, ◌≡◌, ◌≢◌,
  refl, arith, join_path,
}
use dropboy.Base.Dict.{Dict, lookup}
use dropboy.Base.Outcome.{Exec, Outcome, Error, ok, err}
use dropboy.Config
use dropboy.Config.Files.{Yaml}
use dropboy.Server
use dropboy.Server.Http.{Response, Body, payload}
use dropboy.Server.Events.{new_event_hub}
use dropboy.Server.Api.{Engine, System, Server, Reply, EngineStats}
use dropboy.Cli.Client.{Net, Answer, read_ui_token}
use dropboy.Cli.Status.{ApiStatus, Shown, fetch_daemon_status}
use dropboy.Cli.Status.Served.{
  Connected, status_route, expected, last_of, decoded, fetch_daemon_status-expected,
}
use dropboy.Server.Answer.{granted}
use dropboy.Server.Api.Control.{handle_status}
use dropboy.Server.Api.Heartbeat.{tick_status, handle_status-tick_status}
use dropboy.Cli.Logs.{tail_follow}
use dropboy.Cli.Logs.Followed.{tail_follow-grown}
use dropboy.Tests.Memory.{memory_os, split, split-append}

abbrev some_stats : EngineStats
some_stats = record {
  last_run = 4;
  queue_up = 2;
  queue_down = 1;
  bytes_up = 9;
  bytes_down = 8;
  conflicts = 3;
  paused = true;
}

-- An engine of which only the lock is known.
abbrev lock_only : Engine
lock_only = record {
  State = Bool;
  stats = λ g. some_stats;
  conflicts = λ g. [];
  resolve_conflict = λ id g. (false, g);
  kick_sync = λ g. (ok tt, g);
  set_paused = λ v g. g;
  locked = λ g. g;
  unlock = λ p r g. (ok tt, false);
  unlock_with_recovery = λ c g. (ok tt, false);
  forget_passphrase = λ g. (ok tt, g);
}

abbrev quiet : System
quiet = record {
  State = Unit {0};
  stat = λ p n. (err Error.not_exist, n);
  hostname = λ n. (ok (codes "h"), n);
  abs = λ p n. (ok p, n);
  now = λ n. (6, n);
  save = λ cfg n. (ok tt, n);
  error_text = λ e. codes "error";
}

abbrev locked_server : Server lock_only quiet
locked_server = record {
  cfg = Config.default;
  engine = some true;
  events = new_event_hub;
  kicks = 0;
  system = tt;
}

abbrev bit : Bool → ℕ
bit false = 0
bit true = 1

set : ℕ → Bool
unfolding nat_eq
set n = n == 1

set-bit : (b : Bool) → set (bit b) ≡ b
unfolding set
set-bit false = refl
set-bit true = refl

-- The fields as numbers, the sizes of two texts, and the three texts.
abbrev written : Server.Api.Status → Text
written st =
    bit st.running
    ∷ bit st.locked
    ∷ bit st.paused
    ∷ st.queue_uploads
    ∷ st.queue_downloads
    ∷ st.bytes_up
    ∷ st.bytes_down
    ∷ st.conflicts
    ∷ st.last_sync_at
    ∷ length st.bucket
    ∷ length st.region
    ∷ (st.bucket ++ (st.region ++ st.machine_id))

abbrev parsed : Text → Outcome ApiStatus
unfolding set
parsed (r ∷ l ∷ p ∷ qu ∷ qd ∷ bu ∷ bd ∷ c ∷ last ∷ i ∷ j ∷ s) =
    let (bucket, rest) = split i s in
    let (region, machine_id) = split j rest in
    ok (record {
      running = set r;
      locked = set l;
      paused = set p;
      queue_uploads = qu;
      queue_downloads = qd;
      bytes_up = bu;
      bytes_down = bd;
      conflicts = c;
      last_sync_at = last ∷ [];
      bucket = bucket;
      region = region;
      machine_id = machine_id;
    })
parsed _ = err Error.not_exist

abbrev one_number : ℕ → Text
one_number n = n ∷ []

parsed-written :
    (st : Server.Api.Status) → parsed (written st) ≡ ok (decoded lock_only quiet one_number st)
unfolding parsed
parsed-written st =
    rw
      (
        split-append st.bucket (st.region ++ st.machine_id),
        split-append st.region st.machine_id,
        set-bit st.running,
        set-bit st.locked,
        set-bit st.paused,
      )
      refl

abbrev body_of : Body Reply → Text
body_of (payload (Reply.status st)) = written st
body_of _ = []

abbrev replied : Response Reply → Answer
replied a = record { status_code = a.status; status = []; body = body_of a.body }

-- The only request goes to the status route.
abbrev wire : Net (Dict Text)
wire = record {
  parse_url =
      λ t. ok (record { host = codes "127.0.0.1"; path = codes "/api/v1/status"; query = [] });
  send =
      λ r body s. (ok (replied (status_route lock_only quiet (codes "t") r [] locked_server).0), s);
  trim_space = λ s. s;
  format_int = one_number;
}

abbrev plain : Shown
plain = record { tenths = λ n d. n ∷ []; error_text = λ e. codes "error"; unmarshal = parsed }

abbrev no_yaml : Yaml
no_yaml = record { marshal = λ cfg. ok []; unmarshal = λ text old. ok old }

abbrev home : Exec (Dict Text) Text
home s = (ok (codes "/h"), s)

abbrev token_disk : Dict Text
token_disk =
    (join_path (join_path (codes "/h") (codes ".dropboy")) (codes "ui.token"), codes "t") ∷ []

token_read :
    read_ui_token memory_os no_yaml home wire (codes "r") token_disk ≡ (ok (codes "t"), token_disk)
unfolding read_ui_token lookup text_eq join_path
token_read = refl

connected :
    Connected lock_only quiet memory_os no_yaml home wire
      (codes "r")
      plain
      (codes "t")
      locked_server
connected = record {
  sent_headers = [];
  answer = replied;
  format_time = one_number;
  send = λ r body s. (s, refl);
  status_code = λ a. refl;
  body = λ a st h. rw h (parsed-written st);
}

token_given : codes "t" ≢ []
token_given h = ground arith

fetch_daemon_status-expected_example :
    (fetch_daemon_status memory_os no_yaml home wire (codes "r") plain Config.default token_disk).0
    ≡ ok (
        expected lock_only quiet Config.default
          (some true)
          (one_number (last_of lock_only quiet (some true) 6)))
unfolding connected
fetch_daemon_status-expected_example =
    fetch_daemon_status-expected lock_only quiet memory_os no_yaml home wire (codes "r") plain
      (codes "t") locked_server connected Config.default token_disk token_disk
      (record { host = codes "127.0.0.1"; path = codes "/api/v1/status"; query = [] }) token_given
      token_read refl

handle_status-tick_status_example :
    (handle_status lock_only quiet locked_server).0
    ≡ granted (Reply.status (tick_status lock_only quiet 6 locked_server).0)
handle_status-tick_status_example = handle_status-tick_status lock_only quiet locked_server

tail_follow-grown_example :
    tail_follow (codes "old") (codes "olda" ∷ (codes "olda" ++ (b'\n' ∷ codes "b")) ∷ [])
    ≡ codes "a" ++ (b'\n' ∷ codes "b")
tail_follow-grown_example = tail_follow-grown (codes "old") (codes "a" ∷ (b'\n' ∷ codes "b") ∷ [])
