-- ===== src/Tests/Unlocking.antt =====
-- A concrete run of the unlock route on a daemon with a bucket and a master key.
use dropboy.Base.{ℕ, Text, text_eq, codes, ◌==◌, Bool, true, false, some, none, [], ◌≡◌, refl}
use dropboy.Base.Outcome.{ok}
use dropboy.Config
use dropboy.Server.Events.{new_event_hub}
use dropboy.Server.Api.{System, Server}
use dropboy.Server.Api.Control.{UnlockPayload, handle_unlock}
use dropboy.Sync.Reconcile.{Ranges}
use dropboy.Daemon.{Process, new_daemon}
use dropboy.Daemon.Adapter.{as_engine}
use dropboy.Daemon.Unlocking.{Answers, handle_unlock-Answers}
use dropboy.Crypto.Keystore.{create_master_key}
use dropboy.Base.Dict.{Dict}
use dropboy.Tests.Memory.{memory_env, memory_os, toy_primitives, memory_blobs, memory_services}

-- A disk with the keys of the passphrase "pass".
abbrev key_disk : Dict Text
key_disk =
    (create_master_key toy_primitives memory_blobs memory_os (codes "d") (codes "pass")
      (codes "code") []).1

abbrev locked : Process memory_env memory_blobs memory_services
locked = record {
  os = key_disk;
  db = [];
  cloud = [];
  services = [];
  daemon = new_daemon (record Config.default { bucket = codes "b" }) (codes "d");
}

no_engine : locked.daemon.engine ≡ none
unfolding new_daemon
no_engine = refl

abbrev one_clock : System
one_clock = record {
  State = ℕ;
  stat = λ p n. (ok (record { name = p; size = 0; mod_time = 1; is_dir = true }), n);
  hostname = λ n. (ok (codes "h"), n);
  abs = λ p n. (ok p, n);
  now = λ n. (n, n);
  save = λ cfg n. (ok tt, n);
  error_text = λ e. codes "error";
}

abbrev keep_order : Ranges
keep_order = record { local = λ m. m; remote = λ m. m }

abbrev no_match : Text → Text → Bool
no_match p n = false

abbrev server :
    Server (as_engine memory_env memory_blobs memory_services no_match keep_order) one_clock
server = record {
  cfg = Config.default;
  engine = some locked;
  events = new_event_hub;
  kicks = 0;
  system = 0;
}

given : (codes "pass" == []) ≡ false
unfolding text_eq
given = refl

handle_unlock-Answers_example :
    let payload : UnlockPayload = record { passphrase = codes "pass"; remember = true } in
    let (a, t) =
      handle_unlock
        (as_engine memory_env memory_blobs memory_services no_match keep_order)
        one_clock
        (ok payload)
        server in
    Answers memory_env memory_blobs memory_services no_match keep_order one_clock locked.daemon true
      a t.engine
handle_unlock-Answers_example =
    handle_unlock-Answers memory_env memory_blobs memory_services no_match keep_order one_clock
      (codes "pass") true server locked refl no_engine given
