-- ===== src/Tests/Guards.antt =====
-- The theorems about keys, about the daemon's lock and about the server's guards at concrete inputs.
use dropboy.Base.{
  int_text, pos, false, ℕ, suc, Text, text_eq, nat_eq, codes, [], ◌∷◌, ◌≡◌, ◌↔◌, ◌⊎◌, refl, true,
  ◌≤◌, arith, ◌+◌, ◌-◌, ◌*◌,
}
use dropboy.Base.Dict.{Dict, lookup}
use dropboy.Base.Outcome.{Outcome, err, bad_passphrase}
use dropboy.Config
use dropboy.Config.{Config}
use dropboy.Crypto.Keystore.{create_master_key, derive_kek, load_master_key, load_and_open}
use dropboy.Crypto.Keystore.Loading.{load_master_key_wrong, Answers, load_and_open-outcome}
use dropboy.Daemon.{Process, new_daemon, boot, unlock, unlock_with_recovery}
use dropboy.Daemon.Running.{linked, unlocks, Reach, boots, turns, Reach-linked}
use dropboy.Daemon.Goes.{After, Unlocked}
use dropboy.Daemon.Locking.{unlock-Unlocked}
use dropboy.Server.Http.{Request, Handler, no_body}
use dropboy.Server.Auth.{auth_middleware, host_allowed, promote}
use dropboy.Server.Auth.Guard.{Authorized, IsRefusal, auth_middleware-Authorized}
use dropboy.Server.Auth.Hosts.{IsLoopback, host_allowed-IsLoopback}
use dropboy.Server.RateLimit.{new_rate_limiter}
use dropboy.Server.RateLimit.Bounds.{Calls, passed, passed_bounded}
use dropboy.Tests.Memory.{
  memory_env, memory_os, memory_os-IsReliable, memory_blobs, parsed, memory_services,
  toy_primitives, toy_primitives-IsLawful,
}

load_master_key_wrong_example :
    (t : Dict Text) × ((create_master_key toy_primitives memory_blobs memory_os
        (codes "d")
        (codes "pass")
        (codes "code")
        []).1
      ≡ t)
    × (load_master_key toy_primitives memory_blobs memory_os (codes "d") (codes "wrong") t
        ≡ (err bad_passphrase, t))
load_master_key_wrong_example =
    load_master_key_wrong toy_primitives toy_primitives-IsLawful memory_blobs memory_os
      memory_os-IsReliable (codes "d") (codes "pass") (codes "code") (codes "wrong") []
      (unfold derive_kek nat_eq in λ salt n m. refl)

-- The bytes of a key file with no rounds.
abbrev spent_file : Text
spent_file = 0 ∷ 8 ∷ 1 ∷ 0 ∷ 0 ∷ []

abbrev spent_disk : Dict Text
spent_disk = (codes "k", spent_file) ∷ []

load_and_open-outcome_example :
    (r : Outcome Text) × (load_and_open toy_primitives memory_blobs memory_os
        (codes "k")
        (codes "pass")
        spent_disk
      ≡ (r, spent_disk))
    × Answers (parsed spent_file) r
unfolding lookup text_eq memory_os-IsReliable
load_and_open-outcome_example =
    load_and_open-outcome toy_primitives toy_primitives-IsLawful memory_blobs memory_os
      memory_os-IsReliable (codes "k") (codes "pass") spent_file spent_disk refl

abbrev locked_process : Process memory_env memory_blobs memory_services
locked_process = record {
  os = [];
  db = [];
  cloud = [];
  services = [];
  daemon = new_daemon Config.default (codes "d");
}

unlock-Unlocked_example :
    (let (r, q) =
        unlock memory_env memory_blobs memory_services (codes "pass") true locked_process in
      After locked_process.daemon (Unlocked locked_process.daemon) r q.daemon)
    × (let (r, q) =
          unlock_with_recovery memory_env memory_blobs memory_services (codes "c") locked_process in
        After locked_process.daemon (Unlocked locked_process.daemon) r q.daemon)
unfolding new_daemon
unlock-Unlocked_example =
    unlock-Unlocked memory_env memory_blobs memory_services (codes "pass") (codes "c") true
      locked_process refl

abbrev unlocked_process : Process memory_env memory_blobs memory_services
unlocked_process =
    (unlock memory_env memory_blobs memory_services (codes "pass") true
      (boot memory_env memory_blobs memory_services
        (record { passphrase = []; no_s3 = false; no_sync = false }) locked_process).1).1

unlocked_process-Reach :
    Reach memory_env memory_blobs memory_services
      (λ p n. false)
      (record { local = λ m. m; remote = λ m. m })
      unlocked_process
unlocked_process-Reach =
    turns
      (boots (record { passphrase = []; no_s3 = false; no_sync = false }) Config.default (codes "d")
        locked_process refl)
      (unlocks (codes "pass") true)

Reach-linked_example : linked unlocked_process.daemon ≡ true
Reach-linked_example =
    Reach-linked memory_env memory_blobs memory_services (λ p n. false)
      (record { local = λ m. m; remote = λ m. m }) unlocked_process unlocked_process-Reach

abbrev post : Request
post = record {
  method = codes "POST";
  host = codes "127.0.0.1";
  url_path = codes "/api/sync/pause";
  remote_addr = codes "127.0.0.1:9";
  headers = (codes "Authorization", codes "Bearer t") ∷ [];
  cookies = [];
  query = [];
}

abbrev counter : Handler ℕ ℕ
counter r headers n = (record { status = 200; headers = headers; body = no_body }, suc n)

auth_middleware-Authorized_example :
    (Authorized (codes "t") post
      × (auth_middleware (codes "t") counter post [] 0
          ≡ counter post (promote (codes "t") post []) 0))
    ⊎ ((¬ Authorized (codes "t") post)
        × ((auth_middleware (codes "t") counter post [] 0).1 ≡ 0)
        × IsRefusal (auth_middleware (codes "t") counter post [] 0).0)
auth_middleware-Authorized_example = auth_middleware-Authorized (codes "t") counter post [] 0

abbrev tally : ℕ → Text
tally n = n ∷ []

host_allowed-IsLoopback_example :
    (host_allowed (int_text tally) (pos 50) (codes "[::1]:2") ≡ true)
    ↔ IsLoopback (int_text tally (pos 50)) (codes "[::1]:2")
host_allowed-IsLoopback_example =
    host_allowed-IsLoopback (int_text tally) (pos 50) (codes "[::1]:2")

abbrev three_calls : Calls
three_calls = (0, codes "k") ∷ (2, codes "k") ∷ (4, codes "j") ∷ []

passed_bounded_example :
    passed (codes "k") three_calls (new_rate_limiter 5 1 25) * 5 ≤ 25 + (4 - 0) * 1
passed_bounded_example =
    passed_bounded 5 1 25 0 4 (codes "k") three_calls
      (ground arith, (ground arith, (ground arith, ground arith)))
