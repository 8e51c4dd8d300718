-- ===== src/Tests/Sync.antt =====
-- The theorems about the engine at concrete inputs.
use dropboy.Base.{Text, codes, text_eq, some, [], ◌∷◌, ◌≡◌, refl, false, has_prefix, nat_eq}
use dropboy.Base.Dict.{lookup}
use dropboy.Base.Outcome.{ok}
use dropboy.Store.{Entry}
use dropboy.Sync.Ops.{conflict, delete_remote}
use dropboy.Sync.Keys.{key_for, key_prefix}
use dropboy.Sync.Keys.Laws.{key_prefix_apart}
use dropboy.Sync.Plan.{LocalEntry, RemoteEntry, plan}
use dropboy.Sync.Plan.Table.{due, at_path, plan-due}
use dropboy.Sync.Engine.{World, new_engine}
use dropboy.Sync.Transfer.{do_upload, do_download}
use dropboy.Sync.Transfer.RoundTrip.{do_download-do_upload}
use dropboy.Sync.Reconcile.{Ranges, reconcile_once}
use dropboy.Sync.Reconcile.Pass.{Passed, reconcile_once-Passed}
use dropboy.Config
use dropboy.Config.{Config}
use dropboy.Tests.Memory.{memory_env, memory_env-IsReliable}

abbrev pub local_file : Text → LocalEntry
local_file hash = record { path = codes "/x/c.txt"; size = 3; mtime = 1; hash = hash }

abbrev pub remote_file : Text → RemoteEntry
remote_file hash = record {
  key = codes "k";
  path = codes "/x/c.txt";
  hash = hash;
  size = 3;
  etag = [];
  metadata = [];
}

abbrev synced : Text → Entry
synced hash = record {
  path = codes "/x/c.txt";
  local_mtime = 1;
  local_size = 3;
  local_hash = hash;
  s3_key = codes "k";
  s3_etag = [];
  s3_version_id = [];
  nonce_b64 = [];
  dek_nonce_b64 = [];
  sealed_dek_b64 = [];
  last_synced_at = 2;
}

-- TestPlanDetectsConflict and TestPlanLocallyDeletedRemovesRemote of plan_test.go
plan_conflict :
    plan
      ((codes "/x/c.txt", local_file (codes "local")) ∷ [])
      ((codes "/x/c.txt", remote_file (codes "remote")) ∷ [])
      ((codes "/x/c.txt", synced (codes "original")) ∷ [])
      (codes "m1")
    ≡ record { kind = conflict; path = codes "/x/c.txt"; s3_key = codes "k" } ∷ []
unfolding plan lookup text_eq
plan_conflict = refl

plan_deleted :
    plan []
      ((codes "/x/c.txt", remote_file (codes "h")) ∷ [])
      ((codes "/x/c.txt", synced (codes "h")) ∷ [])
      (codes "m1")
    ≡ record { kind = delete_remote; path = codes "/x/c.txt"; s3_key = codes "k" } ∷ []
unfolding plan lookup text_eq
plan_deleted = refl

plan-due_example :
    at_path (codes "/x/c.txt") (
      plan
        ((codes "/x/c.txt", local_file (codes "local")) ∷ [])
        ((codes "/x/c.txt", remote_file (codes "remote")) ∷ [])
        ((codes "/x/c.txt", synced (codes "original")) ∷ [])
        (codes "m1"))
    ≡ due
        (codes "m1")
        (codes "/x/c.txt")
        (lookup (codes "/x/c.txt") ((codes "/x/c.txt", local_file (codes "local")) ∷ []))
        (lookup (codes "/x/c.txt") ((codes "/x/c.txt", remote_file (codes "remote")) ∷ []))
        (lookup (codes "/x/c.txt") ((codes "/x/c.txt", synced (codes "original")) ∷ []))
unfolding lookup
plan-due_example = plan-due (codes "m1") (codes "/x/c.txt") _ _ _ (refl, tt) (refl, tt)

key_prefix_apart_example : codes "m1" ≡ codes "m1"
unfolding has_prefix key_prefix key_for nat_eq
key_prefix_apart_example = key_prefix_apart (codes "m1") (codes "m1") (codes "/foo") refl refl refl

abbrev pub thirty_two : Text
thirty_two =
    1 ∷ 2 ∷ 3 ∷ 4 ∷ 5 ∷ 6 ∷ 7 ∷ 8 ∷ 9 ∷ 10 ∷ 11 ∷ 12 ∷ 13 ∷ 14 ∷ 15 ∷ 16 ∷ 17 ∷ 18 ∷ 19 ∷ 20 ∷ 21
    ∷ 22 ∷ 23 ∷ 24 ∷ 25 ∷ 26 ∷ 27 ∷ 28 ∷ 29 ∷ 30 ∷ 31 ∷ 32 ∷ []

abbrev one_file : World memory_env
one_file = record {
  os = (codes "/a", codes "hello") ∷ [];
  db = [];
  cloud = [];
  engine = new_engine Config.default thirty_two (codes "m1");
}

do_download-do_upload_example :
    (u v : World memory_env) × (do_upload memory_env
        (codes "/a")
        (codes "k")
        (local_file (codes "h"))
        one_file
      ≡ (ok tt, u))
    × (do_download memory_env (codes "/b") (codes "k") u ≡ (ok tt, v))
    × (lookup (codes "/b") v.os ≡ some (codes "hello"))
unfolding new_engine lookup text_eq memory_env-IsReliable
do_download-do_upload_example =
    do_download-do_upload memory_env memory_env-IsReliable (codes "/a") (codes "/b") (codes "k")
      (codes "hello") (local_file (codes "h")) one_file refl refl

abbrev pub as_listed : Ranges
as_listed = record { local = λ m. m; remote = λ m. m }

reconcile_once-Passed_example :
    Passed one_file.engine
      (reconcile_once memory_env (λ p n. false) as_listed one_file).1.engine
      (reconcile_once memory_env (λ p n. false) as_listed one_file).0
reconcile_once-Passed_example = reconcile_once-Passed memory_env (λ p n. false) as_listed one_file
