-- ===== src/Sync/Plan.antt =====
-- The three-way compare of backend/internal/sync/engine.go. The order of the first two dictionaries
-- is the order in which the two loops range over the Go maps.
pub mod Table
use dropboy.Base.{
  ℕ, Text, text_eq, ◌==◌, if◌then◌else◌, Option, none, some, Bool, true, false, not, ◌&&◌, List, [],
  ◌∷◌, ◌++◌, contains,
}
use dropboy.Base.Dict.{Dict, lookup}
use dropboy.Store.{Entry}
use dropboy.Sync.Ops.{Op, upload, download, delete_remote, conflict}
use dropboy.Sync.Keys.{key_for}

pub record LocalEntry : Type 0 where
  pub path : Text
  pub size : ℕ
  pub mtime : ℕ
  pub hash : Text

pub record RemoteEntry : Type 0 where
  pub key : Text
  pub path : Text
  pub hash : Text
  pub size : ℕ
  pub etag : Text
  pub metadata : Dict Text

-- The inner switch: the path is known to all three sides.
plan_known : Text → Text → LocalEntry → RemoteEntry → Entry → List Op
plan_known machine_id p l r st =
    let local_changed = not (l.hash == st.local_hash) in
    let remote_changed = not (r.hash == st.local_hash) && not (r.hash == []) in
    if local_changed && remote_changed
    then record { kind = conflict; path = p; s3_key = r.key } ∷ []
    else if local_changed
    then record { kind = upload; path = p; s3_key = key_for machine_id p } ∷ []
    else if remote_changed
    then record { kind = download; path = p; s3_key = r.key } ∷ []
    else []

-- The outer switch: what one round of the first loop appends.
unfoldable pub plan_path : Text → Text → LocalEntry → Option RemoteEntry → Option Entry → List Op
unfolding plan_known
plan_path machine_id p l none none =
    record { kind = upload; path = p; s3_key = key_for machine_id p } ∷ []
plan_path machine_id p l (some r) none =
    if r.hash == l.hash then [] else record { kind = conflict; path = p; s3_key = r.key } ∷ []
plan_path machine_id p l none (some st) =
    record { kind = upload; path = p; s3_key = key_for machine_id p } ∷ []
plan_path machine_id p l (some r) (some st) = plan_known machine_id p l r st

-- `for p, l := range local`, with the variables `ops` and `seen`.
unfoldable pub plan_local :
    Text
    → Dict RemoteEntry
    → Dict Entry
    → Dict LocalEntry
    → List Op
    → List Text
    → List Op × List Text
unfolding plan_path
plan_local machine_id remote state [] ops seen = (ops, seen)
plan_local machine_id remote state ((p, l) ∷ rest) ops seen =
    plan_local machine_id remote state rest
      (ops ++ plan_path machine_id p l (lookup p remote) (lookup p state)) (p ∷ seen)

-- What one round of the second loop appends.
unfoldable pub plan_unseen : List Text → Dict Entry → Text → RemoteEntry → List Op
plan_unseen seen state p r = if contains seen p then [] else elim (lookup p state) [
  | some _ ↦ record { kind = delete_remote; path = p; s3_key = r.key } ∷ []
  | none ↦ record { kind = download; path = p; s3_key = r.key } ∷ []
]

-- `for p, r := range remote`
unfoldable pub plan_remote : List Text → Dict Entry → Dict RemoteEntry → List Op → List Op
unfolding plan_unseen
plan_remote seen state [] ops = ops
plan_remote seen state ((p, r) ∷ rest) ops =
    plan_remote seen state rest (ops ++ plan_unseen seen state p r)

unfoldable pub plan : Dict LocalEntry → Dict RemoteEntry → Dict Entry → Text → List Op
unfolding plan_local plan_remote
plan local remote state machine_id =
    let (ops, seen) = plan_local machine_id remote state local [] [] in
    plan_remote seen state remote ops
