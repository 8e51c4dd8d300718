-- ===== src/Store.antt =====
-- backend/internal/store: what the machine remembers of each path that it has synced, and the
-- interface through which the engine reaches it.
use dropboy.Base.{ℕ, Text, text_eq, ◌==◌, if◌then◌else◌, Option, none, some, ◌≡◌, List}
use dropboy.Base.Outcome.{Exec, Done, ok}
pub mod Sqlite

pub record Entry : Type 0 where
  pub path : Text
  pub local_mtime : ℕ
  pub local_size : ℕ
  pub local_hash : Text
  pub s3_key : Text
  pub s3_etag : Text
  pub s3_version_id : Text
  pub nonce_b64 : Text
  pub dek_nonce_b64 : Text
  pub sealed_dek_b64 : Text
  pub last_synced_at : ℕ

pub record Store : Type 1 where
  pub State : Type 0
  pub get : Text → Exec State Entry
  pub put : Entry → Exec State Done
  pub list : Exec State (List Entry)
  pub delete : Text → Exec State Done

-- No call fails, and there is one entry for a path.
pub record IsReliable (S : Store) : Type 0 where
  pub entry : S.State → Text → Option Entry
  pub put :
      (s : S.State) (e : Entry)
      → (t : S.State) × (S.put e s ≡ (ok tt, t))
        × ((q : Text) → entry t q ≡ (if q == e.path then some e else entry s q))
  pub delete :
      (s : S.State) (path : Text)
      → (t : S.State) × (S.delete path s ≡ (ok tt, t))
        × ((q : Text) → entry t q ≡ (if q == path then none else entry s q))
