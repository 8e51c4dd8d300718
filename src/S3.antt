-- ===== src/S3.antt =====
-- backend/internal/s3: the client that the engine takes as an interface, and what a client that
-- reaches its bucket does.
use dropboy.Base.{ℕ, Text, text_eq, ◌==◌, if◌then◌else◌, Option, none, some, ◌≡◌, length, List}
use dropboy.Base.Dict.{Dict}
use dropboy.Base.Outcome.{Exec, Done, Outcome, ok}
pub mod Aws

pub record Object : Type 0 where
  pub key : Text
  pub size : ℕ
  pub etag : Text
  pub version_id : Text
  pub last_modified : ℕ
  pub metadata : Dict Text

pub record Client : Type 1 where
  pub State : Type 0
  -- key, body, size, metadata
  pub put : Text → Text → ℕ → Dict Text → Exec State Object
  -- the body is what io.ReadAll makes of the reader
  pub get : Text → Exec State (Outcome Text × Object)
  pub list : Text → Exec State (List Object)
  pub delete : Text → Exec State Done
  pub head : Text → Exec State Object

-- No call fails, and objects are kept with the metadata they were put with.
pub record IsReliable (C : Client) : Type 0 where
  pub stored : C.State → Text → Option (Text × Dict Text)
  pub put :
      (s : C.State) (key body : Text) (metadata : Dict Text)
      → (o : Object) × (t : C.State) × (C.put key body (length body) metadata s ≡ (ok o, t))
        × ((q : Text) → stored t q ≡ (if q == key then some (body, metadata) else stored s q))
  pub get :
      (s : C.State) (key body : Text) (metadata : Dict Text)
      → stored s key ≡ some (body, metadata)
      → (o : Object) × (C.get key s ≡ (ok (ok body, o), s)) × (o.metadata ≡ metadata)
  pub head :
      (s : C.State) (key body : Text) (metadata : Dict Text)
      → stored s key ≡ some (body, metadata)
      → (o : Object) × (C.head key s ≡ (ok o, s)) × (o.metadata ≡ metadata)
  pub delete :
      (s : C.State) (key : Text)
      → (t : C.State) × (C.delete key s ≡ (ok tt, t))
        × ((q : Text) → stored t q ≡ (if q == key then none else stored s q))
