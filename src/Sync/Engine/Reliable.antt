-- ===== src/Sync/Engine/Reliable.antt =====
-- An environment in which no call fails.
use dropboy.Os
use dropboy.Store
use dropboy.S3
use dropboy.Crypto.Primitives
use dropboy.Sync.Engine.{Env}

pub record IsReliable (E : Env) : Type 0 where
  pub os : Os.IsReliable E.os
  pub db : Store.IsReliable E.db
  pub cloud : S3.IsReliable E.cloud
  pub primitives : Primitives.IsLawful E.primitives
