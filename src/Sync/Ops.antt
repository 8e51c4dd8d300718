-- ===== src/Sync/Ops.antt =====
-- OpKind and Op of backend/internal/sync/engine.go.
use dropboy.Base.{ℕ, Text, codes, Eq, ◌==◌, if◌then◌else◌, List, [], ◌∷◌, ◌+◌}

pub data OpKind : Type 0 where
  noop upload download delete_remote delete_local conflict : OpKind

OpKind-discrete : Discrete OpKind
OpKind-discrete = hlevel

instance unfoldable pub op_kind_eq : Eq OpKind
unfolding OpKind-discrete
op_kind_eq = record { dec = OpKind-discrete }

-- OpKind.String
unfoldable pub kind_string : OpKind → Text
kind_string upload = codes "upload"
kind_string download = codes "download"
kind_string delete_remote = codes "delete-remote"
kind_string delete_local = codes "delete-local"
kind_string conflict = codes "conflict"
kind_string _ = codes "noop"

pub record Op : Type 0 where
  pub kind : OpKind
  pub path : Text
  pub s3_key : Text

unfoldable pub count_kind : List Op → OpKind → ℕ
count_kind [] k = 0
count_kind (o ∷ ops) k = (if o.kind == k then 1 else 0) + count_kind ops k
