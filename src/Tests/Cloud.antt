-- ===== src/Tests/Cloud.antt =====
-- Concrete runs of the S3 client and of the table of SQLite.
use dropboy.Base.{
  ℕ, Text, text_eq, codes, ◌==◌, if◌then◌else◌, true, false, ◌&&◌, Option, none, some, [], ◌∷◌, ◌≡◌,
  refl, length, arith, zero, suc,
}
use dropboy.Base.Dict.{Dict}
use dropboy.Base.Outcome.{ok, message}
use dropboy.S3
use dropboy.S3.Aws.{Sdk, ApiError, Reply, reply, failure, ObjectOutput, Content, list, aws_client}
use dropboy.S3.Aws.Reliable.{IsFaithful, over, more, objects, list-Pages, aws_client-IsReliable}
use dropboy.Store.{Entry}
use dropboy.Store.Sqlite
use dropboy.Store.Sqlite.{Database, Row, Statement, create_entries, upsert, delete_where, row_of}
use dropboy.Store.Sqlite.RoundTrip
use dropboy.Store.Sqlite.RoundTrip.{scan_of, IsUnixTime, put-get, delete-get}

-- What a bucket holds of each key.
abbrev Buckets : Type 0
Buckets = Text → Text → Option (Text × Dict Text)

abbrev gone : ApiError
gone = record {
  error = message (codes "404");
  no_such_key = true;
  not_found = false;
  response = some (some 404);
}

abbrev output : Text × Dict Text → ObjectOutput
output (body, metadata) = record {
  content_length = some (length body);
  etag = some (codes "\"e\"");
  version_id = none;
  last_modified = some 3;
  metadata = metadata;
}

abbrev answer : {A : Type 0} → Option (Text × Dict Text) → (Text × Dict Text → A) → Reply A
answer none f = failure gone
answer (some o) f = reply (f o)

abbrev stored : Text → Text → Option (Text × Dict Text) → Buckets → Buckets
stored bucket key o s c q = if c == bucket && q == key then o else s c q

abbrev line : Content
line = record { key = some (codes "k"); size = some 1; etag = none; last_modified = none }

-- A bucket in memory, whose listings are of two pages of one line each.
abbrev memory_sdk : Sdk
memory_sdk = record {
  State = Buckets;
  Pager = ℕ;
  load_default_config = λ loaders s. (ok tt, s);
  now = λ s. (5, s);
  put_object = λ bucket key body size metadata s. (
    reply (record { etag = some (codes "\"e\""); version_id = none }),
    stored bucket key (some (body, metadata)) s,
  );
  get_object = λ bucket key s. (answer (s bucket key) (λ o. (ok o.0, output o)), s);
  head_object = λ bucket key s. (answer (s bucket key) output, s);
  delete_object = λ bucket key s. (reply tt, stored bucket key none s);
  new_paginator = λ bucket prefix. 2;
  has_more_pages = λ p. elim p [ zero ↦ false | suc _ ↦ true ];
  next_page = λ p s. ((reply (line ∷ []), elim p [ zero ↦ zero | suc q ↦ q ]), s);
}

abbrev memory_sdk-IsFaithful : IsFaithful memory_sdk
memory_sdk-IsFaithful = record {
  stored = λ s bucket key. s bucket key;
  put_object = λ s bucket key body metadata. (_, _, refl, λ c q. refl);
  get_object = λ s bucket key body metadata h. (output (body, metadata), rw h refl, refl);
  get_missing = λ s bucket key h. (gone, rw h refl, refl);
  head_object = λ s bucket key body metadata h. (output (body, metadata), rw h refl, refl);
  head_missing = λ s bucket key h. (gone, rw h refl, refl);
  delete_object = λ s bucket key. (_, refl, λ c q. refl);
  now = λ s c q. refl;
}

abbrev empty_buckets : Buckets
empty_buckets c q = none

list-Pages_example :
    list memory_sdk (codes "b") 3 (codes "p") empty_buckets
    ≡ (ok (objects ((line ∷ []) ∷ (line ∷ []) ∷ [])), empty_buckets)
list-Pages_example =
    list-Pages memory_sdk 3 (codes "b") (codes "p") empty_buckets empty_buckets
      ((line ∷ []) ∷ (line ∷ []) ∷ []) (more refl refl (more refl refl (over refl))) (omega arith)

aws_client-IsReliable_example :
    (r : S3.IsReliable (aws_client memory_sdk (codes "b") 3)) × ((s : Buckets) (key : Text)
      → r.stored s key ≡ s (codes "b") key)
aws_client-IsReliable_example = aws_client-IsReliable memory_sdk memory_sdk-IsFaithful (codes "b") 3

abbrev rows_where : Text → Option Row → (Text → Option Row) → Text → Option Row
rows_where path o s q = if q == path then o else s q

abbrev executed : Statement → (Text → Option Row) → Text → Option Row
executed create_entries s = s
executed (upsert r) s = rows_where r.path (some r) s
executed (delete_where path) s = rows_where path none s

-- A table in memory.
abbrev memory_database : Database
memory_database = record {
  State = Text → Option Row;
  open_dsn = λ dsn s. (ok tt, s);
  close = λ s. (ok tt, s);
  exec = λ statement s. (ok tt, executed statement s);
  query_row = λ path s. (scan_of (s path), s);
  query = λ s. (ok (record { scans = []; error = none }), s);
}

abbrev memory_database-IsFaithful : RoundTrip.IsFaithful memory_database
memory_database-IsFaithful = record {
  row_at = λ s path. s path;
  query_row = λ s path. refl;
  upsert = λ s r. (_, refl, λ q. refl);
  delete_where = λ s path. (_, refl, λ q. refl);
}

abbrev no_entries : Text → Option Row
no_entries q = none

-- An entry of the year 2020.
abbrev entry : Entry
entry = record {
  path = codes "/a";
  local_mtime = 63713433600000000000;
  local_size = 3;
  local_hash = codes "h";
  s3_key = codes "k";
  s3_etag = [];
  s3_version_id = [];
  nonce_b64 = codes "n";
  dek_nonce_b64 = codes "d";
  sealed_dek_b64 = codes "s";
  last_synced_at = 63713433601000000000;
}

in_2020 : (IsUnixTime entry.local_mtime) × (IsUnixTime entry.last_synced_at)
unfolding IsUnixTime
in_2020 = ((omega arith, omega arith), (omega arith, omega arith))

put-get_example :
    (t : Text → Option Row) × (Sqlite.put memory_database entry no_entries ≡ (ok tt, t))
    × (Sqlite.get memory_database (codes "/a") t ≡ (ok entry, t))
    × ((q : Text)
        → (q == codes "/a") ≡ false
        → (Sqlite.get memory_database q t).0 ≡ (Sqlite.get memory_database q no_entries).0)
put-get_example =
    put-get memory_database memory_database-IsFaithful no_entries entry in_2020.0 in_2020.1
