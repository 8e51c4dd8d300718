-- ===== src/Store/Sqlite.antt =====
-- backend/internal/store/state.go: the store that is a table of SQLite. What the code calls of
-- database/sql is an interface over an unknown state; its statements are data.
use dropboy.Base.{
  ℕ, ◌+◌, ◌-◌, ◌*◌, ◌^◌, ◌%◌, Text, codes, ltb, if◌then◌else◌, List, [], ◌∷◌, ◌++◌, Option, none,
  some,
}
use dropboy.Base.Outcome.{
  Exec, Done, Error, Outcome, ok, err, panic, entry_not_found, pure, fail, continue, ◌>>=◌, wrap,
  wrapping, wrapped, lift,
}
use dropboy.Store.{Entry}
pub mod RoundTrip

-- A row of the table entries. An INTEGER is the two's complement of an int64.
pub record Row : Type 0 where
  pub path : Text
  pub local_mtime : ℕ
  pub local_size : ℕ
  pub local_hash : Text
  pub s3_key : Text
  pub s3_etag : Text
  pub s3_version_id : Text
  pub nonce_b64 : Text
  pub dek_nonce_b64 : Text
  pub sealed_dek_b64 : Text
  pub last_synced_at : ℕ

pub data Statement : Type 0 where
  create_entries : Statement
  -- INSERT INTO entries ... ON CONFLICT(path) DO UPDATE
  upsert : Row → Statement
  -- DELETE FROM entries WHERE path = ?
  delete_where : Text → Statement

-- What Scan of a single row gives.
pub data Scanned : Type 0 where
  row : Row → Scanned
  no_rows : Scanned
  scan_error : Error → Scanned

-- What a query gives: a row or the error of its Scan for each Next, then Err.
pub record Rows : Type 0 where
  pub scans : List (Outcome Row)
  pub error : Option Error

pub record Database : Type 1 where
  pub State : Type 0
  -- sql.Open("sqlite", dsn)
  pub open_dsn : Text → Exec State Done
  pub close : Exec State Done
  pub exec : Statement → Exec State Done
  -- SELECT ... FROM entries WHERE path = ?
  pub query_row : Text → State → Scanned × State
  -- SELECT ... FROM entries
  pub query : Exec State Rows

-- The nanoseconds from Go's zero time to the start of 1970.
abbrev pub unix_epoch : ℕ
unix_epoch = 62135596800000000000

-- t.UnixNano(), which wraps around
unfoldable pub unix_nano : ℕ → ℕ
unix_nano t = (t + 4 * 2 ^ 64 - unix_epoch) % 2 ^ 64

-- time.Unix(0, n).UTC(), of an int64
unfoldable pub unix_time : ℕ → ℕ
unix_time n = if ltb n (2 ^ 63) then unix_epoch + n else unix_epoch + n - 2 ^ 64

-- The arguments of Put's statement.
unfoldable pub row_of : Entry → Row
unfolding unix_nano
row_of e = record {
  path = e.path;
  local_mtime = unix_nano e.local_mtime;
  local_size = e.local_size;
  local_hash = e.local_hash;
  s3_key = e.s3_key;
  s3_etag = e.s3_etag;
  s3_version_id = e.s3_version_id;
  nonce_b64 = e.nonce_b64;
  dek_nonce_b64 = e.dek_nonce_b64;
  sealed_dek_b64 = e.sealed_dek_b64;
  last_synced_at = unix_nano e.last_synced_at;
}

-- The entry that Scan and the two times make of a row.
unfoldable pub entry_of : Row → Entry
unfolding unix_time
entry_of r = record {
  path = r.path;
  local_mtime = unix_time r.local_mtime;
  local_size = r.local_size;
  local_hash = r.local_hash;
  s3_key = r.s3_key;
  s3_etag = r.s3_etag;
  s3_version_id = r.s3_version_id;
  nonce_b64 = r.nonce_b64;
  dek_nonce_b64 = r.dek_nonce_b64;
  sealed_dek_b64 = r.sealed_dek_b64;
  last_synced_at = unix_time r.last_synced_at;
}

abbrev scanned : Scanned → Outcome Entry
unfolding entry_of
scanned (row r) = ok (entry_of r)
scanned no_rows = err entry_not_found
scanned (scan_error e) = err e

-- The loop of List, then rows.Err(), which List returns beside the entries: its caller drops them.
unfoldable pub scan_all : List (Outcome Row) → Option Error → List Entry → Outcome (List Entry)
unfolding entry_of
scan_all [] none out = ok out
scan_all [] (some e) out = err e
scan_all (ok r ∷ scans) e out = scan_all scans e (out ++ (entry_of r ∷ []))
scan_all (err e ∷ _) _ out = err e
scan_all (panic ∷ _) _ out = panic

module _ (D : Database) where
  close_with : Text → Error → Exec D.State Done
  close_with text e s = let (_, t) = D.close s in (err (wrapped text e), t)

  -- The rest of Open, with what the schema's Exec returned.
  opened : Outcome Done → Exec D.State Done
  unfolding close_with
  opened (ok _) = pure tt
  opened (err e) = close_with (codes "init schema") e
  opened panic = lift panic

  unfoldable pub open_path : Text → Exec D.State Done
  unfolding opened
  open_path path = do
    _ ← wrapping (codes "open state db") (
        D.open_dsn (
          codes "file:"
          ++ (path
              ++ codes
                  "?_pragma=journal_mode(wal)&_pragma=busy_timeout(5000)&_pragma=foreign_keys(1)")))
    λ s. let (r, t) = D.exec create_entries s in opened r t

  unfoldable pub get : Text → Exec D.State Entry
  unfolding scanned
  get path s = let (r, t) = D.query_row path s in (scanned r, t)

  unfoldable pub put : Entry → Exec D.State Done
  unfolding row_of
  put e = D.exec (upsert (row_of e))

  unfoldable pub list : Exec D.State (List Entry)
  unfolding scan_all
  list = do rows ← D.query; lift (scan_all rows.scans rows.error [])

  unfoldable pub delete : Text → Exec D.State Done
  delete path = D.exec (delete_where path)
