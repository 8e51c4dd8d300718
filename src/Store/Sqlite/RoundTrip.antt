-- ===== src/Store/Sqlite/RoundTrip.antt =====
-- What the store gives back of what it was given.
use dropboy.Base.{
  ℕ, ◌+◌, ◌^◌, ◌≤◌, ◌<◌, Text, text_eq, ◌==◌, if◌then◌else◌, false, Option, none, some, ◌≡◌, refl,
  sym, ap, ◌∙◌, arith, ==-refl,
}
use dropboy.Base.Outcome.{ok, err, entry_not_found}
use dropboy.Store.{Entry}
use dropboy.Store.Sqlite.{
  Row, upsert, delete_where, Scanned, row, no_rows, Database, unix_epoch, unix_nano, unix_time,
  row_of, entry_of, get, put, delete,
}

-- A time that an int64 of nanoseconds since 1970 can hold: the years from 1678 to 2261.
unfoldable pub IsUnixTime : ℕ → Type 0
IsUnixTime t = (unix_epoch ≤ t + 2 ^ 63) × (t < unix_epoch + 2 ^ 63)

pub unix_time-unix_nano : (t : ℕ) → IsUnixTime t → unix_time (unix_nano t) ≡ t
unfolding IsUnixTime unix_time unix_nano
unix_time-unix_nano t (lo, hi) = ground arith

entry_of-row_of :
    (e : Entry) → IsUnixTime e.local_mtime → IsUnixTime e.last_synced_at → entry_of (row_of e) ≡ e
unfolding entry_of row_of
entry_of-row_of e h k =
    rw (unix_time-unix_nano e.local_mtime h) (rw (unix_time-unix_nano e.last_synced_at k) refl)

abbrev pub scan_of : Option Row → Scanned
scan_of none = no_rows
scan_of (some r) = row r

-- A database on which no call fails, with the primary key and the statements of the table.
pub record IsFaithful (D : Database) : Type 0 where
  pub row_at : D.State → Text → Option Row
  pub query_row : (s : D.State) (path : Text) → D.query_row path s ≡ (scan_of (row_at s path), s)
  pub upsert :
      (s : D.State) (r : Row)
      → (t : D.State) × (D.exec (upsert r) s ≡ (ok tt, t))
        × ((q : Text) → row_at t q ≡ (if q == r.path then some r else row_at s q))
  pub delete_where :
      (s : D.State) (path : Text)
      → (t : D.State) × (D.exec (delete_where path) s ≡ (ok tt, t))
        × ((q : Text) → row_at t q ≡ (if q == path then none else row_at s q))

module _ (D : Database) (faithful : IsFaithful D) where
  get-row_at :
      (s : D.State) (path : Text) (o : Option Row)
      → faithful.row_at s path ≡ o
      → get D path s ≡ (elim o [ none ↦ err entry_not_found | some r ↦ ok (entry_of r) ], s)
  unfolding get
  get-row_at s path none h = rw (faithful.query_row s path) (rw h refl)
  get-row_at s path (some r) h = rw (faithful.query_row s path) (rw h refl)

  get-same :
      (s t : D.State) (path : Text)
      → faithful.row_at t path ≡ faithful.row_at s path
      → (get D path t).0 ≡ (get D path s).0
  get-same s t path h =
      ap (λ r. r.0) (get-row_at t path _ h) ∙ sym (ap (λ r. r.0) (get-row_at s path _ refl))

  -- On a database that does what its statements say, Put of an entry whose two times lie within an
  -- int64 of nanoseconds around 1970 succeeds; Get of its path then returns the entry that was put, and
  -- Get of any other path returns what it returned before.
  pub put-get :
      (s : D.State) (e : Entry)
      → IsUnixTime e.local_mtime
      → IsUnixTime e.last_synced_at
      → (t : D.State) × (put D e s ≡ (ok tt, t))
        × (get D e.path t ≡ (ok e, t))
        × ((q : Text) → (q == e.path) ≡ false → (get D q t).0 ≡ (get D q s).0)
  unfolding put row_of
  put-get s e h k =
      let (t, done, after) = faithful.upsert s (row_of e) in
      (
        t,
        done,
        get-row_at t e.path (some (row_of e)) (after e.path ∙ rw (==-refl e.path) refl)
            ∙ rw (entry_of-row_of e h k) refl,
        λ q other. get-same s t q (after q ∙ rw other refl),
      )

  -- On a database that does what its statements say, Delete of a path succeeds; Get of the path then
  -- returns ErrNotFound, and Get of any other path returns what it returned before.
  pub delete-get :
      (s : D.State) (path : Text)
      → (t : D.State) × (delete D path s ≡ (ok tt, t))
        × (get D path t ≡ (err entry_not_found, t))
        × ((q : Text) → (q == path) ≡ false → (get D q t).0 ≡ (get D q s).0)
  unfolding delete
  delete-get s path =
      let (t, done, after) = faithful.delete_where s path in
      (
        t,
        done,
        get-row_at t path none (after path ∙ rw (==-refl path) refl),
        λ q other. get-same s t q (after q ∙ rw other refl),
      )
