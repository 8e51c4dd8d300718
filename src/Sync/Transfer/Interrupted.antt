-- ===== src/Sync/Transfer/Interrupted.antt =====
-- An upload whose state entry cannot be written.
use dropboy.Base.{
  Text, text_eq, codes, ◌==◌, if◌then◌else◌, none, some, ◌≡◌, refl, ◌∙◌, length, ==-refl, ◌+◌,
}
use dropboy.Base.Dict.{Dict, lookup}
use dropboy.Base.Outcome.{err, Error}
use dropboy.Os
use dropboy.S3
use dropboy.Store.{Entry}
use dropboy.Crypto.Primitives.{IsLawful}
use dropboy.Crypto.Envelope.{SealedDek, seal_payload}
use dropboy.Crypto.Envelope.RoundTrip.{seal-open, wrap_key-unwrap_key, generate_key_lem}
use dropboy.Sync.Ops.{noop, conflict, download}
use dropboy.Sync.Plan.{LocalEntry, RemoteEntry}
use dropboy.Sync.Plan.Table.{verdict}
use dropboy.Sync.Engine.{Env, World}
use dropboy.Sync.Transfer.{lookup_text, upload_metadata, do_upload}

upload_metadata-hash :
    (E : Env) (local : LocalEntry) (nonce : Text) (sealed : SealedDek)
    → lookup_text (codes "dropboy-plain-sha256") (upload_metadata E local nonce sealed) ≡ local.hash
unfolding upload_metadata lookup text_eq
upload_metadata-hash E local nonce sealed = refl

-- A path without an entry whose object has this hash.
verdict_unrecorded :
    (hash : Text) (l : LocalEntry) (r : RemoteEntry)
    → r.hash ≡ hash
    → verdict (some l) (some r) none ≡ (if hash == l.hash then noop else conflict)
unfolding verdict
verdict_unrecorded hash l r h = rw h

module _ (E : Env) (law : IsLawful E.primitives) (O : Os.IsReliable E.os)
    (C : S3.IsReliable E.cloud) where
  open E use {primitives as P}

  -- Where the master key has 32 bytes, the calls on the system and on the bucket do not fail, and
  -- the database takes no entry and stays as it was, an upload of a readable file returns the
  -- database's error, and leaves its object in the bucket under the hash of the snapshot. Compared
  -- with that object and without an entry, the table of the compare has nothing for a file of that
  -- hash, a conflict for a file of another, and a download where the file is gone.
  pub do_upload-interrupted :
      (path key plain : Text) (local l : LocalEntry) (r : RemoteEntry) (x : Error) (w : World E)
      → length w.engine.master ≡ 32
      → O.content w.os path ≡ some plain
      → ((e : Entry) → E.db.put e w.db ≡ (err x, w.db))
      → (u : World E) × (o : Text × Dict Text) × (do_upload E path key local w ≡ (err x, u))
        × (u.db ≡ w.db)
        × (C.stored u.cloud key ≡ some o)
        × (lookup_text (codes "dropboy-plain-sha256") o.1 ≡ local.hash)
        × (verdict
              (some l)
              (some (record r { hash = lookup_text (codes "dropboy-plain-sha256") o.1 }))
              none
            ≡ (if local.hash == l.hash then noop else conflict))
        × (verdict none
              (some (record r { hash = lookup_text (codes "dropboy-plain-sha256") o.1 }))
              none
            ≡ download)
  unfolding do_upload seal_payload verdict
  do_upload-interrupted path key plain local l r x w m h fails =
      let (dek, s₁, e₁, d₁, c₁) = generate_key_lem P law E.os O w.os in
      let (ct, nonce, s₂, e₂, o₂, n₂, l₂, c₂, _) = seal-open P law E.os O dek plain s₁ d₁ in
      let (sealed, s₃, e₃, u₃, n₃, l₃, c₃) =
        wrap_key-unwrap_key P law E.os O w.engine.master dek s₂ m in
      let metadata = upload_metadata E local nonce sealed in
      let (obj, b₄, e₄, put₄) = C.put w.cloud key ct metadata in
      let hashed = upload_metadata-hash E local nonce sealed in
      (
        record {
          os = (E.os.now s₃).1;
          db = w.db;
          cloud = b₄;
          engine = record w.engine { bytes_up = w.engine.bytes_up + length ct };
        },
        (ct, metadata),
        rw (O.read_file w.os path plain h, e₁, e₂, e₃, e₄, fails) refl,
        refl,
        put₄ key ∙ rw ==-refl,
        hashed,
        verdict_unrecorded local.hash l
            (record r { hash = lookup_text (codes "dropboy-plain-sha256") metadata }) hashed,
        refl,
      )
