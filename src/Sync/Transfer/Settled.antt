-- ===== src/Sync/Transfer/Settled.antt =====
-- A path is settled once its file has been uploaded.
use dropboy.Base.{Text, codes, some, ◌≡◌, ◌∙◌, text_eq, length, ==-refl, sym}
use dropboy.Base.Dict.{Dict}
use dropboy.Base.Outcome.{ok}
use dropboy.Store.{Entry}
use dropboy.Sync.Ops.{noop}
use dropboy.Sync.Plan.{LocalEntry, RemoteEntry}
use dropboy.Sync.Plan.Table.{verdict, verdict_same}
use dropboy.Sync.Engine.{Env, World}
use dropboy.Sync.Engine.Reliable.{IsReliable}
use dropboy.Sync.Transfer.{lookup_text, do_upload}
use dropboy.Sync.Transfer.RoundTrip.{do_upload-Uploaded}

module _ (E : Env) (R : IsReliable E) where
  -- Where no call fails, an upload of a readable file succeeds. With the entry and the metadata
  -- that it leaves under the path and the key, the next compare has nothing to do for the path, as
  -- long as the snapshot of the file keeps its hash.
  pub do_upload-settled :
      (path key plain : Text) (local later : LocalEntry) (r : RemoteEntry) (w : World E)
      → length w.engine.master ≡ 32
      → R.os.content w.os path ≡ some plain
      → later.hash ≡ local.hash
      → (u : World E) × (e : Entry) × (o : Text × Dict Text) × (do_upload E path key local w
          ≡ (ok tt, u))
        × (R.db.entry u.db path ≡ some e)
        × (R.cloud.stored u.cloud key ≡ some o)
        × (verdict
              (some later)
              (some (record r { hash = lookup_text (codes "dropboy-plain-sha256") o.1 }))
              (some e)
            ≡ noop)
  do_upload-settled path key plain local later r w m h same =
      let (u, e, up) = do_upload-Uploaded E R path key plain local w m h in
      (
        u,
        up.entry,
        (up.body, up.metadata),
        e,
        up.entries path ∙ rw ==-refl,
        up.stored key ∙ rw ==-refl,
        verdict_same later _ up.entry (up.entry_hash ∙ sym same) (up.hashed ∙ sym same),
      )
