-- ===== src/Sync/Reconcile/Executed.antt =====
-- What an operation of a plan needs, and what it leaves, where no call fails.
use dropboy.Base.{
  Text, text_eq, codes, ◌==◌, Option, none, some, Bool-cases, false, any, inl, inr, length,
  hex_encode, ==-refl, ◌≡◌, refl, ◌∙◌, ap,
}
use dropboy.Base.Dict.{Dict}
use dropboy.Base.Outcome.{ok}
use dropboy.Store.{Entry}
use dropboy.Sync.Ops.{OpKind, noop, upload, download, delete_remote, delete_local, conflict, Op}
use dropboy.Sync.Plan.{LocalEntry}
use dropboy.Sync.Engine.{Env, World, Engine, record_conflict}
use dropboy.Sync.Engine.Reliable.{IsReliable}
use dropboy.Sync.Transfer.{lookup_text, decrypt_object}
use dropboy.Sync.Transfer.RoundTrip.{do_upload-Uploaded, do_download-Downloaded}
use dropboy.Sync.Reconcile.{dispatch, execute}

-- The hash that the metadata of an object records.
abbrev pub hash_in : Dict Text → Text
hash_in metadata = lookup_text (codes "dropboy-plain-sha256") metadata

module _ (E : Env) (R : IsReliable E) where
  open E use {primitives as P}

  abbrev pub hash_of : Text → Text
  hash_of content = hex_encode (P.sha256 content)

  abbrev pub file_at : World E → Text → Option Text
  file_at w p = R.os.content w.os p

  abbrev pub entry_at : World E → Text → Option Entry
  entry_at w p = R.db.entry w.db p

  abbrev pub object_at : World E → Text → Option (Text × Dict Text)
  object_at w key = R.cloud.stored w.cloud key

  -- An upload needs the file that the snapshot saw; a download an object that was sealed under the
  -- master key, with the hash of its content.
  abbrev pub Needs : World E → LocalEntry → OpKind → Text → Text → Type 0
  Needs w l upload p key = (c : Text) × (file_at w p ≡ some c) × (l.hash ≡ hash_of c)
  Needs w l download p key =
      (b : Text) × (metadata : Dict Text) × (c : Text) × (object_at w key ≡ some (b, metadata))
      × (decrypt_object E w.engine.master b metadata ≡ ok c)
      × (hash_in metadata ≡ hash_of c)
  Needs w l delete_remote p key = file_at w p ≡ none
  Needs w l delete_local p key = ⊥
  Needs w l conflict p key = Unit {0}
  Needs w l noop p key = Unit {0}

  -- File, entry and object agree on one content.
  pub record Synced (u : World E) (p key : Text) : Type 0 where
    pub content : Text
    pub file : file_at u p ≡ some content
    pub entry : Entry
    pub known : entry_at u p ≡ some entry
    pub entry_hash : entry.local_hash ≡ hash_of content
    pub body : Text
    pub metadata : Dict Text
    pub object : object_at u key ≡ some (body, metadata)
    pub object_hash : hash_in metadata ≡ hash_of content

  pub record Gone (u : World E) (p key : Text) : Type 0 where
    pub file : file_at u p ≡ none
    pub known : entry_at u p ≡ none
    pub object : object_at u key ≡ none

  abbrev pub After : World E → OpKind → Text → Text → Type 0
  After u upload p key = Synced u p key
  After u download p key = Synced u p key
  After u delete_remote p key = Gone u p key
  After u delete_local p key = Unit {0}
  After u conflict p key = Unit {0}
  After u noop p key = Unit {0}

  -- All but one path and one key is as it was.
  pub record Frame (p key : Text) (w u : World E) : Type 0 where
    pub files : (q : Text) → (q == p) ≡ false → file_at u q ≡ file_at w q
    pub entries : (q : Text) → (q == p) ≡ false → entry_at u q ≡ entry_at w q
    pub objects : (k : Text) → (k == key) ≡ false → object_at u k ≡ object_at w k
    pub master : u.engine.master ≡ w.engine.master

  Frame-refl : (p key : Text) (w : World E) → Frame p key w w
  Frame-refl p key w = record {
    files = λ q n. refl;
    entries = λ q n. refl;
    objects = λ k n. refl;
    master = refl;
  }

  record_conflict-Frame :
      (p key : Text) (w : World E)
      → (u : World E) × (record_conflict E p w ≡ (ok tt, u)) × Frame p key w u
  unfolding record_conflict
  record_conflict-Frame p key w = elim (Bool-cases (any (λ c. c.path == p) w.engine.conflicts)) [
    | inl known ↦ (w, rw known, Frame-refl p key w)
    | inr new ↦ (
      (record_conflict E p w).1,
      rw new,
      rw new (record {
        files = λ q n. R.os.now (E.os.now w.os).1 q ∙ R.os.now w.os q;
        entries = λ q n. refl;
        objects = λ k n. refl;
        master = refl;
      }),
    )
  ]

  dispatch-After :
      (kind : OpKind) (p key : Text) (l : LocalEntry) (w : World E)
      → length w.engine.master ≡ 32
      → Needs w l kind p key
      → (u : World E) × (dispatch E kind p key l w ≡ (ok tt, u))
        × After u kind p key
        × Frame p key w u
  unfolding dispatch
  dispatch-After upload p key l w m (c, h, same) =
      let (u, e, up) = do_upload-Uploaded E R p key c l w m h in
      (
        u,
        e,
        record {
          content = c;
          file = up.content p ∙ h;
          entry = up.entry;
          known = up.entries p ∙ rw ==-refl;
          entry_hash = up.entry_hash ∙ same;
          body = up.body;
          metadata = up.metadata;
          object = up.stored key ∙ rw ==-refl;
          object_hash = up.hashed ∙ same;
        },
        record {
          files = λ q n. up.content q;
          entries = λ q n. up.entries q ∙ rw n;
          objects = λ k n. up.stored k ∙ rw n;
          master = ap (λ (x : Engine). x.master) up.counted;
        },
      )
  dispatch-After download p key l w m (b, metadata, c, h, d, same) =
      let (u, e, down) = do_download-Downloaded E R p key b c metadata w h d in
      (
        u,
        e,
        record {
          content = c;
          file = down.content p ∙ rw ==-refl;
          entry = down.entry;
          known = down.entries p ∙ rw ==-refl;
          entry_hash = down.entry_hash;
          body = b;
          metadata = metadata;
          object = ap (λ (s : E.cloud.State). R.cloud.stored s key) down.cloud ∙ h;
          object_hash = same;
        },
        record {
          files = λ q n. down.content q ∙ rw n;
          entries = λ q n. down.entries q ∙ rw n;
          objects = λ k n. ap (λ (s : E.cloud.State). R.cloud.stored s k) down.cloud;
          master = ap (λ (x : Engine). x.master) down.counted;
        },
      )
  dispatch-After delete_remote p key l w m h =
      let (c, e₁, gone) = R.cloud.delete w.cloud key in
      let (d, e₂, dropped) = R.db.delete w.db p in
      (
        record w { cloud = c; db = d },
        rw (e₁, e₂),
        record { file = h; known = dropped p ∙ rw ==-refl; object = gone key ∙ rw ==-refl },
        record {
          files = λ q n. refl;
          entries = λ q n. dropped q ∙ rw n;
          objects = λ k n. gone k ∙ rw n;
          master = refl;
        },
      )
  dispatch-After delete_local p key l w m h = absurd h
  dispatch-After conflict p key l w m h =
      let (u, e, f) = record_conflict-Frame p key w in (u, e, tt, f)
  dispatch-After noop p key l w m h = (w, refl, tt, Frame-refl p key w)

  -- An operation that has what it needs succeeds.
  pub execute-After :
      (op : Op) (l : LocalEntry) (w : World E)
      → length w.engine.master ≡ 32
      → Needs w l op.kind op.path op.s3_key
      → (u : World E) × (execute E op l w ≡ (ok tt, u))
        × After u op.kind op.path op.s3_key
        × Frame op.path op.s3_key w u
  unfolding execute
  execute-After op l w m h = dispatch-After op.kind op.path op.s3_key l w m h
