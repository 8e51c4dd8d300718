-- ===== src/Sync/Transfer/RoundTrip.antt =====
-- What was uploaded comes back.
use dropboy.Base.{
  ℕ, Text, text_eq, codes, ◌==◌, if◌then◌else◌, some, [], ◌≡◌, refl, ◌∙◌, length, suc, ◌+◌,
  hex_encode, dir_name, arith, ==-refl, false,
}
use dropboy.Base.Dict.{Dict, lookup}
use dropboy.Base.Outcome.{ok}
use dropboy.Crypto.Envelope.{SealedDek, seal_payload, unwrap_key, open_payload}
use dropboy.Crypto.Envelope.RoundTrip.{seal-open, wrap_key-unwrap_key, generate_key_lem}
use dropboy.Store.{Entry}
use dropboy.Sync.Plan.{LocalEntry}
use dropboy.Sync.Engine.{Env, World}
use dropboy.Sync.Engine.Reliable.{IsReliable}
use dropboy.Sync.Transfer.{
  lookup_text, upload_metadata, upload_entry, download_entry, do_upload, decrypt_object,
  do_download,
}

module _ (E : Env) (R : IsReliable E) where
  open E use {primitives as P}

  module _ (local : LocalEntry) (nonce : Text) (sealed : SealedDek) where
    lookup-nonce :
        lookup_text (codes "dropboy-nonce") (upload_metadata E local nonce sealed)
        ≡ P.base64_encode nonce
    unfolding upload_metadata lookup text_eq
    lookup-nonce = refl

    lookup-dek_nonce :
        lookup_text (codes "dropboy-dek-nonce") (upload_metadata E local nonce sealed)
        ≡ P.base64_encode sealed.nonce
    unfolding upload_metadata lookup text_eq
    lookup-dek_nonce = refl

    lookup-hash :
        lookup_text (codes "dropboy-plain-sha256") (upload_metadata E local nonce sealed)
        ≡ local.hash
    unfolding upload_metadata lookup text_eq
    lookup-hash = refl

    lookup-dek :
        lookup_text (codes "dropboy-dek") (upload_metadata E local nonce sealed)
        ≡ P.base64_encode sealed.ciphertext
    unfolding upload_metadata lookup text_eq
    lookup-dek = refl

  -- What encodes to the empty text is empty.
  encode-ne-nil : (b : Text) {n : ℕ} → length b ≡ suc n → (P.base64_encode b == []) ≡ false
  encode-ne-nil b h = ground (arith, R.primitives.encode-eq-nil b)

  -- The metadata that an upload writes passes the guard of a download, and decodes to the nonces
  -- and the key that were sealed.
  decrypt_object-upload_metadata :
      (master ct plain dek nonce : Text) (local : LocalEntry) (sealed : SealedDek)
      → length nonce ≡ 12
      → length sealed.ciphertext ≡ length dek + 16
      → unwrap_key P master sealed ≡ ok dek
      → open_payload P dek nonce ct ≡ ok plain
      → decrypt_object E master ct (upload_metadata E local nonce sealed) ≡ ok plain
  unfolding decrypt_object
  decrypt_object-upload_metadata master ct plain dek nonce local sealed n c u o =
      rw
        (
          lookup-nonce local nonce sealed,
          lookup-dek_nonce local nonce sealed,
          lookup-dek local nonce sealed,
          encode-ne-nil nonce n,
          encode-ne-nil sealed.ciphertext {n = length dek + 15} (omega arith),
          R.primitives.decode-encode,
          R.primitives.decode-encode,
          u,
          lookup-nonce local nonce sealed,
          R.primitives.decode-encode,
        )
        o

  -- What an upload of `plain` leaves behind, from the world `w`.
  pub record Uploaded (path key plain : Text) (local : LocalEntry) (w u : World E) : Type 0 where
    pub body : Text
    pub metadata : Dict Text
    pub stored :
        (q : Text)
        → R.cloud.stored u.cloud q
          ≡ (if q == key then some (body, metadata) else R.cloud.stored w.cloud q)
    pub opens : decrypt_object E w.engine.master body metadata ≡ ok plain
    pub hashed : lookup_text (codes "dropboy-plain-sha256") metadata ≡ local.hash
    pub entry : Entry
    pub entries :
        (q : Text) → R.db.entry u.db q ≡ (if q == path then some entry else R.db.entry w.db q)
    pub entry_path : entry.path ≡ path
    pub entry_hash : entry.local_hash ≡ local.hash
    pub entry_key : entry.s3_key ≡ key
    pub content : (q : Text) → R.os.content u.os q ≡ R.os.content w.os q
    pub counted : u.engine ≡ record w.engine { bytes_up = w.engine.bytes_up + length body }

  -- Where no call fails, an upload of a readable file succeeds: the bucket holds under the key an
  -- object that decrypts to the file's content, the database an entry with the hash that the
  -- snapshot saw, and all other objects, entries and files are as they were.
  pub do_upload-Uploaded :
      (path key plain : Text) (local : LocalEntry) (w : World E)
      → length w.engine.master ≡ 32
      → R.os.content w.os path ≡ some plain
      → (u : World E) × (do_upload E path key local w ≡ (ok tt, u))
        × Uploaded path key plain local w u
  unfolding do_upload upload_entry seal_payload open_payload
  do_upload-Uploaded path key plain local w m h =
      let (dek, s₁, e₁, d₁, c₁) = generate_key_lem P R.primitives E.os R.os w.os in
      let (ct, nonce, s₂, e₂, o₂, n₂, l₂, c₂, _) =
        seal-open P R.primitives E.os R.os dek plain s₁ d₁ in
      let (sealed, s₃, e₃, u₃, n₃, l₃, c₃) =
        wrap_key-unwrap_key P R.primitives E.os R.os w.engine.master dek s₂ m in
      let metadata = upload_metadata E local nonce sealed in
      let (obj, b₄, e₄, put₄) = R.cloud.put w.cloud key ct metadata in
      let (t₅, s₅) = E.os.now s₃ in
      let entry = upload_entry E path key local obj nonce sealed t₅ in
      let (b₆, e₆, put₆) = R.db.put w.db entry in
      (
        record {
          os = s₅;
          db = b₆;
          cloud = b₄;
          engine = record w.engine { bytes_up = w.engine.bytes_up + length ct };
        },
        rw (R.os.read_file w.os path plain h, e₁, e₂, e₃, e₄, e₆) refl,
        record {
          body = ct;
          metadata = metadata;
          stored = put₄;
          opens =
              decrypt_object-upload_metadata w.engine.master ct plain dek nonce local sealed n₂ l₃
                u₃ o₂;
          hashed = lookup-hash local nonce sealed;
          entry = entry;
          entries = put₆;
          entry_path = refl;
          entry_hash = refl;
          entry_key = refl;
          content = λ q. R.os.now s₃ q ∙ c₃ q ∙ c₂ q ∙ c₁ q;
          counted = refl;
        },
      )

  -- What a download of `plain` to a path leaves behind, from the world `u`.
  pub record Downloaded (path key plain : Text) (u v : World E) : Type 0 where
    pub content :
        (q : Text) → R.os.content v.os q ≡ (if q == path then some plain else R.os.content u.os q)
    pub entry : Entry
    pub entries :
        (q : Text) → R.db.entry v.db q ≡ (if q == path then some entry else R.db.entry u.db q)
    pub entry_hash : entry.local_hash ≡ hex_encode (P.sha256 plain)
    pub entry_key : entry.s3_key ≡ key
    pub cloud : v.cloud ≡ u.cloud
    pub counted : v.engine ≡ record u.engine { bytes_down = u.engine.bytes_down + length plain }

  -- Where no call fails, a download of an object that decrypts succeeds: the file holds the
  -- plaintext, the database an entry with its hash, and the rest is as it was.
  pub do_download-Downloaded :
      (path key body plain : Text) (metadata : Dict Text) (u : World E)
      → R.cloud.stored u.cloud key ≡ some (body, metadata)
      → decrypt_object E u.engine.master body metadata ≡ ok plain
      → (v : World E) × (do_download E path key u ≡ (ok tt, v)) × Downloaded path key plain u v
  unfolding do_download download_entry
  do_download-Downloaded path key body plain metadata u h d =
      let (obj, e₁, same) = R.cloud.get u.cloud key body metadata h in
      let d' : decrypt_object E u.engine.master body obj.metadata ≡ ok plain = rw same d in
      let (s₂, e₂, c₂) = R.os.mkdir_all u.os (dir_name path) 0o755 in
      let (s₃, e₃, c₃) = R.os.write_file s₂ path plain 0o644 in
      let (info, e₄) = R.os.stat s₃ path plain (rw (c₃ path, ==-refl path)) in
      let (t₅, s₅) = E.os.now s₃ in
      let entry = download_entry E path key plain (some info) obj t₅ in
      let (b₆, e₆, put₆) = R.db.put u.db entry in
      (
        record {
          os = s₅;
          db = b₆;
          cloud = u.cloud;
          engine = record u.engine { bytes_down = u.engine.bytes_down + length plain };
        },
        rw (e₁, d', e₂, e₃, e₄, e₆) refl,
        record {
          content = λ q. R.os.now s₃ q ∙ c₃ q ∙ rw c₂;
          entry = entry;
          entries = put₆;
          entry_hash = refl;
          entry_key = refl;
          cloud = refl;
          counted = refl;
        },
      )

  -- Where no call fails, a file that is uploaded and then downloaded from its key arrives with the
  -- content that it had, at whatever path, under the 32-byte master key of the engine.
  pub do_download-do_upload :
      (path target key plain : Text) (local : LocalEntry) (w : World E)
      → length w.engine.master ≡ 32
      → R.os.content w.os path ≡ some plain
      → (u v : World E) × (do_upload E path key local w ≡ (ok tt, u))
        × (do_download E target key u ≡ (ok tt, v))
        × (R.os.content v.os target ≡ some plain)
  do_download-do_upload path target key plain local w m h =
      let (u, e, up) = do_upload-Uploaded path key plain local w m h in
      let (v, f, down) =
        do_download-Downloaded target key up.body plain up.metadata u (up.stored key ∙ rw ==-refl)
          (rw up.counted up.opens) in
      (u, v, e, f, down.content target ∙ rw ==-refl)
