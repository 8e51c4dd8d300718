-- ===== src/Sync/Transfer.antt =====
-- doUpload and doDownload of backend/internal/sync/engine.go. The throttled reader of an upload
-- hands on the bytes that it reads, so the body that is put is the ciphertext.
pub mod RoundTrip
pub mod Settled
pub mod Interrupted
use dropboy.Base.{
  ℕ, Text, text_eq, codes, ◌==◌, if◌then◌else◌, Option, none, some, List, [], ◌∷◌, ◌++◌, ◌+◌, ◌||◌,
  length, hex_encode, dir_name,
}
use dropboy.Base.Dict.{Dict, lookup}
use dropboy.Base.Outcome.{
  Exec, Done, Outcome, ok, err, message, pure, lift, gets, fail, trying, ◌>>=◌, ◌>>◌,
}
use dropboy.Os.{Os, FileInfo}
use dropboy.Store.{Entry}
use dropboy.S3.{Object}
use dropboy.Crypto.Envelope.{
  SealedDek, generate_key, seal_payload, wrap_key, unwrap_key, open_payload,
}
use dropboy.Sync.Plan.{LocalEntry}
use dropboy.Sync.Engine.{Env, World, Engine, on_os, on_db, on_cloud, on_engine, now}

-- m[key] of a map of strings
abbrev pub lookup_text : Text → Dict Text → Text
lookup_text key m = elim (lookup key m) [ none ↦ [] | some v ↦ v ]

module _ (E : Env) where
  open E use {primitives as P}

  -- The map `meta` of doUpload.
  unfoldable pub upload_metadata : LocalEntry → Text → SealedDek → Dict Text
  upload_metadata local nonce sealed =
      (codes "dropboy-plain-sha256", local.hash)
      ∷ (codes "dropboy-plain-size", P.format_int local.size)
      ∷ (codes "dropboy-plain-mtime", P.format_time local.mtime)
      ∷ (codes "dropboy-scheme", codes "aes-256-gcm")
      ∷ (codes "dropboy-nonce", P.base64_encode nonce)
      ∷ (codes "dropboy-dek-nonce", P.base64_encode sealed.nonce)
      ∷ (codes "dropboy-dek", P.base64_encode sealed.ciphertext)
      ∷ []

  -- The state entry that an upload writes.
  unfoldable pub upload_entry : Text → Text → LocalEntry → Object → Text → SealedDek → ℕ → Entry
  upload_entry path key local obj nonce sealed synced_at = record {
    path = path;
    local_mtime = local.mtime;
    local_size = local.size;
    local_hash = local.hash;
    s3_key = key;
    s3_etag = obj.etag;
    s3_version_id = obj.version_id;
    nonce_b64 = P.base64_encode nonce;
    dek_nonce_b64 = P.base64_encode sealed.nonce;
    sealed_dek_b64 = P.base64_encode sealed.ciphertext;
    last_synced_at = synced_at;
  }

  unfoldable pub do_upload : Text → Text → LocalEntry → Exec (World E) Done
  do_upload path key local = do
    plain ← on_os E (E.os.read_file path)
    dek ← on_os E (generate_key E.os)
    (ct, nonce) ← on_os E (seal_payload P E.os dek plain)
    master ← gets (λ w. w.engine.master)
    sealed ← on_os E (wrap_key P E.os master dek)
    let metadata = upload_metadata local nonce sealed
    obj ← on_cloud E (E.cloud.put key ct (length ct) metadata)
    on_engine E (λ e. record e { bytes_up = e.bytes_up + length ct })
    synced_at ← now E
    on_db E (E.db.put (upload_entry path key local obj nonce sealed synced_at))

  -- The guard on the metadata, the decoding and the two decryptions of doDownload.
  unfoldable pub decrypt_object : Text → Text → Dict Text → Outcome Text
  decrypt_object master ct metadata =
      let nonce_b64 = lookup_text (codes "dropboy-nonce") metadata in
      let dek_nonce_b64 = lookup_text (codes "dropboy-dek-nonce") metadata in
      let sealed_dek_b64 = lookup_text (codes "dropboy-dek") metadata in
      if nonce_b64 == [] || sealed_dek_b64 == []
      then err (message (codes "object missing encryption metadata"))
      else elim (unwrap_key P master (record {
        nonce = P.base64_decode dek_nonce_b64;
        ciphertext = P.base64_decode sealed_dek_b64;
      })) [
        | Outcome.ok dek ↦ open_payload P dek (P.base64_decode nonce_b64) ct
        | Outcome.err e ↦ err e
        | Outcome.panic ↦ Outcome.panic
      ]

  -- mtime stays Go's zero time when Stat fails.
  abbrev mtime_of : Option FileInfo → ℕ
  mtime_of none = 0
  mtime_of (some i) = i.mod_time

  -- The state entry that a download writes.
  unfoldable pub download_entry : Text → Text → Text → Option FileInfo → Object → ℕ → Entry
  download_entry path key plain info obj synced_at = record {
    path = path;
    local_mtime = mtime_of info;
    local_size = length plain;
    local_hash = hex_encode (P.sha256 plain);
    s3_key = key;
    s3_etag = obj.etag;
    s3_version_id = obj.version_id;
    nonce_b64 = lookup_text (codes "dropboy-nonce") obj.metadata;
    dek_nonce_b64 = lookup_text (codes "dropboy-dek-nonce") obj.metadata;
    sealed_dek_b64 = lookup_text (codes "dropboy-dek") obj.metadata;
    last_synced_at = synced_at;
  }

  unfoldable pub do_download : Text → Text → Exec (World E) Done
  do_download path key = do
    (body, obj) ← on_cloud E (E.cloud.get key)
    ct ← lift body
    master ← gets (λ w. w.engine.master)
    plain ← lift (decrypt_object master ct obj.metadata)
    on_os E (E.os.mkdir_all (dir_name path) 0o755)
    on_os E (E.os.write_file path plain 0o644)
    info ← on_os E (trying (E.os.stat path))
    on_engine E (λ e. record e { bytes_down = e.bytes_down + length plain })
    synced_at ← now E
    on_db E (E.db.put (download_entry path key plain info obj synced_at))
