-- ===== src/Sync/Snapshot.antt =====
-- The three snapshots of backend/internal/sync/engine.go.
pub mod Truthful
pub mod Walked
use dropboy.Base.{
  Text, text_eq, codes, if◌then◌else◌, Option, none, some, List, [], ◌∷◌, any, has_infix,
  hex_encode, Bool,
}
use dropboy.Base.Dict.{Dict, insert}
use dropboy.Base.Outcome.{Exec, pure, gets, trying, ◌>>=◌}
use dropboy.Os.{FileInfo, Tree, unreadable, file, dir, Trees, nil, cons}
use dropboy.Store.{Entry}
use dropboy.S3.{Object}
use dropboy.Config.{Folder}
use dropboy.Sync.Keys.{key_prefix, path_from_key}
use dropboy.Sync.Plan.{LocalEntry, RemoteEntry}
use dropboy.Sync.Engine.{Env, World, on_db, on_cloud}
use dropboy.Sync.Transfer.{lookup_text}

-- `glob` is filepath.Match, and false where that returns an error.
module _ (glob : Text → Text → Bool) where
  unfoldable pub excluded : Text → List Text → Bool
  excluded name patterns = any (λ p. glob p name) patterns

  module _ (E : Env) where
    open E use {primitives as P}

    -- hashFile of a file with this content, which could be read.
    abbrev pub hash_file : Text → Text
    hash_file content = hex_encode (P.sha256 content)

    -- What the callback does with a file that is not excluded: it is skipped when Info or the
    -- hashing fails.
    visit : Text → Option FileInfo → Option Text → Dict LocalEntry → Dict LocalEntry
    visit p none content out = out
    visit p (some info) none out = out
    visit p (some info) (some content) out =
        insert p
          (record { path = p; size = info.size; mtime = info.mod_time; hash = hash_file content })
          out

    -- filepath.WalkDir with the callback of snapshotLocal, which adds to the map `out`.
    unfoldable mutual
      unfolding excluded visit

      pub walk_tree : Tree → List Text → Dict LocalEntry → Dict LocalEntry
      walk_tree unreadable exclude out = out
      walk_tree (file p name info content) exclude out =
          if excluded name exclude then out else visit p info content out
      walk_tree (dir name children) exclude out =
          let inside = walk_trees children exclude out in
          if excluded name exclude then out else inside

      pub walk_trees : Trees → List Text → Dict LocalEntry → Dict LocalEntry
      walk_trees nil exclude out = out
      walk_trees (cons t ts) exclude out = walk_trees ts exclude (walk_tree t exclude out)

    unfoldable pub walk_folders : E.os.State → List Folder → Dict LocalEntry → Dict LocalEntry
    walk_folders s [] out = out
    walk_folders s (f ∷ folders) out =
        walk_folders s folders (walk_tree (E.os.walk f.path s) f.exclude out)

    unfoldable pub snapshot_local : Exec (World E) (Dict LocalEntry)
    snapshot_local = gets (λ w. walk_folders w.os w.engine.cfg.folders [])

module _ (E : Env) where
  open E use {primitives as P}

  -- The entry of one listed object, from what Head returned.
  remote_entry : Object → Text → Object → RemoteEntry
  remote_entry o local head = record {
    key = o.key;
    path = local;
    hash = lookup_text (codes "dropboy-plain-sha256") head.metadata;
    size = P.scan_int (lookup_text (codes "dropboy-plain-size") head.metadata);
    etag = o.etag;
    metadata = head.metadata;
  }

  -- out[local] = …, unless Head failed
  add_remote : Object → Text → Option Object → Dict RemoteEntry → Dict RemoteEntry
  unfolding remote_entry
  add_remote o local none out = out
  add_remote o local (some head) out = insert local (remote_entry o local head) out

  -- The loop over the listing.
  unfoldable pub head_all :
      Text → List Object → Dict RemoteEntry → Exec (World E) (Dict RemoteEntry)
  unfolding add_remote
  head_all machine_id [] out = pure out
  head_all machine_id (o ∷ objs) out = elim (has_infix o.key (codes "/.dropboy/")) [
    | Bool.true ↦ head_all machine_id objs out
    | Bool.false ↦ do
      head ← on_cloud E (trying (E.cloud.head o.key))
      head_all machine_id objs (add_remote o (path_from_key o.key machine_id) head out)
  ]

  unfoldable pub snapshot_remote : Exec (World E) (Dict RemoteEntry)
  snapshot_remote = do
    machine_id ← gets (λ w. w.engine.machine_id)
    objs ← on_cloud E (E.cloud.list (key_prefix machine_id))
    head_all machine_id objs []

  unfoldable pub index_entries : List Entry → Dict Entry → Dict Entry
  index_entries [] out = out
  index_entries (e ∷ es) out = index_entries es (insert e.path e out)

  unfoldable pub snapshot_state : Exec (World E) (Dict Entry)
  snapshot_state = do entries ← on_db E E.db.list; pure (index_entries entries [])
