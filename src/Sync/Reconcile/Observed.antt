-- ===== src/Sync/Reconcile/Observed.antt =====
-- The snapshots of a pass are true where walking and listing tell what there is.
use dropboy.Base.{
  Text, text_eq, codes, Option, none, some, is_some, Option-cases, List, [], Bool, true, inl, inr,
  has_prefix, append-trim_prefix, trim_prefix, ◌≡◌, refl, ◌∙◌, sym, ap,
}
use dropboy.Base.Dict.{Dict, lookup, NodupKeys, lookup-nil}
use dropboy.Base.Outcome.{ok, ◌>>=◌}
use dropboy.Store.{Entry}
use dropboy.S3.{Object}
use dropboy.Sync.Keys.{key_prefix, key_for, path_from_key}
use dropboy.Sync.Keys.Laws.{path_from_key-key_for}
use dropboy.Sync.Plan.{LocalEntry, RemoteEntry}
use dropboy.Sync.Engine.{Env, World, on_cloud}
use dropboy.Sync.Engine.Reliable.{IsReliable}
use dropboy.Sync.Snapshot.{
  snapshot_local, snapshot_remote, snapshot_state, walk_folders, index_entries, head_all,
}
use dropboy.Sync.Snapshot.Walked.{TrueTree, Seen, walk_folders-Seen}
use dropboy.Sync.Snapshot.Truthful.{
  has_object, Describes, Stored, head_all-Describes, at_path, one_or_none, index_entries-lem,
}
use dropboy.Sync.Reconcile.{Ranges}
use dropboy.Sync.Reconcile.Executed.{file_at, entry_at, object_at}
use dropboy.Sync.Reconcile.Due.{SeesFile, SeesObject, Listed}
use dropboy.Sync.Reconcile.Second.{Snapped}

-- A range over a map meets what the map has, each key once.
pub record IsRange (ranges : Ranges) : Type 0 where
  pub local : (p : Text) (m : Dict LocalEntry) → lookup p (ranges.local m) ≡ lookup p m
  pub local_once : (m : Dict LocalEntry) → NodupKeys m → NodupKeys (ranges.local m)
  pub remote : (p : Text) (m : Dict RemoteEntry) → lookup p (ranges.remote m) ≡ lookup p m
  pub remote_once : (m : Dict RemoteEntry) → NodupKeys m → NodupKeys (ranges.remote m)

absolute_path :
    (machine_id p : Text)
    → has_prefix p (codes "/") ≡ true
    → path_from_key (key_for machine_id p) machine_id ≡ p
absolute_path machine_id p h =
    let parts = append-trim_prefix p (codes "/") h in
    ap (λ (x : Text). path_from_key (key_for machine_id x) machine_id) (sym parts)
    ∙ path_from_key-key_for machine_id (trim_prefix p (codes "/"))
    ∙ parts

module _ (E : Env) (R : IsReliable E) (machine_id : Text) (glob : Text → Text → Bool) where
  -- Walking meets files with their content, and the two listings tell what there is: the machine's
  -- objects, none of which is hidden, and the entries. A file at the path of one of the objects is met.
  pub record Observable (w : World E) : Type 0 where
    pub machine : w.engine.machine_id ≡ machine_id
    pub walks : (p : Text) → TrueTree E R w.os (E.os.walk p w.os)
    pub objects : List Object
    pub listing : E.cloud.list (key_prefix machine_id) w.cloud ≡ (ok objects, w.cloud)
    pub stored : Stored E R machine_id w objects
    pub all_listed :
        (p : Text)
        → is_some (object_at E R w (key_for machine_id p)) ≡ true
        → has_object (key_for machine_id p) objects ≡ true
    pub entries : List Entry
    pub entry_listing : E.db.list w.db ≡ (ok entries, w.db)
    pub each_entry : (p : Text) → at_path p entries ≡ one_or_none (entry_at E R w p)
    pub met :
        (p : Text)
        → lookup p (walk_folders glob E w.os w.engine.cfg.folders []) ≡ none
        → is_some (object_at E R w (key_for machine_id p)) ≡ true
        → file_at E R w p ≡ none

  module _ (w : World E) (o : Observable w) where
    abbrev walked : Dict LocalEntry
    walked = walk_folders glob E w.os w.engine.cfg.folders []

    walked-Seen : Seen E R w.os walked
    walked-Seen = walk_folders-Seen E R w.os glob w.engine.cfg.folders [] o.walks (record {
      once = tt;
      found = λ p l h. absurd (let f : none ≡ some l = rw lookup-nil at h in cc);
    })

    headed :
        (m : Text) (out : Dict RemoteEntry)
        → m ≡ machine_id
        → head_all E machine_id o.objects [] w ≡ (ok out, w)
        → (on_cloud E (E.cloud.list (key_prefix m)) >>= λ objs. head_all E m objs []) w
          ≡ (ok out, w)
    headed m out same e = rw (same, o.listing) e

    snapshot_remote-Describes :
        (out : Dict RemoteEntry) × (snapshot_remote E w ≡ (ok out, w))
        × NodupKeys out
        × ((p : Text) (r : RemoteEntry) → lookup p out ≡ some r → Describes E R machine_id w p r)
        × ((key : Text)
            → has_object key o.objects ≡ true
            → is_some (lookup (path_from_key key machine_id) out) ≡ true)
    unfolding snapshot_remote
    snapshot_remote-Describes =
        let (out, e, once, sound, grows, all) =
          head_all-Describes E R machine_id w o.objects [] o.stored tt
            (λ p r h. absurd (let f : none ≡ some r = rw lookup-nil at h in cc)) in
        (out, headed w.engine.machine_id out o.machine e, once, sound, all)

    snapshot_state-entries :
        (state : Dict Entry) × (snapshot_state E w ≡ (ok state, w))
        × ((p : Text) → lookup p state ≡ entry_at E R w p)
    unfolding snapshot_state
    snapshot_state-entries = (
      index_entries E o.entries [],
      rw o.entry_listing,
      λ p. index_entries-lem E p o.entries [] (entry_at E R w p) (o.each_entry p) (lookup-nil p),
    )

    module _ (remote : Dict RemoteEntry)
        (describes : (p : Text) (r : RemoteEntry)
          → lookup p remote ≡ some r
          → Describes E R machine_id w p r)
        (all : (key : Text)
          → has_object key o.objects ≡ true
          → is_some (lookup (path_from_key key machine_id) remote) ≡ true)
        (p : Text) where
      -- A path of one of the two maps is absolute.
      path_known :
          Listed E R machine_id (lookup p walked) (lookup p remote)
          → path_from_key (key_for machine_id p) machine_id ≡ p
      path_known here = elim (Option-cases (lookup p walked)) [
        | inr (l, found) ↦ absolute_path machine_id p (walked-Seen.found p l found).0
        | inl missing ↦ elim (Option-cases (lookup p remote)) [
          | inr (r, listed) ↦ absolute_path machine_id p (describes p r listed).2
          | inl unlisted ↦ absurd (rw (missing, unlisted) at here)
        ]
      ]

      file_seen :
          (l : Option LocalEntry)
          → lookup p walked ≡ l
          → Listed E R machine_id l (lookup p remote)
          → SeesFile E R machine_id w p l
      file_seen (some l) h here = (walked-Seen.found p l h).1
      file_seen none h here = elim (Option-cases (lookup p remote)) [
        | inr (r, listed) ↦
            let (b, metadata, absolute, held, k, g) = describes p r listed in
            o.met p h (rw held refl)
        | inl unlisted ↦ absurd (rw unlisted at here)
      ]

      object_seen :
          (r : Option RemoteEntry)
          → lookup p remote ≡ r
          → path_from_key (key_for machine_id p) machine_id ≡ p
          → SeesObject E R machine_id w (key_for machine_id p) r
      object_seen (some r) h at =
          let (b, metadata, absolute, held, k, g) = describes p r h in (b, metadata, held, k, g)
      object_seen none h at = elim (Option-cases (object_at E R w (key_for machine_id p))) [
        | inl missing ↦ missing
        | inr (v, held) ↦
            let found : is_some (lookup p remote) ≡ true =
              rw at at (all (key_for machine_id p) (o.all_listed p (rw held refl))) in
            absurd (let f : is_some {A = RemoteEntry} none ≡ true = rw h at found in cc)
      ]

  -- Where walks meet files with their content under absolute paths, the listings of the bucket and of
  -- the database give just what they hold, no key of the machine has /.dropboy/ in it, and a file at the
  -- path of one of its objects is met, the three snapshots of a pass come through, change nothing, and
  -- are true: of each path that the first two have, they have the hash of the file or that there is
  -- none, the object or that there is none, and the entry or that there is none.
  pub Observable-Snapped :
      (ranges : Ranges) (w : World E)
      → IsRange ranges
      → Observable w
      → Snapped E R machine_id glob ranges w
  unfolding snapshot_local
  Observable-Snapped ranges w range o =
      let (remote, taken, once, describes, all) = snapshot_remote-Describes w o in
      let (state, state_taken, entries) = snapshot_state-entries w o in
      record {
        local = walked w o;
        remote = remote;
        state = state;
        between = w;
        end = w;
        local_taken = refl;
        remote_taken = taken;
        state_taken = state_taken;
        machine = o.machine;
        same = record { files = λ q. refl; entries = λ q. refl; objects = λ k. refl };
        sees = record {
          local_once = range.local_once _ (walked-Seen w o).once;
          remote_once = range.remote_once _ once;
          at = λ p here.
              let here' : Listed E R machine_id (lookup p (walked w o)) (lookup p remote) =
                rw (range.local, range.remote) at here in
              let path = path_known w o remote describes all p here' in
              rw (range.local, range.remote)
                (record {
                  path = path;
                  file = file_seen w o remote describes all p _ refl here';
                  object = object_seen w o remote describes all p _ refl path;
                  entry = sym (entries p);
                });
        };
        ranged = λ p. range.local p _;
      }
