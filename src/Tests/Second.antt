-- ===== src/Tests/Second.antt =====
-- Two passes over a folder with a new file, from which a file that was synced has gone.
use mathlib.Core.Path.{subst}
use dropboy.Base.{
  Text, codes, text_eq, nat_eq, ◌==◌, ==-comm, Option, none, some, is_some, [], ◌∷◌, ◌++◌, ◌≡◌, ◌≢◌,
  refl, sym, true, false, has_prefix, has_infix, hex_encode, Bool, Bool-cases, inl, inr, ◌⊎◌,
  eq_of_==,
}
use dropboy.Base.Dict.{Dict, lookup, insert, erase}
use dropboy.Base.Outcome.{ok}
use dropboy.Store.{Entry}
use dropboy.Sync.Ops.{upload, conflict}
use dropboy.Sync.Keys.{key_for, key_prefix, path_from_key}
use dropboy.Sync.Plan.{LocalEntry, RemoteEntry, plan}
use dropboy.Sync.Plan.Table.{at_path, verdict}
use dropboy.Sync.Engine.{World, new_engine}
use dropboy.Sync.Snapshot.{
  walk_folders, walk_tree, excluded, head_all, index_entries, snapshot_local, snapshot_remote,
  snapshot_state,
}
use dropboy.Crypto.Envelope.{
  new_gcm, open_sealed, unwrap_key, open_payload, generate_key, wrap_key, seal_payload,
}
use dropboy.Sync.Transfer.{upload_metadata, upload_entry, do_upload, decrypt_object}
use dropboy.Sync.Reconcile.{reconcile_once, run_plan, execute_all, execute}
use dropboy.Sync.Reconcile.Executed.{hash_in, hash_of}
use dropboy.S3.{Object}
use dropboy.Sync.Snapshot.Walked.{TrueTree}
use dropboy.Sync.Snapshot.Truthful.{has_object}
use dropboy.Sync.Reconcile.Observed.{IsRange, Observable, Observable-Snapped}
use dropboy.Sync.Reconcile.Due.{Listed, Opens}
use dropboy.Sync.Reconcile.Second.{Snapped, plan_of, plan-reconcile_once}
use dropboy.Config
use dropboy.Config.{Config}
use dropboy.Tests.Memory.{sevens, memory_env, memory_env-IsReliable}
use dropboy.Tests.Sync.{thirty_two, as_listed}

abbrev here : Text
here = codes "/a"

abbrev gone : Text
gone = codes "/b"

abbrev no_match : Text → Text → Bool
no_match p n = false

-- A new file, and an object and an entry of a file that is no longer there.
abbrev gone_metadata : Dict Text
gone_metadata =
    (codes "dropboy-plain-sha256", hex_encode (codes "x"))
    ∷ (codes "dropboy-nonce", sevens 12)
    ∷ (codes "dropboy-dek-nonce", sevens 12)
    ∷ (codes "dropboy-dek", sevens 15 ++ (1 ∷ sevens 32))
    ∷ []

abbrev gone_body : Text
gone_body = sevens 15 ++ (7 ∷ codes "x")

abbrev gone_entry : Entry
gone_entry = record {
  path = gone;
  local_mtime = 1;
  local_size = 1;
  local_hash = hex_encode (codes "x");
  s3_key = key_for (codes "m1") gone;
  s3_etag = [];
  s3_version_id = [];
  nonce_b64 = [];
  dek_nonce_b64 = [];
  sealed_dek_b64 = [];
  last_synced_at = 2;
}

abbrev start : World memory_env
start = record {
  os = (here, codes "hello") ∷ [];
  db = (gone, gone_entry) ∷ [];
  cloud = (key_for (codes "m1") gone, (gone_body, gone_metadata)) ∷ [];
  engine =
      new_engine
        (record Config.default { folders = record { path = codes "/"; exclude = [] } ∷ [] })
        thirty_two (codes "m1");
}

abbrev next : World memory_env
next = (reconcile_once memory_env no_match as_listed start).1

abbrev local_found : Dict LocalEntry
local_found =
    (here, record { path = here; size = 5; mtime = 11; hash = hex_encode (codes "hello") }) ∷ []

abbrev remote_found : Text → Text → Dict Text → RemoteEntry
remote_found p key metadata = record {
  key = key;
  path = p;
  hash = hex_encode (codes "x");
  size = 0;
  etag = codes "e";
  metadata = metadata;
}

Listed-here :
    (l : LocalEntry) (r : RemoteEntry) (p : Text)
    → Listed memory_env memory_env-IsReliable
        (codes "m1")
        (lookup p ((here, l) ∷ []))
        (lookup p ((gone, r) ∷ []))
    → (p ≡ here) ⊎ (p ≡ gone)
unfolding lookup
Listed-here l r p h = elim (Bool-cases (p == here)) [
  | inl e ↦ inl (eq_of_== p here e)
  | inr n ↦ elim (Bool-cases (p == gone)) [
    | inl e ↦ inr (eq_of_== p gone e)
    | inr m ↦ absurd (rw (n, m) at h)
  ]
]

first_snapshots : Snapped memory_env memory_env-IsReliable (codes "m1") no_match as_listed start
unfolding lookup text_eq nat_eq new_engine key_for path_from_key key_prefix has_prefix has_infix
    hex_encode snapshot_local walk_folders walk_tree excluded snapshot_remote head_all
    snapshot_state index_entries insert memory_env-IsReliable
first_snapshots = record {
  local = local_found;
  remote = (gone, remote_found gone (key_for (codes "m1") gone) gone_metadata) ∷ [];
  state = (gone, gone_entry) ∷ [];
  between = start;
  end = start;
  local_taken = refl;
  remote_taken = refl;
  state_taken = refl;
  machine = refl;
  same = record { files = λ q. refl; entries = λ q. refl; objects = λ k. refl };
  sees = record {
    local_once = (refl, tt);
    remote_once = (refl, tt);
    at = λ p h. elim (Listed-here _ _ p h) [
      | inl e ↦
          rw e (record {
            path = refl;
            file = (codes "hello", refl, refl);
            object = refl;
            entry = refl;
          })
      | inr e ↦ rw e (record {
        path = refl;
        file = refl;
        object = (gone_body, gone_metadata, refl, refl, refl);
        entry = refl;
      })
    ];
  };
  ranged = λ p. refl;
}

only_object :
    (k key b b' : Text) (m m' : Dict Text)
    → lookup {V = Text × Dict Text} k ((key, (b, m)) ∷ []) ≡ some (b', m')
    → (b ≡ b') × (m ≡ m')
unfolding lookup
only_object k key b b' m m' h = elim (Bool-cases (k == key)) [
  | inl e ↦
      let f : ◌≡◌ {A = Option (Text × Dict Text)} (some (b, m)) (some (b', m')) = rw e at h in
      (cc, cc)
  | inr n ↦
      let f : ◌≡◌ {A = Option (Text × Dict Text)} none (some (b', m')) = rw n at h in absurd (cc)
]

gone_opens :
    (c : Text) × (decrypt_object memory_env thirty_two gone_body gone_metadata ≡ ok c)
    × (hash_in gone_metadata ≡ hash_of memory_env memory_env-IsReliable c)
unfolding lookup text_eq nat_eq decrypt_object unwrap_key open_payload open_sealed new_gcm
    hex_encode
gone_opens = (codes "x", refl, refl)

start-Opens : Opens memory_env memory_env-IsReliable (codes "m1") start
unfolding memory_env-IsReliable new_engine
start-Opens p b m h =
    let (e, f) =
      only_object (key_for (codes "m1") p) (key_for (codes "m1") gone) gone_body b gone_metadata m
        h in
    rw (← e, ← f) gone_opens

upload-ne-conflict : upload ≢ conflict
upload-ne-conflict e = cc

both_here :
    (l : LocalEntry) (r : RemoteEntry) (p : Text)
    → Listed memory_env memory_env-IsReliable
        (codes "m1")
        (lookup p ((here, l) ∷ []))
        (lookup p ((here, r) ∷ []))
    → p ≡ here
unfolding lookup
both_here l r p h = elim (Bool-cases (p == here)) [
  | inl e ↦ eq_of_== p here e
  | inr n ↦ absurd (rw n at h)
]

-- What the first pass put into the bucket.
abbrev sent_metadata : Dict Text
sent_metadata =
    upload_metadata memory_env
      (record { path = here; size = 5; mtime = 11; hash = hex_encode (codes "hello") }) (sevens 12)
      (record { nonce = sevens 12; ciphertext = sevens 15 ++ (1 ∷ sevens 32) })

next_snapshots : Snapped memory_env memory_env-IsReliable (codes "m1") no_match as_listed next
unfolding lookup text_eq nat_eq new_engine key_for path_from_key key_prefix has_prefix has_infix
    hex_encode snapshot_local walk_folders walk_tree excluded snapshot_remote head_all
    snapshot_state index_entries insert memory_env-IsReliable reconcile_once run_plan execute_all
    plan execute do_upload generate_key seal_payload new_gcm wrap_key erase upload_entry
    upload_metadata
next_snapshots = record {
  local = local_found;
  remote =
      (
        here,
        record (remote_found here (key_for (codes "m1") here) sent_metadata) {
          hash = hex_encode (codes "hello");
          size = 5;
        },
      )
      ∷ [];
  state = next.db;
  between = next;
  end = next;
  local_taken = refl;
  remote_taken = refl;
  state_taken = refl;
  machine = refl;
  same = record { files = λ q. refl; entries = λ q. refl; objects = λ k. refl };
  sees = record {
    local_once = (refl, tt);
    remote_once = (refl, tt);
    at = λ p h. rw (both_here _ _ p h) (record {
      path = refl;
      file = (codes "hello", refl, refl);
      object = (sevens 15 ++ (7 ∷ codes "hello"), sent_metadata, refl, refl, refl);
      entry = refl;
    });
  };
  ranged = λ p. refl;
}

plan-reconcile_once_example :
    ((reconcile_once memory_env no_match as_listed start).0
      ≡ ok (
          plan_of memory_env memory_env-IsReliable
            (codes "m1")
            no_match
            as_listed
            start
            first_snapshots))
    × (at_path here (
          plan_of memory_env memory_env-IsReliable
            (codes "m1")
            no_match
            as_listed
            next
            next_snapshots)
        ≡ [])
unfolding first_snapshots next_snapshots lookup text_eq verdict new_engine
plan-reconcile_once_example =
    plan-reconcile_once memory_env memory_env-IsReliable (codes "m1") no_match as_listed start
      first_snapshots refl start-Opens as_listed next_snapshots here (λ _. tt) upload-ne-conflict

gone_key : (k : Text) → is_some (lookup k start.cloud) ≡ true → k ≡ key_for (codes "m1") gone
unfolding lookup
gone_key k h = elim (Bool-cases (k == key_for (codes "m1") gone)) [
  | inl e ↦ eq_of_== k _ e
  | inr n ↦ absurd (let f : is_some {A = Text × Dict Text} none ≡ true = rw n at h in cc)
]

abbrev gone_object : Object
gone_object = record {
  key = key_for (codes "m1") gone;
  size = 17;
  etag = codes "e";
  version_id = codes "v";
  last_modified = 3;
  metadata = gone_metadata;
}

only_listed : (k : Text) → has_object k (gone_object ∷ []) ≡ true → k ≡ key_for (codes "m1") gone
only_listed k h = elim (Bool-cases (key_for (codes "m1") gone == k)) [
  | inl e ↦ sym (eq_of_== _ k e)
  | inr n ↦ absurd (let f : false ≡ true = rw n at h in cc)
]

gone_listed :
    (k : Text) → is_some (lookup k start.cloud) ≡ true → has_object k (gone_object ∷ []) ≡ true
unfolding text_eq nat_eq key_for key_prefix
gone_listed k h = subst (λ x. has_object x (gone_object ∷ []) ≡ true) (sym (gone_key k h)) refl

start-Observable : Observable memory_env memory_env-IsReliable (codes "m1") no_match start
unfolding memory_env-IsReliable TrueTree lookup text_eq nat_eq new_engine key_for key_prefix
    has_prefix has_infix walk_folders walk_tree excluded insert
start-Observable = record {
  machine = refl;
  walks = λ p. ((refl, λ c h. h), tt);
  objects = gone_object ∷ [];
  listing = refl;
  stored = λ k h.
      subst
        (λ x.
          (has_prefix x (key_prefix (codes "m1")) ≡ true)
          × (has_infix x (codes "/.dropboy/") ≡ false)
          × (is_some (lookup x start.cloud) ≡ true))
        (sym (only_listed k h)) (refl, refl, refl);
  all_listed = λ p h. gone_listed (key_for (codes "m1") p) h;
  entries = gone_entry ∷ [];
  entry_listing = refl;
  each_entry = λ p. elim (Bool-cases (p == gone)) [
    | inl e ↦ rw (==-comm gone p, e)
    | inr n ↦ rw (==-comm gone p, n)
  ];
  met = λ p h k. elim (Bool-cases (p == here)) [
    | inl e ↦
        absurd
          (let f : ◌≡◌ {A = Option LocalEntry} (lookup here local_found) none = rw e at h in cc)
    | inr n ↦ rw n
  ];
}

as_listed-IsRange : IsRange as_listed
as_listed-IsRange = record {
  local = λ p m. refl;
  local_once = λ m u. u;
  remote = λ p m. refl;
  remote_once = λ m u. u;
}

Observable-Snapped_example :
    Snapped memory_env memory_env-IsReliable (codes "m1") no_match as_listed start
Observable-Snapped_example =
    Observable-Snapped memory_env memory_env-IsReliable (codes "m1") no_match as_listed start
      as_listed-IsRange start-Observable
