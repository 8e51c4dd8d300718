-- ===== src/Sync/Snapshot/Truthful.antt =====
-- What the snapshots of the bucket and of the database hold, where listing tells what there is.
use dropboy.Base.{
  Text, text_eq, codes, ◌==◌, Option, none, some, is_some, List, [], ◌∷◌, Bool, Bool-cases, true,
  false, inl, inr, any, keep, has_prefix, has_infix, has_prefix-append, trim_prefix, ◌≡◌, refl, ◌∙◌,
  sym, ap, ==-refl, eq_of_==, ==-comm, arith,
}
use dropboy.Base.Dict.{Dict, lookup, insert, lookup-insert, NodupKeys, insert-NodupKeys}
use dropboy.Base.Outcome.{ok}
use dropboy.Store.{Entry}
use dropboy.S3.{Object}
use dropboy.Sync.Keys.{key_prefix, key_for, path_from_key}
use dropboy.Sync.Keys.Laws.{key_for-path_from_key}
use dropboy.Sync.Plan.{RemoteEntry}
use dropboy.Sync.Engine.{Env, World}
use dropboy.Sync.Engine.Reliable.{IsReliable}
use dropboy.Sync.Transfer.{lookup_text}
use dropboy.Sync.Snapshot.{remote_entry, add_remote, head_all, index_entries}

abbrev pub has_object : Text → List Object → Bool
has_object key objs = any (λ o. o.key == key) objs

some_of {ℓ} : {A : Type ℓ} (o : Option A) → is_some o ≡ true → (a : A) × (o ≡ some a)
some_of none h = absurd (cc)
some_of (some a) h = (a, refl)

module _ (E : Env) (R : IsReliable E) (machine_id : Text) where
  -- The map entry of an object with this metadata.
  abbrev pub Describes : World E → Text → RemoteEntry → Type 0
  Describes w p r =
      (b : Text) × (metadata : Dict Text) × (has_prefix p (codes "/") ≡ true)
      × (R.cloud.stored w.cloud (key_for machine_id p) ≡ some (b, metadata))
      × (r.key ≡ key_for machine_id p)
      × (r.hash ≡ lookup_text (codes "dropboy-plain-sha256") metadata)

  -- Each object of the list is stored under a key of the machine that is not hidden.
  abbrev pub Stored : World E → List Object → Type 0
  Stored w objs =
      (key : Text)
      → has_object key objs ≡ true
      → (has_prefix key (key_prefix machine_id) ≡ true)
        × (has_infix key (codes "/.dropboy/") ≡ false)
        × (is_some (R.cloud.stored w.cloud key) ≡ true)

  Stored-tail :
      (w : World E) (o : Object) (objs : List Object) → Stored w (o ∷ objs) → Stored w objs
  Stored-tail w o objs h key m = h key (ground (arith, m))

  insert-Describes :
      (w : World E) (o hd : Object) (b : Text) (metadata : Dict Text) (out : Dict RemoteEntry)
      → has_prefix o.key (key_prefix machine_id) ≡ true
      → R.cloud.stored w.cloud o.key ≡ some (b, metadata)
      → hd.metadata ≡ metadata
      → ((p : Text) (r : RemoteEntry) → lookup p out ≡ some r → Describes w p r)
      → (p : Text) (r : RemoteEntry)
      → lookup p (
          insert
            (path_from_key o.key machine_id)
            (remote_entry E o (path_from_key o.key machine_id) hd)
            out)
        ≡ some r
      → Describes w p r
  unfolding remote_entry path_from_key
  insert-Describes w o hd b metadata out pre held same sound p r h =
      let key = key_for-path_from_key machine_id o.key pre in
      elim (Bool-cases (p == path_from_key o.key machine_id)) [
        | inl e ↦
            let entry : some (remote_entry E o (path_from_key o.key machine_id) hd) ≡ some r =
              rw (lookup-insert, e) at h in
            let at_p : key_for machine_id p ≡ o.key =
              ap (λ (x : Text). key_for machine_id x) (eq_of_== p _ e) ∙ key in
            let is_r : remote_entry E o (path_from_key o.key machine_id) hd ≡ r = cc in
            (
              b,
              metadata,
              rw (eq_of_== p _ e)
                  (has_prefix-append (codes "/") (trim_prefix o.key (key_prefix machine_id))),
              rw at_p held,
              sym (ap (λ (x : RemoteEntry). x.key) is_r) ∙ sym at_p,
              sym (ap (λ (x : RemoteEntry). x.hash) is_r)
                  ∙ ap (λ (x : Dict Text). lookup_text (codes "dropboy-plain-sha256") x) same,
            )
        | inr n ↦ sound p r (rw (lookup-insert, n) at h)
      ]

  is_some-insert :
      (p q : Text) (v : RemoteEntry) (out : Dict RemoteEntry)
      → is_some (lookup p out) ≡ true
      → is_some (lookup p (insert q v out)) ≡ true
  is_some-insert p q v out h =
      rw lookup-insert (elim (Bool-cases (p == q)) [ inl e ↦ rw e | inr n ↦ rw n h ])

  -- The loop over the listing.
  pub head_all-Describes :
      (w : World E) (objs : List Object) (out : Dict RemoteEntry)
      → Stored w objs
      → NodupKeys out
      → ((p : Text) (r : RemoteEntry) → lookup p out ≡ some r → Describes w p r)
      → (out' : Dict RemoteEntry) × (head_all E machine_id objs out w ≡ (ok out', w))
        × NodupKeys out'
        × ((p : Text) (r : RemoteEntry) → lookup p out' ≡ some r → Describes w p r)
        × ((p : Text) → is_some (lookup p out) ≡ true → is_some (lookup p out') ≡ true)
        × ((key : Text)
            → has_object key objs ≡ true
            → is_some (lookup (path_from_key key machine_id) out') ≡ true)
  unfolding head_all add_remote
  head_all-Describes w [] out stored u sound = (out, refl, u, sound, λ p h. h, λ key h. absurd (cc))
  head_all-Describes w (o ∷ objs) out stored u sound =
      let (pre, seen, held) = stored o.key (rw ==-refl refl) in
      let ((b, metadata), found) = some_of (R.cloud.stored w.cloud o.key) held in
      let (hd, e, same) = R.cloud.head w.cloud o.key b metadata found in
      let p₀ = path_from_key o.key machine_id in
      let (out', rest, u', sound', grows, all) =
        head_all-Describes w objs (insert p₀ (remote_entry E o p₀ hd) out)
          (Stored-tail w o objs stored) (insert-NodupKeys p₀ _ out u)
          (insert-Describes w o hd b metadata out pre found same sound) in
      (
        out',
        rw (head_all, seen) (rw e rest),
        u',
        sound',
        λ p h. grows p (is_some-insert p p₀ _ out h),
        λ key h. elim (Bool-cases (o.key == key)) [
          | inl k ↦ grows _ (rw (← eq_of_== o.key key k, lookup-insert, ==-refl p₀) refl)
          | inr n ↦ all key (rw n at h)
        ],
      )

-- The map of a list of entries, over the map before it.
abbrev pub at_path : Text → List Entry → List Entry
at_path p entries = keep (λ e. e.path == p) entries

abbrev pub one_or_none : Option Entry → List Entry
one_or_none none = []
one_or_none (some e) = e ∷ []

module _ (E : Env) where
  index_entries-other :
      (p : Text) (entries : List Entry) (out : Dict Entry)
      → at_path p entries ≡ []
      → lookup p (index_entries E entries out) ≡ lookup p out
  unfolding index_entries
  index_entries-other p [] out h = refl
  index_entries-other p (e ∷ entries) out h = elim (Bool-cases (e.path == p)) [
    | inl same ↦ absurd (let f : e ∷ at_path p entries ≡ [] = rw same at h in cc)
    | inr other ↦
        index_entries-other p entries (insert e.path e out) (rw other at h)
        ∙ rw (lookup-insert, ==-comm p e.path, other) refl
  ]

  -- Where the list has each path once or not at all, so does the map.
  pub index_entries-lem :
      (p : Text) (entries : List Entry) (out : Dict Entry) (o : Option Entry)
      → at_path p entries ≡ one_or_none o
      → lookup p out ≡ none
      → lookup p (index_entries E entries out) ≡ o
  unfolding index_entries
  index_entries-lem p [] out none h l = l
  index_entries-lem p [] out (some e) h l = absurd (cc)
  index_entries-lem p (e ∷ entries) out none h l = elim (Bool-cases (e.path == p)) [
    | inl same ↦ absurd (let f : e ∷ at_path p entries ≡ [] = rw same at h in cc)
    | inr other ↦
        index_entries-lem p entries (insert e.path e out) none (rw other at h)
          (rw (lookup-insert, ==-comm p e.path, other) l)
  ]
  index_entries-lem p (e ∷ entries) out (some e') h l = elim (Bool-cases (e.path == p)) [
    | inl same ↦
        let f : e ∷ at_path p entries ≡ e' ∷ [] = rw same at h in
        let is_e : e ≡ e' = cc in
        let alone : at_path p entries ≡ [] = cc in
        index_entries-other p entries (insert e.path e out) alone
        ∙ rw (lookup-insert, ==-comm p e.path, same) (ap some is_e)
    | inr other ↦
        index_entries-lem p entries (insert e.path e out) (some e') (rw other at h)
          (rw (lookup-insert, ==-comm p e.path, other) l)
  ]
