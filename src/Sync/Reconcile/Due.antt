-- ===== src/Sync/Reconcile/Due.antt =====
-- The plan for true snapshots has for each path at most one operation, which has what it needs.
use dropboy.Base.{
  Text, text_eq, ◌==◌, Option, none, some, List, [], ◌∷◌, Bool-cases, true, false, inl, inr, ◌⊎◌,
  ◌≡◌, refl, ◌∙◌, sym, ap, ==-refl, eq_of_==, arith,
}
use mathlib.Core.Path.{subst}
use dropboy.Base.Outcome.{ok}
use dropboy.Base.Dict.{Dict, lookup, NodupKeys}
use dropboy.Store.{Entry}
use dropboy.Sync.Ops.{OpKind, noop, upload, download, delete_remote, delete_local, conflict, Op}
use dropboy.Sync.Keys.{key_for, path_from_key}
use dropboy.Sync.Plan.{LocalEntry, RemoteEntry, plan}
use dropboy.Sync.Plan.Table.{at_path, verdict, object_key, single, due, plan-due}
use dropboy.Sync.Plan.Table.Cases.{Allowed, verdict-Allowed}
use dropboy.Sync.Engine.{Env, World}
use dropboy.Sync.Engine.Reliable.{IsReliable}
use dropboy.Sync.Transfer.{decrypt_object}
use dropboy.Sync.Reconcile.{local_or_zero}
use dropboy.Sync.Reconcile.Executed.{Needs, hash_of, hash_in, file_at, entry_at, object_at}
use dropboy.Sync.Reconcile.Sequence.{AllOps, Apart, has_path, has_key, Ready}

-- At most one operation.
abbrev pub Once : (Op → Type 0) → List Op → Type 0
Once P [] = Unit {0}
Once P (op ∷ []) = P op
Once P (op ∷ op' ∷ ops) = ⊥

Once-head : (P : Op → Type 0) (op : Op) (ops : List Op) → Once P (op ∷ ops) → P op × (ops ≡ [])
Once-head P op [] h = (h, refl)
Once-head P op (op' ∷ ops) h = absurd h

Once-map :
    (P Q : Op → Type 0) → ((op : Op) → P op → Q op) → (ops : List Op) → Once P ops → Once Q ops
Once-map P Q f [] h = tt
Once-map P Q f (op ∷ []) h = f op h
Once-map P Q f (op ∷ op' ∷ ops) h = h

pub at_path-nil : (p : Text) (ops : List Op) → at_path p ops ≡ [] → has_path p ops ≡ false
at_path-nil p [] h = refl
at_path-nil p (op ∷ ops) h = elim (Bool-cases (op.path == p)) [
  | inl e ↦ absurd (cc)
  | inr n ↦ rw n (at_path-nil p ops (rw n at h))
]

at_path-tail :
    (P : Op → Type 0) (op : Op) (ops : List Op)
    → ((p : Text) → Once P (at_path p (op ∷ ops)))
    → P op × (at_path op.path ops ≡ []) × ((p : Text) → Once P (at_path p ops))
at_path-tail P op ops h =
    let here : Once P (op ∷ at_path op.path ops) = rw (==-refl op.path) at (h op.path) in
    let (fits, alone) = Once-head P op _ here in
    (
      fits,
      alone,
      λ p. elim (Bool-cases (op.path == p)) [
        | inl e ↦ rw (← eq_of_== op.path p e, alone) tt
        | inr n ↦ rw n at (h p)
      ],
    )

module _ (machine_id : Text) where
  abbrev pub Located : Op → Type 0
  Located op = path_from_key op.s3_key machine_id ≡ op.path

  -- A key that is not of a path of the plan is not in the plan.
  pub has_key-located :
      (k : Text) (ops : List Op)
      → AllOps Located ops
      → has_path (path_from_key k machine_id) ops ≡ false
      → has_key k ops ≡ false
  has_key-located k [] a h = refl
  has_key-located k (op ∷ ops) (at, a) h = elim (Bool-cases (op.s3_key == k)) [
    | inl e ↦
        let same : op.path ≡ path_from_key k machine_id =
          sym at ∙ ap (λ (x : Text). path_from_key x machine_id) (eq_of_== op.s3_key k e) in
        let found : (op.path == path_from_key k machine_id) ≡ true =
          rw same (==-refl (path_from_key k machine_id)) in
        absurd (cc)
    | inr n ↦ rw n (has_key-located k ops a (ground arith))
  ]

  module _ (P : Op → Type 0) where
    abbrev pub Fits : Op → Type 0
    Fits op = P op × Located op

    pub Once-AllOps :
        (ops : List Op)
        → ((p : Text) → Once Fits (at_path p ops))
        → AllOps P ops × AllOps Located ops
    Once-AllOps [] h = (tt, tt)
    Once-AllOps (op ∷ ops) h =
        let (fits, alone, rest) = at_path-tail Fits op ops h in
        let (all, located) = Once-AllOps ops rest in ((fits.0, all), (fits.1, located))

    pub Once-Apart : (ops : List Op) → ((p : Text) → Once Fits (at_path p ops)) → Apart ops
    Once-Apart [] h = tt
    Once-Apart (op ∷ ops) h =
        let (fits, alone, rest) = at_path-tail Fits op ops h in
        let free = at_path-nil op.path ops alone in
        (
          free,
          has_key-located op.s3_key ops (Once-AllOps ops rest).1 (rw fits.1 free),
          Once-Apart ops rest,
        )

module _ (E : Env) (R : IsReliable E) (machine_id : Text) where
  -- The snapshot has the file with the hash of its content, or there is none.
  abbrev pub SeesFile : World E → Text → Option LocalEntry → Type 0
  SeesFile w p none = file_at E R w p ≡ none
  SeesFile w p (some l) = (c : Text) × (file_at E R w p ≡ some c) × (l.hash ≡ hash_of E R c)

  -- The snapshot has the object with the hash of its metadata, or there is none.
  abbrev pub SeesObject : World E → Text → Option RemoteEntry → Type 0
  SeesObject w key none = object_at E R w key ≡ none
  SeesObject w key (some r) =
      (b : Text) × (metadata : Dict Text) × (object_at E R w key ≡ some (b, metadata))
      × (r.key ≡ key)
      × (r.hash ≡ hash_in metadata)

  pub record SeesPath (w : World E) (p : Text) (l : Option LocalEntry) (r : Option RemoteEntry)
      (st : Option Entry) : Type 0 where
    pub path : path_from_key (key_for machine_id p) machine_id ≡ p
    pub file : SeesFile w p l
    pub object : SeesObject w (key_for machine_id p) r
    pub entry : entry_at E R w p ≡ st

  -- A path of one of the first two maps.
  abbrev pub Listed : Option LocalEntry → Option RemoteEntry → Type 0
  Listed none none = ⊥
  Listed none (some r) = Unit {0}
  Listed (some l) r = Unit {0}

  -- The three maps say what there is at each path that the first two have.
  pub record Sees (w : World E) (local : Dict LocalEntry) (remote : Dict RemoteEntry)
      (state : Dict Entry) : Type 0 where
    pub local_once : NodupKeys local
    pub remote_once : NodupKeys remote
    pub at :
        (p : Text)
        → Listed (lookup p local) (lookup p remote)
        → SeesPath w p (lookup p local) (lookup p remote) (lookup p state)

  -- Every object of the machine opens under the master key, and has the hash of its content.
  abbrev pub Opens : World E → Type 0
  Opens w =
      (p b : Text) (metadata : Dict Text)
      → object_at E R w (key_for machine_id p) ≡ some (b, metadata)
      → (c : Text) × (decrypt_object E w.engine.master b metadata ≡ ok c)
        × (hash_in metadata ≡ hash_of E R c)

  Needs-Sees :
      (kind : OpKind) (w : World E) (p : Text) (l : Option LocalEntry) (r : Option RemoteEntry)
      (st : Option Entry)
      → Allowed kind l r
      → SeesPath w p l r st
      → Opens w
      → Once
          (Fits machine_id
            (λ op. (op.path ≡ p) × Needs E R w (local_or_zero l) op.kind op.path op.s3_key))
          (single kind p (object_key machine_id p kind r))
  unfolding single object_key
  Needs-Sees upload w p (some l) r st a s o = ((refl, s.file), s.path)
  Needs-Sees upload w p none r st a s o = absurd a
  Needs-Sees download w p l (some r) st a s o =
      let (b, metadata, h, k, same) = s.object in
      let (c, d, hash) = o p b metadata h in
      ((refl, (b, metadata, c, rw k h, d, hash)), rw k s.path)
  Needs-Sees download w p l none st a s o = absurd a
  Needs-Sees delete_remote w p none (some r) st a s o = ((refl, s.file), rw (s.object.3) s.path)
  Needs-Sees delete_remote w p none none st a s o = absurd a
  Needs-Sees delete_remote w p (some l) r st a s o = absurd a
  Needs-Sees delete_local w p l r st a s o = absurd a
  Needs-Sees conflict w p l (some r) st a s o = ((refl, tt), rw (s.object.3) s.path)
  Needs-Sees conflict w p l none st a s o = absurd a
  Needs-Sees noop w p l r st a s o = tt

  pub Listed-cases :
      (l : Option LocalEntry) (r : Option RemoteEntry) → Listed l r ⊎ ((l ≡ none) × (r ≡ none))
  Listed-cases none none = inr (refl, refl)
  Listed-cases none (some r) = inl tt
  Listed-cases (some l) r = inl tt

  pub due-unlisted : (p : Text) (st : Option Entry) → due machine_id p none none st ≡ []
  unfolding due
  due-unlisted p none = refl
  due-unlisted p (some st) = refl

  due-Once :
      (w : World E) (p : Text) (l : Option LocalEntry) (r : Option RemoteEntry) (st : Option Entry)
      → (Listed l r → SeesPath w p l r st)
      → Opens w
      → Once
          (Fits machine_id
            (λ op. (op.path ≡ p) × Needs E R w (local_or_zero l) op.kind op.path op.s3_key))
          (due machine_id p l r st)
  unfolding due
  due-Once w p l r st s o = elim (Listed-cases l r) [
    | inl here ↦ Needs-Sees (verdict l r st) w p l r st (verdict-Allowed l r st) (s here) o
    | inr gone ↦ rw (gone.0, gone.1, due-unlisted p st) tt
  ]

  -- The map that the operations read may be in another order than the one that is ranged over.
  pub plan-Once :
      (w : World E) (read local : Dict LocalEntry) (remote : Dict RemoteEntry) (state : Dict Entry)
      → Sees w local remote state
      → Opens w
      → ((p : Text) → lookup p local ≡ lookup p read)
      → (p : Text)
      → Once (Fits machine_id (Ready E R read w)) (at_path p (plan local remote state machine_id))
  plan-Once w read local remote state s o same p =
      rw (plan-due machine_id p local remote state s.local_once s.remote_once) (
        Once-map
          (Fits machine_id (λ op.
            (op.path ≡ p) × Needs E R w (local_or_zero (lookup p local)) op.kind op.path op.s3_key))
          (Fits machine_id (Ready E R read w))
          (λ op h. (
            subst (λ x. Needs E R w (local_or_zero (lookup x read)) op.kind op.path op.s3_key)
                (sym h.0.0) (rw (← same p) h.0.1),
            h.1,
          ))
          _ (due-Once w p (lookup p local) (lookup p remote) (lookup p state) (s.at p) o))
