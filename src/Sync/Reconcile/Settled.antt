-- ===== src/Sync/Reconcile/Settled.antt =====
-- What a pass over true snapshots settles.
use dropboy.Base.{
  Text, Option, none, some, List, [], ◌∷◌, Bool-cases, inl, inr, ◌==◌, text_eq, length, ◌≡◌, ◌≢◌,
  refl, ◌∙◌, sym,
}
use dropboy.Base.Dict.{Dict}
use dropboy.Base.Outcome.{ok}
use dropboy.Store.{Entry}
use dropboy.Sync.Ops.{OpKind, noop, upload, download, delete_remote, delete_local, conflict, Op}
use dropboy.Sync.Keys.{key_for}
use dropboy.Sync.Plan.{LocalEntry, RemoteEntry}
use dropboy.Sync.Plan.Table.{at_path, verdict, object_key, single, verdict_same}
use dropboy.Sync.Plan.Table.Cases.{Allowed, verdict-ext, SameLocal, SameRemote}
use dropboy.Sync.Engine.{Env, World}
use dropboy.Sync.Engine.Reliable.{IsReliable}
use dropboy.Sync.Reconcile.{queued, run_plan, finish}
use dropboy.Sync.Reconcile.Executed.{Synced, Gone, hash_of, hash_in, file_at, entry_at, object_at}
use dropboy.Sync.Reconcile.Sequence.{AllOps, Apart, Outside, Left, Ready, execute_all-Left}
use dropboy.Sync.Reconcile.Due.{SeesPath, SeesFile, SeesObject}

pub AllOps-at_path :
    (P : Op → Type 0) (p : Text) (ops : List Op) → AllOps P ops → AllOps P (at_path p ops)
AllOps-at_path P p [] a = tt
AllOps-at_path P p (op ∷ ops) (h, a) = elim (Bool-cases (op.path == p)) [
  | inl e ↦ rw e (h, AllOps-at_path P p ops a)
  | inr n ↦ rw n (AllOps-at_path P p ops a)
]

module _ (E : Env) (R : IsReliable E) (machine_id : Text) where
  -- One content is one hash.
  hash_unique :
      {o : Option Text} (a b : Text) → o ≡ some a → o ≡ some b → hash_of E R a ≡ hash_of E R b
  hash_unique a b p q = cc

  SameLocal-Sees :
      (w u : World E) (p : Text) (l l' : Option LocalEntry)
      → file_at E R u p ≡ file_at E R w p
      → SeesFile E R machine_id w p l
      → SeesFile E R machine_id u p l'
      → SameLocal l l'
  SameLocal-Sees w u p none none e s s' = tt
  SameLocal-Sees w u p none (some l) e s s' = absurd (cc (s'.1))
  SameLocal-Sees w u p (some l) none e s s' = absurd (cc (s.1))
  SameLocal-Sees w u p (some l) (some l') e (c, h, k) (c', h', k') =
      k ∙ hash_unique c c' h (sym e ∙ h') ∙ sym k'

  metadata_unique :
      {o : Option (Text × Dict Text)} (b b' : Text) (m m' : Dict Text)
      → o ≡ some (b, m)
      → o ≡ some (b', m')
      → hash_in m ≡ hash_in m'
  metadata_unique b b' m m' p q = cc

  SameRemote-Sees :
      (w u : World E) (key : Text) (r r' : Option RemoteEntry)
      → object_at E R u key ≡ object_at E R w key
      → SeesObject E R machine_id w key r
      → SeesObject E R machine_id u key r'
      → SameRemote r r'
  SameRemote-Sees w u key none none e s s' = tt
  SameRemote-Sees w u key none (some r) e s s' = absurd (cc (s'.2))
  SameRemote-Sees w u key (some r) none e s s' = absurd (cc (s.2))
  SameRemote-Sees w u key (some r) (some r') e (b, m, h, k, g) (b', m', h', k', g') =
      g ∙ metadata_unique b b' m m' h (sym e ∙ h') ∙ sym g'

  -- The next compare of what an operation left.
  Synced-noop :
      (u : World E) (p : Text) (l : Option LocalEntry) (r : Option RemoteEntry) (st : Option Entry)
      → Synced E R u p (key_for machine_id p)
      → SeesPath E R machine_id u p l r st
      → verdict l r st ≡ noop
  Synced-noop u p none r st a s = absurd (cc (s.file, a.file))
  Synced-noop u p (some l) none st a s = absurd (cc (s.object, a.object))
  Synced-noop u p (some l) (some r) st a s =
      let (c, h, k) = s.file in
      let (b, m, h', k', g) = s.object in
      rw (← s.entry, a.known)
        (verdict_same l r a.entry (a.entry_hash ∙ hash_unique a.content c a.file h ∙ sym k) (
          g
          ∙ metadata_unique b a.body m a.metadata h' a.object
          ∙ a.object_hash
          ∙ hash_unique a.content c a.file h
          ∙ sym k))

  Gone-noop :
      (u : World E) (p : Text) (l : Option LocalEntry) (r : Option RemoteEntry) (st : Option Entry)
      → Gone E R u p (key_for machine_id p)
      → SeesPath E R machine_id u p l r st
      → verdict l r st ≡ noop
  unfolding verdict
  Gone-noop u p (some l) r st a s = absurd (cc (s.file.1, a.file))
  Gone-noop u p none (some r) st a s = absurd (cc (s.object.2, a.object))
  Gone-noop u p none none none a s = refl
  Gone-noop u p none none (some st) a s = refl

  pub object_key-Sees :
      (kind : OpKind) (w : World E) (p : Text) (l : Option LocalEntry) (r : Option RemoteEntry)
      → Allowed kind l r
      → kind ≢ noop
      → SeesObject E R machine_id w (key_for machine_id p) r
      → object_key machine_id p kind r ≡ key_for machine_id p
  unfolding object_key
  object_key-Sees upload w p l r a n s = refl
  object_key-Sees download w p l (some r) a n s = s.3
  object_key-Sees download w p l none a n s = absurd a
  object_key-Sees delete_remote w p l (some r) a n s = s.3
  object_key-Sees delete_remote w p none none a n s = absurd a
  object_key-Sees delete_remote w p (some l) none a n s = absurd a
  object_key-Sees delete_local w p l r a n s = absurd a
  object_key-Sees conflict w p l (some r) a n s = s.3
  object_key-Sees conflict w p l none a n s = absurd a
  object_key-Sees noop w p l r a n s = absurd (n refl)

  module _ (w u : World E) (p : Text) (l : Option LocalEntry) (r : Option RemoteEntry)
      (st : Option Entry) (l' : Option LocalEntry) (r' : Option RemoteEntry) (st' : Option Entry)
      (before : SeesPath E R machine_id w p l r st)
      (after : SeesPath E R machine_id u p l' r' st') where
    -- What is as it was has the verdict that it had.
    pub kept-noop :
        file_at E R u p ≡ file_at E R w p
        → entry_at E R u p ≡ entry_at E R w p
        → object_at E R u (key_for machine_id p) ≡ object_at E R w (key_for machine_id p)
        → verdict l r st ≡ noop
        → verdict l' r' st' ≡ noop
    kept-noop f e o h =
        let same : st' ≡ st = sym after.entry ∙ e ∙ before.entry in
        rw same (
          sym (
            verdict-ext l l' r r' st (SameLocal-Sees w u p l l' f before.file after.file)
              (SameRemote-Sees w u _ r r' o before.object after.object))
          ∙ h)

    -- What was due is done.
    pub done-noop :
        (kind : OpKind)
        → Allowed kind l r
        → kind ≢ conflict
        → AllOps (Left E R u) (single kind p (key_for machine_id p))
        → (kind ≡ noop → verdict l' r' st' ≡ noop)
        → verdict l' r' st' ≡ noop
    unfolding single
    done-noop upload a nc left n = Synced-noop u p l' r' st' left.0 after
    done-noop download a nc left n = Synced-noop u p l' r' st' left.0 after
    done-noop delete_remote a nc left n = Gone-noop u p l' r' st' left.0 after
    done-noop delete_local a nc left n = absurd a
    done-noop conflict a nc left n = absurd (nc refl)
    done-noop noop a nc left n = n refl

  -- The loop and what follows it.
  pub run_plan-Left :
      (local : Dict LocalEntry) (ops : List Op) (w : World E)
      → length w.engine.master ≡ 32
      → Apart ops
      → AllOps (Ready E R local w) ops
      → (u v : World E) × (run_plan E local ops w ≡ (ok ops, v))
        × AllOps (Left E R u) ops
        × Outside E R ops w u
        × ((q : Text) → file_at E R v q ≡ file_at E R u q)
        × (v.db ≡ u.db)
        × (v.cloud ≡ u.cloud)
  unfolding run_plan finish
  run_plan-Left local ops w m apart ready =
      let start = record w { engine = queued E ops w.engine } in
      let (u, e, left, outside) = execute_all-Left E R local ops start m apart ready in
      (
        u,
        (run_plan E local ops w).1,
        rw e,
        left,
        record {
          files = outside.files;
          entries = outside.entries;
          objects = outside.objects;
          master = outside.master;
        },
        rw e (λ q. R.os.now u.os q),
        rw e,
        rw e,
      )
