-- ===== src/Sync/Reconcile/Second.antt =====
-- What a second pass has to do after a first one.
use mathlib.Core.Path.{subst}
use dropboy.Base.{
  Text, Option, none, some, List, [], Bool, Bool-cases, ◌==◌, eq_of_==, ne_of_==, inl, inr, ◌⊎◌,
  length, ◌≡◌, ◌≢◌, ◌∙◌, sym, ap,
}
use dropboy.Base.Dict.{Dict, lookup}
use dropboy.Base.Outcome.{Outcome, ok}
use dropboy.Store.{Entry}
use dropboy.Sync.Ops.{OpKind, op_kind_eq, noop, conflict, Op}
use dropboy.Sync.Keys.{key_for}
use dropboy.Sync.Plan.{LocalEntry, RemoteEntry, plan}
use dropboy.Sync.Plan.Table.{at_path, verdict, object_key, single, due, plan-due}
use dropboy.Sync.Plan.Table.Cases.{verdict-Allowed}
use dropboy.Sync.Engine.{Env, World}
use dropboy.Sync.Engine.Reliable.{IsReliable}
use dropboy.Sync.Snapshot.{snapshot_local, snapshot_remote, snapshot_state}
use dropboy.Sync.Reconcile.{Ranges, run_plan, reconcile_once}
use dropboy.Sync.Reconcile.Executed.{file_at, entry_at, object_at}
use dropboy.Sync.Reconcile.Sequence.{AllOps, Outside, Left}
use dropboy.Sync.Reconcile.Due.{
  SeesPath, Sees, SeesFile, SeesObject, Listed, Listed-cases, Opens, due-unlisted, plan-Once,
  Once-AllOps, Once-Apart, at_path-nil, has_key-located, Located,
}
use dropboy.Sync.Reconcile.Settled.{
  AllOps-at_path, run_plan-Left, kept-noop, done-noop, object_key-Sees,
}

OpKind-cases : (k : OpKind) → (k ≡ noop) ⊎ (k ≢ noop)
OpKind-cases k = elim (Bool-cases (k == noop)) [
  | inl e ↦ inl (eq_of_== k noop e)
  | inr n ↦ inr (ne_of_== k noop n)
]

module _ (E : Env) (R : IsReliable E) (machine_id : Text) where
  -- Two worlds with the same files, entries and objects.
  pub record Same (w u : World E) : Type 0 where
    pub files : (q : Text) → file_at E R u q ≡ file_at E R w q
    pub entries : (q : Text) → entry_at E R u q ≡ entry_at E R w q
    pub objects : (k : Text) → object_at E R u k ≡ object_at E R w k

  SeesFile-Same :
      (w u : World E) (p : Text) (l : Option LocalEntry)
      → Same w u
      → SeesFile E R machine_id u p l
      → SeesFile E R machine_id w p l
  SeesFile-Same w u p none e s = sym (e.files p) ∙ s
  SeesFile-Same w u p (some l) e (c, h, k) = (c, sym (e.files p) ∙ h, k)

  SeesObject-Same :
      (w u : World E) (key : Text) (r : Option RemoteEntry)
      → Same w u
      → SeesObject E R machine_id u key r
      → SeesObject E R machine_id w key r
  SeesObject-Same w u key none e s = sym (e.objects key) ∙ s
  SeesObject-Same w u key (some r) e (b, m, h, k, g) = (b, m, sym (e.objects key) ∙ h, k, g)

  SeesPath-Same :
      (w u : World E) (p : Text) (l : Option LocalEntry) (r : Option RemoteEntry)
      (st : Option Entry)
      → Same w u
      → SeesPath E R machine_id u p l r st
      → SeesPath E R machine_id w p l r st
  SeesPath-Same w u p l r st e s = record {
    path = s.path;
    file = SeesFile-Same w u p l e s.file;
    object = SeesObject-Same w u _ r e s.object;
    entry = sym (e.entries p) ∙ s.entry;
  }

  Same-trans : (w u v : World E) → Same w u → Same u v → Same w v
  Same-trans w u v e f = record {
    files = λ q. f.files q ∙ e.files q;
    entries = λ q. f.entries q ∙ e.entries q;
    objects = λ k. f.objects k ∙ e.objects k;
  }

  -- The three snapshots of a pass come through, change nothing and are true, and a map that is
  -- ranged over is the map.
  pub record Snapped (glob : Text → Text → Bool) (ranges : Ranges) (w : World E) : Type 0 where
    pub local : Dict LocalEntry
    pub remote : Dict RemoteEntry
    pub state : Dict Entry
    pub between : World E
    pub end : World E
    pub local_taken : snapshot_local glob E w ≡ (ok local, w)
    pub remote_taken : snapshot_remote E w ≡ (ok remote, between)
    pub state_taken : snapshot_state E between ≡ (ok state, end)
    pub machine : end.engine.machine_id ≡ machine_id
    pub same : Same w end
    pub sees : Sees E R machine_id end (ranges.local local) (ranges.remote remote) state
    pub ranged : (p : Text) → lookup p (ranges.local local) ≡ lookup p local

  -- The plan of a pass.
  abbrev pub plan_of :
      (glob : Text → Text → Bool) (ranges : Ranges) (w : World E) → Snapped glob ranges w → List Op
  plan_of glob ranges w s = plan (ranges.local s.local) (ranges.remote s.remote) s.state machine_id

  abbrev pub verdict_of :
      (glob : Text → Text → Bool) (ranges : Ranges) (w : World E)
      → Snapped glob ranges w
      → Text
      → OpKind
  verdict_of glob ranges w s p =
      verdict (lookup p (ranges.local s.local)) (lookup p (ranges.remote s.remote))
        (lookup p s.state)

  reconcile_once-Snapped :
      (glob : Text → Text → Bool) (ranges : Ranges) (w : World E) (s : Snapped glob ranges w)
      → reconcile_once E glob ranges w ≡ run_plan E s.local (plan_of glob ranges w s) s.end
  unfolding reconcile_once
  reconcile_once-Snapped glob ranges w s =
      rw (s.local_taken, s.remote_taken, s.state_taken, s.machine)

  due-noop :
      (p : Text) (l : Option LocalEntry) (r : Option RemoteEntry) (st : Option Entry)
      → verdict l r st ≡ noop
      → due machine_id p l r st ≡ []
  unfolding due single
  due-noop p l r st h = rw h

  single_noop : (k : OpKind) (p a b : Text) → k ≡ noop → single k p a ≡ single k p b
  unfolding single
  single_noop k p a b e = rw e

  single-due :
      (p : Text) (l : Option LocalEntry) (r : Option RemoteEntry) (st : Option Entry)
      → (verdict l r st ≢ noop → object_key machine_id p (verdict l r st) r ≡ key_for machine_id p)
      → (P : List Op → Type 0) → P (due machine_id p l r st)
      → P (single (verdict l r st) p (key_for machine_id p))
  unfolding due
  single-due p l r st k P h = elim (OpKind-cases (verdict l r st)) [
    | inl e ↦ subst P (single_noop (verdict l r st) p _ _ e) h
    | inr n ↦ rw (← k n) h
  ]

  module _ (glob : Text → Text → Bool) (ranges : Ranges) (w : World E) (s : Snapped glob ranges w)
      (m : length s.end.engine.master ≡ 32) (o : Opens E R machine_id s.end) where
    -- What the loop over the plan leaves, before the clock is read.
    ran :
        (u v : World E) × (reconcile_once E glob ranges w ≡ (ok (plan_of glob ranges w s), v))
        × AllOps (Left E R u) (plan_of glob ranges w s)
        × Outside E R (plan_of glob ranges w s) s.end u
        × AllOps (Located machine_id) (plan_of glob ranges w s)
        × Same u v
    ran =
        let once =
          plan-Once E R machine_id s.end s.local (ranges.local s.local) (ranges.remote s.remote)
            s.state s.sees o s.ranged in
        let (ready, located) = Once-AllOps machine_id _ _ once in
        let (u, v, e, left, outside, files, db, cloud) =
          run_plan-Left E R machine_id s.local (plan_of glob ranges w s) s.end m
            (Once-Apart machine_id _ _ once) ready in
        (
          u,
          v,
          reconcile_once-Snapped glob ranges w s ∙ e,
          left,
          outside,
          located,
          record {
            files = files;
            entries = λ q. ap (λ (d : E.db.State). R.db.entry d q) db;
            objects = λ k. ap (λ (c : E.cloud.State). R.cloud.stored c k) cloud;
          },
        )

    -- A path of the maps that was not in conflict is settled for any later snapshot of it.
    settled :
        (u : World E) (p : Text) (l' : Option LocalEntry) (r' : Option RemoteEntry)
        (st' : Option Entry)
        → AllOps (Left E R u) (plan_of glob ranges w s)
        → Outside E R (plan_of glob ranges w s) s.end u
        → AllOps (Located machine_id) (plan_of glob ranges w s)
        → Listed E R machine_id
            (lookup p (ranges.local s.local))
            (lookup p (ranges.remote s.remote))
        → verdict_of glob ranges w s p ≢ conflict
        → SeesPath E R machine_id u p l' r' st'
        → verdict l' r' st' ≡ noop
    settled u p l' r' st' left outside located here free after =
        let before = s.sees.at p here in
        let l = lookup p (ranges.local s.local) in
        let r = lookup p (ranges.remote s.remote) in
        let st = lookup p s.state in
        let table =
          plan-due machine_id p (ranges.local s.local) (ranges.remote s.remote) s.state
            s.sees.local_once s.sees.remote_once in
        let allowed = verdict-Allowed l r st in
        let at_p : AllOps (Left E R u) (due machine_id p l r st) =
          subst (AllOps (Left E R u)) table (AllOps-at_path _ p _ left) in
        done-noop E R machine_id s.end u p l r st l' r' st' before after (verdict l r st) allowed
          free
          (single-due p l r st
            (λ n.
              object_key-Sees E R machine_id (verdict l r st) s.end p l r allowed n before.object)
            (AllOps (Left E R u)) at_p)
          (λ h.
            let none_due = at_path-nil p _ (table ∙ due-noop p l r st h) in
            kept-noop E R machine_id s.end u p l r st l' r' st' before after
              (outside.files p none_due) (outside.entries p none_due)
              (outside.objects _ (
                has_key-located machine_id (key_for machine_id p) _ located
                  (rw before.path none_due)))
              h)

    -- Where no call fails, the master key has 32 bytes, every object of the machine opens under it to
    -- a content with the hash in its metadata, and the three snapshots of a pass are true and change
    -- nothing, the pass succeeds and returns its plan. Where the snapshots of a next pass are true of
    -- what it left, the next plan has no operation for a path that was not in conflict, if its path
    -- is one of the maps of the first pass or not one of those of the next.
    pub plan-reconcile_once :
        (ranges' : Ranges) (s' : Snapped glob ranges' (reconcile_once E glob ranges w).1) (p : Text)
        → (Listed E R machine_id
              (lookup p (ranges'.local s'.local))
              (lookup p (ranges'.remote s'.remote))
            → Listed E R machine_id
                (lookup p (ranges.local s.local))
                (lookup p (ranges.remote s.remote)))
        → verdict_of glob ranges w s p ≢ conflict
        → ((reconcile_once E glob ranges w).0 ≡ ok (plan_of glob ranges w s))
          × (at_path p (plan_of glob ranges' (reconcile_once E glob ranges w).1 s') ≡ [])
    plan-reconcile_once ranges' s' p known free =
        let (u, v, e, left, outside, located, same) = ran in
        let l' = lookup p (ranges'.local s'.local) in
        let r' = lookup p (ranges'.remote s'.remote) in
        let st' = lookup p s'.state in
        let table =
          plan-due machine_id p (ranges'.local s'.local) (ranges'.remote s'.remote) s'.state
            s'.sees.local_once s'.sees.remote_once in
        let ended : Same u s'.end =
          Same-trans u _ s'.end
            (subst (Same u) (sym (ap (λ (x : Outcome (List Op) × World E). x.1) e)) same) s'.same in
        (
          ap (λ (x : Outcome (List Op) × World E). x.0) e,
          table ∙ elim (Listed-cases E R machine_id l' r') [
            | inl here ↦ due-noop p l' r' st' (
                settled u p l' r' st' left outside located (known here) free
                  (SeesPath-Same u s'.end p l' r' st' ended (s'.sees.at p here)))
            | inr gone ↦ rw (gone.0, gone.1) (due-unlisted E R machine_id p st')
          ],
        )
