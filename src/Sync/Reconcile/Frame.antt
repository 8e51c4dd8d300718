-- ===== src/Sync/Reconcile/Frame.antt =====
-- What a pass leaves alone in the engine, and the invariant of its list of conflicts, on every
-- outcome of every call.
use dropboy.Base.{
  ℕ, Text, text_eq, codes, ◌==◌, List, [], ◌∷◌, ◌++◌, Bool, false, any, ◌≡◌, refl, ◌∙◌, arith, inl,
  inr, Bool-cases, has_infix, ◌||◌,
}
use dropboy.Base.Dict.{Dict}
use dropboy.Base.Outcome.{
  Exec, Outcome, ok, err, panic, gets, pure, lift, wrapping, continue, ◌>>=◌,
}
use dropboy.S3.{Object}
use dropboy.Sync.Ops.{OpKind, upload, download, conflict, Op}
use dropboy.Sync.Plan.{LocalEntry, RemoteEntry}
use dropboy.Sync.Engine.{
  Env, World, Engine, Conflict, on_os, on_db, on_cloud, on_engine, now, record_conflict,
}
use dropboy.Sync.Transfer.{do_upload, do_download}
use dropboy.Sync.Snapshot.{snapshot_local, snapshot_remote, snapshot_state, head_all}
use dropboy.Sync.Reconcile.{dispatch, execute, execute_all}

-- No two conflicts are of one path.
abbrev pub NodupPaths : List Conflict → Type 0
NodupPaths [] = Unit {0}
NodupPaths (c ∷ cs) = (any (λ d. d.path == c.path) cs ≡ false) × NodupPaths cs

-- What the execution of a plan keeps.
pub record Kept (e f : Engine) : Type 0 where
  pub cfg : f.cfg ≡ e.cfg
  pub master : f.master ≡ e.master
  pub machine_id : f.machine_id ≡ e.machine_id
  pub last_run : f.last_run ≡ e.last_run
  pub last_ops : f.last_ops ≡ e.last_ops
  pub conflicts : NodupPaths e.conflicts → NodupPaths f.conflicts

pub Kept-refl : (e : Engine) → Kept e e
Kept-refl e = record {
  cfg = refl;
  master = refl;
  machine_id = refl;
  last_run = refl;
  last_ops = refl;
  conflicts = λ u. u;
}

pub Kept-trans : {e f g : Engine} → Kept e f → Kept f g → Kept e g
Kept-trans p q = record {
  cfg = q.cfg ∙ p.cfg;
  master = q.master ∙ p.master;
  machine_id = q.machine_id ∙ p.machine_id;
  last_run = q.last_run ∙ p.last_run;
  last_ops = q.last_ops ∙ p.last_ops;
  conflicts = λ u. q.conflicts (p.conflicts u);
}

module _ (E : Env) where
  pub record Keeps {A : Type 0} (m : Exec (World E) A) : Type 0 where
    pub at : (w : World E) → Kept w.engine (m w).1.engine

  module _ {A : Type 0} where
    pub Keeps-pure : (a : A) → Keeps (pure a)
    Keeps-pure a = record { at = λ w. Kept-refl w.engine }

    Keeps-lift : (r : Outcome A) → Keeps (lift r)
    Keeps-lift r = record { at = λ w. Kept-refl w.engine }

    pub Keeps-gets : (f : World E → A) → Keeps (gets f)
    Keeps-gets f = record { at = λ w. Kept-refl w.engine }

    Keeps-on_os : (m : Exec E.os.State A) → Keeps (on_os E m)
    Keeps-on_os m = record { at = λ w. Kept-refl w.engine }

    Keeps-on_db : (m : Exec E.db.State A) → Keeps (on_db E m)
    Keeps-on_db m = record { at = λ w. Kept-refl w.engine }

    Keeps-on_cloud : (m : Exec E.cloud.State A) → Keeps (on_cloud E m)
    Keeps-on_cloud m = record { at = λ w. Kept-refl w.engine }

    pub Keeps-wrapping : (t : Text) (m : Exec (World E) A) → Keeps m → Keeps (wrapping t m)
    Keeps-wrapping t m k = record { at = k.at }

  pub Keeps-now : Keeps (now E)
  Keeps-now = record { at = λ w. Kept-refl w.engine }

  pub Keeps-on_engine :
      (f : Engine → Engine) → ((e : Engine) → Kept e (f e)) → Keeps (on_engine E f)
  Keeps-on_engine f k = record { at = λ w. k w.engine }

  module _ {A B : Type 0} where
    Keeps-continue :
        (r : Outcome A) (f : A → Exec (World E) B)
        → ((a : A) → Keeps (f a))
        → Keeps (λ w. continue r f w)
    Keeps-continue (ok a) f k = k a
    Keeps-continue (err e) f k = record { at = λ w. Kept-refl w.engine }
    Keeps-continue panic f k = record { at = λ w. Kept-refl w.engine }

    pub Keeps-bind :
        (m : Exec (World E) A) (f : A → Exec (World E) B)
        → Keeps m
        → ((a : A) → Keeps (f a))
        → Keeps (m >>= f)
    Keeps-bind m f km kf = record {
      at = λ w. Kept-trans (km.at w) ((Keeps-continue (m w).0 f kf).at (m w).1);
    }

ruleset keeps_rules = (
  Keeps-pure, Keeps-lift, Keeps-gets, Keeps-on_os, Keeps-on_db, Keeps-on_cloud, Keeps-wrapping,
  Keeps-now, Keeps-bind,
)

bytes_up-Kept : (n : ℕ) (e : Engine) → Kept e (record e { bytes_up = n })
bytes_up-Kept n e = record {
  cfg = refl;
  master = refl;
  machine_id = refl;
  last_run = refl;
  last_ops = refl;
  conflicts = λ u. u;
}

bytes_down-Kept : (n : ℕ) (e : Engine) → Kept e (record e { bytes_down = n })
bytes_down-Kept n e = record {
  cfg = refl;
  master = refl;
  machine_id = refl;
  last_run = refl;
  last_ops = refl;
  conflicts = λ u. u;
}

module _ (E : Env) where
  do_upload-Keeps : (path key : Text) (local : LocalEntry) → Keeps E (do_upload E path key local)
  unfolding do_upload
  do_upload-Keeps path key local = search (keeps_rules, Keeps-on_engine, bytes_up-Kept) depth 30

  do_download-Keeps : (path key : Text) → Keeps E (do_download E path key)
  unfolding do_download
  do_download-Keeps path key = search (keeps_rules, Keeps-on_engine, bytes_down-Kept) depth 30

  any-append :
      (path : Text) (cs : List Conflict) (c : Conflict)
      → any (λ d. d.path == path) (cs ++ c ∷ []) ≡ (any (λ d. d.path == path) cs || c.path == path)
  any-append path [] c = ground arith
  any-append path (d ∷ cs) c = ground (arith, any-append path cs c)

  NodupPaths-append :
      (cs : List Conflict) (c : Conflict)
      → any (λ d. d.path == c.path) cs ≡ false
      → NodupPaths cs
      → NodupPaths (cs ++ c ∷ [])
  NodupPaths-append [] c h u = (refl, tt)
  NodupPaths-append (d ∷ cs) c h (fresh, u) =
      ground (arith, any-append d.path cs c, NodupPaths-append cs c)

  record_conflict-Keeps : (path : Text) → Keeps E (record_conflict E path)
  unfolding record_conflict
  record_conflict-Keeps path = record {
    at = λ w. elim (Bool-cases (any (λ c. c.path == path) w.engine.conflicts)) [
      | inl known ↦ rw known (Kept-refl w.engine)
      | inr new ↦ rw new (record {
        cfg = refl;
        master = refl;
        machine_id = refl;
        last_run = refl;
        last_ops = refl;
        conflicts = NodupPaths-append w.engine.conflicts _ new;
      })
    ];
  }

  dispatch-Keeps :
      (kind : OpKind) (path key : Text) (local : LocalEntry)
      → Keeps E (dispatch E kind path key local)
  unfolding dispatch
  dispatch-Keeps upload path key local = do_upload-Keeps path key local
  dispatch-Keeps download path key local = do_download-Keeps path key
  dispatch-Keeps conflict path key local = record_conflict-Keeps path
  dispatch-Keeps _ path key local = search keeps_rules depth 20

  pub execute_all-Keeps :
      (local : Dict LocalEntry) (ops : List Op) → Keeps E (execute_all E local ops)
  unfolding execute_all execute
  execute_all-Keeps local [] = Keeps-pure E tt
  execute_all-Keeps local (op ∷ ops) =
      Keeps-bind E _ _ (Keeps-wrapping E _ _ (dispatch-Keeps op.kind op.path op.s3_key _))
        (λ _. execute_all-Keeps local ops)

  head_all-Keeps :
      (machine_id : Text) (objs : List Object) (out : Dict RemoteEntry)
      → Keeps E (head_all E machine_id objs out)
  unfolding head_all
  head_all-Keeps machine_id [] out = Keeps-pure E out
  head_all-Keeps machine_id (o ∷ objs) out =
      elim (Bool-cases (has_infix o.key (codes "/.dropboy/"))) [
        | inl hidden ↦ rw (head_all, hidden) (head_all-Keeps machine_id objs out)
        | inr seen ↦
            rw (head_all, seen)
              (Keeps-bind E _ _ (Keeps-on_cloud E _) (λ head. head_all-Keeps machine_id objs _))
      ]

  pub snapshots-Keeps :
      (glob : Text → Text → Bool)
      → Keeps E (snapshot_local glob E) × Keeps E (snapshot_remote E) × Keeps E (snapshot_state E)
  unfolding snapshot_local snapshot_remote snapshot_state
  snapshots-Keeps glob =
      (Keeps-gets E _, search (keeps_rules, head_all-Keeps) depth 20, search keeps_rules depth 20)
