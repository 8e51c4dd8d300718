-- ===== src/Sync/Reconcile/Pass.antt =====
-- What one pass of reconcile_once leaves in the engine, whatever the calls return.
use dropboy.Base.{Text, List, ◌≡◌, refl, ◌∙◌, Bool}
use dropboy.Base.Outcome.{Exec, Outcome, ok, err, panic, gets, continue, ◌>>=◌}
use dropboy.Base.Dict.{Dict}
use dropboy.Sync.Ops.{Op}
use dropboy.Sync.Plan.{LocalEntry}
use dropboy.Sync.Engine.{Env, World, Engine, on_engine}
use dropboy.Sync.Reconcile.{Ranges, execute_all, queued, finish, run_plan, reconcile_once}
use dropboy.Sync.Reconcile.Frame.{
  Kept, NodupPaths, Keeps, Keeps-gets, Keeps-wrapping, Keeps-on_engine, execute_all-Keeps,
  snapshots-Keeps,
}

-- What a pass records: the plan and empty queues if it comes through, nothing if it does not.
abbrev pub Recorded : Engine → Engine → Outcome (List Op) → Type 0
Recorded e f (ok ops) = (f.last_ops ≡ ops) × (f.up_q ≡ 0) × (f.down_q ≡ 0)
Recorded e f (err _) = (f.last_ops ≡ e.last_ops) × (f.last_run ≡ e.last_run)
Recorded e f panic = (f.last_ops ≡ e.last_ops) × (f.last_run ≡ e.last_run)

pub record Passed (e f : Engine) (r : Outcome (List Op)) : Type 0 where
  pub cfg : f.cfg ≡ e.cfg
  pub master : f.master ≡ e.master
  pub machine_id : f.machine_id ≡ e.machine_id
  pub conflicts : NodupPaths e.conflicts → NodupPaths f.conflicts
  pub recorded : Recorded e f r

Passed-after : {e f g : Engine} (r : Outcome (List Op)) → Kept e f → Passed f g r → Passed e g r
Passed-after (ok ops) k p = record {
  cfg = p.cfg ∙ k.cfg;
  master = p.master ∙ k.master;
  machine_id = p.machine_id ∙ k.machine_id;
  conflicts = λ u. p.conflicts (k.conflicts u);
  recorded = p.recorded;
}
Passed-after (err e) k p = record {
  cfg = p.cfg ∙ k.cfg;
  master = p.master ∙ k.master;
  machine_id = p.machine_id ∙ k.machine_id;
  conflicts = λ u. p.conflicts (k.conflicts u);
  recorded = (p.recorded.0 ∙ k.last_ops, p.recorded.1 ∙ k.last_run);
}
Passed-after panic k p = record {
  cfg = p.cfg ∙ k.cfg;
  master = p.master ∙ k.master;
  machine_id = p.machine_id ∙ k.machine_id;
  conflicts = λ u. p.conflicts (k.conflicts u);
  recorded = (p.recorded.0 ∙ k.last_ops, p.recorded.1 ∙ k.last_run);
}

stopped : (e : Engine) (r : Outcome (List Op)) → Recorded e e r → Passed e e r
stopped e r h = record {
  cfg = refl;
  master = refl;
  machine_id = refl;
  conflicts = λ u. u;
  recorded = h;
}

module _ (E : Env) where
  record Passes (m : Exec (World E) (List Op)) : Type 0 where
    at : (w : World E) → Passed w.engine (m w).1.engine (m w).0

  module _ {A : Type 0} where
    Passes-continue :
        (r : Outcome A) (f : A → Exec (World E) (List Op))
        → ((a : A) → Passes (f a))
        → Passes (λ w. continue r f w)
    Passes-continue (ok a) f k = k a
    Passes-continue (err e) f k = record { at = λ w. stopped w.engine (err e) (refl, refl) }
    Passes-continue panic f k = record { at = λ w. stopped w.engine panic (refl, refl) }

    Passes-bind :
        (m : Exec (World E) A) (f : A → Exec (World E) (List Op))
        → Keeps E m
        → ((a : A) → Passes (f a))
        → Passes (m >>= f)
    Passes-bind m f km kf = record {
      at = λ w. Passed-after _ (km.at w) ((Passes-continue (m w).0 f kf).at (m w).1);
    }

  finish-Passes : (ops : List Op) → Passes (finish E ops)
  unfolding finish
  finish-Passes ops = record {
    at = λ w. record {
      cfg = refl;
      master = refl;
      machine_id = refl;
      conflicts = λ u. u;
      recorded = (refl, refl, refl);
    };
  }

  queued-Kept : (ops : List Op) (e : Engine) → Kept e (queued E ops e)
  queued-Kept ops e = record {
    cfg = refl;
    master = refl;
    machine_id = refl;
    last_run = refl;
    last_ops = refl;
    conflicts = λ u. u;
  }

  run_plan-Passes : (local : Dict LocalEntry) (ops : List Op) → Passes (run_plan E local ops)
  unfolding run_plan
  run_plan-Passes local ops =
      Passes-bind (on_engine E (queued E ops)) _ (Keeps-on_engine E _ (queued-Kept ops)) λ _.
        Passes-bind (execute_all E local ops) _ (execute_all-Keeps E local ops)
          λ _. finish-Passes ops

  reconcile_once-Passes :
      (glob : Text → Text → Bool) (ranges : Ranges) → Passes (reconcile_once E glob ranges)
  unfolding reconcile_once
  reconcile_once-Passes glob ranges =
      let (kl, kr, ks) = snapshots-Keeps E glob in
      Passes-bind _ _ (Keeps-wrapping E _ _ kl) λ local.
        Passes-bind _ _ (Keeps-wrapping E _ _ kr) λ remote.
          Passes-bind _ _ (Keeps-wrapping E _ _ ks) λ state.
            Passes-bind (gets (λ w. w.engine.machine_id)) _ (Keeps-gets E _)
              λ machine_id. run_plan-Passes local _

  -- Whatever the calls of a pass return, the configuration, the master key and the machine id stay,
  -- and no path comes to have two conflicts. A pass that succeeds leaves its plan as the last
  -- operations and both queue counters at 0; one that fails or panics leaves the last run and the
  -- last operations as they were.
  pub reconcile_once-Passed :
      (glob : Text → Text → Bool) (ranges : Ranges) (w : World E)
      → Passed w.engine (reconcile_once E glob ranges w).1.engine (reconcile_once E glob ranges w).0
  reconcile_once-Passed glob ranges w = (reconcile_once-Passes glob ranges).at w
