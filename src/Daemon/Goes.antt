-- ===== src/Daemon/Goes.antt =====
-- What a call leaves of the daemon: rules that go through a do block step by step.
use dropboy.Base.{
  ◌⊎◌, inl, Text, text_eq, if◌then◌else◌, Bool, true, false, Option, some, [], ◌≡◌, ◌≢◌, refl, ap,
  is_some,
}
use dropboy.Base.Outcome.{
  Exec, Done, Error, Outcome, ok, err, panic, fail, gets, pure, wrap, wrapping, continue, ◌>>=◌,
}
use dropboy.Crypto.Keystore.{Blobs}
use dropboy.Sync.Engine.{Env, new_engine}
use dropboy.Daemon.{Services, Daemon, Process, on_os, on_services, on_daemon, or_close}

-- The daemon once its engine is up.
abbrev pub online : Text → Daemon → Daemon
online master d = record d {
  master = master;
  engine = some (new_engine d.cfg master d.cfg.machine_id);
}

-- The daemon once it is unlocked.
abbrev pub serving : Daemon → Daemon
serving d = record d { locked = false; loop_started = true }

abbrev pub opened : Daemon → Daemon
opened d = record d { locked = false }

abbrev pub started : Daemon → Daemon
started d = record d { loop_started = true }

-- A call of the daemon `d` that comes through leaves what `G` says, one that returns an error leaves
-- `d`, and one that panics leaves `d` or a daemon with an engine.
abbrev pub After : {A : Type 0} → Daemon → (Daemon → Type 0) → Outcome A → Daemon → Type 0
After d G (ok _) e = G e
After d G (err _) e = e ≡ d
After d G panic e = (e ≡ d) ⊎ (is_some e.engine ≡ true)

abbrev pub Engaged : Daemon → Daemon → Type 0
Engaged d e = (d.cfg.bucket ≢ []) × ((master : Text) × (e ≡ online master d))

abbrev pub Unlocked : Daemon → Daemon → Type 0
Unlocked d e = (d.cfg.bucket ≢ []) × ((master : Text) × (e ≡ serving (online master d)))

module _ (E : Env) (J : Blobs) (K : Services) where
  pub record Goes {A : Type 0} (d : Daemon) (G : Daemon → Type 0) (m : Exec (Process E J K) A)
      : Type 0 where
    pub at : (q : Process E J K) → q.daemon ≡ d → After d G (m q).0 (m q).1.daemon

  module _ {A : Type 0} (d : Daemon) where
    pub Goes-pure : (a : A) → Goes d (λ e. e ≡ d) (pure a)
    Goes-pure a = record { at = λ q same. same }

    pub Goes-fail : (G : Daemon → Type 0) (e : Error) → Goes d G (fail {A = A} e)
    Goes-fail G e = record { at = λ q same. same }

    silent : (r : Outcome A) (e : Daemon) → e ≡ d → After d (λ e. e ≡ d) r e
    silent (ok a) e same = same
    silent (err _) e same = same
    silent panic e same = inl same

    pub Goes-on_os : (m : Exec E.os.State A) → Goes d (λ e. e ≡ d) (on_os E J K m)
    Goes-on_os m = record { at = λ q same. silent (m q.os).0 q.daemon same }

    pub Goes-on_services : (m : Exec K.State A) → Goes d (λ e. e ≡ d) (on_services E J K m)
    Goes-on_services m = record { at = λ q same. silent (m q.services).0 q.daemon same }

    pub Goes-gets : (f : Process E J K → A) → Goes d (λ e. e ≡ d) (gets f)
    Goes-gets f = record { at = λ q same. same }

    silent-wrap :
        (t : Text) (r : Outcome A) (e : Daemon)
        → After d (λ e. e ≡ d) r e
        → After d (λ e. e ≡ d) (wrap t r) e
    silent-wrap t (ok a) e same = same
    silent-wrap t (err _) e same = same
    silent-wrap t panic e same = same

    pub Goes-wrapping :
        (t : Text) (m : Exec (Process E J K) A)
        → Goes d (λ e. e ≡ d) m
        → Goes d (λ e. e ≡ d) (wrapping t m)
    Goes-wrapping t m k = record { at = λ q same. silent-wrap t (m q).0 _ (k.at q same) }

  module _ {A B : Type 0} (d : Daemon) (G : Daemon → Type 0) where
    continue_silent :
        (r : Outcome A) (f : A → Exec (Process E J K) B) (q : Process E J K)
        → After d (λ e. e ≡ d) r q.daemon
        → ((a : A) → Goes d G (f a))
        → After d G (continue r f q).0 (continue r f q).1.daemon
    continue_silent (ok a) f q same k = (k a).at q same
    continue_silent (err e) f q same k = same
    continue_silent panic f q same k = same

    pub Goes-bind :
        (m : Exec (Process E J K) A) (f : A → Exec (Process E J K) B)
        → Goes d (λ e. e ≡ d) m
        → ((a : A) → Goes d G (f a))
        → Goes d G (m >>= f)
    Goes-bind m f s k = record { at = λ q same. continue_silent (m q).0 f (m q).1 (s.at q same) k }

  -- The steps after the engine is up, which may not fail.
  pub continue_sure :
      (d : Daemon) (G H : Daemon → Type 0) (r : Outcome Done) (f : Done → Exec (Process E J K) Done)
      (q : Process E J K)
      → After d G r q.daemon
      → ((p : Process E J K) → G p.daemon → After d H (f tt p).0 (f tt p).1.daemon)
      → After d H (continue r f q).0 (continue r f q).1.daemon
  continue_sure d G H (ok _) f q g k = k q g
  continue_sure d G H (err e) f q g k = g
  continue_sure d G H panic f q g k = g

  closing :
      (d : Daemon) (r : Outcome (Option Done)) (w : Error) (q : Process E J K)
      → q.daemon ≡ d
      → (G : Daemon → Type 0)
      → let (a, t) = continue {B = Done} r (λ _. fail w) q in After d G a t.daemon
  closing d (ok _) w q same G = same
  closing d (err e) w q same G = same
  closing d panic w q same G = inl same

  pub Goes-or_close : (d : Daemon) (r : Outcome Done) → Goes d (λ e. e ≡ d) (or_close E J K r)
  Goes-or_close d (ok _) = record { at = λ q same. same }
  Goes-or_close d (err e) = record { at = λ q same. closing d _ _ _ same _ }
  Goes-or_close d panic = record { at = λ q same. inl same }

  pub Goes-online :
      (d : Daemon) (master : Text)
      → d.cfg.bucket ≢ []
      → Goes d (Engaged d) (on_daemon E J K (online master))
  Goes-online d master set = record { at = λ q same. (set, (master, ap (online master) same)) }

  module _ {A : Type 0} (d : Daemon) (G : Daemon → Type 0) where
    pub Goes-daemon :
        (f : Daemon → Exec (Process E J K) A)
        → Goes d G (f d)
        → Goes d G (gets (λ p. p.daemon) >>= f)
    Goes-daemon f k = record { at = λ q same. rw same (k.at (record q { daemon = d }) refl) }

    pub Goes-if :
        (b : Bool) (m n : Exec (Process E J K) A)
        → (b ≡ true → Goes d G m)
        → (b ≡ false → Goes d G n)
        → Goes d G (if b then m else n)
    Goes-if true m n km kn = km refl
    Goes-if false m n km kn = kn refl

    pub Goes-else :
        (b : Bool) (m n : Exec (Process E J K) A)
        → b ≡ false
        → Goes d G n
        → Goes d G (if b then m else n)
    Goes-else b m n h k = rw h k

pub ruleset goes_rules = (
  Goes-pure, Goes-fail, Goes-on_os, Goes-on_services, Goes-gets, Goes-wrapping, Goes-bind,
  Goes-or_close, Goes-online, Goes-daemon, Goes-if,
)
