-- ===== src/Daemon/Running.antt =====
-- The daemon in any run: the reconcile loop is started only when there is an engine to reconcile.
use dropboy.Base.{
  Text, text_eq, ◌==◌, if◌then◌else◌, Bool, true, false, not, ◌||◌, ◌&&◌, Option, none, some, [],
  ◌≡◌, refl, ◌∙◌, arith, ap, inl, inr, Bool-cases, is_some,
}
use dropboy.Base.Outcome.{
  Exec, Done, Outcome, ok, err, panic, optional, continue, gets, pure, ◌>>=◌, ◌>>◌,
}
use dropboy.Config.{Config}
use dropboy.Crypto.Keystore.{Blobs}
use dropboy.Sync.Engine.{Env, Engine}
use dropboy.Sync.Reconcile.{Ranges}
use dropboy.Daemon.{
  Services, Daemon, Options, Process, new_daemon, on_engine, boot_passphrase, boot, unlock,
  unlock_with_recovery, forget_passphrase, on_daemon, start_reconcile_loop, passphrase_account,
  set_paused, kick_sync, reconcile, resolve, resolve_in, init_engine,
}
use dropboy.Daemon.Goes.{After, Engaged, Unlocked}
use dropboy.Daemon.Locking.{init_engine-Goes, unlock-Unlocked}

-- A loop that is started has an engine.
abbrev pub linked : Daemon → Bool
linked d = not d.loop_started || is_some d.engine

module _ (E : Env) (J : Blobs) (K : Services) (glob : Text → Text → Bool) (ranges : Ranges) where
  -- What the API and the loop can do to the process, one call at a time. The loop makes its turns once
  -- it is started; those that the pause flag holds back are among them, since its first one does not
  -- look at the flag.
  pub data Turn : Process E J K → Process E J K → Type 0 where
    unlocks :
        {p : Process E J K} (passphrase : Text) (remember : Bool)
        → Turn p (unlock E J K passphrase remember p).1
    recovers : {p : Process E J K} (code : Text) → Turn p (unlock_with_recovery E J K code p).1
    forgets : {p : Process E J K} → Turn p (forget_passphrase E J K p).1
    pauses : {p : Process E J K} (v : Bool) → Turn p (set_paused E J K v p).1
    kicks : {p : Process E J K} → Turn p (kick_sync E J K glob ranges p).1
    resolves : {p : Process E J K} (id : Text) → Turn p (resolve E J K id p).1
    loops :
        {p : Process E J K}
        → p.daemon.loop_started ≡ true
        → Turn p (reconcile E J K glob ranges p).1

  After-linked :
      (d : Daemon) (r : Outcome Done) (e : Daemon)
      → linked d ≡ true
      → After d (Unlocked d) r e
      → linked e ≡ true
  After-linked d (ok _) e h (set, (master, same)) = rw same refl
  After-linked d (err _) e h same = rw same h
  After-linked d panic e h (inl same) = rw same h
  After-linked d panic e h (inr up) = ground (arith, up)

  on_engine-linked :
      (o : Option Engine) (p : Process E J K)
      → linked p.daemon ≡ true
      → linked (on_engine E J K glob ranges o p).1.daemon ≡ true
  unfolding on_engine
  on_engine-linked none p h = h
  on_engine-linked (some e) p h = ground arith

  unlock-linked :
      (passphrase code : Text) (remember : Bool) (p : Process E J K) (o : Option Engine)
      → p.daemon.engine ≡ o
      → linked p.daemon ≡ true
      → (linked (unlock E J K passphrase remember p).1.daemon ≡ true)
        × (linked (unlock_with_recovery E J K code p).1.daemon ≡ true)
  unfolding unlock unlock_with_recovery
  unlock-linked passphrase code remember p none e h =
      let (u, v) = unlock-Unlocked E J K passphrase code remember p e in
      (After-linked p.daemon _ _ h u, After-linked p.daemon _ _ h v)
  unlock-linked passphrase code remember p (some g) e h =
      let up : is_some p.daemon.engine ≡ true = ap is_some e in (rw up h, rw up h)

  kept-linked :
      {A : Type 0} (r : Outcome A) (q : Process E J K)
      → linked q.daemon ≡ true
      → linked (continue {B = Done} r (λ _. pure tt) q).1.daemon ≡ true
  kept-linked (ok a) q h = h
  kept-linked (err e) q h = h
  kept-linked panic q h = h

  tried-linked :
      {A : Type 0} (r : Outcome A) (q : Process E J K)
      → linked q.daemon ≡ true
      → linked (continue {B = Done} (optional r) (λ _. pure tt) q).1.daemon ≡ true
  tried-linked (ok a) q h = h
  tried-linked (err e) q h = h
  tried-linked panic q h = h

  resolve_in-linked :
      (id : Text) (o : Option Engine) (p : Process E J K)
      → linked p.daemon ≡ true
      → linked (resolve_in E J K id o p).1.daemon ≡ true
  resolve_in-linked id none p h = h
  resolve_in-linked id (some e) p h = ground arith

  Turn-linked : {p q : Process E J K} → Turn p q → linked p.daemon ≡ true → linked q.daemon ≡ true
  unfolding forget_passphrase set_paused kick_sync resolve reconcile
  Turn-linked {p} (unlocks passphrase remember) h =
      (unlock-linked passphrase [] remember p p.daemon.engine refl h).0
  Turn-linked {p} (recovers code) h = (unlock-linked [] code false p p.daemon.engine refl h).1
  Turn-linked {p} forgets h = h
  Turn-linked {p} (pauses v) h = h
  Turn-linked {p} kicks h = elim (Bool-cases (is_some p.daemon.engine)) [
    | inl up ↦ rw up (kept-linked _ _ (on_engine-linked p.daemon.engine p h))
    | inr down ↦ rw down h
  ]
  Turn-linked {p} (resolves id) h = resolve_in-linked id p.daemon.engine p h
  Turn-linked {p} (loops _) h =
      let (r, q) = on_engine E J K glob ranges p.daemon.engine p in
      tried-linked r q (on_engine-linked p.daemon.engine p h)

  -- The states of a daemon from its start.
  pub data Reach : Process E J K → Type 0 where
    boots :
        (opts : Options) (cfg : Config) (dir : Text) (p : Process E J K)
        → p.daemon ≡ new_daemon cfg dir
        → Reach (boot E J K opts p).1
    turns : {p q : Process E J K} → Reach p → Turn p q → Reach q

  continue-linked :
      {A B : Type 0} (r : Outcome A) (f : A → Exec (Process E J K) B) (q : Process E J K)
      → linked q.daemon ≡ true
      → ((a : A) → linked (f a q).1.daemon ≡ true)
      → linked (continue r f q).1.daemon ≡ true
  continue-linked (ok a) f q h k = k a
  continue-linked (err e) f q h k = h
  continue-linked panic f q h k = h

  found-silent :
      {A : Type 0} (r : Outcome A) (f : Option A → Text) (q : Process E J K)
      → (continue {B = Text} (optional r) (λ a. pure (f a)) q).1.daemon ≡ q.daemon
  found-silent (ok a) f q = refl
  found-silent (err e) f q = refl
  found-silent panic f q = refl

  boot_passphrase-silent :
      (opts : Options) (p : Process E J K) → (boot_passphrase E J K opts p).1.daemon ≡ p.daemon
  unfolding boot_passphrase
  boot_passphrase-silent opts p = elim (Bool-cases (opts.passphrase == [])) [
    | inl unset ↦ rw unset (
        found-silent (K.keychain_get (passphrase_account p.daemon) p.services).0
          (λ found. elim found [ none ↦ [] | some v ↦ v ]) _)
    | inr set ↦ rw set refl
  ]

  Engaged-linked :
      (d : Daemon) (r : Outcome Done) (e : Daemon)
      → d.loop_started ≡ false
      → After d (Engaged d) r e
      → linked e ≡ true
  Engaged-linked d (ok _) e h (set, (master, same)) = rw (same, h) refl
  Engaged-linked d (err _) e h same = rw (same, h) refl
  Engaged-linked d panic e h (inl same) = rw (same, h) refl
  Engaged-linked d panic e h (inr up) = ground (arith, up)

  -- The end of Run before it serves.
  boot_end : Options → Option Done → Exec (Process E J K) Done
  boot_end opts engine = do
    on_daemon E J K (λ d. if is_some engine then d else record d { locked = true })
    d ← gets (λ p. p.daemon)
    if is_some d.engine && not opts.no_sync then start_reconcile_loop E J K else pure tt

  boot_end-linked :
      (opts : Options) (engine : Option Done) (q : Process E J K)
      → linked q.daemon ≡ true
      → linked (boot_end opts engine q).1.daemon ≡ true
  unfolding boot_end
  boot_end-linked opts none q h = elim (Bool-cases (is_some q.daemon.engine && not opts.no_sync)) [
    | inl on ↦ rw on (ground arith)
    | inr off ↦ rw off h
  ]
  boot_end-linked opts (some _) q h =
      elim (Bool-cases (is_some q.daemon.engine && not opts.no_sync)) [
        | inl on ↦ rw on (ground arith)
        | inr off ↦ rw off h
      ]

  boot-linked :
      (opts : Options) (p : Process E J K)
      → p.daemon.loop_started ≡ false
      → linked (boot E J K opts p).1.daemon ≡ true
  unfolding boot boot_end
  boot-linked opts p idle =
      let (r, q) = boot_passphrase E J K opts p in
      let waiting : q.daemon.loop_started ≡ false =
        ap (λ d. d.loop_started) (boot_passphrase-silent opts p) ∙ idle in
      continue-linked r _ q (rw waiting refl) (λ pass.
        let (s, t) = init_engine E J K opts pass q in
        let up : linked t.daemon ≡ true =
          Engaged-linked q.daemon s t.daemon waiting
            ((init_engine-Goes E J K opts pass q.daemon).at q refl) in
        continue-linked (optional s) (boot_end opts) t up
          (λ engine. boot_end-linked opts engine t up))

  -- In any run of the daemon, from its start through any calls of the API and turns of the loop, a loop
  -- that is started has an engine.
  pub Reach-linked : (p : Process E J K) → Reach p → linked p.daemon ≡ true
  Reach-linked p (boots opts cfg dir q fresh) =
      boot-linked opts q (unfold new_daemon in ap (λ d. d.loop_started) fresh)
  Reach-linked p (turns r t) = Turn-linked t (Reach-linked _ r)
