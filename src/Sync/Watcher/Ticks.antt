-- ===== src/Sync/Watcher/Ticks.antt =====
-- The watcher among its steps, the passing of time and the daemon that takes its ticks: no change is
-- lost, and each is told of within the debounce.
use mathlib.Core.Path.{subst}
use native.Mathlib.Nat.{le_refl}
use dropboy.Base.{
  ℕ, ◌+◌, ◌≤◌, Bool, true, false, Text, Option, none, some, ◌≡◌, refl, sym, ◌∙◌, ap, ◌⊎◌, inl, inr,
  arith, Bool-cases, ltb,
}
use dropboy.Sync.Watcher.Prompt.{
  noted, Prompt, start-Prompt, wait-Prompt, fired-Prompt, taken-Prompt, arm-Prompt,
}
use dropboy.Sync.Watcher.{Notifier, Loop, change, notifier_error, fired, debounce, turn}

module _ (N : Notifier) where
  -- `since` is when the first change came of which the daemon has not been told since it last took a
  -- tick.
  pub record Run : Type 0 where
    pub loop : Loop
    pub world : N.State
    pub time : ℕ
    pub since : Option ℕ

  -- One step of a run that goes on. The timer's event comes once it is due, and the loop may be late.
  pub data Step : Run → Run → Type 0 where
    waits : {r : Run} (now : ℕ) → r.time ≤ now → Step r (record r { time = now })
    sees :
        {r : Run} {l : Loop} {w : N.State} (create : Bool) (name : Text)
        → turn N (change create name) r.time r.loop r.world ≡ (some l, w)
        → Step r (record { loop = l; world = w; time = r.time; since = noted r.time r.since })
    fails :
        {r : Run} {l : Loop} {w : N.State}
        → turn N notifier_error r.time r.loop r.world ≡ (some l, w)
        → Step r (record r { loop = l; world = w })
    fires :
        {r : Run} {l : Loop} {w : N.State} (due : ℕ)
        → r.loop.timer ≡ some due
        → due ≤ r.time
        → turn N fired r.time r.loop r.world ≡ (some l, w)
        → Step r (record r { loop = l; world = w })
    takes :
        {r : Run}
        → r.loop.ticks ≡ true
        → Step r (record r { loop = record r.loop { ticks = false }; since = none })

  pub data Steps : Run → Run → Type 0 where
    stop : {r : Run} → Steps r r
    step : {r s t : Run} → Step r s → Steps s t → Steps r t

  -- A run of the watcher from the state that its loop starts with.
  abbrev pub IsStart : Run → Type 0
  IsStart r =
      (r.loop.timer ≡ none) × (r.loop.armed ≡ false) × (r.loop.ticks ≡ false) × (r.since ≡ none)

order : (a b : ℕ) → (a ≤ b) ⊎ (b ≤ a)
order a b = elim (Bool-cases (ltb a b)) [
  | inl less ↦ inl (ground arith)
  | inr other ↦ inr (ground arith)
]

loop_of : Loop → Option Loop → Loop
loop_of l none = l
loop_of l (some m) = m

module _ (N : Notifier) where
  -- The loop is what a turn leaves.
  abbrev Left : Loop → Option Loop × N.State → N.State → Type 0
  Left l r w = r ≡ (some l, w)

  moved :
      (l m : Loop) (r : Option Loop × N.State) (w : N.State) (now : ℕ) (since : Option ℕ)
      → r.0 ≡ some m
      → Left l r w
      → Prompt m now since
      → Prompt l now since
  unfolding loop_of
  moved l m r w now since is came p =
      subst (λ k. Prompt k now since) (ap (loop_of l) (sym is ∙ ap (λ x. x.0) came)) p

  Step-Prompt :
      (r s : Run N) → Step N r s → Prompt r.loop r.time r.since → Prompt s.loop s.time s.since
  unfolding turn
  Step-Prompt r _ (waits now later) p = wait-Prompt r.loop r.time now r.since later p
  Step-Prompt r _ (sees {l = l} {w = w} create name came) p =
      moved l _ _ w r.time _ refl came (arm-Prompt r.loop r.time r.since p)
  Step-Prompt r _ (fails {l = l} {w = w} came) p = moved l _ _ w r.time _ refl came p
  Step-Prompt r _ (fires {l = l} {w = w} due on late came) p =
      moved l _ _ w r.time _ refl came (fired-Prompt r.loop r.time r.since p)
  Step-Prompt r _ (takes full) p = taken-Prompt r.loop r.time r.since p

  after_steps :
      (r s : Run N) → Steps N r s → Prompt r.loop r.time r.since → Prompt s.loop s.time s.since
  after_steps r _ stop p = p
  after_steps r s (step {s = between} one rest) p =
      after_steps between s rest (Step-Prompt r between one p)

  -- In every run of the watcher from the state that its loop starts with: the watcher is armed just
  -- when its timer runs, the timer is due within the debounce, and a change that came since the
  -- daemon last took a tick has a tick waiting for it or a timer that is due within the debounce of
  -- the first such change.
  pub Steps-Prompt : (r s : Run N) → IsStart N r → Steps N r s → Prompt s.loop s.time s.since
  Steps-Prompt r s (stopped, off, empty, fresh) run = after_steps r s run (
      subst (λ since. Prompt r.loop r.time since) (sym fresh)
        (start-Prompt r.loop r.time stopped off))

  -- In every such run, when a change has come since the daemon last took a tick, the run can go on so
  -- that a tick waits, at once or no later than the debounce after the first such change.
  pub Steps-told :
      (r s : Run N) (t : ℕ)
      → IsStart N r
      → Steps N r s
      → s.since ≡ some t
      → (u : Run N) × Steps N s u
        × (u.loop.ticks ≡ true)
        × ((u.time ≡ s.time) ⊎ (u.time ≤ t + debounce))
  unfolding turn
  Steps-told r s t starts run h =
      let p = Steps-Prompt r s starts run in
      elim (p.told t h).1 [
        | inl full ↦ (s, stop, full, inl refl)
        | inr (due, on, near) ↦ elim (order due s.time) [
          | inl late ↦ (_, step (fires due on late refl) stop, refl, inl refl)
          | inr early ↦ (
            _,
            step (waits due early) (step (fires due on (le_refl due) refl) stop),
            refl,
            inr near,
          )
        ]
      ]
