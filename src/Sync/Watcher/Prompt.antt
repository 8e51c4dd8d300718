-- ===== src/Sync/Watcher/Prompt.antt =====
-- What holds of the watcher's loop between its turns, and that every turn keeps it.
use native.Mathlib.Nat.{le_trans}
use dropboy.Base.{
  ℕ, ◌+◌, ◌≤◌, true, false, Option, none, some, ◌≡◌, refl, sym, ◌∙◌, ap, ◌⊎◌, inl, inr, arith,
  is_some, Bool-cases, Option-cases,
}
use dropboy.Sync.Watcher.{Loop, debounce, arm}

abbrev pub noted : ℕ → Option ℕ → Option ℕ
noted now none = some now
noted now (some t) = some t

-- The watcher is armed just when its timer runs, which then fires within the debounce; a change that
-- the daemon has not been told of has a tick that waits, or a timer that fires within the debounce
-- of the change.
pub record Prompt (l : Loop) (now : ℕ) (since : Option ℕ) : Type 0 where
  pub armed : l.armed ≡ is_some l.timer
  pub soon : (due : ℕ) → l.timer ≡ some due → due ≤ now + debounce
  pub told :
      (t : ℕ)
      → since ≡ some t
      → (t ≤ now) × ((l.ticks ≡ true) ⊎ ((due : ℕ) × (l.timer ≡ some due) × (due ≤ t + debounce)))

pub start-Prompt : (l : Loop) (now : ℕ) → l.timer ≡ none → l.armed ≡ false → Prompt l now none
start-Prompt l now stopped off = record {
  armed = off ∙ ap is_some (sym stopped);
  soon = λ due h. ground (arith, sym stopped ∙ h);
  told = λ t h. ground arith;
}

pub wait-Prompt :
    (l : Loop) (now later : ℕ) (since : Option ℕ)
    → now ≤ later
    → Prompt l now since
    → Prompt l later since
wait-Prompt l now later since goes p = record {
  armed = p.armed;
  soon = λ due on. let near = p.soon due on in omega (arith, near, goes);
  told = λ t h. let (past, rest) = p.told t h in (le_trans past goes, rest);
}

pub fired-Prompt :
    (l : Loop) (now : ℕ) (since : Option ℕ)
    → Prompt l now since
    → Prompt (record l { timer = none; armed = false; ticks = true }) now since
fired-Prompt l now since p = record {
  armed = refl;
  soon = λ due h. ground arith;
  told = λ t h. let (past, rest) = p.told t h in (past, inl refl);
}

pub taken-Prompt :
    (l : Loop) (now : ℕ) (since : Option ℕ)
    → Prompt l now since
    → Prompt (record l { ticks = false }) now none
taken-Prompt l now since p = record { armed = p.armed; soon = p.soon; told = λ t h. ground arith }

-- A timer that is set now serves the first change that the daemon has not been told of.
serves :
    (l : Loop) (now due : ℕ) (since : Option ℕ)
    → Prompt l now since
    → l.timer ≡ some due
    → (t : ℕ) → noted now since ≡ some t
    → (t ≤ now) × ((l.ticks ≡ true) ⊎ ((d : ℕ) × (l.timer ≡ some d) × (d ≤ t + debounce)))
serves l now due none p on t h =
    let same : now ≡ t = ground arith in
    (omega (arith, same), inr (due, on, omega (arith, p.soon due on, same)))
serves l now due (some first) p on t h = p.told t h

stopped_of : (o : Option ℕ) → is_some o ≡ false → o ≡ none
stopped_of none h = refl
stopped_of (some due) h = ground arith

arms :
    (l : Loop) (now : ℕ) (since : Option ℕ)
    → Prompt l now since
    → l.timer ≡ none
    → (t : ℕ) → noted now since ≡ some t
    → (t ≤ now)
      × ((l.ticks ≡ true) ⊎ ((d : ℕ) × (some (now + debounce) ≡ some d) × (d ≤ t + debounce)))
arms l now none p stopped t h =
    let same : now ≡ t = ground arith in
    (omega (arith, same), inr (now + debounce, refl, omega (arith, same)))
arms l now (some first) p stopped t h =
    let (past, which) = p.told t h in
    elim which [
      | inl full ↦ (past, inl full)
      | inr (due, on, near) ↦ ground (arith, sym stopped ∙ on)
    ]

pub arm-Prompt :
    (l : Loop) (now : ℕ) (since : Option ℕ)
    → Prompt l now since
    → Prompt (arm now l) now (noted now since)
unfolding arm
arm-Prompt l now since p = elim (Bool-cases l.armed) [
  | inl on ↦ rw on (elim (Option-cases l.timer) [
    | inl stopped ↦ absurd (ground (arith, on, p.armed))
    | inr (due, runs) ↦ record {
      armed = sym on ∙ p.armed;
      soon = p.soon;
      told = λ t h. serves l now due since p runs t h;
    }
  ])
  | inr off ↦ rw off (record {
    armed = refl;
    soon = λ due h. ground arith;
    told = λ t h. arms l now since p (stopped_of l.timer (sym p.armed ∙ off)) t h;
  })
]
