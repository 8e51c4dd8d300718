-- ===== src/Service/Manual.antt =====
-- What the manuals of launchctl and of systemctl say of the runs that an installation makes.
use dropboy.Base.{ℕ, Text, codes, [], ◌∷◌, Option, none, some, ◌≡◌}
use dropboy.Base.Outcome.{Error}
use dropboy.Os.{Os}
use dropboy.Service.{Runner}
use dropboy.Service.Launchd.{Launchd, bootstrap_args, target, domain, quietly}

-- The files of a state.
abbrev pub Files : Os → Type 0
Files X = X.State → Text → Option Text

-- bootstrap loads the property list of a service that is not loaded, and fails for one that is;
-- bootout unloads it; enable loads and unloads nothing. What is loaded does not follow the file.
pub record IsLaunchctl (X : Os) (R : Runner X.State) (content : Files X) (l : Launchd)
    : Type 0 where
  pub loaded : X.State → Option Text
  pub writes :
      (s : X.State) (c : Text) (mode : ℕ) → loaded (X.write_file l.plist_path c mode s).1 ≡ loaded s
  pub bootstrap :
      (s : X.State) (c : Text)
      → content s l.plist_path ≡ some c
      → loaded s ≡ none
      → (out : Text) × (t : X.State) × (R.run (bootstrap_args X R l) s ≡ ((none, out), t))
        × (loaded t ≡ some c)
  pub bootstrap_again :
      (s : X.State) (c : Text)
      → loaded s ≡ some c
      → (e : Error) × (out : Text) × (t : X.State) × (R.run (bootstrap_args X R l) s
          ≡ ((some e, out), t))
        × (loaded t ≡ some c)
        × (content t l.plist_path ≡ content s l.plist_path)
  pub bootout :
      (s : X.State) (c : Text)
      → loaded s ≡ some c
      → (t : X.State) × (quietly X R
            (codes "launchctl" ∷ codes "bootout" ∷ domain X R ∷ l.plist_path ∷ [])
            s
          ≡ t)
        × (loaded t ≡ none)
        × (content t l.plist_path ≡ content s l.plist_path)
  pub enable :
      (s : X.State)
      → loaded (quietly X R (codes "launchctl" ∷ codes "enable" ∷ target X R ∷ []) s) ≡ loaded s

-- The unit that a service runs from after a start: a start of a running service does nothing.
abbrev pub started : Option Text → Text → Text
started none c = c
started (some old) c = old

-- daemon-reload reads the unit files again, and `enable --now` starts a unit that was read.
pub record IsSystemctl (X : Os) (R : Runner X.State) (content : Files X) (unit_path : Text)
    : Type 0 where
  pub known : X.State → Option Text
  pub running : X.State → Option Text
  pub writes :
      (s : X.State) (c : Text) (mode : ℕ) → running (X.write_file unit_path c mode s).1 ≡ running s
  pub reload :
      (s : X.State) (c : Text)
      → content s unit_path ≡ some c
      → (out : Text) × (t : X.State) × (R.run
            (codes "systemctl" ∷ codes "--user" ∷ codes "daemon-reload" ∷ [])
            s
          ≡ ((none, out), t))
        × (known t ≡ some c)
        × (running t ≡ running s)
  pub enable_now :
      (s : X.State) (c : Text)
      → known s ≡ some c
      → (out : Text) × (t : X.State) × (R.run
            (codes "systemctl"
              ∷ codes "--user"
              ∷ codes "enable"
              ∷ codes "--now"
              ∷ codes "dropboy.service"
              ∷ [])
            s
          ≡ ((none, out), t))
        × (running t ≡ some (started (running s) c))
