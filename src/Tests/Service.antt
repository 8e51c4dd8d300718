-- ===== src/Tests/Service.antt =====
-- An installation over a service that is loaded and runs already.
use dropboy.Base.{
  Text, text_eq, codes, ◌==◌, if◌then◌else◌, Option, none, some, List, [], ◌∷◌, ◌≡◌, refl,
}
use dropboy.Base.Dict.{Dict, lookup, insert, erase, lookup-insert, lookup-erase}
use dropboy.Base.Outcome.{Error, ok, message}
use dropboy.Service.{Runner}
use dropboy.Service.Launchd
use dropboy.Service.Systemd
use dropboy.Service.Manual.{IsLaunchctl, IsSystemctl, started}
use dropboy.Tests.Memory.{memory_os, memory_os-IsReliable}

abbrev agent : Launchd.Launchd
agent = record { plist_path = codes "/agent"; log_dir = codes "/logs" }

abbrev unit_path : Text
unit_path = codes "/unit"

-- What the tools know is kept beside the files, under names that are no paths.
abbrev load : Text → Text → Option Text → Dict Text → Dict Text
load key path none s = s
load key path (some c) s = insert key c s

abbrev boot : Option Text → Dict Text → (Option Error × Text) × Dict Text
boot (some old) s = ((some (message (codes "already loaded")), []), s)
boot none s = ((none, []), load (codes "loaded") agent.plist_path (lookup agent.plist_path s) s)

abbrev begin : Option Text → Dict Text → Dict Text
begin (some old) s = s
begin none s = load (codes "running") (codes "known") (lookup (codes "known") s) s

-- The tools, told apart by the second and third words.
abbrev do_word : Text → Dict Text → (Option Error × Text) × Dict Text
do_word word s =
    if word == codes "bootstrap"
    then boot (lookup (codes "loaded") s) s
    else if word == codes "bootout"
    then ((none, []), erase (codes "loaded") s)
    else if word == codes "daemon-reload"
    then ((none, []), load (codes "known") unit_path (lookup unit_path s) s)
    else if word == codes "--now"
    then ((none, []), begin (lookup (codes "running") s) s)
    else ((none, []), s)

abbrev word_of : List Text → Text
word_of (a ∷ b ∷ c ∷ d ∷ e ∷ rest) = d
word_of (a ∷ b ∷ c ∷ d ∷ []) = b
word_of (a ∷ b ∷ c ∷ []) = if a == codes "systemctl" then c else b
word_of rest = []

abbrev tools : Runner (Dict Text)
unfolding text_eq
tools = record {
  run = λ args s. do_word (word_of args) s;
  home = λ s. (ok (codes "/h"), s);
  absolute = λ p s. (ok (codes "/bin/dropboy"), s);
  uid = codes "501";
  trim_space = λ s. s;
}

unfoldable tools-IsLaunchctl : IsLaunchctl memory_os tools memory_os-IsReliable.content agent
unfolding text_eq memory_os-IsReliable
tools-IsLaunchctl = record {
  loaded = λ s. lookup (codes "loaded") s;
  writes = λ s c mode. lookup-insert (codes "loaded") agent.plist_path c s;
  bootstrap = λ s c h fresh. (
    [],
    insert (codes "loaded") c s,
    rw fresh (rw h refl),
    lookup-insert (codes "loaded") (codes "loaded") c s,
  );
  bootstrap_again =
      λ s c there. (message (codes "already loaded"), [], s, rw there refl, there, refl);
  bootout = λ s c there. (
    erase (codes "loaded") s,
    refl,
    lookup-erase (codes "loaded") (codes "loaded") s,
    lookup-erase agent.plist_path (codes "loaded") s,
  );
  enable = λ s. refl;
}

begin-started :
    (o : Option Text) (c : Text) (s : Dict Text)
    → lookup (codes "running") s ≡ o
    → lookup (codes "known") s ≡ some c
    → lookup (codes "running") (begin o s) ≡ some (started o c)
unfolding text_eq
begin-started none c s h known = rw known (lookup-insert (codes "running") (codes "running") c s)
begin-started (some old) c s h known = h

unfoldable tools-IsSystemctl : IsSystemctl memory_os tools memory_os-IsReliable.content unit_path
unfolding text_eq memory_os-IsReliable
tools-IsSystemctl = record {
  known = λ s. lookup (codes "known") s;
  running = λ s. lookup (codes "running") s;
  writes = λ s c mode. lookup-insert (codes "running") unit_path c s;
  reload = λ s c h. (
    [],
    insert (codes "known") c s,
    rw h refl,
    lookup-insert (codes "known") (codes "known") c s,
    lookup-insert (codes "running") (codes "known") c s,
  );
  enable_now = λ s c h. (
    [],
    begin (lookup (codes "running") s) s,
    refl,
    begin-started (lookup (codes "running") s) c s refl h,
  );
}

-- An older agent is loaded.
abbrev upgraded : Dict Text
upgraded = (codes "loaded", codes "old") ∷ (codes "running", codes "old") ∷ []
