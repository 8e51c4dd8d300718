-- ===== src/Tests/System.antt =====
-- Concrete runs of the throttled reader, the watcher, the keychain and the log.
use dropboy.Base.{
  ℕ, ◌+◌, ◌-◌, ◌*◌, ◌≤◌, min, Text, text_eq, codes, ◌==◌, if◌then◌else◌, true, false, Option, none,
  some, List, [], ◌∷◌, ◌++◌, ◌≡◌, refl, length, ◌⊎◌, inr,
}
use dropboy.Base.Dict.{Dict, lookup, insert, erase, lookup-insert, lookup-erase}
use dropboy.Base.Outcome.{ok, err, message, not_exist}
use dropboy.Os.{unreadable}
use dropboy.Sync.Throttle.{Source, ThrottledReader, second, new_throttled_reader, is_positive}
use dropboy.Sync.Throttle.Rate.{IsTimed, reads, new_throttled_reader-reads}
use dropboy.Sync.Watcher.{Notifier, debounce, turn}
use dropboy.Sync.Watcher.Prompt.{Prompt}
use dropboy.Sync.Watcher.Ticks.{Run, Steps, stop, step, sees, Steps-Prompt, Steps-told}
use native.Mathlib.Nat.{le_refl, min-le_left}
use dropboy.Tui.Commands.{trim_newlines}
use dropboy.Keychain
use dropboy.Keychain.{Tools, Ran, good}
use dropboy.Keychain.Manual.{IsSecretTool}
use dropboy.Keychain.RoundTrip.{IsKept, item_of, keychain-IsKept}
use dropboy.Logging.{LogFiles, RotatingWriter, write}
use dropboy.Logging.Rotation
use dropboy.Logging.Rotation.{renamed, IsWell}
use dropboy.Logging.Bounds.{Wrote, write-bounds}

-- A clock that a sleep advances, and a reader of at most ten bytes at a time.
abbrev ten_at_a_time : Source
ten_at_a_time = record {
  State = ℕ;
  now = λ s. (s, s);
  sleep = λ d s. s + d;
  read = λ n s. ((min n 10, none), s);
}

abbrev ten_at_a_time-IsTimed : IsTimed ten_at_a_time
ten_at_a_time-IsTimed = record {
  time = λ s. s;
  now = λ s. (refl, le_refl s);
  sleep = λ d s. le_refl (s + d);
  read = λ n s. (min-le_left n 10, le_refl s);
}

positive_1000 : is_positive 1000 ≡ true
unfolding is_positive
positive_1000 = refl

new_throttled_reader-reads_example :
    (r : ThrottledReader) × (t : ℕ) × (new_throttled_reader ten_at_a_time 1000 7 ≡ (some r, t))
    × ((lens : List ℕ)
        → let (n, r', u) = reads ten_at_a_time lens r t in
          n * second ≤ (second + (u - 7) + length lens) * 1000)
new_throttled_reader-reads_example =
    new_throttled_reader-reads ten_at_a_time ten_at_a_time-IsTimed 1000 7 positive_1000

abbrev quiet : Notifier
quiet = record {
  State = Unit {0};
  new_watcher = λ s. (ok tt, s);
  add = λ path s. (ok tt, s);
  stat = λ path s. (err not_exist, s);
  walk = λ path s. unreadable;
}

abbrev begun : Run quiet
begun = record {
  loop = record { timer = none; armed = false; ticks = false };
  world = tt;
  time = 3;
  since = none;
}

abbrev changed : Run quiet
changed = record {
  loop = record { timer = some (3 + debounce); armed = true; ticks = false };
  world = tt;
  time = 3;
  since = some 3;
}

one_change : Steps quiet begun changed
unfolding turn
one_change = step (sees true (codes "/a") refl) stop

Steps-Prompt_example : Prompt changed.loop 3 (some 3)
Steps-Prompt_example = Steps-Prompt quiet begun changed (refl, refl, refl, refl) one_change

Steps-told_example :
    (u : Run quiet) × Steps quiet changed u
    × (u.loop.ticks ≡ true)
    × ((u.time ≡ 3) ⊎ (u.time ≤ 3 + debounce))
Steps-told_example = Steps-told quiet begun changed 3 (refl, refl, refl, refl) one_change refl

abbrev wrote : Text → Ran
wrote out = record { failed = none; stdout = out; stderr = []; combined = [] }

abbrev failed_with : Text → Ran
failed_with out = record {
  failed = some (message (codes "exit status 1"));
  stdout = [];
  stderr = out;
  combined = out;
}

abbrev looked_up : Option Text → Ran
looked_up none = failed_with []
looked_up (some secret) = wrote secret

-- secret-tool in memory: store has seven words, lookup and clear have six.
abbrev secret_tool : List Text → Text → Dict Text → Ran × Dict Text
secret_tool (_ ∷ _ ∷ _ ∷ _ ∷ _ ∷ _ ∷ account ∷ []) secret s = (wrote [], insert account secret s)
secret_tool (_ ∷ verb ∷ _ ∷ _ ∷ _ ∷ account ∷ []) _ s =
    if verb == codes "lookup"
    then (looked_up (lookup account s), s)
    else (wrote [], erase account s)
secret_tool _ _ s = (failed_with [], s)

abbrev linux_tools : Tools
linux_tools = record {
  State = Dict Text;
  goos = codes "linux";
  look_path = λ name s. true;
  run = secret_tool;
  trim_space = λ s. s;
}

linux_tools-IsSecretTool : IsSecretTool linux_tools
unfolding text_eq
linux_tools-IsSecretTool = record {
  item = λ s account. lookup account s;
  present = λ s. refl;
  store = λ s account secret. (_, _, refl, refl, λ q. lookup-insert q account secret s);
  lookup = λ s account secret h. (wrote secret, rw h refl, refl, refl);
  lookup_missing = λ s account h. (failed_with [], _, rw h refl, refl, refl);
  clear = λ s account secret h. (_, _, refl, refl, λ q. lookup-erase q account s);
}

keychain-IsKept_example :
    IsKept linux_tools
      (item_of linux_tools (inr (refl, linux_tools-IsSecretTool)))
      (Keychain.set linux_tools)
      (Keychain.get linux_tools)
      (Keychain.delete linux_tools)
keychain-IsKept_example = keychain-IsKept linux_tools (inr (refl, linux_tools-IsSecretTool))

plain_secret : trim_newlines (codes "s3cret") ≡ codes "s3cret"
unfolding trim_newlines
plain_secret = refl

abbrev with_content : Text → Option Text → (Text → Option Text) → Text → Option Text
with_content path c s q = if q == path then c else s q

abbrev appended : Option Text → Text → Option Text
appended none p = some p
appended (some c) p = some (c ++ p)

-- Files in memory, that are open by their paths.
abbrev memory_files : LogFiles
memory_files = record {
  State = Text → Option Text;
  File = Text;
  mkdir_all = λ path mode s. (ok tt, s);
  open_file = λ path flags mode s. (ok path, with_content path (some []) s);
  stat_size = λ f s. some 0;
  write = λ f p s. ((length p, none), with_content f (appended (s f) p) s);
  close = λ f s. (ok tt, s);
  rename = λ src dst s. (ok tt, renamed s src dst);
}

memory_files-IsFaithful : Rotation.IsFaithful memory_files
memory_files-IsFaithful = record {
  content = λ s path. s path;
  Points = λ s f path. f ≡ path;
  close = λ f s q. refl;
  rename = λ src dst s q. refl;
  truncate = λ path mode s. (path, _, refl, refl, λ q. refl);
  write = λ f path c p s same log. (_, refl, same, λ q. rw same (rw log refl));
}

abbrev log_writer : RotatingWriter memory_files
log_writer = record { path = codes "/l"; file = some (codes "/l"); n = 2 }

abbrev log_files : Text → Option Text
log_files = with_content (codes "/l") (some (codes "ab")) (λ q. none)

log_writer-IsWell : IsWell memory_files memory_files-IsFaithful log_writer (codes "ab") log_files
unfolding memory_files-IsFaithful text_eq
log_writer-IsWell = record {
  file = codes "/l";
  is_open = refl;
  points = refl;
  log = refl;
  size = refl;
}

write-bounds_example :
    Wrote memory_files memory_files-IsFaithful log_writer
      (codes "ab")
      (codes "cde")
      log_files
      (write memory_files log_writer (codes "cde") log_files)
write-bounds_example =
    write-bounds memory_files memory_files-IsFaithful log_writer (codes "ab") (codes "cde")
      log_files log_writer-IsWell
