-- ===== src/Sync/Watcher.antt =====
-- backend/internal/sync/watcher.go: changes of the watched folders, gathered into ticks. The select of
-- Run is one function of what it receives; fsnotify is an interface over an unknown state.
use dropboy.Base.{ℕ, ◌+◌, if◌then◌else◌, Bool, true, false, Text, Option, none, some, List, [], ◌∷◌}
use dropboy.Base.Outcome.{
  Exec, Done, Outcome, ok, err, panic, pure, continue, ◌>>=◌, ◌>>◌, optional,
}
use dropboy.Config.{Config, Folder}
use dropboy.Os.{FileInfo, Tree, unreadable, file, dir, Trees, nil, cons}
pub mod Prompt
pub mod Ticks

pub record Notifier : Type 1 where
  pub State : Type 0
  pub new_watcher : Exec State Done
  pub add : Text → Exec State Done
  pub stat : Text → Exec State FileInfo
  pub walk : Text → State → Tree

-- The timer by the time at which it fires, none where it is stopped or has fired. `ticks` is the
-- channel of the daemon, which holds one tick at most.
pub record Loop : Type 0 where
  pub timer : Option ℕ
  pub armed : Bool
  pub ticks : Bool

-- What the select of Run receives: a Create or another event, with its name.
pub data Event : Type 0 where
  done : Event
  change : Bool → Text → Event
  events_closed : Event
  notifier_error : Event
  fired : Event

-- 750 * time.Millisecond
abbrev pub debounce : ℕ
debounce = 750000000

-- `if !armed`
unfoldable pub arm : ℕ → Loop → Loop
arm now l = if l.armed then l else record l { armed = true; timer = some (now + debounce) }

module _ (N : Notifier) where
  -- `_ = notifier.Add(path)`
  abbrev add_quietly : Text → N.State → N.State
  add_quietly path s = (N.add path s).1

  -- The callback of WalkDir, at every directory from a path down.
  mutual
    add_tree : Tree → N.State → N.State
    add_tree unreadable s = s
    add_tree (file _ _ _ _) s = s
    add_tree (dir path entries) s = add_trees entries (add_quietly path s)

    add_trees : Trees → N.State → N.State
    add_trees nil s = s
    add_trees (cons t ts) s = add_trees ts (add_tree t s)

  add_folders : List Folder → N.State → N.State
  unfolding add_tree
  add_folders [] s = s
  add_folders (f ∷ folders) s = add_folders folders (add_tree (N.walk f.path s) s)

  -- Run before its loop.
  unfoldable pub start : Config → Exec N.State Loop
  unfolding add_folders
  start cfg = do
    _ ← N.new_watcher
    λ s. (ok (record { timer = none; armed = false; ticks = false }), add_folders cfg.folders s)

  -- `if st, err := os.Stat(name); err == nil && st.IsDir()`
  watch_if_dir : Outcome FileInfo × N.State → Text → N.State
  watch_if_dir (ok info, s) name = if info.is_dir then add_quietly name s else s
  watch_if_dir (err _, s) name = s
  watch_if_dir (panic, s) name = s

  -- One turn of the loop at a time, none where Run returns. The timer that has fired is stopped.
  unfoldable pub turn : Event → ℕ → Loop → N.State → Option Loop × N.State
  unfolding watch_if_dir arm
  turn done now l s = (none, s)
  turn (change create name) now l s =
      (some (arm now l), (if create then watch_if_dir (N.stat name s) name else s))
  turn events_closed now l s = (none, s)
  turn notifier_error now l s = (some l, s)
  turn fired now l s = (some (record l { timer = none; armed = false; ticks = true }), s)
