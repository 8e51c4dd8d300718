-- ===== src/Tests/Server.antt =====
-- The theorems about the config file, the token and the API at concrete inputs.
use dropboy.Base.{
  ℕ, Text, text_eq, nat_eq, codes, ◌==◌, some, List, [], ◌∷◌, ◌++◌, ◌≡◌, ◌≤◌, refl, true, false,
  arith, length, join_path, has_prefix, hex_encode, Bool, map,
}
use dropboy.Base.Dict.{Dict, lookup}
use dropboy.Base.Outcome.{Exec, Outcome, ok, err, not_exist}
use dropboy.Config
use dropboy.Config.{Config, Folder}
use dropboy.Config.Files.{Yaml, save, load, save-load}
use dropboy.Server.Token.{load_or_create_token, load_or_create_token-stable}
use dropboy.Server.Events.{Event, EventHub, new_event_hub, publish, subscribe, deliver}
use dropboy.Server.Events.Bounds.{Reach, starts, turns, publishes, subscribes, delivers}
use dropboy.Server.Events.Sent.{take, publish_all, deliver_all, filled, publish_all-deliver_all}
use dropboy.Server.Api.{Engine, System, Server}
use dropboy.Server.Api.Folders.{settings_put, folders_add, folders_remove}
use dropboy.Server.Api.Folders.Distinct.{IsDistinct, edits-IsDistinct}
use dropboy.Server.Files.{Paths, View, FileNode, NodeInfo, node, no_nodes, more, kind_for, excluded}
use dropboy.Server.Files.Build.{
  walk_dir, build_node, add_children, folder_node, file_node, start_node,
}
use dropboy.Server.Files.Lookup.{resolve_watched, resolve_segments, resolve_in, is_under}
use dropboy.Server.Files.Watched.{climbs, IsWatched, resolve_watched-IsWatched}
use dropboy.Server.Files.Depth.{is_within, walk_dir-within}
use dropboy.Tests.Memory.{memory_os, memory_os-IsReliable}

-- A format that is read as the default config.
abbrev constant_yaml : Yaml
constant_yaml = record {
  marshal = λ cfg. ok (codes "default");
  unmarshal = λ text old. ok Config.default;
}

abbrev home : Exec (Dict Text) Text
home s = (ok (codes "/h"), s)

save-load_example :
    (t : Dict Text) × (save memory_os constant_yaml home Config.default [] ≡ (ok tt, t))
    × (load memory_os constant_yaml home t ≡ (ok Config.default, t))
    × ((q : Text)
        → (q == join_path (join_path (codes "/h") (codes ".dropboy")) (codes "config.yaml")) ≡ false
        → lookup q t ≡ lookup q [])
unfolding memory_os-IsReliable
save-load_example =
    save-load memory_os constant_yaml home memory_os-IsReliable (codes "/h") (codes "default")
      Config.default [] refl (λ old. refl) (λ t. refl)

-- Without the newline that ends it.
abbrev trim_newline : Text → Text
trim_newline [] = []
trim_newline (c ∷ []) = []
trim_newline (c ∷ d ∷ s) = c ∷ trim_newline (d ∷ s)

trim_newline-append : (s : Text) → trim_newline (s ++ codes "\n") ≡ s
trim_newline-append [] = refl
trim_newline-append (c ∷ []) = refl
trim_newline-append (c ∷ d ∷ s) = rw (trim_newline-append (d ∷ s)) refl

abbrev token_disk : Dict Text
token_disk = (codes "d/ui.token", codes "short") ∷ []

load_or_create_token-stable_example :
    (token : Text) × (t u : Dict Text) × (load_or_create_token memory_os trim_newline
        (codes "d")
        token_disk
      ≡ (ok token, t))
    × (32 ≤ length token)
    × (load_or_create_token memory_os trim_newline (codes "d") t ≡ (ok token, u))
unfolding lookup text_eq join_path memory_os-IsReliable
load_or_create_token-stable_example =
    load_or_create_token-stable memory_os trim_newline memory_os-IsReliable (codes "d")
      (codes "short") token_disk (λ b. trim_newline-append (hex_encode b)) refl

abbrev tick : Event
tick = record { kind = codes "status"; time = 1 }

abbrev used_hub : EventHub
used_hub = deliver (publish tick (subscribe 3 new_event_hub))

used_hub-IsReach : Reach used_hub
used_hub-IsReach = turns (turns (turns starts (subscribes 3)) (publishes tick)) delivers

publish_all-deliver_all_example :
    deliver_all (length (publish_all (tick ∷ []) used_hub).inbox) (publish_all (tick ∷ []) used_hub)
    ≡ record {
      clients = map (filled (take 64 (used_hub.inbox ++ tick ∷ []))) used_hub.clients;
      inbox = [];
    }
publish_all-deliver_all_example = publish_all-deliver_all used_hub (tick ∷ []) used_hub-IsReach

abbrev idle_engine : Engine
idle_engine = record {
  State = ℕ;
  stats = λ g. record {
    last_run = g;
    queue_up = 0;
    queue_down = 0;
    bytes_up = 0;
    bytes_down = 0;
    conflicts = 0;
    paused = false;
  };
  conflicts = λ g. [];
  resolve_conflict = λ id g. (false, g);
  kick_sync = λ g. (ok tt, g);
  set_paused = λ v g. g;
  locked = λ g. false;
  unlock = λ p v g. (ok tt, g);
  unlock_with_recovery = λ c g. (ok tt, g);
  forget_passphrase = λ g. (ok tt, g);
}

abbrev quiet_system : System
quiet_system = record {
  State = ℕ;
  stat = λ p n. (ok (record { name = p; size = 0; mod_time = 1; is_dir = true }), n);
  hostname = λ n. (ok (codes "h"), n);
  abs = λ p n. (ok p, n);
  now = λ n. (n, n);
  save = λ cfg n. (ok tt, n);
  error_text = λ e. codes "error";
}

abbrev watched_folder : Folder
watched_folder = record { path = codes "/x"; exclude = [] }

abbrev one_folder : Server idle_engine quiet_system
one_folder = record {
  cfg = record Config.default { folders = watched_folder ∷ [] };
  engine = some 0;
  events = new_event_hub;
  kicks = 0;
  system = 0;
}

edits-IsDistinct_example :
    ((settings_put idle_engine quiet_system (ok Config.default) one_folder).1.cfg.folders
      ≡ watched_folder ∷ [])
    × IsDistinct
        (folders_add idle_engine quiet_system
          (ok (record { path = codes "/y"; exclude = [] }))
          one_folder).1.cfg.folders
    × IsDistinct (folders_remove idle_engine quiet_system (codes "/x") one_folder).1.cfg.folders
edits-IsDistinct_example =
    edits-IsDistinct idle_engine quiet_system one_folder (ok Config.default)
      (ok (record { path = codes "/y"; exclude = [] })) (codes "/x") (refl, tt)

abbrev joined : List Text → Text
joined [] = []
joined (p ∷ []) = p
joined (p ∷ q ∷ ps) = join_path p (joined (q ∷ ps))

-- Paths on which every name is the same.
abbrev flat_paths : Paths
flat_paths = record {
  base = λ p. codes "x";
  join = joined;
  abs = λ p. ok p;
  rel_to_parent = λ root p. p;
  ext_lower = λ n. [];
  equal_fold = λ a b. false;
  matches = λ p n. false;
  segments = λ p. codes "x" ∷ codes "a" ∷ [];
  sort = λ less es. es;
  less = λ a b. false;
  sha1_hex8 = λ s. s;
  format_time = λ t. [];
}

abbrev unless_climbing : Bool → Text → Outcome Text
unless_climbing true p = err not_exist
unless_climbing false p = ok p

unless_climbing-ok :
    (climbing : Bool) (p c : Text)
    → unless_climbing climbing p ≡ ok c
    → (climbing ≡ false) × (p ≡ c)
unless_climbing-ok true p c h = ground arith
unless_climbing-ok false p c h = ground arith

-- Paths on which every name is the same, with no absolute path for one with "..".
abbrev clean_paths : Paths
clean_paths = record flat_paths { abs = λ p. unless_climbing (climbs p) p }

clean_paths-abs : (p c : Text) → clean_paths.abs p ≡ ok c → climbs c ≡ false
clean_paths-abs p c h = let (stays, same) = unless_climbing-ok (climbs p) p c h in rw same at stays

resolve_watched-IsWatched_example :
    (first : Text) × (rest : List Text) × (clean_paths.segments (codes "/x/a") ≡ first ∷ rest)
    × IsWatched clean_paths first rest
        (resolve_watched clean_paths (watched_folder ∷ []) (codes "/x/a"))
        (watched_folder ∷ [])
unfolding text_eq
resolve_watched-IsWatched_example =
    resolve_watched-IsWatched clean_paths clean_paths-abs (watched_folder ∷ []) (codes "/x/a") (
      unfold resolve_watched resolve_segments resolve_in is_under text_eq nat_eq has_prefix
        join_path climbs in
      λ e. ground (arith, e))

-- A disk on which the directory "/x" holds one name, and everything else is a file.
abbrev small_view : View
small_view = record {
  stat = λ p. ok (record { name = p; size = 2; mod_time = 1; is_dir = p == codes "/x" });
  read_dir = λ p. ok (record { name = codes "a"; is_dir = false } ∷ []);
}

abbrev small_info : Text → Text → ℕ → NodeInfo
small_info path kind size = record {
  id = codes "m:" ++ path;
  name = path;
  kind = kind;
  size = size;
  modified = [];
  machine = codes "m";
  path = codes "/" ++ path;
  status = codes "synced";
  encrypted = true;
}

abbrev small_tree : FileNode
small_tree =
    node (small_info (codes "/x") (codes "folder") 2)
      (more (node (small_info (codes "/x/a") (codes "binary") 2) no_nodes) no_nodes)

small_tree-walk_dir : walk_dir flat_paths small_view (codes "/x") (codes "m") [] ≡ ok small_tree
unfolding walk_dir build_node add_children folder_node file_node start_node kind_for excluded
    join_path text_eq nat_eq
small_tree-walk_dir = refl

walk_dir-within_example : is_within 8 small_tree ≡ true
walk_dir-within_example =
    walk_dir-within flat_paths small_view (codes "/x") (codes "m") [] small_tree small_tree-walk_dir
