-- ===== src/Tests/Interrupted.antt =====
-- An upload at a concrete world whose database takes no entry.
use dropboy.Base.{Text, codes, text_eq, some, none, [], ◌∷◌, ◌≡◌, refl, if◌then◌else◌, ◌==◌}
use dropboy.Base.Dict.{Dict, lookup}
use dropboy.Base.Outcome.{err, Error, message}
use dropboy.Sync.Ops.{noop, conflict, download}
use dropboy.Sync.Plan.Table.{verdict}
use dropboy.Sync.Engine.{Env, World, new_engine}
use dropboy.Sync.Transfer.{lookup_text, do_upload}
use dropboy.Sync.Transfer.Interrupted.{do_upload-interrupted}
use dropboy.Config
use dropboy.Config.{Config}
use dropboy.Tests.Memory.{
  memory_os, memory_store, memory_client, toy_primitives, toy_primitives-IsLawful,
  memory_os-IsReliable, memory_client-IsReliable,
}
use dropboy.Tests.Sync.{local_file, remote_file, thirty_two}

abbrev disk_full : Error
disk_full = message (codes "database or disk is full")

abbrev full_env : Env
full_env = record {
  os = memory_os;
  db = record memory_store { put = λ e s. (err disk_full, s) };
  cloud = memory_client;
  primitives = toy_primitives;
}

abbrev edited_file : World full_env
edited_file = record {
  os = (codes "/a", codes "hello") ∷ [];
  db = [];
  cloud = [];
  engine = new_engine Config.default thirty_two (codes "m1");
}

do_upload-interrupted_example :
    (u : World full_env) × (o : Text × Dict Text) × (do_upload full_env
        (codes "/a")
        (codes "k")
        (local_file (codes "h"))
        edited_file
      ≡ (err disk_full, u))
    × (u.db ≡ edited_file.db)
    × (lookup (codes "k") u.cloud ≡ some o)
    × (lookup_text (codes "dropboy-plain-sha256") o.1 ≡ codes "h")
    × (verdict
          (some (local_file (codes "i")))
          (some (record (remote_file []) { hash = lookup_text (codes "dropboy-plain-sha256") o.1 }))
          none
        ≡ (if codes "h" == codes "i" then noop else conflict))
    × (verdict none
          (some (record (remote_file []) { hash = lookup_text (codes "dropboy-plain-sha256") o.1 }))
          none
        ≡ download)
unfolding new_engine lookup text_eq memory_os-IsReliable memory_client-IsReliable
do_upload-interrupted_example =
    do_upload-interrupted full_env toy_primitives-IsLawful memory_os-IsReliable
      memory_client-IsReliable (codes "/a") (codes "k") (codes "hello") (local_file (codes "h"))
      (local_file (codes "i")) (remote_file []) disk_full edited_file refl refl (λ e. refl)
