-- ===== src/Tests/Cli.antt =====
-- Concrete runs of the commands.
use dropboy.Base.{
  Text, text_eq, codes, ◌==◌, if◌then◌else◌, true, false, has_prefix, none, some, is_some, length,
  List, [], ◌∷◌, ◌++◌, ◌≡◌, ◌≢◌, refl, arith, join_path,
}
use dropboy.Base.Dict.{Dict, lookup}
use dropboy.Base.Outcome.{Exec, ok}
use dropboy.Os.{Os, FileInfo, IsReliable}
use dropboy.Config
use dropboy.Config.{Config, Folder}
use dropboy.Config.Files.{Yaml, load}
use dropboy.Server.Http.{Handler, no_body}
use dropboy.Server.Auth.{auth_middleware, promote}
use dropboy.Cli.Client.{api_request, auth_middleware-api_request}
use dropboy.Crypto.Keystore.{load_master_key, load_master_key_with_recovery}
use dropboy.Cli.Init.{Words, Session, show_recovery_code, prompt_passphrase, create_keys}
use dropboy.Cli.Init.Keys.{create_keys-load}
use dropboy.Cli.Init.Asking.{show_recovery_code-returns}
use dropboy.Cli.Folders.{Filepath, add, remove}
use dropboy.Cli.Folders.Watched.{Writes, add-remove}
use dropboy.Tests.Memory.{
  memory_os, memory_os-IsReliable, memory_blobs, toy_primitives, toy_primitives-IsLawful,
}

abbrev teapot : Handler (Unit {0}) (Unit {0})
teapot r headers s = (record { status = 418; headers = headers; body = no_body }, s)

token_given : codes "t" ≢ []
token_given h = ground arith

auth_middleware-api_request_example :
    let r =
      api_request
        (codes "POST")
        (record { host = codes "127.0.0.1:7777"; path = codes "/api/v1/pause"; query = [] })
        (codes "t")
        none
        (codes "127.0.0.1:5") in
    auth_middleware (codes "t") teapot r [] tt ≡ teapot r (promote (codes "t") r []) tt
auth_middleware-api_request_example =
    auth_middleware-api_request teapot (codes "POST")
      (record { host = codes "127.0.0.1:7777"; path = codes "/api/v1/pause"; query = [] })
      (codes "t") none (codes "127.0.0.1:5") [] tt token_given

-- Texts in lower case without blanks.
abbrev words : Words (Unit {0})
words = record { trim_space = λ s. s; to_lower = λ s. s; hostname = λ s. (codes "h", s) }

show_recovery_code-returns_example :
    is_some (show_recovery_code words 4 ([] ∷ codes "no" ∷ codes "saved" ∷ [])) ≡ true
unfolding text_eq
show_recovery_code-returns_example =
    show_recovery_code-returns words refl ([] ∷ codes "no" ∷ codes "saved" ∷ []) 4 (omega arith)

-- Every path is a directory.
abbrev directory : FileInfo
directory = record { name = codes "d"; size = 0; mod_time = 1; is_dir = true }

abbrev directories : Os
directories = record memory_os { stat = λ p s. (ok directory, s) }

directories-IsReliable : IsReliable directories
unfolding memory_os-IsReliable
directories-IsReliable = record {
  content = memory_os-IsReliable.content;
  read_file = memory_os-IsReliable.read_file;
  write_file = memory_os-IsReliable.write_file;
  mkdir_all = memory_os-IsReliable.mkdir_all;
  stat = λ s p c h. (directory, refl);
  now = memory_os-IsReliable.now;
  random = memory_os-IsReliable.random;
  random_int = memory_os-IsReliable.random_int;
}

abbrev with_d : Config
with_d = record Config.default {
  folders = Config.default.folders ++ record { path = codes "/d"; exclude = [] } ∷ [];
}

abbrev tag : List Folder → Text
tag [] = codes "none"
tag (f ∷ fs) = codes "some"

-- The format of the two configs.
abbrev two_configs : Yaml
two_configs = record {
  marshal = λ cfg. ok (tag cfg.folders);
  unmarshal = λ text old. ok (if text == codes "none" then Config.default else with_d);
}

abbrev home : Exec (Dict Text) Text
home s = (ok (codes "/h"), s)

abbrev paths : Filepath (Dict Text)
paths = record { absolute = λ p s. (ok p, s); join = join_path; join_by = λ sep parts. [] }

abbrev default_disk : Dict Text
default_disk =
    (join_path (join_path (codes "/h") (codes ".dropboy")) (codes "config.yaml"), codes "none") ∷ []

holds_default : load directories two_configs home default_disk ≡ (ok Config.default, default_disk)
unfolding load lookup text_eq join_path
holds_default = refl

default-Writes : Writes two_configs Config.default (codes "none")
unfolding text_eq
default-Writes = record { made = refl; back = λ old. refl }

with_d-Writes : Writes two_configs with_d (codes "some")
unfolding text_eq
with_d-Writes = record { made = refl; back = λ old. refl }

no_tilde : has_prefix (codes "/d") (codes "~") ≡ false
unfolding has_prefix
no_tilde = refl

add-remove_example :
    (t : Dict Text) × (u : Dict Text) × (add directories two_configs home paths
        (codes "/d")
        []
        default_disk
      ≡ (ok (codes "/d"), t))
    × (load directories two_configs home t ≡ (ok with_d, t))
    × (remove directories two_configs home paths (codes "/d") t ≡ (ok (codes "/d"), u))
    × (load directories two_configs home u ≡ (ok Config.default, u))
add-remove_example =
    add-remove directories two_configs home paths directories-IsReliable (codes "/h") (λ t. refl)
      (codes "/d") no_tilde (λ t. refl) Config.default [] (codes "some") (codes "none") default_disk
      directory holds_default refl refl refl with_d-Writes default-Writes

abbrev typist : Words (Dict Text)
typist = record { trim_space = λ s. s; to_lower = λ s. s; hostname = λ s. (codes "h", s) }

-- A passphrase of the user's own, typed twice, and the recovery code confirmed.
abbrev answering : Session toy_primitives memory_blobs memory_os two_configs home typist
answering = record {
  os = [];
  lines = codes "n" ∷ codes "secret" ∷ codes "secret" ∷ codes "saved" ∷ codes "more" ∷ [];
}

abbrev answered : Session toy_primitives memory_blobs memory_os two_configs home typist
answered = record { os = []; lines = codes "saved" ∷ codes "more" ∷ [] }

own_passphrase :
    prompt_passphrase toy_primitives memory_blobs memory_os two_configs home typist answering
    ≡ (ok (codes "secret"), answered)
unfolding prompt_passphrase text_eq has_prefix
own_passphrase = refl

code_confirmed : show_recovery_code typist 3 answered.lines ≡ some (codes "more" ∷ [])
unfolding show_recovery_code text_eq
code_confirmed = refl

create_keys-load_example :
    (u : Session toy_primitives memory_blobs memory_os two_configs home typist) × (code : Text)
    × (master : Text) × (create_keys toy_primitives memory_blobs memory_os two_configs home typist 3
          (codes "d")
          answering
        ≡ (ok tt, u))
    × (length code ≡ 20)
    × (length master ≡ 32)
    × (load_master_key toy_primitives memory_blobs memory_os (codes "d") (codes "secret") u.os
        ≡ (ok master, u.os))
    × (load_master_key_with_recovery toy_primitives memory_blobs memory_os (codes "d") code u.os
        ≡ (ok master, u.os))
create_keys-load_example =
    create_keys-load toy_primitives toy_primitives-IsLawful memory_blobs memory_os
      memory_os-IsReliable two_configs home typist 3 (codes "d") (codes "secret") answering answered
      (codes "more" ∷ []) own_passphrase code_confirmed
