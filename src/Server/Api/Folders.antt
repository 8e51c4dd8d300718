-- ===== src/Server/Api/Folders.antt =====
-- The handlers of the settings and of the watched folders. `decoded` is what readJSON makes of the
-- request's body.
pub mod Distinct
use dropboy.Base.{
  ℕ, Text, text_eq, codes, ◌==◌, if◌then◌else◌, Bool, true, false, not, Option, none, some, List,
  [], ◌∷◌, ◌++◌, any, keep,
}
use dropboy.Base.Outcome.{Exec, Done, Outcome, ok, err, panic}
use dropboy.Os.{FileInfo}
use dropboy.Config.{Config, Folder}
use dropboy.Server.Http.{Request, Response, Handler, get_text}
use dropboy.Server.Answer.{
  Answer, Serve, grant, refuse, answer_of, calling, unless, handler, ◌>>=◌, ◌>>◌,
}
use dropboy.Server.Api.{Engine, System, Server, Reply, folders, settings, on_system}

pub record FolderPayload : Type 0 where
  pub path : Text
  pub exclude : List Text

-- `err != nil || !st.IsDir()`
abbrev pub is_accessible_dir : Outcome FileInfo → Outcome Bool
is_accessible_dir (ok info) = ok info.is_dir
is_accessible_dir (err e) = ok false
is_accessible_dir panic = panic

module _ (G : Engine) (X : System) where
  abbrev pub read_json : {A : Type 0} → Outcome A → Serve (Server G X) A
  read_json decoded s = (answer_of 400 X.error_text decoded, s)

  abbrev pub config : Serve (Server G X) Config
  config s = grant s.cfg s

  abbrev pub set_config : Config → Serve (Server G X) Done
  set_config cfg s = grant tt (record s { cfg = cfg })

  abbrev pub save_config : Config → Serve (Server G X) Done
  save_config cfg = calling 500 X.error_text (on_system G X (X.save cfg))

  abbrev pub absolute : Text → Serve (Server G X) Text
  absolute path = calling 400 X.error_text (on_system G X (X.abs path))

  abbrev pub is_dir : Text → Serve (Server G X) Bool
  is_dir path =
      calling 400 X.error_text
        (on_system G X (λ x. let (r, x') = X.stat path x in (is_accessible_dir r, x')))

  -- handleSettingsGet
  unfoldable pub settings_get : Serve (Server G X) Reply
  settings_get = do cfg ← config; grant (settings cfg)

  -- handleSettingsPut
  unfoldable pub settings_put : Outcome Config → Serve (Server G X) Reply
  settings_put decoded = do
    incoming ← read_json decoded
    cfg ← config
    set_config (record incoming { folders = cfg.folders })
    save_config (record incoming { folders = cfg.folders })
    grant (settings (record incoming { folders = cfg.folders }))

  -- handleFoldersList
  unfoldable pub folders_list : Serve (Server G X) Reply
  folders_list = do cfg ← config; grant (folders cfg.folders)

  -- handleFoldersAdd
  unfoldable pub folders_add : Outcome FolderPayload → Serve (Server G X) Reply
  folders_add decoded = do
    p ← read_json decoded
    unless (p.path == []) 400 (codes "path required")
    abs ← absolute p.path
    accessible ← is_dir abs
    unless (not accessible) 400 (codes "path is not an accessible directory")
    cfg ← config
    unless (any (λ f. f.path == abs) cfg.folders) 409 (codes "already watched")
    let watched = cfg.folders ++ record { path = abs; exclude = p.exclude } ∷ []
    set_config (record cfg { folders = watched })
    save_config (record cfg { folders = watched })
    grant (folders watched)

  -- handleFoldersRemove
  unfoldable pub folders_remove : Text → Serve (Server G X) Reply
  folders_remove target = do
    unless (target == []) 400 (codes "path required")
    abs ← absolute target
    cfg ← config
    let next = keep (λ f. not (f.path == abs)) cfg.folders
    set_config (record cfg { folders = next })
    unless (not (any (λ f. f.path == abs) cfg.folders)) 404 (codes "not watched")
    save_config (record cfg { folders = next })
    grant (folders next)
