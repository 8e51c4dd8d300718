-- ===== src/Tui/Commands.antt =====
-- The slash commands of backend/internal/tui/commands.go. `Terminal` is what they take of lipgloss,
-- fmt, strings and sort; a style is a function on texts.
use dropboy.Base.{
  ℤ, pos, int_eq, int_text, long_dash, ℕ, Text, text_eq, nat_eq, codes, ◌==◌, if◌then◌else◌, Bool,
  true, false, not, ◌||◌, Option, none, some, List, [], ◌∷◌, ◌++◌, any, keep, length, ltb,
}
use dropboy.Base.Outcome.{Exec, Error, Outcome, ok, err, panic, message, pure, fail, ◌>>=◌, ◌>>◌}
use dropboy.Os.{Os}
use dropboy.Config.{Config, Folder}
use dropboy.Config.Files.{Yaml, load, save}

pub record Terminal : Type 0 where
  pub title_style : Text → Text
  pub cmd_style : Text → Text
  pub hint_style : Text → Text
  pub arg_style : Text → Text
  pub ok_style : Text → Text
  pub warn_style : Text → Text
  pub error_style : Text → Text
  pub format_int : ℕ → Text
  -- the verbs %-10s and %-18s
  pub pad : ℕ → Text → Text
  pub error_text : Error → Text
  pub trim_space : Text → Text
  pub fields : Text → List Text
  pub join : Text → List Text → Text
  -- sort.Slice by name, on names with their help
  pub sort_by_name : List (Text × Text) → List (Text × Text)

-- The UTF-8 bytes of the signs that the texts use.
abbrev check_mark : Text
check_mark = 0xE2 ∷ 0x9C ∷ 0x93 ∷ []

abbrev bullet : Text
bullet = 0xE2 ∷ 0x80 ∷ 0xA2 ∷ []

abbrev arrow : Text
arrow = 0xE2 ∷ 0x86 ∷ 0x92 ∷ []

abbrev up_down : Text
up_down = 0xE2 ∷ 0x86 ∷ 0x91 ∷ b'/' ∷ 0xE2 ∷ 0x86 ∷ 0x93 ∷ []

-- strings.TrimRight(s, "\n")
unfoldable pub trim_newlines : Text → Text
unfolding nat_eq
trim_newlines [] = []
trim_newlines (c ∷ s) = elim (trim_newlines s) [
  | [] ↦ if c == b'\n' then [] else c ∷ []
  | d ∷ t ↦ c ∷ d ∷ t
]

unfoldable pub fallback : Text → Text → Text
fallback s alt = if s == [] then alt else s

-- The names of builtinCommands with their help, in the order of the source.
abbrev pub catalog : List (Text × Text)
catalog =
    (codes "/help", codes "list available commands")
    ∷ (codes "/status", codes "show config + daemon status")
    ∷ (codes "/list", codes "list watched folders")
    ∷ (codes "/add", codes "watch a folder " ++ (long_dash ++ codes " /add <path>"))
    ∷ (codes "/remove", codes "stop watching a folder " ++ (long_dash ++ codes " /remove <path>"))
    ∷ (codes "/sync", codes "force a sync pass (impl pending)")
    ∷ (codes "/conflicts", codes "list unresolved conflicts")
    ∷ (codes "/doctor", codes "run preflight checks")
    ∷ (codes "/ui", codes "print the local UI URL")
    ∷ (codes "/clear", codes "clear the screen")
    ∷ (codes "/exit", codes "leave dropboy")
    ∷ []

module _ (T : Terminal) where
  -- allCommands
  unfoldable pub all_commands : List (Text × Text)
  all_commands = T.sort_by_name catalog

  help_lines : List (Text × Text) → Text
  help_lines [] = []
  help_lines ((name, help) ∷ rest) =
      codes "  "
      ++ (T.cmd_style name
          ++ (codes "  " ++ (T.hint_style help ++ (codes "\n" ++ help_lines rest))))

  -- run of /help
  unfoldable pub help_text : Text
  unfolding help_lines all_commands
  help_text =
      T.title_style (codes "Commands")
      ++ (codes "\n"
          ++ (help_lines all_commands
              ++ (codes "\n"
                  ++ T.hint_style (
                      codes "Tip: tab to autocomplete, "
                      ++ (up_down ++ codes " for history, esc or /exit to quit")))))

  row : Text → Text → Text
  row k v =
      codes "  " ++ (T.hint_style (T.pad 10 k) ++ (codes "  " ++ (T.arg_style v ++ codes "\n")))

  unfoldable pub render_status : Config → Text
  unfolding row fallback trim_newlines
  render_status cfg = trim_newlines (
      row (codes "bucket") (fallback cfg.bucket long_dash)
      ++ (row (codes "region") (fallback cfg.region long_dash)
          ++ (row (codes "machine") (fallback cfg.machine_id long_dash)
              ++ (row (codes "folders") (T.format_int (length cfg.folders))
                  ++ (row (codes "encrypt") (
                        cfg.encryption.scheme
                        ++ (codes " (" ++ (cfg.encryption.keyring ++ codes ")")))
                      ++ row (codes "daemon") (T.warn_style (codes "not running")))))))

  doctor_line : Bool → Text → Text → Text
  doctor_line good label val =
      codes "  "
      ++ ((if good then T.ok_style check_mark else T.warn_style bullet)
          ++ (codes " " ++ (T.pad 18 (label ++ codes ":") ++ (codes " " ++ (val ++ codes "\n")))))

  -- renderDoctor with a config, which Load gave
  unfoldable pub doctor_report : Config → Text
  unfolding doctor_line fallback trim_newlines
  doctor_report cfg =
      let missing = codes "missing" in
      trim_newlines (
        doctor_line true (codes "config") (codes "loaded")
        ++ (doctor_line (not (cfg.bucket == [])) (codes "bucket") (fallback cfg.bucket missing)
            ++ (doctor_line (not (cfg.region == [])) (codes "region") (fallback cfg.region missing)
                ++ (doctor_line (not (cfg.machine_id == [])) (codes "machine id")
                      (fallback cfg.machine_id missing)
                    ++ (doctor_line (ltb 0 (length cfg.folders)) (codes "folders")
                          (T.format_int (length cfg.folders) ++ codes " watched")
                        ++ (doctor_line false (codes "aws creds") (codes "verification pending")
                            ++ doctor_line false (codes "daemon") (codes "not running")))))))

  abbrev pub doctor_of : Outcome Config → Outcome Text
  doctor_of (ok cfg) = ok (doctor_report cfg)
  doctor_of (err e) = ok (T.error_style (bullet ++ (codes " config: " ++ T.error_text e)))
  doctor_of panic = panic

  folder_lines : List Folder → Text
  folder_lines [] = []
  folder_lines (f ∷ fs) =
      codes "  "
      ++ (T.arg_style f.path
          ++ ((if ltb 0 (length f.exclude)
                then codes "  " ++ T.hint_style (codes "exclude=" ++ T.join (codes ",") f.exclude)
                else [])
              ++ (codes "\n" ++ folder_lines fs)))

  -- The port that /ui prints; an error of Load leaves a port of 0.
  abbrev port_of : Outcome Config → Outcome ℤ
  port_of (ok cfg) = ok cfg.ui.port
  port_of (err e) = ok (pos 0)
  port_of panic = panic

  module _ (X : Os) (Y : Yaml) (home : Exec X.State Text) where
    list_folders : Exec X.State Text
    unfolding folder_lines trim_newlines
    list_folders = do
      cfg ← load X Y home
      if length cfg.folders == 0
          then pure (
              T.hint_style
                (codes "no folders watched yet " ++ (long_dash ++ codes " try /add <path>")))
          else pure (trim_newlines (folder_lines cfg.folders))

    -- run of /add with a path
    unfoldable pub add_folder : Text → Exec X.State Text
    add_folder path = do
      cfg ← load X Y home
      save X Y home
          (record cfg { folders = cfg.folders ++ record { path = path; exclude = [] } ∷ [] })
      pure (T.ok_style (check_mark ++ (codes " watching " ++ path)))

    -- run of /remove with a path
    unfoldable pub remove_folder : Text → Exec X.State Text
    remove_folder path = do
      cfg ← load X Y home
      if not (any (λ f. f.path == path) cfg.folders)
          then fail (message (codes "not watching: " ++ path))
          else do
            save X Y home (record cfg { folders = keep (λ f. not (f.path == path)) cfg.folders })
            pure (T.ok_style (check_mark ++ (codes " removed " ++ path)))

    -- A command on the first of its arguments, or its usage.
    abbrev on_first : Text → (Text → Exec X.State Text) → List Text → Exec X.State Text
    on_first usage f [] = fail (message usage)
    on_first usage f (a ∷ args) = f a

    show_ui : Exec X.State Text
    show_ui = do
      port ← (λ s. let (r, s') = load X Y home s in (port_of r, s'))
      pure (
          T.ok_style arrow
          ++ (codes " "
              ++ T.cmd_style (
                  codes "http://127.0.0.1:"
                  ++ int_text T.format_int (if port == pos 0 then pos 7777 else port))))

    -- The field `run` of the command of that name in builtinCommands: none for a name that it does not
    -- list, and some none where the field is nil.
    unfoldable pub builtin : Text → Option (Option (List Text → Exec X.State Text))
    unfolding list_folders show_ui
    builtin name =
        if name == codes "/help"
        then some (some λ args. pure (help_text))
        else if name == codes "/status"
        then some (some λ args. do cfg ← load X Y home; pure (render_status cfg))
        else if name == codes "/list"
        then some (some λ args. list_folders)
        else if name == codes "/add"
        then some (some (on_first (codes "usage: /add <path>") add_folder))
        else if name == codes "/remove"
        then some (some (on_first (codes "usage: /remove <path>") remove_folder))
        else if name == codes "/sync"
        then some (some λ args. pure (T.warn_style (codes "sync engine not yet implemented (M3)")))
        else if name == codes "/conflicts"
        then some (some λ args. pure (T.hint_style (codes "no conflicts (sync engine pending)")))
        else if name == codes "/doctor"
        then some (some λ args s. let (r, s') = load X Y home s in (doctor_of r, s'))
        else if name == codes "/ui"
        then some (some λ args. show_ui)
        else if name == codes "/clear" || name == codes "/exit"
        then some none
        else none
