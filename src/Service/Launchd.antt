-- ===== src/Service/Launchd.antt =====
-- backend/internal/service/launchd_darwin.go
use dropboy.Base.{
  Text, text_eq, nat_eq, codes, ◌==◌, if◌then◌else◌, List, [], ◌∷◌, ◌++◌, Option, none, some,
  join_path, has_prefix, trim_prefix,
}
use dropboy.Base.Outcome.{Exec, Done, Error, Outcome, ok, err, wrapped, wrapping, pure, ◌>>=◌, ◌>>◌}
use dropboy.Os.{Os}
use dropboy.Service.{Runner, launchd_label, unless_missing, failed_with}

pub record Launchd : Type 0 where
  pub plist_path : Text
  pub log_dir : Text

-- A line of a template.
abbrev line : Text → Text
line s = s ++ codes "\n"

-- The template of the property list, filled in.
unfoldable pub plist : Text → Text → Text → Text
plist label binary log_dir =
    line (codes "<?xml version=\"1.0\" encoding=\"UTF-8\"?>")
    ++ (line (
          codes
            "<!DOCTYPE plist PUBLIC \"-//Apple//DTD PLIST 1.0//EN\" \"http://www.apple.com/DTD/PropertyList-1.0.dtd\">")
        ++ (line (codes "<plist version=\"1.0\">")
            ++ (line (codes "<dict>")
                ++ (line (codes "    <key>Label</key><string>" ++ (label ++ codes "</string>"))
                    ++ (line (codes "    <key>ProgramArguments</key>")
                        ++ (line (codes "    <array>")
                            ++ (line (codes "        <string>" ++ (binary ++ codes "</string>"))
                                ++ (line (codes "        <string>start</string>")
                                    ++ (line (codes "        <string>--foreground</string>")
                                        ++ (line (codes "    </array>")
                                            ++ (line (codes "    <key>RunAtLoad</key><true/>")
                                                ++ (line (codes "    <key>KeepAlive</key><true/>")
                                                    ++ (line (
                                                          codes
                                                            "    <key>ProcessType</key><string>Background</string>")
                                                        ++ (line (
                                                            codes
                                                            "    <key>StandardOutPath</key><string>"
                                                            ++ (log_dir
                                                            ++ codes "/dropboy.log</string>"))
                                                            ++ (line (
                                                            codes
                                                            "    <key>StandardErrorPath</key><string>"
                                                            ++ (log_dir
                                                            ++ codes "/dropboy.log</string>"))
                                                            ++ (line (
                                                            codes
                                                            "    <key>EnvironmentVariables</key>")
                                                            ++ (line (codes "    <dict>")
                                                            ++ (line (
                                                            codes
                                                            "        <key>PATH</key><string>/usr/local/bin:/usr/bin:/bin:/opt/homebrew/bin</string>")
                                                            ++ (line (codes "    </dict>")
                                                            ++ (line (codes "</dict>")
                                                            ++ line
                                                            (codes "</plist>")))))))))))))))))))))

-- strings.Split(s, "\n")
unfoldable pub lines_of : Text → List Text
unfolding nat_eq
lines_of [] = [] ∷ []
lines_of (c ∷ s) = elim (lines_of s) [
  | [] ↦ (c ∷ []) ∷ []
  | first ∷ rest ↦ if c == b'\n' then [] ∷ first ∷ rest else (c ∷ first) ∷ rest
]

-- The loop of Status over the trimmed lines.
unfoldable pub state_of : (Text → Text) → List Text → Text
state_of trim [] = codes "loaded"
state_of trim (l ∷ ls) =
    let later = state_of trim ls in
    if has_prefix (trim l) (codes "state =")
    then trim (trim_prefix (trim l) (codes "state ="))
    else later

module _ (X : Os) (R : Runner X.State) where
  unfoldable pub new_launchd : Exec X.State Launchd
  new_launchd = do
    home ← R.home
    let agents = join_path (join_path home (codes "Library")) (codes "LaunchAgents")
    X.mkdir_all agents 0o755
    let log_dir =
        join_path (join_path (join_path home (codes "Library")) (codes "Logs")) (codes "dropboy")
    X.mkdir_all log_dir 0o755
    pure (record {
      plist_path = join_path agents (launchd_label ++ codes ".plist");
      log_dir = log_dir;
    })

  abbrev pub domain : Text
  domain = codes "gui/" ++ R.uid

  abbrev pub target : Text
  target = domain ++ (codes "/" ++ launchd_label)

  abbrev pub quietly : List Text → X.State → X.State
  quietly args s = (R.run args s).1

  abbrev pub bootstrap_args : Launchd → List Text
  bootstrap_args l = codes "launchctl" ∷ codes "bootstrap" ∷ domain ∷ l.plist_path ∷ []

  abbrev pub enabled : X.State → Outcome Done × X.State
  enabled s = (ok tt, quietly (codes "launchctl" ∷ codes "enable" ∷ target ∷ []) s)

  -- The second try, with the output of the first.
  abbrev pub retried : Text → (Option Error × Text) × X.State → Outcome Done × X.State
  retried first ((none, out), s) = enabled s
  retried first ((some e, out), s) = (
    err (
        wrapped
          (codes "launchctl bootstrap: "
            ++ (R.trim_space out ++ (codes " | initial: " ++ R.trim_space first)))
          e),
    s,
  )

  abbrev pub tried : Launchd → (Option Error × Text) × X.State → Outcome Done × X.State
  tried l ((none, out), s) = enabled s
  tried l ((some e, out), s) =
      let t = quietly (codes "launchctl" ∷ codes "bootout" ∷ domain ∷ l.plist_path ∷ []) s in
      retried out (R.run (bootstrap_args l) t)

  unfoldable pub bootstrap : Launchd → Exec X.State Done
  bootstrap l s = tried l (R.run (bootstrap_args l) s)

  unfoldable pub install : Launchd → Text → Exec X.State Done
  unfolding bootstrap plist
  install l binary_path = do
    binary ← R.absolute binary_path
    wrapping (codes "write plist")
        (X.write_file l.plist_path (plist launchd_label binary l.log_dir) 0o644)
    bootstrap l

  unfoldable pub uninstall : Launchd → Exec X.State Done
  uninstall l s =
      let t = quietly (codes "launchctl" ∷ codes "bootout" ∷ domain ∷ l.plist_path ∷ []) s in
      let (r, u) = X.remove l.plist_path t in (unless_missing r, u)

  unfoldable pub start : Exec X.State Done
  start s =
      let (r, t) = R.run (codes "launchctl" ∷ codes "kickstart" ∷ codes "-k" ∷ target ∷ []) s in
      (failed_with (codes "launchctl kickstart") R.trim_space r, t)

  unfoldable pub stop : Exec X.State Done
  stop s =
      let (r, t) = R.run (codes "launchctl" ∷ codes "kill" ∷ codes "SIGTERM" ∷ target ∷ []) s in
      (failed_with (codes "launchctl kill") R.trim_space r, t)

  -- An error of Stop is dropped.
  unfoldable pub restart : Exec X.State Done
  unfolding start stop
  restart s = start (stop s).1

  status_of : Option Error × Text → Text
  unfolding state_of lines_of
  status_of (some e, out) = codes "not loaded"
  status_of (none, out) = state_of R.trim_space (lines_of out)

  unfoldable pub status : Exec X.State Text
  unfolding status_of
  status s =
      let (r, t) = R.run (codes "launchctl" ∷ codes "print" ∷ target ∷ []) s in
      (ok (status_of r), t)
