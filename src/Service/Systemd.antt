-- ===== src/Service/Systemd.antt =====
-- backend/internal/service/systemd_linux.go
use dropboy.Base.{Text, text_eq, codes, ◌==◌, if◌then◌else◌, List, [], ◌∷◌, ◌++◌, join_path}
use dropboy.Base.Outcome.{Exec, Done, Outcome, ok, pure, ◌>>=◌, ◌>>◌}
use dropboy.Os.{Os}
use dropboy.Service.{Runner, systemd_unit, unless_missing, failed_with}

abbrev line : Text → Text
line s = s ++ codes "\n"

-- The template of the unit, filled in.
unfoldable pub unit : Text → Text
unit binary =
    line (codes "[Unit]")
    ++ (line (codes "Description=dropboy continuous S3 sync")
        ++ (line (codes "After=network-online.target")
            ++ (line (codes "Wants=network-online.target")
                ++ (line []
                    ++ (line (codes "[Service]")
                        ++ (line (codes "Type=simple")
                            ++ (line (codes "ExecStart=" ++ (binary ++ codes " start --foreground"))
                                ++ (line (codes "Restart=always")
                                    ++ (line (codes "RestartSec=5")
                                        ++ (line (
                                              codes "Environment=PATH=/usr/local/bin:/usr/bin:/bin")
                                            ++ (line []
                                                ++ (line (codes "[Install]")
                                                    ++ line (
                                                        codes "WantedBy=default.target")))))))))))))

-- strings.Join(args, " ")
spaced : List Text → Text
spaced [] = []
spaced (a ∷ []) = a
spaced (a ∷ b ∷ rest) = a ++ (codes " " ++ spaced (b ∷ rest))

abbrev service_file : Text
service_file = systemd_unit ++ codes ".service"

module _ (X : Os) (R : Runner X.State) where
  -- The path of the unit that newSystemd keeps.
  unfoldable pub new_systemd : Exec X.State Text
  new_systemd = do
    home ← R.home
    let folder =
        join_path (join_path (join_path home (codes ".config")) (codes "systemd")) (codes "user")
    X.mkdir_all folder 0o755
    pure (join_path folder service_file)

  unfoldable pub run : List Text → Exec X.State Done
  unfolding spaced
  run args s =
      let (r, t) = R.run (codes "systemctl" ∷ codes "--user" ∷ args) s in
      (failed_with (codes "systemctl " ++ spaced args) R.trim_space r, t)

  unfoldable pub install : Text → Text → Exec X.State Done
  unfolding run unit
  install unit_path binary_path = do
    binary ← R.absolute binary_path
    X.write_file unit_path (unit binary) 0o644
    run (codes "daemon-reload" ∷ [])
    run (codes "enable" ∷ codes "--now" ∷ service_file ∷ [])

  abbrev removed : Text → X.State → Outcome Done × X.State
  removed unit_path s = let (r, t) = X.remove unit_path s in (unless_missing r, t)

  unfoldable pub uninstall : Text → Exec X.State Done
  unfolding run
  uninstall unit_path s =
      let t = (run (codes "disable" ∷ codes "--now" ∷ service_file ∷ []) s).1 in
      (removed unit_path >>= λ _. run (codes "daemon-reload" ∷ [])) t

  unfoldable pub start : Exec X.State Done
  unfolding run
  start = run (codes "start" ∷ service_file ∷ [])

  unfoldable pub stop : Exec X.State Done
  unfolding run
  stop = run (codes "stop" ∷ service_file ∷ [])

  unfoldable pub restart : Exec X.State Done
  unfolding run
  restart = run (codes "restart" ∷ service_file ∷ [])

  -- The error of the command is dropped, since it fails for a unit that is not active.
  unfoldable pub status : Exec X.State Text
  status s =
      let ((e, out), t) =
        R.run (codes "systemctl" ∷ codes "--user" ∷ codes "is-active" ∷ service_file ∷ []) s in
      let state = R.trim_space out in (ok (if state == [] then codes "unknown" else state), t)
