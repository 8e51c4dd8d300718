-- ===== src/Cli/Control.antt =====
-- The commands that control the daemon: daemon.go, recover.go and ui.go of backend/internal/cli. What they
-- print is left out but for the page's URL. `Host` is package service, package daemon and what the
-- code calls of os, os/exec and time.
use dropboy.Base.{
  ℤ, pos, int_eq, int_text, ℕ, zero, suc, Text, text_eq, nat_eq, codes, ◌==◌, if◌then◌else◌, Bool,
  true, Option, none, some, List, [], ◌∷◌, ◌++◌,
}
use dropboy.Base.Outcome.{Exec, Done, Outcome, ok, err, panic, wrapping, pure, ◌>>=◌, ◌>>◌}
use dropboy.Os.{Os}
use dropboy.Config.{Config}
use dropboy.Config.Files.{Yaml, load, dir}
use dropboy.Cli.Client.{Net, call_api}
use dropboy.Cli.Init.{Words, prompt}

pub record Host (S : Type 0) : Type 0 where
  -- service.New, and the methods of its manager
  pub new_manager : Exec S Done
  pub install : Text → Exec S Done
  pub stop : Exec S Done
  pub restart : Exec S Done
  pub uninstall : Exec S Done
  pub executable : Exec S Text
  pub getenv : Text → S → Text
  -- daemon.New and Run with a passphrase, which returns when the daemon ends
  pub run_daemon : Config → Text → Text → Exec S Done
  -- the same in a goroutine, the token of its server, and what the select at the end returns
  pub go_daemon : Config → Text → Text → S → S
  pub token : S → Text × S
  pub sleep : ℕ → S → S
  pub wait : Exec S Done
  -- Start of a command line
  pub start_process : List Text → Exec S Done
  pub goos : Text

module _ (X : Os) (Y : Yaml) (home : Exec X.State Text) (H : Host X.State) where
  unfoldable pub run_foreground : Exec X.State Done
  run_foreground = do
    cfg ← load X Y home
    d ← dir X Y home
    passphrase ← λ s. (ok (H.getenv (codes "DROPBOY_PASSPHRASE") s), s)
    H.run_daemon cfg d passphrase

  -- What start does with what service.New returned.
  started : Outcome Done → Exec X.State Done
  unfolding run_foreground
  started (ok _) = do exe ← H.executable; H.install exe
  started (err e) = run_foreground
  started panic = λ s. (panic, s)

  unfoldable pub start : Bool → Exec X.State Done
  unfolding started
  start foreground s =
      if foreground then run_foreground s else let (r, t) = H.new_manager s in started r t

  unfoldable pub stop : Exec X.State Done
  stop = do H.new_manager; H.stop

  unfoldable pub restart : Exec X.State Done
  restart = do H.new_manager; H.restart

  unfoldable pub uninstall : Exec X.State Done
  uninstall = do H.new_manager; H.uninstall

  module _ (N : Net X.State) (remote : Text) where
    unfoldable pub pause : Exec X.State (Option Text)
    pause = call_api X Y home N remote (codes "POST") (codes "/api/v1/pause") none

    unfoldable pub resume : Exec X.State (Option Text)
    resume = call_api X Y home N remote (codes "POST") (codes "/api/v1/resume") none

    unfoldable pub sync : Exec X.State (Option Text)
    sync = call_api X Y home N remote (codes "POST") (codes "/api/v1/sync") none

    -- `marshal` makes the body {"code": …}; the input is its lines.
    unfoldable pub recover : Words X.State → (Text → Text) → List Text → Exec X.State (Option Text)
    recover W marshal lines =
        let (typed, rest) = prompt W [] true lines in
        call_api X Y home N remote (codes "POST") (codes "/api/v1/recover")
          (some (marshal (W.trim_space typed)))

  -- The loop of waitForToken, by the turns that are left.
  wait_turns : ℕ → X.State → Text × X.State
  wait_turns zero s = ([], s)
  wait_turns (suc n) s =
      let (t, s') = H.token s in
      let later = wait_turns n (H.sleep 20000000 s') in if t == [] then later else (t, s')

  unfoldable pub wait_for_token : X.State → Text × X.State
  unfolding wait_turns
  wait_for_token = wait_turns 50

  -- The command line of openBrowser.
  browser_line : Text → List Text
  browser_line url =
      if H.goos == codes "darwin"
      then codes "open" ∷ url ∷ []
      else if H.goos == codes "windows"
      then codes "rundll32" ∷ codes "url.dll,FileProtocolHandler" ∷ url ∷ []
      else codes "xdg-open" ∷ url ∷ []

  unfoldable pub open_browser : Text → Exec X.State Done
  unfolding browser_line
  open_browser url = H.start_process (browser_line url)

  -- The config with the port of the flag, or of the config, or the default.
  with_port : ℤ → Config → Config
  with_port port cfg =
      let chosen = if port == pos 0 then cfg.ui.port else port in
      record cfg { ui = record { port = if chosen == pos 0 then pos 7777 else chosen } }

  unfoldable pub ui : (ℕ → Text) → ℤ → Bool → Exec X.State Done
  unfolding with_port wait_for_token open_browser
  ui format_int port open_page = do
    loaded ← load X Y home
    let cfg = with_port port loaded
    d ← dir X Y home
    token ← λ s.
        let passphrase = H.getenv (codes "DROPBOY_PASSPHRASE") s in
        let (t, s') = wait_for_token (H.go_daemon cfg d passphrase s) in (ok t, s')
    let url =
        codes "http://127.0.0.1:"
        ++ (int_text format_int cfg.ui.port ++ (codes "/?token=" ++ token))
    (if open_page then wrapping (codes "open browser") (open_browser url) else pure tt)
    H.wait
