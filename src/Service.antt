-- ===== src/Service.antt =====
-- backend/internal/service: the daemon as a service of the user, under launchd and under systemd.
-- `Runner` is os/exec with what else the code calls; files are those of `Os`.
use dropboy.Base.{
  Text, text_eq, codes, ◌==◌, if◌then◌else◌, List, [], ◌∷◌, ◌++◌, Option, none, some, join_path,
}
use dropboy.Base.Outcome.{Exec, Done, Error, Outcome, ok, err, panic, wrapped, not_exist}
pub mod Launchd
pub mod Systemd
pub mod Installing
pub mod Manual
pub mod Reading

pub record Runner (S : Type 0) : Type 0 where
  -- a command line: its error, and what CombinedOutput returns
  pub run : List Text → S → (Option Error × Text) × S
  pub home : Exec S Text
  pub absolute : Text → Exec S Text
  -- the verb %d of os.Getuid()
  pub uid : Text
  pub trim_space : Text → Text

abbrev pub launchd_label : Text
launchd_label = codes "com.dropboy"

abbrev pub systemd_unit : Text
systemd_unit = codes "dropboy"

-- `if err != nil && !os.IsNotExist(err) { return err }` after os.Remove
abbrev pub unless_missing : Outcome Done → Outcome Done
unless_missing (ok d) = ok d
unless_missing (err not_exist) = ok tt
unless_missing (err e) = err e
unless_missing panic = panic

-- What a method returns of a run: the error of the command with its output, or none.
abbrev pub failed_with : Text → (Text → Text) → Option Error × Text → Outcome Done
failed_with label trim (none, out) = ok tt
failed_with label trim (some e, out) = err (wrapped (label ++ (codes ": " ++ trim out)) e)
