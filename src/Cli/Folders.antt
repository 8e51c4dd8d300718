-- ===== src/Cli/Folders.antt =====
-- backend/internal/cli/folders.go: the commands add, remove and list. `Paths` is what the code calls of
-- filepath; die's texts are its formats.
use dropboy.Base.{
  Text, text_eq, nat_eq, codes, ltb, length, ◌==◌, if◌then◌else◌, Bool, true, false, not,
  has_prefix, trim_prefix, any, keep, List, [], ◌∷◌, ◌++◌, map,
}
use dropboy.Base.Outcome.{
  Exec, Done, Outcome, ok, err, panic, message, wrapping, pure, fail, continue, ◌>>=◌, ◌>>◌,
}
use dropboy.Os.{Os, FileInfo}
use dropboy.Config.{Config, Folder}
use dropboy.Config.Files.{Yaml, load, save}
pub mod Watched

-- filepath.Abs, which knows the working directory, filepath.Join of a home directory and the rest of a
-- path, and strings.Join
pub record Filepath (S : Type 0) : Type 0 where
  pub absolute : Text → Exec S Text
  pub join : Text → Text → Text
  pub join_by : Text → List Text → Text

module _ (X : Os) (Y : Yaml) (home : Exec X.State Text) (F : Filepath X.State) where
  unfoldable pub abs_expand : Text → Exec X.State Text
  abs_expand p =
      if has_prefix p (codes "~")
      then (do h ← home; F.absolute (F.join h (trim_prefix p (codes "~"))))
      else F.absolute p

  -- The folders with one more, whose globs the flag --exclude gave.
  abbrev pub with_folder : Config → Text → List Text → Config
  with_folder cfg p excludes = record cfg {
    folders = cfg.folders ++ record { path = p; exclude = excludes } ∷ [];
  }

  abbrev pub without : Config → Text → Config
  without cfg p = record cfg { folders = keep (λ f. not (f.path == p)) cfg.folders }

  -- What add does with a path, and with what Stat returned. The path is what it prints.
  abbrev pub add_found : Config → Text → List Text → Outcome FileInfo → Exec X.State Text
  add_found cfg p excludes (err e) = fail (message (codes "cannot read " ++ p))
  add_found cfg p excludes panic = λ s. (panic, s)
  add_found cfg p excludes (ok info) =
      if not info.is_dir
      then fail (message (p ++ codes " is not a directory"))
      else if any (λ f. f.path == p) cfg.folders
      then fail (message (codes "folder already watched: " ++ p))
      else save X Y home (with_folder cfg p excludes) >>= λ _. pure p

  unfoldable pub add : Text → List Text → Exec X.State Text
  unfolding abs_expand
  add arg excludes = do
    cfg ← load X Y home
    p ← abs_expand arg
    λ s. let (found, t) = X.stat p s in add_found cfg p excludes found t

  unfoldable pub remove : Text → Exec X.State Text
  unfolding abs_expand
  remove arg = do
    cfg ← load X Y home
    p ← abs_expand arg
    if not (any (λ f. f.path == p) cfg.folders)
        then fail (message (codes "not watching: " ++ p))
        else (save X Y home (without cfg p) >>= λ _. pure p)

  -- The line that list prints for a folder, without its newline.
  shown : Folder → Text
  shown f =
      f.path
      ++ (if ltb 0 (length f.exclude)
          then codes "  exclude=" ++ F.join_by (codes ",") f.exclude
          else [])

  -- The lines that list prints; without folders it prints a hint instead.
  unfoldable pub list : Exec X.State (List Text)
  unfolding shown
  list = do cfg ← load X Y home; pure (map shown cfg.folders)
