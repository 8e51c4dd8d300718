-- ===== src/Cli/Logs.antt =====
-- The logs command: logFilePath, tailOnce and tailFollow of backend/internal/cli/api_client.go. The file
-- that tailFollow has opened is the contents that it has at one end of file after the other; a log that
-- is not there yet is a number of waits.
pub mod Followed
use dropboy.Base.{
  ℕ, zero, suc, Text, text_eq, nat_eq, codes, ◌==◌, if◌then◌else◌, Bool, true, false, length, List,
  [], ◌∷◌, ◌++◌, long_dash, join_path,
}
use dropboy.Base.Outcome.{Exec, Error, not_exist, Outcome, ok, err, panic, pure, ◌>>=◌}
use dropboy.Os.{Os}
use dropboy.Sync.Reconcile.{is_not_exist}

-- filepath.Join of its arguments, which are clean.
module _ {S : Type 0} (home : Exec S Text) (goos : Text) where
  unfoldable pub log_file_path : Exec S Text
  log_file_path = do
    h ← home
    if goos == codes "darwin"
        then pure (
            join_path
              (join_path (join_path (join_path h (codes "Library")) (codes "Logs"))
                (codes "dropboy"))
              (codes "dropboy.log"))
        else pure (join_path (join_path h (codes ".dropboy")) (codes "dropboy.log"))

-- What tailOnce prints.
module _ (X : Os) where
  printed : Text → Outcome Text → Outcome Text
  unfolding is_not_exist
  printed path (ok content) = ok content
  printed path (err e) =
      if is_not_exist e
      then ok (
          codes "no log file yet at "
          ++ (path
              ++ (codes " "
                  ++ (long_dash ++ codes " on Linux, try: journalctl --user -u dropboy"))))
      else err e
  printed path panic = panic

  unfoldable pub tail_once : Text → Exec X.State Text
  unfolding printed
  tail_once path s = let (r, t) = X.read_file path s in (printed path r, t)

-- ReadString of a reader: what it returns, which ends with the newline unless the text is used up, what
-- is left, and whether the newline was found.
unfoldable pub read_string : Text → Text × Text × Bool
read_string [] = ([], [], false)
read_string (c ∷ s) =
    let (line, rest, found) = read_string s in
    if c == b'\n' then (c ∷ [], s, true) else (c ∷ line, rest, found)

-- The turns of the inner loop up to the end of the file: what is printed. Each takes a byte at least.
unfoldable pub read_lines : ℕ → Text → Text
unfolding read_string
read_lines zero s = []
read_lines (suc fuel) s =
    let (line, rest, found) = read_string s in
    let more = read_lines fuel rest in if found then line ++ more else line

-- The bytes from a position on.
unfoldable pub from : ℕ → Text → Text
from zero s = s
from (suc n) [] = []
from (suc n) (c ∷ s) = from n s

-- The inner loop of tailFollow from a position in the file, which has these contents when its end is
-- met the first time, the second time, and so on.
unfoldable pub follow_from : ℕ → List Text → Text
unfolding read_lines from
follow_from pos [] = []
follow_from pos (s ∷ later) =
    let unread = from pos s in
    read_lines (suc (length unread)) unread ++ follow_from (length s) later

-- What tailFollow prints of a file that it opens with a content: Seek goes to the end of it.
unfoldable pub tail_follow : Text → List Text → Text
unfolding follow_from
tail_follow opened later = follow_from (length opened) later
