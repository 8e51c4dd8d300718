-- ===== src/Logging.antt =====
-- backend/internal/logging/logging.go: the log file that is rotated by its size. The files are an
-- interface over an unknown state.
use dropboy.Base.{
  ℕ, zero, suc, ◌+◌, ◌-◌, ◌^◌, ◌*◌, ltb, Text, text_eq, codes, ◌==◌, if◌then◌else◌, Bool, true,
  false, not, ◌&&◌, Option, none, some, List, [], ◌∷◌, ◌++◌, length, dir_name, join_path,
}
use dropboy.Base.Outcome.{
  Exec, Done, Error, Outcome, ok, err, panic, message, pure, continue, ◌>>=◌,
}
pub mod Rotation
pub mod Bounds

-- The flags of os.OpenFile: O_APPEND|O_CREATE|O_WRONLY, O_TRUNC|O_CREATE|O_WRONLY, and O_WRONLY.
pub data Flags : Type 0 where
  appending : Flags
  truncating : Flags
  writing : Flags

pub record LogFiles : Type 1 where
  pub State : Type 0
  pub File : Type 0
  pub mkdir_all : Text → ℕ → Exec State Done
  -- path, flags, permissions
  pub open_file : Text → Flags → ℕ → Exec State File
  -- the size that f.Stat() tells, none where it fails
  pub stat_size : File → State → Option ℕ
  pub write : File → Text → State → (ℕ × Option Error) × State
  pub close : File → Exec State Done
  pub rename : Text → Text → Exec State Done

-- 10 << 20
abbrev pub max_log_bytes : ℕ
max_log_bytes = 10 * 2 ^ 20

abbrev pub log_keep_count : ℕ
log_keep_count = 3

-- strconv.Itoa of a number below ten
abbrev pub itoa : ℕ → Text
itoa i = (b'0' + i) ∷ []

-- The path of an older log.
unfoldable pub numbered : Text → ℕ → Text
numbered path i = path ++ (codes "." ++ itoa i)

unfoldable pub source : Text → ℕ → Text
unfolding numbered
source path zero = path
source path (suc i) = numbered path (suc i)

module _ (F : LogFiles) where
  -- `file` is none where it is nil.
  pub record RotatingWriter : Type 0 where
    pub path : Text
    pub file : Option F.File
    pub n : ℕ

  abbrev pub size_or_zero : Option ℕ → ℕ
  size_or_zero none = 0
  size_or_zero (some n) = n

  unfoldable pub open_rotating : Text → Exec F.State RotatingWriter
  open_rotating path = do
    _ ← F.mkdir_all (dir_name path) 0x1ED
    f ← F.open_file path appending 0x1A4
    λ s. (ok (record { path = path; file = some f; n = size_or_zero (F.stat_size f s) }), s)

  close_file : Option F.File → F.State → F.State
  close_file none s = s
  close_file (some f) s = (F.close f s).1

  -- The loop of rotate from a number down to 1.
  shift : Text → ℕ → F.State → F.State
  unfolding source numbered
  shift path zero s = s
  shift path (suc i) s = shift path i (F.rename (source path i) (numbered path (suc i)) s).1

  abbrev file_of : Outcome F.File × F.State → Option F.File × F.State
  file_of (ok f, s) = (some f, s)
  file_of (err _, s) = (none, s)
  file_of (panic, s) = (none, s)

  -- The rest of rotate, with what OpenFile returned.
  reopened : RotatingWriter → Outcome F.File × F.State → Outcome Done × RotatingWriter × F.State
  reopened r (ok f, s) = (ok tt, record r { file = some f; n = 0 }, s)
  reopened r (err e, s) =
      let (null, t) = file_of (F.open_file (codes "/dev/null") writing 0 s) in
      (err e, record r { file = null; n = 0 }, t)
  reopened r (panic, s) = (panic, r, s)

  unfoldable pub rotate : RotatingWriter → F.State → Outcome Done × RotatingWriter × F.State
  unfolding close_file shift reopened
  rotate r s =
      let t = shift r.path (log_keep_count - 1) (close_file r.file s) in
      reopened r (F.open_file r.path truncating 0x1A4 t)

  -- A write to a nil file is ErrInvalid.
  written :
      Option F.File
      → RotatingWriter
      → Text
      → F.State
      → (ℕ × Option Error) × RotatingWriter × F.State
  written none r p s = ((0, some (message (codes "invalid argument"))), r, s)
  written (some f) r p s = let ((n, e), t) = F.write f p s in ((n, e), record r { n = r.n + n }, t)

  unfoldable pub write :
      RotatingWriter → Text → F.State → (ℕ × Option Error) × RotatingWriter × F.State
  unfolding rotate written
  write r p s =
      let (_, turned, t) = rotate r s in
      if ltb max_log_bytes (r.n + length p)
      then written turned.file turned p t
      else written r.file r p s

  -- Where the log goes.
  pub data Writer : Type 0 where
    stderr : Writer
    tee : RotatingWriter → Writer

  abbrev opened : Outcome RotatingWriter × F.State → Writer × F.State
  opened (ok r, s) = (tee r, s)
  opened (err _, s) = (stderr, s)
  opened (panic, s) = (stderr, s)

  -- setup without slog: whether the level is debug, and the writer. `terminal` is isStderrTerminal().
  unfoldable pub setup : Bool → Text → Bool → F.State → (Bool × Writer) × F.State
  unfolding open_rotating
  setup verbose log_path terminal s =
      let (w, t) = opened (open_rotating log_path s) in
      if not (log_path == []) && terminal then ((verbose, w), t) else ((verbose, stderr), s)

-- defaultLogFile, from what os.UserHomeDir returns
unfoldable pub default_log_file : Outcome Text → Text
default_log_file (ok home) =
    join_path
      (join_path (join_path (join_path home (codes "Library")) (codes "Logs")) (codes "dropboy"))
      (codes "dropboy.log")
default_log_file _ = []
