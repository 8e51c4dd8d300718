-- ===== src/Server/Page.antt =====
-- spaHandler of backend/internal/server/spa.go, limitBody and the recorder of middleware.go, and
-- package version. `Files` is http.FileServer over the embedded files, the page of a build without them
-- and http.NotFound.
use dropboy.Base.{
  ℕ, Text, text_eq, nat_eq, codes, ◌==◌, if◌then◌else◌, Bool, true, false, not, ◌&&◌, ◌*◌, ◌+◌, ltb,
  length, has_prefix, has_infix, Option, none, some, [], ◌∷◌,
}
use dropboy.Base.Outcome.{Outcome, ok, err, panic, message}
use dropboy.Server.Auth.{is_mutating}

pub record Files (A : Type 0) : Type 0 where
  -- http.FileServer, by the path
  pub file : Text → A
  pub shell_page : A
  pub not_found : A

-- The path without its first byte; of an empty path that slice panics.
abbrev tail_of : Text → Outcome Text
tail_of [] = panic
tail_of (c ∷ p) = ok p

abbrev routed : {A : Type 0} → Files A → Text → Outcome Text → Outcome A
routed F path (ok rest) =
    if not (has_infix rest (codes ".")) then ok (F.file (codes "/")) else ok (F.file path)
routed F path (err e) = err e
routed F path panic = panic

-- spaHandler, where fs.Sub has succeeded or not and there is an index.html or not
unfoldable pub spa : {A : Type 0} → Files A → Bool → Text → Outcome A
spa F false path = if path == codes "/" then ok F.shell_page else ok F.not_found
spa F true path =
    if has_prefix path (codes "/api/") then ok (F.file path) else routed F path (tail_of path)

abbrev pub max_request_bytes : ℕ
max_request_bytes = 8 * 1024 * 1024

-- What reading the body gives behind limitBody: http.MaxBytesReader ends a longer one with an error.
unfoldable pub limit_body : Text → Text → Outcome Text
limit_body method body =
    if is_mutating method && ltb max_request_bytes (length body)
    then err (message (codes "http: request body too large"))
    else ok body

-- statusRecorder
pub record Recorder : Type 0 where
  pub status : ℕ
  pub bytes : ℕ

unfoldable pub write_header : ℕ → Recorder → Recorder
write_header code r = record r { status = code }

-- Write, of which the writer below took n bytes
unfoldable pub write : ℕ → Recorder → Recorder
write n r = record { status = if r.status == 0 then 200 else r.status; bytes = r.bytes + n }

-- version.String, by the variable and by the build's version, where there is one
unfoldable pub version_string : Text → Option Text → Text
version_string version built = if not (version == codes "dev") then version else elim built [
  | none ↦ codes "dev"
  | some v ↦ if not (v == []) && not (v == codes "(devel)") then v else codes "dev"
]
