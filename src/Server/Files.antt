-- ===== src/Server/Files.antt =====
-- The view of the watched folders in backend/internal/server/handlers.go: the tree and the files of
-- the machine. `Paths` is package filepath, with the calls of strings, sort and sha1 that go with
-- it; `View` is what Stat and ReadDir return while one request is answered.
pub mod Build
pub mod Depth
pub mod Lookup
pub mod Watched
use dropboy.Base.{
  ℕ, zero, suc, Text, text_eq, nat_eq, codes, ◌==◌, if◌then◌else◌, Bool, true, false, ◌&&◌, ◌||◌,
  not, Option, none, some, List, [], ◌∷◌, ◌++◌, ◌+◌, any, contains, has_prefix, ltb, map,
}
use dropboy.Base.Outcome.{Outcome, ok, err, panic, Error, message}
use dropboy.Os.{FileInfo}
use dropboy.Config.{Config, Folder}
use dropboy.Server.Http.{Request, get_text}

pub record DirEntry : Type 0 where
  pub name : Text
  pub is_dir : Bool

pub record Paths : Type 0 where
  pub base : Text → Text
  pub join : List Text → Text
  pub abs : Text → Outcome Text
  -- filepath.ToSlash of what filepath.Rel gives below the parent of the first path
  pub rel_to_parent : Text → Text → Text
  pub ext_lower : Text → Text
  pub equal_fold : Text → Text → Bool
  pub matches : Text → Text → Bool
  -- strings.Split(strings.Trim(p, "/"), "/")
  pub segments : Text → List Text
  pub sort : (DirEntry → DirEntry → Bool) → List DirEntry → List DirEntry
  pub less : Text → Text → Bool
  pub sha1_hex8 : Text → Text
  pub format_time : ℕ → Text

pub record View : Type 0 where
  pub stat : Text → Outcome FileInfo
  pub read_dir : Text → Outcome (List DirEntry)

pub record NodeInfo : Type 0 where
  pub id : Text
  pub name : Text
  pub kind : Text
  pub size : ℕ
  pub modified : Text
  pub machine : Text
  pub path : Text
  pub status : Text
  pub encrypted : Bool

mutual
  pub data FileNode : Type 0 where
    node : NodeInfo → FileNodes → FileNode

  pub data FileNodes : Type 0 where
    no_nodes : FileNodes
    more : FileNode → FileNodes → FileNodes

abbrev pub info_of : FileNode → NodeInfo
info_of (node i children) = i

abbrev pub children_of : FileNode → FileNodes
children_of (node i children) = children

module _ (P : Paths) where
  -- kindFor
  unfoldable pub kind_for : Text → Text
  kind_for name =
      let ext = P.ext_lower name in
      let one_of : List Text → Bool = λ exts. contains exts ext in
      if one_of (
        codes ".png"
        ∷ codes ".jpg"
        ∷ codes ".jpeg"
        ∷ codes ".gif"
        ∷ codes ".webp"
        ∷ codes ".heic"
        ∷ codes ".svg"
        ∷ codes ".bmp"
        ∷ codes ".tiff"
        ∷ [])
      then codes "image"
      else if one_of
          (codes ".mp4" ∷ codes ".mov" ∷ codes ".mkv" ∷ codes ".webm" ∷ codes ".avi" ∷ [])
      then codes "video"
      else if one_of (
          codes ".mp3"
          ∷ codes ".m4a"
          ∷ codes ".wav"
          ∷ codes ".flac"
          ∷ codes ".ogg"
          ∷ codes ".aac"
          ∷ [])
      then codes "audio"
      else if one_of (codes ".pdf" ∷ [])
      then codes "pdf"
      else if one_of (
          codes ".go"
          ∷ codes ".ts"
          ∷ codes ".tsx"
          ∷ codes ".js"
          ∷ codes ".jsx"
          ∷ codes ".py"
          ∷ codes ".rs"
          ∷ codes ".c"
          ∷ codes ".h"
          ∷ codes ".cpp"
          ∷ codes ".java"
          ∷ codes ".rb"
          ∷ codes ".sh"
          ∷ codes ".yaml"
          ∷ codes ".yml"
          ∷ codes ".toml"
          ∷ codes ".json"
          ∷ codes ".mod"
          ∷ [])
      then codes "code"
      else if one_of (
          codes ".zip"
          ∷ codes ".tar"
          ∷ codes ".gz"
          ∷ codes ".bz2"
          ∷ codes ".7z"
          ∷ codes ".rar"
          ∷ [])
      then codes "archive"
      else if one_of (codes ".doc" ∷ codes ".docx" ∷ codes ".odt" ∷ codes ".rtf" ∷ [])
      then codes "document"
      else if one_of (codes ".xls" ∷ codes ".xlsx" ∷ codes ".csv" ∷ codes ".ods" ∷ [])
      then codes "spreadsheet"
      else if one_of (codes ".ppt" ∷ codes ".pptx" ∷ codes ".key" ∷ codes ".odp" ∷ [])
      then codes "presentation"
      else if one_of (codes ".txt" ∷ codes ".md" ∷ codes ".log" ∷ [])
      then codes "text"
      else if P.equal_fold name (codes "makefile") || P.equal_fold name (codes "dockerfile")
      then codes "code"
      else codes "binary"

  -- excluded
  unfoldable pub excluded : Text → List Text → Bool
  excluded name patterns = any (λ p. P.matches p name) patterns

  -- emptyRoot, at the time of the request
  unfoldable pub empty_root : ℕ → Text → NodeInfo
  empty_root now machine = record {
    id = codes "root-" ++ machine;
    name = codes "/";
    kind = codes "folder";
    size = 0;
    modified = P.format_time now;
    machine = machine;
    path = codes "/";
    status = [];
    encrypted = false;
  }
