-- ===== src/Server/Browse.antt =====
-- handleTree and handleFileGet of backend/internal/server/handlers.go, and the headers that
-- securityHeaders adds.
use dropboy.Base.{
  ℕ, Text, text_eq, codes, ◌==◌, if◌then◌else◌, not, ◌&&◌, Option, none, some, [], ◌++◌,
}
use dropboy.Base.Dict.{insert}
use dropboy.Base.Outcome.{Outcome, ok, err, panic, Error}
use dropboy.Os.{FileInfo}
use dropboy.Config.{Config}
use dropboy.Server.Http.{Request, Handler, get_text}
use dropboy.Server.Answer.{Answer, granted, refused, answer_of}
use dropboy.Server.Files.{Paths, View, FileNode, node, no_nodes, empty_root}
use dropboy.Server.Files.Build.{build_local_tree}
use dropboy.Server.Files.Lookup.{find_by_path, resolve_watched}

-- os.Hostname, or nothing.
abbrev host_name : Outcome Text → Text
host_name (ok h) = h
host_name (err e) = []
host_name panic = []

unfoldable pub local_id : Outcome Text → Config → Text
local_id hostname cfg = if cfg.machine_id == [] then host_name hostname else cfg.machine_id

module _ (P : Paths) (V : View) (hostname : Outcome Text) where
  abbrev found_node : Option FileNode → Answer FileNode
  found_node none = refused 404 (codes "path not found")
  found_node (some n) = granted n

  -- handleTree, at the time `now`
  unfoldable pub tree : ℕ → Config → Request → Answer FileNode
  tree now cfg r =
      let machine = get_text (codes "machine") r.query in
      let asked = get_text (codes "path") r.query in
      let path = if asked == [] then codes "/" else asked in
      let id = local_id hostname cfg in
      if not (machine == []) && not (machine == id)
      then granted (node (empty_root P now machine) no_nodes)
      else found_node (find_by_path P (build_local_tree P V now cfg id) path)

  module _ (text : Error → Text) (open_file : Text → Outcome Text) where
    -- A file that Stat has found, and its content as it is opened.
    abbrev opened : Text → Answer FileInfo → Answer (FileInfo × Text)
    opened abs (refused n msg) = refused n msg
    opened abs (granted info) =
        if info.is_dir
        then refused 400 (codes "path is a directory")
        else with_content (answer_of 500 text (open_file abs))
      where
        with_content : Answer Text → Answer (FileInfo × Text)
        with_content (granted content) = granted (info, content)
        with_content (refused n msg) = refused n msg

    -- handleFileGet, up to http.ServeContent
    unfoldable pub file_get : Config → Request → Answer (FileInfo × Text)
    file_get cfg r =
        let machine = get_text (codes "machine") r.query in
        let path = get_text (codes "path") r.query in
        let abs = resolve_watched P cfg.folders path in
        if path == []
        then refused 400 (codes "path required")
        else if not (machine == []) && not (machine == local_id hostname cfg)
        then refused 501 (codes "remote-machine streaming requires the sync engine (pending)")
        else if abs == []
        then refused 404 (codes "path is not under a watched folder")
        else opened abs (answer_of 404 text (V.stat abs))

module _ {S A : Type 0} where
  -- securityHeaders
  unfoldable pub security_headers : Handler S A → Handler S A
  security_headers next r headers = next r (
      insert (codes "Content-Security-Policy")
        (codes "default-src 'self'; "
          ++ (codes "script-src 'self' 'unsafe-inline'; "
              ++ (codes "style-src 'self' 'unsafe-inline'; "
                  ++ (codes "img-src 'self' data: blob:; "
                      ++ (codes "connect-src 'self'; "
                          ++ (codes "frame-ancestors 'none'; " ++ codes "base-uri 'self'"))))))
        (insert (codes "Permissions-Policy") (codes "geolocation=(), microphone=(), camera=()") (
          insert (codes "Referrer-Policy") (codes "no-referrer") (
            insert (codes "X-Frame-Options") (codes "DENY")
              (insert (codes "X-Content-Type-Options") (codes "nosniff") headers)))))
