-- ===== src/Server/Files/Build.antt =====
-- walkDir, buildNode and buildLocalTree of backend/internal/server/handlers.go.
use dropboy.Base.{
  ℕ, zero, suc, Text, text_eq, nat_eq, codes, if◌then◌else◌, Bool, true, false, List, [], ◌∷◌, ◌++◌,
  ◌+◌,
}
use dropboy.Base.Outcome.{Outcome, ok, err, panic, message}
use dropboy.Os.{FileInfo}
use dropboy.Config.{Config, Folder}
use dropboy.Server.Files.{
  DirEntry, Paths, View, NodeInfo, FileNode, FileNodes, node, no_nodes, more, info_of, kind_for,
  excluded, empty_root,
}

module _ (P : Paths) where
  -- The order of sort.Slice in buildNode: directories first, then by name.
  abbrev pub dirs_first : DirEntry → DirEntry → Bool
  dirs_first a b =
      if a.is_dir
      then (if b.is_dir then P.less a.name b.name else true)
      else (if b.is_dir then false else P.less a.name b.name)

  -- The node that buildNode starts with.
  unfoldable pub start_node : Text → Text → Text → FileInfo → NodeInfo
  start_node root abs machine info = record {
    id = P.sha1_hex8 (machine ++ (codes ":" ++ abs));
    name = info.name;
    kind = [];
    size = 0;
    modified = P.format_time info.mod_time;
    machine = machine;
    path = codes "/" ++ P.rel_to_parent root abs;
    status = codes "synced";
    encrypted = true;
  }

  unfoldable pub file_node : Text → Text → Text → FileInfo → FileNode
  unfolding start_node
  file_node root abs machine info =
      node
        (record (start_node root abs machine info) {
          kind = kind_for P info.name;
          size = info.size;
        })
        no_nodes

  abbrev pub max_children : ℕ
  max_children = 500

  abbrev pub max_walk_depth : ℕ
  max_walk_depth = 8

  -- The nodes that were built, and the sum of their sizes.
  abbrev pub add_child : Outcome FileNode → FileNodes × ℕ → FileNodes × ℕ
  add_child (ok c) (rest, size) = (more c rest, (info_of c).size + size)
  add_child (err e) found = found
  add_child panic found = found

  -- Whether a child takes one of the places.
  abbrev pub takes_place : Outcome FileNode → Bool
  takes_place (ok c) = true
  takes_place (err e) = false
  takes_place panic = false

  -- The loop over the entries, with the places that are left.
  unfoldable pub add_children :
      (Text → Outcome FileNode) → Text → List Text → ℕ → List DirEntry → FileNodes × ℕ
  add_children build abs excludes places [] = (no_nodes, 0)
  add_children build abs excludes zero (e ∷ entries) = (no_nodes, 0)
  add_children build abs excludes (suc places) (e ∷ entries) =
      let child = build (P.join (abs ∷ e.name ∷ [])) in
      let skipped = add_children build abs excludes (suc places) entries in
      let counted = add_children build abs excludes places entries in
      if excluded P e.name excludes
      then skipped
      else add_child child (if takes_place child then counted else skipped)

  unfoldable pub folder_node : Text → Text → Text → FileInfo → FileNodes × ℕ → FileNode
  unfolding start_node
  folder_node root abs machine info (children, size) =
      node (record (start_node root abs machine info) { kind = codes "folder"; size = size })
        children

  -- What a directory has below it, if it can be listed.
  abbrev pub listed :
      (Text → Outcome FileNode) → Text → List Text → Outcome (List DirEntry) → FileNodes × ℕ
  listed build abs excludes (ok entries) =
      add_children build abs excludes max_children (P.sort dirs_first entries)
  listed build abs excludes (err e) = (no_nodes, 0)
  listed build abs excludes panic = (no_nodes, 0)

  module _ (V : View) (root machine : Text) (excludes : List Text) where
    -- The node of a path with what Stat says of it, and what is below it if it is a directory.
    abbrev pub build_at : Text → FileNodes × ℕ → Outcome FileInfo → Outcome FileNode
    build_at abs below (ok info) = ok (
        if info.is_dir
        then folder_node root abs machine info below
        else file_node root abs machine info)
    build_at abs below (err e) = err e
    build_at abs below panic = panic

    -- buildNode, with the levels that are left: maxWalkDepth - depth.
    unfoldable pub build_node : ℕ → Text → Outcome FileNode
    unfolding folder_node file_node
    build_node zero abs = build_at abs (no_nodes, 0) (V.stat abs)
    build_node (suc levels) abs =
        build_at abs (listed (build_node levels) abs excludes (V.read_dir abs)) (V.stat abs)

  -- What walkDir does with what Stat returns.
  abbrev pub checked_dir : View → Text → Text → List Text → Outcome FileInfo → Outcome FileNode
  checked_dir V abs machine excludes (ok info) =
      if info.is_dir
      then build_node V abs machine excludes max_walk_depth abs
      else err (message (codes "not a directory"))
  checked_dir V abs machine excludes (err e) = err e
  checked_dir V abs machine excludes panic = panic

  -- walkDir
  unfoldable pub walk_dir : View → Text → Text → List Text → Outcome FileNode
  walk_dir V abs machine excludes = checked_dir V abs machine excludes (V.stat abs)

  -- The end of a list of nodes.
  abbrev push : FileNodes → FileNode → FileNodes
  push no_nodes n = more n no_nodes
  push (more c cs) n = more c (push cs n)

  -- One folder of the loop of buildLocalTree.
  abbrev add_folder : FileNode → Outcome FileNode → FileNode
  add_folder (node i children) (ok c) =
      node
        (record i {
          size = i.size + (info_of c).size;
          modified =
              if P.less i.modified (info_of c).modified then (info_of c).modified else i.modified;
        })
        (push children c)
  add_folder root (err e) = root
  add_folder root panic = root

  add_folders : View → Text → List Folder → FileNode → FileNode
  add_folders V machine [] root = root
  add_folders V machine (f ∷ fs) root =
      add_folders V machine fs (add_folder root (walk_dir V f.path machine f.exclude))

  -- buildLocalTree
  unfoldable pub build_local_tree : View → ℕ → Config → Text → FileNode
  unfolding add_folders
  build_local_tree V now cfg machine =
      add_folders V machine cfg.folders (node (empty_root P now machine) no_nodes)
