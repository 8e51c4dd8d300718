-- ===== src/Server/Files/Lookup.antt =====
-- findByPath and resolveWatched of backend/internal/server/handlers.go.
use dropboy.Base.{
  Text, text_eq, nat_eq, codes, ◌==◌, if◌then◌else◌, Bool, ◌||◌, not, Option, none, some, List, [],
  ◌∷◌, ◌++◌, has_prefix,
}
use dropboy.Base.Outcome.{Outcome, ok}
use dropboy.Config.{Folder}
use dropboy.Server.Files.{Paths, FileNode, FileNodes, no_nodes, more, info_of, children_of}

module _ (P : Paths) where
  child_named : Text → FileNodes → Option FileNode
  child_named seg no_nodes = none
  child_named seg (more c cs) =
      let rest = child_named seg cs in if (info_of c).name == seg then some c else rest

  -- The loop of findByPath.
  descend : List Text → FileNode → Option FileNode
  unfolding child_named
  descend [] cur = some cur
  descend (seg ∷ segs) cur = elim (child_named seg (children_of cur)) [
    | none ↦ none
    | some next ↦ descend segs next
  ]

  unfoldable pub find_by_path : FileNode → Text → Option FileNode
  unfolding descend
  find_by_path root path =
      if path == [] || path == codes "/" then some root else descend (P.segments path) root

  -- `clean == base || strings.HasPrefix(clean, base+"/")`
  unfoldable pub is_under : Text → Text → Bool
  is_under base clean = clean == base || has_prefix clean (base ++ codes "/")

  -- What resolveWatched makes of a folder whose name is the first segment.
  abbrev pub candidate : Outcome Text → Outcome Text → Option Text
  candidate (ok clean) (ok base) = if is_under base clean then some clean else none
  candidate _ _ = none

  abbrev pub or_later : Option Text → Text → Text
  or_later none later = later
  or_later (some clean) later = clean

  -- The loop of resolveWatched over the folders.
  unfoldable pub resolve_in : List Folder → Text → List Text → Text
  resolve_in [] first rest = []
  resolve_in (f ∷ fs) first rest =
      let later = resolve_in fs first rest in
      if not (P.base f.path == first)
      then later
      else or_later (candidate (P.abs (P.join (f.path ∷ rest))) (P.abs f.path)) later

  unfoldable pub resolve_segments : List Folder → List Text → Text
  unfolding resolve_in
  resolve_segments folders [] = []
  resolve_segments folders (first ∷ rest) =
      if first == [] then [] else resolve_in folders first rest

  unfoldable pub resolve_watched : List Folder → Text → Text
  unfolding resolve_segments
  resolve_watched folders virtual = resolve_segments folders (P.segments virtual)
