-- ===== src/Server/Files/Depth.antt =====
-- How large the tree of a folder can get.
use dropboy.Base.{
  ℕ, zero, suc, Text, text_eq, Bool, true, false, ◌&&◌, List, [], ◌∷◌, ◌≡◌, refl, arith, ◌≤◌, leb,
  inl, inr, Bool-cases,
}
use dropboy.Base.Outcome.{Outcome, ok, err, panic}
use dropboy.Os.{FileInfo}
use dropboy.Server.Files.{
  Paths, View, DirEntry, FileNode, FileNodes, node, no_nodes, more, excluded,
}
use dropboy.Server.Files.Build.{
  add_child, takes_place, add_children, folder_node, file_node, listed, build_at, build_node,
  checked_dir, walk_dir,
}

pub count : FileNodes → ℕ
count no_nodes = 0
count (more c cs) = suc (count cs)

-- At most 500 nodes lie directly below any node, and no path of the tree is longer than the levels.
mutual
  pub is_within : ℕ → FileNode → Bool
  is_within levels (node i children) = leb (count children) 500 && all_within levels children

  pub all_within : ℕ → FileNodes → Bool
  all_within levels no_nodes = true
  all_within zero (more c cs) = false
  all_within (suc levels) (more c cs) = is_within levels c && all_within (suc levels) cs

module _ (P : Paths) where
  -- What stands of a list of nodes: no more than there are places, each within the levels.
  abbrev Fits : ℕ → ℕ → FileNodes × ℕ → Type 0
  Fits levels places (cs, size) = (count cs ≤ places) × (all_within (suc levels) cs ≡ true)

  -- A builder whose nodes are within the levels.
  abbrev Builds : ℕ → (Text → Outcome FileNode) → Type 0
  Builds levels build = (p : Text) (c : FileNode) → build p ≡ ok c → is_within levels c ≡ true

  add_child-Fits :
      (levels places : ℕ) (child : Outcome FileNode) (found : FileNodes × ℕ)
      → ((c : FileNode) → child ≡ ok c → is_within levels c ≡ true)
      → (takes_place P child ≡ true → Fits levels places found)
      → (takes_place P child ≡ false → Fits levels (suc places) found)
      → Fits levels (suc places) (add_child P child found)
  unfolding count all_within
  add_child-Fits levels places (ok c) found within k n =
      let (few, all) = k refl in (ground (arith, few), ground (arith, within c refl, all))
  add_child-Fits levels places (err e) found within k n = n refl
  add_child-Fits levels places panic found within k n = n refl

  add_children-Fits :
      (levels : ℕ) (build : Text → Outcome FileNode) (abs : Text) (excludes : List Text)
      (places : ℕ) (entries : List DirEntry)
      → Builds levels build
      → Fits levels places (add_children P build abs excludes places entries)
  unfolding add_children count all_within
  add_children-Fits levels build abs excludes places [] b = (ground arith, refl)
  add_children-Fits levels build abs excludes zero (e ∷ entries) b = (ground arith, refl)
  add_children-Fits levels build abs excludes (suc places) (e ∷ entries) b =
      elim (Bool-cases (excluded P e.name excludes)) [
        | inl hidden ↦
            rw hidden (add_children-Fits levels build abs excludes (suc places) entries b)
        | inr shown ↦ rw shown (
            add_child-Fits levels places _ _ (b _)
              (λ t. rw t (add_children-Fits levels build abs excludes places entries b))
              (λ t. rw t (add_children-Fits levels build abs excludes (suc places) entries b)))
      ]

  listed-Fits :
      (levels : ℕ) (build : Text → Outcome FileNode) (abs : Text) (excludes : List Text)
      (entries : Outcome (List DirEntry))
      → Builds levels build
      → Fits levels 500 (listed P build abs excludes entries)
  unfolding count all_within
  listed-Fits levels build abs excludes (ok entries) b =
      add_children-Fits levels build abs excludes 500 _ b
  listed-Fits levels build abs excludes (err e) b = (ground arith, refl)
  listed-Fits levels build abs excludes panic b = (ground arith, refl)

  module _ (V : View) (root machine : Text) (excludes : List Text) where
    build_at-within :
        (levels : ℕ) (abs : Text) (below : FileNodes × ℕ) (info : Outcome FileInfo) (c : FileNode)
        → count below.0 ≤ 500
        → all_within levels below.0 ≡ true
        → build_at P V root machine excludes abs below info ≡ ok c
        → is_within levels c ≡ true
    unfolding folder_node file_node is_within count all_within
    build_at-within levels abs below (ok info) c few all h = elim (Bool-cases info.is_dir) [
      | inl folder ↦
          let same : folder_node P root abs machine info below ≡ c = cc (rw folder at h) in
          rw (← same) (ground (arith, few, all))
      | inr other ↦
          let same : file_node P root abs machine info ≡ c = cc (rw other at h) in rw (← same) refl
    ]
    build_at-within levels abs below (err e) c few all h = ground arith
    build_at-within levels abs below panic c few all h = ground arith

    build_node-within :
        (levels : ℕ) (abs : Text) (c : FileNode)
        → build_node P V root machine excludes levels abs ≡ ok c
        → is_within levels c ≡ true
    unfolding build_node count all_within
    build_node-within zero abs c h =
        build_at-within zero abs (no_nodes, 0) (V.stat abs) c (ground arith) refl h
    build_node-within (suc levels) abs c h =
        let fits =
          listed-Fits levels (build_node P V root machine excludes levels) abs excludes
            (V.read_dir abs) (build_node-within levels) in
        build_at-within (suc levels) abs _ (V.stat abs) c fits.0 fits.1 h

  -- The tree that walkDir makes of a folder has at most 500 nodes directly below any node, and at most
  -- eight levels below its root.
  pub walk_dir-within :
      (V : View) (abs machine : Text) (excludes : List Text) (tree : FileNode)
      → walk_dir P V abs machine excludes ≡ ok tree
      → is_within 8 tree ≡ true
  unfolding walk_dir
  walk_dir-within V abs machine excludes tree h = go (V.stat abs) h
    where
      go :
          (info : Outcome FileInfo)
          → checked_dir P V abs machine excludes info ≡ ok tree
          → is_within 8 tree ≡ true
      go (ok info) h = elim (Bool-cases info.is_dir) [
        | inl folder ↦ build_node-within V abs machine excludes 8 abs tree (rw folder at h)
        | inr other ↦ ground arith
      ]
      go (err e) h = ground arith
      go panic h = ground arith
