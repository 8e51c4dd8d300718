-- ===== src/Sync/Snapshot/Walked.antt =====
-- What the snapshot of the folders holds, where a walk meets files with their content.
use dropboy.Base.{
  Text, text_eq, codes, ◌==◌, Option, none, some, List, [], ◌∷◌, Bool, Bool-cases, true, inl, inr,
  has_prefix, hex_encode, ◌≡◌, refl, sym, ap, eq_of_==,
}
use dropboy.Base.Dict.{Dict, lookup, lookup-insert, NodupKeys, insert-NodupKeys}
use dropboy.Os.{FileInfo, Tree, unreadable, file, dir, Trees, nil, cons}
use dropboy.Config.{Folder}
use dropboy.Sync.Plan.{LocalEntry}
use dropboy.Sync.Engine.{Env}
use dropboy.Sync.Engine.Reliable.{IsReliable}
use dropboy.Sync.Snapshot.{excluded, visit, walk_tree, walk_trees, walk_folders}

module _ (E : Env) (R : IsReliable E) (s : E.os.State) where
  -- A file is met with the content that it has, under an absolute path.
  unfoldable mutual
    pub TrueTree : Tree → Type 0
    TrueTree unreadable = Unit {0}
    TrueTree (file p name info content) =
        (has_prefix p (codes "/") ≡ true)
        × ((c : Text) → content ≡ some c → R.os.content s p ≡ some c)
    TrueTree (dir name children) = TrueTrees children

    pub TrueTrees : Trees → Type 0
    TrueTrees nil = Unit {0}
    TrueTrees (cons t ts) = TrueTree t × TrueTrees ts

  -- The map has files with the hash of their content, each path once.
  pub record Seen (out : Dict LocalEntry) : Type 0 where
    pub once : NodupKeys out
    pub found :
        (p : Text) (l : LocalEntry)
        → lookup p out ≡ some l
        → (has_prefix p (codes "/") ≡ true)
          × ((c : Text) × (R.os.content s p ≡ some c)
              × (l.hash ≡ hex_encode (E.primitives.sha256 c)))

  abbrev entry_of : Text → FileInfo → Text → LocalEntry
  entry_of p info c = record {
    path = p;
    size = info.size;
    mtime = info.mod_time;
    hash = hex_encode (E.primitives.sha256 c);
  }

  visit-Seen :
      (glob : Text → Text → Bool) (p name : Text) (info : Option FileInfo) (content : Option Text)
      (out : Dict LocalEntry)
      → TrueTree (file p name info content)
      → Seen out
      → Seen (visit glob E p info content out)
  unfolding visit TrueTree
  visit-Seen glob p name none content out t seen = seen
  visit-Seen glob p name (some info) none out t seen = seen
  visit-Seen glob p name (some info) (some c) out (absolute, true_content) seen = record {
    once = insert-NodupKeys p _ out seen.once;
    found = λ q l h. elim (Bool-cases (q == p)) [
      | inl e ↦
          let entry : ◌≡◌ {A = Option LocalEntry} (some (entry_of p info c)) (some l) =
            rw (lookup-insert, e) at h in
          let is_l : entry_of p info c ≡ l = cc in
          rw (eq_of_== q p e)
            (absolute, (c, true_content c refl, sym (ap (λ (x : LocalEntry). x.hash) is_l)))
      | inr n ↦ seen.found q l (rw (lookup-insert, n) at h)
    ];
  }

  module _ (glob : Text → Text → Bool) (exclude : List Text) where
    mutual
      unfolding walk_tree TrueTree

      walk_tree-Seen :
          (t : Tree) (out : Dict LocalEntry)
          → TrueTree t
          → Seen out
          → Seen (walk_tree glob E t exclude out)
      walk_tree-Seen unreadable out t seen = seen
      walk_tree-Seen (file p name info content) out t seen =
          elim (Bool-cases (excluded glob name exclude)) [
            | inl e ↦ rw e seen
            | inr n ↦ rw n (visit-Seen glob p name info content out t seen)
          ]
      walk_tree-Seen (dir name children) out t seen =
          elim (Bool-cases (excluded glob name exclude)) [
            | inl e ↦ rw e seen
            | inr n ↦ rw n (walk_trees-Seen children out t seen)
          ]

      walk_trees-Seen :
          (ts : Trees) (out : Dict LocalEntry)
          → TrueTrees ts
          → Seen out
          → Seen (walk_trees glob E ts exclude out)
      walk_trees-Seen nil out t seen = seen
      walk_trees-Seen (cons t ts) out (true_tree, true_trees) seen =
          walk_trees-Seen ts _ true_trees (walk_tree-Seen t out true_tree seen)

  pub walk_folders-Seen :
      (glob : Text → Text → Bool) (folders : List Folder) (out : Dict LocalEntry)
      → ((p : Text) → TrueTree (E.os.walk p s))
      → Seen out
      → Seen (walk_folders glob E s folders out)
  unfolding walk_folders
  walk_folders-Seen glob [] out t seen = seen
  walk_folders-Seen glob (f ∷ folders) out t seen =
      walk_folders-Seen glob folders _ t
        (walk_tree-Seen glob f.exclude (E.os.walk f.path s) out (t f.path) seen)
