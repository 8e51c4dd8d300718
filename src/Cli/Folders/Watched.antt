-- ===== src/Cli/Folders/Watched.antt =====
-- A folder that is added is watched until it is removed.
use dropboy.Base.{
  Text, text_eq, codes, ◌==◌, true, false, not, has_prefix, any, keep, keep-append, List, [], ◌∷◌,
  ◌++◌, ◌≡◌, refl, ap, ◌∙◌, arith, ==-refl,
}
use mathlib.Core.List.{append-nil}
use dropboy.Base.Outcome.{Exec, ok}
use dropboy.Os.{Os, FileInfo, IsReliable}
use dropboy.Config.{Config, Folder}
use dropboy.Config.Files.{Yaml, load, save, save-load}
use dropboy.Cli.Folders.{Filepath, abs_expand, with_folder, without, add, remove}

-- The folders of another path are all that are kept of a list without the path.
keep_absent :
    (p : Text) (fs : List Folder)
    → any (λ f. f.path == p) fs ≡ false
    → keep (λ f. not (f.path == p)) fs ≡ fs
keep_absent p [] h = refl
keep_absent p (f ∷ fs) h = ground (arith, keep_absent p fs)

any-last :
    (p : Text) (fs : List Folder) (f : Folder)
    → (f.path == p) ≡ true
    → any (λ g. g.path == p) (fs ++ f ∷ []) ≡ true
any-last p [] f h = ground arith
any-last p (g ∷ fs) f h = ground (arith, any-last p fs f)

kept_before :
    (p : Text) (excludes : List Text) (fs : List Folder)
    → any (λ f. f.path == p) fs ≡ false
    → keep (λ f. not (f.path == p)) (fs ++ record { path = p; exclude = excludes } ∷ []) ≡ fs
kept_before p excludes fs h =
    keep-append _ fs _ ∙ rw (keep_absent p fs h) (rw (==-refl p) (append-nil fs))

-- What Yaml reads back of the text that it writes for a config.
pub record Writes (Y : Yaml) (cfg : Config) (text : Text) : Type 0 where
  pub made : Y.marshal cfg ≡ ok text
  pub back : (old : Config) → Y.unmarshal text old ≡ ok cfg

module _ (X : Os) (Y : Yaml) (home : Exec X.State Text) (F : Filepath X.State) (R : IsReliable X)
    (h : Text) (at_home : (t : X.State) → home t ≡ (ok h, t)) where
  saved :
      (cfg : Config) (text : Text) (s : X.State)
      → Writes Y cfg text
      → (t : X.State) × (save X Y home cfg s ≡ (ok tt, t)) × (load X Y home t ≡ (ok cfg, t))
  saved cfg text s writes =
      let (t, wrote, reads, rest) =
        save-load X Y home R h text cfg s writes.made writes.back at_home in
      (t, wrote, reads)

  module _ (p : Text) (plain : has_prefix p (codes "~") ≡ false)
      (absolute : (t : X.State) → F.absolute p t ≡ (ok p, t)) where
    abs_expand-plain : (s : X.State) → abs_expand X Y home F p s ≡ (ok p, s)
    unfolding abs_expand
    abs_expand-plain s = rw plain (absolute s)

    added :
        (cfg : Config) (excludes : List Text) (text : Text) (s : X.State) (info : FileInfo)
        → load X Y home s ≡ (ok cfg, s)
        → X.stat p s ≡ (ok info, s)
        → info.is_dir ≡ true
        → any (λ f. f.path == p) cfg.folders ≡ false
        → Writes Y (with_folder X Y home F cfg p excludes) text
        → (t : X.State) × (add X Y home F p excludes s ≡ (ok p, t))
          × (load X Y home t ≡ (ok (with_folder X Y home F cfg p excludes), t))
    unfolding add
    added cfg excludes text s info loads stats is_dir absent writes =
        let (t, wrote, reads) = saved (with_folder X Y home F cfg p excludes) text s writes in
        (
          t,
          rw loads (rw (abs_expand-plain s) (rw stats (rw is_dir (rw absent (rw wrote refl))))),
          reads,
        )

    removed :
        (cfg : Config) (text : Text) (s : X.State)
        → load X Y home s ≡ (ok cfg, s)
        → any (λ f. f.path == p) cfg.folders ≡ true
        → Writes Y (without X Y home F cfg p) text
        → (t : X.State) × (remove X Y home F p s ≡ (ok p, t))
          × (load X Y home t ≡ (ok (without X Y home F cfg p), t))
    unfolding remove
    removed cfg text s loads present writes =
        let (t, wrote, reads) = saved (without X Y home F cfg p) text s writes in
        (t, rw loads (rw (abs_expand-plain s) (rw present (rw wrote refl))), reads)

    -- On a system on which no call fails, with a known home directory, an absolute path that does not
    -- begin with ~ and a config that the file holds, `add` of a directory that is not watched succeeds
    -- and the file then holds the config with that folder at the end; `remove` of the path then
    -- succeeds and the file holds the config from before, where the two configs can be read back of
    -- the texts that are written for them.
    pub add-remove :
        (cfg : Config) (excludes : List Text) (with_text text : Text) (s : X.State)
        (info : FileInfo)
        → load X Y home s ≡ (ok cfg, s)
        → X.stat p s ≡ (ok info, s)
        → info.is_dir ≡ true
        → any (λ f. f.path == p) cfg.folders ≡ false
        → Writes Y (with_folder X Y home F cfg p excludes) with_text
        → Writes Y cfg text
        → (t : X.State) × (u : X.State) × (add X Y home F p excludes s ≡ (ok p, t))
          × (load X Y home t ≡ (ok (with_folder X Y home F cfg p excludes), t))
          × (remove X Y home F p t ≡ (ok p, u))
          × (load X Y home u ≡ (ok cfg, u))
    add-remove cfg excludes with_text text s info loads stats is_dir absent writes_with writes =
        let (t, adds, reads) =
          added cfg excludes with_text s info loads stats is_dir absent writes_with in
        let same : without X Y home F (with_folder X Y home F cfg p excludes) p ≡ cfg =
          ap (λ fs. record cfg { folders = fs }) (kept_before p excludes cfg.folders absent) in
        let (u, removes, reads_again) =
          removed (with_folder X Y home F cfg p excludes) text t reads
            (any-last p cfg.folders (record { path = p; exclude = excludes }) (==-refl p))
            (rw same writes) in
        (t, u, adds, reads, removes, reads_again ∙ rw same refl)
