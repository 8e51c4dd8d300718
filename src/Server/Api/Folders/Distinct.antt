-- ===== src/Server/Api/Folders/Distinct.antt =====
-- The list of watched folders under the handlers that change it.
use dropboy.Base.{
  ℕ, Text, text_eq, ◌==◌, Bool, true, false, ◌||◌, List, [], ◌∷◌, ◌++◌, any, keep, ◌≡◌, refl, arith,
  inl, inr, Bool-cases,
}
use dropboy.Base.Outcome.{Exec, Done, Outcome}
use dropboy.Config.{Config, Folder}
use dropboy.Server.Answer.{Answer, granted, refused, Serve, grant, calling, unless, proceed, ◌>>=◌}
use dropboy.Server.Api.{Engine, System, Server, on_system}
use dropboy.Server.Api.Folders.{
  FolderPayload, read_json, config, set_config, settings_put, folders_add, folders_remove,
}

-- No two folders of one path.
abbrev pub IsDistinct : List Folder → Type 0
IsDistinct [] = Unit {0}
IsDistinct (f ∷ fs) = (any (λ g. g.path == f.path) fs ≡ false) × IsDistinct fs

any-append :
    (p : Text) (fs : List Folder) (f : Folder)
    → any (λ g. g.path == p) (fs ++ f ∷ []) ≡ (any (λ g. g.path == p) fs || f.path == p)
any-append p [] f = ground arith
any-append p (g ∷ fs) f = ground (arith, any-append p fs f)

IsDistinct-append :
    (fs : List Folder) (f : Folder)
    → IsDistinct fs
    → any (λ g. g.path == f.path) fs ≡ false
    → IsDistinct (fs ++ f ∷ [])
IsDistinct-append [] f u new = (refl, tt)
IsDistinct-append (g ∷ fs) f (fresh, u) new =
    ground (arith, any-append g.path fs f, IsDistinct-append fs f u)

any-keep :
    (p : Text) (k : Folder → Bool) (fs : List Folder)
    → any (λ g. g.path == p) fs ≡ false
    → any (λ g. g.path == p) (keep k fs) ≡ false
any-keep p k [] h = refl
any-keep p k (g ∷ fs) h = ground (arith, any-keep p k fs)

IsDistinct-keep : (k : Folder → Bool) (fs : List Folder) → IsDistinct fs → IsDistinct (keep k fs)
IsDistinct-keep k [] u = tt
IsDistinct-keep k (g ∷ fs) (fresh, u) = elim (Bool-cases (k g)) [
  | inl kept ↦ rw kept (any-keep g.path k fs fresh, IsDistinct-keep k fs u)
  | inr gone ↦ rw gone (IsDistinct-keep k fs u)
]

module _ (G : Engine) (X : System) where
  -- Called with the config `c`, `m` ends with one of which `Q` holds, also when it turns the request
  -- away.
  pub record Ends {A : Type 0} (c : Config) (Q : Config → Type 0) (m : Serve (Server G X) A)
      : Type 0 where
    pub at : (s : Server G X) → s.cfg ≡ c → Q (m s).1.cfg

  module _ {A : Type 0} (c : Config) where
    Ends-grant : (Q : Config → Type 0) (a : A) → Q c → Ends c Q (grant a)
    Ends-grant Q a q = record { at = λ s same. rw same q }

    Ends-read_json : (decoded : Outcome A) → Ends c (λ d. d ≡ c) (read_json G X decoded)
    Ends-read_json decoded = record { at = λ s same. same }

    Ends-calling :
        (n : ℕ) (m : Exec X.State A)
        → Ends c (λ d. d ≡ c) (calling n X.error_text (on_system G X m))
    Ends-calling n m = record { at = λ s same. same }

  module _ {A B : Type 0} (c : Config) (Q : Config → Type 0) where
    proceed_silent :
        (a : Answer A) (f : A → Serve (Server G X) B) (s : Server G X)
        → s.cfg ≡ c
        → Q c
        → ((a : A) → Ends c Q (f a))
        → Q (proceed a f s).1.cfg
    proceed_silent (granted a) f s same q k = (k a).at s same
    proceed_silent (refused n msg) f s same q k = rw same q

    Ends-bind :
        (m : Serve (Server G X) A) (f : A → Serve (Server G X) B)
        → Ends c (λ d. d ≡ c) m
        → Q c
        → ((a : A) → Ends c Q (f a))
        → Ends c Q (m >>= f)
    Ends-bind m f e q k = record {
      at = λ s same. proceed_silent (m s).0 f (m s).1 (e.at s same) q k;
    }

  module _ {B : Type 0} (c : Config) (Q : Config → Type 0) where
    Ends-config : (f : Config → Serve (Server G X) B) → Ends c Q (f c) → Ends c Q (config G X >>= f)
    Ends-config f k = record { at = λ s same. rw same (k.at (record s { cfg = c }) refl) }

    Ends-set_config :
        (d : Config) (f : Done → Serve (Server G X) B)
        → Ends d Q (f tt)
        → Ends c Q (set_config G X d >>= f)
    Ends-set_config d f k = record { at = λ s same. k.at (record s { cfg = d }) refl }

    Ends-unless :
        (b : Bool) (n : ℕ) (msg : Text) (f : Done → Serve (Server G X) B)
        → Q c
        → (b ≡ false → Ends c Q (f tt))
        → Ends c Q (unless b n msg >>= f)
    Ends-unless true n msg f q k = record { at = λ s same. rw same q }
    Ends-unless false n msg f q k = record { at = λ s same. (k refl).at s same }

  ruleset ends_rules = (
    Ends-grant, Ends-read_json, Ends-calling, Ends-bind, Ends-config, Ends-set_config, Ends-unless,
  )

  settings_put-Ends :
      (decoded : Outcome Config) (c : Config) (fs : List Folder)
      → c.folders ≡ fs
      → Ends c (λ d. d.folders ≡ fs) (settings_put G X decoded)
  unfolding settings_put
  settings_put-Ends decoded c fs h = search ends_rules depth 30

  folders_add-Ends :
      (decoded : Outcome FolderPayload) (c : Config)
      → IsDistinct c.folders
      → Ends c (λ d. IsDistinct d.folders) (folders_add G X decoded)
  unfolding folders_add
  folders_add-Ends decoded c u = search (ends_rules, IsDistinct-append) depth 30

  folders_remove-Ends :
      (target : Text) (c : Config)
      → IsDistinct c.folders
      → Ends c (λ d. IsDistinct d.folders) (folders_remove G X target)
  unfolding folders_remove
  folders_remove-Ends target c u = search (ends_rules, IsDistinct-keep) depth 30

  -- From a list of folders without two of one path, adding and removing a folder leave such a list,
  -- and changing the settings leaves the same list, whatever the request and however it is answered.
  pub edits-IsDistinct :
      (s : Server G X) (incoming : Outcome Config) (added : Outcome FolderPayload) (removed : Text)
      → IsDistinct s.cfg.folders
      → ((settings_put G X incoming s).1.cfg.folders ≡ s.cfg.folders)
        × IsDistinct (folders_add G X added s).1.cfg.folders
        × IsDistinct (folders_remove G X removed s).1.cfg.folders
  edits-IsDistinct s incoming added removed u = (
    (settings_put-Ends incoming s.cfg _ refl).at s refl,
    (folders_add-Ends added s.cfg u).at s refl,
    (folders_remove-Ends removed s.cfg u).at s refl,
  )
