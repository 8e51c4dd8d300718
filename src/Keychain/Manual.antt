-- ===== src/Keychain/Manual.antt =====
-- What the manuals of the keychain tools say of their runs.
use dropboy.Base.{
  Text, text_eq, codes, ◌==◌, if◌then◌else◌, true, Option, none, some, [], ◌++◌, ◌≡◌, has_infix,
  ◌⊎◌, nat_eq,
}
use dropboy.Base.Outcome.{Error}
use dropboy.Keychain.{
  Ran, Tools, add_args, find_args, remove_args, store_args, lookup_args, clear_args,
}

-- A keychain of one secret for each account, as a state keeps it.
abbrev pub Items : Tools → Type 0
Items T = T.State → Text → Option Text

-- The state after a change of one account.
abbrev pub Changed : (T : Tools) → Items T → T.State → T.State → Text → Option Text → Type 0
Changed T item s t account v = (q : Text) → item t q ≡ (if q == account then v else item s q)

-- `security`, which ends the secret that it prints with a newline.
pub record IsSecurity (T : Tools) : Type 0 where
  pub item : Items T
  pub present : (s : T.State) → T.look_path (codes "security") s ≡ true
  pub add :
      (s : T.State) (account secret : Text)
      → (ran : Ran) × (t : T.State) × (T.run (add_args account secret) [] s ≡ (ran, t))
        × (ran.failed ≡ none)
        × Changed T item s t account (some secret)
  pub find :
      (s : T.State) (account secret : Text)
      → item s account ≡ some secret
      → (ran : Ran) × (T.run (find_args account) [] s ≡ (ran, s))
        × (ran.failed ≡ none)
        × (ran.stdout ≡ secret ++ codes "\n")
  pub find_missing :
      (s : T.State) (account : Text)
      → item s account ≡ none
      → (ran : Ran) × (e : Error) × (T.run (find_args account) [] s ≡ (ran, s))
        × (ran.failed ≡ some e)
        × (has_infix ran.stderr (codes "could not be found") ≡ true)
  pub remove :
      (s : T.State) (account : Text)
      → (ran : Ran) × (t : T.State) × (T.run (remove_args account) [] s ≡ (ran, t))
        × ((ran.failed ≡ none) ⊎ (has_infix ran.combined (codes "could not be found") ≡ true))
        × Changed T item s t account none

-- `secret-tool`, which prints the secret as it is.
pub record IsSecretTool (T : Tools) : Type 0 where
  pub item : Items T
  pub present : (s : T.State) → T.look_path (codes "secret-tool") s ≡ true
  pub store :
      (s : T.State) (account secret : Text)
      → (ran : Ran) × (t : T.State) × (T.run (store_args account) secret s ≡ (ran, t))
        × (ran.failed ≡ none)
        × Changed T item s t account (some secret)
  pub lookup :
      (s : T.State) (account secret : Text)
      → item s account ≡ some secret
      → (ran : Ran) × (T.run (lookup_args account) [] s ≡ (ran, s))
        × (ran.failed ≡ none)
        × (ran.stdout ≡ secret)
  pub lookup_missing :
      (s : T.State) (account : Text)
      → item s account ≡ none
      → (ran : Ran) × (e : Error) × (T.run (lookup_args account) [] s ≡ (ran, s))
        × (ran.failed ≡ some e)
        × (ran.stdout ≡ [])
  pub clear :
      (s : T.State) (account secret : Text)
      → item s account ≡ some secret
      → (ran : Ran) × (t : T.State) × (T.run (clear_args account) [] s ≡ (ran, t))
        × (ran.failed ≡ none)
        × Changed T item s t account none
