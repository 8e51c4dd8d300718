-- ===== src/Keychain/RoundTrip.antt =====
-- The keychain gives back the secrets that were set, on tools that do what their manuals say.
use dropboy.Base.{
  Option-cases, Text, text_eq, codes, ◌==◌, false, Option, none, some, [], ◌∷◌, ◌++◌, ◌≡◌, refl,
  sym, ap, ◌∙◌, ==-refl, ◌⊎◌, inl, inr, nat_eq,
}
use dropboy.Tui.Commands.{trim_newlines}
use dropboy.Keychain.{
  Tools, not_found, Result, good, fault, darwin_set, darwin_get, darwin_delete, linux_set,
  linux_get, linux_delete, set, get, delete,
}
use dropboy.Keychain.Manual.{Items, Changed, IsSecurity, IsSecretTool}

trim_newlines-newline : (s : Text) → trim_newlines (s ++ codes "\n") ≡ trim_newlines s
unfolding trim_newlines
trim_newlines-newline [] = refl
trim_newlines-newline (c ∷ s) = rw (trim_newlines-newline s) refl

-- What Get returns for a secret: the newlines at its end are lost.
abbrev pub read_back : Option Text → Result Text
read_back none = fault not_found
read_back (some secret) = good (trim_newlines secret)

-- A keychain as a map of accounts to secrets: what the three operations do to it.
pub record IsKept (T : Tools) (item : Items T)
    (set : Text → Text → T.State → Result (Unit {0}) × T.State)
    (get : Text → T.State → Result Text × T.State)
    (delete : Text → T.State → Result (Unit {0}) × T.State) : Type 0 where
  pub set_changes :
      (s : T.State) (account secret : Text)
      → (t : T.State) × (set account secret s ≡ (good tt, t))
        × Changed T item s t account (some secret)
  pub get_reads : (s : T.State) (account : Text) → get account s ≡ (read_back (item s account), s)
  pub delete_changes :
      (s : T.State) (account secret : Text)
      → item s account ≡ some secret
      → (t : T.State) × (delete account s ≡ (good tt, t)) × Changed T item s t account none

module _ (T : Tools) where
  module _ (security : IsSecurity T) where
    darwin_get-item :
        (s : T.State) (account : Text) (o : Option Text)
        → security.item s account ≡ o
        → darwin_get T account s ≡ (read_back o, s)
    unfolding darwin_get
    darwin_get-item s account none h =
        let (ran, e, runs, fails, says) = security.find_missing s account h in
        rw (security.present s) (rw runs (rw fails (rw says refl)))
    darwin_get-item s account (some secret) h =
        let (ran, runs, fine, prints) = security.find s account secret h in
        rw (security.present s) (rw runs (rw fine (rw prints (rw trim_newlines-newline refl))))

    darwin_set-item :
        (s : T.State) (account secret : Text)
        → (t : T.State) × (darwin_set T account secret s ≡ (good tt, t))
          × Changed T security.item s t account (some secret)
    unfolding darwin_set
    darwin_set-item s account secret =
        let (ran, t, runs, fine, after) = security.add s account secret in
        (t, rw (security.present s) (rw runs (rw fine refl)), after)

    darwin_delete-item :
        (s : T.State) (account : Text)
        → (t : T.State) × (darwin_delete T account s ≡ (good tt, t))
          × Changed T security.item s t account none
    unfolding darwin_delete
    darwin_delete-item s account =
        let (ran, t, runs, well, after) = security.remove s account in
        elim well [
          | inl fine ↦ (t, rw (security.present s) (rw runs (rw fine refl)), after)
          | inr absent ↦ elim (Option-cases ran.failed) [
            | inl fine ↦ (t, rw (security.present s) (rw runs (rw fine refl)), after)
            | inr (e, fails) ↦
                (t, rw (security.present s) (rw runs (rw fails (rw absent refl))), after)
          ]
        ]

  module _ (tool : IsSecretTool T) where
    linux_get-item :
        (s : T.State) (account : Text) (o : Option Text)
        → tool.item s account ≡ o
        → linux_get T account s ≡ (read_back o, s)
    unfolding linux_get text_eq
    linux_get-item s account none h =
        let (ran, e, runs, fails, empty) = tool.lookup_missing s account h in
        rw (tool.present s) (rw runs (rw fails (rw empty refl)))
    linux_get-item s account (some secret) h =
        let (ran, runs, fine, prints) = tool.lookup s account secret h in
        rw (tool.present s) (rw runs (rw fine (rw prints refl)))

    linux_set-item :
        (s : T.State) (account secret : Text)
        → (t : T.State) × (linux_set T account secret s ≡ (good tt, t))
          × Changed T tool.item s t account (some secret)
    unfolding linux_set
    linux_set-item s account secret =
        let (ran, t, runs, fine, after) = tool.store s account secret in
        (t, rw (tool.present s) (rw runs (rw fine refl)), after)

    linux_delete-item :
        (s : T.State) (account secret : Text)
        → tool.item s account ≡ some secret
        → (t : T.State) × (linux_delete T account s ≡ (good tt, t))
          × Changed T tool.item s t account none
    unfolding linux_delete
    linux_delete-item s account secret h =
        let (ran, t, runs, fine, after) = tool.clear s account secret h in
        (t, rw (tool.present s) (rw runs (rw fine refl)), after)

  -- The system's own tool does what its manual says.
  abbrev pub Served : Type 0
  Served = ((T.goos ≡ codes "darwin") × IsSecurity T) ⊎ ((T.goos ≡ codes "linux") × IsSecretTool T)

  abbrev pub item_of : Served → Items T
  item_of (inl (_, security)) = security.item
  item_of (inr (_, tool)) = tool.item

  -- On macOS and on Linux, with a tool that does what its manual says, the keychain is a map of accounts
  -- to secrets: Set puts a secret under its account, Get returns what is under the account without the
  -- newlines at its end, or ErrNotFound, and Delete of an account that has a secret takes it away;
  -- no call touches another account.
  pub keychain-IsKept : (served : Served) → IsKept T (item_of served) (set T) (get T) (delete T)
  unfolding set get delete text_eq
  keychain-IsKept (inl (darwin, security)) = record {
    set_changes = λ s account secret. rw darwin (darwin_set-item security s account secret);
    get_reads = λ s account. rw darwin (darwin_get-item security s account _ refl);
    delete_changes = λ s account secret h. rw darwin (darwin_delete-item security s account);
  }
  keychain-IsKept (inr (linux, tool)) = record {
    set_changes = λ s account secret. rw linux (linux_set-item tool s account secret);
    get_reads = λ s account. rw linux (linux_get-item tool s account _ refl);
    delete_changes = λ s account secret h. rw linux (linux_delete-item tool s account secret h);
  }

  -- On macOS and on Linux, with a tool that does what its manual says, Set of a secret that does not end
  -- in a newline succeeds; Get of the account then returns the secret, and Get of any other account
  -- returns what it returned before.
  pub set-get :
      (served : Served) (s : T.State) (account secret : Text)
      → trim_newlines secret ≡ secret
      → (t : T.State) × (set T account secret s ≡ (good tt, t))
        × (get T account t ≡ (good secret, t))
        × ((q : Text) → (q == account) ≡ false → (get T q t).0 ≡ (get T q s).0)
  set-get served s account secret plain =
      let kept = keychain-IsKept served in
      let (t, done, after) = kept.set_changes s account secret in
      (
        t,
        done,
        kept.get_reads t account ∙ rw (after account) (rw (==-refl account) (rw plain refl)),
        λ q other.
            ap (λ r. r.0) (kept.get_reads t q)
            ∙ rw (after q) (rw other (ap (λ r. r.0) (sym (kept.get_reads s q)))),
      )
