-- ===== src/Keychain.antt =====
-- backend/internal/keychain/keychain.go: secrets in the keychain of the operating system, through its
-- command-line tools. Running a tool is an interface over an unknown state.
use dropboy.Base.{
  Text, text_eq, codes, ◌==◌, if◌then◌else◌, Bool, true, false, not, Option, none, some, List, [],
  ◌∷◌, ◌++◌, has_infix,
}
use dropboy.Base.Outcome.{Error}
use dropboy.Tui.Commands.{trim_newlines}
pub mod Manual
pub mod RoundTrip

-- What a run of a tool leaves: its error, and what it wrote. `combined` is both outputs in their order.
pub record Ran : Type 0 where
  pub failed : Option Error
  pub stdout : Text
  pub stderr : Text
  pub combined : Text

pub record Tools : Type 1 where
  pub State : Type 0
  -- runtime.GOOS
  pub goos : Text
  -- whether exec.LookPath finds a tool
  pub look_path : Text → State → Bool
  -- the command line, and the standard input
  pub run : List Text → Text → State → Ran × State
  pub trim_space : Text → Text

-- The errors: the two sentinels, and that of a tool with its label and its trimmed output.
pub data Fault : Type 0 where
  unavailable : Fault
  not_found : Fault
  tool_failed : Text → Error → Text → Fault

pub data Result (A : Type 0) : Type 0 where
  good : A → Result A
  fault : Fault → Result A

abbrev pub service : Text
service = codes "com.dropboy"

abbrev pub add_args : Text → Text → List Text
add_args account secret =
    codes "security"
    ∷ codes "add-generic-password"
    ∷ codes "-a"
    ∷ account
    ∷ codes "-s"
    ∷ service
    ∷ codes "-w"
    ∷ secret
    ∷ codes "-U"
    ∷ []

abbrev pub find_args : Text → List Text
find_args account =
    codes "security"
    ∷ codes "find-generic-password"
    ∷ codes "-a"
    ∷ account
    ∷ codes "-s"
    ∷ service
    ∷ codes "-w"
    ∷ []

abbrev pub remove_args : Text → List Text
remove_args account =
    codes "security"
    ∷ codes "delete-generic-password"
    ∷ codes "-a"
    ∷ account
    ∷ codes "-s"
    ∷ service
    ∷ []

abbrev pub store_args : Text → List Text
store_args account =
    codes "secret-tool"
    ∷ codes "store"
    ∷ (codes "--label=dropboy " ++ account)
    ∷ codes "service"
    ∷ service
    ∷ codes "account"
    ∷ account
    ∷ []

abbrev pub lookup_args : Text → List Text
lookup_args account =
    codes "secret-tool"
    ∷ codes "lookup"
    ∷ codes "service"
    ∷ service
    ∷ codes "account"
    ∷ account
    ∷ []

abbrev pub clear_args : Text → List Text
clear_args account =
    codes "secret-tool" ∷ codes "clear" ∷ codes "service" ∷ service ∷ codes "account" ∷ account ∷ []

module _ (T : Tools) where
  abbrev pub Call : Type 0 → Type 0
  Call A = T.State → Result A × T.State

  -- What a call returns where the tool has run without an error, or with one.
  abbrev pub ended : {A : Type 0} → Option Error → A → (Error → Result A) → Result A
  ended none a f = good a
  ended (some e) a f = f e

  abbrev failing : {A : Type 0} → Text → Text → Error → Result A
  failing label output e = fault (tool_failed label e (T.trim_space output))

  -- `if _, err := exec.LookPath(tool); err != nil { return ErrUnavailable }`
  abbrev pub with_tool : {A : Type 0} → Text → Call A → Call A
  with_tool name call = λ s. if T.look_path name s then call s else (fault unavailable, s)

  unfoldable pub darwin_set : Text → Text → Call (Unit {0})
  darwin_set account secret = with_tool (codes "security") (λ s.
      let (ran, t) = T.run (add_args account secret) [] s in
      (ended ran.failed tt (failing (codes "security add-generic-password") ran.combined), t))

  unfoldable pub darwin_get : Text → Call Text
  unfolding trim_newlines has_infix
  darwin_get account = with_tool (codes "security") (λ s.
      let (ran, t) = T.run (find_args account) [] s in
      (
        ended ran.failed (trim_newlines ran.stdout) (λ e.
            if has_infix ran.stderr (codes "could not be found")
            then fault not_found
            else failing (codes "security find-generic-password") ran.stderr e),
        t,
      ))

  unfoldable pub darwin_delete : Text → Call (Unit {0})
  unfolding has_infix
  darwin_delete account = with_tool (codes "security") (λ s.
      let (ran, t) = T.run (remove_args account) [] s in
      (
        ended ran.failed tt (λ e.
            if has_infix ran.combined (codes "could not be found")
            then good tt
            else failing (codes "security delete-generic-password") ran.combined e),
        t,
      ))

  unfoldable pub linux_set : Text → Text → Call (Unit {0})
  linux_set account secret = with_tool (codes "secret-tool") (λ s.
      let (ran, t) = T.run (store_args account) secret s in
      (ended ran.failed tt (failing (codes "secret-tool store") ran.combined), t))

  unfoldable pub linux_get : Text → Call Text
  unfolding trim_newlines
  linux_get account = with_tool (codes "secret-tool") (λ s.
      let (ran, t) = T.run (lookup_args account) [] s in
      (
        ended ran.failed (trim_newlines ran.stdout) (λ e.
            if ran.stdout == []
            then fault not_found
            else failing (codes "secret-tool lookup") ran.stderr e),
        t,
      ))

  unfoldable pub linux_delete : Text → Call (Unit {0})
  linux_delete account = with_tool (codes "secret-tool") (λ s.
      let (ran, t) = T.run (clear_args account) [] s in
      (ended ran.failed tt (failing (codes "secret-tool clear") ran.combined), t))

  -- `switch runtime.GOOS`
  abbrev pub by_system : {A : Type 0} → Call A → Call A → Call A
  by_system darwin linux =
      if T.goos == codes "darwin" then darwin else if T.goos == codes "linux" then linux else λ s.
      (fault unavailable, s)

  unfoldable pub set : Text → Text → Call (Unit {0})
  unfolding darwin_set linux_set
  set account secret = by_system (darwin_set account secret) (linux_set account secret)

  unfoldable pub get : Text → Call Text
  unfolding darwin_get linux_get
  get account = by_system (darwin_get account) (linux_get account)

  unfoldable pub delete : Text → Call (Unit {0})
  unfolding darwin_delete linux_delete
  delete account = by_system (darwin_delete account) (linux_delete account)
