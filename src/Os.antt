-- ===== src/Os.antt =====
-- What the program calls of the operating system through Go's packages os, time and crypto/rand:
-- an interface over an unknown state, and the behaviour that proofs may assume of it.
use dropboy.Base.{ℕ, Text, text_eq, ◌==◌, if◌then◌else◌, Bool, Option, some, ◌≡◌, length, ◌<◌}
use dropboy.Base.Outcome.{Exec, Done, ok}

pub record FileInfo : Type 0 where
  pub name : Text
  pub size : ℕ
  pub mod_time : ℕ
  pub is_dir : Bool

-- What filepath.WalkDir meets below a path. A file has its path and its name, what Info returns
-- and what reading it returns; a directory has the entries that could be listed.
mutual
  pub data Tree : Type 0 where
    unreadable : Tree
    file : Text → Text → Option FileInfo → Option Text → Tree
    dir : Text → Trees → Tree

  pub data Trees : Type 0 where
    nil : Trees
    cons : Tree → Trees → Trees

-- Times are nanoseconds since Go's zero time, so that 0 is the time that IsZero tests for.
pub record Os : Type 1 where
  pub State : Type 0
  pub read_file : Text → Exec State Text
  -- path, content, permissions
  pub write_file : Text → Text → ℕ → Exec State Done
  pub mkdir_all : Text → ℕ → Exec State Done
  pub remove : Text → Exec State Done
  pub stat : Text → Exec State FileInfo
  pub walk : Text → State → Tree
  pub now : State → ℕ × State
  -- io.ReadFull(rand.Reader, buf), by the length of buf
  pub random : ℕ → Exec State Text
  -- rand.Int(rand.Reader, max)
  pub random_int : ℕ → Exec State ℕ

-- A system on which no call fails: what each call returns, and what it leaves in the files.
pub record IsReliable (X : Os) : Type 0 where
  pub content : X.State → Text → Option Text
  pub read_file : (s : X.State) (p c : Text) → content s p ≡ some c → X.read_file p s ≡ (ok c, s)
  pub write_file :
      (s : X.State) (p c : Text) (mode : ℕ)
      → (t : X.State) × (X.write_file p c mode s ≡ (ok tt, t))
        × ((q : Text) → content t q ≡ (if q == p then some c else content s q))
  pub mkdir_all :
      (s : X.State) (p : Text) (mode : ℕ)
      → (t : X.State) × (X.mkdir_all p mode s ≡ (ok tt, t))
        × ((q : Text) → content t q ≡ content s q)
  pub stat :
      (s : X.State) (p c : Text) → content s p ≡ some c → (i : FileInfo) × (X.stat p s ≡ (ok i, s))
  pub now : (s : X.State) (q : Text) → content (X.now s).1 q ≡ content s q
  pub random :
      (s : X.State) (n : ℕ)
      → (b : Text) × (t : X.State) × (X.random n s ≡ (ok b, t))
        × (length b ≡ n)
        × ((q : Text) → content t q ≡ content s q)
  pub random_int :
      (s : X.State) (n : ℕ)
      → 0 < n
      → (i : ℕ) × (t : X.State) × (X.random_int n s ≡ (ok i, t)) × (i < n)
