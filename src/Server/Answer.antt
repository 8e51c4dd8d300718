-- ===== src/Server/Answer.antt =====
-- The early returns of a handler: its code is a do block whose steps may turn the request away.
use dropboy.Base.{ℕ, Text, codes, if◌then◌else◌, Bool}
use dropboy.Base.Dict.{Dict}
use dropboy.Base.Outcome.{Exec, Done, Error, Outcome, ok, err, panic}
use dropboy.Server.Http.{Request, Response, Handler, write_json, write_json_error}

pub data Answer (A : Type 0) : Type 0 where
  granted : A → Answer A
  refused : ℕ → Text → Answer A

abbrev pub Serve : Type 0 → Type 0 → Type 0
Serve S A = S → Answer A × S

module _ {S A : Type 0} where
  abbrev pub grant : A → Serve S A
  grant a s = (granted a, s)

  abbrev pub refuse : ℕ → Text → Serve S A
  refuse status msg s = (refused status msg, s)

module _ {A : Type 0} where
  -- A call whose error is answered with a status and the text of the error; a panic is answered by
  -- recoverer.
  abbrev pub answer_of : ℕ → (Error → Text) → Outcome A → Answer A
  answer_of status text (ok a) = granted a
  answer_of status text (err e) = refused status (text e)
  answer_of status text panic = refused 500 (codes "internal error")

  abbrev pub response : ℕ → Dict Text → Answer A → Response A
  response status headers (granted a) = write_json status a headers
  response status headers (refused code msg) = write_json_error code msg headers

module _ {S A B : Type 0} where
  abbrev pub proceed : Answer A → (A → Serve S B) → Serve S B
  proceed (granted a) f s = f a s
  proceed (refused status msg) f s = (refused status msg, s)

  infixl 10 ◌>>=◌ ◌>>◌
  abbrev pub ◌>>=◌ : Serve S A → (A → Serve S B) → Serve S B
  ◌>>=◌ m f s = let (a, s') = m s in proceed a f s'

  abbrev pub ◌>>◌ : Serve S A → Serve S B → Serve S B
  m >> n = m >>= λ _. n

module _ {S A : Type 0} where
  -- The same for a call that works on a state.
  abbrev pub calling : ℕ → (Error → Text) → Exec S A → Serve S A
  calling status text m s = let (r, s') = m s in (answer_of status text r, s')

module _ {S : Type 0} where
  -- `if b { writeJSONError(w, status, msg); return }`
  abbrev pub unless : Bool → ℕ → Text → Serve S Done
  unless b status msg s = if b then (refused status msg, s) else (granted tt, s)

module _ {S A : Type 0} where
  -- The handler that answers with a status where it comes through.
  abbrev pub handler : ℕ → (Request → Serve S A) → Handler S A
  handler status body r headers s = let (a, s') = body r s in (response status headers a, s')
