-- ===== src/Cli/Client.antt =====
-- backend/internal/cli/api_client.go and callAPI of daemon.go: requests to the daemon. `Net` is what the
-- code calls of net/http. A header has one spelling here, where Set and Get make it canonical.
use dropboy.Base.{
  ℤ, pos, int_eq, int_text, ℕ, Text, text_eq, nat_eq, eq_of_==, sym, ap, codes, ◌==◌, if◌then◌else◌,
  Bool, true, false, not, ◌&&◌, leb, ltb, length, Option, none, some, is_some, [], ◌∷◌, ◌++◌, ◌≡◌,
  ◌≢◌, refl, ◌∙◌, arith, has_prefix-append, trim_prefix-append, join_path, Bool-cases, inl, inr,
}
use dropboy.Base.Dict.{Dict, insert, lookup}
use dropboy.Base.Outcome.{Exec, Outcome, message, wrapping, pure, fail, lift, ◌>>=◌, trying}
use dropboy.Os.{Os}
use dropboy.Config.{Config}
use dropboy.Config.Files.{Yaml, load, dir}
use dropboy.Server.Http.{Request, Handler, get_text}
use dropboy.Server.Auth.{is_mutating, presented_token, promote, auth_middleware}
use dropboy.Server.Auth.Guard.{Authorized, auth_middleware-Authorized}

-- The parts of a URL that NewRequest takes from it.
pub record Url : Type 0 where
  pub host : Text
  pub path : Text
  pub query : Dict Text

pub record Answer : Type 0 where
  pub status_code : ℕ
  pub status : Text
  pub body : Text

pub record Net (S : Type 0) : Type 0 where
  pub parse_url : Text → Outcome Url
  -- Do of a client with its time-out, of a request and its body
  pub send : Request → Option Text → Exec S Answer
  -- strings.TrimSpace, and the verb %d
  pub trim_space : Text → Text
  pub format_int : ℕ → Text

bearer_header : Text → Dict Text
bearer_header token = (codes "Authorization", codes "Bearer " ++ token) ∷ []

csrf_headers : Text → Dict Text
unfolding bearer_header
csrf_headers token = insert (codes "X-Dropboy-CSRF") token (bearer_header token)

-- Whether the method can change something, and whether there is a body.
headers_of : Bool → Bool → Text → Dict Text
unfolding csrf_headers
headers_of false _ token = bearer_header token
headers_of true false token = csrf_headers token
headers_of true true token =
    insert (codes "Content-Type") (codes "application/json") (csrf_headers token)

-- The headers that doAPIRequest sets.
unfoldable pub api_headers : Text → Text → Option Text → Dict Text
unfolding headers_of
api_headers method token body =
    headers_of (not (method == codes "GET") && not (method == codes "HEAD")) (is_some body) token

-- The request of doAPIRequest, as the server sees it. The address of the connection is the system's.
unfoldable pub api_request : Text → Url → Text → Option Text → Text → Request
unfolding api_headers
api_request method url token body remote = record {
  method = method;
  host = url.host;
  url_path = url.path;
  remote_addr = remote;
  headers = api_headers method token body;
  cookies = [];
  query = url.query;
}

module _ (X : Os) (Y : Yaml) (home : Exec X.State Text) (N : Net X.State) (remote : Text) where
  unfoldable pub read_ui_token : Exec X.State Text
  unfolding dir
  read_ui_token = do
    d ← dir X Y home
    data_read ←
        wrapping (codes "read ui.token (is the daemon running?)")
          (X.read_file (join_path d (codes "ui.token")))
    pure (N.trim_space data_read)

  -- What is printed of an answer, if anything is.
  shown : Text → Text → Answer → Exec X.State (Option Text)
  shown method url a =
      if leb 400 a.status_code
      then fail (
          message (
            method
            ++ (codes " "
                ++ (url ++ (codes ": " ++ (a.status ++ (codes ": " ++ N.trim_space a.body)))))))
      else pure (if ltb 0 (length a.body) then some (N.trim_space a.body) else none)

  unfoldable pub do_api_request : Text → Text → Text → Option Text → Exec X.State (Option Text)
  unfolding api_request shown
  do_api_request method url token body = do
    u ← lift (N.parse_url url)
    a ← N.send (api_request method u token body remote) body
    shown method url a

  -- `cfg, _ := config.Load()`, and the port: Load returns an empty config beside its error.
  abbrev port_of : Option Config → ℤ
  port_of none = pos 7777
  port_of (some cfg) = if cfg.ui.port == pos 0 then pos 7777 else cfg.ui.port

  unfoldable pub call_api : Text → Text → Option Text → Exec X.State (Option Text)
  unfolding read_ui_token do_api_request
  call_api method path body = do
    cfg ← trying (load X Y home)
    token ← read_ui_token
    do_api_request method
        (codes "http://127.0.0.1:" ++ (int_text N.format_int (port_of cfg) ++ path)) token body

headers_of-Authorization :
    (mutating with_body : Bool) (token : Text)
    → get_text (codes "Authorization") (headers_of mutating with_body token)
      ≡ codes "Bearer " ++ token
unfolding headers_of get_text lookup insert text_eq
headers_of-Authorization false with_body token = refl
headers_of-Authorization true false token = refl
headers_of-Authorization true true token = refl

headers_of-csrf :
    (with_body : Bool) (token : Text)
    → get_text (codes "X-Dropboy-CSRF") (headers_of true with_body token) ≡ token
unfolding headers_of get_text lookup insert text_eq
headers_of-csrf false token = refl
headers_of-csrf true token = refl

pub safe_methods : (is_mutating (codes "GET") ≡ false) × (is_mutating (codes "HEAD") ≡ false)
unfolding is_mutating text_eq
safe_methods = (refl, refl)

-- A method that can change something is none of the two that have no CSRF header.
mutating-other :
    (method safe : Text)
    → is_mutating method ≡ true
    → is_mutating safe ≡ false
    → (method == safe) ≡ false
mutating-other method safe h k = elim (Bool-cases (method == safe)) [
  | inl same ↦ absurd (ground (arith, sym h ∙ ap is_mutating (eq_of_== method safe same) ∙ k))
  | inr other ↦ other
]

ne_nil : (t : Text) → t ≢ [] → (t == []) ≡ false
ne_nil t h = ground arith

pub bearer_presented :
    (r : Request) (token : Text)
    → token ≢ []
    → get_text (codes "Authorization") r.headers ≡ codes "Bearer " ++ token
    → presented_token r ≡ token
unfolding presented_token
bearer_presented r token h e = rw e (
    rw (has_prefix-append (codes "Bearer ") token, trim_prefix-append (codes "Bearer ") token)
      (rw (ne_nil token h) refl))

-- The token is the bearer, and in the CSRF header where the method can change something.
pub api_request-Authorized :
    (method : Text) (url : Url) (token : Text) (body : Option Text) (remote : Text)
    → token ≢ []
    → Authorized token (api_request method url token body remote)
unfolding api_request api_headers
api_request-Authorized method url token body remote h = record {
  ready = h;
  presented = bearer_presented _ token h (headers_of-Authorization _ _ token);
  csrf = λ m.
      rw
        (
          mutating-other method (codes "GET") m safe_methods.0,
          mutating-other method (codes "HEAD") m safe_methods.1,
        )
        (headers_of-csrf (is_some body) token);
}

-- On a server whose token is not empty, every request that doAPIRequest makes with that token, whatever
-- its method and its URL, passes the session and CSRF checks and reaches the handler.
pub auth_middleware-api_request :
    {S A : Type 0} (next : Handler S A) (method : Text) (url : Url) (token : Text)
    (body : Option Text) (remote : Text) (headers : Dict Text) (s : S)
    → token ≢ []
    → let r = api_request method url token body remote in
      auth_middleware token next r headers s ≡ next r (promote token r headers) s
auth_middleware-api_request next method url token body remote headers s h =
    elim (auth_middleware-Authorized token next (api_request method url token body remote) headers
      s) [
        | inl (let_in, passes) ↦ passes
        | inr (refused, same, answer) ↦
            absurd (refused (api_request-Authorized method url token body remote h))
      ]
