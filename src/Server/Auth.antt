-- ===== src/Server/Auth.antt =====
-- backend/internal/server/auth.go: the session token, the CSRF header, the Host header and CORS.
-- subtle.ConstantTimeCompare is equality; `format_int` is the verb %d.
pub mod Guard
pub mod Hosts
use dropboy.Base.{
  ℤ, ℕ, Text, text_eq, nat_eq, codes, ◌==◌, if◌then◌else◌, Bool, true, false, not, ◌&&◌, ◌||◌, List,
  [], ◌∷◌, ◌++◌, contains, has_prefix, trim_prefix,
}
use dropboy.Base.Dict.{Dict, insert}
use dropboy.Server.Http.{Request, Response, Handler, Body, no_body, get_text, write_json_error}

unfoldable pub is_mutating : Text → Bool
is_mutating method =
    contains (codes "POST" ∷ codes "PUT" ∷ codes "PATCH" ∷ codes "DELETE" ∷ []) method

-- The token of the Authorization header.
bearer_token : Request → Text
bearer_token r =
    let h = get_text (codes "Authorization") r.headers in
    if has_prefix h (codes "Bearer ") then trim_prefix h (codes "Bearer ") else []

-- The variable `got`: header, then cookie, then query string.
unfoldable pub presented_token : Request → Text
unfolding bearer_token
presented_token r =
    let bearer = bearer_token r in
    let cookie = get_text (codes "dropboy_session") r.cookies in
    if not (bearer == [])
    then bearer
    else if not (cookie == [])
    then cookie
    else get_text (codes "token") r.query

-- http.SetCookie with the session cookie.
session_cookie : Text → Text
session_cookie token =
    codes "dropboy_session="
    ++ (token ++ codes "; Path=/; Max-Age=604800; HttpOnly; SameSite=Strict")

-- The promotion of the query-string token to a cookie.
unfoldable pub promote : Text → Request → Dict Text → Dict Text
unfolding session_cookie
promote expected r headers =
    if not (get_text (codes "token") r.query == [])
    then insert (codes "Set-Cookie") (session_cookie expected) headers
    else headers

module _ {S A : Type 0} where
  unfoldable pub auth_middleware : Text → Handler S A → Handler S A
  auth_middleware expected next r headers s =
      let got = presented_token r in
      let headers' = promote expected r headers in
      if expected == []
      then (write_json_error 503 (codes "server initializing") headers, s)
      else if got == [] || not (got == expected)
      then (write_json_error 401 (codes "invalid or missing token") headers, s)
      else if is_mutating r.method && not (get_text (codes "X-Dropboy-CSRF") r.headers == expected)
      then (write_json_error 403 (codes "missing or invalid CSRF token") headers', s)
      else next r headers' s

-- host[:i] for the first colon at i, or all of it.
unfoldable pub before_colon : Text → Text
unfolding nat_eq
before_colon [] = []
before_colon (c ∷ s) = let rest = before_colon s in if c == b':' then [] else c ∷ rest

-- The test of hostGuard.
unfoldable pub host_allowed : (ℤ → Text) → ℤ → Text → Bool
host_allowed format_int port host =
    let p = format_int port in
    let bare = before_colon host in
    contains ((codes "127.0.0.1:" ++ p) ∷ (codes "localhost:" ++ p) ∷ (codes "[::1]:" ++ p) ∷ [])
      host
    || contains (codes "127.0.0.1" ∷ codes "localhost" ∷ codes "::1" ∷ []) bare

module _ {S A : Type 0} where
  unfoldable pub host_guard : (ℤ → Text) → ℤ → Handler S A → Handler S A
  host_guard format_int port next r headers s =
      if host_allowed format_int port r.host
      then next r headers s
      else (write_json_error 403 (codes "host not allowed") headers, s)

-- The headers that cors adds for the development server.
unfoldable pub cors_headers : Text → Dict Text → Dict Text
cors_headers origin headers =
    if origin == codes "http://localhost:3000" || origin == codes "http://127.0.0.1:3000"
    then insert (codes "Access-Control-Allow-Methods")
        (codes "GET, POST, PUT, PATCH, DELETE, OPTIONS")
        (insert (codes "Access-Control-Allow-Headers")
          (codes "Authorization, Content-Type, X-Dropboy-CSRF")
          (insert (codes "Vary") (codes "Origin") (
            insert (codes "Access-Control-Allow-Credentials") (codes "true")
              (insert (codes "Access-Control-Allow-Origin") origin headers))))
    else headers

module _ {S A : Type 0} where
  unfoldable pub cors : Handler S A → Handler S A
  unfolding cors_headers
  cors next r headers s =
      let headers' = cors_headers (get_text (codes "Origin") r.headers) headers in
      if r.method == codes "OPTIONS"
      then (record { status = 204; headers = headers'; body = no_body }, s)
      else next r headers' s
