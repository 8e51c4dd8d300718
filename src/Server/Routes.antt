-- ===== src/Server/Routes.antt =====
-- backend/internal/server/routes.go, and what Start of server.go makes of it. `Dispatch` is
-- http.ServeMux. recoverer, requestLog and limitBody hand a request on as it is: what they do to a
-- panic, to the log and to a long body is outside the requests and states here.
use dropboy.Base.{
  ℤ, pos, int_eq, ℕ, Text, nat_eq, codes, ◌==◌, if◌then◌else◌, List, [], ◌∷◌, ◌++◌, map,
}
use dropboy.Base.Dict.{Dict}
use dropboy.Config.{Config}
use dropboy.Server.Http.{Request, Response, Handler}
use dropboy.Server.Auth.{auth_middleware, host_guard, cors}
use dropboy.Server.RateLimit.{RateLimiter, rate_limit}
use dropboy.Server.Browse.{security_headers}
pub mod Guarded

-- The handlers of the server, by their names.
pub record Handlers (S A : Type 0) : Type 0 where
  pub health : Handler S A
  pub machines : Handler S A
  pub tree : Handler S A
  pub status : Handler S A
  pub folders_list : Handler S A
  pub folders_add : Handler S A
  pub folders_remove : Handler S A
  pub conflicts_list : Handler S A
  pub conflicts_resolve : Handler S A
  pub restore : Handler S A
  pub settings_get : Handler S A
  pub settings_put : Handler S A
  pub file_get : Handler S A
  pub events : Handler S A
  pub pause : Handler S A
  pub resume : Handler S A
  pub sync : Handler S A
  pub unlock : Handler S A
  pub recover : Handler S A
  pub forget_passphrase : Handler S A
  pub spa : Handler S A

-- The limiter of the unlock routes in the server's state, and the clock.
pub record Limiting (S : Type 0) : Type 0 where
  pub clock : S → ℕ
  pub limiter : S → RateLimiter
  pub set_limiter : RateLimiter → S → S

-- Patterns with their handlers.
abbrev pub Routes : Type 0 → Type 0 → Type 0
Routes S A = List (Text × Handler S A)

-- A mux of the routes, as a handler.
abbrev pub Dispatch : Type 0 → Type 0 → Type 0
Dispatch S A = Routes S A → Handler S A

module _ {S A : Type 0} (L : Limiting S) (H : Handlers S A) where
  abbrev pub limited : Text → Handler S A → Handler S A
  limited name = rate_limit name L.clock L.limiter L.set_limiter

  -- The routes of the mux `api`.
  unfoldable pub api_routes : Routes S A
  api_routes =
      (codes "GET /api/v1/machines", H.machines)
      ∷ (codes "GET /api/v1/tree", H.tree)
      ∷ (codes "GET /api/v1/status", H.status)
      ∷ (codes "GET /api/v1/folders", H.folders_list)
      ∷ (codes "POST /api/v1/folders", H.folders_add)
      ∷ (codes "DELETE /api/v1/folders", H.folders_remove)
      ∷ (codes "GET /api/v1/conflicts", H.conflicts_list)
      ∷ (codes "POST /api/v1/conflicts/resolve", H.conflicts_resolve)
      ∷ (codes "POST /api/v1/restore", H.restore)
      ∷ (codes "GET /api/v1/settings", H.settings_get)
      ∷ (codes "PUT /api/v1/settings", H.settings_put)
      ∷ (codes "GET /api/v1/file", H.file_get)
      ∷ (codes "GET /api/v1/events", H.events)
      ∷ (codes "POST /api/v1/pause", H.pause)
      ∷ (codes "POST /api/v1/resume", H.resume)
      ∷ (codes "POST /api/v1/sync", H.sync)
      ∷ (codes "POST /api/v1/unlock", limited (codes "unlock") H.unlock)
      ∷ (codes "POST /api/v1/recover", limited (codes "recover") H.recover)
      ∷ (codes "POST /api/v1/forget-passphrase", limited (codes "forget") H.forget_passphrase)
      ∷ []

  module _ (mux : Dispatch S A) (token : Text) where
    -- registerRoutes
    unfoldable pub routes : Routes S A
    unfolding api_routes
    routes =
        (codes "GET /api/v1/health", H.health)
        ∷ (codes "/api/v1/", auth_middleware token (mux api_routes))
        ∷ (codes "/", H.spa)
        ∷ []

    -- The handler of Start, on a port.
    unfoldable pub serve : (ℤ → Text) → ℤ → Handler S A
    unfolding routes
    serve format_int port = security_headers (host_guard format_int port (cors (mux routes)))

-- The port of New.
unfoldable pub port_of : Config → ℤ
port_of cfg = if cfg.ui.port == pos 0 then pos 7777 else cfg.ui.port
