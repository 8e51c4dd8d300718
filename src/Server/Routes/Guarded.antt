-- ===== src/Server/Routes/Guarded.antt =====
-- What a request must have to reach the API.
use dropboy.Base.{ℤ, Text, text_eq, codes, ◌==◌, true, [], ◌∷◌, ◌≡◌, refl, Bool-cases, inl, inr}
use dropboy.Base.Dict.{Dict}
use dropboy.Server.Http.{Request, Handler}
use dropboy.Server.Auth.{auth_middleware, host_allowed, host_guard, cors}
use dropboy.Server.Auth.Guard.{Authorized, auth_middleware-Authorized}
use dropboy.Server.Browse.{security_headers}
use dropboy.Server.Routes.{Handlers, Limiting, Routes, Dispatch, api_routes, routes, serve}

-- A handler leaves the state as it was when it answers a request.
abbrev pub Quiet : {S A : Type 0} → Handler S A → Request → Dict Text → S → Type 0
Quiet h r headers s = (h r headers s).1 ≡ s

abbrev pub AllQuiet : {S A : Type 0} → Routes S A → Request → Dict Text → S → Type 0
AllQuiet [] r headers s = Unit {0}
AllQuiet ((pattern, h) ∷ rest) r headers s = Quiet h r headers s × AllQuiet rest r headers s

-- A mux answers by a handler of its routes or by itself, with no effect on the state.
abbrev pub Dispatches : {S A : Type 0} → Dispatch S A → Type 0
Dispatches {S} {A} mux =
    (table : Routes S A) (r : Request) (headers : Dict Text) (s : S)
    → AllQuiet table r headers s
    → Quiet (mux table) r headers s

module _ {S A : Type 0} (L : Limiting S) (H : Handlers S A) (mux : Dispatch S A)
    (dispatches : Dispatches mux) (token : Text) (format_int : ℤ → Text) (port : ℤ)
    (health_quiet : (r : Request) (headers : Dict Text) (s : S) → Quiet H.health r headers s)
    (spa_quiet : (r : Request) (headers : Dict Text) (s : S) → Quiet H.spa r headers s) where
  cors-Quiet :
      (h : Handler S A) (r : Request) (headers : Dict Text) (s : S)
      → ((hs : Dict Text) → Quiet h r hs s)
      → Quiet (cors h) r headers s
  unfolding cors
  cors-Quiet h r headers s quiet = elim (Bool-cases (r.method == codes "OPTIONS")) [
    | inl preflight ↦ rw preflight refl
    | inr other ↦ rw other (quiet _)
  ]

  host_guard-Quiet :
      (h : Handler S A) (r : Request) (headers : Dict Text) (s : S)
      → ((host_allowed format_int port r.host ≡ true) → Quiet h r headers s)
      → Quiet (host_guard format_int port h) r headers s
  unfolding host_guard
  host_guard-Quiet h r headers s quiet = elim (Bool-cases (host_allowed format_int port r.host)) [
    | inl here ↦ rw here (quiet here)
    | inr elsewhere ↦ rw elsewhere refl
  ]

  routes-Quiet :
      (r : Request) (headers : Dict Text) (s : S)
      → ¬ Authorized token r
      → Quiet (mux (routes L H mux token)) r headers s
  unfolding routes
  routes-Quiet r headers s h =
      let guarded : Quiet (auth_middleware token (mux (api_routes L H))) r headers s =
        elim (auth_middleware-Authorized token (mux (api_routes L H)) r headers s) [
          | inl (authorized, passes) ↦ absurd (h authorized)
          | inr (refused, same, answer) ↦ same
        ] in
      dispatches _ r headers s (health_quiet r headers s, (guarded, (spa_quiet r headers s, tt)))

  -- Where the mux answers by a handler of its routes or else leaves the state as it is, as the health
  -- check and the page do, a request whose host is not one of the allowed ones, or that does not show
  -- the session token as it must, changes nothing in the server's state, whatever its path and whatever
  -- the handlers of the API do.
  pub serve-Quiet :
      (r : Request) (headers : Dict Text) (s : S)
      → ¬ ((host_allowed format_int port r.host ≡ true) × Authorized token r)
      → Quiet (serve L H mux token format_int port) r headers s
  unfolding serve security_headers
  serve-Quiet r headers s h =
      host_guard-Quiet _ r _ s (λ here.
        cors-Quiet _ r _ s (λ hs. routes-Quiet r hs s (λ authorized. h (here, authorized))))
