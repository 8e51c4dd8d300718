-- ===== src/Tests/Routes.antt =====
-- A concrete run of the server's handler.
use dropboy.Base.{
  ℤ, pos, ℕ, Text, text_eq, codes, ◌==◌, if◌then◌else◌, true, false, [], ◌∷◌, ◌≡◌, refl, Bool-cases,
  inl, inr, arith, sym, ◌∙◌,
}
use dropboy.Server.Http.{Request, Handler, no_body}
use dropboy.Server.Auth.{host_allowed, before_colon}
use dropboy.Server.Auth.Guard.{Authorized}
use dropboy.Server.RateLimit.{RateLimiter}
use dropboy.Server.Routes.{Handlers, Limiting, Dispatch, serve}
use dropboy.Server.Routes.Guarded.{Dispatches, serve-Quiet}

abbrev Counter : Type 0
Counter = ℕ × RateLimiter

abbrev still : Handler Counter (Unit {0})
still r headers s = (record { status = 200; headers = headers; body = no_body }, s)

-- A handler that changes the state.
abbrev reset : Handler Counter (Unit {0})
reset r headers (n, l) = (record { status = 200; headers = headers; body = no_body }, (0, l))

abbrev handlers : Handlers Counter (Unit {0})
handlers = record {
  health = still;
  machines = still;
  tree = still;
  status = still;
  folders_list = still;
  folders_add = reset;
  folders_remove = reset;
  conflicts_list = still;
  conflicts_resolve = reset;
  restore = reset;
  settings_get = still;
  settings_put = reset;
  file_get = still;
  events = still;
  pause = reset;
  resume = reset;
  sync = reset;
  unlock = reset;
  recover = reset;
  forget_passphrase = reset;
  spa = still;
}

abbrev limiting : Limiting Counter
limiting = record { clock = λ s. 0; limiter = λ s. s.1; set_limiter = λ l s. (s.0, l) }

-- The first route whose pattern is the path.
abbrev by_path : Dispatch Counter (Unit {0})
by_path [] r headers s = (record { status = 404; headers = headers; body = no_body }, s)
by_path ((pattern, h) ∷ rest) r headers s =
    if pattern == r.url_path then h r headers s else by_path rest r headers s

by_path-Dispatches : Dispatches by_path
by_path-Dispatches [] r headers s quiet = refl
by_path-Dispatches ((pattern, h) ∷ rest) r headers s (here, later) =
    elim (Bool-cases (pattern == r.url_path)) [
      | inl yes_it_is ↦ rw yes_it_is here
      | inr other ↦ rw other (by_path-Dispatches rest r headers s later)
    ]

-- A request of another site, through a name that leads to the loopback address.
abbrev rebound : Request
rebound = record {
  method = codes "POST";
  host = codes "evil.example";
  url_path = codes "/api/v1/";
  remote_addr = codes "127.0.0.1:5";
  headers = [];
  cookies = [];
  query = [];
}

abbrev seven : ℤ → Text
seven n = codes "7"

foreign : host_allowed seven (pos 7) (codes "evil.example") ≡ false
unfolding host_allowed text_eq before_colon
foreign = refl

refused_host : ¬ ((host_allowed seven (pos 7) rebound.host ≡ true) × Authorized (codes "t") rebound)
refused_host (here, authorized) = ground (arith, sym foreign ∙ here)

abbrev no_limit : RateLimiter
no_limit = record { buckets = []; rate = 1; burst = 1; token = 1 }

serve-Quiet_example :
    (serve limiting handlers by_path (codes "t") seven (pos 7) rebound [] (3, no_limit)).1
    ≡ (3, no_limit)
serve-Quiet_example =
    serve-Quiet limiting handlers by_path by_path-Dispatches (codes "t") seven (pos 7)
      (λ r hs s. refl) (λ r hs s. refl) rebound [] (3, no_limit) refused_host
