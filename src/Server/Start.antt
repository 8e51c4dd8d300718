-- ===== src/Server/Start.antt =====
-- New and Start of backend/internal/server/server.go, from the session token to the end of serving.
-- `Listener` is what the code calls of packages net and net/http; the goroutines of the event hub and of the heartbeat
-- are the steps of Server.Events and Server.Api.Heartbeat.
use dropboy.Base.{ℤ, Text, codes, ◌++◌, []}
use dropboy.Base.Outcome.{Exec, Done, Error, wrapping, pure, fail, trying, ◌>>=◌, ◌>>◌}
use dropboy.Os.{Os}
use dropboy.Config.{Config}
use dropboy.Server.Token.{load_or_create_token}
use dropboy.Server.RateLimit.{RateLimiter}
use dropboy.Server.Events.{EventHub, new_event_hub}
use dropboy.Server.Routes.{port_of}

pub record Server : Type 0 where
  pub port : ℤ
  pub cfg : Config
  pub data_dir : Text
  pub token : Text
  pub events : EventHub
  pub unlock_limit : RateLimiter
  pub mutate_limit : RateLimiter

-- New, with the two limiters that it makes.
unfoldable pub new_server : RateLimiter → RateLimiter → Config → Text → Server
unfolding port_of
new_server unlock_limit mutate_limit cfg data_dir = record {
  port = port_of cfg;
  cfg = cfg;
  data_dir = data_dir;
  token = [];
  events = new_event_hub;
  unlock_limit = unlock_limit;
  mutate_limit = mutate_limit;
}

-- How the select at the end of Start comes to an end.
pub data End : Type 0 where
  cancelled : End
  -- Serve returned http.ErrServerClosed, or another error
  closed : End
  failed : Error → End

pub record Listener (S : Type 0) : Type 0 where
  -- net.Listen on an address
  pub listen : Text → Exec S Done
  -- Serve with the handler of the server with a token, up to the end of the select
  pub serve : Text → Exec S End
  -- Shutdown, with 15 seconds
  pub shutdown : Exec S Done

module _ (X : Os) (trim_space : Text → Text) (format_int : ℤ → Text) (L : Listener X.State) where
  ended : End → Exec X.State Done
  ended cancelled = do trying L.shutdown; pure tt
  ended closed = pure tt
  ended (failed e) = fail e

  -- The server as it serves, and what Start returns of it.
  unfoldable pub start : Server → Exec X.State Server
  unfolding ended
  start srv = do
    token ← wrapping (codes "session token") (load_or_create_token X trim_space srv.data_dir)
    let addr = codes "127.0.0.1:" ++ format_int srv.port
    wrapping (codes "listen " ++ addr) (L.listen addr)
    end ← L.serve token
    ended end
    pure (record srv { token = token })
