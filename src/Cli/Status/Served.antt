-- ===== src/Cli/Status/Served.antt =====
-- The status command against the status route of the server.
use dropboy.Base.{
  ℕ, Text, text_eq, nat_eq, ◌==◌, if◌then◌else◌, true, false, Option, none, some, [], ◌≡◌, ◌≢◌,
  refl, ◌∙◌, ap, inl, inr, Bool-cases, arith,
}
use dropboy.Base.Dict.{Dict, lookup}
use dropboy.Base.Outcome.{Exec, ok}
use dropboy.Os.{Os}
use dropboy.Config.{Config}
use dropboy.Config.Files.{Yaml}
use dropboy.Server
use dropboy.Server.Http.{Request, Response, Handler, payload, write_json, get_text}
use dropboy.Server.Answer.{handler}
use dropboy.Server.Api.{Engine, System, Server, Reply}
use dropboy.Server.Api.Control.{handle_status}
use dropboy.Server.Auth.{auth_middleware}
use dropboy.Server.Auth.Guard.{Authorized, auth_middleware-Authorized}
use dropboy.Cli.Client.{Net, Url, Answer, read_ui_token, bearer_presented, safe_methods}
use dropboy.Cli.Status.{ApiStatus, Shown, status_url, status_request, fetch_daemon_status}

module _ (G : Engine) (S : System) where
  -- The status route, behind the session check.
  abbrev pub status_route : Text → Handler (Server G S) Reply
  status_route token = auth_middleware token (handler 200 (λ r. handle_status G S))

  -- What a status should say, from the server's config and engine.
  abbrev pub expected : Config → Option G.State → Text → ApiStatus
  expected cfg none last = record {
    running = true;
    locked = false;
    paused = false;
    queue_uploads = 0;
    queue_downloads = 0;
    bytes_up = 0;
    bytes_down = 0;
    conflicts = 0;
    last_sync_at = last;
    bucket = cfg.bucket;
    region = cfg.region;
    machine_id = cfg.machine_id;
  }
  expected cfg (some g) last = record {
    running = true;
    locked = G.locked g;
    paused = (G.stats g).paused;
    queue_uploads = (G.stats g).queue_up;
    queue_downloads = (G.stats g).queue_down;
    bytes_up = (G.stats g).bytes_up;
    bytes_down = (G.stats g).bytes_down;
    conflicts = (G.stats g).conflicts;
    last_sync_at = last;
    bucket = cfg.bucket;
    region = cfg.region;
    machine_id = cfg.machine_id;
  }

  -- The time of the last pass, or that of the request.
  abbrev pub last_of : Option G.State → ℕ → ℕ
  last_of none t = t
  last_of (some g) t = if (G.stats g).last_run == 0 then t else (G.stats g).last_run

  -- The fields of the JSON, which the two sides spell alike.
  abbrev pub decoded : (ℕ → Text) → Server.Api.Status → ApiStatus
  decoded format_time st = record {
    running = st.running;
    locked = st.locked;
    paused = st.paused;
    queue_uploads = st.queue_uploads;
    queue_downloads = st.queue_downloads;
    bytes_up = st.bytes_up;
    bytes_down = st.bytes_down;
    conflicts = st.conflicts;
    last_sync_at = format_time st.last_sync_at;
    bucket = st.bucket;
    region = st.region;
    machine_id = st.machine_id;
  }

  handle_status-expected :
      (format_time : ℕ → Text) (srv : Server G S)
      → (st : Server.Api.Status) × ((handle_status G S srv).0
          ≡ Server.Answer.granted (Reply.status st))
        × (decoded format_time st
            ≡ expected srv.cfg srv.engine (format_time (last_of srv.engine (S.now srv.system).0)))
  unfolding handle_status nat_eq
  handle_status-expected format_time srv = handled srv.engine refl
    where
      handled :
          (e : Option G.State)
          → srv.engine ≡ e
          → (st : Server.Api.Status) × ((handle_status G S srv).0
              ≡ Server.Answer.granted (Reply.status st))
            × (decoded format_time st
                ≡ expected srv.cfg srv.engine
                    (format_time (last_of srv.engine (S.now srv.system).0)))
      handled none h = rw h (_, refl, refl)
      handled (some g) h = rw h (elim (Bool-cases ((G.stats g).last_run == 0)) [
        | inl never ↦ rw never (_, refl, refl)
        | inr once ↦ rw once (_, refl, refl)
      ])

module _ (G : Engine) (S : System) (X : Os) (Y : Yaml) (home : Exec X.State Text) (N : Net X.State)
    (remote : Text) (V : Shown) (token : Text) where
  -- A request comes to the route of a server in this state, and its answer comes back; the JSON of a
  -- status is read as it was written.
  pub record Connected (srv : Server G S) : Type 0 where
    pub sent_headers : Dict Text
    pub answer : Response Reply → Answer
    pub format_time : ℕ → Text
    pub send :
        (r : Request) (body : Option Text) (s : X.State)
        → (t : X.State) × (N.send r body s
            ≡ (ok (answer (status_route G S token r sent_headers srv).0), t))
    pub status_code : (a : Response Reply) → (answer a).status_code ≡ a.status
    pub body :
        (a : Response Reply) (st : Server.Api.Status)
        → a.body ≡ payload (Reply.status st)
        → V.unmarshal (answer a).body ≡ ok (decoded G S format_time st)

  status_request-Authorized :
      (u : Url) → token ≢ [] → Authorized token (status_request u token remote)
  unfolding status_request get_text lookup text_eq
  status_request-Authorized u h = record {
    ready = h;
    presented = bearer_presented _ token h refl;
    csrf = λ m. absurd (ground (arith, safe_methods.0));
  }

  status_route-let_in :
      (u : Url) (headers : Dict Text) (srv : Server G S)
      → token ≢ []
      → (h : Dict Text) × (status_route G S token (status_request u token remote) headers srv
          ≡ handler 200 (λ r. handle_status G S) (status_request u token remote) h srv)
  status_route-let_in u headers srv h =
      elim (auth_middleware-Authorized token (handler 200 (λ r. handle_status G S))
        (status_request u token remote) headers srv) [
          | inl (in_, passes) ↦ (_, passes)
          | inr (out, same, answer) ↦ absurd (out (status_request-Authorized u h))
        ]

  answered :
      (u : Url) (srv : Server G S) (C : Connected srv)
      → token ≢ []
      → (h : Dict Text) × (st : Server.Api.Status) × ((status_route G S token
            (status_request u token remote)
            C.sent_headers
            srv).0
          ≡ write_json 200 (Reply.status st) h)
        × (decoded G S C.format_time st
            ≡ expected G S srv.cfg srv.engine
                (C.format_time (last_of G S srv.engine (S.now srv.system).0)))
  answered u srv C h =
      let (headers, passes) = status_route-let_in u C.sent_headers srv h in
      let (st, given, same) = handle_status-expected G S C.format_time srv in
      (headers, st, rw (passes, given), same)

  -- Where the token file has the token of the server, which is not empty, the URL can be parsed and the
  -- request comes to the server, fetchDaemonStatus returns what the server's config and engine say: an
  -- engine's lock, pause, queues, bytes and conflicts, and the time of its last pass, or of the request
  -- where there was none; without an engine a status that is neither locked nor paused, with zeros.
  pub fetch_daemon_status-expected :
      (srv : Server G S) (C : Connected srv) (cfg : Config) (s s' : X.State) (u : Url)
      → token ≢ []
      → read_ui_token X Y home N remote s ≡ (ok token, s')
      → N.parse_url (status_url X Y home N remote V cfg) ≡ ok u
      → (fetch_daemon_status X Y home N remote V cfg s).0
        ≡ ok (
            expected G S srv.cfg srv.engine
              (C.format_time (last_of G S srv.engine (S.now srv.system).0)))
  unfolding fetch_daemon_status write_json
  fetch_daemon_status-expected srv C cfg s s' u h read parsed =
      let (t, sent) = C.send (status_request u token remote) none s' in
      let (headers, st, given, same) = answered u srv C h in
      rw (read, parsed, sent) (rw (C.status_code, given) (C.body _ st refl ∙ ap ok same))
