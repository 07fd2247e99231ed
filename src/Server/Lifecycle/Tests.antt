-- ===== src/Server/Lifecycle/Tests.antt =====
-- A server on two cores that blacklists 10.1.0.0/16, and the theorems there.
use mcp_server.Base.{
  ℕ, suc, ◌≡◌, ◌≢◌, All, Option, refl, ap, ◌∙◌, arith, true, [], ◌∷◌, ◌++◌, none, some,
  if◌then◌else◌, ◌==◌, nat_eq, Str, str_eq, str_beq, lit, length, get_elem?, lookup, insert, List,
  Outcome, returned, thrown,
}
use mcp_server.Json.Packed.{packed}
use mcp_server.Rpc.Dispatcher.{new_dispatcher}
use mcp_server.Security.Policy.{default_policy, forbidden}
use mcp_server.Security.Filter.Host.{host, quad}
use mcp_server.Security.Filter.Rules.{Rule, IsRule, decides, config, cidr_text, make_filter-decides}
use mcp_server.Security.Limiter.Whole.{whole}
use mcp_server.Registry.Methods.{info}
use mcp_server.Builder.{McpServerConfig, default_config}
use mcp_server.Server.Sessions.{SseSession, Sessions, new_session, no_sessions, get_session}
use mcp_server.Server.Requests.{Settlement, failure}
use mcp_server.Server.Admission.Blocks.{checks, serve}
use mcp_server.Server.Dispatch.{McpShard}
use mcp_server.Server.Notices.Audience.{updated}
use mcp_server.Server.Notices.Stopping.{IsEnded}
use mcp_server.Transport.{security_reject, get_client_ip}
use mcp_server.Transport.Handlers.{Request, Times, Core, fresh_reply}
use mcp_server.Transport.Handlers.Guarding.{post_mcp, handle, checked}
use mcp_server.Transport.Requests.{streamable_routes}
use mcp_server.Server.Lifecycle.{
  ITransport, OpenError, not_listening, destroyed_started, streamable_http_transport, ShardState,
  McpServer, start_server, new_shard, stdio_transport, stop_server,
}
use mcp_server.Server.Lifecycle.Cores.{IsReady}
use mcp_server.Server.Lifecycle.Forbidding.{start_server-forbids}
use mcp_server.Server.Lifecycle.Stopping.{stop_server-IsEnded, stop_server-throws}
use mcp_server.Server.Lifecycle.Transports.{http_of, streamable_of, stdio_of}
use mcp_server.Server.Lifecycle.Starting.{start_server-IsReady, start_server-cannot_listen}

abbrev block : Rule
block = record { text = lit "10.1.0.0"; address = quad 10 1 0 0; prefix = 16 }

block-IsRule : IsRule host block
unfolding lit str_beq
block-IsRule = record {
  plain = omega arith;
  reads = (refl, omega arith, omega arith);
  short = omega arith;
}

abbrev settings : McpServerConfig
settings = record default_config {
  enable_streamable_http = true;
  security = record default_policy { ip_filter = config host (block ∷ []) [] true };
}

abbrev Server : Type 0
Server = McpServer host whole packed ℕ

abbrev server : Server
server = record {
  config = settings;
  registry = record { tools = []; resources = []; prompts = [] };
  shards = [];
  transports = [];
}

-- What start leaves.
abbrev free : List ITransport → ℕ → Outcome (OpenError ℕ) (Unit {0})
free ts port = returned tt

start_server-IsReady_example :
    let filter = (make_filter-decides host (block ∷ []) [] true (block-IsRule, tt) tt).0 in
    (t : Server) × (start_server host whole packed ℕ 2 info 7 free server ≡ (returned tt, t))
    × (t.config ≡ settings)
    × (length t.shards ≡ 2)
    × ((i : ℕ) (c : ShardState host whole packed ℕ)
        → get_elem? t.shards i ≡ some c
        → IsReady host whole packed ℕ t i c)
    × (t.transports ≡ [] ++ (http_of settings ++ (streamable_of settings ++ stdio_of settings)))
start_server-IsReady_example =
    let (filter, made, _, _, _) =
      make_filter-decides host (block ∷ []) [] true (block-IsRule, tt) tt in
    start_server-IsReady host whole packed ℕ info 7 free 2 server filter made (λ ts port. refl)

-- A policy with a prefix of 33.
abbrev long : Rule
long = record { text = lit "10.0.0.0"; address = quad 10 0 0 0; prefix = 33 }

abbrev misread : Server
misread = record server {
  config = record default_config {
    security = record default_policy {
      ip_filter = record { whitelist = cidr_text long ∷ []; blacklist = []; default_allow = true };
    };
  };
}

-- A host on which the port of the streamable transport is taken.
abbrev taken : List ITransport → ℕ → Outcome (OpenError ℕ) (Unit {0})
taken ts port = if port == 8081 then thrown (not_listening 98) else returned tt

start_server-cannot_listen_example :
    let (outcome, t) = start_server host whole packed ℕ 2 info 7 taken server in
    (outcome
      ≡ thrown (destroyed_started (streamable_http_transport 8081 (streamable_routes [])) 98))
    × (t.transports ≡ [] ++ http_of settings)
    × ((i : ℕ) (c : ShardState host whole packed ℕ)
        → get_elem? t.shards i ≡ some c
        → IsReady host whole packed ℕ t i c)
start_server-cannot_listen_example =
    let (filter, made, _, _, _) =
      make_filter-decides host (block ∷ []) [] true (block-IsRule, tt) tt in
    start_server-cannot_listen host whole packed ℕ info 7 taken 2 server filter 98 made refl refl
      refl

-- A core of a server that runs, with a session that follows a resource and a request that waits.
abbrev sessions : Sessions
sessions = record (no_sessions default_policy 0) {
  heap = new_session ∷ [];
  sessions = insert (lit "s0_1") 0 [];
}

abbrev shard : McpShard packed ℕ
shard = record {
  current_session_id = [];
  current_progress_token = [];
  subscriptions = (lit "file", lit "s0_1" ∷ []) ∷ [];
  loggers_level = info;
  client_log_levels = info ∷ [];
  world = record {
    sessions = sessions;
    requests = record {
      server_request_counter = 1;
      pending_client_requests = insert 1 1 [];
      futures = some (failure (lit "client error")) ∷ none ∷ [];
    };
    program = 7;
  };
}

abbrev core : ShardState host whole packed ℕ
core = record (new_shard host whole packed ℕ settings info 7 (info ∷ []) 0) { shard = shard }

abbrev running : Server
running = record server { shards = core ∷ []; transports = stdio_transport ∷ [] }

abbrev msg : Str
msg = b'=' ∷ updated packed ℕ (lit "file")

-- Every transport stops, and none does.
abbrev stops : ITransport → Outcome ℕ (Unit {0})
stops t = returned tt

abbrev fails : ITransport → Outcome ℕ (Unit {0})
fails t = thrown 5

stop_server-IsEnded_example :
    (stopped : List (McpShard packed ℕ)) × (h : McpShard packed ℕ) × (stop_server host whole packed
        ℕ stops running
      ≡ (returned stopped, record running { shards = []; transports = [] }))
    × (get_elem? stopped 0 ≡ some h)
    × ((id : Str) (k : ℕ) (x : SseSession)
        → get_session sessions id ≡ some k
        → get_elem? sessions.heap k ≡ some x
        → IsEnded k x h.world.sessions.heap)
    × ((request cell : ℕ) (v : Option (Settlement packed))
        → lookup request shard.world.requests.pending_client_requests ≡ some cell
        → get_elem? shard.world.requests.futures cell ≡ some v
        → get_elem? h.world.requests.futures cell ≡ some (some (failure (lit "server stopped"))))
    × ((other : ℕ)
        → All (λ p. p.1 ≢ other) shard.world.requests.pending_client_requests
        → get_elem? h.world.requests.futures other ≡ get_elem? shard.world.requests.futures other)
    × (h.world.sessions.sessions ≡ [])
    × (h.world.requests.pending_client_requests ≡ [])
stop_server-IsEnded_example =
    stop_server-IsEnded host whole packed ℕ stops running 0 core (refl, tt) refl

stop_server-throws_example : stop_server host whole packed ℕ fails running ≡ (thrown 5, running)
stop_server-throws_example =
    stop_server-throws host whole packed ℕ fails running [] [] stdio_transport 5 refl tt refl

-- A POST from the blacklisted block.
abbrev request : Request
request = record {
  headers = record {
    x_real_ip = lit "10.1.2.3";
    x_forwarded_for = [];
    x_api_key = [];
    authorization = [];
  };
  session_id = [];
  accept = [];
  body = [];
}

abbrev times : Times
times = record { limiter_time = 5; breaker_time = 6; outcome_time = 7 }

first_of :
    {A : Type 0} (xs : List A) (n : ℕ) → length xs ≡ suc n → (x : A) × (get_elem? xs 0 ≡ some x)
first_of [] n e = absurd (omega (arith, e))
first_of (x ∷ xs) n e = (x, refl)

-- The first of two cores that start leaves.
first_core :
    (c : ShardState host whole packed ℕ) × (get_elem?
        (start_server host whole packed ℕ 2 info 7 free server).1.shards
        0
      ≡ some c)
first_core =
    let (filter, made, _, _, _) =
      make_filter-decides host (block ∷ []) [] true (block-IsRule, tt) tt in
    let (t, ends, _, counted, _, _) =
      start_server-IsReady host whole packed ℕ info 7 free 2 server filter made (λ ts port. refl) in
    first_of (start_server host whole packed ℕ 2 info 7 free server).1.shards 1
      (ap (λ r. length r.1.shards) ends ∙ counted)

abbrev asked : Core host whole packed ℕ
asked = record {
  here = 0;
  guards = serve host whole first_core.0.guards (checks (lit "10.0.0.1") [] 1 2 ∷ []);
  shard = shard;
  others = [];
  counter = 0;
}

start_server-forbids_example :
    handle host whole packed ℕ post_mcp
      (new_dispatcher packed (McpShard packed ℕ))
      request
      times
      fresh_reply
      asked
    ≡ (
      returned (security_reject fresh_reply forbidden),
      record asked { guards = (checked host whole packed ℕ request times asked).1 },
    )
unfolding decides lit str_beq get_client_ip
start_server-forbids_example =
    start_server-forbids host whole packed ℕ info 7 free 2 server (block ∷ []) [] true 0
      first_core.0 (checks (lit "10.0.0.1") [] 1 2 ∷ []) post_mcp
      (new_dispatcher packed (McpShard packed ℕ)) request times fresh_reply shard [] 0
      (quad 10 1 2 3) (block-IsRule, tt) tt refl (λ ts port. refl) first_core.1 refl (λ e. cc)
      (refl, omega arith, omega arith) refl
