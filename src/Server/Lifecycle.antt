-- ===== src/Server/Lifecycle.antt =====
-- McpServer (include/mcp/server/mcp_server.hh, src/mcp/server/mcp_server.cc): the shards of all cores
-- and the transports, from McpServerBuilder's build (include/mcp/core/builder.hh) over start and the
-- broadcasts to stop.
pub mod Cores
pub mod Transports
pub mod Starting
pub mod Forbidding
pub mod Broadcasts
pub mod Stopping
mod Tests
use mcp_server.Base.{
  ℕ, zero, suc, ◌+◌, true, List, [], ◌∷◌, ◌++◌, if◌then◌else◌, Str, Outcome, returned, thrown,
}
use mcp_server.Json.{JsonLib, JsonError}
use mcp_server.Rpc.Actions.{Action, pure, throw, next, ◌>>=◌, ◌>>◌, update}
use mcp_server.Rpc.Dispatcher.{JsonRpcDispatcher, new_dispatcher}
use mcp_server.Security.Policy.{default_policy}
use mcp_server.Security.Filter.{CidrError}
use mcp_server.Security.Filter.Platform.{Sockets}
use mcp_server.Security.Limiter.Doubles.{Doubles}
use mcp_server.Registry.{
  McpTool, McpResource, McpPrompt, McpRegistry, register_tool, register_resource, register_prompt,
}
use mcp_server.Registry.Methods.{LogLevel, warn}
use mcp_server.Builder.{McpServerConfig}
use mcp_server.Server.Sessions.{no_sessions}
use mcp_server.Server.Requests.{no_requests}
use mcp_server.Server.Admission.{Guards, start_guards}
use mcp_server.Server.Dispatch.{McpShard}
use mcp_server.Server.Notices.{start, stop, notify_resource_updated, broadcast_log_notification}
use mcp_server.Transport.Requests.{Route, sse_routes, streamable_routes}

-- `invoke_on_all`: every core runs it, and the first exception is passed on.
abbrev first_error :
    {E : Type 0} → Outcome E (Unit {0}) → Outcome E (Unit {0}) → Outcome E (Unit {0})
first_error (thrown e) rest = thrown e
first_error (returned tt) rest = rest

unfoldable pub invoke_on_all :
    {E A : Type 0} → (A → Outcome E (Unit {0}) × A) → List A → Outcome E (Unit {0}) × List A
invoke_on_all f [] = (returned tt, [])
invoke_on_all f (c ∷ cs) =
    let (o, c') = f c in let (os, cs') = invoke_on_all f cs in (first_error o os, c' ∷ cs')

-- A transport that has started: where it listens and its routes.
pub data ITransport : Type 0 where
  http_sse_transport streamable_http_transport : ℕ → List Route → ITransport
  stdio_transport : ITransport

-- What `_server.start` or, behind set_routes, `_server.listen` of a transport throws.
pub data OpenError (E : Type 0) : Type 0 where
  not_started not_listening : E → OpenError E

-- What start throws: a CIDR text of the policy, or what opening a transport throws. Where listening
-- fails, the transport's server runs on every core and is not stopped, and the transport, which only
-- McpServer::start holds, is destroyed with it on the way out; seastar does not allow that.
pub data StartError (E : Type 0) : Type 0 where
  bad_policy : CidrError → StartError E
  cannot_start : E → StartError E
  destroyed_started : ITransport → E → StartError E

module _ (os : Sockets) (fp : Doubles) (js : JsonLib) (W : Type 0) where
  open js use {Json}

  pub record ShardState : Type 0 where
    pub guards : Guards os fp
    pub dispatcher : JsonRpcDispatcher js (McpShard js W)
    pub shard : McpShard js W

  -- The object as its constructor leaves it; `level` is that of the program's loggers.
  unfoldable pub new_shard : McpServerConfig → LogLevel → W → List LogLevel → ℕ → ShardState
  new_shard config level program client_log_levels shard_id = record {
    guards = record {
      security = config.security;
      shard_id = shard_id;
      ip_filter = record { whitelist = []; blacklist = []; default_allow = true };
      rate_limiter = record { cfg = default_policy.rate_limit; buckets = [] };
      circuit_breaker = record { cfg = default_policy.circuit_breaker; states = [] };
      log = [];
    };
    dispatcher = new_dispatcher js (McpShard js W);
    shard = record {
      current_session_id = [];
      current_progress_token = [];
      subscriptions = [];
      loggers_level = level;
      client_log_levels = client_log_levels;
      world = record {
        sessions = no_sessions config.security shard_id;
        requests = no_requests js;
        program = program;
      };
    };
  }

  -- `McpShard::start`
  guarded_shard :
      McpServerConfig
      → McpRegistry js (McpShard js W)
      → ShardState
      → Outcome CidrError (Guards os fp)
      → Outcome CidrError (Unit {0}) × ShardState
  guarded_shard config registry c (thrown e) = (thrown e, c)
  guarded_shard config registry c (returned guards) = (
    returned tt,
    record c {
      guards = guards;
      dispatcher = start js W config.name config.version config.security registry;
    },
  )

  unfoldable pub start_shard :
      McpServerConfig
      → McpRegistry js (McpShard js W)
      → ShardState
      → Outcome CidrError (Unit {0}) × ShardState
  unfolding guarded_shard
  start_shard config registry c =
      guarded_shard config registry c (start_guards os fp config.security c.guards.shard_id)

  pub record McpServer : Type 0 where
    pub config : McpServerConfig
    pub registry : McpRegistry js (McpShard js W)
    pub shards : List ShardState
    pub transports : List ITransport

  pub record McpServerBuilder : Type 0 where
    pub config : McpServerConfig
    pub registry : McpRegistry js (McpShard js W)

  abbrev pub add_tool : McpTool js (McpShard js W) → McpServerBuilder → McpServerBuilder
  add_tool t b = record b { registry = register_tool js (McpShard js W) t b.registry }

  abbrev pub add_resource : McpResource js (McpShard js W) → McpServerBuilder → McpServerBuilder
  add_resource t b = record b { registry = register_resource js (McpShard js W) t b.registry }

  abbrev pub add_prompt : McpPrompt js (McpShard js W) → McpServerBuilder → McpServerBuilder
  add_prompt t b = record b { registry = register_prompt js (McpShard js W) t b.registry }

  abbrev pub build : McpServerBuilder → McpServer
  build b = record { config = b.config; registry = b.registry; shards = []; transports = [] }

  abbrev pub add_transport : ITransport → McpServer → McpServer
  add_transport t s = record s { transports = s.transports ++ t ∷ [] }

  -- The cores `first`, `first + 1` and so on.
  unfoldable pub shards_from : (ℕ → ShardState) → ℕ → ℕ → List ShardState
  shards_from construct first zero = []
  shards_from construct first (suc count) =
      construct first ∷ shards_from construct (suc first) count

  abbrev pub levels : ℕ → List LogLevel
  levels zero = []
  levels (suc n) = warn ∷ levels n

  abbrev pub Starting : Type 0 → Type 0
  Starting E = Action (StartError E) McpServer (Unit {0})

  -- `co_await t->start(*this)`; `t` is destroyed if it throws.
  pub listened : {E : Type 0} → ITransport → Outcome (OpenError E) (Unit {0}) → Starting E
  listened t (thrown (not_started e)) = throw (cannot_start e)
  listened t (thrown (not_listening e)) = throw (destroyed_started t e)
  listened t (returned tt) = pure tt

  bad_policy_of : {E : Type 0} → Outcome CidrError (Unit {0}) × List ShardState → Starting E
  bad_policy_of (thrown e, shards) s = (thrown (bad_policy e), record s { shards = shards })
  bad_policy_of (returned tt, shards) s = (returned tt, record s { shards = shards })

  -- What the host gives: the number of cores, the level of the loggers, and what opening
  -- a port returns or throws beside the transports that have started.
  module _ {E : Type 0} (cores : ℕ) (level : LogLevel) (program : W)
      (listen : List ITransport → ℕ → Outcome (OpenError E) (Unit {0})) where
    -- `_shards.start` and `_shards.invoke_on_all(&McpShard::start)`
    start_shards : Starting E
    unfolding invoke_on_all shards_from start_shard new_shard bad_policy_of
    start_shards s =
        bad_policy_of
          (invoke_on_all (start_shard s.config s.registry)
            (shards_from (new_shard s.config level program (levels cores)) 0 cores))
          s

    pub start_http : Starting E
    unfolding listened
    start_http s =
        let t = http_sse_transport s.config.http_port (sse_routes []) in
        if s.config.enable_http
        then (do listened t (listen s.transports s.config.http_port); update (add_transport t)) s
        else (returned tt, s)

    pub start_streamable_http : Starting E
    unfolding listened
    start_streamable_http s =
        let t = streamable_http_transport s.config.streamable_http_port (streamable_routes []) in
        if s.config.enable_streamable_http
        then (do
          listened t (listen s.transports s.config.streamable_http_port)
          update (add_transport t))
            s
        else (returned tt, s)

    pub start_stdio : Starting E
    start_stdio s =
        if s.config.enable_stdio
        then (returned tt, add_transport stdio_transport s)
        else (returned tt, s)

    unfoldable pub start_server : McpServer → Outcome (StartError E) (Unit {0}) × McpServer
    unfolding start_shards start_http start_streamable_http start_stdio
    start_server = do start_shards; start_http; start_streamable_http; start_stdio

  -- `_shards.invoke_on_all` of a member that does not touch the guards.
  on_shard :
      {E : Type 0}
      → (McpShard js W → Outcome E (Unit {0}) × McpShard js W)
      → ShardState
      → Outcome E (Unit {0}) × ShardState
  on_shard f c = let (o, shard) = f c.shard in (o, record c { shard = shard })

  on_shards :
      {E : Type 0}
      → (McpShard js W → Outcome E (Unit {0}) × McpShard js W)
      → McpServer
      → Outcome E (Unit {0}) × McpServer
  unfolding invoke_on_all on_shard
  on_shards f s =
      let (o, shards) = invoke_on_all (on_shard f) s.shards in (o, record s { shards = shards })

  unfoldable pub broadcast_resource_updated :
      Str → McpServer → Outcome JsonError (Unit {0}) × McpServer
  unfolding on_shards
  broadcast_resource_updated uri s = on_shards (notify_resource_updated js W uri) s

  unfoldable pub broadcast_log :
      Str → Str → Json → McpServer → Outcome JsonError (Unit {0}) × McpServer
  unfolding on_shards
  broadcast_log log_level logger_name payload s =
      on_shards (broadcast_log_notification js W log_level logger_name payload) s

  stop_all : List ShardState → List (McpShard js W)
  stop_all [] = []
  stop_all (c ∷ cs) = stop js W c.shard ∷ stop_all cs

  -- `co_await t->stop()` of each transport, in order; one that throws ends the loop.
  module _ {E : Type 0} (stop_transport : ITransport → Outcome E (Unit {0})) where
    abbrev pub stop_transports : List ITransport → Outcome E (Unit {0})
    stop_transports [] = returned tt
    stop_transports (t ∷ ts) =
        let rest = stop_transports ts in
        elim (stop_transport t) [ thrown e ↦ thrown e | returned _ ↦ rest ]

    stop_shards : Outcome E (Unit {0}) → McpServer → Outcome E (List (McpShard js W)) × McpServer
    unfolding stop_all
    stop_shards (thrown e) s = (thrown e, s)
    stop_shards (returned tt) s =
        (returned (stop_all s.shards), record s { shards = []; transports = [] })

    -- What stop throws, or the shards as they were stopped: streams and handlers still see them.
    unfoldable pub stop_server : McpServer → Outcome E (List (McpShard js W)) × McpServer
    unfolding stop_shards
    stop_server s = stop_shards (stop_transports s.transports) s
