-- ===== src/Server/Lifecycle/Cores.antt =====
-- The cores that McpServer::start makes and starts.
use mcp_server.Base.{
  ℕ, zero, suc, ◌+◌, ◌≡◌, refl, ap, ◌∙◌, arith, [], some, length, get_elem?, returned, thrown,
}
use mcp_server.Json.{JsonLib}
use mcp_server.Security.Filter.{IpFilter, CidrError, make_filter}
use mcp_server.Security.Filter.Platform.{Sockets}
use mcp_server.Security.Limiter.Doubles.{Doubles}
use mcp_server.Registry.{McpRegistry}
use mcp_server.Builder.{McpServerConfig}
use mcp_server.Server.Admission.{guards_of, start_guards}
use mcp_server.Server.Dispatch.{McpShard}
use mcp_server.Server.Notices.{start}
use mcp_server.Server.Lifecycle.{
  invoke_on_all, ShardState, guarded_shard, start_shard, McpServer, shards_from,
}

module _ (os : Sockets) (fp : Doubles) (js : JsonLib) (W : Type 0) where
  pub get_elem?-shards_from :
      (f : ℕ → ShardState os fp js W) (first count i : ℕ) (c : ShardState os fp js W)
      → get_elem? (shards_from os fp js W f first count) i ≡ some c
      → f (first + i) ≡ c
  unfolding shards_from
  get_elem?-shards_from f first zero i c e = cc
  get_elem?-shards_from f first (suc count) zero c e =
      let same : first + 0 ≡ first = omega arith in ap f same ∙ cc
  get_elem?-shards_from f first (suc count) (suc i) c e =
      let same : first + suc i ≡ suc first + i = omega arith in
      ap f same ∙ get_elem?-shards_from f (suc first) count i c e

  pub length-shards_from :
      (f : ℕ → ShardState os fp js W) (first count : ℕ)
      → length (shards_from os fp js W f first count) ≡ count
  unfolding shards_from
  length-shards_from f first zero = refl
  length-shards_from f first (suc count) = ap suc (length-shards_from f (suc first) count)

  -- Core number `i` of a server that has started: the guards of the policy, all methods, no session.
  pub record IsReady (s : McpServer os fp js W) (i : ℕ) (c : ShardState os fp js W) : Type 0 where
    pub guarded_by : start_guards os fp s.config.security i ≡ returned c.guards
    pub serves :
        c.dispatcher ≡ start js W s.config.name s.config.version s.config.security s.registry
    pub no_session : c.shard.world.sessions.sessions ≡ []
    pub no_request : c.shard.world.requests.pending_client_requests ≡ []

  module _ (config : McpServerConfig) (registry : McpRegistry js (McpShard js W))
      (construct : ℕ → ShardState os fp js W)
      (numbered : (i : ℕ) → (construct i).guards.shard_id ≡ i) where
    abbrev pub started : IpFilter → ℕ → ShardState os fp js W
    started filter i = record (construct i) {
      guards = record {
        security = config.security;
        shard_id = i;
        ip_filter = filter;
        rate_limiter = record { cfg = config.security.rate_limit; buckets = [] };
        circuit_breaker = record { cfg = config.security.circuit_breaker; states = [] };
        log = [];
      };
      dispatcher = start js W config.name config.version config.security registry;
    }

    pub start_shard-started :
        (filter : IpFilter) (i : ℕ)
        → make_filter os config.security.ip_filter ≡ returned filter
        → start_shard os fp js W config registry (construct i) ≡ (returned tt, started filter i)
    unfolding start_shard guarded_shard start_guards guards_of
    start_shard-started filter i e = rw (e, numbered i) refl

    pub all_start :
        (filter : IpFilter) (first count : ℕ)
        → make_filter os config.security.ip_filter ≡ returned filter
        → invoke_on_all
            (start_shard os fp js W config registry)
            (shards_from os fp js W construct first count)
          ≡ (returned tt, shards_from os fp js W (started filter) first count)
    unfolding invoke_on_all shards_from
    all_start filter first zero e = refl
    all_start filter first (suc count) e =
        rw (start_shard-started filter first e, all_start filter (suc first) count e) refl

    start_shard-refused :
        (error : CidrError) (i : ℕ)
        → make_filter os config.security.ip_filter ≡ thrown error
        → start_shard os fp js W config registry (construct i) ≡ (thrown error, construct i)
    unfolding start_shard guarded_shard start_guards guards_of
    start_shard-refused error i e = rw e refl

    none_starts :
        (error : CidrError) (first count : ℕ)
        → make_filter os config.security.ip_filter ≡ thrown error
        → (invoke_on_all
            (start_shard os fp js W config registry)
            (shards_from os fp js W construct first count)).1
          ≡ shards_from os fp js W construct first count
    unfolding invoke_on_all shards_from
    none_starts error first zero e = refl
    none_starts error first (suc count) e =
        rw (start_shard-refused error first e, none_starts error (suc first) count e) refl

    pub none_starts-thrown :
        (error : CidrError) (first count : ℕ)
        → make_filter os config.security.ip_filter ≡ thrown error
        → invoke_on_all
            (start_shard os fp js W config registry)
            (shards_from os fp js W construct first (suc count))
          ≡ (thrown error, shards_from os fp js W construct first (suc count))
    unfolding invoke_on_all shards_from
    none_starts-thrown error first count e =
        rw (start_shard-refused error first e, none_starts error (suc first) count e) refl
