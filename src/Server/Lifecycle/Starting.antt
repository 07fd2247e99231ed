-- ===== src/Server/Lifecycle/Starting.antt =====
-- What McpServer::start leaves on the cores and in the list of transports.
use mcp_server.Base.{
  ℕ, suc, ◌+◌, ◌≡◌, refl, sym, ap, ◌∙◌, arith, true, List, [], ◌++◌, some, length, get_elem?, subst,
  Outcome, returned, thrown,
}
use mcp_server.Json.{JsonLib}
use mcp_server.Rpc.Dispatcher.{new_dispatcher}
use mcp_server.Rpc.Actions.{next, ◌>>=◌}
use mcp_server.Security.Filter.{IpFilter, CidrError, make_filter}
use mcp_server.Security.Filter.Platform.{Sockets}
use mcp_server.Security.Limiter.Doubles.{Doubles}
use mcp_server.Registry.Methods.{LogLevel}
use mcp_server.Server.Admission.{guards_of, start_guards}
use mcp_server.Server.Dispatch.{McpShard}
use mcp_server.Transport.Requests.{sse_routes, streamable_routes}
use mcp_server.Server.Lifecycle.{
  ITransport, http_sse_transport, streamable_http_transport, bad_policy, OpenError, not_listening,
  destroyed_started, ShardState, new_shard, McpServer, shards_from, levels, start_shards,
  bad_policy_of, start_http, start_streamable_http, start_stdio, start_server,
}
use mcp_server.Server.Lifecycle.Cores.{
  IsReady, get_elem?-shards_from, length-shards_from, started, all_start, none_starts-thrown,
}
use mcp_server.Server.Lifecycle.Transports.{
  http_of, streamable_of, stdio_of, listens, refuses, transports_start,
}

module _ (os : Sockets) (fp : Doubles) (js : JsonLib) (W : Type 0) where
  module _ {E : Type 0} (level : LogLevel) (program : W)
      (listen : List ITransport → ℕ → Outcome (OpenError E) (Unit {0})) where
    abbrev construct : McpServer os fp js W → ℕ → ℕ → ShardState os fp js W
    construct s cores = new_shard os fp js W s.config level program (levels os fp js W cores)

    numbered : (s : McpServer os fp js W) (cores i : ℕ) → (construct s cores i).guards.shard_id ≡ i
    unfolding new_shard
    numbered s cores i = refl

    abbrev ready : McpServer os fp js W → IpFilter → ℕ → ℕ → ShardState os fp js W
    ready s filter cores =
        started os fp js W s.config s.registry (construct s cores) (numbered s cores) filter

    -- The cores, where the policy can be read.
    cores_start :
        (cores : ℕ) (s : McpServer os fp js W) (filter : IpFilter)
        → make_filter os s.config.security.ip_filter ≡ returned filter
        → start_shards os fp js W cores level program listen s ≡ (
          returned tt,
          record s { shards = shards_from os fp js W (ready s filter cores) 0 cores },
        )
    unfolding start_shards bad_policy_of new_shard
    cores_start cores s filter e =
        ap (λ r. bad_policy_of os fp js W r s)
          (all_start os fp js W s.config s.registry (construct s cores) (numbered s cores) filter 0
            cores e)

    ready-IsReady :
        (cores : ℕ) (s : McpServer os fp js W) (filter : IpFilter) (ts : List ITransport) (i : ℕ)
        (c : ShardState os fp js W)
        → make_filter os s.config.security.ip_filter ≡ returned filter
        → get_elem? (shards_from os fp js W (ready s filter cores) 0 cores) i ≡ some c
        → IsReady os fp js W
            (record s {
              shards = shards_from os fp js W (ready s filter cores) 0 cores;
              transports = ts;
            })
            i
            c
    unfolding start_guards guards_of new_shard
    ready-IsReady cores s filter ts i c e f =
        let first : i ≡ 0 + i = omega arith in
        let same =
          ap (ready s filter cores) first
          ∙ get_elem?-shards_from os fp js W (ready s filter cores) 0 cores i c f in
        subst
          (IsReady os fp js W
            (record s {
              shards = shards_from os fp js W (ready s filter cores) 0 cores;
              transports = ts;
            })
            i)
          same
          (record { guarded_by = rw e refl; serves = refl; no_session = refl; no_request = refl })

    -- Where the policy's addresses can be read and every port can be listened on, `start` succeeds: each
    -- core has the guards that the policy makes, all methods, no session and no waiting request, and the
    -- transports that the configuration enables have joined the list in the order HTTP, streamable HTTP,
    -- standard input.
    pub start_server-IsReady :
        (cores : ℕ) (s : McpServer os fp js W) (filter : IpFilter)
        → make_filter os s.config.security.ip_filter ≡ returned filter
        → ((ts : List ITransport) (port : ℕ) → listen ts port ≡ returned tt)
        → (t : McpServer os fp js W) × (start_server os fp js W cores level program listen s
            ≡ (returned tt, t))
          × (t.config ≡ s.config)
          × (length t.shards ≡ cores)
          × ((i : ℕ) (c : ShardState os fp js W)
              → get_elem? t.shards i ≡ some c
              → IsReady os fp js W t i c)
          × (t.transports
              ≡ s.transports ++ (http_of s.config ++ (streamable_of s.config ++ stdio_of s.config)))
    unfolding start_server
    start_server-IsReady cores s filter e free =
        let shards = shards_from os fp js W (ready s filter cores) 0 cores in
        let s1 = record s { shards = shards } in
        let ts =
          s.transports ++ (http_of s.config ++ (streamable_of s.config ++ stdio_of s.config)) in
        (
          record s1 { transports = ts },
          ap
                (next (λ _. ◌>>=◌ (start_http os fp js W cores level program listen) (λ _.
                  ◌>>=◌ (start_streamable_http os fp js W cores level program listen)
                    (λ _. start_stdio os fp js W cores level program listen))))
                (cores_start cores s filter e)
              ∙ transports_start os fp js W level program listen cores s1 free,
          refl,
          length-shards_from os fp js W (ready s filter cores) 0 cores,
          λ i c f. ready-IsReady cores s filter ts i c e f,
          refl,
        )

    -- Where a text of the policy cannot be read, `start` on at least one core throws its error, starts no
    -- transport, and leaves every core without a method.
    pub start_server-bad_policy :
        (more : ℕ) (s : McpServer os fp js W) (error : CidrError)
        → make_filter os s.config.security.ip_filter ≡ thrown error
        → let (outcome, t) = start_server os fp js W (suc more) level program listen s in
          (outcome ≡ thrown (bad_policy error))
          × (t.transports ≡ s.transports)
          × ((i : ℕ) (c : ShardState os fp js W)
              → get_elem? t.shards i ≡ some c
              → c.dispatcher ≡ new_dispatcher js (McpShard js W))
    unfolding start_server start_shards bad_policy_of new_shard
    start_server-bad_policy more s error e =
        let fresh = shards_from os fp js W (construct s (suc more)) 0 (suc more) in
        let cores =
          none_starts-thrown os fp js W s.config s.registry (construct s (suc more))
            (numbered s (suc more)) error 0 more e in
        rw cores (
          refl,
          refl,
          λ i c f. sym (
              ap (λ k. k.dispatcher)
                (get_elem?-shards_from os fp js W (construct s (suc more)) 0 (suc more) i c f)),
        )

    -- Where the policy can be read, the HTTP port can be opened and listening on the port of the enabled
    -- streamable transport throws, `start` ends in the destruction of that transport, whose server has
    -- started and was not stopped. The cores are ready then, the HTTP transport, if it is enabled, is in
    -- the list, and the streamable transport and standard input are not.
    pub start_server-cannot_listen :
        (cores : ℕ) (s : McpServer os fp js W) (filter : IpFilter) (error : E)
        → make_filter os s.config.security.ip_filter ≡ returned filter
        → listen s.transports s.config.http_port ≡ returned tt
        → s.config.enable_streamable_http ≡ true
        → listen (s.transports ++ http_of s.config) s.config.streamable_http_port
          ≡ thrown (not_listening error)
        → let (outcome, t) = start_server os fp js W cores level program listen s in
          (outcome
            ≡ thrown (
                destroyed_started
                  (streamable_http_transport s.config.streamable_http_port (streamable_routes []))
                  error))
          × (t.transports ≡ s.transports ++ http_of s.config)
          × ((i : ℕ) (c : ShardState os fp js W)
              → get_elem? t.shards i ≡ some c
              → IsReady os fp js W t i c)
    unfolding start_server start_http start_streamable_http
    start_server-cannot_listen cores s filter error e free enabled refused =
        let shards = shards_from os fp js W (ready s filter cores) 0 cores in
        let ts = s.transports ++ http_of s.config in
        let s1 = record s { shards = shards } in
        let s2 = record s1 { transports = ts } in
        let stdio = λ (_ : Unit {0}). start_stdio os fp js W cores level program listen in
        let streamable = λ (_ : Unit {0}).
          ◌>>=◌ (start_streamable_http os fp js W cores level program listen) stdio in
        let ends : start_server os fp js W cores level program listen s ≡ (
          thrown (
              destroyed_started
                (streamable_http_transport s.config.streamable_http_port (streamable_routes []))
                error),
          s2,
        ) =
          ap (next (λ _. ◌>>=◌ (start_http os fp js W cores level program listen) streamable))
            (cores_start cores s filter e)
          ∙ ap (next streamable) (
              listens os fp js W level program listen s.config.enable_http
                (listen s.transports s.config.http_port)
                (http_sse_transport s.config.http_port (sse_routes [])) s1 free)
          ∙ ap (next stdio) (
              refuses os fp js W level program listen s.config.enable_streamable_http
                (listen ts s.config.streamable_http_port)
                (streamable_http_transport s.config.streamable_http_port (streamable_routes [])) s2
                error enabled refused) in
        (
          ap (λ r. r.0) ends,
          ap (λ r. r.1.transports) ends,
          subst
              (λ (t : McpServer os fp js W).
                (i : ℕ) (c : ShardState os fp js W)
                → get_elem? t.shards i ≡ some c
                → IsReady os fp js W t i c)
              (sym (ap (λ r. r.1) ends)) (λ i c f. ready-IsReady cores s filter ts i c e f),
        )
