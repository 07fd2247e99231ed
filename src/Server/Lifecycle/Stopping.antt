-- ===== src/Server/Lifecycle/Stopping.antt =====
-- What McpServer::stop leaves of sessions and of requests that wait for a client.
use mcp_server.Base.{
  ℕ, zero, suc, ◌≡◌, refl, ◌≢◌, ap, ◌∙◌, ◌++◌, Outcome, returned, thrown, List, [], ◌∷◌, Option,
  some, nat_eq, Str, lit, get_elem?, lookup, All,
}
use mcp_server.Json.{JsonLib}
use mcp_server.Security.Filter.Platform.{Sockets}
use mcp_server.Security.Limiter.Doubles.{Doubles}
use mcp_server.Server.Sessions.{SseSession, get_session}
use mcp_server.Server.Requests.{Settlement, failure}
use mcp_server.Server.Dispatch.{McpShard}
use mcp_server.Server.Notices.{stop}
use mcp_server.Server.Notices.Stopping.{
  IsEnded, stop_empties, stop-IsEnded, stop-failed, stop-settled,
}
use mcp_server.Server.Lifecycle.{
  ITransport, ShardState, McpServer, stop_transports, stop_shards, stop_server, stop_all,
}

module _ (os : Sockets) (fp : Doubles) (js : JsonLib) (W : Type 0) where
  get_elem?-stop_all :
      (cs : List (ShardState os fp js W)) (i : ℕ) (c : ShardState os fp js W)
      → get_elem? cs i ≡ some c
      → get_elem? (stop_all os fp js W cs) i ≡ some (stop js W c.shard)
  unfolding stop_all
  get_elem?-stop_all [] i c e = cc
  get_elem?-stop_all (d ∷ cs) zero c e = cc
  get_elem?-stop_all (d ∷ cs) (suc i) c e = get_elem?-stop_all cs i c e

  module _ {E : Type 0} (stop_transport : ITransport → Outcome E (Unit {0})) where
    stop_transports-returned :
        (ts : List ITransport)
        → All (λ t. stop_transport t ≡ returned tt) ts
        → stop_transports os fp js W stop_transport ts ≡ returned tt
    stop_transports-returned [] h = refl
    stop_transports-returned (t ∷ ts) (e, h) =
        ap
          (λ (o : Outcome E (Unit {0})). elim o [
            | thrown f ↦ thrown f
            | returned _ ↦ stop_transports os fp js W stop_transport ts
          ])
          e
        ∙ stop_transports-returned ts h

    stop_transports-thrown :
        (before after : List ITransport) (t : ITransport) (e : E)
        → All (λ u. stop_transport u ≡ returned tt) before
        → stop_transport t ≡ thrown e
        → stop_transports os fp js W stop_transport (before ++ t ∷ after) ≡ thrown e
    stop_transports-thrown [] after t e h f = rw f refl
    stop_transports-thrown (u ∷ before) after t e (g, h) f =
        rw g (stop_transports-thrown before after t e h f)

    -- `stop` where the stop of every transport returns: the server has neither transports nor cores. On
    -- each core that it had, every session of the table is inactive and has the empty message, at which
    -- its stream ends, behind those it had, or its queue was full; every request that waited for a
    -- client has its future failed with "server stopped"; every future that no waiting request owned is
    -- as before; and both tables are empty.
    pub stop_server-IsEnded :
        (s : McpServer os fp js W) (i : ℕ) (c : ShardState os fp js W)
        → All (λ t. stop_transport t ≡ returned tt) s.transports
        → get_elem? s.shards i ≡ some c
        → (stopped : List (McpShard js W)) × (h : McpShard js W) × (stop_server os fp js W
              stop_transport s
            ≡ (returned stopped, record s { shards = []; transports = [] }))
          × (get_elem? stopped i ≡ some h)
          × ((id : Str) (k : ℕ) (x : SseSession)
              → get_session c.shard.world.sessions id ≡ some k
              → get_elem? c.shard.world.sessions.heap k ≡ some x
              → IsEnded k x h.world.sessions.heap)
          × ((request cell : ℕ) (v : Option (Settlement js))
              → lookup request c.shard.world.requests.pending_client_requests ≡ some cell
              → get_elem? c.shard.world.requests.futures cell ≡ some v
              → get_elem? h.world.requests.futures cell
                ≡ some (some (failure (lit "server stopped"))))
          × ((other : ℕ)
              → All (λ p. p.1 ≢ other) c.shard.world.requests.pending_client_requests
              → get_elem? h.world.requests.futures other
                ≡ get_elem? c.shard.world.requests.futures other)
          × (h.world.sessions.sessions ≡ [])
          × (h.world.requests.pending_client_requests ≡ [])
    unfolding stop_server stop_shards
    stop_server-IsEnded s i c returns at_ =
        let (no_sessions, no_requests) = stop_empties js W c.shard in
        (
          stop_all os fp js W s.shards,
          stop js W c.shard,
          rw (stop_transports-returned s.transports returns) refl,
          get_elem?-stop_all s.shards i c at_,
          λ id k x e f. stop-IsEnded js W c.shard id k x e f,
          λ request cell v g w. stop-failed js W c.shard request cell v g w,
          λ other free. stop-settled js W c.shard other free,
          no_sessions,
          no_requests,
        )

    -- `stop` where the stops of some transports return and that of the next throws, as that of standard
    -- input does where an exception has ended its thread: stop throws it, and the list of transports
    -- and every core, with its sessions and waiting requests, are as before.
    pub stop_server-throws :
        (s : McpServer os fp js W) (before after : List ITransport) (t : ITransport) (e : E)
        → s.transports ≡ before ++ t ∷ after
        → All (λ u. stop_transport u ≡ returned tt) before
        → stop_transport t ≡ thrown e
        → stop_server os fp js W stop_transport s ≡ (thrown e, s)
    unfolding stop_server stop_shards
    stop_server-throws s before after t e list returns throws =
        ap (λ o. stop_shards os fp js W stop_transport o s)
          (ap (stop_transports os fp js W stop_transport) list
            ∙ stop_transports-thrown before after t e returns throws)
