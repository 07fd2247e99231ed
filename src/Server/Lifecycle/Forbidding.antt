-- ===== src/Server/Lifecycle/Forbidding.antt =====
-- The addresses that a started server refuses, from its policy to the replies of its handlers.
use mcp_server.Base.{
  ℕ, ◌≡◌, sym, ap, ◌∙◌, ◌≢◌, Bool, true, false, List, [], some, leb, length, get_elem?, All,
  Outcome, returned, thrown,
}
use mcp_server.Json.{JsonLib}
use mcp_server.Rpc.Dispatcher.{JsonRpcDispatcher}
use mcp_server.Security.Policy.{SecurityPolicy, forbidden}
use mcp_server.Security.Filter.{IpFilter, CidrError, make_filter}
use mcp_server.Security.Filter.Platform.{Sockets}
use mcp_server.Security.Filter.Blocks.{Reads}
use mcp_server.Security.Filter.Rules.{Rule, IsRule, decides, config, make_filter-decides}
use mcp_server.Security.Limiter.Doubles.{Doubles}
use mcp_server.Registry.Methods.{LogLevel}
use mcp_server.Server.Sessions.{Sessions}
use mcp_server.Server.Admission.{Guards, guards_of, start_guards, check_request, check_body_size}
use mcp_server.Server.Admission.Blocks.{Query, serve, serve-security, start_guards-forbids}
use mcp_server.Server.Dispatch.{McpShard}
use mcp_server.Transport.{Reply, get_client_ip, get_api_key, security_reject}
use mcp_server.Transport.Handlers.{Request, Times, Core}
use mcp_server.Transport.Handlers.Guarding.{Entry, handle, checked, handle_refused}
use mcp_server.Server.Lifecycle.{OpenError, ITransport, ShardState, McpServer, start_server}
use mcp_server.Server.Lifecycle.Starting.{start_server-IsReady}

abbrev returned_value : {E A : Type 0} → A → Outcome E A → A
returned_value a (returned b) = b
returned_value a (thrown e) = a

guards_of-security :
    (os : Sockets) (fp : Doubles) (policy : SecurityPolicy) (i : ℕ) (g : Guards os fp)
    (o : Outcome CidrError IpFilter)
    → guards_of os fp policy i o ≡ returned g
    → g.security ≡ policy
unfolding guards_of
guards_of-security os fp policy i g (returned f) e = ap (λ r. (returned_value g r).security) (sym e)
guards_of-security os fp policy i g (thrown error) e = cc

start_guards-security :
    (os : Sockets) (fp : Doubles) (policy : SecurityPolicy) (i : ℕ) (g : Guards os fp)
    → start_guards os fp policy i ≡ returned g
    → g.security ≡ policy
unfolding start_guards
start_guards-security os fp policy i g e =
    guards_of-security os fp policy i g (make_filter os policy.ip_filter) e

module _ (os : Sockets) (fp : Doubles) (js : JsonLib) (W : Type 0) {E : Type 0} (level : LogLevel)
    (program : W) (listen : List ITransport → ℕ → Outcome (OpenError E) (Unit {0})) where
  -- A server whose policy lists well-formed blocks, on a host where every port can be listened on. On
  -- each core that `start` leaves, after any checks and reports of the guards there, GET /sse, POST
  -- /message, POST /mcp and GET /mcp answer a request from an address that the blocks refuse, with a
  -- body within the limit, by the refusal FORBIDDEN, and change nothing but the guards, which are as
  -- check_request leaves them.
  pub start_server-forbids :
      (cores : ℕ) (s : McpServer os fp js W) (black white : List Rule) (default : Bool) (i : ℕ)
      (c : ShardState os fp js W) (qs : List Query) (entry : Entry)
      (d : JsonRpcDispatcher js (McpShard js W)) (req : Request) (t : Times) (rep : Reply)
      (shard : McpShard js W) (others : List Sessions) (counter x : ℕ)
      → All (IsRule os) black
      → All (IsRule os) white
      → s.config.security.ip_filter ≡ config os black white default
      → ((ts : List ITransport) (port : ℕ) → listen ts port ≡ returned tt)
      → get_elem? (start_server os fp js W cores level program listen s).1.shards i ≡ some c
      → leb (length req.body) s.config.security.size_limits.max_body_bytes ≡ true
      → get_client_ip req.headers ≢ []
      → Reads os (get_client_ip req.headers) x
      → decides black white default x ≡ false
      → let core : Core os fp js W = record {
        here = i;
        guards = serve os fp c.guards qs;
        shard = shard;
        others = others;
        counter = counter;
      } in
        handle os fp js W entry d req t rep core ≡ (
          returned (security_reject rep forbidden),
          record core { guards = (checked os fp js W req t core).1 },
        )
  unfolding check_body_size
  start_server-forbids cores s black white default i c qs entry d req t rep shard others counter x
        hb hw blocks free at_ small known reads refused =
      let (filter, made, _, _, _) = make_filter-decides os black white default hb hw in
      let (u, ends, same, _, ready, _) =
        start_server-IsReady os fp js W level program listen cores s filter
          (ap (make_filter os) blocks ∙ made) free in
      let begun : start_guards os fp s.config.security i ≡ returned c.guards =
        ap (λ k. start_guards os fp k.security i) (sym same)
        ∙ (ready i c (ap (λ r. get_elem? r.1.shards i) (sym ends) ∙ at_)).guarded_by in
      let (g, starts, answer, _, _) =
        start_guards-forbids os fp black white default s.config.security i qs
          (get_client_ip req.headers) (get_api_key req.headers) x t.limiter_time t.breaker_time hb
          hw blocks known reads refused in
      let same_guards : g ≡ c.guards = ap (returned_value g) (sym starts ∙ begun) in
      let core : Core os fp js W = record {
        here = i;
        guards = serve os fp c.guards qs;
        shard = shard;
        others = others;
        counter = counter;
      } in
      let result : (checked os fp js W req t core).0 ≡ forbidden =
        ap
          (λ k.
            (check_request os fp (serve os fp k qs) (get_client_ip req.headers)
              (get_api_key req.headers) t.limiter_time t.breaker_time).0)
          (sym same_guards)
        ∙ answer in
      handle_refused os fp js W entry d req t rep core forbidden (checked os fp js W req t core).1
        (λ e. cc)
        (ap (λ p. leb (length req.body) p.size_limits.max_body_bytes)
            (serve-security os fp c.guards qs
              ∙ start_guards-security os fp s.config.security i c.guards begun)
          ∙ small)
        (ap (λ r. (r, (checked os fp js W req t core).1)) result)
