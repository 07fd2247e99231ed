-- ===== src/Transport/Handlers/Guarding.antt =====
-- What the checks keep out of a handler.
use mcp_server.Base.{◌≡◌, refl, ap, ◌∙◌, ◌≢◌, ◌≤◌, ◌<◌, true, false, length, returned}
use mcp_server.Json.{JsonLib}
use mcp_server.Rpc.Dispatcher.{JsonRpcDispatcher}
use mcp_server.Security.Policy.{
  SecurityCheckResult, ok, forbidden, unauthorized, too_many_requests, service_unavailable,
  connection_limit, payload_too_large,
}
use mcp_server.Security.Filter.Platform.{Sockets}
use mcp_server.Security.Limiter.Doubles.{Doubles}
use mcp_server.Server.Admission.{Guards, check_request, check_body_size}
use mcp_server.Server.Dispatch.{McpShard}
use mcp_server.Transport.{Reply, get_client_ip, get_api_key, security_reject}
use mcp_server.Transport.Refusals.{security_reject-error_body}
use mcp_server.Transport.Handlers.{
  Request, Times, Core, Answer, start_sse, start_get, run_message, run_post, refuse_unless_ok,
  guarded, sized, handle_sse, handle_message, handle_post, handle_get,
}

pub data Entry : Type 0 where
  get_sse message post_mcp get_mcp : Entry

module _ (os : Sockets) (fp : Doubles) (js : JsonLib) (W : Type 0) where
  abbrev pub handle :
      Entry
      → JsonRpcDispatcher js (McpShard js W)
      → Request
      → Times
      → Reply
      → Core os fp js W
      → Answer os fp js W
  handle get_sse d = handle_sse os fp js W
  handle message d = handle_message os fp js W d
  handle post_mcp d = handle_post os fp js W d
  handle get_mcp d = handle_get os fp js W

  abbrev pub checked : Request → Times → Core os fp js W → SecurityCheckResult × Guards os fp
  checked req t c =
      check_request os fp c.guards (get_client_ip req.headers) (get_api_key req.headers)
        t.limiter_time t.breaker_time

  refused_at :
      (rep : Reply) (next : Core os fp js W → Answer os fp js W) (c : Core os fp js W)
      (r : SecurityCheckResult) (g : Guards os fp)
      → r ≢ ok
      → refuse_unless_ok os fp js W rep next c (r, g)
        ≡ (returned (security_reject rep r), record c { guards = g })
  refused_at rep next c ok g n = absurd (n refl)
  refused_at rep next c forbidden g n = refl
  refused_at rep next c unauthorized g n = refl
  refused_at rep next c too_many_requests g n = refl
  refused_at rep next c service_unavailable g n = refl
  refused_at rep next c connection_limit g n = refl
  refused_at rep next c payload_too_large g n = refl

  guarded_refused :
      (req : Request) (t : Times) (rep : Reply) (next : Core os fp js W → Answer os fp js W)
      (c : Core os fp js W) (r : SecurityCheckResult) (g : Guards os fp)
      → r ≢ ok
      → checked req t c ≡ (r, g)
      → guarded os fp js W req t rep next c
        ≡ (returned (security_reject rep r), record c { guards = g })
  unfolding guarded
  guarded_refused req t rep next c r g n e =
      ap (refuse_unless_ok os fp js W rep next c) e ∙ refused_at rep next c r g n

  pub sized_through :
      (req : Request) (rep : Reply) (next : Core os fp js W → Answer os fp js W)
      (c : Core os fp js W)
      → check_body_size os fp c.guards (length req.body) ≡ true
      → sized os fp js W req rep next c ≡ next c
  unfolding sized
  sized_through req rep next c e = rw e refl

  pub handle_refused :
      (entry : Entry) (d : JsonRpcDispatcher js (McpShard js W)) (req : Request) (t : Times)
      (rep : Reply) (c : Core os fp js W) (r : SecurityCheckResult) (g : Guards os fp)
      → r ≢ ok
      → check_body_size os fp c.guards (length req.body) ≡ true
      → checked req t c ≡ (r, g)
      → handle entry d req t rep c ≡ (returned (security_reject rep r), record c { guards = g })
  unfolding handle_sse handle_message handle_post handle_get
  handle_refused get_sse d req t rep c r g n e f =
      guarded_refused req t rep (start_sse os fp js W req rep) c r g n f
  handle_refused message d req t rep c r g n e f =
      let next = run_message os fp js W d req t rep in
      sized_through req rep (guarded os fp js W req t rep next) c e
      ∙ guarded_refused req t rep next c r g n f
  handle_refused post_mcp d req t rep c r g n e f =
      let next = run_post os fp js W d req t rep in
      sized_through req rep (guarded os fp js W req t rep next) c e
      ∙ guarded_refused req t rep next c r g n f
  handle_refused get_mcp d req t rep c r g n e f =
      guarded_refused req t rep (start_get os fp js W req rep) c r g n f

  -- GET /sse, POST /message, POST /mcp and GET /mcp, with a body within the limit. A request that
  -- check_request does not let through is answered with that refusal, whose status is 4xx or 5xx,
  -- and changes nothing but the guards, as check_request leaves them: the dispatcher is not asked,
  -- no session is made, nothing is pushed, and no outcome is recorded. With a longer body the two
  -- POSTs answer 413 and change nothing at all.
  pub handle-security_reject :
      (entry : Entry) (d : JsonRpcDispatcher js (McpShard js W)) (req large : Request) (t : Times)
      (rep : Reply) (c : Core os fp js W) (r : SecurityCheckResult) (g : Guards os fp)
      → r ≢ ok
      → check_body_size os fp c.guards (length req.body) ≡ true
      → check_body_size os fp c.guards (length large.body) ≡ false
      → checked req t c ≡ (r, g)
      → (handle entry d req t rep c ≡ (returned (security_reject rep r), record c { guards = g }))
        × (400 ≤ (security_reject rep r).status)
        × ((security_reject rep r).status < 600)
        × (handle message d large t rep c ≡ (returned (security_reject rep payload_too_large), c))
        × (handle post_mcp d large t rep c ≡ (returned (security_reject rep payload_too_large), c))
  unfolding handle_message handle_post sized
  handle-security_reject entry d req large t rep c r g n small big e =
      let (low, high, _, _) = security_reject-error_body rep r n in
      (handle_refused entry d req t rep c r g n small e, low, high, rw big refl, rw big refl)
