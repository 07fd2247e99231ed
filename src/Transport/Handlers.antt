-- ===== src/Transport/Handlers.antt =====
-- The request handlers of both transports (http_sse_transport.hh, streamable_http_transport.hh) up to
-- the start of their streams: _handle_sse, _handle_message, _handle_post, _handle_get. A handler runs
-- without another one in between.
pub mod Guarding
pub mod Delivering
mod Tests
use mcp_server.Base.{
  ℕ, ◌+◌, ◌%◌, ◌^◌, Bool, false, ◌&&◌, not, List, [], ◌∷◌, ◌++◌, Option, none, some, if◌then◌else◌,
  ◌==◌, nat_eq, Str, lit, is_empty, length, get_elem?, set, contains_text, Outcome, returned,
  thrown,
}
use mcp_server.Json.{JsonLib}
use mcp_server.Rpc.Dispatcher.{Escape, JsonRpcDispatcher, RpcReply}
use mcp_server.Security.Policy.{SecurityCheckResult, ok, connection_limit, payload_too_large}
use mcp_server.Security.Filter.Platform.{Sockets}
use mcp_server.Security.Limiter.Doubles.{Doubles}
use mcp_server.Server.Ids.{sse_parse_shard, streamable_parse_shard, streamable_id}
use mcp_server.Server.Sessions.{
  SseSession, Sessions, enqueue, create_session, create_session_with_id, get_session,
  push_to_session,
}
use mcp_server.Server.Admission.{Guards, check_request, record_outcome, check_body_size}
use mcp_server.Server.Routes.{invoke_on}
use mcp_server.Server.Dispatch.{McpShard, dispatch}
use mcp_server.Transport.{Headers, Reply, get_client_ip, get_api_key, security_reject}
use mcp_server.Transport.Requests.{open_stream}

-- `response_opt && response_opt->find("\"error\"") != npos`
unfoldable pub is_error : Option Str → Bool
is_error none = false
is_error (some text) = contains_text (lit "\"error\"") text

-- `session_id` is the query parameter sessionId on the SSE transport and the header mcp-session-id on
-- the streamable one.
pub record Request : Type 0 where
  pub headers : Headers
  pub session_id : Str
  pub accept : Str
  pub body : Str

-- What the clocks show when the limiter, the breaker and record_outcome ask.
pub record Times : Type 0 where
  pub limiter_time : ℕ
  pub breaker_time : ℕ
  pub outcome_time : ℕ

-- The reply as seastar hands it over.
abbrev pub fresh_reply : Reply
fresh_reply = record { status = 200; headers = []; content_type = []; body = [] }

abbrev pub accepted : Reply → Reply
accepted rep = record rep { status = 202 }

abbrev pub write_json : Str → Reply → Reply
write_json text rep = record rep { content_type = lit "json"; body = text }

-- The reply where there is no session: the response, or accepted.
abbrev pub answer_now : Option Str → Reply → Reply
answer_now none rep = accepted rep
answer_now (some text) rep = write_json text rep

abbrev pub stream_head : List (Str × Str) → Reply → Reply
stream_head more rep = record rep {
  headers =
      rep.headers
      ++ (more
          ++ (lit "Cache-Control", lit "no-cache") ∷ (lit "Connection", lit "keep-alive") ∷ []);
  content_type = lit "text/event-stream";
}

-- `session->messages.push_eventually`, whatever the session's state.
abbrev pub push_message : ℕ → Str → List SseSession → List SseSession
push_message at_ msg heap = elim (get_elem? heap at_) [
  | none ↦ heap
  | some x ↦ set heap at_ (enqueue msg x)
]

module _ (os : Sockets) (fp : Doubles) (js : JsonLib) (W : Type 0) where
  -- The core that handles a request, number `here`, and the session tables of the other cores, at
  -- their numbers; what `others` has at `here` is not used. `counter` is the streamable transport's.
  pub record Core : Type 0 where
    pub here : ℕ
    pub guards : Guards os fp
    pub shard : McpShard js W
    pub others : List Sessions
    pub counter : ℕ

  abbrev pub sessions_of : Core → Sessions
  sessions_of c = c.shard.world.sessions

  abbrev pub with_sessions : Sessions → Core → Core
  with_sessions sessions c = record c {
    shard = record c.shard { world = record c.shard.world { sessions = sessions } };
  }

  abbrev pub Answer : Type 0
  Answer = Outcome Escape Reply × Core

  -- The shard that owns the session gets the response.
  pub deliver : ℕ → Str → Option Str → Core → Core
  deliver target session_id none c = c
  deliver target session_id (some msg) c =
      if target == c.here
      then with_sessions (push_to_session (sessions_of c) session_id msg) c
      else record c { others = invoke_on target (λ s. push_to_session s session_id msg) c.others }

  -- What follows dispatch. Its exception passes through, and is no outcome.
  abbrev pub after_dispatch :
      Str
      → ℕ
      → (Option Str → Core → Answer)
      → Core
      → RpcReply js (McpShard js W) × McpShard js W
      → Answer
  after_dispatch client_ip time next c (thrown e, shard) = (thrown e, record c { shard = shard })
  after_dispatch client_ip time next c (returned response, shard) = next response (record c {
    shard = shard;
    guards = record_outcome os fp c.guards client_ip (is_error response) time;
  })

  abbrev pub refuse_unless_ok :
      Reply → (Core → Answer) → Core → SecurityCheckResult × Guards os fp → Answer
  refuse_unless_ok rep next c (check, guards) = elim check [
    | ok ↦ next (record c { guards = guards })
    | r ↦ (returned (security_reject rep r), record c { guards = guards })
  ]

  -- check_request, and the refusal unless it answers OK.
  pub guarded : Request → Times → Reply → (Core → Answer) → Core → Answer
  guarded req t rep next c = refuse_unless_ok rep next c (
      check_request os fp c.guards (get_client_ip req.headers) (get_api_key req.headers)
        t.limiter_time t.breaker_time)

  -- The check of the body's size comes before.
  pub sized : Request → Reply → (Core → Answer) → Core → Answer
  sized req rep next c =
      if not (check_body_size os fp c.guards (length req.body))
      then (returned (security_reject rep payload_too_large), c)
      else next c

  opened_sse : Reply → Core → Str × Sessions → Answer
  opened_sse rep c (session_id, sessions) =
      if is_empty session_id
      then (returned (security_reject rep connection_limit), with_sessions sessions c)
      else (returned (stream_head [] rep), with_sessions sessions c)

  start_sse : Request → Reply → Core → Answer
  unfolding opened_sse
  start_sse req rep c =
      opened_sse rep c (create_session (sessions_of c) (get_client_ip req.headers))

  pub handle_sse : Request → Times → Reply → Core → Answer
  unfolding guarded start_sse
  handle_sse req t rep c = guarded req t rep (start_sse req rep) c

  served_message : Request → Option Str → Reply → Core → Answer
  unfolding deliver
  served_message req response rep c =
      if is_empty req.session_id then (returned (answer_now response rep), c) else (
        returned (accepted rep),
        deliver (sse_parse_shard req.session_id) req.session_id response c,
      )

  run_message : JsonRpcDispatcher js (McpShard js W) → Request → Times → Reply → Core → Answer
  unfolding served_message
  run_message d req t rep c =
      after_dispatch (get_client_ip req.headers) t.outcome_time
        (λ response k. served_message req response rep k) c
        (dispatch js W d req.body req.session_id c.shard)

  pub handle_message :
      JsonRpcDispatcher js (McpShard js W) → Request → Times → Reply → Core → Answer
  unfolding sized guarded run_message
  handle_message d req t rep c = sized req rep (guarded req t rep (run_message d req t rep)) c

  -- POST /mcp without a session, for a client that wants no stream.
  run_single : JsonRpcDispatcher js (McpShard js W) → Request → Times → Reply → Core → Answer
  run_single d req t rep c =
      after_dispatch (get_client_ip req.headers) t.outcome_time
        (λ response k. (returned (answer_now response rep), k)) c
        (dispatch js W d req.body [] c.shard)

  abbrev push_first : ℕ → Option Str → Core → Core
  push_first at_ none c = c
  push_first at_ (some msg) c =
      with_sessions (record (sessions_of c) { heap = push_message at_ msg (sessions_of c).heap }) c

  -- `session` is what get_session has for the new id.
  run_opened :
      JsonRpcDispatcher js (McpShard js W)
      → Request
      → Times
      → Reply
      → Str
      → Core
      → Option ℕ
      → Answer
  run_opened d req t rep session_id c none = (returned (security_reject rep connection_limit), c)
  run_opened d req t rep session_id c (some at_) =
      after_dispatch (get_client_ip req.headers) t.outcome_time
        (λ response k. (
          returned (record rep {
            headers =
                rep.headers
                ++ (lit "mcp-session-id", session_id)
                  ∷ (lit "Cache-Control", lit "no-cache")
                  ∷ (lit "Connection", lit "keep-alive")
                  ∷ [];
            content_type = lit "text/event-stream";
          }),
          push_first at_ response k,
        ))
        c (dispatch js W d req.body session_id c.shard)

  -- POST /mcp without a session, for a client that wants a stream.
  run_new : JsonRpcDispatcher js (McpShard js W) → Request → Times → Reply → Core → Answer
  unfolding run_opened
  run_new d req t rep c =
      let counter = (c.counter + 1) % 2 ^ 64 in
      let session_id = streamable_id c.here counter in
      let sessions =
        create_session_with_id (sessions_of c) session_id (get_client_ip req.headers) in
      run_opened d req t rep session_id (with_sessions sessions (record c { counter = counter }))
        (get_session sessions session_id)

  run_session : JsonRpcDispatcher js (McpShard js W) → Request → Times → Reply → Core → Answer
  unfolding deliver
  run_session d req t rep c =
      after_dispatch (get_client_ip req.headers) t.outcome_time
        (λ response k. (
          returned (accepted rep),
          deliver (streamable_parse_shard req.session_id) req.session_id response k,
        ))
        c (dispatch js W d req.body req.session_id c.shard)

  run_post : JsonRpcDispatcher js (McpShard js W) → Request → Times → Reply → Core → Answer
  unfolding run_single run_new run_session
  run_post d req t rep c =
      let wants_sse = contains_text (lit "text/event-stream") req.accept in
      if is_empty req.session_id && not wants_sse
      then run_single d req t rep c
      else if is_empty req.session_id && wants_sse
      then run_new d req t rep c
      else run_session d req t rep c

  pub handle_post : JsonRpcDispatcher js (McpShard js W) → Request → Times → Reply → Core → Answer
  unfolding sized guarded run_post
  handle_post d req t rep c = sized req rep (guarded req t rep (run_post d req t rep)) c

  start_get : Request → Reply → Core → Answer
  start_get req rep c = (returned (open_stream (sessions_of c) req.session_id rep), c)

  pub handle_get : Request → Times → Reply → Core → Answer
  unfolding guarded start_get
  handle_get req t rep c = guarded req t rep (start_get req rep) c
