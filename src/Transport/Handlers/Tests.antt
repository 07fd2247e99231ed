-- ===== src/Transport/Handlers/Tests.antt =====
-- A core with one session and the guards off, and the theorems there.
use mcp_server.Base.{
  ℕ, ◌≡◌, refl, ap, ◌≢◌, ◌≤◌, ◌<◌, arith, true, false, [], ◌∷◌, none, some, if◌then◌else◌, Str,
  str_eq, str_beq, lit, get_elem?, insert, lookup-insert_self, returned, contains_text,
}
use mcp_server.Json.Packed.{packed, read_text}
use mcp_server.Rpc.{parse_error, to_json}
use mcp_server.Rpc.Dispatcher.{JsonRpcDispatcher, handle_request, handle_parsed, refusal}
use mcp_server.Security.Policy.{SecurityPolicy, default_policy, ok, unauthorized, payload_too_large}
use mcp_server.Security.Breaker.{allow, record_failure, record_success}
use mcp_server.Security.Limiter.{try_acquire}
use mcp_server.Security.Limiter.Whole.{whole}
use mcp_server.Security.Filter.{is_allowed}
use mcp_server.Security.Filter.Host.{host}
use mcp_server.Registry.Methods.{info}
use mcp_server.Server.Ids.{session_id}
use mcp_server.Server.Sessions.{Sessions, no_sessions, new_session, get_session}
use mcp_server.Server.Requests.{no_requests}
use mcp_server.Server.Admission.{Guards, check_request, check_body_size}
use mcp_server.Server.Dispatch.{McpShard, dispatch, take_response, begin_request}
use mcp_server.Transport.{get_client_ip, get_api_key, security_reject}
use mcp_server.Transport.Handlers.{Request, Times, Core, fresh_reply, sessions_of}
use mcp_server.Transport.Handlers.Guarding.{
  post_mcp, message, handle, checked, handle-security_reject,
}
use mcp_server.Transport.Handlers.Delivering.{by_sse, post, post-push}

abbrev open_policy : SecurityPolicy
open_policy = record default_policy {
  rate_limit = record default_policy.rate_limit { enabled = false };
  circuit_breaker = record default_policy.circuit_breaker { enabled = false };
  size_limits = record default_policy.size_limits { max_body_bytes = 2 };
}

abbrev keyed_policy : SecurityPolicy
keyed_policy = record open_policy {
  api_key = record { enabled = true; keys = lit "secret" ∷ []; header = lit "X-API-Key" };
}

abbrev guards : SecurityPolicy → Guards host whole
guards policy = record {
  security = policy;
  shard_id = 0;
  ip_filter = record { whitelist = []; blacklist = []; default_allow = true };
  rate_limiter = record { cfg = policy.rate_limit; buckets = [] };
  circuit_breaker = record { cfg = policy.circuit_breaker; states = [] };
  log = [];
}

abbrev id : Str
id = session_id 0 1

abbrev sessions : Sessions
sessions = record (no_sessions default_policy 0) {
  heap = new_session ∷ [];
  sessions = insert id 0 [];
}

abbrev shard : McpShard packed ℕ
shard = record {
  current_session_id = [];
  current_progress_token = [];
  subscriptions = [];
  loggers_level = info;
  client_log_levels = info ∷ [];
  world = record { sessions = sessions; requests = no_requests packed; program = 0 };
}

abbrev core : SecurityPolicy → Core host whole packed ℕ
core policy = record { here = 0; guards = guards policy; shard = shard; others = []; counter = 0 }

abbrev server : JsonRpcDispatcher packed (McpShard packed ℕ)
server = record { methods = []; notifications = []; max_batch_size = 20 }

-- A POST whose body is no JSON.
abbrev request : Str → Request
request body = record {
  headers = record {
    x_real_ip = lit "10.0.0.1";
    x_forwarded_for = [];
    x_api_key = [];
    authorization = [];
  };
  session_id = id;
  accept = [];
  body = body;
}

abbrev times : Times
times = record { limiter_time = 1; breaker_time = 2; outcome_time = 3 }

keyed : (checked host whole packed ℕ (request []) times (core keyed_policy)).0 ≡ unauthorized
unfolding check_request is_allowed get_client_ip get_api_key lit str_beq
keyed = refl

handle-security_reject_example :
    (handle host whole packed ℕ post_mcp server (request []) times fresh_reply (core keyed_policy)
      ≡ (
        returned (security_reject fresh_reply unauthorized),
        record (core keyed_policy) {
          guards = (checked host whole packed ℕ (request []) times (core keyed_policy)).1;
        },
      ))
    × (400 ≤ (security_reject fresh_reply unauthorized).status)
    × ((security_reject fresh_reply unauthorized).status < 600)
    × (handle host whole packed ℕ message server
          (request (1 ∷ 2 ∷ 3 ∷ []))
          times
          fresh_reply
          (core keyed_policy)
        ≡ (returned (security_reject fresh_reply payload_too_large), core keyed_policy))
    × (handle host whole packed ℕ post_mcp server
          (request (1 ∷ 2 ∷ 3 ∷ []))
          times
          fresh_reply
          (core keyed_policy)
        ≡ (returned (security_reject fresh_reply payload_too_large), core keyed_policy))
unfolding check_body_size
handle-security_reject_example =
    handle-security_reject host whole packed ℕ post_mcp server (request [])
      (request (1 ∷ 2 ∷ 3 ∷ [])) times fresh_reply (core keyed_policy) unauthorized
      (checked host whole packed ℕ (request []) times (core keyed_policy)).1 (λ e. cc) refl refl
      (ap (λ r. (r, (checked host whole packed ℕ (request []) times (core keyed_policy)).1)) keyed)

passes : (checked host whole packed ℕ (request []) times (core open_policy)).0 ≡ ok
unfolding check_request is_allowed try_acquire allow get_client_ip get_api_key lit str_beq
passes = refl

abbrev text : Str
text =
    b'='
    ∷ to_json packed
        (refusal packed (McpShard packed ℕ) packed.null parse_error (lit "Parse error"))

abbrev after : McpShard packed ℕ
after = begin_request packed ℕ id none shard

answers : dispatch packed ℕ server [] id shard ≡ (returned (some text), after)
unfolding dispatch take_response handle_request handle_parsed read_text
answers = refl

post-push_example :
    (c' : Core host whole packed ℕ) × (post host whole packed ℕ by_sse server
        (request [])
        times
        fresh_reply
        (core open_policy)
      ≡ (returned (record fresh_reply { status = 202 }), c'))
    × (get_elem? (sessions_of host whole packed ℕ c').heap 0
        ≡ some (record new_session { messages = text ∷ [] }))
    × ((j : ℕ)
        → 0 ≢ j
        → get_elem? (sessions_of host whole packed ℕ c').heap j ≡ get_elem? sessions.heap j)
    × (c'.others ≡ [])
    × (c'.guards.circuit_breaker ≡ (
        if contains_text (lit "\"error\"") text
        then record_failure
            (checked host whole packed ℕ (request []) times (core open_policy)).1.circuit_breaker
            (get_client_ip (request []).headers)
            3
        else record_success
            (checked host whole packed ℕ (request []) times (core open_policy)).1.circuit_breaker
            (get_client_ip (request []).headers)))
unfolding begin_request check_body_size get_session
post-push_example =
    post-push host whole packed ℕ by_sse server (request []) times fresh_reply (core open_policy)
      (checked host whole packed ℕ (request []) times (core open_policy)).1 after 1 0 text
      new_session (omega arith) refl refl
      (ap (λ r. (r, (checked host whole packed ℕ (request []) times (core open_policy)).1)) passes)
      answers (lookup-insert_self id 0 []) refl refl
