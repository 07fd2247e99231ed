-- ===== src/Server/Dispatch/Tests.antt =====
-- A shard that asks its client, and the theorems at its answers.
use mcp_server.Base.{
  ◌≢◌, ◌+◌, ◌==◌, if◌then◌else◌, lookup, ℕ, ◌≡◌, refl, arith, [], ◌∷◌, none, some, Str, lit,
  get_elem?, returned, lookup-insert_self, nat_eq,
}
use mcp_server.Json.Packed.{packed, packed_kind, read_text, members_object}
use mcp_server.Security.Policy.{default_policy}
use mcp_server.Rpc.Dispatcher.{JsonRpcDispatcher, handle_request}
use mcp_server.Registry.Methods.{info}
use mcp_server.Server.Sessions.{no_sessions, push_to_session}
use mcp_server.Server.Requests.{ClientRequests, no_requests, request_json, value}
use mcp_server.Server.Requests.Tracking.{entered, no_requests-IsTracked, entered-IsTracked}
use mcp_server.Server.Dispatch.{McpShard, requests_of, with_requests, begin_request, dispatch}
use mcp_server.Server.Dispatch.Responses.{
  result_members, error_members, sent, dispatch-send_request_to_client, dispatch_keeps_waiting,
}

abbrev shard : ClientRequests packed → McpShard packed ℕ
shard r = record {
  current_session_id = [];
  current_progress_token = [];
  subscriptions = [];
  loggers_level = info;
  client_log_levels = info ∷ [];
  world = record { sessions = no_sessions default_policy 0; requests = r; program = 0 };
}

abbrev server : JsonRpcDispatcher packed (McpShard packed ℕ)
server = record { methods = []; notifications = []; max_batch_size = 20 }

abbrev yes : Str
yes = 4 ∷ lit "yes"

abbrev body : Str
body = b'=' ∷ members_object (result_members packed 1 yes)

abbrev request_text : Str
request_text = b'=' ∷ request_json packed 1 (lit "roots/list") []

dispatch-send_request_to_client_example :
    (cell : ℕ) × (s' : McpShard packed ℕ) × (r : ClientRequests packed) × (sent packed ℕ
        (shard (no_requests packed))
        (lit "s0_1")
        (lit "roots/list")
        []
      ≡ (returned cell, s'))
    × (s'.world.sessions ≡ push_to_session (no_sessions default_policy 0) (lit "s0_1") request_text)
    × (get_elem? s'.world.requests.futures cell ≡ some none)
    × (dispatch packed ℕ server body (lit "s0_1") s' ≡ (returned none, with_requests packed ℕ r s'))
    × (get_elem? r.futures cell ≡ some (some (value yes)))
    × (s'.world.requests.futures ≡ none ∷ [])
    × ((other : ℕ)
        → cell ≢ other
        → get_elem? r.futures other ≡ get_elem? s'.world.requests.futures other)
    × ((other : ℕ)
        → lookup other r.pending_client_requests ≡ (
            if (no_requests packed).server_request_counter + 1 == other
            then none
            else lookup other s'.world.requests.pending_client_requests))
unfolding read_text
dispatch-send_request_to_client_example =
    dispatch-send_request_to_client packed ℕ server (shard (no_requests packed)) (lit "s0_1")
      (lit "roots/list") request_text body (lit "s0_1") [] yes (no_requests-IsTracked packed)
      (omega arith) refl refl

abbrev asked : ClientRequests packed
asked = entered packed (no_requests packed)

-- An error that is a text.
abbrev refusal_body : Str
refusal_body = b'=' ∷ members_object (error_members packed 1 (4 ∷ lit "no"))

dispatch_keeps_waiting_example :
    (dispatch packed ℕ server refusal_body (lit "s0_1") (shard asked)
      ≡ handle_request packed
          (McpShard packed ℕ)
          server
          refusal_body
          (begin_request packed ℕ (lit "s0_1") (packed.parse refusal_body) (shard asked)))
    × (requests_of packed ℕ
          (begin_request packed ℕ (lit "s0_1") (packed.parse refusal_body) (shard asked))
        ≡ asked)
    × (get_elem? asked.futures 0 ≡ some none)
unfolding read_text packed_kind
dispatch_keeps_waiting_example =
    dispatch_keeps_waiting packed ℕ server (shard asked) refusal_body (lit "s0_1") 1 0
      (4 ∷ lit "no") (entered-IsTracked packed (no_requests packed) (no_requests-IsTracked packed))
      (omega arith) (lookup-insert_self {K = ℕ} 1 0 []) refl refl
