-- ===== src/Server/Requests/Tests.antt =====
-- A shard with one request that waits, and the theorems at it.
use mcp_server.Base.{
  ℕ, ◌≡◌, refl, ◌≢◌, arith, true, false, [], ◌∷◌, none, some, ◌==◌, nat_eq, Str, str_eq, str_beq,
  lit, if◌then◌else◌, get_elem?, lookup, insert, returned, lookup-insert_self,
}
use mcp_server.Json.Packed.{
  packed, find_in, members, members_object, unflat, flat, split, items, number_of,
}
use mcp_server.Security.Policy.{default_policy}
use mcp_server.Server.Sessions.{Sessions, no_sessions}
use mcp_server.Server.Requests.{
  ClientRequests, no_requests, value, send_request_to_client, handle_client_response, stop_requests,
}
use mcp_server.Server.Requests.Tracking.{
  IsTracked, entered, no_requests-IsTracked, entered-IsTracked, IsTracked-step,
}
use mcp_server.Server.Requests.Settling.{settlement-find, handle_client_response-settled}

abbrev asked : ClientRequests packed
asked = entered packed (no_requests packed)

asked-IsTracked : IsTracked packed asked
asked-IsTracked = entered-IsTracked packed (no_requests packed) (no_requests-IsTracked packed)

abbrev shard : Sessions
shard = no_sessions default_policy 0

abbrev reply : Str
reply = members_object ((lit "id", 3 ∷ 0 ∷ 1 ∷ []) ∷ (lit "result", 4 ∷ lit "yes") ∷ [])

IsTracked-step_example :
    IsTracked packed
      (send_request_to_client packed shard asked (lit "s0_1") (lit "roots/list") []).2
    × IsTracked packed (handle_client_response packed asked reply).1
    × IsTracked packed (stop_requests packed asked)
    × (lookup 2
          (send_request_to_client packed shard asked
            (lit "s0_1")
            (lit "roots/list")
            []).2.pending_client_requests
        ≡ some 1)
IsTracked-step_example =
    IsTracked-step packed shard asked (lit "s0_1") (lit "roots/list") [] reply (omega arith)
      asked-IsTracked

handle_client_response-settled_example :
    (r' : ClientRequests packed) × (handle_client_response packed asked reply ≡ (returned true, r'))
    × (get_elem? asked.futures 0 ≡ some none)
    × (get_elem? r'.futures 0 ≡ some (some (value (4 ∷ lit "yes"))))
    × ((other : ℕ) → 0 ≢ other → get_elem? r'.futures other ≡ get_elem? asked.futures other)
    × ((other : ℕ)
        → lookup other r'.pending_client_requests
          ≡ (if 1 == other then none else lookup other asked.pending_client_requests))
    × (handle_client_response packed r' reply ≡ (returned false, r'))
unfolding find_in members members_object unflat flat split items number_of lit str_beq lookup insert
handle_client_response-settled_example =
    handle_client_response-settled packed asked reply reply 1 0 (value (4 ∷ lit "yes"))
      asked-IsTracked refl (lookup-insert_self {K = ℕ} 1 0 [])
      (settlement-find packed reply (4 ∷ lit "yes") refl) refl
