-- ===== src/Server/Sessions/Tests.antt =====
-- A session table with a limit of two sessions and one for each address.
use mcp_server.Base.{
  suc, ◌≤◌, ◌≡◌, refl, true, false, is_empty, none, [], ◌∷◌, arith, Str, str_eq, str_beq, lit,
  lookup, insert, length, to_string,
}
use mcp_server.Security.Policy.{SecurityPolicy, default_policy}
use mcp_server.Server.Audit.{audit}
use mcp_server.Server.Ids.{session_id, streamable_id}
use mcp_server.Server.Sessions.{
  Sessions, no_sessions, create_session, create_session_with_id, remove_session,
}
use mcp_server.Server.Sessions.Counting.{held, stored, Distinct}
use mcp_server.Server.Sessions.History.{Reachable, starts, creates, removes}
use mcp_server.Server.Sessions.Owners.{owners, Reachable-counts}
use mcp_server.Server.Sessions.Addresses.{is_some}
use mcp_server.Server.Sessions.Limits.{sse-IsLimited}

abbrev policy : SecurityPolicy
policy = record default_policy {
  connection_limit = record { enabled = true; max_per_ip = 1; max_total = 2 };
  enable_audit_log = true;
}

abbrev client : Str
client = 49 ∷ []

abbrev one_session : Sessions
one_session = (create_session (no_sessions policy 3) client).1

refusals :
    ((create_session one_session client).0 ≡ [])
    × (length (create_session one_session client).1.log ≡ 1)
    × ((create_session (create_session one_session (50 ∷ [])).1 (51 ∷ [])).0 ≡ [])
    × (length (create_session_with_id one_session (lit "sm3_1") client).sessions ≡ 2)
unfolding create_session create_session_with_id lookup insert str_beq session_id lit to_string audit
refusals = (refl, refl, refl, refl)

one_reached : Reachable policy 3 0 one_session
one_reached = creates client (omega arith) starts

-- The limits do not hold back the streamable transport: three sessions of one address.
two_adopted : Sessions
two_adopted =
    create_session_with_id (create_session_with_id one_session (streamable_id 3 1) client)
      (streamable_id 3 2) client

unlimited : length two_adopted.sessions ≡ 3
unfolding two_adopted create_session create_session_with_id lookup insert str_beq session_id
    streamable_id lit to_string
unlimited = refl

abbrev left : Sessions
left = remove_session one_session (lit "s3_1")

abbrev removal : Reachable policy 3 0 left
removal = removes (lit "s3_1") one_reached

Reachable-counts_example :
    (lookup (session_id 3 (suc left.session_counter)) left.sessions ≡ none)
    × (lookup (streamable_id 3 1) left.sessions ≡ none)
    × ((id : Str) → is_some (lookup id left.sessions) ≡ is_some (lookup id (owners removal)))
    × Distinct (owners removal)
    × ((ip : Str)
        → is_empty ip ≡ false
        → lookup ip left.ip_conn_count ≡ stored (held ip (owners removal)))
Reachable-counts_example = Reachable-counts policy 3 0 left removal

abbrev refusal : Reachable policy 3 0 (create_session one_session client).1
unfolding create_session lookup
refusal = creates client (omega arith) one_reached

sse-IsLimited_example :
    let s = (create_session one_session client).1 in
    (length s.sessions ≤ 2)
    × ((id : Str) → is_some (lookup id s.sessions) ≡ is_some (lookup id (owners refusal)))
    × ((ip : Str) → is_empty ip ≡ false → held ip (owners refusal) ≤ 1)
sse-IsLimited_example = sse-IsLimited policy 3 (create_session one_session client).1 refusal refl
