-- ===== src/Server/Routes/Tests.antt =====
-- Two shards, a session on the second.
use mcp_server.Base.{◌≡◌, [], ◌∷◌, arith, List, lit}
use mcp_server.Security.Policy.{default_policy}
use mcp_server.Server.Ids.{session_id, streamable_id}
use mcp_server.Server.Sessions.{Sessions, no_sessions, new_session, push_to_session}
use mcp_server.Server.Routes.{
  invoke_on, sse_respond, streamable_respond, close_session, handle_delete,
}
use mcp_server.Server.Routes.Owner.{respond-owner}

abbrev second : Sessions
second = record (no_sessions default_policy 1) {
  heap = new_session ∷ [];
  sessions = (lit "s1_1", 0) ∷ [];
}

abbrev both : List Sessions
both = no_sessions default_policy 0 ∷ second ∷ []

respond-owner_example :
    (sse_respond 0 both (session_id 1 1) (lit "{}")
      ≡ invoke_on 1 (λ s. push_to_session s (session_id 1 1) (lit "{}")) both)
    × (streamable_respond 0 both (streamable_id 1 1) (lit "{}")
        ≡ invoke_on 1 (λ s. push_to_session s (streamable_id 1 1) (lit "{}")) both)
    × (handle_delete 0 both (streamable_id 1 1)
        ≡ invoke_on 1 (λ s. close_session s (streamable_id 1 1)) both)
respond-owner_example = respond-owner 0 1 1 both (lit "{}") (omega arith)
