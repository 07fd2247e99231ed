-- ===== src/Server/Routes/Flight/Tests.antt =====
-- A response on its way to the second of two shards.
use mcp_server.Base.{[], ◌∷◌, str_eq, lit, insert, List}
use mcp_server.Security.Policy.{default_policy}
use mcp_server.Server.Ids.{session_id}
use mcp_server.Server.Sessions.{Sessions, no_sessions, new_session}
use mcp_server.Server.Routes.Flight.{Move, by_sse, responds, arrives}

abbrev second : Sessions
second = record (no_sessions default_policy 1) {
  heap = new_session ∷ [];
  sessions = insert (session_id 1 1) 0 [];
}

abbrev both : List Sessions
both = no_sessions default_policy 0 ∷ second ∷ []

abbrev steps : List Move
steps = responds by_sse 0 (session_id 1 1) (lit "{}") ∷ arrives 0 ∷ []
