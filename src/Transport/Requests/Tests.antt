-- ===== src/Transport/Requests/Tests.antt =====
-- GET /mcp on a shard without sessions.
use mcp_server.Base.{◌≡◌, refl, [], lit, lookup}
use mcp_server.Security.Policy.{default_policy}
use mcp_server.Server.Sessions.{no_sessions, get_session}
use mcp_server.Transport.{Reply}
use mcp_server.Transport.Requests.{open_stream}

abbrev blank : Reply
blank = record { status = 200; headers = []; content_type = []; body = [] }

unknown_sessions :
    ((open_stream (no_sessions default_policy 0) [] blank).status ≡ 400)
    × ((open_stream (no_sessions default_policy 0) (lit "sm0_1") blank).status ≡ 404)
unfolding open_stream get_session lit lookup
unknown_sessions = (refl, refl)
