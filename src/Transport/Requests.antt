-- ===== src/Transport/Requests.antt =====
-- The routes that both transports set up, and the replies of _handle_get
-- (streamable_http_transport.hh) before its stream starts.
mod Tests
use mcp_server.Base.{List, [], ◌∷◌, ◌++◌, Option, none, some, if◌then◌else◌, Str, lit, is_empty, ℕ}
use mcp_server.HttpCommon.Methods.{OperationType, get, post, delete}
use mcp_server.Server.Sessions.{Sessions, get_session}
use mcp_server.Transport.{Reply}

pub data Handler : Type 0 where
  handles_sse handles_message handles_post handles_get handles_delete : Handler

pub record Route : Type 0 where
  pub method : OperationType
  pub url : Str
  pub handler : Handler

pub sse_routes : List Route → List Route
sse_routes r =
    r
    ++ record { method = get; url = lit "/sse"; handler = handles_sse }
      ∷ record { method = post; url = lit "/message"; handler = handles_message }
      ∷ []

pub streamable_routes : List Route → List Route
streamable_routes r =
    r
    ++ record { method = post; url = lit "/mcp"; handler = handles_post }
      ∷ record { method = get; url = lit "/mcp"; handler = handles_get }
      ∷ record { method = delete; url = lit "/mcp"; handler = handles_delete }
      ∷ []

-- Past the security check: a missing header, an unknown session, or the head of the stream.
attach : Option ℕ → Str → Reply → Reply
attach none session_id rep = record rep {
  status = 404;
  content_type = lit "json";
  body = lit "{\"error\":\"Session not found on this shard\"}";
}
attach (some at_) session_id rep = record rep {
  headers =
      rep.headers
      ++ (lit "Cache-Control", lit "no-cache")
        ∷ (lit "Connection", lit "keep-alive")
        ∷ (lit "mcp-session-id", session_id)
        ∷ [];
  content_type = lit "text/event-stream";
}

pub open_stream : Sessions → Str → Reply → Reply
unfolding attach
open_stream s session_id rep =
    if is_empty session_id
    then record rep {
      status = 400;
      content_type = lit "json";
      body = lit "{\"error\":\"Mcp-Session-Id header required\"}";
    }
    else attach (get_session s session_id) session_id rep
