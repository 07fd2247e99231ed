-- ===== src/Server/Dispatch.antt =====
-- McpShard::dispatch (mcp_shard.hh), and the state of a shard that it changes.
pub mod Responses
mod Tests
use mcp_server.Base.{
  Bool, true, false, ◌&&◌, ◌||◌, not, [], Option, none, some, if◌then◌else◌, Str, lit, Outcome,
  returned, thrown, or_else,
}
use mcp_server.Json.{JsonLib, JsonError, contains, is_object, value_string}
use mcp_server.Rpc.Dispatcher.{JsonRpcDispatcher, RpcReply, handle_request}
use mcp_server.Registry.Methods.{MethodState}
use mcp_server.Server.Sessions.{Sessions}
use mcp_server.Server.Requests.{ClientRequests, handle_client_response}

module _ (js : JsonLib) (W : Type 0) where
  open js use {Json, find, parse, dump, string, object, put}

  -- What a handler can reach beside the members that the methods use: the sessions of its shard, the
  -- requests to its clients, and the rest of the program.
  pub record Around : Type 0 where
    pub sessions : Sessions
    pub requests : ClientRequests js
    pub program : W

  abbrev pub McpShard : Type 0
  McpShard = MethodState Around

  abbrev pub requests_of : McpShard → ClientRequests js
  requests_of s = s.world.requests

  abbrev pub with_requests : ClientRequests js → McpShard → McpShard
  with_requests r s = record s { world = record s.world { requests = r } }

  unfoldable pub is_client_response : Json → Bool
  is_client_response j =
      is_object js j
      && (contains js j (lit "id")
          && (not (contains js j (lit "method"))
              && (contains js j (lit "result") || contains js j (lit "error"))))

  -- An exception is dropped, and no answer to a request.
  unfoldable pub take_response :
      Option Json → ClientRequests js → Outcome JsonError Bool × ClientRequests js
  unfolding is_client_response
  take_response none r = (returned false, r)
  take_response (some j) r =
      if is_client_response j then handle_client_response js r j else (returned false, r)

  -- `j["params"]["_meta"].value("progressToken", "")`, empty where that throws.
  abbrev token_in : Option Json → Str
  token_in none = []
  token_in (some meta) = or_else [] (value_string js meta (lit "progressToken") [])

  abbrev meta_in : Option Json → Option Json
  meta_in none = none
  meta_in (some params) = find (lit "_meta") params

  pub progress_token : Option Json → Str
  progress_token none = []
  progress_token (some j) = token_in (meta_in (find (lit "params") j))

  -- The request's session and token, for its handlers.
  unfoldable pub begin_request : Str → Option Json → McpShard → McpShard
  unfolding progress_token
  begin_request session_id j s = record s {
    current_progress_token = progress_token j;
    current_session_id = session_id;
  }

  abbrev pub answer :
      JsonRpcDispatcher js McpShard
      → Str
      → Str
      → McpShard
      → Outcome JsonError Bool × ClientRequests js
      → RpcReply js McpShard × McpShard
  answer d body session_id s (returned true, r) = (returned none, with_requests r s)
  answer d body session_id s (returned false, r) =
      handle_request js McpShard d body (begin_request session_id (parse body) (with_requests r s))
  answer d body session_id s (thrown e, r) =
      handle_request js McpShard d body (begin_request session_id (parse body) (with_requests r s))

  unfoldable pub dispatch :
      JsonRpcDispatcher js McpShard → Str → Str → McpShard → RpcReply js McpShard × McpShard
  unfolding take_response begin_request
  dispatch d body session_id s =
      answer d body session_id s (take_response (parse body) (requests_of s))
