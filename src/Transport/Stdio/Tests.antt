-- ===== src/Transport/Stdio/Tests.antt =====
-- Two of three lines are answered before the stop.
use mcp_server.Base.{ℕ, false, [], ◌∷◌, none, List, Str, lit, take}
use mcp_server.Json.Packed.{packed}
use mcp_server.Rpc.Dispatcher.{JsonRpcDispatcher, new_dispatcher}
use mcp_server.Security.Policy.{default_policy}
use mcp_server.Registry.Methods.{info}
use mcp_server.Server.Sessions.{no_sessions}
use mcp_server.Server.Requests.{no_requests}
use mcp_server.Server.Dispatch.{McpShard}
use mcp_server.Transport.Stdio.{start}
use mcp_server.Transport.Stdio.Stopping.{nonempty, answers, stopped_by, Ends, start-stop}

abbrev shard : McpShard packed ℕ
shard = record {
  current_session_id = [];
  current_progress_token = [];
  subscriptions = [];
  loggers_level = info;
  client_log_levels = info ∷ [];
  world = record {
    sessions = no_sessions default_policy 0;
    requests = no_requests packed;
    program = 7;
  };
}

abbrev dispatcher : JsonRpcDispatcher packed (McpShard packed ℕ)
dispatcher = new_dispatcher packed (McpShard packed ℕ)

abbrev lines : List Str
lines = lit "{" ∷ [] ∷ lit "[]" ∷ lit "unread" ∷ []

start-stop_example :
    Ends packed ℕ dispatcher
      (stopped_by packed ℕ dispatcher 1 0 (
        start packed ℕ (record {
          thread = none;
          stop_requested = false;
          cin = lines;
          cout = [];
          shard = shard;
        })))
      (answers packed ℕ dispatcher (take 2 (nonempty lines)) [] shard)
start-stop_example = start-stop packed ℕ dispatcher 1 0 lines shard none
