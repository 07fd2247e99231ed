-- ===== src/Server/Notices.antt =====
-- What a shard sends to its sessions on its own, and its start and stop (mcp_shard.hh); the requests
-- that McpServer sends to clients (mcp_server.hh).
pub mod Audience
pub mod Stopping
use mcp_server.Base.{
  ◌||◌, List, [], ◌∷◌, Option, none, some, if◌then◌else◌, Str, lit, is_empty, ℕ, Dict, lookup,
  str_eq, Outcome, returned, thrown,
}
use mcp_server.Json.{JsonLib, JsonError}
use mcp_server.Rpc.Dispatcher.{JsonRpcDispatcher, new_dispatcher, set_max_batch_size}
use mcp_server.Security.Policy.{SecurityPolicy}
use mcp_server.Registry.{McpRegistry}
use mcp_server.Registry.Methods.{register_mcp_methods}
use mcp_server.Server.Sessions.{SseSession, Sessions, push_to_session, broadcast_notification}
use mcp_server.Server.Requests.{send_request_to_client, stop_requests}
use mcp_server.Server.Routes.{deactivate_at}
use mcp_server.Server.Dispatch.{Around, McpShard, requests_of}

-- The loop over the followers of a resource.
pub push_each : List Str → Str → Sessions → Sessions
push_each [] msg s = s
push_each (id ∷ ids) msg s = push_each ids msg (push_to_session s id msg)

-- stop: every stream ends.
pub end_streams : List SseSession → Dict Str ℕ → List SseSession
end_streams heap [] = heap
end_streams heap ((id, at_) ∷ rest) = end_streams (deactivate_at heap at_) rest

module _ (js : JsonLib) (W : Type 0) where
  open js use {Json, dump, string, object, put}

  pub notification_json : Str → Json → Json
  notification_json method params = object (
      (lit "jsonrpc", string (lit "2.0"))
      ∷ (lit "method", string method)
      ∷ (lit "params", params)
      ∷ [])

  abbrev with_sessions : Sessions → McpShard js W → McpShard js W
  with_sessions sessions s = record s { world = record s.world { sessions = sessions } }

  -- What is done with a text that was dumped.
  abbrev pub sending :
      Outcome JsonError Str
      → (Str → Sessions → Sessions)
      → McpShard js W
      → Outcome JsonError (Unit {0}) × McpShard js W
  sending (thrown e) send s = (thrown e, s)
  sending (returned msg) send s = (returned tt, with_sessions (send msg s.world.sessions) s)

  notify_followers :
      Str → Option (List Str) → McpShard js W → Outcome JsonError (Unit {0}) × McpShard js W
  unfolding notification_json push_each
  notify_followers uri none s = (returned tt, s)
  notify_followers uri (some ids) s =
      let notification =
        notification_json (lit "notifications/resources/updated")
          (object ((lit "uri", string uri) ∷ [])) in
      sending (dump notification) (push_each ids) s

  pub notify_resource_updated : Str → McpShard js W → Outcome JsonError (Unit {0}) × McpShard js W
  unfolding notify_followers
  notify_resource_updated uri s = notify_followers uri (lookup uri s.subscriptions) s

  progress_params : Str → Json → Option Json → Json
  progress_params token progress none =
      object ((lit "progressToken", string token) ∷ (lit "progress", progress) ∷ [])
  progress_params token progress (some total) =
      put (lit "total") total
        (object ((lit "progressToken", string token) ∷ (lit "progress", progress) ∷ []))

  -- The two numbers are floats; they come as the JSON values of the library's conversion.
  pub push_progress :
      Json → Option Json → McpShard js W → Outcome JsonError (Unit {0}) × McpShard js W
  unfolding notification_json progress_params
  push_progress progress total s =
      if is_empty s.current_session_id || is_empty s.current_progress_token
      then (returned tt, s)
      else sending
          (dump (
            notification_json (lit "notifications/progress")
              (progress_params s.current_progress_token progress total)))
          (λ msg sessions. push_to_session sessions s.current_session_id msg) s

  pub broadcast_log_notification :
      Str → Str → Json → McpShard js W → Outcome JsonError (Unit {0}) × McpShard js W
  unfolding notification_json
  broadcast_log_notification level logger_name payload s =
      sending
        (dump (
          notification_json (lit "notifications/message") (
            object (
              (lit "level", string level)
              ∷ (lit "logger", string logger_name)
              ∷ (lit "data", payload)
              ∷ []))))
        (λ msg sessions. broadcast_notification sessions msg) s

  -- The dispatcher of a shard that has started; its security components are Server/Admission's.
  pub start :
      Str
      → Str
      → SecurityPolicy
      → McpRegistry js (McpShard js W)
      → JsonRpcDispatcher js (McpShard js W)
  start name version security registry =
      register_mcp_methods js (Around js W) name version registry (
        set_max_batch_size js (McpShard js W) security.size_limits.max_batch_size
          (new_dispatcher js (McpShard js W)))

  pub stop : McpShard js W → McpShard js W
  unfolding end_streams
  stop s =
      let t = s.world.sessions in
      record s {
        world = record s.world {
          sessions = record t { heap = end_streams t.heap t.sessions; sessions = [] };
          requests = stop_requests js (requests_of js W s);
        };
      }

  -- Of McpServer (mcp_server.hh), on the core of the session.
  request_client : Str → Str → Json → McpShard js W → Outcome JsonError ℕ × McpShard js W
  request_client method session_id params s =
      let t = s.world in
      let (cell, sessions, requests) =
        send_request_to_client js t.sessions t.requests session_id method params in
      (cell, record s { world = record t { sessions = sessions; requests = requests } })

  pub request_sampling : Str → Json → McpShard js W → Outcome JsonError ℕ × McpShard js W
  unfolding request_client
  request_sampling session_id params s =
      request_client (lit "sampling/createMessage") session_id params s

  pub request_elicitation : Str → Json → McpShard js W → Outcome JsonError ℕ × McpShard js W
  unfolding request_client
  request_elicitation session_id params s =
      request_client (lit "elicitation/create") session_id params s
