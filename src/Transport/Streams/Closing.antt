-- ===== src/Transport/Streams/Closing.antt =====
-- What a shard forgets when a stream ends.
use mcp_server.Base.{◌≡◌, refl, false, none, if◌then◌else◌, ◌==◌, nat_eq, Str, str_eq, lookup}
use mcp_server.Json.{JsonLib}
use mcp_server.Server.Sessions.{get_session}
use mcp_server.Server.Sessions.Removal.{
  get_session-remove_session, remove_session-ip_conn_count, one_less, is_of,
}
use mcp_server.Server.Subscriptions.{includes, followers}
use mcp_server.Server.Subscriptions.Followers.{cleanup_forgets}
use mcp_server.Server.Dispatch.{McpShard}
use mcp_server.Transport.Streams.{close_stream, close_get_stream, drop_session}

module _ (js : JsonLib) (W : Type 0) where
  -- When a stream of GET /sse or POST /mcp ends, its session has left the table and no resource has it
  -- as a follower; the address kept for it, if there is one, counts one connection less, without an
  -- entry if none is left, and every other address as many as before. When a stream of GET /mcp ends,
  -- the same is true of the table and the counts, but every resource keeps its followers, the session
  -- among them. No other session leaves the table.
  pub close_stream-get_session :
      (s : McpShard js W) (id other uri ip : Str)
      → let t = close_stream js W id s in
        let g = close_get_stream js W id s in
        let count =
          one_less
            (is_of ip (lookup id s.world.sessions.session_to_ip))
            (lookup ip s.world.sessions.ip_conn_count) in
        (get_session t.world.sessions other
          ≡ (if id == other then none else get_session s.world.sessions other))
        × (get_session g.world.sessions other
            ≡ (if id == other then none else get_session s.world.sessions other))
        × (includes id (followers uri t.subscriptions) ≡ false)
        × (g.subscriptions ≡ s.subscriptions)
        × (lookup ip t.world.sessions.ip_conn_count ≡ count)
        × (lookup ip g.world.sessions.ip_conn_count ≡ count)
  unfolding close_stream close_get_stream drop_session
  close_stream-get_session s id other uri ip = (
    get_session-remove_session s.world.sessions id other,
    get_session-remove_session s.world.sessions id other,
    cleanup_forgets id uri s.subscriptions,
    refl,
    remove_session-ip_conn_count s.world.sessions id ip,
    remove_session-ip_conn_count s.world.sessions id ip,
  )
