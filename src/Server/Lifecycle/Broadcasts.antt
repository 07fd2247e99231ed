-- ===== src/Server/Lifecycle/Broadcasts.antt =====
-- What McpServer's broadcasts push on the cores.
use mcp_server.Base.{ℕ, Str, set}
use mcp_server.Json.{JsonLib}
use mcp_server.Security.Filter.Platform.{Sockets}
use mcp_server.Security.Limiter.Doubles.{Doubles}
use mcp_server.Server.Subscriptions.{cleanup_subscriptions}
use mcp_server.Server.Lifecycle.{ShardState, McpServer}

module _ (os : Sockets) (fp : Doubles) (js : JsonLib) (W : Type 0) where
  -- The server after core `i` has cleaned up the subscriptions of a session.
  abbrev pub forgetting :
      Str → ℕ → ShardState os fp js W → McpServer os fp js W → McpServer os fp js W
  forgetting id i c s = record s {
    shards = set s.shards i (record c {
      shard = record c.shard { subscriptions = cleanup_subscriptions id c.shard.subscriptions };
    });
  }
