-- ===== src/Transport/Stdio.antt =====
-- StdioTransport (include/mcp/transport/stdio_transport.hh) on shard 0. Its thread holds the core while
-- it waits in getline, so that it runs from one wait for dispatch to the next.
pub mod Stopping
mod Tests
use mcp_server.Base.{
  Bool, true, false, List, [], ◌∷◌, ◌++◌, Option, none, some, if◌then◌else◌, Str, is_empty, Outcome,
  returned, thrown,
}
use mcp_server.Json.{JsonLib}
use mcp_server.Rpc.Dispatcher.{Escape, JsonRpcDispatcher, RpcReply}
use mcp_server.Server.Dispatch.{McpShard, dispatch}

-- In `dispatch(line, "").get()`, and behind the loop or its exception.
pub data ThreadPhase : Type 0 where
  in_dispatch : Str → ThreadPhase
  over : Outcome Escape (Unit {0}) → ThreadPhase

-- `while (!_stop_requested && std::getline(std::cin, line))` up to the next dispatch, and the lines left.
abbrev pub next_line : Bool → List Str → ThreadPhase × List Str
next_line true lines = (over (returned tt), lines)
next_line false [] = (over (returned tt), [])
next_line false (line ∷ lines) =
    let rest = next_line false lines in if is_empty line then rest else (in_dispatch line, lines)

abbrev pub result_line : Option Str → Str
result_line none = []
result_line (some result) = result ++ b'\n' ∷ []

module _ (js : JsonLib) (W : Type 0) where
  -- `cin` are the lines that are not read yet.
  pub record StdioTransport : Type 0 where
    pub thread : Option ThreadPhase
    pub stop_requested : Bool
    pub cin : List Str
    pub cout : Str
    pub shard : McpShard js W

  loop : StdioTransport → StdioTransport
  loop s =
      let (phase, lines) = next_line s.stop_requested s.cin in
      record s { thread = some phase; cin = lines }

  -- A seastar::thread runs as it is made.
  pub start : StdioTransport → StdioTransport
  unfolding loop
  start s = loop s

  after_dispatch : RpcReply js (McpShard js W) × McpShard js W → StdioTransport → StdioTransport
  unfolding loop
  after_dispatch (thrown e, shard) s = record s { thread = some (over (thrown e)); shard = shard }
  after_dispatch (returned result, shard) s =
      loop (record s { cout = s.cout ++ result_line result; shard = shard })

  resume_at :
      Option ThreadPhase → JsonRpcDispatcher js (McpShard js W) → StdioTransport → StdioTransport
  unfolding loop after_dispatch
  resume_at none d s = s
  resume_at (some (in_dispatch line)) d s = after_dispatch (dispatch js W d line [] s.shard) s
  resume_at (some (over outcome)) d s = s

  pub resume : JsonRpcDispatcher js (McpShard js W) → StdioTransport → StdioTransport
  unfolding resume_at
  resume d s = resume_at s.thread d s

  pub stop : StdioTransport → StdioTransport
  stop s = record s { stop_requested = true }

  -- The future of `stop`, where it is ready: `join` gives what the thread ends with, and only after a
  -- good end the thread is reset.
  abbrev pub joined :
      Option ThreadPhase → StdioTransport → Option (Outcome Escape (Unit {0}) × StdioTransport)
  joined none s = some (returned tt, s)
  joined (some (in_dispatch line)) s = none
  joined (some (over (returned tt))) s = some (returned tt, record s { thread = none })
  joined (some (over (thrown e))) s = some (thrown e, s)
