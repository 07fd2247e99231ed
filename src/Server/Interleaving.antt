-- ===== src/Server/Interleaving.antt =====
-- The requests of one core that run at the same time: McpShard::dispatch (include/mcp/server/
-- mcp_shard.hh) as a coroutine, and the core's scheduler, which may resume any coroutine that waits.
pub mod Replies
pub mod Alone
pub mod Subscribers
pub mod Batches
mod Tests
use mcp_server.Base.{
  ◌≡◌, true, false, ℕ, List, [], ◌∷◌, ◌++◌, Bool, Option, none, some, Str, get_elem?, set, Outcome,
  returned, thrown,
}
use mcp_server.Json.{JsonLib, JsonError}
use mcp_server.Rpc.Coroutines.{Coroutine, finished, waiting, await}
use mcp_server.Rpc.Dispatcher.{Escape}
use mcp_server.Rpc.Waiting.{WaitingDispatcher, StartedReply, pass_on, waiting_request}
use mcp_server.Server.Requests.{ClientRequests}
use mcp_server.Server.Dispatch.{McpShard, requests_of, with_requests, take_response, begin_request}

module _ (js : JsonLib) (W : Type 0) where
  open js use {parse}

  abbrev pub Dispatcher : Type 0
  Dispatcher = WaitingDispatcher js (McpShard js W)

  abbrev pub DispatchReply : Type 0
  DispatchReply = Outcome Escape (Option Str)

  -- Up to the co_await of handle_request there is no suspension.
  abbrev pub waiting_answer :
      Dispatcher
      → Str
      → Str
      → McpShard js W
      → Outcome JsonError Bool × ClientRequests js
      → StartedReply js (McpShard js W)
  waiting_answer d body session_id s (returned true, r) =
      (finished (returned none), with_requests js W r s)
  waiting_answer d body session_id s (returned false, r) =
      await d.need_preempt
        (waiting_request js (McpShard js W) d body
          (begin_request js W session_id (parse body) (with_requests js W r s)))
        (pass_on js (McpShard js W))
  waiting_answer d body session_id s (thrown e, r) =
      await d.need_preempt
        (waiting_request js (McpShard js W) d body
          (begin_request js W session_id (parse body) (with_requests js W r s)))
        (pass_on js (McpShard js W))

  unfoldable pub waiting_dispatch :
      Dispatcher → Str → Str → McpShard js W → StartedReply js (McpShard js W)
  waiting_dispatch d body session_id s =
      waiting_answer d body session_id s (take_response js W (parse body) (requests_of js W s))

  -- A request that was taken, and how far it is.
  pub record Task : Type 0 where
    pub body : Str
    pub session_id : Str
    pub progress : Coroutine Escape (McpShard js W) (Option Str)

  pub record Reactor : Type 0 where
    pub shard : McpShard js W
    pub tasks : List Task

  -- A request comes in and runs to its first suspension; one that waits is resumed; or something
  -- else of the core runs, a stream that ends, say.
  pub data Step (d : Dispatcher) (c : Reactor) : Reactor → Type 0 where
    arrives :
        (body session_id : Str)
        → Step d c (record {
          shard = (waiting_dispatch d body session_id c.shard).1;
          tasks =
              c.tasks
              ++ record {
                body = body;
                session_id = session_id;
                progress = (waiting_dispatch d body session_id c.shard).0;
              }
                ∷ [];
        })
    resumes :
        (i : ℕ) (t : Task) {effect : McpShard js W → McpShard js W}
        {next : McpShard js W → Coroutine Escape (McpShard js W) (Option Str)}
        → get_elem? c.tasks i ≡ some t
        → t.progress ≡ waiting effect next
        → Step d c (record {
          shard = effect c.shard;
          tasks = set c.tasks i (record t { progress = next c.shard });
        })
    elsewhere :
        (effect : McpShard js W → McpShard js W) → Step d c (record c { shard = effect c.shard })

  pub data Reach (d : Dispatcher) (s : McpShard js W) : Reactor → Type 0 where
    starts : Reach d s (record { shard = s; tasks = [] })
    goes_on : {c c' : Reactor} → Reach d s c → Step d c c' → Reach d s c'
