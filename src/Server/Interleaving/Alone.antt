-- ===== src/Server/Interleaving/Alone.antt =====
-- A request that nothing interrupts.
use mcp_server.Base.{◌≡◌, refl, ◌∙◌, Bool, true, false, Str, Outcome, returned, thrown}
use mcp_server.Json.{JsonLib, JsonError}
use mcp_server.Rpc.Coroutines.{run, complete, await, complete-await}
use mcp_server.Rpc.Waiting.{pass_on, waiting_request}
use mcp_server.Rpc.Waiting.Alone.{alone, complete-waiting_request}
use mcp_server.Server.Requests.{ClientRequests}
use mcp_server.Server.Dispatch.{
  McpShard, requests_of, with_requests, take_response, begin_request, answer, dispatch,
}
use mcp_server.Server.Interleaving.{Dispatcher, waiting_answer, waiting_dispatch}

module _ (js : JsonLib) (W : Type 0) (d : Dispatcher js W) where
  open js use {parse}

  requested :
      (body : Str) (s : McpShard js W)
      → complete (
          await d.need_preempt
            (waiting_request js (McpShard js W) d body s)
            (pass_on js (McpShard js W)))
        ≡ (let (r, t) = complete (waiting_request js (McpShard js W) d body s) in (r, t))
  unfolding run
  requested body s =
      complete-await d.need_preempt (waiting_request js (McpShard js W) d body s)
        (pass_on js (McpShard js W))

  complete-answer :
      (body session_id : Str) (s : McpShard js W) (o : Outcome JsonError Bool × ClientRequests js)
      → complete (waiting_answer js W d body session_id s o)
        ≡ answer js W (alone js (McpShard js W) d) body session_id s o
  unfolding run
  complete-answer body session_id s (returned true, r) = refl
  complete-answer body session_id s (returned false, r) =
      let begun = begin_request js W session_id (parse body) (with_requests js W r s) in
      requested body begun ∙ complete-waiting_request js (McpShard js W) d body begun
  complete-answer body session_id s (thrown e, r) =
      let begun = begin_request js W session_id (parse body) (with_requests js W r s) in
      requested body begun ∙ complete-waiting_request js (McpShard js W) d body begun

  -- A request that nothing interrupts, at whichever of its co_awaits the reactor makes it wait: the
  -- coroutine of dispatch ends, and its reply and the shard after it are those of dispatch in
  -- Server/Dispatch, where each method is its coroutine run to the end. This is what lets the other
  -- files treat a request as one step.
  pub complete-waiting_dispatch :
      (body session_id : Str) (s : McpShard js W)
      → complete (waiting_dispatch js W d body session_id s)
        ≡ dispatch js W (alone js (McpShard js W) d) body session_id s
  unfolding waiting_dispatch dispatch
  complete-waiting_dispatch body session_id s =
      complete-answer body session_id s (take_response js W (parse body) (requests_of js W s))
