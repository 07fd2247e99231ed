-- ===== src/Server/Interleaving/Replies.antt =====
-- The replies to interleaved requests.
use mcp_server.Base.{
  ◌≡◌, refl, ap, sym, subst, Bool, false, Option, none, some, inl, inr, if◌then◌else◌, Str, ℕ,
  get_elem?, get_elem?-snoc, get_elem?-set_hit, returned,
}
use mcp_server.Json.{JsonLib}
use mcp_server.Rpc.Coroutines.{finished, Yields, Yields-await}
use mcp_server.Rpc.Dispatcher.{handle_request}
use mcp_server.Rpc.Waiting.{pass_on, waiting_request}
use mcp_server.Rpc.Waiting.Alone.{alone}
use mcp_server.Rpc.Waiting.Steady.{IsSteady, waiting_request-Yields}
use mcp_server.Server.Requests.{ClientRequests, handle_client_response}
use mcp_server.Server.Dispatch.{
  McpShard, requests_of, with_requests, is_client_response, take_response, begin_request,
}
use mcp_server.Server.Interleaving.{
  Dispatcher, DispatchReply, waiting_answer, waiting_dispatch, Task, Reactor, Step, arrives,
  resumes, elsewhere, Reach, starts, goes_on,
}

module _ (js : JsonLib) (W : Type 0) where
  open js use {Json, parse}

  -- The body has the form of a client's response to a request of the server.
  abbrev pub may_answer : Option Json → Bool
  may_answer none = false
  may_answer (some j) = is_client_response js W j

  pub take_response-asks :
      (o : Option Json) (r : ClientRequests js)
      → may_answer o ≡ false
      → take_response js W o r ≡ (returned false, r)
  unfolding take_response
  take_response-asks none r e = refl
  take_response-asks (some j) r e =
      ap (λ b. if b then handle_client_response js r j else (returned false, r)) e

  module _ (d : Dispatcher js W) (steady : IsSteady js (McpShard js W) d)
      (before : McpShard js W) where
    abbrev expected : Str → DispatchReply js W
    expected body = (handle_request js (McpShard js W) (alone js (McpShard js W) d) body before).0

    waiting_dispatch-Yields :
        (body session_id : Str) (s : McpShard js W)
        → may_answer (parse body) ≡ false
        → Yields (expected body) (waiting_dispatch js W d body session_id s).0
    unfolding waiting_dispatch Yields
    waiting_dispatch-Yields body session_id s e =
        let begun =
          begin_request js W session_id (parse body) (with_requests js W (requests_of js W s) s) in
        let started = waiting_request js (McpShard js W) d body begun in
        subst (λ r. Yields (expected body) (waiting_answer js W d body session_id s r).0)
          (sym (take_response-asks (parse body) (requests_of js W s) e))
          (Yields-await (expected body) (expected body) (pass_on js (McpShard js W)) (λ t. refl)
            d.need_preempt started.0 started.1
            (waiting_request-Yields js (McpShard js W) d body before begun steady))

    abbrev IsOnTrack : Reactor js W → Type 0
    IsOnTrack c =
        (i : ℕ) (t : Task js W)
        → get_elem? c.tasks i ≡ some t
        → may_answer (parse t.body) ≡ false
        → Yields (expected t.body) t.progress

    Step-IsOnTrack : (c c' : Reactor js W) → Step js W d c c' → IsOnTrack c → IsOnTrack c'
    unfolding Yields
    Step-IsOnTrack c c' (arrives body session_id) h i t e asks =
        elim (get_elem?-snoc c.tasks _ i t e) [
          | inl old ↦ h i t old asks
          | inr new ↦
              subst
                (λ (u : Task js W).
                  may_answer (parse u.body) ≡ false → Yields (expected u.body) u.progress)
                new (waiting_dispatch-Yields body session_id c.shard) asks
        ]
    Step-IsOnTrack c c' (resumes j u {effect} {next} there waits) h i t e asks =
        elim (get_elem?-set_hit c.tasks j i _ t e) [
          | inl old ↦ h i t old asks
          | inr new ↦
              subst
                (λ (v : Task js W).
                  may_answer (parse v.body) ≡ false → Yields (expected v.body) v.progress)
                new (λ a. subst (Yields (expected u.body)) waits (h j u there a) c.shard) asks
        ]
    Step-IsOnTrack c c' (elsewhere effect) h i t e asks = h i t e asks

    Reach-IsOnTrack : (s : McpShard js W) (c : Reactor js W) → Reach js W d s c → IsOnTrack c
    Reach-IsOnTrack s c starts = λ i t e asks. cc
    Reach-IsOnTrack s c (goes_on {c = b} reached step) =
        Step-IsOnTrack b c step (Reach-IsOnTrack s b reached)

  -- Requests that run at the same time on one core, in any order of their pieces and with anything
  -- else that the core does between them, where the outcome of each method hangs on its parameters
  -- alone. A request that has finished, and is no response of a client, has the reply that the
  -- dispatcher gives it alone, whatever the state `before` it would have run from.
  pub Reach-reply :
      (d : Dispatcher js W) (s before : McpShard js W) (c : Reactor js W) (i : ℕ) (t : Task js W)
      (r : DispatchReply js W)
      → IsSteady js (McpShard js W) d
      → Reach js W d s c
      → get_elem? c.tasks i ≡ some t
      → may_answer (parse t.body) ≡ false
      → t.progress ≡ finished r
      → r ≡ (handle_request js (McpShard js W) (alone js (McpShard js W) d) t.body before).0
  unfolding Yields
  Reach-reply d s before c i t r steady reached there asks done =
      subst (Yields (expected d steady before t.body)) done
        (Reach-IsOnTrack d steady before s c reached i t there asks)
