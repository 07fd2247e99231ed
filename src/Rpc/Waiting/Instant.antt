-- ===== src/Rpc/Waiting/Instant.antt =====
-- Requests for methods that are coroutines without a co_await: most of those that mcp_server.cc
-- registers.
use mcp_server.Base.{◌≡◌, refl, ap, ◌∙◌, some, Str, str_eq, lookup}
use mcp_server.Json.{JsonLib, is_array-object}
use mcp_server.Rpc.Coroutines.{finished, await-state}
use mcp_server.Rpc.Dispatcher.{MethodHandler}
use mcp_server.Rpc.Dispatcher.Requests.{
  request_members, request, request-has_form, request-method, request-id, request-params,
}
use mcp_server.Rpc.Waiting.{
  WaitingHandler, WaitingDispatcher, StartedReply, reply_after, waiting_call, waiting_route,
  waiting_method, waiting_single, pass_on, waiting_parsed,
}

module _ (js : JsonLib) (S : Type 0) where
  open js use {Json, parse, find, object, elements}

  -- All of the method is its first piece.
  abbrev pub instant : MethodHandler js S → WaitingHandler js S
  instant handler params s = let (outcome, t) = handler params s in (finished outcome, t)

  module _ (d : WaitingDispatcher js S) (id : Json) (method : Str) (params : Json) where
    pub waiting_single-request :
        (s : S)
        → waiting_single js S d (request js S id method params) s
          ≡ waiting_call js S d id method params (lookup method d.methods) s
    unfolding waiting_single waiting_method waiting_route
    waiting_single-request s =
        rw
          (
            request-has_form js S id method params,
            request-method js S id method params,
            request-params js S id method params,
            request-id js S id method params,
          )
          refl

    pub waiting_single-instant :
        (handler : MethodHandler js S) (s : S)
        → lookup method d.methods ≡ some (instant handler)
        → (waiting_single js S d (request js S id method params) s).1 ≡ (handler params s).1
    unfolding waiting_call reply_after
    waiting_single-instant handler s e =
        ap (λ (x : StartedReply js S). x.1) (waiting_single-request s)
        ∙ ap (λ o. (waiting_call js S d id method params o s).1) e
        ∙ await-state d.need_preempt (instant handler params s) (reply_after js S id) λ r t. refl

    -- All that the method does is done when the request is taken.
    pub waiting_parsed-instant :
        (handler : MethodHandler js S) (s : S)
        → lookup method d.methods ≡ some (instant handler)
        → (waiting_parsed js S d (some (request js S id method params)) s).1 ≡ (handler params s).1
    unfolding waiting_parsed
    waiting_parsed-instant handler s e =
        let req = request js S id method params in
        rw (is_array-object js (request_members js S id method params)) (
          await-state d.need_preempt (waiting_single js S d req s) (pass_on js S) (λ r t. refl)
          ∙ waiting_single-instant handler s e)
