-- ===== src/Rpc/Waiting/Alone.antt =====
-- A request that nothing interrupts: the coroutines do what Rpc/Dispatcher says.
use mcp_server.Base.{
  ◌≡◌, refl, ap, ◌∙◌, List, [], ◌∷◌, Option, none, some, if_map, ◌==◌, Str, str_eq, lit, is_empty,
  length, ltb, Dict, lookup, Outcome, returned, thrown,
}
use mcp_server.Json.{JsonLib, JsonError, is_array, value_json}
use mcp_server.Rpc.Coroutines.{run, complete, complete-await, continue}
use mcp_server.Rpc.Dispatcher.{
  Escape, JsonRpcDispatcher, MethodHandler, RpcReply, call, route, with_method, has_form,
  read_method, collect, handle_single, next_element, run_batch, send_batch, handle_batch,
  handle_parsed, handle_request,
}
use mcp_server.Rpc.Waiting.{
  WaitingHandler, WaitingDispatcher, reply_after, waiting_call, waiting_route, waiting_method,
  waiting_single, StartedReply, after_element, waiting_elements, waiting_batch, pass_on,
  waiting_parsed, waiting_request,
}

module _ (js : JsonLib) (S : Type 0) where
  open js use {Json, parse, find, elements, object}

  abbrev pub alone_handler : WaitingHandler js S → MethodHandler js S
  alone_handler handler params s = complete (handler params s)

  abbrev pub alone_methods : Dict Str (WaitingHandler js S) → Dict Str (MethodHandler js S)
  alone_methods [] = []
  alone_methods ((key, handler) ∷ rest) = (key, alone_handler handler) ∷ alone_methods rest

  -- The methods, each run to its end.
  abbrev pub alone : WaitingDispatcher js S → JsonRpcDispatcher js S
  alone d = record {
    methods = alone_methods d.methods;
    notifications = d.notifications;
    max_batch_size = d.max_batch_size;
  }

  abbrev alone_found : Option (WaitingHandler js S) → Option (MethodHandler js S)
  alone_found none = none
  alone_found (some handler) = some (alone_handler handler)

  lookup-alone_methods :
      (key : Str) (d : Dict Str (WaitingHandler js S))
      → alone_found (lookup key d) ≡ lookup key (alone_methods d)
  unfolding lookup
  lookup-alone_methods key [] = refl
  lookup-alone_methods key ((k, handler) ∷ rest) =
      if_map alone_found (k == key) refl (lookup-alone_methods key rest)

  complete-call :
      (d : WaitingDispatcher js S) (id params : Json) (method : Str)
      (o : Option (WaitingHandler js S)) (s : S)
      → complete (waiting_call js S d id method params o s)
        ≡ call js S id method params (alone_found o) s
  unfolding waiting_call call reply_after run
  complete-call d id params method none s = refl
  complete-call d id params method (some handler) s =
      complete-await d.need_preempt (handler params s) (reply_after js S id)

  complete-route :
      (d : WaitingDispatcher js S) (id : Option Json) (method : Str) (params : Json) (s : S)
      → complete (waiting_route js S d id method params s) ≡ route js S (alone d) id method params s
  unfolding waiting_route route run
  complete-route d none method params s = refl
  complete-route d (some id) method params s =
      complete-call d id params method (lookup method d.methods) s
      ∙ ap (λ o. call js S id method params o s) (lookup-alone_methods method d.methods)

  complete-method :
      (d : WaitingDispatcher js S) (req : Json) (m : Outcome JsonError Str)
      (p : Outcome JsonError Json) (s : S)
      → complete (waiting_method js S d req m p s) ≡ with_method js S (alone d) req m p s
  unfolding waiting_method with_method run
  complete-method d req (thrown e) p s = refl
  complete-method d req (returned method) (thrown e) s = refl
  complete-method d req (returned method) (returned params) s =
      complete-route d (find (lit "id") req) method params s

  complete-single :
      (d : WaitingDispatcher js S) (req : Json) (s : S)
      → complete (waiting_single js S d req s) ≡ handle_single js S (alone d) req s
  unfolding waiting_single handle_single run
  complete-single d req s =
      if_map complete (has_form js S req)
        (complete-method d req (read_method js S (find (lit "method") req))
          (value_json js req (lit "params") (object [])) s)
        refl

  abbrev sent : Outcome Escape (List Json) × S → RpcReply js S × S
  sent (outcome, s) = (send_batch js S outcome, s)

  -- After an element.
  complete-after_element :
      (rest : List Json → S → StartedReply js S)
      (after : List Json → S → Outcome Escape (List Json) × S) (responses : List Json)
      (r : RpcReply js S × S)
      → ((rs : List Json) (s : S) → complete (rest rs s) ≡ sent (after rs s))
      → continue (after_element js S rest responses) r ≡ sent (next_element js S after responses r)
  unfolding after_element next_element send_batch run
  complete-after_element rest after responses (thrown e, s) h = refl
  complete-after_element rest after responses (returned text, s) h =
      h (collect js S text responses) s

  complete-elements :
      (d : WaitingDispatcher js S) (elems responses : List Json) (s : S)
      → complete (waiting_elements js S d elems responses s)
        ≡ sent (run_batch js S (alone d) elems responses s)
  unfolding waiting_elements run_batch run
  complete-elements d [] responses s = refl
  complete-elements d (elem ∷ elems) responses s =
      let rest = waiting_elements js S d elems in
      complete-await d.need_preempt (waiting_single js S d elem s)
        (after_element js S rest responses)
      ∙ ap (continue (after_element js S rest responses)) (complete-single d elem s)
      ∙ complete-after_element rest (run_batch js S (alone d) elems) responses
          (handle_single js S (alone d) elem s) (complete-elements d elems)

  complete-batch :
      (d : WaitingDispatcher js S) (elems : List Json) (s : S)
      → complete (waiting_batch js S d elems s) ≡ handle_batch js S (alone d) elems s
  unfolding waiting_batch handle_batch run
  complete-batch d elems s =
      if_map complete (is_empty elems) refl (
        if_map complete (ltb d.max_batch_size (length elems)) refl (complete-elements d elems [] s))

  complete-parsed :
      (d : WaitingDispatcher js S) (req : Option Json) (s : S)
      → complete (waiting_parsed js S d req s) ≡ handle_parsed js S (alone d) req s
  unfolding waiting_parsed handle_parsed run
  complete-parsed d none s = refl
  complete-parsed d (some req) s =
      if_map complete (is_array js req) (complete-batch d (elements req) s) (
        complete-await d.need_preempt (waiting_single js S d req s) (pass_on js S)
        ∙ complete-single d req s)

  -- A request that nothing interrupts, whichever of its co_awaits the reactor makes it wait at: its
  -- coroutines end, with the reply and the state that the dispatcher of Rpc/Dispatcher gives when
  -- each method is its coroutine run to the end.
  pub complete-waiting_request :
      (d : WaitingDispatcher js S) (raw_body : Str) (s : S)
      → complete (waiting_request js S d raw_body s) ≡ handle_request js S (alone d) raw_body s
  unfolding waiting_request handle_request
  complete-waiting_request d raw_body s = complete-parsed d (parse raw_body) s
