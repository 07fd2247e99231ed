-- ===== src/Rpc/Dispatcher/Calls.antt =====
-- What the call of a method is answered with.
use mcp_server.Base.{
  ◌≡◌, refl, sym, ap, ◌∙◌, subst, true, [], ◌++◌, Option, none, some, Str, str_eq, lit, lookup,
  Outcome, returned, thrown,
}
use mcp_server.Json.{JsonLib, value_json}
use mcp_server.Rpc.{
  method_not_found, internal_error, code_value, HandlerError, rpc_exception, std_exception,
  foreign_exception, plain_error,
}
use mcp_server.Rpc.Dispatcher.{
  Escape, JsonRpcDispatcher, MethodHandler, RpcReply, answered, send_outcome, call, route, has_form,
  read_method, handle_single,
}
use mcp_server.Rpc.Dispatcher.Replies.{CarriesResult, CarriesError}
use mcp_server.Rpc.Dispatcher.Answers.{
  Answers, answer_error, routed, result_answer, std_answer, rpc_answer,
}

module _ (js : JsonLib) (S : Type 0) where
  open js use {Json, find, dump, null, object}

  -- What a call is answered with, and what it leaves behind.
  abbrev pub IsAnswered : Json → Outcome (HandlerError js) Json → RpcReply js S → Type 0
  IsAnswered id (returned r) reply = Answers js S (CarriesResult js id r) reply
  IsAnswered id (thrown (rpc_exception code message details)) reply =
      Answers js S
        (CarriesError js id
          (record { code = code_value code; message = message; details = details }))
        reply
  IsAnswered id (thrown (std_exception message)) reply =
      Answers js S (CarriesError js id (plain_error js internal_error message)) reply
  IsAnswered id (thrown foreign_exception) reply = reply ≡ thrown Escape.foreign_escape

  outcome-IsAnswered :
      (id : Json) (o : Outcome (HandlerError js) Json)
      → IsAnswered id o (send_outcome js S (answered js S id o))
  unfolding send_outcome answered
  outcome-IsAnswered id (returned r) = result_answer js S id r
  outcome-IsAnswered id (thrown (rpc_exception code message details)) =
      rpc_answer js S id details code message
  outcome-IsAnswered id (thrown (std_exception message)) = std_answer js S id message
  outcome-IsAnswered id (thrown foreign_exception) = refl

  abbrev pub IsUnknown : Json → Str → Json → Type 0
  IsUnknown id method =
      CarriesError js id (plain_error js method_not_found (lit "Method not found: " ++ method))

  -- What becomes of a call: the method that is registered under its name, if there is one.
  abbrev pub IsCalled :
      Json → Str → Json → S → Option (MethodHandler js S) → RpcReply js S × S → Type 0
  IsCalled id method params s none (reply, t) = Answers js S (IsUnknown id method) reply × (t ≡ s)
  IsCalled id method params s (some handler) (reply, t) =
      IsAnswered id (handler params s).0 reply × (t ≡ (handler params s).1)

  call-IsCalled :
      (id params : Json) (method : Str) (s : S) (o : Option (MethodHandler js S))
      → IsCalled id method params s o (call js S id method params o s)
  unfolding call
  call-IsCalled id params method s none =
      (answer_error js S id method_not_found (lit "Method not found: " ++ method), refl)
  call-IsCalled id params method s (some handler) =
      (outcome-IsAnswered id (handler params s).0, refl)

  -- A call of the right form, with its method, parameters (an empty object by default) and id: where
  -- no method is registered under the name it is answered Method not found and changes nothing. Else
  -- it runs the method once on the parameters: a result is answered with that result, a
  -- JsonRpcException with its code, message and data, another std::exception with an internal error
  -- and its message, and what is no std::exception leaves handle_single. Where a reply cannot be
  -- dumped, what dump throws stands in its place.
  pub handle_single-IsAnswered :
      (d : JsonRpcDispatcher js S) (req id params : Json) (method : Str) (s : S)
      → has_form js S req ≡ true
      → read_method js S (find (lit "method") req) ≡ returned method
      → find (lit "id") req ≡ some id
      → value_json js req (lit "params") (object []) ≡ returned params
      → IsCalled id method params s (lookup method d.methods) (handle_single js S d req s)
  unfolding route
  handle_single-IsAnswered d req id params method s h m i p =
      let called : handle_single js S d req s
          ≡ call js S id method params (lookup method d.methods) s =
        routed js S d req params method s h m p ∙ ap (λ n. route js S d n method params s) i in
      subst (IsCalled id method params s (lookup method d.methods)) (sym called)
        (call-IsCalled id params method s (lookup method d.methods))
