-- ===== src/Rpc/Dispatcher/Answers.antt =====
-- A reply as the text of a value, and the ways through handle_single.
use mcp_server.Base.{
  ◌≡◌, refl, sym, ap, ◌∙◌, subst, ◌≢◌, inl, inr, true, false, [], ◌++◌, Option, none, some, arith,
  Option-cases, Str, str_eq, lit, lookup, Outcome, returned, thrown,
}
use mcp_server.Json.{JsonLib, type_error, is_object, value_json, value_json-returned}
use mcp_server.Rpc.{
  JsonRpcErrorCode, invalid_request, method_not_found, internal_error, code_value, HandlerError,
  rpc_exception, std_exception, foreign_exception, to_json, plain_error, outcome_json,
}
use mcp_server.Rpc.Dispatcher.{
  json_escape, JsonRpcDispatcher, MethodHandler, RpcReply, send, send_text, refusal, answered,
  send_outcome, call, route, has_form, refuse_form, read_method, with_method, handle_single,
}
use mcp_server.Rpc.Dispatcher.Replies.{
  IsReply, CarriesResult, CarriesError, result-CarriesResult, error-CarriesError,
  refusal-CarriesError,
}

module _ (js : JsonLib) (S : Type 0) where
  open js use {Json, find, dump, null, object}

  -- The reply is the text of a value with the property, or what dump throws on that value.
  pub record Answers (P : Json → Type 0) (reply : RpcReply js S) : Type 0 where
    pub value : Json
    pub holds : P value
    pub sent : reply ≡ send_text js S (dump value)

  pub Answers-map :
      (P Q : Json → Type 0) (reply : RpcReply js S)
      → ((j : Json) → P j → Q j)
      → Answers P reply
      → Answers Q reply
  Answers-map P Q reply f a = record { value = a.value; holds = f a.value a.holds; sent = a.sent }

  -- The id that a reply repeats.
  abbrev pub id_of : Option Json → Json
  id_of none = null
  id_of (some id) = id

  pub answer_error :
      (id : Json) (code : JsonRpcErrorCode) (message : Str)
      → Answers
          (CarriesError js id (plain_error js code message))
          (send js S (refusal js S id code message))
  answer_error id code message = record {
    value = _;
    holds = refusal-CarriesError js S id code message;
    sent = refl;
  }

  pub form_object : (req : Json) → has_form js S req ≡ true → is_object js req ≡ true
  unfolding has_form
  form_object req h = ground (arith, h)

  -- A request that is no object has no id to repeat: the reply is lost to an exception.
  pub non_object_escapes :
      (d : JsonRpcDispatcher js S) (req : Json) (s : S)
      → is_object js req ≡ false
      → handle_single js S d req s ≡ (thrown (json_escape (type_error (js.value_message req))), s)
  unfolding handle_single has_form refuse_form value_json
  non_object_escapes d req s h = rw h refl

  value_id :
      (req : Json)
      → is_object js req ≡ true
      → value_json js req (lit "id") null ≡ returned (id_of (find (lit "id") req))
  value_id req h =
      let (v, e, found, absent) = value_json-returned js req (lit "id") null h in
      elim (Option-cases (find (lit "id") req)) [
        | inl n ↦ e ∙ ap returned (absent n ∙ sym (ap id_of n))
        | inr (w, n) ↦ e ∙ ap returned (found w n ∙ sym (ap id_of n))
      ]

  pub malformed :
      (d : JsonRpcDispatcher js S) (req : Json) (s : S)
      → is_object js req ≡ true
      → has_form js S req ≡ false
      → handle_single js S d req s ≡ (
        send js S
            (refusal js S (id_of (find (lit "id") req)) invalid_request (lit "Invalid Request")),
        s,
      )
  unfolding handle_single refuse_form
  malformed d req s o h = rw h (ap (λ x. (refuse_form js S x, s)) (value_id req o))

  pub routed :
      (d : JsonRpcDispatcher js S) (req params : Json) (method : Str) (s : S)
      → has_form js S req ≡ true
      → read_method js S (find (lit "method") req) ≡ returned method
      → value_json js req (lit "params") (object []) ≡ returned params
      → handle_single js S d req s ≡ route js S d (find (lit "id") req) method params s
  unfolding handle_single with_method
  routed d req params method s h m p = rw h (
      ap (λ x. with_method js S d req x (value_json js req (lit "params") (object [])) s) m
      ∙ ap (λ x. with_method js S d req (returned method) x s) p)

  -- Methods that throw nothing but std::exception.
  abbrev pub IsTame : JsonRpcDispatcher js S → Type 0
  IsTame d =
      (method : Str) (handler : MethodHandler js S)
      → lookup method d.methods ≡ some handler
      → (params : Json) (s : S) → (handler params s).0 ≢ thrown foreign_exception

  -- A method member, where there is one, is a text.
  abbrev pub IsTextual : Json → Type 0
  IsTextual req =
      (v : Json) → find (lit "method") req ≡ some v → (m : Str) × (js.as_string v ≡ some m)

  pub result_answer :
      (id r : Json)
      → Answers (CarriesResult js id r) (send_outcome js S (answered js S id (returned r)))
  unfolding send_outcome answered to_json outcome_json
  result_answer id r = record { value = _; holds = result-CarriesResult js id r; sent = refl }

  pub std_answer :
      (id : Json) (message : Str)
      → Answers
          (CarriesError js id (plain_error js internal_error message))
          (send_outcome js S (answered js S id (thrown (std_exception message))))
  unfolding send_outcome answered
  std_answer id message = answer_error id internal_error message

  pub rpc_answer :
      (id details : Json) (code : JsonRpcErrorCode) (message : Str)
      → Answers
          (CarriesError js id
            (record { code = code_value code; message = message; details = details }))
          (send_outcome js S (answered js S id (thrown (rpc_exception code message details))))
  unfolding send_outcome answered to_json outcome_json
  rpc_answer id details code message = record {
    value = _;
    holds = error-CarriesError js id _;
    sent = refl;
  }

  outcome-IsReply :
      (id : Json) (o : Outcome (HandlerError js) Json)
      → o ≢ thrown foreign_exception
      → Answers (IsReply js id) (send_outcome js S (answered js S id o))
  outcome-IsReply id (returned r) n = Answers-map _ _ _ (λ j v. v.reply) (result_answer id r)
  outcome-IsReply id (thrown (rpc_exception code message details)) n =
      Answers-map _ _ _ (λ j v. v.reply) (rpc_answer id details code message)
  outcome-IsReply id (thrown (std_exception message)) n =
      Answers-map _ _ _ (λ j v. v.reply) (std_answer id message)
  outcome-IsReply id (thrown foreign_exception) n = absurd (n refl)

  pub call-IsReply :
      (d : JsonRpcDispatcher js S) (id params : Json) (method : Str) (s : S)
      → IsTame d
      → Answers (IsReply js id) (call js S id method params (lookup method d.methods) s).0
  unfolding call
  call-IsReply d id params method s tame = elim (Option-cases (lookup method d.methods)) [
    | inl e ↦
        subst (λ o. Answers (IsReply js id) (call js S id method params o s).0) (sym e)
          (Answers-map _ _ _ (λ j v. v.reply)
            (answer_error id method_not_found (lit "Method not found: " ++ method)))
    | inr (handler, e) ↦
        subst (λ o. Answers (IsReply js id) (call js S id method params o s).0) (sym e)
          (outcome-IsReply id (handler params s).0 (tame method handler e params s))
  ]
