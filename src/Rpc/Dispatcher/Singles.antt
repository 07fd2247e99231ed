-- ===== src/Rpc/Dispatcher/Singles.antt =====
-- What handle_single answers to one request.
use mcp_server.Base.{
  ◌≡◌, refl, sym, ap, ◌∙◌, subst, inl, inr, Bool, true, false, [], Option, none, some, arith,
  Bool-cases, Option-cases, Str, str_eq, lit, lookup, Outcome, returned, thrown,
}
use mcp_server.Json.{JsonLib, JsonError, type_error, is_object, value_json-returned}
use mcp_server.Rpc.{invalid_request, plain_error}
use mcp_server.Rpc.Dispatcher.{
  JsonRpcDispatcher, NotificationHandler, RpcReply, notify, route, has_form, read_method,
  handle_single,
}
use mcp_server.Rpc.Dispatcher.Replies.{IsReply, CarriesError}
use mcp_server.Rpc.Dispatcher.Answers.{
  Answers, Answers-map, id_of, answer_error, malformed, routed, IsTame, IsTextual, call-IsReply,
}

module _ (js : JsonLib) (S : Type 0) where
  open js use {Json, find, dump, null, object}

  -- The method that a request of the right form names.
  method_of :
      (req : Json)
      → has_form js S req ≡ true
      → IsTextual js S req
      → (m : Str) × (read_method js S (find (lit "method") req) ≡ returned m)
  unfolding has_form
  method_of req h t = elim (Option-cases (find (lit "method") req)) [
    | inl e ↦ absurd (ground (arith, h, e))
    | inr (v, e) ↦
        let (m, r) = t v e in
        (
          m,
          ap (read_method js S) e
              ∙ ap
                  (λ (o : Option Str). elim o as (λ _. Outcome JsonError Str) [
                    | none ↦ thrown (type_error (js.convert_message v))
                    | some u ↦ returned u
                  ])
                  r,
        )
  ]

  pub notify-returned :
      (params : Json) (o : Option (NotificationHandler js S)) (s : S)
      → (notify js S params o s).0 ≡ returned none
  unfolding notify
  notify-returned params none s = refl
  notify-returned params (some handler) s = refl

  -- The error object of a request of the wrong form.
  abbrev pub IsInvalid : Json → Json → Type 0
  IsInvalid req =
      CarriesError js (id_of js S (find (lit "id") req))
        (plain_error js invalid_request (lit "Invalid Request"))

  -- What becomes of a request: whether it has the right form, and its id.
  abbrev pub IsServed : Json → S → Bool → Option Json → RpcReply js S × S → Type 0
  IsServed req s false none (reply, t) = Answers js S (IsInvalid req) reply × (t ≡ s)
  IsServed req s false (some id) (reply, t) =
      Answers js S (IsInvalid req) reply × Answers js S (IsReply js id) reply × (t ≡ s)
  IsServed req s true none (reply, t) = reply ≡ returned none
  IsServed req s true (some id) (reply, t) = Answers js S (IsReply js id) reply

  pub handle_single_cases :
      (d : JsonRpcDispatcher js S) (req : Json) (s : S)
      → is_object js req ≡ true
      → IsTextual js S req
      → IsTame js S d
      → (has_form js S req ≡ false
          → Answers js S (IsInvalid req) (handle_single js S d req s).0
            × ((handle_single js S d req s).1 ≡ s))
        × (has_form js S req ≡ true
            → find (lit "id") req ≡ none
            → (handle_single js S d req s).0 ≡ returned none)
        × ((id : Json)
            → find (lit "id") req ≡ some id
            → Answers js S (IsReply js id) (handle_single js S d req s).0)
  unfolding route
  handle_single_cases d req s o t tame =
      let wrong : has_form js S req ≡ false
          → Answers js S (IsInvalid req) (handle_single js S d req s).0 =
        λ h.
          subst (λ (r : RpcReply js S × S). Answers js S (IsInvalid req) r.0)
            (sym (malformed js S d req s o h))
            (answer_error js S (id_of js S (find (lit "id") req)) invalid_request
              (lit "Invalid Request")) in
      (
        λ h. (wrong h, ap (λ r. r.1) (malformed js S d req s o h)),
        λ h n.
            let (m, e) = method_of req h t in
            let (p, f, _, _) = value_json-returned js req (lit "params") (object []) o in
            ap (λ r. r.0) (routed js S d req p m s h e f)
            ∙ (ap (λ i. (route js S d i m p s).0) n
                ∙ notify-returned p (lookup m d.notifications) s),
        λ id n. elim (Bool-cases (has_form js S req)) [
          | inl h ↦
              let (m, e) = method_of req h t in
              let (p, f, _, _) = value_json-returned js req (lit "params") (object []) o in
              subst (λ r. Answers js S (IsReply js id) r)
                (sym (
                  ap (λ r. r.0) (routed js S d req p m s h e f)
                  ∙ ap (λ i. (route js S d i m p s).0) n))
                (call-IsReply js S d id p m s tame)
          | inr h ↦
              Answers-map js S _ _ _
                (λ j v. subst (λ i. IsReply js i j) (ap (id_of js S) n) v.reply) (wrong h)
        ],
      )

  served :
      (req : Json) (s : S) (form : Bool) (id : Option Json) (out : RpcReply js S × S)
      → (form ≡ false → Answers js S (IsInvalid req) out.0 × (out.1 ≡ s))
      → (form ≡ true → id ≡ none → out.0 ≡ returned none)
      → ((i : Json) → id ≡ some i → Answers js S (IsReply js i) out.0)
      → IsServed req s form id out
  served req s false none out wrong silent answered = wrong refl
  served req s false (some id) out wrong silent answered =
      ((wrong refl).0, answered id refl, (wrong refl).1)
  served req s true none out wrong silent answered = silent refl refl
  served req s true (some id) out wrong silent answered = answered id refl

  -- A request that is an object, with a text as its method if it has one: one of the wrong form is
  -- refused as Invalid Request and changes nothing; a notification gets no reply; and where methods
  -- throw nothing but std::exception, a request with an id gets the text of a JSON-RPC 2.0 reply with
  -- that id, which holds a result or an error and not both, or, where that reply cannot be dumped, what
  -- dump throws in its place.
  pub handle_single-IsReply :
      (d : JsonRpcDispatcher js S) (req : Json) (s : S)
      → is_object js req ≡ true
      → IsTextual js S req
      → IsTame js S d
      → IsServed req s (has_form js S req) (find (lit "id") req) (handle_single js S d req s)
  handle_single-IsReply d req s o t tame =
      let (wrong, silent, reply) = handle_single_cases d req s o t tame in
      served req s (has_form js S req) (find (lit "id") req) (handle_single js S d req s) wrong
        silent reply
