-- ===== src/Rpc/Dispatcher/Escapes.antt =====
-- What does not get through: batches beyond the limit, and elements that are no object.
use mcp_server.Base.{
  ◌≡◌, ◌≤◌, ◌<◌, refl, ap, ◌∙◌, false, List, [], ◌∷◌, ◌++◌, arith, Outcome, returned, thrown,
  length, is_empty, or_else, lt→ltb,
}
use mcp_server.Json.{JsonLib, type_error, is_object}
use mcp_server.Rpc.{invalid_request, plain_error}
use mcp_server.Rpc.Dispatcher.{
  Escape, json_escape, JsonRpcDispatcher, RpcReply, handle_single, next_element, run_batch,
  send_batch, handle_batch, too_large,
}
use mcp_server.Rpc.Dispatcher.Replies.{CarriesError}
use mcp_server.Rpc.Dispatcher.Answers.{Answers, answer_error, non_object_escapes}

module _ (js : JsonLib) (S : Type 0) where
  open js use {Json, null}

  next_element-append :
      (d : JsonRpcDispatcher js S) (reqs more responses out : List Json) (r : RpcReply js S × S)
      (t : S)
      → ((rs : List Json) (s : S)
          → run_batch js S d reqs rs s ≡ (returned out, t)
          → run_batch js S d (reqs ++ more) rs s ≡ run_batch js S d more out t)
      → next_element js S (run_batch js S d reqs) responses r ≡ (returned out, t)
      → next_element js S (run_batch js S d (reqs ++ more)) responses r
        ≡ run_batch js S d more out t
  unfolding next_element
  next_element-append d reqs more responses out (thrown e, s) t ih h = absurd (cc)
  next_element-append d reqs more responses out (returned text, s) t ih h = ih _ s h

  run_batch-append :
      (d : JsonRpcDispatcher js S) (reqs more responses out : List Json) (s t : S)
      → run_batch js S d reqs responses s ≡ (returned out, t)
      → run_batch js S d (reqs ++ more) responses s ≡ run_batch js S d more out t
  unfolding run_batch
  run_batch-append d [] more responses out s t h =
      ap (λ r. run_batch js S d more (or_else [] r.0) r.1) h
  run_batch-append d (req ∷ reqs) more responses out s t h =
      next_element-append d reqs more responses out (handle_single js S d req s) t
        (λ rs u. run_batch-append d reqs more rs out u t) h

  -- A batch of more than max_batch_size elements is refused as an invalid request without an id, and
  -- none of its elements is handled.
  pub handle_batch-too_large :
      (d : JsonRpcDispatcher js S) (reqs : List Json) (s : S)
      → d.max_batch_size < length reqs
      → Answers js S
          (CarriesError js null (plain_error js invalid_request (too_large js S d.max_batch_size)))
          (handle_batch js S d reqs s).0
        × ((handle_batch js S d reqs s).1 ≡ s)
  unfolding handle_batch
  handle_batch-too_large d [] s h = absurd (omega arith)
  handle_batch-too_large d (req ∷ reqs) s h =
      rw (lt→ltb d.max_batch_size (length (req ∷ reqs)) h)
        (answer_error js S null invalid_request (too_large js S d.max_batch_size), refl)

  append-is_empty :
      (reqs : List Json) (bad : Json) (rest : List Json) → is_empty (reqs ++ bad ∷ rest) ≡ false
  append-is_empty [] bad rest = refl
  append-is_empty (req ∷ reqs) bad rest = refl

  within :
      (d : JsonRpcDispatcher js S) (reqs : List Json) (s : S)
      → is_empty reqs ≡ false
      → length reqs ≤ d.max_batch_size
      → handle_batch js S d reqs s
        ≡ (send_batch js S (run_batch js S d reqs [] s).0, (run_batch js S d reqs [] s).1)
  unfolding handle_batch
  within d reqs s some_ few = ground arith

  -- An element that is no object, behind elements that are handled without an exception, ends the
  -- batch within the limit in a type_error: the replies in front of it are lost, what those elements
  -- did stays done, and no element behind it is handled.
  pub handle_batch_loses :
      (d : JsonRpcDispatcher js S) (reqs rest out : List Json) (bad : Json) (s t : S)
      → run_batch js S d reqs [] s ≡ (returned out, t)
      → is_object js bad ≡ false
      → length (reqs ++ bad ∷ rest) ≤ d.max_batch_size
      → handle_batch js S d (reqs ++ bad ∷ rest) s
        ≡ (thrown (json_escape (type_error (js.value_message bad))), t)
  unfolding run_batch next_element send_batch
  handle_batch_loses d reqs rest out bad s t h b few =
      let ended : run_batch js S d (bad ∷ rest) out t
          ≡ (thrown (json_escape (type_error (js.value_message bad))), t) =
        ap (next_element js S (run_batch js S d rest) out) (non_object_escapes js S d bad t b) in
      within d (reqs ++ bad ∷ rest) s (append-is_empty reqs bad rest) few
      ∙ ap (λ (r : Outcome Escape (List Json) × S). (send_batch js S r.0, r.1))
          (run_batch-append d reqs (bad ∷ rest) [] out s t h ∙ ended)
