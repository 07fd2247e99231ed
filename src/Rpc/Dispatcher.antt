-- ===== src/Rpc/Dispatcher.antt =====
-- include/mcp/router/dispatcher.hh: JsonRpcDispatcher. A handler is a function of its parameters and
-- of the server's state `S`; no other request runs while it waits.
pub mod Replies
pub mod Answers
pub mod Singles
pub mod Calls
pub mod Batches
pub mod Escapes
pub mod Requests
mod Tests
use mcp_server.Base.{
  ℕ, Bool, false, ◌&&◌, not, List, [], ◌∷◌, ◌++◌, Option, none, some, ltb, if◌then◌else◌, Str,
  str_eq, lit, is_empty, length, to_string, Dict, lookup, insert, Outcome, returned, thrown,
}
use mcp_server.Json.{
  JsonLib, JsonError, type_error, contains, is_object, is_array, is_text, read_string, value_json,
}
use mcp_server.Rpc.{
  JsonRpcErrorCode, parse_error, invalid_request, method_not_found, internal_error, code_value,
  JsonRpcError, JsonRpcResponse, HandlerError, rpc_exception, std_exception, foreign_exception,
  plain_error, to_json,
}

-- What leaves handle_request as an exception.
pub data Escape : Type 0 where
  json_escape : JsonError → Escape
  foreign_escape : Escape

module _ (js : JsonLib) (S : Type 0) where
  open js use {Json, parse, dump, find, elements, null, array, object}

  abbrev pub MethodHandler : Type 0
  MethodHandler = Json → S → Outcome (HandlerError js) Json × S

  -- What a notification's handler throws is dropped by run_in_background.
  abbrev pub NotificationHandler : Type 0
  NotificationHandler = Json → S → S

  pub record JsonRpcDispatcher : Type 0 where
    pub methods : Dict Str MethodHandler
    pub notifications : Dict Str NotificationHandler
    pub max_batch_size : ℕ

  abbrev pub new_dispatcher : JsonRpcDispatcher
  new_dispatcher = record { methods = []; notifications = []; max_batch_size = 20 }

  pub register_method : Str → MethodHandler → JsonRpcDispatcher → JsonRpcDispatcher
  register_method method handler d = record d { methods = insert method handler d.methods }

  pub register_notification : Str → NotificationHandler → JsonRpcDispatcher → JsonRpcDispatcher
  register_notification method handler d = record d {
    notifications = insert method handler d.notifications;
  }

  pub set_max_batch_size : ℕ → JsonRpcDispatcher → JsonRpcDispatcher
  set_max_batch_size n d = record d { max_batch_size = n }

  abbrev pub RpcReply : Type 0
  RpcReply = Outcome Escape (Option Str)

  -- `dump()`
  abbrev pub send_text : Outcome JsonError Str → RpcReply
  send_text (thrown e) = thrown (json_escape e)
  send_text (returned text) = returned (some text)

  -- `json(response).dump()`
  abbrev pub send : JsonRpcResponse js → RpcReply
  send r = send_text (dump (to_json js r))

  -- `JsonRpcResponse err{"2.0", id, nullptr, JsonRpcError{code, message, nullptr}}`
  abbrev pub refusal : Json → JsonRpcErrorCode → Str → JsonRpcResponse js
  refusal id code message = record {
    jsonrpc = lit "2.0";
    id = id;
    result = some null;
    error = some (plain_error js code message);
  }

  -- The response after the try block; what is no std::exception passes through.
  unfoldable pub answered :
      Json → Outcome (HandlerError js) Json → Outcome Escape (JsonRpcResponse js)
  answered id (returned r) =
      returned (record { jsonrpc = lit "2.0"; id = id; result = some r; error = none })
  answered id (thrown (rpc_exception code message details)) = returned (record {
    jsonrpc = lit "2.0";
    id = id;
    result = some null;
    error = some (record { code = code_value code; message = message; details = details });
  })
  answered id (thrown (std_exception message)) = returned (refusal id internal_error message)
  answered id (thrown foreign_exception) = thrown foreign_escape

  unfoldable pub send_outcome : Outcome Escape (JsonRpcResponse js) → RpcReply
  send_outcome (returned r) = send r
  send_outcome (thrown e) = thrown e

  unfoldable pub call : Json → Str → Json → Option MethodHandler → S → RpcReply × S
  unfolding answered send_outcome
  call id method params none s =
      (send (refusal id method_not_found (lit "Method not found: " ++ method)), s)
  call id method params (some handler) s =
      let (outcome, s') = handler params s in (send_outcome (answered id outcome), s')

  pub notify : Json → Option NotificationHandler → S → RpcReply × S
  notify params none s = (returned none, s)
  notify params (some handler) s = (returned none, handler params s)

  -- Past the check of the form: `method` and `params` are read, then the call is made.
  unfoldable pub route : JsonRpcDispatcher → Option Json → Str → Json → S → RpcReply × S
  unfolding call notify
  route d none method params s = notify params (lookup method d.notifications) s
  route d (some id) method params s = call id method params (lookup method d.methods) s

  is_two : Option Json → Bool
  is_two none = false
  is_two (some v) = is_text js v (lit "2.0")

  unfoldable pub has_form : Json → Bool
  unfolding is_two
  has_form req =
      is_object js req && (is_two (find (lit "jsonrpc") req) && contains js req (lit "method"))

  -- `req.value("id", json(nullptr))` throws where the request is no object.
  pub refuse_form : Outcome JsonError Json → RpcReply
  refuse_form (returned id) = send (refusal id invalid_request (lit "Invalid Request"))
  refuse_form (thrown e) = thrown (json_escape e)

  -- `std::string method = req["method"]` throws where that is no text.
  abbrev pub read_method : Option Json → Outcome JsonError Str
  read_method none = thrown (type_error (js.convert_message null))
  read_method (some v) = read_string js v

  unfoldable pub with_method :
      JsonRpcDispatcher → Json → Outcome JsonError Str → Outcome JsonError Json → S → RpcReply × S
  unfolding route
  with_method d req (thrown e) params s = (thrown (json_escape e), s)
  with_method d req (returned method) (thrown e) s = (thrown (json_escape e), s)
  with_method d req (returned method) (returned params) s =
      route d (find (lit "id") req) method params s

  unfoldable pub handle_single : JsonRpcDispatcher → Json → S → RpcReply × S
  unfolding has_form refuse_form with_method
  handle_single d req s =
      if has_form req
      then with_method d req (read_method (find (lit "method") req))
          (value_json js req (lit "params") (object [])) s
      else (refuse_form (value_json js req (lit "id") null), s)

  -- `responses.push_back(json::parse(*resp))`, dropped where it throws
  pub collect : Option Str → List Json → List Json
  collect none responses = responses
  collect (some text) responses = elim (parse text) [
    | none ↦ responses
    | some j ↦ responses ++ j ∷ []
  ]

  -- One turn of the loop over the elements; an exception ends it.
  unfoldable pub next_element :
      (List Json → S → Outcome Escape (List Json) × S)
      → List Json
      → RpcReply × S
      → Outcome Escape (List Json) × S
  unfolding collect
  next_element rest responses (thrown e, s) = (thrown e, s)
  next_element rest responses (returned text, s) = rest (collect text responses) s

  unfoldable pub run_batch :
      JsonRpcDispatcher → List Json → List Json → S → Outcome Escape (List Json) × S
  unfolding handle_single next_element
  run_batch d [] responses s = (returned responses, s)
  run_batch d (elem ∷ elems) responses s =
      next_element (run_batch d elems) responses (handle_single d elem s)

  unfoldable pub send_batch : Outcome Escape (List Json) → RpcReply
  send_batch (thrown e) = thrown e
  send_batch (returned []) = returned none
  send_batch (returned (r ∷ rs)) = send_text (dump (array (r ∷ rs)))

  pub too_large : ℕ → Str
  too_large n = lit "Batch too large: max " ++ (to_string n ++ lit " requests per batch")

  unfoldable pub handle_batch : JsonRpcDispatcher → List Json → S → RpcReply × S
  unfolding run_batch send_batch too_large
  handle_batch d elems s =
      if is_empty elems
      then (send (refusal null invalid_request (lit "Invalid Request: empty batch")), s)
      else if ltb d.max_batch_size (length elems)
      then (send (refusal null invalid_request (too_large d.max_batch_size)), s)
      else let (outcome, s') = run_batch d elems [] s in (send_batch outcome, s')

  unfoldable pub handle_parsed : JsonRpcDispatcher → Option Json → S → RpcReply × S
  unfolding handle_batch handle_single
  handle_parsed d none s = (send (refusal null parse_error (lit "Parse error")), s)
  handle_parsed d (some req) s =
      if is_array js req then handle_batch d (elements req) s else handle_single d req s

  unfoldable pub handle_request : JsonRpcDispatcher → Str → S → RpcReply × S
  unfolding handle_parsed
  handle_request d raw_body s = handle_parsed d (parse raw_body) s
