-- ===== src/Rpc/Waiting.antt =====
-- JsonRpcDispatcher (include/mcp/router/dispatcher.hh) with handlers that wait: the coroutines
-- handle_request and _handle_single, cut at their co_awaits.
pub mod Alone
pub mod Steady
pub mod Instant
use mcp_server.Base.{
  Bool, List, [], ◌∷◌, ◌++◌, Option, none, some, ltb, if◌then◌else◌, Str, str_eq, lit, is_empty,
  length, ℕ, Dict, lookup, Outcome, returned, thrown,
}
use mcp_server.Json.{JsonLib, JsonError, is_array, value_json}
use mcp_server.Rpc.{parse_error, invalid_request, method_not_found, HandlerError}
use mcp_server.Rpc.Coroutines.{Started, finished, await}
use mcp_server.Rpc.Dispatcher.{
  Escape, json_escape, NotificationHandler, RpcReply, send, refusal, answered, send_outcome, notify,
  has_form, refuse_form, read_method, collect, send_batch, too_large,
}

module _ (js : JsonLib) (S : Type 0) where
  open js use {Json, parse, find, elements, null, object}

  -- A method runs up to its first suspension when it is called.
  abbrev pub WaitingHandler : Type 0
  WaitingHandler = Json → S → Started (HandlerError js) S Json

  -- A notification's handler does not wait, as those that the server registers.
  pub record WaitingDispatcher : Type 0 where
    pub methods : Dict Str WaitingHandler
    pub notifications : Dict Str (NotificationHandler js S)
    pub max_batch_size : ℕ
    -- Whether the reactor asks for the core at a co_await of what is ready.
    pub need_preempt : S → Bool

  abbrev pub StartedReply : Type 0
  StartedReply = Started Escape S (Option Str)

  -- A reply without a suspension.
  abbrev pub replied : RpcReply js S × S → StartedReply
  replied (r, s) = (finished r, s)

  -- After the co_await of the method.
  unfoldable pub reply_after : Json → Outcome (HandlerError js) Json → S → StartedReply
  reply_after id outcome s = (finished (send_outcome js S (answered js S id outcome)), s)

  unfoldable pub waiting_call :
      WaitingDispatcher → Json → Str → Json → Option WaitingHandler → S → StartedReply
  unfolding reply_after
  waiting_call d id method params none s = (
    finished (send js S (refusal js S id method_not_found (lit "Method not found: " ++ method))),
    s,
  )
  waiting_call d id method params (some handler) s =
      await d.need_preempt (handler params s) (reply_after id)

  unfoldable pub waiting_route : WaitingDispatcher → Option Json → Str → Json → S → StartedReply
  unfolding waiting_call
  waiting_route d none method params s =
      replied (notify js S params (lookup method d.notifications) s)
  waiting_route d (some id) method params s =
      waiting_call d id method params (lookup method d.methods) s

  unfoldable pub waiting_method :
      WaitingDispatcher → Json → Outcome JsonError Str → Outcome JsonError Json → S → StartedReply
  unfolding waiting_route
  waiting_method d req (thrown e) params s = (finished (thrown (json_escape e)), s)
  waiting_method d req (returned method) (thrown e) s = (finished (thrown (json_escape e)), s)
  waiting_method d req (returned method) (returned params) s =
      waiting_route d (find (lit "id") req) method params s

  -- `_handle_single`
  unfoldable pub waiting_single : WaitingDispatcher → Json → S → StartedReply
  unfolding waiting_method
  waiting_single d req s =
      if has_form js S req
      then waiting_method d req (read_method js S (find (lit "method") req))
          (value_json js req (lit "params") (object [])) s
      else (finished (refuse_form js S (value_json js req (lit "id") null)), s)

  -- After the co_await of an element.
  unfoldable pub after_element :
      (List Json → S → StartedReply) → List Json → Outcome Escape (Option Str) → S → StartedReply
  after_element rest responses (thrown e) s = (finished (thrown e), s)
  after_element rest responses (returned text) s = rest (collect js S text responses) s

  unfoldable pub waiting_elements : WaitingDispatcher → List Json → List Json → S → StartedReply
  unfolding waiting_single after_element
  waiting_elements d [] responses s = (finished (send_batch js S (returned responses)), s)
  waiting_elements d (elem ∷ elems) responses s =
      await d.need_preempt (waiting_single d elem s)
        (after_element (waiting_elements d elems) responses)

  unfoldable pub waiting_batch : WaitingDispatcher → List Json → S → StartedReply
  unfolding waiting_elements
  waiting_batch d elems s =
      if is_empty elems
      then (
        finished
            (send js S (refusal js S null invalid_request (lit "Invalid Request: empty batch"))),
        s,
      )
      else if ltb d.max_batch_size (length elems)
      then (
        finished (send js S (refusal js S null invalid_request (too_large js S d.max_batch_size))),
        s,
      )
      else waiting_elements d elems [] s

  -- What is awaited is the reply.
  abbrev pub pass_on : Outcome Escape (Option Str) → S → StartedReply
  pass_on reply s = (finished reply, s)

  unfoldable pub waiting_parsed : WaitingDispatcher → Option Json → S → StartedReply
  unfolding waiting_batch waiting_single
  waiting_parsed d none s =
      (finished (send js S (refusal js S null parse_error (lit "Parse error"))), s)
  waiting_parsed d (some req) s =
      if is_array js req
      then waiting_batch d (elements req) s
      else await d.need_preempt (waiting_single d req s) pass_on

  unfoldable pub waiting_request : WaitingDispatcher → Str → S → StartedReply
  unfolding waiting_parsed
  waiting_request d raw_body s = waiting_parsed d (parse raw_body) s
