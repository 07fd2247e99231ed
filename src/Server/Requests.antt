-- ===== src/Server/Requests.antt =====
-- The requests that a shard sends to its clients (mcp_shard.hh): send_request_to_client,
-- handle_client_response and what stop does to them.
pub mod Tracking
pub mod Settling
mod Tests
use mcp_server.Base.{
  ℕ, ◌+◌, ◌%◌, ◌^◌, Bool, true, false, List, [], ◌∷◌, ◌++◌, Option, none, some, nat_eq, Str, str_eq,
  lit, length, set, Dict, lookup, insert, erase, Outcome, returned, thrown, ◌>>=◌,
}
use mcp_server.Json.{JsonLib, JsonError, value_string}
use mcp_server.Server.Sessions.{Sessions, push_to_session}

module _ (js : JsonLib) where
  open js use {Json, find, as_uint64, dump, null, integer, string, object}

  -- set_value, and set_exception with a runtime_error.
  pub data Settlement : Type 0 where
    value : Json → Settlement
    failure : Str → Settlement

  -- A promise and its future share a cell of `futures`, `none` until it is settled; the table of the
  -- requests that wait has the cell's index.
  pub record ClientRequests : Type 0 where
    pub server_request_counter : ℕ
    pub pending_client_requests : Dict ℕ ℕ
    pub futures : List (Option Settlement)

  abbrev pub no_requests : ClientRequests
  no_requests = record { server_request_counter = 0; pending_client_requests = []; futures = [] }

  pub request_json : ℕ → Str → Json → Json
  request_json req_id method params = object (
      (lit "jsonrpc", string (lit "2.0"))
      ∷ (lit "id", integer (record { negative = false; magnitude = req_id }))
      ∷ (lit "method", string method)
      ∷ (lit "params", params)
      ∷ [])

  -- `emplace`, which leaves an entry that is there.
  pub emplace : ℕ → ℕ → Dict ℕ ℕ → Dict ℕ ℕ
  emplace key cell d = elim (lookup key d) [ none ↦ insert key cell d | some other ↦ d ]

  -- `++_server_request_counter` and the promise.
  pub enter_request : ClientRequests → ℕ × ℕ × ClientRequests
  unfolding emplace
  enter_request r =
      let req_id = (r.server_request_counter + 1) % 2 ^ 64 in
      let cell = length r.futures in
      (
        req_id,
        cell,
        record {
          server_request_counter = req_id;
          pending_client_requests = emplace req_id cell r.pending_client_requests;
          futures = r.futures ++ none ∷ [];
        },
      )

  abbrev push_request : Sessions → Str → ℕ → Outcome JsonError Str → Outcome JsonError ℕ × Sessions
  push_request s session_id cell (returned text) =
      (returned cell, push_to_session s session_id text)
  push_request s session_id cell (thrown e) = (thrown e, s)

  -- The request is made, dumped and pushed after it was entered.
  send_entered :
      Sessions
      → Str
      → Str
      → Json
      → ℕ × ℕ × ClientRequests
      → Outcome JsonError ℕ × Sessions × ClientRequests
  unfolding request_json
  send_entered s session_id method params (req_id, cell, r) =
      let (sent, s') = push_request s session_id cell (dump (request_json req_id method params)) in
      (sent, s', r)

  -- Up to the last co_await: the cell of the future that it waits for.
  pub send_request_to_client :
      Sessions → ClientRequests → Str → Str → Json → Outcome JsonError ℕ × Sessions × ClientRequests
  unfolding enter_request send_entered
  send_request_to_client s r session_id method params =
      send_entered s session_id method params (enter_request r)

  -- `response["error"]`; dispatch calls with a result or an error.
  abbrev error_of : Option Json → Json
  error_of none = null
  error_of (some err) = err

  settlement_of : Json → Option Json → Outcome JsonError Settlement
  settlement_of response (some result) = returned (value result)
  settlement_of response none =
      value_string js (error_of (find (lit "error") response)) (lit "message") (lit "client error")
      >>= λ text. returned (failure text)

  pub settlement : Json → Outcome JsonError Settlement
  unfolding settlement_of
  settlement response = settlement_of response (find (lit "result") response)

  settle_cell :
      ClientRequests
      → ℕ
      → ℕ
      → Outcome JsonError Settlement
      → Outcome JsonError Bool × ClientRequests
  settle_cell r id cell (thrown e) = (thrown e, r)
  settle_cell r id cell (returned v) = (
    returned true,
    record r {
      pending_client_requests = erase id r.pending_client_requests;
      futures = set r.futures cell (some v);
    },
  )

  settle_found : ClientRequests → ℕ → Option ℕ → Json → Outcome JsonError Bool × ClientRequests
  unfolding settle_cell settlement
  settle_found r id none response = (returned false, r)
  settle_found r id (some cell) response = settle_cell r id cell (settlement response)

  settle_id : ClientRequests → Option ℕ → Json → Outcome JsonError Bool × ClientRequests
  unfolding settle_found
  settle_id r none response = (returned false, r)
  settle_id r (some id) response = settle_found r id (lookup id r.pending_client_requests) response

  abbrev pub id_of : Option Json → Option ℕ
  id_of none = none
  id_of (some v) = as_uint64 v

  -- False without an id, with one that is no number, and with one that does not wait.
  pub handle_client_response : ClientRequests → Json → Outcome JsonError Bool × ClientRequests
  unfolding settle_id
  handle_client_response r response = settle_id r (id_of (find (lit "id") response)) response

  unfoldable pub fail_all : List (Option Settlement) → Dict ℕ ℕ → List (Option Settlement)
  fail_all futures [] = futures
  fail_all futures ((id, cell) ∷ rest) =
      fail_all (set futures cell (some (failure (lit "server stopped")))) rest

  unfoldable pub stop_requests : ClientRequests → ClientRequests
  unfolding fail_all
  stop_requests r = record r {
    futures = fail_all r.futures r.pending_client_requests;
    pending_client_requests = [];
  }
