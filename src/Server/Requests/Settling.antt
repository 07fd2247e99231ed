-- ===== src/Server/Requests/Settling.antt =====
-- What a client's response does to the futures.
use mcp_server.Base.{
  ℕ, ◌≡◌, refl, ap, ◌∙◌, ◌≢◌, true, false, none, some, if◌then◌else◌, ◌==◌, nat_eq, str_eq, lit,
  get_elem?, lookup, erase, lookup-erase, ==_refl, get_elem?-set_ne, get_elem?-set_self, returned,
  thrown,
}
use mcp_server.Json.{JsonLib, JsonError, type_error, is_object, value_string}
use mcp_server.Server.Requests.{
  Settlement, ClientRequests, settle_cell, settle_found, settle_id, settlement, settlement_of,
  value, handle_client_response, id_of,
}
use mcp_server.Server.Requests.Tracking.{IsTracked, settled}

module _ (js : JsonLib) where
  open js use {Json, find}

  -- handle_client_response, where the request waits and the response can be read.
  pub handle_client_response_lem :
      (r : ClientRequests js) (response : Json) (id cell : ℕ) (v : Settlement js)
      → id_of js (find (lit "id") response) ≡ some id
      → lookup id r.pending_client_requests ≡ some cell
      → settlement js response ≡ returned v
      → handle_client_response js r response ≡ (returned true, settled js r id cell v)
  unfolding handle_client_response settle_id settle_found settle_cell settled
  handle_client_response_lem r response id cell v a b c = rw (a, settle_id, b, c) refl

  refused :
      (r : ClientRequests js) (response : Json) (id : ℕ)
      → id_of js (find (lit "id") response) ≡ some id
      → lookup id r.pending_client_requests ≡ none
      → handle_client_response js r response ≡ (returned false, r)
  unfolding handle_client_response settle_id settle_found
  refused r response id a b = rw (a, settle_id, b) refl

  pub settlement-find :
      (response result : Json)
      → find (lit "result") response ≡ some result
      → settlement js response ≡ returned (value result)
  unfolding settlement settlement_of
  settlement-find response result e = ap (settlement_of js response) e

  pub settlement-failure :
      (response err : Json)
      → find (lit "result") response ≡ none
      → find (lit "error") response ≡ some err
      → is_object js err ≡ false
      → settlement js response ≡ thrown (type_error (js.value_message err))
  unfolding settlement settlement_of value_string
  settlement-failure response err e f h = rw (e, settlement_of, f, h) refl

  pub unreadable :
      (r : ClientRequests js) (response : Json) (id cell : ℕ) (e : JsonError)
      → id_of js (find (lit "id") response) ≡ some id
      → lookup id r.pending_client_requests ≡ some cell
      → settlement js response ≡ thrown e
      → handle_client_response js r response ≡ (thrown e, r)
  unfolding handle_client_response settle_id settle_found settle_cell
  unreadable r response id cell e a b c = rw (a, settle_id, b, c) refl

  -- The response to a request that waits, where it has a result or an error that can be read. That
  -- request's future, until then unsettled, gets the settlement, every other future stays, only that
  -- request leaves the table, and a second response with its id, whatever it says, is refused and
  -- changes nothing.
  pub handle_client_response-settled :
      (r : ClientRequests js) (response again : Json) (id cell : ℕ) (v : Settlement js)
      → IsTracked js r
      → id_of js (find (lit "id") response) ≡ some id
      → lookup id r.pending_client_requests ≡ some cell
      → settlement js response ≡ returned v
      → id_of js (find (lit "id") again) ≡ some id
      → (r' : ClientRequests js) × (handle_client_response js r response ≡ (returned true, r'))
        × (get_elem? r.futures cell ≡ some none)
        × (get_elem? r'.futures cell ≡ some (some v))
        × ((other : ℕ) → cell ≢ other → get_elem? r'.futures other ≡ get_elem? r.futures other)
        × ((other : ℕ)
            → lookup other r'.pending_client_requests
              ≡ (if id == other then none else lookup other r.pending_client_requests))
        × (handle_client_response js r' again ≡ (returned false, r'))
  unfolding settled
  handle_client_response-settled r response again id cell v t a b c d =
      let gone : lookup id (erase id r.pending_client_requests) ≡ none =
        lookup-erase id id r.pending_client_requests
        ∙ ap (λ x. if x then none else lookup id r.pending_client_requests) (==_refl id) in
      (
        settled js r id cell v,
        handle_client_response_lem r response id cell v a b c,
        t.waiting id cell b,
        get_elem?-set_self r.futures cell (some v) none (t.waiting id cell b),
        λ other n. get_elem?-set_ne r.futures cell other (some v) n,
        λ other. lookup-erase id other r.pending_client_requests,
        refused (settled js r id cell v) again id d gone,
      )
