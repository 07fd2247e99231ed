-- ===== src/Server/Dispatch/Responses.antt =====
-- Requests to clients and the responses that dispatch takes.
use mcp_server.Base.{
  ℕ, ◌+◌, ◌^◌, ◌<◌, ◌≡◌, ◌≢◌, ◌++◌, ◌==◌, if◌then◌else◌, lookup-erase, get_elem?-set_ne, refl, ap,
  ◌∙◌, true, false, [], ◌∷◌, none, some, nat_eq, Str, str_eq, str_beq, lit, length, get_elem?, Dict,
  lookup, lookup-insert_self, get_elem?-set_self, Outcome, returned, thrown,
}
use mcp_server.Json.{JsonLib, JsonError, type_error, is_object, is_object-object, contains-object}
use mcp_server.Rpc.Dispatcher.{JsonRpcDispatcher, handle_request}
use mcp_server.Server.Sessions.{push_to_session}
use mcp_server.Server.Requests.{
  ClientRequests, value, settlement, id_of, request_json, send_request_to_client,
}
use mcp_server.Server.Requests.Tracking.{
  IsTracked, entered, send_request_to_client_lem, entered-IsTracked, settled,
}
use mcp_server.Server.Requests.Settling.{
  handle_client_response_lem, settlement-find, settlement-failure, unreadable,
}
use mcp_server.Server.Dispatch.{
  McpShard, requests_of, with_requests, is_client_response, take_response, begin_request, dispatch,
  answer,
}

module _ (js : JsonLib) where
  open js use {
    Json, kind, find, dump, parse, integer, string, object, find-object, as_uint64-integer,
    kind-object,
  }

  abbrev of_nat : ℕ → Json
  of_nat n = integer (record { negative = false; magnitude = n })

  abbrev pub result_members : ℕ → Json → Dict Str Json
  result_members id result =
      (lit "jsonrpc", string (lit "2.0")) ∷ (lit "id", of_nat id) ∷ (lit "result", result) ∷ []

  abbrev pub error_members : ℕ → Json → Dict Str Json
  error_members id err =
      (lit "jsonrpc", string (lit "2.0")) ∷ (lit "id", of_nat id) ∷ (lit "error", err) ∷ []

  module _ (W : Type 0) where
    result-IsResponse :
        (id : ℕ) (result : Json)
        → is_client_response js W (object (result_members id result)) ≡ true
    unfolding is_client_response lookup lit str_beq
    result-IsResponse id result =
        let d = result_members id result in
        rw
          (
            is_object-object js d,
            contains-object js (lit "id") d (some (of_nat id)) refl,
            contains-object js (lit "method") d none refl,
            contains-object js (lit "result") d (some result) refl,
          )
          refl

    id-result :
        (id : ℕ) (result : Json)
        → id < 2 ^ 64
        → id_of js (find (lit "id") (object (result_members id result))) ≡ some id
    unfolding lookup lit str_beq
    id-result id result h =
        ap (id_of js) (find-object (lit "id") (result_members id result)) ∙ as_uint64-integer id h

    settlement-result :
        (id : ℕ) (result : Json)
        → settlement js (object (result_members id result)) ≡ returned (value result)
    unfolding lookup lit str_beq
    settlement-result id result =
        let d = result_members id result in
        settlement-find js (object d) result (find-object (lit "result") d)

    -- The shard after send_request_to_client.
    abbrev pub sent : McpShard js W → Str → Str → Json → Outcome JsonError ℕ × McpShard js W
    sent s session_id method params =
        let (cell, sessions, requests) =
          send_request_to_client js s.world.sessions s.world.requests session_id method params in
        (cell, record s { world = record s.world { sessions = sessions; requests = requests } })

    -- A request to a client and its response. Where the request's text can be made, it is what is
    -- pushed to the session, and a body that parses to a response with the request's number and a
    -- result settles the future of that request with that result: dispatch gives no reply, asks no
    -- method, and changes nothing but the table, which loses that request and no other, and that
    -- future; the other futures are those of before the request. All of it with the counter
    -- below 2 ^ 64 - 1.
    pub dispatch-send_request_to_client :
        (d : JsonRpcDispatcher js (McpShard js W)) (s : McpShard js W)
        (session_id method text body session : Str) (params result : Json)
        → IsTracked js (requests_of js W s)
        → (requests_of js W s).server_request_counter + 1 < 2 ^ 64
        → dump (request_json js ((requests_of js W s).server_request_counter + 1) method params)
          ≡ returned text
        → parse body
          ≡ some (object (result_members ((requests_of js W s).server_request_counter + 1) result))
        → (cell : ℕ) × (s' : McpShard js W) × (r : ClientRequests js) × (sent s session_id method
              params
            ≡ (returned cell, s'))
          × (s'.world.sessions ≡ push_to_session s.world.sessions session_id text)
          × (get_elem? s'.world.requests.futures cell ≡ some none)
          × (dispatch js W d body session s' ≡ (returned none, with_requests js W r s'))
          × (get_elem? r.futures cell ≡ some (some (value result)))
          × (s'.world.requests.futures ≡ (requests_of js W s).futures ++ none ∷ [])
          × ((other : ℕ)
              → cell ≢ other
              → get_elem? r.futures other ≡ get_elem? s'.world.requests.futures other)
          × ((other : ℕ)
              → lookup other r.pending_client_requests ≡ (
                  if (requests_of js W s).server_request_counter + 1 == other
                  then none
                  else lookup other s'.world.requests.pending_client_requests))
    unfolding dispatch take_response settled
    dispatch-send_request_to_client d s session_id method text body session params result t bound
          made read =
        let r = requests_of js W s in
        let id = r.server_request_counter + 1 in
        let cell = length r.futures in
        let d' = result_members id result in
        let there = entered-IsTracked js r t in
        let found = lookup-insert_self id cell r.pending_client_requests in
        let s' : McpShard js W = record s {
          world = record s.world {
            sessions = push_to_session s.world.sessions session_id text;
            requests = entered js r;
          };
        } in
        let r' = settled js (entered js r) id cell (value result) in
        let taken : take_response js W (parse body) (entered js r) ≡ (returned true, r') =
          rw (read, take_response, result-IsResponse id result)
            (handle_client_response_lem js (entered js r) (object d') id cell (value result)
              (id-result id result bound) found (settlement-result id result)) in
        (
          cell,
          s',
          r',
          ap (λ p. (p.0, record s { world = record s.world { sessions = p.1; requests = p.2 } }))
              (send_request_to_client_lem js s.world.sessions r session_id method text params bound
                t made),
          refl,
          there.waiting id cell found,
          ap (answer js W d body session s') taken,
          get_elem?-set_self (entered js r).futures cell (some (value result)) none
              (there.waiting id cell found),
          refl,
          λ other n. get_elem?-set_ne (entered js r).futures cell other (some (value result)) n,
          λ other. lookup-erase id other (entered js r).pending_client_requests,
        )

    error-IsResponse :
        (id : ℕ) (err : Json) → is_client_response js W (object (error_members id err)) ≡ true
    unfolding is_client_response lookup lit str_beq
    error-IsResponse id err =
        let d = error_members id err in
        rw
          (
            is_object-object js d,
            contains-object js (lit "id") d (some (of_nat id)) refl,
            contains-object js (lit "method") d none refl,
            contains-object js (lit "result") d none refl,
            contains-object js (lit "error") d (some err) refl,
          )
          refl

    id-error :
        (id : ℕ) (err : Json)
        → id < 2 ^ 64
        → id_of js (find (lit "id") (object (error_members id err))) ≡ some id
    unfolding lookup lit str_beq
    id-error id err h =
        ap (id_of js) (find-object (lit "id") (error_members id err)) ∙ as_uint64-integer id h

    settlement-error :
        (id : ℕ) (err : Json)
        → is_object js err ≡ false
        → settlement js (object (error_members id err)) ≡ thrown (type_error (js.value_message err))
    unfolding lookup lit str_beq
    settlement-error id err h =
        let d = error_members id err in
        settlement-failure js (object d) err (find-object (lit "result") d)
          (find-object (lit "error") d) h

    -- A body that parses to a response to a request that waits, with an error that is no object.
    -- dispatch hands it to the dispatcher as if it were a request, with the table as before, and the
    -- request's future is still unsettled.
    pub dispatch_keeps_waiting :
        (d : JsonRpcDispatcher js (McpShard js W)) (s : McpShard js W) (body session : Str)
        (id cell : ℕ) (err : Json)
        → IsTracked js (requests_of js W s)
        → id < 2 ^ 64
        → lookup id (requests_of js W s).pending_client_requests ≡ some cell
        → parse body ≡ some (object (error_members id err))
        → is_object js err ≡ false
        → (dispatch js W d body session s
            ≡ handle_request js (McpShard js W) d body (begin_request js W session (parse body) s))
          × ((requests_of js W (begin_request js W session (parse body) s)) ≡ requests_of js W s)
          × (get_elem? (requests_of js W s).futures cell ≡ some none)
    unfolding dispatch take_response begin_request
    dispatch_keeps_waiting d s body session id cell err t bound found read plain =
        let r = requests_of js W s in
        let d' = error_members id err in
        let kept : take_response js W (parse body) r
            ≡ (thrown (type_error (js.value_message err)), r) =
          rw (read, take_response, error-IsResponse id err)
            (unreadable js r (object d') id cell (type_error (js.value_message err))
              (id-error id err bound) found (settlement-error id err plain)) in
        (ap (answer js W d body session s) kept, refl, t.waiting id cell found)
