-- ===== src/Rpc/Dispatcher/Replies.antt =====
-- The replies of JSON-RPC 2.0, and that to_json writes them.
use mcp_server.Base.{
  ◌≡◌, ap, ◌∙◌, not, [], ◌∷◌, none, some, arith, if◌then◌else◌, ◌==◌, Str, str_eq, str_beq, lit,
  lookup,
}
use mcp_server.Json.{JsonLib, contains}
use mcp_server.Rpc.{JsonRpcErrorCode, JsonRpcError, to_json, error_json, outcome_json, plain_error}
use mcp_server.Rpc.Dispatcher.{refusal}

module _ (js : JsonLib) where
  open js use {
    Json, kind, find, dump, null, object, string, put, find-put, find-object, kind-object,
  }

  -- A reply of JSON-RPC 2.0 to a request with this id: a result or an error, not both.
  pub record IsReply (id j : Json) : Type 0 where
    pub version : find (lit "jsonrpc") j ≡ some (string (lit "2.0"))
    pub same_id : find (lit "id") j ≡ some id
    pub one_outcome : contains js j (lit "result") ≡ not (contains js j (lit "error"))

  abbrev skeleton : Str → Json → Json
  skeleton jsonrpc id = object ((lit "jsonrpc", string jsonrpc) ∷ (lit "id", id) ∷ [])

  find-put-skeleton :
      (key other : Str) (v id : Json)
      → find other (put key v (skeleton (lit "2.0") id)) ≡ (
          if key == other
          then some v
          else lookup other ((lit "jsonrpc", string (lit "2.0")) ∷ (lit "id", id) ∷ []))
  find-put-skeleton key other v id =
      find-put key other v (skeleton (lit "2.0") id) (kind-object _)
      ∙ ap (λ o. if key == other then some v else o) (find-object other _)

  -- A reply with this result.
  pub record CarriesResult (id r j : Json) : Type 0 where
    pub reply : IsReply id j
    pub carried : find (lit "result") j ≡ some r
    pub no_error : find (lit "error") j ≡ none

  -- A reply with this error object.
  pub record CarriesError (id : Json) (e : JsonRpcError js) (j : Json) : Type 0 where
    pub reply : IsReply id j
    pub carried : find (lit "error") j ≡ some (error_json js e)
    pub no_result : find (lit "result") j ≡ none

  present-result :
      (id j : Json) {r : Json}
      → find (lit "jsonrpc") j ≡ some (string (lit "2.0"))
      → find (lit "id") j ≡ some id
      → find (lit "result") j ≡ some r
      → find (lit "error") j ≡ none
      → IsReply id j
  present-result id j v i r e = record {
    version = v;
    same_id = i;
    one_outcome = ground (arith, r, e);
  }

  present-error :
      (id j : Json) {x : Json}
      → find (lit "jsonrpc") j ≡ some (string (lit "2.0"))
      → find (lit "id") j ≡ some id
      → find (lit "error") j ≡ some x
      → find (lit "result") j ≡ none
      → IsReply id j
  present-error id j v i e r = record {
    version = v;
    same_id = i;
    one_outcome = ground (arith, r, e);
  }

  pub result-CarriesResult :
      (id r : Json) → CarriesResult id r (put (lit "result") r (skeleton (lit "2.0") id))
  unfolding lit str_beq lookup
  result-CarriesResult id r =
      let has = find-put-skeleton (lit "result") (lit "result") r id in
      let lacks = find-put-skeleton (lit "result") (lit "error") r id in
      record {
        reply =
            present-result id _ (find-put-skeleton (lit "result") (lit "jsonrpc") r id)
              (find-put-skeleton (lit "result") (lit "id") r id) has lacks;
        carried = has;
        no_error = lacks;
      }

  pub error-CarriesError :
      (id : Json) (e : JsonRpcError js)
      → CarriesError id e (put (lit "error") (error_json js e) (skeleton (lit "2.0") id))
  unfolding lit str_beq lookup
  error-CarriesError id e =
      let x = error_json js e in
      let has = find-put-skeleton (lit "error") (lit "error") x id in
      let lacks = find-put-skeleton (lit "error") (lit "result") x id in
      record {
        reply =
            present-error id _ (find-put-skeleton (lit "error") (lit "jsonrpc") x id)
              (find-put-skeleton (lit "error") (lit "id") x id) has lacks;
        carried = has;
        no_result = lacks;
      }

  pub refusal-CarriesError :
      (S : Type 0) (id : Json) (code : JsonRpcErrorCode) (message : Str)
      → CarriesError id (plain_error js code message) (to_json js (refusal js S id code message))
  unfolding to_json outcome_json
  refusal-CarriesError S id code message = error-CarriesError id (plain_error js code message)
