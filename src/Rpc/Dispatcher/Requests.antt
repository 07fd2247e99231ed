-- ===== src/Rpc/Dispatcher/Requests.antt =====
-- A request in the form that clients send.
use mcp_server.Base.{
  ◌≡◌, refl, ap, ◌∙◌, Bool, true, false, ◌==◌, [], ◌∷◌, none, some, Option, Str, str_eq, str_beq,
  lit, Dict, lookup, returned,
}
use mcp_server.Json.{
  JsonLib, read_string-string, is_object-object, contains-object, value_json, value_json-object,
}
use mcp_server.Rpc.Dispatcher.{has_form, is_two, read_method}

module _ (js : JsonLib) (S : Type 0) where
  open js use {Json, find, string, object, find-object, as_string-string}

  abbrev pub request_members : Json → Str → Json → Dict Str Json
  request_members id method params =
      (lit "jsonrpc", string (lit "2.0"))
      ∷ (lit "id", id)
      ∷ (lit "method", string method)
      ∷ (lit "params", params)
      ∷ []

  -- `id`, a method and its parameters, under version 2.0.
  abbrev pub request : Json → Str → Json → Json
  request id method params = object (request_members id method params)

  pub request-has_form :
      (id : Json) (method : Str) (params : Json) → has_form js S (request id method params) ≡ true
  unfolding has_form is_two lookup lit str_beq
  request-has_form id method params =
      let d = request_members id method params in
      let two : is_two js S (find (lit "jsonrpc") (object d)) ≡ true =
        ap (is_two js S) (find-object (lit "jsonrpc") d)
        ∙ ap (λ (o : Option Str). elim o as (λ _. Bool) [ none ↦ false | some t ↦ t == lit "2.0" ])
            (as_string-string (lit "2.0")) in
      rw
        (
          is_object-object js d,
          two,
          contains-object js (lit "method") d (some (string method)) refl,
        )
        refl

  pub request-method :
      (id : Json) (method : Str) (params : Json)
      → read_method js S (find (lit "method") (request id method params)) ≡ returned method
  unfolding lookup lit str_beq
  request-method id method params =
      ap (read_method js S) (find-object (lit "method") (request_members id method params))
      ∙ read_string-string js method

  pub request-id :
      (id : Json) (method : Str) (params : Json)
      → find (lit "id") (request id method params) ≡ some id
  unfolding lookup lit str_beq
  request-id id method params = find-object (lit "id") (request_members id method params)

  pub request-params :
      (id : Json) (method : Str) (params : Json)
      → value_json js (request id method params) (lit "params") (object []) ≡ returned params
  unfolding lookup lit str_beq
  request-params id method params =
      value_json-object js (lit "params") (object []) params (request_members id method params) refl
