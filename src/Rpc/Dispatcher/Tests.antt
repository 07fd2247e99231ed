-- ===== src/Rpc/Dispatcher/Tests.antt =====
-- A dispatcher with one method, over a counter, and the theorems at concrete requests.
use mcp_server.Base.{
  ℕ, ◌+◌, ◌≡◌, refl, ◌≢◌, List, [], ◌∷◌, ◌++◌, Option, none, some, arith, Str, str_eq, str_beq, lit,
  returned, thrown, lookup, insert, Bool-cases, inl, inr, ◌==◌, if◌then◌else◌, ap, sym, ◌∙◌, subst,
}
use mcp_server.Json.{JsonError, value_json}
use mcp_server.Json.Packed.{
  packed, packed_kind, find_in, members, members_object, put_in, unflat, flat, split, items,
  text_of,
}
use mcp_server.Rpc.{foreign_exception}
use mcp_server.Rpc.Dispatcher.{
  json_escape, JsonRpcDispatcher, MethodHandler, has_form, handle_single, handle_batch, run_batch,
}
use mcp_server.Rpc.Dispatcher.Replies.{IsReply}
use mcp_server.Rpc.Dispatcher.Answers.{Answers, IsTame}
use mcp_server.Rpc.Dispatcher.Singles.{handle_single-IsReply}
use mcp_server.Rpc.Dispatcher.Calls.{IsAnswered, handle_single-IsAnswered}
use mcp_server.Rpc.Dispatcher.Batches.{IsFair}
use mcp_server.Rpc.Dispatcher.Escapes.{handle_batch_loses}

abbrev Value : Type 0
Value = Str

abbrev count : MethodHandler packed ℕ
count params n = (returned (4 ∷ []), n + 1)

abbrev server : JsonRpcDispatcher packed ℕ
server = record { methods = (lit "count", count) ∷ []; notifications = []; max_batch_size = 3 }

abbrev request : Option Value → Str → Value
request none method =
    members_object ((lit "jsonrpc", 4 ∷ lit "2.0") ∷ (lit "method", 4 ∷ method) ∷ [])
request (some id) method =
    members_object
      ((lit "jsonrpc", 4 ∷ lit "2.0") ∷ (lit "method", 4 ∷ method) ∷ (lit "id", id) ∷ [])

abbrev one : Value
one = 3 ∷ 0 ∷ 1 ∷ []

abbrev broken : Value
broken = 5 ∷ 0 ∷ []

counts : (handle_single packed ℕ server (request (some one) (lit "count")) 7).1 ≡ 8
unfolding handle_single has_form value_json packed_kind find_in members members_object unflat flat
    split items text_of lit str_beq lookup insert put_in
counts = refl

or_count : Option (MethodHandler packed ℕ) → MethodHandler packed ℕ
or_count none = count
or_count (some handler) = handler

server-IsTame : IsTame packed ℕ server
unfolding lookup or_count
server-IsTame method handler e params s = elim (Bool-cases (lit "count" == method)) [
  | inl same ↦
      let found : lookup method server.methods ≡ some count =
        ap (λ b. if b then some count else none) same in
      subst (λ (h : MethodHandler packed ℕ). (h params s).0 ≢ thrown foreign_exception)
        (ap or_count (sym found ∙ e)) (λ x. cc)
  | inr other ↦ absurd (cc (ap (λ b. if b then some count else none) other ∙ refl, e))
]

abbrev text_in : Option Value → Option Str
text_in none = none
text_in (some v) = text_of v

request-IsFair : (id : Option Value) (method : Str) → IsFair packed ℕ (request id method)
unfolding packed_kind members_object lookup lit str_beq text_of
request-IsFair none method = record {
  an_object = refl;
  textual = λ v e. (
    method,
    ap text_in (
        sym e
        ∙ packed.find-object (lit "method")
            ((lit "jsonrpc", 4 ∷ lit "2.0") ∷ (lit "method", 4 ∷ method) ∷ [])),
  );
}
request-IsFair (some id) method = record {
  an_object = refl;
  textual = λ v e. (
    method,
    ap text_in (
        sym e
        ∙ packed.find-object (lit "method")
            ((lit "jsonrpc", 4 ∷ lit "2.0") ∷ (lit "method", 4 ∷ method) ∷ (lit "id", id) ∷ [])),
  );
}

handle_single-IsReply_example :
    Answers packed ℕ
      (IsReply packed one)
      (handle_single packed ℕ server (request (some one) (lit "count")) 7).0
unfolding has_form value_json packed_kind find_in members members_object unflat flat split items
    text_of lit str_beq lookup
handle_single-IsReply_example =
    handle_single-IsReply packed ℕ server (request (some one) (lit "count")) 7
      (request-IsFair (some one) (lit "count")).an_object
      (request-IsFair (some one) (lit "count")).textual server-IsTame

handle_single-IsAnswered_example :
    IsAnswered packed ℕ one
      (returned (4 ∷ []))
      (handle_single packed ℕ server (request (some one) (lit "count")) 7).0
    × ((handle_single packed ℕ server (request (some one) (lit "count")) 7).1 ≡ 8)
unfolding has_form value_json packed_kind find_in members members_object unflat flat split items
    text_of lit str_beq lookup
handle_single-IsAnswered_example =
    handle_single-IsAnswered packed ℕ server (request (some one) (lit "count")) one
      (members_object []) (lit "count") 7 refl refl refl refl

batch : List Value
batch = request none (lit "count") ∷ request (some one) (lit "count") ∷ []

handle_batch_loses_example :
    handle_batch packed ℕ server ((request none (lit "count") ∷ []) ++ broken ∷ one ∷ []) 7
    ≡ (thrown (json_escape (JsonError.type_error broken)), 7)
unfolding run_batch has_form value_json packed_kind find_in members members_object unflat flat split
    items text_of lit str_beq lookup
handle_batch_loses_example =
    handle_batch_loses packed ℕ server (request none (lit "count") ∷ []) (one ∷ []) [] broken 7 7
      refl refl (omega arith)
