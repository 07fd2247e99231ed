-- ===== src/Rpc/Dispatcher/Batches.antt =====
-- What a batch is answered with.
use mathlib.Core.Option
use mcp_server.Base.{
  ◌≡◌, Bool, true, false, ◌&&◌, not, List, [], ◌∷◌, ◌++◌, map, Option, none, some, if◌then◌else◌,
  Str, lit, Outcome, returned,
}
use mcp_server.Json.{Kind, JsonLib, contains, is_object}
use mcp_server.Rpc.Dispatcher.{Escape, RpcReply, has_form}
use mcp_server.Rpc.Dispatcher.Answers.{Answers, id_of, IsTextual}

module _ (js : JsonLib) (S : Type 0) where
  open js use {Json, find, dump, parse, elements, null, array, reread, parse-dump, find-reread}

  -- An object whose method, if it has one, is a text.
  pub record IsFair (req : Json) : Type 0 where
    pub an_object : is_object js req ≡ true
    pub textual : IsTextual js S req

  -- All the text is UTF-8.
  abbrev pub IsDumpable : Type 0
  IsDumpable = (j : Json) → (t : Str) × (dump j ≡ returned t)

  abbrev pub is_notification : Json → Bool
  is_notification req = has_form js S req && not (contains js req (lit "id"))

  -- The id members that the replies of a batch have, in order: one for each element that is no
  -- notification.
  unfoldable pub reply_ids : List Json → List (Option Json)
  reply_ids [] = []
  reply_ids (req ∷ reqs) =
      let rest = reply_ids reqs in
      if is_notification req then rest else some (reread (id_of js S (find (lit "id") req))) ∷ rest

  -- One element: silent, or answered by a value with its id.
  data Step (req : Json) : RpcReply js S → Type 0 where
    silent : is_notification req ≡ true → Step req (returned none)
    answers :
        (j : Json) (text : Str)
        → is_notification req ≡ false
        → dump j ≡ returned text
        → find (lit "id") j ≡ some (id_of js S (find (lit "id") req))
        → Step req (returned (some text))

  -- What the loop collects behind the responses that it has.
  pub record IsCollected (outcome : Outcome Escape (List Json) × S) (responses : List Json)
      (ids : List (Option Json)) : Type 0 where
    pub more : List Json
    pub state : S
    pub collected : outcome ≡ (returned (responses ++ more), state)
    pub same_ids : map (find (lit "id")) more ≡ ids

  -- An array whose elements have these ids, in this order.
  pub record IsBatchReply (ids : List (Option Json)) (j : Json) : Type 0 where
    pub an_array : js.kind j ≡ Kind.list
    pub same_ids : map (find (lit "id")) (elements j) ≡ ids

  -- What becomes of a batch whose replies have these ids.
  abbrev pub IsBatchServed : List (Option Json) → RpcReply js S → Type 0
  IsBatchServed [] reply = reply ≡ returned none
  IsBatchServed (id ∷ ids) reply = Answers js S (IsBatchReply (id ∷ ids)) reply
