-- ===== src/Rpc/Waiting/Steady.antt =====
-- Methods whose outcome does not hang on the state, and the replies to requests for them.
use mcp_server.Base.{
  ◌≡◌, refl, ap, sym, ◌∙◌, subst, Bool, true, false, List, [], ◌∷◌, Option, none, some,
  if◌then◌else◌, Str, str_eq, lit, is_empty, length, ltb, lookup, Outcome, returned, thrown,
}
use mcp_server.Json.{JsonLib, JsonError, is_array, value_json}
use mcp_server.Rpc.Coroutines.{Started, await, Yields, Yields-await, Yields-run}
use mcp_server.Rpc.Dispatcher.{
  Escape, has_form, read_method, collect, answered, send_outcome, handle_request,
}
use mcp_server.Rpc.Dispatcher.Singles.{notify-returned}
use mcp_server.Rpc.Waiting.{
  WaitingHandler, WaitingDispatcher, StartedReply, reply_after, waiting_call, waiting_route,
  waiting_method, waiting_single, after_element, waiting_elements, waiting_batch, pass_on,
  waiting_parsed, waiting_request,
}
use mcp_server.Rpc.Waiting.Alone.{alone, complete-waiting_request}

module _ (js : JsonLib) (S : Type 0) where
  open js use {Json, parse, find, elements, object}

  -- From whatever state it starts and whatever happens while it waits, one outcome.
  abbrev pub IsSettled : {E A : Type 0} → (S → Started E S A) → Type 0
  IsSettled {E} {A} f = (o : Outcome E A) × ((s : S) → Yields o (f s).0)

  abbrev pub IsSteady : WaitingDispatcher js S → Type 0
  IsSteady d =
      (method : Str) (handler : WaitingHandler js S)
      → lookup method d.methods ≡ some handler
      → (params : Json) → IsSettled (handler params)

  IsSettled-if :
      {E A : Type 0} (b : Bool) (f g : S → Started E S A)
      → IsSettled f
      → IsSettled g
      → IsSettled (λ s. if b then f s else g s)
  IsSettled-if true f g hf hg = hf
  IsSettled-if false f g hf hg = hg

  IsSettled-await :
      {E F A B : Type 0} (p : S → Bool) (f : S → Started E S A)
      (k : Outcome E A → S → Started F S B)
      → IsSettled f
      → ((o : Outcome E A) → IsSettled (k o))
      → IsSettled (λ s. await p (f s) k)
  IsSettled-await p f k (o, hf) hk =
      let (q, ends) = hk o in (q, λ s. Yields-await o q k ends p (f s).0 (f s).1 (hf s))

  IsSettled-call :
      (d : WaitingDispatcher js S) (id params : Json) (method : Str)
      (o : Option (WaitingHandler js S))
      → lookup method d.methods ≡ o
      → IsSteady d
      → IsSettled (waiting_call js S d id method params o)
  unfolding waiting_call reply_after Yields
  IsSettled-call d id params method none e h = (_, λ s. refl)
  IsSettled-call d id params method (some handler) e h =
      IsSettled-await d.need_preempt (handler params) (reply_after js S id)
        (h method handler e params) λ o. (send_outcome js S (answered js S id o), λ s. refl)

  IsSettled-route :
      (d : WaitingDispatcher js S) (id : Option Json) (method : Str) (params : Json)
      → IsSteady d
      → IsSettled (waiting_route js S d id method params)
  unfolding waiting_route Yields
  IsSettled-route d none method params h =
      (returned none, λ s. notify-returned js S params (lookup method d.notifications) s)
  IsSettled-route d (some id) method params h =
      IsSettled-call d id params method (lookup method d.methods) refl h

  IsSettled-method :
      (d : WaitingDispatcher js S) (req : Json) (m : Outcome JsonError Str)
      (p : Outcome JsonError Json)
      → IsSteady d
      → IsSettled (waiting_method js S d req m p)
  unfolding waiting_method Yields
  IsSettled-method d req (thrown e) p h = (_, λ s. refl)
  IsSettled-method d req (returned method) (thrown e) h = (_, λ s. refl)
  IsSettled-method d req (returned method) (returned params) h =
      IsSettled-route d (find (lit "id") req) method params h

  IsSettled-single :
      (d : WaitingDispatcher js S) (req : Json) → IsSteady d → IsSettled (waiting_single js S d req)
  unfolding waiting_single Yields
  IsSettled-single d req h =
      IsSettled-if (has_form js S req) _ _
        (IsSettled-method d req (read_method js S (find (lit "method") req))
          (value_json js req (lit "params") (object [])) h)
        (_, λ s. refl)

  IsSettled-after :
      (rest : List Json → S → StartedReply js S) (responses : List Json)
      (o : Outcome Escape (Option Str))
      → ((rs : List Json) → IsSettled (rest rs))
      → IsSettled (after_element js S rest responses o)
  unfolding after_element Yields
  IsSettled-after rest responses (thrown e) h = (thrown e, λ s. refl)
  IsSettled-after rest responses (returned text) h = h (collect js S text responses)

  IsSettled-elements :
      (d : WaitingDispatcher js S) (elems responses : List Json)
      → IsSteady d
      → IsSettled (waiting_elements js S d elems responses)
  unfolding waiting_elements Yields
  IsSettled-elements d [] responses h = (_, λ s. refl)
  IsSettled-elements d (elem ∷ elems) responses h =
      let rest = waiting_elements js S d elems in
      IsSettled-await d.need_preempt (waiting_single js S d elem)
        (after_element js S rest responses) (IsSettled-single d elem h)
        λ o. IsSettled-after rest responses o λ rs. IsSettled-elements d elems rs h

  IsSettled-parsed :
      (d : WaitingDispatcher js S) (req : Option Json)
      → IsSteady d
      → IsSettled (waiting_parsed js S d req)
  unfolding waiting_parsed waiting_batch Yields
  IsSettled-parsed d none h = (_, λ s. refl)
  IsSettled-parsed d (some req) h =
      IsSettled-if (is_array js req) _ _
        (IsSettled-if (is_empty (elements req)) _ _ (_, λ s. refl)
          (IsSettled-if (ltb d.max_batch_size (length (elements req))) _ _ (_, λ s. refl)
            (IsSettled-elements d (elements req) [] h)))
        (IsSettled-await d.need_preempt (waiting_single js S d req) (pass_on js S)
          (IsSettled-single d req h) λ o. (o, λ s. refl))

  -- From whatever states the request starts and goes on, it ends with the reply that it has alone,
  -- from any state.
  pub waiting_request-Yields :
      (d : WaitingDispatcher js S) (raw_body : Str) (before s : S)
      → IsSteady d
      → Yields
          (handle_request js S (alone js S d) raw_body before).0
          (waiting_request js S d raw_body s).0
  unfolding waiting_request
  waiting_request-Yields d raw_body before s h =
      let (o, ends) = IsSettled-parsed d (parse raw_body) h in
      let same : o ≡ (handle_request js S (alone js S d) raw_body before).0 =
        sym (
          Yields-run o (waiting_parsed js S d (parse raw_body) before).0
            (waiting_parsed js S d (parse raw_body) before).1 (ends before))
        ∙ ap (λ r. r.0) (complete-waiting_request js S d raw_body before) in
      subst (λ x. Yields x (waiting_parsed js S d (parse raw_body) s).0) same (ends s)
