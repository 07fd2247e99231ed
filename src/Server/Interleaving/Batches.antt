-- ===== src/Server/Interleaving/Batches.antt =====
-- A batch that waits while another session's request comes in.
use mcp_server.Base.{
  ◌≡◌, refl, ap, ◌∙◌, false, List, [], ◌∷◌, Option, some, Str, str_eq, lit, is_empty, lookup,
  Outcome, returned, thrown, ltb,
}
use mcp_server.Json.{JsonLib, is_array-array, is_object-array}
use mcp_server.Rpc.{HandlerError}
use mcp_server.Rpc.Coroutines.{Coroutine, finished, waiting, await, awaiting}
use mcp_server.Rpc.Dispatcher.{Escape, MethodHandler, answered, send_outcome, collect}
use mcp_server.Rpc.Dispatcher.Requests.{request}
use mcp_server.Rpc.Waiting.{
  StartedReply, reply_after, waiting_call, after_element, waiting_elements, waiting_batch,
  waiting_parsed, WaitingHandler, pass_on, waiting_request,
}
use mcp_server.Rpc.Waiting.Instant.{instant, waiting_single-request}
use mcp_server.Registry.Methods.{resources_subscribe, ping}
use mcp_server.Server.Subscriptions.{subscribe_resource}
use mcp_server.Server.Dispatch.{Around, McpShard, requests_of, begin_request, is_client_response}
use mcp_server.Server.Interleaving.{Dispatcher, waiting_answer, waiting_dispatch}
use mcp_server.Server.Interleaving.Replies.{may_answer, take_response-asks}
use mcp_server.Server.Interleaving.Subscribers.{
  subscription, waiting_dispatch-instant, resources_subscribe-state,
}

-- The state at the end of a coroutine, where something else of the core runs before each of its
-- later pieces.
unfoldable pub interleaved : {E S A : Type 0} → (S → S) → Coroutine E S A → S → S
interleaved between (finished r) s = s
interleaved between (waiting effect next) s =
    let t = between s in interleaved between (next t) (effect t)

module _ (js : JsonLib) (W : Type 0) where
  open js use {Json, parse, array, elements, object}

  -- A method that waits once, on a timer, say, and changes nothing of the shard.
  abbrev pub pausing : Outcome (HandlerError js) Json → WaitingHandler js (McpShard js W)
  pausing outcome params s = (waiting (λ t. t) (λ t. finished outcome), s)

  module _ (d : Dispatcher js W) (free : (t : McpShard js W) → d.need_preempt t ≡ false) where
    await-free :
        {E A : Type 0} (r : Outcome E A) (s : McpShard js W)
        (k : Outcome E A → McpShard js W → StartedReply js (McpShard js W))
        → await d.need_preempt (finished r, s) k ≡ k r s
    unfolding await
    await-free r s k = rw (free s) refl

    last_element :
        (responses : List Json) (text : Outcome Escape (Option Str)) (s : McpShard js W)
        → (q : Outcome Escape (Option Str)) × (after_element js
              (McpShard js W)
              (waiting_elements js (McpShard js W) d [])
              responses
              text
              s
            ≡ (finished q, s))
    unfolding after_element waiting_elements
    last_element responses (thrown e) s = (_, refl)
    last_element responses (returned text) s = (_, refl)

    -- The last request of a batch, for a method without a co_await.
    last_instant :
        (handler : MethodHandler js (McpShard js W)) (id params : Json) (method : Str)
        (responses : List Json) (s : McpShard js W)
        → lookup method d.methods ≡ some (instant js (McpShard js W) handler)
        → (q : Outcome Escape (Option Str)) × (waiting_elements js
              (McpShard js W)
              d
              (request js (McpShard js W) id method params ∷ [])
              responses
              s
            ≡ (finished q, (handler params s).1))
    unfolding waiting_elements waiting_call reply_after
    last_instant handler id params method responses s there =
        let text =
          send_outcome js (McpShard js W) (answered js (McpShard js W) id (handler params s).0) in
        let t = (handler params s).1 in
        let K =
          after_element js (McpShard js W) (waiting_elements js (McpShard js W) d []) responses in
        let (q, ends) = last_element responses text t in
        (
          q,
          ap (λ x. await d.need_preempt x K)
                (waiting_single-request js (McpShard js W) d id method params s
                  ∙ ap (λ o. waiting_call js (McpShard js W) d id method params o s) there
                  ∙ await-free (handler params s).0 t (reply_after js (McpShard js W) id))
              ∙ await-free text t K
              ∙ ends,
        )

    module _ (between : McpShard js W → McpShard js W) (outcome : Outcome (HandlerError js) Json)
        (handler : MethodHandler js (McpShard js W)) (id id' params params' : Json)
        (method method' : Str) (text : Option Str)
        (first : lookup method d.methods ≡ some (pausing outcome))
        (second : lookup method' d.methods ≡ some (instant js (McpShard js W) handler))
        (shown : send_outcome js (McpShard js W) (answered js (McpShard js W) id outcome)
          ≡ returned text) where
      abbrev pair : List Json
      pair =
          request js (McpShard js W) id method params
          ∷ request js (McpShard js W) id' method' params'
          ∷ []

      -- The batch waits at the first request; the second one's method runs after the third piece of
      -- the core's other work, and a fourth one comes before the reply.
      interleaved-pair :
          (s : McpShard js W)
          → (let started =
                await d.need_preempt
                  (waiting_elements js (McpShard js W) d pair [] s)
                  (pass_on js (McpShard js W)) in
              interleaved between started.0 started.1)
            ≡ between (handler params' (between (between (between s)))).1
      unfolding interleaved waiting_elements waiting_call reply_after await awaiting after_element
      interleaved-pair s =
          let K =
            after_element js (McpShard js W)
              (waiting_elements js (McpShard js W) d
                (request js (McpShard js W) id' method' params' ∷ []))
              [] in
          let then_ : StartedReply js (McpShard js W) → McpShard js W = λ x.
            let started =
              await d.need_preempt (await d.need_preempt x K) (pass_on js (McpShard js W)) in
            interleaved between started.0 started.1 in
          let last : StartedReply js (McpShard js W) → McpShard js W =
            λ x. interleaved between (awaiting x.0 (pass_on js (McpShard js W))) x.1 in
          let t = between (between (between s)) in
          let (q, ends) =
            last_instant handler id' params' method' (collect js (McpShard js W) text []) t
              second in
          ap then_ (
            waiting_single-request js (McpShard js W) d id method params s
            ∙ ap (λ o. waiting_call js (McpShard js W) d id method params o s) first)
          ∙ ap (λ o. last (K o t)) shown
          ∙ ap last ends

  array-asks : (elems : List Json) → may_answer js W (some (array elems)) ≡ false
  unfolding is_client_response
  array-asks elems = rw (is_object-array js elems) refl

  -- A batch of two that was taken.
  waiting_dispatch-pair :
      (d : Dispatcher js W) (s : McpShard js W) (body session_id : Str) (a b : Json)
      → ltb d.max_batch_size 2 ≡ false
      → parse body ≡ some (array (a ∷ b ∷ []))
      → waiting_dispatch js W d body session_id s
        ≡ await d.need_preempt
            (waiting_elements js
              (McpShard js W)
              d
              (a ∷ b ∷ [])
              []
              (begin_request js W session_id (parse body) s))
            (pass_on js (McpShard js W))
  unfolding waiting_dispatch waiting_request waiting_parsed waiting_batch
  waiting_dispatch-pair d s body session_id a b fits read =
      let begun = begin_request js W session_id (parse body) s in
      let sent : Option Json → StartedReply js (McpShard js W) = λ o.
        await d.need_preempt (waiting_parsed js (McpShard js W) d o begun)
          (pass_on js (McpShard js W)) in
      ap (waiting_answer js W d body session_id s) (
        take_response-asks js W (parse body) (requests_of js W s)
          (ap (may_answer js W) read ∙ array-asks (a ∷ b ∷ [])))
      ∙ ap sent read
      ∙ rw (is_array-array js (a ∷ b ∷ []), js.elements-array (a ∷ b ∷ []), fits) refl

  -- A batch of a request for a method that waits and of a subscription, and a ping of another
  -- session's client that comes in each time the batch waits. The session that follows the resource
  -- at the end is the other one, which asked for no subscription. The batch may have two elements,
  -- its first method waits once and its result has a text, and the reactor asks for the core at no
  -- co_await of what is ready.
  pub interleaved-resources_subscribe :
      (d : Dispatcher js W) (s : McpShard js W) (body ping_body session_id other uri method : Str)
      (id id' params ping_id ping_params : Json) (outcome : Outcome (HandlerError js) Json)
      (text : Option Str)
      → ((t : McpShard js W) → d.need_preempt t ≡ false)
      → ltb d.max_batch_size 2 ≡ false
      → lookup method d.methods ≡ some (pausing outcome)
      → lookup (lit "resources/subscribe") d.methods
        ≡ some (instant js (McpShard js W) (resources_subscribe js (Around js W)))
      → lookup (lit "ping") d.methods ≡ some (instant js (McpShard js W) (ping js (Around js W)))
      → send_outcome js (McpShard js W) (answered js (McpShard js W) id outcome) ≡ returned text
      → is_empty uri ≡ false
      → parse body
        ≡ some (
            array (
              request js (McpShard js W) id method params
              ∷ request js (McpShard js W) id' (lit "resources/subscribe") (subscription js W uri)
              ∷ []))
      → parse ping_body ≡ some (request js (McpShard js W) ping_id (lit "ping") ping_params)
      → (let started = waiting_dispatch js W d body session_id s in
          (interleaved
            (λ t. (waiting_dispatch js W d ping_body other t).1)
            started.0
            started.1).subscriptions)
        ≡ subscribe_resource other uri s.subscriptions
  unfolding begin_request ping
  interleaved-resources_subscribe d s body ping_body session_id other uri method id id' params
        ping_id ping_params outcome text free fits first second pings shown named read ping_read =
      let between : McpShard js W → McpShard js W =
        λ t. (waiting_dispatch js W d ping_body other t).1 in
      let begins : (t : McpShard js W) → between t ≡ begin_request js W other (parse ping_body) t =
        λ t.
          waiting_dispatch-instant js W d (ping js (Around js W)) t ping_body other (lit "ping")
            ping_id ping_params pings ping_read in
      let handler = resources_subscribe js (Around js W) in
      let begin = begin_request js W other (parse ping_body) in
      let begun = begin_request js W session_id (parse body) s in
      let three : between (between (between begun)) ≡ begin (begin (begin begun)) =
        begins (between (between begun))
        ∙ ap begin (begins (between begun) ∙ ap begin (begins begun)) in
      ap (λ (x : StartedReply js (McpShard js W)). (interleaved between x.0 x.1).subscriptions)
        (waiting_dispatch-pair d s body session_id _ _ fits read)
      ∙ ap (λ (t : McpShard js W). t.subscriptions)
          (interleaved-pair d free between outcome handler id id' params (subscription js W uri)
            method (lit "resources/subscribe") text first second shown begun)
      ∙ ap (λ (t : McpShard js W). t.subscriptions)
          (begins (handler (subscription js W uri) (between (between (between begun)))).1)
      ∙ ap (λ (t : McpShard js W). (handler (subscription js W uri) t).1.subscriptions) three
      ∙ ap (λ (t : McpShard js W). t.subscriptions)
          (resources_subscribe-state js W uri (begin (begin (begin begun))) named)
