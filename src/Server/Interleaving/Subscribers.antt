-- ===== src/Server/Interleaving/Subscribers.antt =====
-- Subscriptions among interleaved requests: resources/subscribe reads the session of the shard's
-- latest request.
use mcp_server.Base.{
  ◌≡◌, refl, ap, ◌&&◌, ◌||◌, not, ◌==◌, ◌∙◌, false, [], ◌∷◌, some, Str, str_eq, str_beq, lit,
  is_empty, lookup,
}
use mcp_server.Json.{JsonLib, contains-object, is_object-object, value_string-object}
use mcp_server.Rpc.Coroutines.{await-state}
use mcp_server.Rpc.Dispatcher.{MethodHandler}
use mcp_server.Rpc.Dispatcher.Requests.{request_members, request}
use mcp_server.Rpc.Waiting.{pass_on, waiting_parsed, waiting_request}
use mcp_server.Rpc.Waiting.Instant.{instant, waiting_parsed-instant}
use mcp_server.Registry.Methods.{resources_subscribe}
use mcp_server.Server.Subscriptions.{includes, followers, subscribe_resource}
use mcp_server.Server.Subscriptions.Followers.{subscribe-followers}
use mcp_server.Server.Dispatch.{Around, McpShard, requests_of, is_client_response, begin_request}
use mcp_server.Server.Interleaving.{Dispatcher, waiting_answer, waiting_dispatch}
use mcp_server.Server.Interleaving.Replies.{may_answer, take_response-asks}

module _ (js : JsonLib) (W : Type 0) where
  open js use {Json, parse, string, object}

  -- The parameters of resources/subscribe.
  abbrev pub subscription : Str → Json
  subscription uri = object ((lit "uri", string uri) ∷ [])

  request-asks :
      (id : Json) (method : Str) (params : Json)
      → may_answer js W (some (request js (McpShard js W) id method params)) ≡ false
  unfolding is_client_response lookup lit str_beq
  request-asks id method params =
      let members = request_members js (McpShard js W) id method params in
      rw
        (
          is_object-object js members,
          contains-object js (lit "id") members (some id) refl,
          contains-object js (lit "method") members (some (string method)) refl,
        )
        refl

  -- A request for a method without a co_await has done all that it does when it is taken.
  pub waiting_dispatch-instant :
      (d : Dispatcher js W) (handler : MethodHandler js (McpShard js W)) (s : McpShard js W)
      (body session_id method : Str) (id params : Json)
      → lookup method d.methods ≡ some (instant js (McpShard js W) handler)
      → parse body ≡ some (request js (McpShard js W) id method params)
      → (waiting_dispatch js W d body session_id s).1
        ≡ (handler params (begin_request js W session_id (parse body) s)).1
  unfolding waiting_dispatch waiting_request
  waiting_dispatch-instant d handler s body session_id method id params there read =
      let begun = begin_request js W session_id (parse body) s in
      ap (λ r. (waiting_answer js W d body session_id s r).1)
        (take_response-asks js W (parse body) (requests_of js W s)
          (ap (may_answer js W) read ∙ request-asks id method params))
      ∙ await-state d.need_preempt (waiting_request js (McpShard js W) d body begun)
          (pass_on js (McpShard js W)) (λ r t. refl)
      ∙ ap (λ o. (waiting_parsed js (McpShard js W) d o begun).1) read
      ∙ waiting_parsed-instant js (McpShard js W) d id method params handler begun there

  -- The method itself takes the shard's current session.
  pub resources_subscribe-state :
      (uri : Str) (s : McpShard js W)
      → is_empty uri ≡ false
      → (resources_subscribe js (Around js W) (subscription uri) s).1
        ≡ record s { subscriptions = subscribe_resource s.current_session_id uri s.subscriptions }
  unfolding resources_subscribe lookup lit str_beq
  resources_subscribe-state uri s named =
      rw (value_string-object js (lit "uri") [] uri ((lit "uri", string uri) ∷ []) refl, named) refl

  waiting_dispatch-resources_subscribe :
      (d : Dispatcher js W) (s : McpShard js W) (body session_id uri : Str) (id : Json)
      → lookup (lit "resources/subscribe") d.methods
        ≡ some (instant js (McpShard js W) (resources_subscribe js (Around js W)))
      → is_empty uri ≡ false
      → parse body
        ≡ some (request js (McpShard js W) id (lit "resources/subscribe") (subscription uri))
      → (waiting_dispatch js W d body session_id s).1 ≡ (
          let begun = begin_request js W session_id (parse body) s in
          record begun { subscriptions = subscribe_resource session_id uri s.subscriptions })
  unfolding begin_request
  waiting_dispatch-resources_subscribe d s body session_id uri id there named read =
      waiting_dispatch-instant d (resources_subscribe js (Around js W)) s body session_id
        (lit "resources/subscribe") id (subscription uri) there read
      ∙ resources_subscribe-state uri (begin_request js W session_id (parse body) s) named

  -- A request with the name resources/subscribe and a resource, where the method under that name is
  -- the one that the server registers. When the request has come in, and before any of its
  -- suspensions, a session follows a resource exactly when it did before, or when it is the session
  -- that sent the request (which is not empty) and the resource is the request's. Whichever request
  -- the shard took before, its session plays no part.
  pub waiting_dispatch-followers :
      (d : Dispatcher js W) (s : McpShard js W) (body session_id uri other j : Str) (id : Json)
      → lookup (lit "resources/subscribe") d.methods
        ≡ some (instant js (McpShard js W) (resources_subscribe js (Around js W)))
      → is_empty uri ≡ false
      → parse body
        ≡ some (request js (McpShard js W) id (lit "resources/subscribe") (subscription uri))
      → includes j (followers other (waiting_dispatch js W d body session_id s).1.subscriptions) ≡ (
          (not (is_empty session_id) && (uri == other && session_id == j))
          || includes j (followers other s.subscriptions))
  waiting_dispatch-followers d s body session_id uri other j id there named read =
      ap (λ (t : McpShard js W). includes j (followers other t.subscriptions))
        (waiting_dispatch-resources_subscribe d s body session_id uri id there named read)
      ∙ (subscribe-followers session_id uri other j s.subscriptions).0
