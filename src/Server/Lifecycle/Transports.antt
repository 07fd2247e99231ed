-- ===== src/Server/Lifecycle/Transports.antt =====
-- The transports that McpServer::start starts.
use mathlib.Core.List.{append-nil, append_assoc}
use mcp_server.Base.{
  ℕ, ◌≡◌, refl, ap, ◌∙◌, Bool, true, false, List, [], ◌∷◌, ◌++◌, if◌then◌else◌, Outcome, returned,
  thrown,
}
use mcp_server.Json.{JsonLib}
use mcp_server.Rpc.Actions.{next, ◌>>=◌}
use mcp_server.Security.Filter.Platform.{Sockets}
use mcp_server.Security.Limiter.Doubles.{Doubles}
use mcp_server.Registry.Methods.{LogLevel}
use mcp_server.Builder.{McpServerConfig}
use mcp_server.Transport.Requests.{sse_routes, streamable_routes}
use mcp_server.Server.Lifecycle.{
  ITransport, http_sse_transport, streamable_http_transport, stdio_transport, StartError, OpenError,
  not_listening, destroyed_started, McpServer, listened, start_http, start_streamable_http,
  start_stdio, add_transport,
}

-- The transports that a configuration asks for, in the order in which they start.
abbrev pub http_of : McpServerConfig → List ITransport
http_of c = if c.enable_http then http_sse_transport c.http_port (sse_routes []) ∷ [] else []

abbrev pub streamable_of : McpServerConfig → List ITransport
streamable_of c =
    if c.enable_streamable_http
    then streamable_http_transport c.streamable_http_port (streamable_routes []) ∷ []
    else []

abbrev pub stdio_of : McpServerConfig → List ITransport
stdio_of c = if c.enable_stdio then stdio_transport ∷ [] else []

module _ (os : Sockets) (fp : Doubles) (js : JsonLib) (W : Type 0) where
  module _ {E : Type 0} (level : LogLevel) (program : W)
      (listen : List ITransport → ℕ → Outcome (OpenError E) (Unit {0})) where
    abbrev pub with_transports : List ITransport → McpServer os fp js W → McpServer os fp js W
    with_transports ts s = record s { transports = s.transports ++ ts }

    -- One HTTP transport, enabled or not.
    pub listens :
        (b : Bool) (o : Outcome (OpenError E) (Unit {0})) (t : ITransport)
        (s : McpServer os fp js W)
        → o ≡ returned tt
        → (if b
            then next
                (λ _. λ u. (returned tt, add_transport os fp js W t u))
                (listened os fp js W t o s)
            else (returned tt, s))
          ≡ (returned tt, with_transports (if b then t ∷ [] else []) s)
    unfolding listened
    listens true o t s e = rw e refl
    listens false o t s e = rw (append-nil s.transports) refl

    pub refuses :
        (b : Bool) (o : Outcome (OpenError E) (Unit {0})) (t : ITransport)
        (s : McpServer os fp js W) (error : E)
        → b ≡ true
        → o ≡ thrown (not_listening error)
        → (if b
            then next
                (λ _. λ u. (returned tt, add_transport os fp js W t u))
                (listened os fp js W t o s)
            else (returned tt, s))
          ≡ (thrown (destroyed_started t error), s)
    unfolding listened
    refuses true o t s error on e = rw e refl
    refuses false o t s error on e = cc

    adds :
        (b : Bool) (t : ITransport) (s : McpServer os fp js W)
        → ◌≡◌ {A = Outcome (StartError E) (Unit {0}) × McpServer os fp js W}
            (if b then (returned tt, add_transport os fp js W t s) else (returned tt, s))
            (returned tt, with_transports (if b then t ∷ [] else []) s)
    adds true t s = refl
    adds false t s = rw (append-nil s.transports) refl

    -- The three transports, where every port can be listened on.
    pub transports_start :
        (cores : ℕ) (s : McpServer os fp js W)
        → ((ts : List ITransport) (port : ℕ) → listen ts port ≡ returned tt)
        → next
            (λ _.
              ◌>>=◌
                (start_streamable_http os fp js W cores level program listen)
                (λ _. start_stdio os fp js W cores level program listen))
            (start_http os fp js W cores level program listen s)
          ≡ (
            returned tt,
            with_transports (http_of s.config ++ (streamable_of s.config ++ stdio_of s.config)) s,
          )
    unfolding start_http start_streamable_http start_stdio
    transports_start cores s free =
        let c = s.config in
        let a = http_of c in
        let b = streamable_of c in
        let s1 = with_transports a s in
        let s2 = with_transports b s1 in
        let stdio = start_stdio os fp js W cores level program listen in
        let streamable = start_streamable_http os fp js W cores level program listen in
        ap (next (λ _. ◌>>=◌ streamable (λ _. stdio))) (
          listens c.enable_http (listen s.transports c.http_port)
            (http_sse_transport c.http_port (sse_routes [])) s (free s.transports c.http_port))
        ∙ ap (next (λ _. stdio)) (
            listens c.enable_streamable_http (listen s1.transports c.streamable_http_port)
              (streamable_http_transport c.streamable_http_port (streamable_routes [])) s1
              (free s1.transports c.streamable_http_port))
        ∙ adds c.enable_stdio stdio_transport s2
        ∙ ap (λ ts. (returned tt, record s { transports = ts }))
            (append_assoc (s.transports ++ a) b (stdio_of c)
              ∙ append_assoc s.transports a (b ++ stdio_of c))
