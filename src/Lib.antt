-- ===== src/Lib.antt =====
-- A verification library for the MCP server of this repository: a C++ library on seastar that serves
-- the Model Context Protocol over HTTP with server-sent events and over streamable HTTP. A server
-- runs one McpShard on each core. A transport takes a request, finds the client's address and key,
-- asks the shard's guards whether to serve it (address filter, API key, rate limiter, circuit
-- breaker), has the shard dispatch the JSON-RPC body, reports the outcome to the breaker, and
-- pushes the reply to the session, which may live on another shard.
--
-- Which file models what (paths from the repository's root):
-- - Security.Policy: include/mcp/security/security_policy.hh.
-- - Security.Breaker: include/mcp/security/circuit_breaker.hh, PerIpCircuitBreaker with allow,
--   record_success, record_failure, get_state and reset.
-- - Security.Filter: include/mcp/security/ip_filter.hh, IpFilter with _parse_cidr, _parse_ip and
--   is_allowed. inet_pton and htonl are the record Sockets.
-- - Security.Limiter: include/mcp/security/rate_limiter.hh, PerIpRateLimiter with try_acquire,
--   _refill and reset. The arithmetic of double is the record Doubles, with the laws it needs.
-- - Server.Admission: check_request, record_outcome, check_body_size and the guards made in start,
--   of include/mcp/server/mcp_shard.hh. Server.Audit: its _audit.
-- - Server.Sessions: the session table of mcp_shard.hh with its connection counts, and SseSession
--   of include/mcp/transport/transport.hh. Sessions are shared objects: they lie on a heap and the
--   table holds their places. Server.Ids: the session ids and both _parse_shard.
-- - Json: what the program takes from nlohmann::json, the record JsonLib, with the laws it needs, and
--   the accessors value and operator[] that the source uses. Json.Packed is one instance.
-- - Rpc: include/mcp/protocol/json_rpc.hh. Rpc.Dispatcher: include/mcp/router/dispatcher.hh. Rpc.Actions:
--   coroutines that change a state and may throw.
-- - Rpc.Coroutines: co_await. Rpc.Waiting: the dispatcher as coroutines. Server.Interleaving: dispatch
--   as a coroutine, and the requests that run at the same time on one core.
-- - Registry: include/mcp/core/registry.hh over include/mcp/core/interfaces.hh. Registry.Methods: the
--   methods of _register_mcp_methods in src/mcp/server/mcp_server.cc.
-- - Server.Requests: send_request_to_client and handle_client_response; Server.Dispatch: dispatch;
--   Server.Notices: the notifications of a shard, its start and stop, and request_sampling and
--   request_elicitation of include/mcp/server/mcp_server.hh.
-- - Server.Lifecycle: McpServer of include/mcp/server/mcp_server.hh and src/mcp/server/mcp_server.cc, with
--   start, stop and the broadcasts to all cores. What opening a port and stopping a transport return is a
--   parameter.
-- - Server.Subscriptions: subscribe_resource, unsubscribe_resource and cleanup_subscriptions.
-- - Server.Routes: what the transports send to the shard that owns a session, and _handle_delete.
--   Server.Routes.Flight: the same responses while they are under way to another core.
-- - Transport: _get_client_ip, _get_api_key and _security_reject of both HTTP transports
--   (include/mcp/transport/http_sse_transport.hh, streamable_http_transport.hh).
--   Transport.Streams: the coroutines that write a session's messages, with writes that may fail.
--   Transport.Requests: the routes, and the first replies of _handle_get. Transport.Handlers:
--   _handle_sse, _handle_message, _handle_post and _handle_get whole, which put the guards,
--   dispatch, the session tables and the replies together.
--   Transport.Stdio: include/mcp/transport/stdio_transport.hh.
-- - Builder: McpServerConfig and McpServerBuilder of include/mcp/core/builder.hh.
-- - HttpCommon: src/seastar_patches/http_common_patch.cc, method names and the two body sinks, the
--   content-length one at every level of seastar's API.
-- - Base: byte strings, numbers in texts, lists and dictionaries.
--
-- A handler is a function from the object before to the result and the object after. A method that
-- reads the clock takes the reading, in nanoseconds, as an argument. Numbers are natural; where the
-- source counts in uint32_t, uint64_t or size_t the wrap-around is written out. std::string is a list
-- of bytes and std::unordered_map a list of pairs, whose order stands for the iteration order. The
-- texts that std::to_string writes are made with the number itself plus one as the bound on the
-- digits, which is always enough; every other loop is structural recursion.
--
-- A JSON operation that throws returns `thrown`. A handler of a method is a function of its parameters
-- and of the state MethodState, which for a shard holds the session table, the requests to clients
-- and the rest of the program, so that a handler may change any of them. What leaves the dispatcher as
-- an exception is an Escape.
--
-- A request is one step, but in Rpc.Waiting and Server.Interleaving. There a handler may wait: a
-- coroutine is data, cut at each co_await, a core holds the requests it has taken, and a step resumes
-- any of them, takes a new one or runs anything else of the core. Transport.Streams cuts the writers of
-- the event streams in the same way, beside what else happens to their session. What the reactor
-- prefers is left open.
--
-- The queue of a session has 100 places. A push that finds them taken waits; what a seastar::queue, which
-- is made for one producer, does with several that wait is left open: Transport.Streams lets any of them
-- join later or fail.
--
-- A call sent to another core takes effect in the same step, but in Server.Routes.Flight, where any of
-- the calls under way may run next. One to a core that does not exist changes nothing.
--
-- Not modelled: the text format of JSON, which is a parameter; seastar's own services, of which the
-- model uses that invoke_on_all runs a function on every core and that the start of a sharded service
-- makes one instance for each; what flush, close and the stream factories of the body sinks forward to
-- seastar. The log of the guards and that of the session table are one logger in the source and two
-- lists here. A request to a client is modelled up to the future it waits for. In Transport.Stdio
-- nothing else uses the shard between two lines. The files below examples and tests only use the
-- library.
mod Base
pub mod Security
pub mod Server
pub mod HttpCommon
pub mod Transport
pub mod Builder
pub mod Json
pub mod Rpc
pub mod Registry
