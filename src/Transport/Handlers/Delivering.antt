-- ===== src/Transport/Handlers/Delivering.antt =====
-- Where the response to a POST goes.
use mcp_server.Base.{
  ℕ, ◌^◌, ◌≡◌, refl, ap, ◌∙◌, ◌≢◌, ◌<◌, true, false, Option, some, Str, lit, length, if◌then◌else◌,
  nat_eq, ==_refl, is_empty, contains_text, get_elem?, set, get_elem?-set_self, get_elem?-set_ne,
  returned,
}
use mcp_server.Json.{JsonLib}
use mcp_server.Rpc.Dispatcher.{JsonRpcDispatcher}
use mcp_server.Security.Policy.{ok}
use mcp_server.Security.Breaker.{record_failure, record_success}
use mcp_server.Security.Filter.Platform.{Sockets}
use mcp_server.Security.Limiter.Doubles.{Doubles}
use mcp_server.Server.Ids.{session_id, streamable_id, sse_parse_shard, streamable_parse_shard}
use mcp_server.Server.Ids.Routing.{parse_shard-id}
use mcp_server.Server.Sessions.{SseSession, enqueue, get_session}
use mcp_server.Server.Sessions.Pushing.{push_to_session_lem}
use mcp_server.Server.Admission.{Guards, check_body_size, record_outcome}
use mcp_server.Server.Dispatch.{McpShard, dispatch}
use mcp_server.Transport.{Reply, get_client_ip}
use mcp_server.Transport.Handlers.{
  Request, Times, Core, Answer, sessions_of, with_sessions, deliver, is_error, refuse_unless_ok,
  accepted, guarded, run_message, run_post, run_session, served_message, handle_message,
  handle_post,
}
use mcp_server.Transport.Handlers.Guarding.{checked, sized_through}

-- The transport that a POST comes by.
pub data Poster : Type 0 where
  by_sse by_streamable : Poster

abbrev pub issued : Poster → ℕ → ℕ → Str
issued by_sse = session_id
issued by_streamable = streamable_id

abbrev pub parse_shard : Poster → Str → ℕ
parse_shard by_sse = sse_parse_shard
parse_shard by_streamable = streamable_parse_shard

issued-nonempty : (p : Poster) (shard number : ℕ) → is_empty (issued p shard number) ≡ false
unfolding session_id streamable_id
issued-nonempty by_sse shard number = refl
issued-nonempty by_streamable shard number = refl

parse_shard-issued :
    (p : Poster) (shard number : ℕ) → shard < 2 ^ 32 → parse_shard p (issued p shard number) ≡ shard
parse_shard-issued by_sse shard number h = (parse_shard-id shard number h).0
parse_shard-issued by_streamable shard number h = (parse_shard-id shard number h).2

module _ (os : Sockets) (fp : Doubles) (js : JsonLib) (W : Type 0) where
  abbrev pub post :
      Poster
      → JsonRpcDispatcher js (McpShard js W)
      → Request
      → Times
      → Reply
      → Core os fp js W
      → Answer os fp js W
  post by_sse d = handle_message os fp js W d
  post by_streamable d = handle_post os fp js W d

  abbrev finished :
      Poster
      → Request
      → Times
      → Reply
      → Core os fp js W
      → Guards os fp
      → McpShard js W
      → Option Str
      → Answer os fp js W
  finished p req t rep c g shard response = (
    returned (accepted rep),
    deliver os fp js W (parse_shard p req.session_id) req.session_id response (record c {
      shard = shard;
      guards =
          record_outcome os fp g (get_client_ip req.headers) (is_error response) t.outcome_time;
    }),
  )

  guarded_ok :
      (req : Request) (t : Times) (rep : Reply) (next : Core os fp js W → Answer os fp js W)
      (c : Core os fp js W) (g : Guards os fp)
      → checked os fp js W req t c ≡ (ok, g)
      → guarded os fp js W req t rep next c ≡ next (record c { guards = g })
  unfolding guarded
  guarded_ok req t rep next c g e = ap (refuse_unless_ok os fp js W rep next c) e

  -- A POST for a session that the checks let through.
  post_lem :
      (p : Poster) (d : JsonRpcDispatcher js (McpShard js W)) (req : Request) (t : Times)
      (rep : Reply) (c : Core os fp js W) (g : Guards os fp) (shard : McpShard js W)
      (response : Option Str)
      → is_empty req.session_id ≡ false
      → check_body_size os fp c.guards (length req.body) ≡ true
      → checked os fp js W req t c ≡ (ok, g)
      → dispatch js W d req.body req.session_id c.shard ≡ (returned response, shard)
      → post p d req t rep c ≡ finished p req t rep c g shard response
  unfolding handle_message handle_post run_message run_post run_session served_message
  post_lem by_sse d req t rep c g shard response full small e f =
      let next = run_message os fp js W d req t rep in
      sized_through os fp js W req rep (guarded os fp js W req t rep next) c small
      ∙ guarded_ok req t rep next c g e
      ∙ rw (f, full) refl
  post_lem by_streamable d req t rep c g shard response full small e f =
      let next = run_post os fp js W d req t rep in
      sized_through os fp js W req rep (guarded os fp js W req t rep next) c small
      ∙ guarded_ok req t rep next c g e
      ∙ rw (full, f) refl

  deliver_lem :
      (c : Core os fp js W) (target i : ℕ) (id text : Str) (x : SseSession)
      → target ≡ c.here
      → get_session (sessions_of os fp js W c) id ≡ some i
      → get_elem? (sessions_of os fp js W c).heap i ≡ some x
      → x.active ≡ true
      → deliver os fp js W target id (some text) c
        ≡ with_sessions os fp js W
            (record (sessions_of os fp js W c) {
              heap = set (sessions_of os fp js W c).heap i (enqueue text x);
            })
            c
  unfolding deliver
  deliver_lem c target i id text x here known there active =
      rw
        (
          here,
          ==_refl c.here,
          push_to_session_lem (sessions_of os fp js W c) id text i x known there active,
        )
        refl

  -- A POST on either HTTP transport for a session id that the handling core issued, on a 32-bit core
  -- number, when the checks let it through, dispatch has a response and the session is then open. The
  -- reply is 202 without the response, which is pushed to that session: it joins the queue behind what was there, or waits while the 100
  -- places are taken;
  -- no other session and no other core gets anything, and the breaker records a failure exactly
  -- when the response has the text "error" in quotes somewhere, and a success otherwise.
  pub post-push :
      (p : Poster) (d : JsonRpcDispatcher js (McpShard js W)) (req : Request) (t : Times)
      (rep : Reply) (c : Core os fp js W) (g : Guards os fp) (shard : McpShard js W) (number i : ℕ)
      (text : Str) (x : SseSession)
      → c.here < 2 ^ 32
      → req.session_id ≡ issued p c.here number
      → check_body_size os fp c.guards (length req.body) ≡ true
      → checked os fp js W req t c ≡ (ok, g)
      → dispatch js W d req.body req.session_id c.shard ≡ (returned (some text), shard)
      → get_session shard.world.sessions req.session_id ≡ some i
      → get_elem? shard.world.sessions.heap i ≡ some x
      → x.active ≡ true
      → (c' : Core os fp js W) × (post p d req t rep c
          ≡ (returned (record rep { status = 202 }), c'))
        × (get_elem? (sessions_of os fp js W c').heap i ≡ some (enqueue text x))
        × ((j : ℕ)
            → i ≢ j
            → get_elem? (sessions_of os fp js W c').heap j ≡ get_elem? shard.world.sessions.heap j)
        × (c'.others ≡ c.others)
        × (c'.guards.circuit_breaker ≡ (
            if contains_text (lit "\"error\"") text
            then record_failure g.circuit_breaker (get_client_ip req.headers) t.outcome_time
            else record_success g.circuit_breaker (get_client_ip req.headers)))
  unfolding record_outcome is_error
  post-push p d req t rep c g shard number i text x h same small e f known there active =
      let full = ap is_empty same ∙ issued-nonempty p c.here number in
      let owner = ap (parse_shard p) same ∙ parse_shard-issued p c.here number h in
      let k : Core os fp js W = record c {
        shard = shard;
        guards =
            record_outcome os fp g (get_client_ip req.headers) (is_error (some text))
              t.outcome_time;
      } in
      let heap = set shard.world.sessions.heap i (enqueue text x) in
      (
        with_sessions os fp js W (record shard.world.sessions { heap = heap }) k,
        post_lem p d req t rep c g shard (some text) full small e f
            ∙ ap (λ c'. (returned (accepted rep), c'))
                (deliver_lem k (parse_shard p req.session_id) i req.session_id text x owner known
                  there active),
        get_elem?-set_self shard.world.sessions.heap i (enqueue text x) x there,
        λ j n. get_elem?-set_ne shard.world.sessions.heap i j (enqueue text x) n,
        refl,
        refl,
      )
