-- ===== src/Server/Routes.antt =====
-- How both transports reach the shard of a session: the end of _handle_message
-- (http_sse_transport.hh), of _handle_post and of _handle_delete (streamable_http_transport.hh). The
-- shards are a list, at their numbers. What runs on another core is done in the same step here, and
-- nothing where there is no such core; Flight has the time between.
pub mod Owner
pub mod Flight
mod Tests
use mcp_server.Base.{
  ℕ, zero, suc, false, List, [], ◌∷◌, Option, none, some, if◌then◌else◌, ◌==◌, nat_eq, Str, set,
  get_elem?,
}
use mcp_server.Server.Ids.{sse_parse_shard, streamable_parse_shard}
use mcp_server.Server.Sessions.{
  SseSession, Sessions, enqueue, get_session, push_to_session, remove_session,
}

-- `shards.invoke_on(target, f)`
abbrev pub invoke_on : ℕ → (Sessions → Sessions) → List Sessions → List Sessions
invoke_on target f [] = []
invoke_on zero f (s ∷ rest) = f s ∷ rest
invoke_on (suc target) f (s ∷ rest) = s ∷ invoke_on target f rest

-- A response of the SSE transport, on its way to the session.
pub sse_respond : ℕ → List Sessions → Str → Str → List Sessions
sse_respond here shards id msg =
    let target = sse_parse_shard id in
    if target == here
    then invoke_on here (λ s. push_to_session s id msg) shards
    else invoke_on target (λ s. push_to_session s id msg) shards

pub streamable_respond : ℕ → List Sessions → Str → Str → List Sessions
streamable_respond here shards id msg =
    let target = streamable_parse_shard id in
    if target == here
    then invoke_on here (λ s. push_to_session s id msg) shards
    else invoke_on target (λ s. push_to_session s id msg) shards

-- `s->active = false` and an empty message, which ends the stream.
unfoldable pub deactivate : SseSession → SseSession
deactivate x = record (enqueue [] x) { active = false }

unfoldable pub deactivate_at : List SseSession → ℕ → List SseSession
unfolding deactivate
deactivate_at heap at_ = elim (get_elem? heap at_) [
  | none ↦ heap
  | some x ↦ set heap at_ (deactivate x)
]

silence : Sessions → Option ℕ → Sessions
unfolding deactivate_at
silence s none = s
silence s (some at_) = record s { heap = deactivate_at s.heap at_ }

pub close_session : Sessions → Str → Sessions
unfolding silence
close_session s id = remove_session (silence s (get_session s id)) id

pub handle_delete : ℕ → List Sessions → Str → List Sessions
unfolding close_session
handle_delete here shards [] = shards
handle_delete here shards (c ∷ id) =
    let target = streamable_parse_shard (c ∷ id) in
    if target == here
    then invoke_on here (λ s. close_session s (c ∷ id)) shards
    else invoke_on target (λ s. close_session s (c ∷ id)) shards
