-- ===== src/Transport/Streams.antt =====
-- The event streams: the writers of _handle_sse (http_sse_transport.hh) and of _handle_post and
-- _handle_get (streamable_http_transport.hh), cut where they wait, beside what else happens to their
-- session. One stream reads a session.
pub mod Reading
pub mod Delivery
pub mod Progress
pub mod Closing
mod Tests
use mcp_server.Base.{
  ℕ, zero, suc, Bool, Option, none, some, ltb, length, get_elem?, false, ◌||◌, not, List, [], ◌∷◌,
  ◌++◌, if◌then◌else◌, Str, lit, is_empty,
}
use mcp_server.Json.{JsonLib}
use mcp_server.Server.Sessions.{SseSession, enqueue, remove_session}
use mcp_server.Server.Sessions.Pushing.{told}
use mcp_server.Server.Routes.{deactivate}
use mcp_server.Server.Subscriptions.{cleanup_subscriptions}
use mcp_server.Server.Dispatch.{McpShard}

-- `"data: " + msg + "\n\n"`
pub frame : Str → Str
frame msg = lit "data: " ++ (msg ++ b'\n' ∷ b'\n' ∷ [])

-- In the first write, of what names where to post; before the test of the loop; in pop_eventually, and
-- behind it with what it gave; in the write of a message; and in a flush. A stream that has ended keeps
-- the message that it popped and did not write.
pub data StreamPhase : Type 0 where
  opening : Str → StreamPhase
  looping popping : StreamPhase
  holding writing : Str → StreamPhase
  flushing : StreamPhase
  closed : List Str → StreamPhase

-- `out` is what the writes gave to the connection; one that throws adds nothing.
pub record SseStream : Type 0 where
  pub session : SseSession
  pub phase : StreamPhase
  pub out : Str

-- `catch (...) { session->active = false; }`
broken : List Str → SseStream → SseStream
broken unsent s = record s { session = record s.session { active = false }; phase = closed unsent }

-- `"event: endpoint\ndata: /message?sessionId=" + sid + "\n\n"`
abbrev pub endpoint : Str → Str
endpoint session_id =
    lit "event: endpoint\ndata: /message?sessionId=" ++ (session_id ++ b'\n' ∷ b'\n' ∷ [])

pub open_sse : Str → SseSession → SseStream
open_sse session_id session = record {
  session = session;
  phase = opening (endpoint session_id);
  out = [];
}

pub open_streamable : SseSession → SseStream
open_streamable session = record { session = session; phase = looping; out = [] }

pop_message : List Str → SseStream → SseStream
pop_message [] s = s
pop_message (msg ∷ rest) s = record s {
  session = record s.session { messages = rest };
  phase = holding msg;
}

-- The write that is under way ends.
write_text : Str → List Str → Bool → SseStream → SseStream
unfolding broken
write_text text unsent written s =
    if written then record s { phase = flushing; out = s.out ++ text } else broken unsent s

-- One piece of the loop; an empty queue lets it wait. `done` tells whether the write or flush that is
-- under way succeeds.
resume_at : StreamPhase → Bool → SseStream → SseStream
unfolding pop_message write_text broken frame
resume_at (opening text) done s = write_text text [] done s
resume_at looping done s =
    if s.session.active then record s { phase = popping } else record s { phase = closed [] }
resume_at popping done s = pop_message s.session.messages s
resume_at (holding msg) done s =
    if is_empty msg || not s.session.active
    then record s { phase = closed (msg ∷ []) }
    else record s { phase = writing msg }
resume_at (writing msg) done s = write_text (frame msg) (msg ∷ []) done s
resume_at flushing done s = if done then record s { phase = looping } else broken [] s
resume_at (closed unsent) done s = s

abbrev pub remove_at : ℕ → List Str → List Str
remove_at i [] = []
remove_at zero (m ∷ ms) = ms
remove_at (suc i) (m ∷ ms) = m ∷ remove_at i ms

-- A push that waits finds room.
join_queue : ℕ → Option Str → SseSession → SseSession
join_queue i none x = x
join_queue i (some msg) x =
    if ltb (length x.messages) 100
    then record x { messages = x.messages ++ msg ∷ []; waiting = remove_at i x.waiting }
    else x

-- What may happen: push_to_session or a broadcast; the first response of POST /mcp, which is pushed
-- whatever the session's state; DELETE or stop; the queue lets a push that waits join, or fails it; the
-- stream goes on.
pub data StreamEvent : Type 0 where
  pushes answers : Str → StreamEvent
  closes : StreamEvent
  joins fails : ℕ → StreamEvent
  resumes : Bool → StreamEvent

pub react : StreamEvent → SseStream → SseStream
unfolding resume_at deactivate join_queue
react (pushes msg) s = record s { session = told msg s.session }
react (answers msg) s = record s { session = enqueue msg s.session }
react closes s = record s { session = deactivate s.session }
react (joins i) s = record s { session = join_queue i (get_elem? s.session.waiting i) s.session }
react (fails i) s = record s {
  session = record s.session { waiting = remove_at i s.session.waiting };
}
react (resumes done) s = resume_at s.phase done s

pub run_stream : List StreamEvent → SseStream → SseStream
unfolding react
run_stream [] s = s
run_stream (e ∷ es) s = run_stream es (react e s)

module _ (js : JsonLib) (W : Type 0) where
  drop_session : Str → McpShard js W → McpShard js W
  drop_session session_id s = record s {
    world = record s.world { sessions = remove_session s.world.sessions session_id };
  }

  -- Behind the loops of GET /sse and of POST /mcp.
  pub close_stream : Str → McpShard js W → McpShard js W
  unfolding drop_session
  close_stream session_id s =
      drop_session session_id
        (record s { subscriptions = cleanup_subscriptions session_id s.subscriptions })

  -- Behind the loop of GET /mcp.
  pub close_get_stream : Str → McpShard js W → McpShard js W
  unfolding drop_session
  close_get_stream session_id s = drop_session session_id s
