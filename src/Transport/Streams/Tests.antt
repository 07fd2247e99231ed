-- ===== src/Transport/Streams/Tests.antt =====
-- A session whose stream is read, closed and forgotten.
use mcp_server.Base.{
  ℕ, ◌≡◌, refl, arith, true, false, none, [], ◌∷◌, ◌++◌, List, nat_eq, Str, str_eq, str_beq, lit,
  insert, lookup,
}
use mcp_server.Json.Packed.{packed}
use mcp_server.Security.Policy.{default_policy}
use mcp_server.Registry.Methods.{info}
use mcp_server.Server.Sessions.{new_session, no_sessions, get_session}
use mcp_server.Server.Requests.{no_requests}
use mcp_server.Server.Subscriptions.{includes, followers}
use mcp_server.Server.Dispatch.{McpShard}
use mcp_server.Transport.Streams.{
  StreamEvent, closed, pushes, closes, resumes, run_stream, open_sse, react, resume_at, pop_message,
  write_text, broken, frame, close_stream, close_get_stream,
}
use mcp_server.Transport.Streams.Reading.{frames}
use mcp_server.Transport.Streams.Delivery.{sse, opened, queued_in, Got, receive-run_stream}
use mcp_server.Transport.Streams.Progress.{rounds, open_with, run_stream-rounds}
use mcp_server.Transport.Streams.Closing.{close_stream-get_session}

-- One message is written, the write of the second fails, a third comes too late.
abbrev events : List StreamEvent
events =
    resumes true
    ∷ pushes (lit "{}")
    ∷ resumes true
    ∷ resumes true
    ∷ resumes true
    ∷ resumes true
    ∷ resumes true
    ∷ pushes (lit "[]")
    ∷ resumes true
    ∷ resumes true
    ∷ resumes true
    ∷ resumes false
    ∷ pushes (lit "late")
    ∷ []

first_only : run_stream events (opened (sse (lit "s0_1")) new_session) ≡ record {
  session = record { messages = []; waiting = []; active = false };
  phase = closed (lit "[]" ∷ []);
  out = lit "event: endpoint\ndata: /message?sessionId=s0_1\n\ndata: {}\n\n";
}
unfolding run_stream react resume_at pop_message write_text broken frame open_sse lit
first_only = refl

receive-run_stream_example :
    (messages : List Str) × Got messages
      ([] ++ queued_in events (opened (sse (lit "s0_1")) new_session))
      (run_stream events (opened (sse (lit "s0_1")) new_session))
unfolding queued_in run_stream react resume_at pop_message write_text broken frame open_sse lit
receive-run_stream_example =
    receive-run_stream (sse (lit "s0_1")) new_session events (omega arith) (omega arith)

run_stream-rounds_example :
    (run_stream
        (rounds (lit "{}" ∷ lit "[]" ∷ []))
        (open_with (lit "{}" ∷ lit "[]" ∷ lit "more" ∷ []) [])
      ≡ open_with (lit "more" ∷ []) (frames (lit "{}" ∷ lit "[]" ∷ [])))
    × (let t =
          run_stream
            (closes ∷ resumes true ∷ resumes false ∷ resumes true ∷ [])
            (open_with [] []) in
        (unsent : List Str) × (t.phase ≡ closed unsent) × (t.out ≡ []))
unfolding lit
run_stream-rounds_example =
    run_stream-rounds (lit "{}" ∷ lit "[]" ∷ []) (lit "more" ∷ []) [] (open_with [] []) true false
      true (refl, (refl, tt))

abbrev id : Str
id = lit "s0_1"

abbrev ip : Str
ip = lit "10.0.0.7"

abbrev shard : McpShard packed ℕ
shard = record {
  current_session_id = [];
  current_progress_token = [];
  subscriptions = (lit "file", id ∷ []) ∷ [];
  loggers_level = info;
  client_log_levels = info ∷ [];
  world = record {
    sessions = record (no_sessions default_policy 0) {
      heap = new_session ∷ [];
      sessions = insert id 0 [];
      session_to_ip = insert id ip [];
      ip_conn_count = insert ip 1 [];
    };
    requests = no_requests packed;
    program = 0;
  };
}

close_stream-get_session_example :
    let t = close_stream packed ℕ id shard in
    let g = close_get_stream packed ℕ id shard in
    (get_session t.world.sessions id ≡ none)
    × (get_session g.world.sessions id ≡ none)
    × (includes id (followers (lit "file") t.subscriptions) ≡ false)
    × (g.subscriptions ≡ (lit "file", id ∷ []) ∷ [])
    × (lookup ip t.world.sessions.ip_conn_count ≡ none)
    × (lookup ip g.world.sessions.ip_conn_count ≡ none)
unfolding lookup insert lit str_beq
close_stream-get_session_example = close_stream-get_session packed ℕ shard id id (lit "file") ip
