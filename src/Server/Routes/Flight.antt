-- ===== src/Server/Routes/Flight.antt =====
-- Responses on their way to other cores: invoke_on in run_in_background, at the end of _handle_message
-- (http_sse_transport.hh) and of _handle_post (streamable_http_transport.hh), with the time that a call
-- is under way. In which order the calls under way run is left open.
pub mod Counting
pub mod Conserved
mod Tests
use mcp_server.Base.{
  ℕ, zero, suc, List, [], ◌∷◌, ◌++◌, Option, none, some, if◌then◌else◌, ◌==◌, nat_eq, Str,
  get_elem?,
}
use mcp_server.Server.Ids.{sse_parse_shard, streamable_parse_shard}
use mcp_server.Server.Sessions.{Sessions, push_to_session}
use mcp_server.Server.Routes.{invoke_on}

pub record Call : Type 0 where
  pub target : ℕ
  pub session_id : Str
  pub msg : Str

pub record Cores : Type 0 where
  pub shards : List Sessions
  pub under_way : List Call

pub data Sender : Type 0 where
  by_sse by_streamable : Sender

abbrev pub target_of : Sender → Str → ℕ
target_of by_sse id = sse_parse_shard id
target_of by_streamable id = streamable_parse_shard id

-- A handler of core `here` sends a response.
unfoldable pub send_response : Sender → ℕ → Str → Str → Cores → Cores
send_response sender here id msg c =
    let target = target_of sender id in
    if target == here
    then record c { shards = invoke_on here (λ s. push_to_session s id msg) c.shards }
    else record c {
      under_way = c.under_way ++ record { target = target; session_id = id; msg = msg } ∷ [];
    }

abbrev pub without_at : ℕ → List Call → List Call
without_at i [] = []
without_at zero (p ∷ ps) = ps
without_at (suc i) (p ∷ ps) = p ∷ without_at i ps

deliver_call : ℕ → Option Call → Cores → Cores
deliver_call i none c = c
deliver_call i (some p) c = record {
  shards = invoke_on p.target (λ s. push_to_session s p.session_id p.msg) c.shards;
  under_way = without_at i c.under_way;
}

-- Any of the calls under way runs on its core.
pub data Move : Type 0 where
  responds : Sender → (here : ℕ) → (id msg : Str) → Move
  arrives : ℕ → Move

unfoldable pub move : Move → Cores → Cores
unfolding send_response deliver_call
move (responds sender here id msg) c = send_response sender here id msg c
move (arrives i) c = deliver_call i (get_elem? c.under_way i) c

unfoldable pub moves : List Move → Cores → Cores
unfolding move
moves [] c = c
moves (m ∷ ms) c = moves ms (move m c)
