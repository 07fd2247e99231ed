-- ===== src/Server/Sessions.antt =====
-- The session tables of McpShard (mcp_shard.hh) and SseSession (transport.hh). A session is shared by
-- the table and the streams that serve it, so it lies on a heap and the table holds its index.
pub mod Counting
pub mod Soundness
pub mod History
pub mod Addresses
pub mod Owners
pub mod Limits
pub mod Pushing
pub mod Removal
mod Tests
use mcp_server.Base.{
  ℕ, ◌+◌, ◌-◌, ◌%◌, ◌^◌, Bool, true, ◌&&◌, not, List, [], ◌∷◌, ◌++◌, Option, none, some, ltb, leb,
  if◌then◌else◌, ◌==◌, nat_eq, Str, str_eq, lit, is_empty, length, get_elem?, set, to_string, Dict,
  lookup, insert, erase,
}
use mcp_server.Security.Policy.{SecurityPolicy}
use mcp_server.Server.Audit.{AuditLine, audit}
use mcp_server.Server.Ids.{session_id}

-- `messages` is the content of the seastar::queue of 100 places, oldest first. `waiting` are the pushes
-- that found every place taken: push_eventually lets them wait for room, and which of them joins is
-- left open, since a seastar::queue is made for one producer and may fail one that waits when another
-- comes.
pub record SseSession : Type 0 where
  pub messages : List Str
  pub waiting : List Str
  pub active : Bool

abbrev pub new_session : SseSession
new_session = record { messages = []; waiting = []; active = true }

-- `messages.push_eventually(msg)`
abbrev pub enqueue : Str → SseSession → SseSession
enqueue msg x =
    if ltb (length x.messages) 100
    then record x { messages = x.messages ++ msg ∷ [] }
    else record x { waiting = x.waiting ++ msg ∷ [] }

pub record Sessions : Type 0 where
  pub security : SecurityPolicy
  pub shard_id : ℕ
  pub heap : List SseSession
  pub sessions : Dict Str ℕ
  pub session_counter : ℕ
  pub session_to_ip : Dict Str Str
  pub ip_conn_count : Dict Str ℕ
  pub log : List AuditLine

-- The members' initial values.
abbrev pub no_sessions : SecurityPolicy → ℕ → Sessions
no_sessions security shard_id = record {
  security = security;
  shard_id = shard_id;
  heap = [];
  sessions = [];
  session_counter = 0;
  session_to_ip = [];
  ip_conn_count = [];
  log = [];
}

abbrev pub count_or_zero : Option ℕ → ℕ
count_or_zero none = 0
count_or_zero (some n) = n

-- `_track_ip_conn`
pub track_ip_conn : Sessions → Str → Str → Sessions
track_ip_conn s id client_ip =
    if not (is_empty client_ip)
    then record s {
      session_to_ip = insert id client_ip s.session_to_ip;
      ip_conn_count =
          insert client_ip ((count_or_zero (lookup client_ip s.ip_conn_count) + 1) % 2 ^ 64)
            s.ip_conn_count;
    }
    else s

-- `_sessions[id] = std::make_shared<SseSession>()`
pub add_session : Sessions → Str → Sessions
add_session s id = record s {
  heap = s.heap ++ new_session ∷ [];
  sessions = insert id (length s.heap) s.sessions;
}

pub create_session_with_id : Sessions → Str → Str → Sessions
unfolding add_session track_ip_conn
create_session_with_id s id client_ip = track_ip_conn (add_session s id) id client_ip

refuse : Sessions → Str → Str → Str × Sessions
refuse s event client_ip = (
  [],
  record s {
    log =
        audit s.security.enable_audit_log (to_string s.shard_id) event client_ip
          (lit "connection_limit") s.log;
  },
)

accept : Sessions → Str → Str × Sessions
unfolding create_session_with_id
accept s client_ip =
    let counter = (s.session_counter + 1) % 2 ^ 64 in
    let id = session_id s.shard_id counter in
    (id, create_session_with_id (record s { session_counter = counter }) id client_ip)

-- The empty text stands for a refusal.
pub create_session : Sessions → Str → Str × Sessions
unfolding refuse accept
create_session s client_ip =
    let limit = s.security.connection_limit in
    if limit.enabled
    then if leb limit.max_total (length s.sessions)
      then refuse s (lit "CONN_LIMIT_TOTAL") client_ip
      else if not (is_empty client_ip)
          && leb limit.max_per_ip (count_or_zero (lookup client_ip s.ip_conn_count))
      then refuse s (lit "CONN_LIMIT_PER_IP") client_ip
      else accept s client_ip
    else accept s client_ip

-- The heap index of a session of the table.
unfoldable pub get_session : Sessions → Str → Option ℕ
get_session s id = lookup id s.sessions

-- One connection of `ip` less; the entry goes with the last one.
abbrev pub released : Dict Str ℕ → Str → Option ℕ → Dict Str ℕ
released counts ip none = counts
released counts ip (some n) =
    let left = if ltb 0 n then n - 1 else n in
    if left == 0 then erase ip counts else insert ip left counts

pub release_ip : Dict Str ℕ → Str → Dict Str ℕ
release_ip counts ip = released counts ip (lookup ip counts)

abbrev pub forget_ip : Sessions → Str → Option Str → Sessions
forget_ip s id none = s
forget_ip s id (some ip) = record s {
  ip_conn_count = release_ip s.ip_conn_count ip;
  session_to_ip = erase id s.session_to_ip;
}

pub remove_session : Sessions → Str → Sessions
unfolding release_ip
remove_session s id =
    let t = forget_ip s id (lookup id s.session_to_ip) in
    record t { sessions = erase id t.sessions }

-- A push to an active session, at a heap index.
pub push : List SseSession → ℕ → Str → List SseSession
push heap at_ msg = elim (get_elem? heap at_) [
  | none ↦ heap
  | some x ↦ if x.active then set heap at_ (enqueue msg x) else heap
]

pub push_to_session : Sessions → Str → Str → Sessions
unfolding push get_session
push_to_session s id msg = elim (get_session s id) [
  | none ↦ s
  | some at_ ↦ record s { heap = push s.heap at_ msg }
]

-- The loop of `broadcast_notification` over the table.
pub push_all : List SseSession → Dict Str ℕ → Str → List SseSession
unfolding push
push_all heap [] msg = heap
push_all heap ((id, at_) ∷ rest) msg = push_all (push heap at_ msg) rest msg

pub broadcast_notification : Sessions → Str → Sessions
unfolding push_all
broadcast_notification s msg = record s { heap = push_all s.heap s.sessions msg }
