-- ===== src/Server/Routes/Flight/Conserved.antt =====
-- That a response on its way to another core is pushed once.
use mcp_server.Base.{ℕ, ◌+◌, ◌≡◌, true, List, some, nat_eq, Str, str_eq, get_elem?, All}
use mcp_server.Server.Sessions.{SseSession, Sessions, get_session}
use mcp_server.Server.Notices.Audience.{IsApart}
use mcp_server.Server.Routes.Flight.Counting.{count, flying}
use mcp_server.Server.Routes.Flight.{Call, Cores}

-- How often a text is in the queue of a session or waits for room there.
pub had : Str → SseSession → ℕ
had a x = count a x.messages + count a x.waiting

module _ (id a : Str) (t k : ℕ) where
  -- The session is open on core `t`, and has a text as often as `n` says.
  record Holds (shards : List Sessions) (n : ℕ) : Type 0 where
    s : Sessions
    x : SseSession
    at_core : get_elem? shards t ≡ some s
    apart : IsApart s
    named : get_session s id ≡ some k
    placed : get_elem? s.heap k ≡ some x
    open_still : x.active ≡ true
    counted : had a x ≡ n

  -- Every call under way to the session goes to its core.
  abbrev IsOwned : Call → Type 0
  IsOwned p = p.session_id ≡ id → p.target ≡ t

  -- The texts on core `t` and under way together are `total`.
  record Conserves (total : ℕ) (c : Cores) : Type 0 where
    here_now : ℕ
    holds : Holds c.shards here_now
    owned : All IsOwned c.under_way
    together : here_now + flying id a c.under_way ≡ total
