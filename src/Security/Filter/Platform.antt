-- ===== src/Security/Filter/Platform.antt =====
-- What ip_filter.hh takes from <arpa/inet.h>: inet_pton for AF_INET and htonl.
use Prim.Native.Nat.{bit_and}
use mcp_server.Base.{ℕ, ◌^◌, ◌<◌, ◌≡◌, Option, some, Str, Lacks, lit}

pub record Sockets : Type 0 where
  -- `s_addr` of a dotted quad (the text up to its first NUL), in network byte order; `none` where the call does not return 1.
  pub inet_pton : Str → Option ℕ
  pub htonl : ℕ → ℕ
  -- htonl permutes the bytes of a 32-bit number, so it keeps `&` and loses nothing.
  pub htonl-and :
      (a b : ℕ) → a < 2 ^ 32 → b < 2 ^ 32 → bit_and (htonl a) (htonl b) ≡ htonl (bit_and a b)
  pub htonl-injective : (a b : ℕ) → a < 2 ^ 32 → b < 2 ^ 32 → htonl a ≡ htonl b → a ≡ b
  pub htonl-zero : htonl 0 ≡ 0
  -- The result is some 32-bit host address in network order.
  pub inet_pton_range :
      (s : Str) (a : ℕ) → inet_pton s ≡ some a → (h : ℕ) × (h < 2 ^ 32) × (a ≡ htonl h)
  -- 0.0.0.0 has this one spelling, where no NUL ends the text early.
  pub inet_pton_zero : (s : Str) → Lacks 0 s → inet_pton s ≡ some 0 → s ≡ lit "0.0.0.0"
