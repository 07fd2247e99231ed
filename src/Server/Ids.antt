-- ===== src/Server/Ids.antt =====
-- Session ids, written by McpShard::create_session (mcp_shard.hh) and by _handle_post of the
-- streamable transport, and the `_parse_shard` of http_sse_transport.hh and of
-- streamable_http_transport.hh, which read the shard out of them.
pub mod Routing
pub mod Fresh
mod Tests
use mcp_server.Base.{
  ℕ, ◌+◌, ◌-◌, ◌%◌, ◌^◌, Bool, false, ◌&&◌, Option, none, some, ◌∷◌, ◌++◌, ltb, if◌then◌else◌, ◌==◌,
  nat_eq, Str, length, get_elem?, to_string, find_byte, substr, drop, stoul, Outcome, returned,
  thrown, NumberError,
}

-- `std::to_string(this_shard_id()) + "_" + std::to_string(counter)`
abbrev pub numbers : ℕ → ℕ → Str
numbers shard counter = to_string shard ++ b'_' ∷ to_string counter

unfoldable pub session_id : ℕ → ℕ → Str
session_id shard counter = b's' ∷ numbers shard counter

unfoldable pub streamable_id : ℕ → ℕ → Str
streamable_id shard counter = b's' ∷ b'm' ∷ numbers shard counter

-- `try { return static_cast<unsigned>(std::stoul(text)); } catch (...) {}`, with the `return 0` below
unsigned_or_zero : Outcome NumberError ℕ → ℕ
unsigned_or_zero (returned n) = n % 2 ^ 32
unsigned_or_zero (thrown e) = 0

-- `s[i] == c`, for `i` within the text
has_byte : ℕ → ℕ → Str → Bool
has_byte i c s = elim (get_elem? s i) [ none ↦ false | some b ↦ b == c ]

pub sse_parse_shard : Str → ℕ
unfolding unsigned_or_zero has_byte
sse_parse_shard s =
    if ltb 1 (length s) && has_byte 0 b's' s
    then elim (find_byte b'_' s) [
      | none ↦ 0
      | some pos ↦ if ltb 1 pos then unsigned_or_zero (stoul (substr s 1 (pos - 1))) else 0
    ]
    else 0

prefix_end : Str → ℕ
unfolding has_byte
prefix_end id = if (ltb 2 (length id) && has_byte 0 b's' id) && has_byte 1 b'm' id then 2 else 1

-- The number up to the underscore, whose place is counted from `start`, so that `pos > start` is a
-- count above 0.
number_at : Str → ℕ → Option ℕ → ℕ
unfolding unsigned_or_zero
number_at id start none = 0
number_at id start (some count) =
    if ltb 0 count then unsigned_or_zero (stoul (substr id start count)) else 0

-- The search is `id.find('_', start)`.
parse_from : Str → ℕ → ℕ
unfolding number_at
parse_from id start = number_at id start (find_byte b'_' (drop start id))

pub streamable_parse_shard : Str → ℕ
unfolding prefix_end parse_from
streamable_parse_shard id = parse_from id (prefix_end id)
