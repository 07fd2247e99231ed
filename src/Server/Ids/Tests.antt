-- ===== src/Server/Ids/Tests.antt =====
-- Session ids at concrete numbers.
use mcp_server.Base.{◌≡◌, refl, arith, lit, to_string, find_byte, stoul}
use mcp_server.Server.Ids.{session_id, streamable_id, sse_parse_shard, streamable_parse_shard}
use mcp_server.Server.Ids.Routing.{parse_shard-id}

id_texts : (session_id 3 17 ≡ lit "s3_17") × (streamable_id 3 17 ≡ lit "sm3_17")
unfolding session_id streamable_id lit to_string
id_texts = (refl, refl)

-- What is no id is sent to shard 0.
other_texts :
    (sse_parse_shard (lit "sm3_17") ≡ 0)
    × (sse_parse_shard (lit "3_17") ≡ 0)
    × (sse_parse_shard (lit "s_1") ≡ 0)
    × (streamable_parse_shard (lit "stdio") ≡ 0)
unfolding sse_parse_shard streamable_parse_shard lit find_byte stoul
other_texts = (refl, refl, refl, refl)

parse_shard-id_example :
    (sse_parse_shard (session_id 3 17) ≡ 3)
    × (streamable_parse_shard (session_id 3 17) ≡ 3)
    × (streamable_parse_shard (streamable_id 3 17) ≡ 3)
parse_shard-id_example = parse_shard-id 3 17 (omega arith)
