-- ===== src/HttpCommon/Tests.antt =====
-- http_common_patch.cc at concrete inputs.
use mcp_server.Base.{List, ◌≤◌, ◌≡◌, [], ◌∷◌, some, arith}
use mcp_server.HttpCommon.LengthSink.{
  LengthSink, fitting, Grown, Put, span, packet, buffer, put_calls, all_buffers, put_calls-Grown,
}
use mcp_server.HttpCommon.ChunkedSink
use mcp_server.HttpCommon.ChunkedSink.{receive, receive-put}

abbrev sink : LengthSink
sink = record { out = 1 ∷ []; limit = 4; bytes_written = 1 }

abbrev calls : List Put
calls = span ((2 ∷ []) ∷ (3 ∷ []) ∷ []) ∷ packet (4 ∷ 5 ∷ []) ∷ buffer (6 ∷ []) ∷ []

put_calls-Grown_example :
    Grown sink (put_calls sink calls) (fitting 3 (all_buffers calls))
    × ((put_calls sink calls).bytes_written ≤ 4)
put_calls-Grown_example = put_calls-Grown sink calls (omega arith) (omega arith) (omega arith)

receive-put_example :
    receive 4 (ChunkedSink.put [] ((1 ∷ 2 ∷ []) ∷ [] ∷ (3 ∷ []) ∷ [])) ≡ some (1 ∷ 2 ∷ 3 ∷ [])
receive-put_example = receive-put ((1 ∷ 2 ∷ []) ∷ [] ∷ (3 ∷ []) ∷ []) 3 (omega arith)
