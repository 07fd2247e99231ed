-- ===== src/HttpCommon.antt =====
-- src/seastar_patches/http_common_patch.cc: HTTP method names and the two body sinks. The stream
-- under a sink is the bytes written to it so far; seastar's own buffering is not in the model.
pub mod Methods
pub mod LengthSink
pub mod ChunkedSink
mod Tests
