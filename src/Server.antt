-- ===== src/Server.antt =====
-- include/mcp/server/mcp_shard.hh: the state of one shard, part by part.
pub mod Audit
pub mod Ids
pub mod Sessions
pub mod Admission
pub mod Subscriptions
pub mod Routes
pub mod Requests
pub mod Dispatch
pub mod Notices
pub mod Interleaving
pub mod Lifecycle
