-- ===== src/Server/Admission.antt =====
-- The security checks of McpShard (mcp_shard.hh): check_request, record_outcome, check_body_size.
pub mod Order
pub mod Blocks
mod Tests
use mcp_server.Base.{
  ℕ, Bool, ◌&&◌, not, List, [], leb, any, if◌then◌else◌, ◌==◌, Str, str_eq, lit, to_string, Outcome,
  returned, thrown,
}
use mcp_server.Security.Policy.{
  SecurityPolicy, SecurityCheckResult, ok, forbidden, unauthorized, too_many_requests,
  service_unavailable,
}
use mcp_server.Security.Filter.{IpFilter, is_allowed, make_filter, CidrError}
use mcp_server.Security.Filter.Platform.{Sockets}
use mcp_server.Security.Limiter.Doubles.{Doubles}
use mcp_server.Security.Limiter.{PerIpRateLimiter, try_acquire}
use mcp_server.Security.Breaker.{PerIpCircuitBreaker, allow, record_success, record_failure}
use mcp_server.Server.Audit.{AuditLine, audit}

module _ (os : Sockets) (fp : Doubles) where
  pub record Guards : Type 0 where
    pub security : SecurityPolicy
    pub shard_id : ℕ
    pub ip_filter : IpFilter
    pub rate_limiter : PerIpRateLimiter fp
    pub circuit_breaker : PerIpCircuitBreaker
    pub log : List AuditLine

  unfoldable pub guards_of :
      SecurityPolicy → ℕ → Outcome CidrError IpFilter → Outcome CidrError Guards
  guards_of security shard_id (thrown e) = thrown e
  guards_of security shard_id (returned filter) = returned (record {
    security = security;
    shard_id = shard_id;
    ip_filter = filter;
    rate_limiter = record { cfg = security.rate_limit; buckets = [] };
    circuit_breaker = record { cfg = security.circuit_breaker; states = [] };
    log = [];
  })

  -- The first lines of `start`: each guard from its part of the policy. A bad CIDR text is thrown.
  unfoldable pub start_guards : SecurityPolicy → ℕ → Outcome CidrError Guards
  unfolding guards_of
  start_guards security shard_id = guards_of security shard_id (make_filter os security.ip_filter)

  -- `_audit`
  pub note : Guards → Str → Str → Str → Guards
  note g event client_ip component = record g {
    log = audit g.security.enable_audit_log (to_string g.shard_id) event client_ip component g.log;
  }

  -- `_config.security.api_key.enabled` and a key that is not in the list
  pub lacks_key : SecurityPolicy → Str → Bool
  lacks_key security api_key =
      security.api_key.enabled && not (any (λ key. key == api_key) security.api_key.keys)

  -- The last two checks each read the clock.
  unfoldable pub check_request : Guards → Str → Str → ℕ → ℕ → SecurityCheckResult × Guards
  unfolding note lacks_key
  check_request g client_ip api_key now later =
      if not (is_allowed os g.ip_filter client_ip)
      then (forbidden, note g (lit "BLOCKED_IP") client_ip (lit "ip_filter"))
      else if lacks_key g.security api_key
      then (unauthorized, note g (lit "UNAUTHORIZED") client_ip (lit "api_key"))
      else let (granted, limiter) = try_acquire fp g.rate_limiter client_ip now in
        let g' = record g { rate_limiter = limiter } in
        if not granted
        then (too_many_requests, note g' (lit "RATE_LIMITED") client_ip (lit "rate_limiter"))
        else let (closed, breaker) = allow g.circuit_breaker client_ip later in
          let g'' = record g' { circuit_breaker = breaker } in
          if not closed
          then (
            service_unavailable,
            note g'' (lit "CIRCUIT_OPEN") client_ip (lit "circuit_breaker"),
          )
          else (ok, g'')

  unfoldable pub record_outcome : Guards → Str → Bool → ℕ → Guards
  record_outcome g client_ip is_rpc_error now = record g {
    circuit_breaker =
        if is_rpc_error
        then record_failure g.circuit_breaker client_ip now
        else record_success g.circuit_breaker client_ip;
  }

  unfoldable pub check_body_size : Guards → ℕ → Bool
  check_body_size g body_size = leb body_size g.security.size_limits.max_body_bytes
