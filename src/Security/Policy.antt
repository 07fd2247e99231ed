-- ===== src/Security/Policy.antt =====
-- include/mcp/security/security_policy.hh: the configuration structs with their defaults, and the
-- result of a security check.
use mcp_server.Base.{ℕ, ◌*◌, Bool, true, false, List, [], Str, lit}

-- A whitelist and a blacklist of CIDR texts.
pub record IpFilterConfig : Type 0 where
  pub whitelist : List Str
  pub blacklist : List Str
  pub default_allow : Bool

pub record RateLimitConfig : Type 0 where
  pub enabled : Bool
  pub requests_per_second : ℕ
  pub burst_size : ℕ

pub record CircuitBreakerConfig : Type 0 where
  pub enabled : Bool
  pub failure_threshold : ℕ
  pub success_threshold : ℕ
  pub timeout_seconds : ℕ
  pub half_open_max_reqs : ℕ

pub record ConnectionLimitConfig : Type 0 where
  pub enabled : Bool
  pub max_per_ip : ℕ
  pub max_total : ℕ

pub record SizeLimitConfig : Type 0 where
  pub max_body_bytes : ℕ
  pub max_batch_size : ℕ

pub record TlsConfig : Type 0 where
  pub enabled : Bool
  pub cert_pem : Str
  pub key_pem : Str
  pub ca_pem : Str

pub record ApiKeyConfig : Type 0 where
  pub enabled : Bool
  pub keys : List Str
  pub header : Str

pub data SecurityCheckResult : Type 0 where
  ok forbidden too_many_requests service_unavailable unauthorized : SecurityCheckResult
  connection_limit payload_too_large : SecurityCheckResult

pub record SecurityPolicy : Type 0 where
  pub size_limits : SizeLimitConfig
  pub ip_filter : IpFilterConfig
  pub rate_limit : RateLimitConfig
  pub circuit_breaker : CircuitBreakerConfig
  pub connection_limit : ConnectionLimitConfig
  pub enable_audit_log : Bool
  pub api_key : ApiKeyConfig
  pub tls : TlsConfig

-- The defaults of the fields.
abbrev pub default_policy : SecurityPolicy
default_policy = record {
  size_limits = record { max_body_bytes = 1 * 1024 * 1024; max_batch_size = 20 };
  ip_filter = record { whitelist = []; blacklist = []; default_allow = true };
  rate_limit = record { enabled = false; requests_per_second = 100; burst_size = 200 };
  circuit_breaker = record {
    enabled = false;
    failure_threshold = 5;
    success_threshold = 2;
    timeout_seconds = 30;
    half_open_max_reqs = 3;
  };
  connection_limit = record { enabled = false; max_per_ip = 10; max_total = 10000 };
  enable_audit_log = false;
  api_key = record { enabled = false; keys = []; header = lit "X-API-Key" };
  tls = record { enabled = false; cert_pem = []; key_pem = []; ca_pem = [] };
}
