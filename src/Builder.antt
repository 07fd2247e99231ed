-- ===== src/Builder.antt =====
-- McpServerConfig (include/mcp/server/mcp_shard.hh) and the settings of McpServerBuilder
-- (include/mcp/core/builder.hh). A call takes the configuration and returns the changed one; a
-- default argument is written out by the caller.
pub mod Whitelists
mod Tests
use mcp_server.Base.{ℕ, ◌*◌, ◌%◌, ◌^◌, Bool, true, false, List, ltb, if◌then◌else◌, Str, lit}
use mcp_server.Security.Policy.{SecurityPolicy, default_policy}

pub record McpServerConfig : Type 0 where
  pub name : Str
  pub version : Str
  pub http_port : ℕ
  pub enable_stdio : Bool
  pub enable_http : Bool
  pub enable_streamable_http : Bool
  pub streamable_http_port : ℕ
  pub security : SecurityPolicy

abbrev pub default_config : McpServerConfig
default_config = record {
  name = lit "mcp-server";
  version = lit "1.0.0";
  http_port = 8080;
  enable_stdio = false;
  enable_http = true;
  enable_streamable_http = false;
  streamable_http_port = 8081;
  security = default_policy;
}

pub name : Str → McpServerConfig → McpServerConfig
name n c = record c { name = n }

pub version : Str → McpServerConfig → McpServerConfig
version v c = record c { version = v }

pub with_http : ℕ → McpServerConfig → McpServerConfig
with_http port c = record c { enable_http = true; http_port = port }

pub with_stdio : McpServerConfig → McpServerConfig
with_stdio c = record c { enable_stdio = true }

pub with_streamable_http : ℕ → McpServerConfig → McpServerConfig
with_streamable_http port c = record c {
  enable_streamable_http = true;
  streamable_http_port = port;
}

-- A change of `_config.security`.
abbrev secure : McpServerConfig → SecurityPolicy → McpServerConfig
secure c p = record c { security = p }

pub with_ip_whitelist : List Str → McpServerConfig → McpServerConfig
with_ip_whitelist cidrs c =
    let f = record c.security.ip_filter { whitelist = cidrs; default_allow = false } in
    secure c (record c.security { ip_filter = f })

pub with_ip_blacklist : List Str → McpServerConfig → McpServerConfig
with_ip_blacklist cidrs c =
    let f = record c.security.ip_filter { blacklist = cidrs } in
    secure c (record c.security { ip_filter = f })

-- A burst of 0 stands for twice the rate, as a uint32_t.
pub with_rate_limit : ℕ → ℕ → McpServerConfig → McpServerConfig
with_rate_limit requests_per_second burst_size c = secure c (record c.security {
  rate_limit = record {
    enabled = true;
    requests_per_second = requests_per_second;
    burst_size = if ltb 0 burst_size then burst_size else requests_per_second * 2 % 2 ^ 32;
  };
})

pub with_circuit_breaker : ℕ → ℕ → ℕ → McpServerConfig → McpServerConfig
with_circuit_breaker failure_threshold timeout_seconds success_threshold c =
    let b = record c.security.circuit_breaker {
      enabled = true;
      failure_threshold = failure_threshold;
      timeout_seconds = timeout_seconds;
      success_threshold = success_threshold;
    } in
    secure c (record c.security { circuit_breaker = b })

pub with_connection_limit : ℕ → ℕ → McpServerConfig → McpServerConfig
with_connection_limit max_per_ip max_total c = secure c (record c.security {
  connection_limit = record { enabled = true; max_per_ip = max_per_ip; max_total = max_total };
})

pub with_size_limits : ℕ → ℕ → McpServerConfig → McpServerConfig
with_size_limits max_body_mb max_batch c = secure c (record c.security {
  size_limits = record {
    max_body_bytes = max_body_mb * 1024 * 1024 % 2 ^ 64;
    max_batch_size = max_batch;
  };
})

pub with_audit_log : Bool → McpServerConfig → McpServerConfig
with_audit_log enable c = secure c (record c.security { enable_audit_log = enable })

pub with_api_key : List Str → Str → McpServerConfig → McpServerConfig
with_api_key keys header c =
    secure c
      (record c.security { api_key = record { enabled = true; keys = keys; header = header } })

pub with_tls : Str → Str → Str → McpServerConfig → McpServerConfig
with_tls cert_pem key_pem ca_pem c = secure c (record c.security {
  tls = record { enabled = true; cert_pem = cert_pem; key_pem = key_pem; ca_pem = ca_pem };
})
