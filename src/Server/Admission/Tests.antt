-- ===== src/Server/Admission/Tests.antt =====
-- The checks of a shard that blacklists 10.1.0.0/16, and the theorems there.
use mcp_server.Base.{◌≡◌, refl, true, [], ◌∷◌, arith, str_beq, lit}
use mcp_server.Security.Policy.{SecurityPolicy, default_policy, ok, unauthorized}
use mcp_server.Security.Breaker.{allow}
use mcp_server.Security.Limiter.{try_acquire}
use mcp_server.Security.Filter.{is_allowed}
use mcp_server.Security.Filter.Host.{host, quad}
use mcp_server.Security.Filter.Rules.{Rule, IsRule, config}
use mcp_server.Security.Limiter.Whole.{whole}
use mcp_server.Server.Admission.{Guards, check_request}
use mcp_server.Server.Admission.Order.{IsSparing, check_request-IsSparing}

abbrev block : Rule
block = record { text = lit "10.1.0.0"; address = quad 10 1 0 0; prefix = 16 }

block-IsRule : IsRule host block
unfolding lit str_beq
block-IsRule = record {
  plain = omega arith;
  reads = (refl, omega arith, omega arith);
  short = omega arith;
}

abbrev policy : SecurityPolicy
policy = record default_policy {
  ip_filter = config host (block ∷ []) [] true;
  api_key = record { enabled = true; keys = lit "secret" ∷ []; header = lit "X-API-Key" };
}

abbrev guards : Guards host whole
guards = record {
  security = policy;
  shard_id = 0;
  ip_filter = record { whitelist = []; blacklist = []; default_allow = true };
  rate_limiter = record { cfg = policy.rate_limit; buckets = [] };
  circuit_breaker = record { cfg = policy.circuit_breaker; states = [] };
  log = [];
}

keys :
    ((check_request host whole guards (lit "10.0.0.0") (lit "secret") 1 2).0 ≡ ok)
    × ((check_request host whole guards (lit "10.0.0.0") (lit "guess") 1 2).0 ≡ unauthorized)
unfolding check_request is_allowed try_acquire allow lit str_beq
keys = (refl, refl)

check_request-IsSparing_example :
    IsSparing host whole guards
      (check_request host whole guards (lit "10.0.0.0") (lit "guess") 1 2).1
      (check_request host whole guards (lit "10.0.0.0") (lit "guess") 1 2).0
check_request-IsSparing_example =
    check_request-IsSparing host whole guards (lit "10.0.0.0") (lit "guess") 1 2
