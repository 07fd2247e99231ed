-- ===== src/Transport/Refusals.antt =====
-- The replies of _security_reject.
use mcp_server.Base.{ℕ, ◌≡◌, refl, ◌≢◌, List, [], ◌++◌, Str, lit, to_string, ◌≤◌, ◌<◌, arith}
use mcp_server.Security.Policy.{
  SecurityCheckResult, ok, forbidden, unauthorized, too_many_requests, service_unavailable,
  connection_limit, payload_too_large,
}
use mcp_server.Transport.{Reply, security_reject, reject_with}

-- A body of the form {"error":"<reason>","code":<code>}.
pub error_body : Str → ℕ → Str
error_body reason code =
    lit "{\"error\":\"" ++ (reason ++ (lit "\",\"code\":" ++ (to_string code ++ lit "}")))

-- Every refusal is answered with a client or server error whose JSON body repeats the status code,
-- and the headers set before stay in front.
pub security_reject-error_body :
    (rep : Reply) (r : SecurityCheckResult)
    → r ≢ ok
    → (400 ≤ (security_reject rep r).status)
      × ((security_reject rep r).status < 600)
      × ((reason : Str) × ((security_reject rep r).body
            ≡ error_body reason (security_reject rep r).status))
      × ((more : List (Str × Str)) × ((security_reject rep r).headers ≡ rep.headers ++ more))
unfolding security_reject reject_with error_body lit to_string
security_reject-error_body rep ok n = absurd (n refl)
security_reject-error_body rep forbidden n =
    (omega arith, omega arith, (lit "Forbidden", refl), ([], refl))
security_reject-error_body rep unauthorized n =
    (omega arith, omega arith, (lit "Unauthorized", refl), (_, refl))
security_reject-error_body rep too_many_requests n =
    (omega arith, omega arith, (lit "Too Many Requests", refl), (_, refl))
security_reject-error_body rep service_unavailable n =
    (omega arith, omega arith, (lit "Service Unavailable", refl), ([], refl))
security_reject-error_body rep connection_limit n =
    (omega arith, omega arith, (lit "Service Unavailable", refl), ([], refl))
security_reject-error_body rep payload_too_large n =
    (omega arith, omega arith, (lit "Payload Too Large", refl), ([], refl))
