-- ===== src/Transport.antt =====
-- The helpers that http_sse_transport.hh and streamable_http_transport.hh (include/mcp/transport) each
-- declare with the same body: _get_client_ip, _get_api_key, _security_reject.
pub mod Clients
pub mod Refusals
pub mod Streams
pub mod Requests
pub mod Handlers
pub mod Stdio
mod Tests
use mcp_server.Base.{
  ℕ, ◌-◌, ◌&&◌, not, List, [], ◌∷◌, ◌++◌, Option, none, some, reverse, ltb, if◌then◌else◌, ◌==◌,
  nat_eq, Str, str_eq, lit, is_empty, length, take, drop, find_byte,
}
use mcp_server.Security.Policy.{
  SecurityCheckResult, ok, forbidden, unauthorized, too_many_requests, service_unavailable,
  connection_limit, payload_too_large,
}

-- The headers read; an absent one is the empty text, as get_header returns it.
pub record Headers : Type 0 where
  pub x_real_ip : Str
  pub x_forwarded_for : Str
  pub x_api_key : Str
  pub authorization : Str

-- `while (!ip.empty() && ip.front() == ' ') ip.erase(ip.begin())`
pub trim_front : Str → Str
trim_front [] = []
trim_front (c ∷ s) = let rest = trim_front s in if c == b' ' then rest else c ∷ s

-- `while (!ip.empty() && ip.back() == ' ') ip.pop_back()`
pub trim_back : Str → Str
unfolding trim_front
trim_back s = reverse (trim_front (reverse s))

up_to : Str → Option ℕ → Str
up_to s none = s
up_to s (some pos) = take pos s

-- `(pos != npos) ? fwd.substr(0, pos) : fwd` at the first comma
first_field : Str → Str
unfolding up_to
first_field s = up_to s (find_byte b',' s)

unfoldable pub get_client_ip : Headers → Str
unfolding first_field trim_front trim_back
get_client_ip req =
    if not (is_empty req.x_real_ip)
    then req.x_real_ip
    else if not (is_empty req.x_forwarded_for)
    then trim_back (trim_front (first_field req.x_forwarded_for))
    else []

unfoldable pub get_api_key : Headers → Str
get_api_key req =
    if not (is_empty req.x_api_key)
    then req.x_api_key
    else if ltb 7 (length req.authorization) && take 7 req.authorization == lit "Bearer "
    then drop 7 req.authorization
    else []

-- `write_body("json", body)` sets the content type and the body.
pub record Reply : Type 0 where
  pub status : ℕ
  pub headers : List (Str × Str)
  pub content_type : Str
  pub body : Str

pub reject_with : Reply → ℕ → List (Str × Str) → Str → Reply
reject_with rep status headers body = record {
  status = status;
  headers = rep.headers ++ headers;
  content_type = lit "json";
  body = body;
}

pub security_reject : Reply → SecurityCheckResult → Reply
unfolding reject_with
security_reject rep forbidden =
    reject_with rep 403 [] (lit "{\"error\":\"Forbidden\",\"code\":403}")
security_reject rep unauthorized =
    reject_with rep 401 ((lit "WWW-Authenticate", lit "Bearer") ∷ [])
      (lit "{\"error\":\"Unauthorized\",\"code\":401}")
security_reject rep too_many_requests =
    reject_with rep 429 ((lit "Retry-After", lit "1") ∷ [])
      (lit "{\"error\":\"Too Many Requests\",\"code\":429}")
security_reject rep service_unavailable =
    reject_with rep 503 [] (lit "{\"error\":\"Service Unavailable\",\"code\":503}")
security_reject rep connection_limit =
    reject_with rep 503 [] (lit "{\"error\":\"Service Unavailable\",\"code\":503}")
security_reject rep payload_too_large =
    reject_with rep 413 [] (lit "{\"error\":\"Payload Too Large\",\"code\":413}")
security_reject rep ok = rep
