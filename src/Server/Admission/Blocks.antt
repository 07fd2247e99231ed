-- ===== src/Server/Admission/Blocks.antt =====
-- A shard started from a policy keeps deciding addresses by the blocks of that policy.
use mcp_server.Base.{
  ℕ, ◌≡◌, refl, ap, ◌∙◌, ◌≢◌, inl, Bool, false, List, [], ◌∷◌, Str, returned, All,
}
use mcp_server.Security.Policy.{SecurityPolicy, forbidden}
use mcp_server.Security.Filter.{is_allowed, make_filter}
use mcp_server.Security.Filter.Platform.{Sockets}
use mcp_server.Security.Filter.Blocks.{Reads}
use mcp_server.Security.Filter.Rules.{Rule, IsRule, decides, config, make_filter-decides}
use mcp_server.Security.Limiter.Doubles.{Doubles}
use mcp_server.Server.Admission.{Guards, start_guards, guards_of, check_request, record_outcome}
use mcp_server.Server.Admission.Order.{check_request-IsSparing}

-- What the transports ask of the guards.
pub data Query : Type 0 where
  checks : (client_ip api_key : Str) (now later : ℕ) → Query
  reports : (client_ip : Str) (is_rpc_error : Bool) (now : ℕ) → Query

module _ (os : Sockets) (fp : Doubles) where
  unfoldable pub serve : Guards os fp → List Query → Guards os fp
  unfolding check_request record_outcome
  serve g [] = g
  serve g (checks client_ip api_key now later ∷ qs) =
      serve (check_request os fp g client_ip api_key now later).1 qs
  serve g (reports client_ip is_rpc_error now ∷ qs) =
      serve (record_outcome os fp g client_ip is_rpc_error now) qs

  serve-ip_filter : (g : Guards os fp) (qs : List Query) → (serve g qs).ip_filter ≡ g.ip_filter
  unfolding serve record_outcome
  serve-ip_filter g [] = refl
  serve-ip_filter g (checks client_ip api_key now later ∷ qs) =
      serve-ip_filter (check_request os fp g client_ip api_key now later).1 qs
      ∙ (check_request-IsSparing os fp g client_ip api_key now later).filter_kept
  serve-ip_filter g (reports client_ip is_rpc_error now ∷ qs) =
      serve-ip_filter (record_outcome os fp g client_ip is_rpc_error now) qs

  pub serve-security : (g : Guards os fp) (qs : List Query) → (serve g qs).security ≡ g.security
  unfolding serve record_outcome
  serve-security g [] = refl
  serve-security g (checks client_ip api_key now later ∷ qs) =
      serve-security (check_request os fp g client_ip api_key now later).1 qs
      ∙ (check_request-IsSparing os fp g client_ip api_key now later).policy_kept
  serve-security g (reports client_ip is_rpc_error now ∷ qs) =
      serve-security (record_outcome os fp g client_ip is_rpc_error now) qs

  check_request_forbids :
      (g : Guards os fp) (client_ip api_key : Str) (now later : ℕ)
      → is_allowed os g.ip_filter client_ip ≡ false
      → (check_request os fp g client_ip api_key now later).0 ≡ forbidden
  unfolding check_request
  check_request_forbids g client_ip api_key now later e = rw e refl

  -- A shard whose policy lists well-formed blocks starts, and after any checks and reports it answers
  -- FORBIDDEN to an address that its blocks refuse, without touching the limiter or the breaker.
  pub start_guards-forbids :
      (black white : List Rule) (default : Bool) (policy : SecurityPolicy) (shard : ℕ)
      (qs : List Query) (client_ip api_key : Str) (x now later : ℕ)
      → All (IsRule os) black
      → All (IsRule os) white
      → policy.ip_filter ≡ config os black white default
      → client_ip ≢ []
      → Reads os client_ip x
      → decides black white default x ≡ false
      → (g : Guards os fp) × (start_guards os fp policy shard ≡ returned g)
        × ((check_request os fp (serve g qs) client_ip api_key now later).0 ≡ forbidden)
        × ((check_request os fp (serve g qs) client_ip api_key now later).1.rate_limiter
            ≡ (serve g qs).rate_limiter)
        × ((check_request os fp (serve g qs) client_ip api_key now later).1.circuit_breaker
            ≡ (serve g qs).circuit_breaker)
  unfolding start_guards guards_of
  start_guards-forbids black white default policy shard qs client_ip api_key x now later hb hw e ne
        r d =
      let (f, made, known, _, _) = make_filter-decides os black white default hb hw in
      let g : Guards os fp = record {
        security = policy;
        shard_id = shard;
        ip_filter = f;
        rate_limiter = record { cfg = policy.rate_limit; buckets = [] };
        circuit_breaker = record { cfg = policy.circuit_breaker; states = [] };
        log = [];
      } in
      let refused : (check_request os fp (serve g qs) client_ip api_key now later).0 ≡ forbidden =
        check_request_forbids (serve g qs) client_ip api_key now later (
          ap (λ h. is_allowed os h client_ip) (serve-ip_filter g qs)
          ∙ (known client_ip x ne r ∙ d)) in
      let sparing = check_request-IsSparing os fp (serve g qs) client_ip api_key now later in
      (
        g,
        ap (λ c. guards_of os fp policy shard (make_filter os c)) e
            ∙ ap (guards_of os fp policy shard) made,
        refused,
        sparing.limiter_spared (inl refused),
        sparing.breaker_spared (inl refused),
      )
