-- ===== src/Server/Admission/Order.antt =====
-- What check_request answers, and what it leaves alone.
use mcp_server.Base.{
  ◌==◌, str_eq, any, ℕ, ◌+◌, ◌≡◌, refl, ◌≢◌, ◌↔◌, ◌⊎◌, Bool, true, false, not, List, arith, if_rule,
  Str, length, length-append,
}
use mcp_server.Security.Policy.{SecurityCheckResult, ok, forbidden, unauthorized, too_many_requests}
use mcp_server.Security.Filter.{is_allowed}
use mcp_server.Security.Filter.Platform.{Sockets}
use mcp_server.Security.Limiter.Doubles.{Doubles}
use mcp_server.Security.Limiter.{try_acquire}
use mcp_server.Security.Breaker.{allow}
use mcp_server.Server.Audit.{AuditLine, audit}
use mcp_server.Server.Admission.{Guards, note, lacks_key, check_request}

module _ (os : Sockets) (fp : Doubles) where
  -- All four checks pass.
  abbrev pub IsAdmitted : Guards os fp → Str → Str → ℕ → ℕ → Type 0
  IsAdmitted g client_ip api_key now later =
      (is_allowed os g.ip_filter client_ip ≡ true)
      × ((g.security.api_key.enabled ≡ false)
          ⊎ (any (λ key. key == api_key) g.security.api_key.keys ≡ true))
      × ((try_acquire fp g.rate_limiter client_ip now).0 ≡ true)
      × ((allow g.circuit_breaker client_ip later).0 ≡ true)

  -- A request is let through exactly when the filter allows its address, API keys are off or its key
  -- is listed, the rate limiter grants it and the circuit breaker allows it.
  pub check_request-IsAdmitted :
      (g : Guards os fp) (client_ip api_key : Str) (now later : ℕ)
      → ((check_request os fp g client_ip api_key now later).0 ≡ ok)
        ↔ IsAdmitted g client_ip api_key now later
  unfolding check_request lacks_key
  check_request-IsAdmitted g client_ip api_key now later = ground arith

  abbrev written : Bool → ℕ
  written true = 1
  written false = 0

  length-audit :
      (on : Bool) (shard event ip component : Str) (log : List AuditLine)
      → length (audit on shard event ip component log) ≡ length log + written on
  unfolding audit
  length-audit true shard event ip component log = length-append log _
  length-audit false shard event ip component log = omega arith

  -- What a request left behind, by its result.
  pub record IsSparing (g h : Guards os fp) (r : SecurityCheckResult) : Type 0 where
    pub policy_kept : h.security ≡ g.security
    pub filter_kept : h.ip_filter ≡ g.ip_filter
    pub limiter_spared : (r ≡ forbidden) ⊎ (r ≡ unauthorized) → h.rate_limiter ≡ g.rate_limiter
    pub breaker_spared :
        (r ≡ forbidden) ⊎ ((r ≡ unauthorized) ⊎ (r ≡ too_many_requests))
        → h.circuit_breaker ≡ g.circuit_breaker
    pub quiet : r ≡ ok → h.log ≡ g.log
    pub audited : r ≢ ok → length h.log ≡ length g.log + written g.security.enable_audit_log

  -- A request that one check refuses costs nothing in the checks behind it: the rate limiter is
  -- untouched by a forbidden or unauthorized request, the circuit breaker also by a rate-limited one.
  -- With the audit log on a refusal writes one line and a passed request none; with it off none is
  -- written. The policy and the filter never change.
  pub check_request-IsSparing :
      (g : Guards os fp) (client_ip api_key : Str) (now later : ℕ)
      → IsSparing g
          (check_request os fp g client_ip api_key now later).1
          (check_request os fp g client_ip api_key now later).0
  unfolding check_request note
  check_request-IsSparing g client_ip api_key now later =
      let P : SecurityCheckResult × Guards os fp → Type 0 = λ o. IsSparing g o.1 o.0 in
      let (granted, limiter) = try_acquire fp g.rate_limiter client_ip now in
      let (closed, breaker) = allow g.circuit_breaker client_ip later in
      if_rule P (not (is_allowed os g.ip_filter client_ip))
        (λ _. record {
          policy_kept = refl;
          filter_kept = refl;
          limiter_spared = λ _. refl;
          breaker_spared = λ _. refl;
          quiet = λ e. absurd (cc);
          audited = λ _. length-audit _ _ _ _ _ g.log;
        })
        (λ _.
          if_rule P (lacks_key os fp g.security api_key)
            (λ _. record {
              policy_kept = refl;
              filter_kept = refl;
              limiter_spared = λ _. refl;
              breaker_spared = λ _. refl;
              quiet = λ e. absurd (cc);
              audited = λ _. length-audit _ _ _ _ _ g.log;
            })
            (λ _.
              if_rule P (not granted)
                (λ _. record {
                  policy_kept = refl;
                  filter_kept = refl;
                  limiter_spared = λ e. absurd (ground arith);
                  breaker_spared = λ _. refl;
                  quiet = λ e. absurd (cc);
                  audited = λ _. length-audit _ _ _ _ _ g.log;
                })
                (λ _.
                  if_rule P (not closed)
                    (λ _. record {
                      policy_kept = refl;
                      filter_kept = refl;
                      limiter_spared = λ e. absurd (ground arith);
                      breaker_spared = λ e. absurd (ground arith);
                      quiet = λ e. absurd (cc);
                      audited = λ _. length-audit _ _ _ _ _ g.log;
                    })
                    (λ _. record {
                      policy_kept = refl;
                      filter_kept = refl;
                      limiter_spared = λ e. absurd (ground arith);
                      breaker_spared = λ e. absurd (ground arith);
                      quiet = λ _. refl;
                      audited = λ n. absurd (n refl);
                    }))))
