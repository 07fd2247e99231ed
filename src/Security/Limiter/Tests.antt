-- ===== src/Security/Limiter/Tests.antt =====
-- PerIpRateLimiter over whole numbers, and the theorems there.
use mcp_server.Base.{◌≡◌, refl, true, false, [], ◌∷◌, arith, Str, str_beq, lookup, insert, inl}
use mcp_server.Security.Policy.{RateLimitConfig}
use mcp_server.Security.Limiter.Whole.{whole}
use mcp_server.Security.Limiter.{PerIpRateLimiter, try_acquire}
use mcp_server.Security.Limiter.Bounds.{IsBounded, acquires, run, run-IsBounded}
use mcp_server.Security.Limiter.Bursts.{answers, grants, answers-burst}

abbrev cfg : RateLimitConfig
cfg = record { enabled = true; requests_per_second = 0; burst_size = 2 }

abbrev client : Str
client = 49 ∷ []

abbrev new : PerIpRateLimiter whole
new = record { cfg = cfg; buckets = [] }

burst_of_two : answers whole new client (5 ∷ 6 ∷ 7 ∷ []) ≡ true ∷ true ∷ false ∷ []
unfolding answers try_acquire lookup insert str_beq
burst_of_two = refl

answers-burst_example : answers whole new client (5 ∷ 6 ∷ 7 ∷ []) ≡ grants whole 2 (5 ∷ 6 ∷ 7 ∷ [])
unfolding lookup
answers-burst_example =
    answers-burst whole new client 5 (5 ∷ 6 ∷ 7 ∷ []) (omega arith) refl refl
      ((omega arith, inl refl), ((omega arith, inl refl), ((omega arith, inl refl), tt)))

run-IsBounded_example :
    IsBounded whole cfg (record { tokens = 1; capacity = 2; refill_per_ns = 0; last_refill = 5 })
unfolding run try_acquire lookup insert str_beq
run-IsBounded_example =
    run-IsBounded whole cfg (acquires client 5 ∷ []) client
      (record { tokens = 1; capacity = 2; refill_per_ns = 0; last_refill = 5 }) (omega arith) refl
