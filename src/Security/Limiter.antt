-- ===== src/Security/Limiter.antt =====
-- include/mcp/security/rate_limiter.hh: one token bucket for each address. A call takes the reading
-- of the steady clock, in nanoseconds, as `now`.
pub mod Doubles
pub mod Bounds
pub mod Bursts
pub mod Whole
mod Tests
use mcp_server.Base.{
  ℕ, ◌-◌, Bool, true, false, ◌||◌, not, Option, none, some, ltb, if◌then◌else◌, Str, str_eq, Dict,
  lookup, insert, erase, is_empty,
}
use mcp_server.Security.Policy.{RateLimitConfig}

module _ (fp : Doubles.Doubles) where
  open fp use {Double, of_nat, add, sub, mul, div, le, lt}

  pub record TokenBucket : Type 0 where
    pub tokens : Double
    pub capacity : Double
    pub refill_per_ns : Double
    pub last_refill : ℕ

  pub record PerIpRateLimiter : Type 0 where
    pub cfg : RateLimitConfig
    pub buckets : Dict Str TokenBucket

  -- `std::min(a, b)`
  abbrev pub min : Double → Double → Double
  min a b = if lt b a then b else a

  pub refill : TokenBucket → ℕ → TokenBucket
  refill b now =
      let elapsed_ns = now - b.last_refill in
      if ltb 0 elapsed_ns
      then record b {
        tokens = min b.capacity (add b.tokens (mul (of_nat elapsed_ns) b.refill_per_ns));
        last_refill = now;
      }
      else b

  pub new_bucket : RateLimitConfig → ℕ → TokenBucket
  new_bucket cfg now = record {
    tokens = of_nat cfg.burst_size;
    capacity = of_nat cfg.burst_size;
    refill_per_ns =
        if ltb 0 cfg.requests_per_second
        then div (of_nat cfg.requests_per_second) (of_nat 1000000000)
        else of_nat 0;
    last_refill = now;
  }

  abbrev or_new : RateLimitConfig → ℕ → Option TokenBucket → TokenBucket
  or_new cfg now none = new_bucket cfg now
  or_new cfg now (some b) = b

  -- `_get_or_create`
  pub bucket : PerIpRateLimiter → Str → ℕ → TokenBucket
  unfolding new_bucket
  bucket l ip now = or_new l.cfg now (lookup ip l.buckets)

  pub take_token : TokenBucket → Bool × TokenBucket
  take_token b =
      if le (of_nat 1) b.tokens
      then (true, record b { tokens = sub b.tokens (of_nat 1) })
      else (false, b)

  abbrev pub is_exempt : RateLimitConfig → Str → Bool
  is_exempt cfg ip = not cfg.enabled || is_empty ip

  unfoldable pub try_acquire : PerIpRateLimiter → Str → ℕ → Bool × PerIpRateLimiter
  unfolding bucket refill take_token
  try_acquire l ip now =
      if is_exempt l.cfg ip
      then (true, l)
      else let (granted, b) = take_token (refill (bucket l ip now) now) in
        (granted, record l { buckets = insert ip b l.buckets })

  pub reset : PerIpRateLimiter → Str → PerIpRateLimiter
  reset l ip = record l { buckets = erase ip l.buckets }
