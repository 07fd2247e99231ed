-- ===== src/Security/Limiter/Bounds.antt =====
-- PerIpRateLimiter: no bucket ever holds more than the burst size, and addresses do not interfere.
use mcp_server.Base.{
  ℕ, ◌-◌, ◌^◌, ◌<◌, ◌≡◌, refl, sym, ◌∙◌, subst, inl, inr, Bool, true, some, List, [], ◌∷◌, arith,
  ltb, if_rule, Bool-cases, Option-cases, Str, str_eq, ◌==◌, lookup, insert, lookup-insert,
  lookup-erase,
}
use mcp_server.Security.Policy.{RateLimitConfig}
use mcp_server.Security.Limiter.Doubles.{Doubles}
use mcp_server.Security.Limiter.{
  TokenBucket, PerIpRateLimiter, min, refill, new_bucket, bucket, take_token, is_exempt,
  try_acquire, reset,
}

module _ (fp : Doubles) where
  open fp use {Double, of_nat, add, sub, mul, div, le, lt, le-of_nat, le_of_lt, sub_one-le}

  -- The burst size is the capacity, and the tokens do not exceed it.
  pub record IsBounded (cfg : RateLimitConfig) (b : TokenBucket fp) : Type 0 where
    pub capacity : b.capacity ≡ of_nat cfg.burst_size
    pub filled : le b.tokens b.capacity ≡ true

  le_self : (n : ℕ) → n < 2 ^ 53 → le (of_nat n) (of_nat n) ≡ true
  le_self n h = ground (arith, le-of_nat n n h h)

  new_bucket-IsBounded :
      (cfg : RateLimitConfig) (now : ℕ)
      → cfg.burst_size < 2 ^ 32
      → IsBounded cfg (new_bucket fp cfg now)
  unfolding new_bucket
  new_bucket-IsBounded cfg now h = record {
    capacity = refl;
    filled = le_self cfg.burst_size (omega arith);
  }

  min-le :
      (cfg : RateLimitConfig) (b : TokenBucket fp) (t : Double)
      → cfg.burst_size < 2 ^ 32
      → IsBounded cfg b
      → le (min fp b.capacity t) b.capacity ≡ true
  min-le cfg b t h v =
      if_rule (λ m. le m b.capacity ≡ true) (lt t b.capacity) (le_of_lt t b.capacity)
        (λ _. subst (λ c. le c c ≡ true) (sym v.capacity) (le_self cfg.burst_size (omega arith)))

  refill-IsBounded :
      (cfg : RateLimitConfig) (b : TokenBucket fp) (now : ℕ)
      → cfg.burst_size < 2 ^ 32
      → IsBounded cfg b
      → IsBounded cfg (refill fp b now)
  unfolding refill
  refill-IsBounded cfg b now h v =
      if_rule (IsBounded cfg) (ltb 0 (now - b.last_refill))
        (λ _. record { capacity = v.capacity; filled = min-le cfg b _ h v }) (λ _. v)

  take_token-IsBounded :
      (cfg : RateLimitConfig) (b : TokenBucket fp)
      → IsBounded cfg b
      → IsBounded cfg (take_token fp b).1
  unfolding take_token
  take_token-IsBounded cfg b v =
      if_rule (λ (r : Bool × TokenBucket fp). IsBounded cfg r.1) (le (of_nat 1) b.tokens)
        (λ e. record { capacity = v.capacity; filled = sub_one-le b.tokens b.capacity e v.filled })
        (λ _. v)

  -- Every bucket in the map.
  abbrev AllBounded : PerIpRateLimiter fp → Type 0
  AllBounded l = (j : Str) (b : TokenBucket fp) → lookup j l.buckets ≡ some b → IsBounded l.cfg b

  bucket-IsBounded :
      (l : PerIpRateLimiter fp) (ip : Str) (now : ℕ)
      → l.cfg.burst_size < 2 ^ 32
      → AllBounded l
      → IsBounded l.cfg (bucket fp l ip now)
  unfolding bucket
  bucket-IsBounded l ip now h v = elim (Option-cases (lookup ip l.buckets)) [
    | inl e ↦ rw e (new_bucket-IsBounded l.cfg now h)
    | inr (b, e) ↦ rw e (v ip b e)
  ]

  pub data Call : Type 0 where
    acquires resets : Str → ℕ → Call

  unfoldable pub step : PerIpRateLimiter fp → Call → PerIpRateLimiter fp
  unfolding try_acquire reset
  step l (acquires ip now) = (try_acquire fp l ip now).1
  step l (resets ip now) = reset fp l ip

  unfoldable pub run : PerIpRateLimiter fp → List Call → PerIpRateLimiter fp
  unfolding step
  run l [] = l
  run l (c ∷ cs) = run (step l c) cs

  insert-AllBounded :
      (l : PerIpRateLimiter fp) (ip : Str) (b : TokenBucket fp)
      → AllBounded l
      → IsBounded l.cfg b
      → AllBounded (record l { buckets = insert ip b l.buckets })
  insert-AllBounded l ip b v vb j c e = elim (Bool-cases (ip == j)) [
    | inl same ↦ subst (IsBounded l.cfg) (ground (arith, lookup-insert ip j b l.buckets)) vb
    | inr other ↦ v j c (ground (arith, lookup-insert ip j b l.buckets))
  ]

  step-AllBounded :
      (l : PerIpRateLimiter fp) (c : Call)
      → l.cfg.burst_size < 2 ^ 32
      → AllBounded l
      → AllBounded (step l c) × ((step l c).cfg ≡ l.cfg)
  unfolding step try_acquire reset
  step-AllBounded l (acquires ip now) h v =
      let b = take_token fp (refill fp (bucket fp l ip now) now) in
      if_rule (λ (r : Bool × PerIpRateLimiter fp). AllBounded r.1 × (r.1.cfg ≡ l.cfg))
        (is_exempt fp l.cfg ip) (λ _. (v, refl))
        (λ _. (
          insert-AllBounded l ip b.1 v (
              take_token-IsBounded l.cfg _
                (refill-IsBounded l.cfg _ now h (bucket-IsBounded l ip now h v))),
          refl,
        ))
  step-AllBounded l (resets ip now) h v =
      (λ j b e. v j b (ground (arith, lookup-erase ip j l.buckets)), refl)

  run-AllBounded :
      (l : PerIpRateLimiter fp) (cs : List Call)
      → l.cfg.burst_size < 2 ^ 32
      → AllBounded l
      → AllBounded (run l cs) × ((run l cs).cfg ≡ l.cfg)
  unfolding run
  run-AllBounded l [] h v = (v, refl)
  run-AllBounded l (c ∷ cs) h v =
      let (w, same) = step-AllBounded l c h v in
      let (last, kept) =
        run-AllBounded (step l c) cs (subst (λ g. g.burst_size < 2 ^ 32) (sym same) h) w in
      (last, kept ∙ same)

  -- After any history of `try_acquire` and `reset` on a new limiter whose burst size is a uint32_t,
  -- every bucket has the burst size as its capacity and holds at most that many tokens.
  pub run-IsBounded :
      (cfg : RateLimitConfig) (cs : List Call) (j : Str) (b : TokenBucket fp)
      → cfg.burst_size < 2 ^ 32
      → lookup j (run (record { cfg = cfg; buckets = [] }) cs).buckets ≡ some b
      → IsBounded cfg b
  unfolding lookup
  run-IsBounded cfg cs j b h e =
      let new : PerIpRateLimiter fp = record { cfg = cfg; buckets = [] } in
      let (v, same) = run-AllBounded new cs h (λ i c none_. cc) in
      subst (λ g. IsBounded g b) same (v j b e)
