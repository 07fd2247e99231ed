-- ===== src/Security/Limiter/Bursts.antt =====
-- PerIpRateLimiter.try_acquire without refill: how many requests of an address pass.
use native.Mathlib.Numerals.{sub-one}
use mcp_server.Base.{
  ℕ, zero, suc, ◌-◌, ◌^◌, ◌<◌, ◌≤◌, ◌≡◌, refl, sym, ap, ap₂, ◌∙◌, subst, ◌⊎◌, inl, inr, Bool, true,
  false, none, some, List, [], ◌∷◌, arith, ltb, if◌then◌else◌, Str, str_eq, lookup, insert,
  lookup-insert_self, All, dec_lt, lt→ltb, ltb→lt, if_rule,
}
use mcp_server.Security.Policy.{RateLimitConfig}
use mcp_server.Security.Limiter.Doubles.{Doubles}
use mcp_server.Security.Limiter.{
  TokenBucket, PerIpRateLimiter, refill, new_bucket, bucket, take_token, is_exempt, try_acquire,
}

module _ (fp : Doubles) where
  open fp use {
    Double, of_nat, add, sub, mul, div, le, lt, le-of_nat, lt-of_nat, sub-of_nat_one, add-mul-zero,
  }

  -- The answers to requests of one address at the given times.
  unfoldable pub answers : PerIpRateLimiter fp → Str → List ℕ → List Bool
  answers l ip [] = []
  answers l ip (t ∷ ts) = let (granted, l') = try_acquire fp l ip t in granted ∷ answers l' ip ts

  -- `n` grants at most, then refusals.
  unfoldable pub grants : ℕ → List ℕ → List Bool
  grants n [] = []
  grants zero (t ∷ ts) = false ∷ grants zero ts
  grants (suc n) (t ∷ ts) = true ∷ grants n ts

  -- Nothing is refilled at the time `t`: the rate is 0, or no time has passed since `now`.
  abbrev pub NoRefill : RateLimitConfig → ℕ → ℕ → Type 0
  NoRefill cfg now t = (t < 2 ^ 63) × ((cfg.requests_per_second ≡ 0) ⊎ (t ≡ now))

  -- A bucket of the configuration with `n` whole tokens.
  record Holds (cfg : RateLimitConfig) (n now : ℕ) (b : TokenBucket fp) : Type 0 where
    tokens : b.tokens ≡ of_nat n
    capacity : b.capacity ≡ of_nat cfg.burst_size
    rate : cfg.requests_per_second ≡ 0 → b.refill_per_ns ≡ of_nat 0
    size : n ≤ cfg.burst_size
    steady : (cfg.requests_per_second ≡ 0) ⊎ (b.last_refill ≡ now)

  new_bucket-Holds :
      (cfg : RateLimitConfig) (now t : ℕ)
      → NoRefill cfg now t
      → Holds cfg cfg.burst_size now (new_bucket fp cfg t)
  unfolding new_bucket
  new_bucket-Holds cfg now t h = record {
    tokens = refl;
    capacity = refl;
    rate = λ z. ground (arith, z);
    size = omega arith;
    steady = h.1;
  }

  -- Adding nothing keeps the tokens, at the cap too.
  refilled :
      (n m e : ℕ)
      → n ≤ m
      → m < 2 ^ 32
      → e < 2 ^ 63
      → (let t = add (of_nat n) (mul (of_nat e) (of_nat 0)) in
          if lt t (of_nat m) then t else of_nat m)
        ≡ of_nat n
  refilled n m e h l k =
      rw (add-mul-zero n e (omega arith) k, lt-of_nat n m (omega arith) (omega arith))
        (elim (dec_lt n m) [
          | yes p ↦ rw (lt→ltb n m p)
          | no p ↦ let e : m ≡ n = omega arith in rw e (ground arith)
        ])

  zero_rate :
      (cfg : RateLimitConfig) (n now t : ℕ) (b : TokenBucket fp)
      → (cfg.requests_per_second ≡ 0) ⊎ (t ≡ now)
      → Holds cfg n now b
      → 0 < t - b.last_refill
      → cfg.requests_per_second ≡ 0
  zero_rate cfg n now t b (inl z) v passed = z
  zero_rate cfg n now t b (inr e) v passed = elim v.steady [
    | inl z ↦ z
    | inr s ↦ absurd (omega (arith, s))
  ]

  refill-Holds :
      (cfg : RateLimitConfig) (n now t : ℕ) (b : TokenBucket fp)
      → cfg.burst_size < 2 ^ 32
      → NoRefill cfg now t
      → Holds cfg n now b
      → Holds cfg n now (refill fp b t)
  unfolding refill
  refill-Holds cfg n now t b h (l, mode) v =
      if_rule (Holds cfg n now) (ltb 0 (t - b.last_refill))
        (λ passed. record {
          tokens =
              rw (v.tokens, v.capacity, v.rate (zero_rate cfg n now t b mode v (ltb→lt _ _ passed)))
                (refilled n cfg.burst_size (t - b.last_refill) v.size h (omega arith));
          capacity = v.capacity;
          rate = v.rate;
          size = v.size;
          steady = mode;
        })
        (λ _. v)

  take_token-none :
      (cfg : RateLimitConfig) (now : ℕ) (b : TokenBucket fp)
      → Holds cfg 0 now b
      → take_token fp b ≡ (false, b)
  unfolding take_token
  take_token-none cfg now b v = rw (v.tokens, le-of_nat 1 0 (omega arith) (omega arith))

  take_token-one :
      (cfg : RateLimitConfig) (n now : ℕ) (b : TokenBucket fp)
      → cfg.burst_size < 2 ^ 32
      → Holds cfg (suc n) now b
      → ((take_token fp b).0 ≡ true) × Holds cfg n now (take_token fp b).1
  unfolding take_token
  take_token-one cfg n now b h v =
      let enough : le (of_nat 1) b.tokens ≡ true =
        ap (le (of_nat 1)) v.tokens
        ∙ le-of_nat 1 (suc n) (omega arith) (omega (arith, v.size))
        ∙ ground arith in
      rw enough (
        refl,
        record {
          tokens = ap (λ t. sub t (of_nat 1)) v.tokens ∙ sub-of_nat_one n (omega (arith, v.size));
          capacity = v.capacity;
          rate = v.rate;
          size = omega (arith, v.size);
          steady = v.steady;
        },
      )

  take_token-Holds :
      (cfg : RateLimitConfig) (n now : ℕ) (b : TokenBucket fp)
      → cfg.burst_size < 2 ^ 32
      → Holds cfg n now b
      → ((take_token fp b).0 ≡ ltb 0 n) × Holds cfg (n - 1) now (take_token fp b).1
  take_token-Holds cfg zero now b h v = rw (take_token-none cfg now b v) (refl, v)
  take_token-Holds cfg (suc n) now b h v =
      let (granted, left) = take_token-one cfg n now b h v in
      (granted ∙ ground arith, rw sub-one left)

  acquire_watched :
      (l : PerIpRateLimiter fp) (ip : Str) (t : ℕ)
      → is_exempt fp l.cfg ip ≡ false
      → let r = take_token fp (refill fp (bucket fp l ip t) t) in
        try_acquire fp l ip t ≡ (r.0, record l { buckets = insert ip r.1 l.buckets })
  unfolding try_acquire
  acquire_watched l ip t w = rw w

module _ (fp : Doubles) (cfg : RateLimitConfig) (ip : Str) (now : ℕ)
    (small : cfg.burst_size < 2 ^ 32) (watched : is_exempt fp cfg ip ≡ false) where
  -- The address has a bucket with `n` tokens, or none yet and `n` is the burst size.
  abbrev Ready : PerIpRateLimiter fp → ℕ → Type 0
  Ready l n =
      (l.cfg ≡ cfg)
      × (((lookup ip l.buckets ≡ none) × (n ≡ cfg.burst_size))
          ⊎ ((b : TokenBucket fp) × (lookup ip l.buckets ≡ some b) × Holds fp cfg n now b))

  bucket-Holds :
      (l : PerIpRateLimiter fp) (n t : ℕ)
      → Ready l n
      → NoRefill fp cfg now t
      → Holds fp cfg n now (bucket fp l ip t)
  unfolding bucket
  bucket-Holds l n t (same, inl (e, full)) h = rw (e, same, full) (new_bucket-Holds fp cfg now t h)
  bucket-Holds l n t (same, inr (b, e, v)) h = rw e v

  -- One request: the answer, and what is left.
  acquire-Ready :
      (l : PerIpRateLimiter fp) (n t : ℕ)
      → Ready l n
      → NoRefill fp cfg now t
      → ((try_acquire fp l ip t).0 ≡ ltb 0 n) × Ready (try_acquire fp l ip t).1 (n - 1)
  acquire-Ready l n t r h =
      let b = refill fp (bucket fp l ip t) t in
      let (granted, left) =
        take_token-Holds fp cfg n now b small
          (refill-Holds fp cfg n now t (bucket fp l ip t) small h (bucket-Holds l n t r h)) in
      subst (λ (x : Bool × PerIpRateLimiter fp). (x.0 ≡ ltb 0 n) × Ready x.1 (n - 1))
        (sym (acquire_watched fp l ip t (subst (λ c. is_exempt fp c ip ≡ false) (sym r.0) watched)))
        (
          granted,
          (
            r.0,
            inr ((take_token fp b).1, lookup-insert_self ip (take_token fp b).1 l.buckets, left),
          ),
        )

  answers-grants :
      (l : PerIpRateLimiter fp) (n : ℕ) (ts : List ℕ)
      → Ready l n
      → All (NoRefill fp cfg now) ts
      → answers fp l ip ts ≡ grants fp n ts
  unfolding answers grants
  answers-grants l n [] r h = refl
  answers-grants l zero (t ∷ ts) r (h, hs) =
      let (granted, left) = acquire-Ready l 0 t r h in
      ap₂ ◌∷◌ granted (answers-grants (try_acquire fp l ip t).1 0 ts left hs)
  answers-grants l (suc n) (t ∷ ts) r (h, hs) =
      let (granted, left) = acquire-Ready l (suc n) t r h in
      ap₂ ◌∷◌ (granted ∙ ground arith)
        (answers-grants (try_acquire fp l ip t).1 n ts (rw sub-one at left) hs)

-- Of the requests of a watched address that has no bucket yet, exactly the first `burst_size` pass
-- and the others are refused, where nothing is refilled: with `requests_per_second` 0 at any times,
-- or with any rate at the one time `now`.
pub answers-burst :
    (fp : Doubles) (l : PerIpRateLimiter fp) (ip : Str) (now : ℕ) (ts : List ℕ)
    → l.cfg.burst_size < 2 ^ 32
    → is_exempt fp l.cfg ip ≡ false
    → lookup ip l.buckets ≡ none
    → All (NoRefill fp l.cfg now) ts
    → answers fp l ip ts ≡ grants fp l.cfg.burst_size ts
answers-burst fp l ip now ts small watched none_yet h =
    answers-grants fp l.cfg ip now small watched l l.cfg.burst_size ts (refl, inl (none_yet, refl))
      h
