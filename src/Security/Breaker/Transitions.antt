-- ===== src/Security/Breaker/Transitions.antt =====
-- PerIpCircuitBreaker call by call: the edges of the state machine that the class comment draws, the
-- bounds on the counters, and what a call leaves alone.
use Prim.Native.Nat.{max}
use mcp_server.Base.{
  ℕ, ◌+◌, ◌≤◌, ◌<◌, ◌≡◌, refl, sym, ◌≢◌, inl, inr, Bool, true, false, arith, Str, str_eq,
  str_beq_iff, lookup, lookup-insert, Bool-cases, if_rule, ltb, leb, leb→le, List, [], ◌∷◌, ◌==◌,
  ◌∙◌, subst,
}
use mcp_server.Security.Policy.{CircuitBreakerConfig}
use mcp_server.Security.Breaker.{
  CbState, closed, open', half_open, CircuitState, fresh, PerIpCircuitBreaker, u32, elapsed_seconds,
  allow_in, success_in, failure_in, circuit, store, is_exempt, Operation, allows, succeeds, fails,
  step, step_in,
}

pub circuit-store :
    (b : PerIpCircuitBreaker) (ip : Str) (s : CircuitState) → circuit (store b ip s) ip ≡ s
unfolding circuit
circuit-store b ip s = ground (arith, lookup-insert ip ip s b.states, str_beq_iff ip ip)

pub circuit-store_ne :
    (b : PerIpCircuitBreaker) (ip j : Str) (s : CircuitState)
    → ip ≢ j
    → circuit (store b ip s) j ≡ circuit b j
unfolding circuit
circuit-store_ne b ip j s h = ground (arith, lookup-insert ip j s b.states, str_beq_iff ip j)

-- A watched address has its circuit stepped; the clauses are those of `step_in`.
pub circuit-step :
    (b : PerIpCircuitBreaker) (ip : Str) (now : ℕ) (o : Operation)
    → is_exempt b.cfg ip ≡ false
    → circuit (step b ip now o) ip ≡ step_in b.cfg (circuit b ip) now o
unfolding step step_in
circuit-step b ip now allows h =
    ground (arith, circuit-store b ip (allow_in b.cfg (circuit b ip).state (circuit b ip) now).1)
circuit-step b ip now succeeds h =
    ground (arith, circuit-store b ip (success_in b.cfg (circuit b ip).state (circuit b ip)))
circuit-step b ip now fails h =
    ground (arith, circuit-store b ip (failure_in b.cfg (circuit b ip).state (circuit b ip) now))

pub step-exempt :
    (b : PerIpCircuitBreaker) (ip : Str) (now : ℕ) (o : Operation)
    → is_exempt b.cfg ip ≡ true
    → step b ip now o ≡ b
unfolding step
step-exempt b ip now allows h = ground arith
step-exempt b ip now succeeds h = ground arith
step-exempt b ip now fails h = ground arith

pub circuit-step_ne :
    (b : PerIpCircuitBreaker) (ip j : Str) (now : ℕ) (o : Operation)
    → ip ≢ j
    → circuit (step b ip now o) j ≡ circuit b j
unfolding step
circuit-step_ne b ip j now allows h =
    ground
      (arith, circuit-store_ne b ip j (allow_in b.cfg (circuit b ip).state (circuit b ip) now).1 h)
circuit-step_ne b ip j now succeeds h =
    ground (arith, circuit-store_ne b ip j (success_in b.cfg (circuit b ip).state (circuit b ip)) h)
circuit-step_ne b ip j now fails h =
    ground
      (arith, circuit-store_ne b ip j (failure_in b.cfg (circuit b ip).state (circuit b ip) now) h)

-- The edges that the class comment draws, with their conditions and what each resets.
pub data Edge (cfg : CircuitBreakerConfig) (now : ℕ) (s t : CircuitState) : Type 0 where
  stays : t.state ≡ s.state → t.open_time ≡ s.open_time → Edge cfg now s t
  trips :
      s.state ≡ closed
      → t.state ≡ open'
      → cfg.failure_threshold ≤ t.failure_count
      → t.open_time ≡ now
      → Edge cfg now s t
  cools :
      s.state ≡ open'
      → t.state ≡ half_open
      → cfg.timeout_seconds ≤ elapsed_seconds s.open_time now
      → t.half_open_reqs ≡ 1
      → t.success_count ≡ 0
      → Edge cfg now s t
  recovers :
      s.state ≡ half_open
      → cfg.success_threshold ≤ u32 (s.success_count + 1)
      → t ≡ fresh
      → Edge cfg now s t
  reopens :
      s.state ≡ half_open
      → t.state ≡ open'
      → t.open_time ≡ now
      → (t.success_count ≡ 0) × (t.half_open_reqs ≡ 0)
      → Edge cfg now s t

allow_in-Edge :
    (cfg : CircuitBreakerConfig) (k : CbState) (s : CircuitState) (now : ℕ)
    → s.state ≡ k
    → Edge cfg now s (allow_in cfg k s now).1
unfolding allow_in
allow_in-Edge cfg closed s now e = stays refl refl
allow_in-Edge cfg open' s now e =
    if_rule (λ (r : Bool × CircuitState). Edge cfg now s r.1)
      (leb cfg.timeout_seconds (elapsed_seconds s.open_time now))
      (λ h. cools e refl (leb→le _ _ h) refl refl) (λ _. stays refl refl)
allow_in-Edge cfg half_open s now e =
    if_rule (λ (r : Bool × CircuitState). Edge cfg now s r.1)
      (ltb s.half_open_reqs cfg.half_open_max_reqs) (λ _. stays refl refl) (λ _. stays refl refl)

success_in-Edge :
    (cfg : CircuitBreakerConfig) (k : CbState) (s : CircuitState) (now : ℕ)
    → s.state ≡ k
    → Edge cfg now s (success_in cfg k s)
unfolding success_in
success_in-Edge cfg closed s now e = stays refl refl
success_in-Edge cfg open' s now e = stays refl refl
success_in-Edge cfg half_open s now e =
    if_rule (Edge cfg now s) (leb cfg.success_threshold (u32 (s.success_count + 1)))
      (λ h. recovers e (leb→le _ _ h) refl) (λ _. stays refl refl)

failure_in-Edge :
    (cfg : CircuitBreakerConfig) (k : CbState) (s : CircuitState) (now : ℕ)
    → s.state ≡ k
    → Edge cfg now s (failure_in cfg k s now)
unfolding failure_in
failure_in-Edge cfg closed s now e =
    if_rule (Edge cfg now s) (leb cfg.failure_threshold (u32 (s.failure_count + 1)))
      (λ h. trips e refl (leb→le _ _ h) refl) (λ _. stays refl refl)
failure_in-Edge cfg open' s now e = stays refl refl
failure_in-Edge cfg half_open s now e = reopens e refl refl (refl, refl)

step_in-Edge :
    (cfg : CircuitBreakerConfig) (s : CircuitState) (now : ℕ) (o : Operation)
    → Edge cfg now s (step_in cfg s now o)
unfolding step_in
step_in-Edge cfg s now allows = allow_in-Edge cfg s.state s now refl
step_in-Edge cfg s now succeeds = success_in-Edge cfg s.state s now refl
step_in-Edge cfg s now fails = failure_in-Edge cfg s.state s now refl

-- Every call of `allow`, `record_success` or `record_failure` moves the circuit of its address along
-- one edge of the documented state machine or leaves its state and opening time, and does not touch
-- the circuit of any other address.
pub circuit-step-Edge :
    (b : PerIpCircuitBreaker) (ip j : Str) (now : ℕ) (o : Operation)
    → Edge b.cfg now (circuit b ip) (circuit (step b ip now o) ip)
      × (ip ≢ j → circuit (step b ip now o) j ≡ circuit b j)
circuit-step-Edge b ip j now o = (
  elim (Bool-cases (is_exempt b.cfg ip)) [
    | inl h ↦ rw (step-exempt b ip now o h) (stays refl refl)
    | inr h ↦ rw (circuit-step b ip now o h) (step_in-Edge b.cfg (circuit b ip) now o)
  ],
  circuit-step_ne b ip j now o,
)

-- Bounds on the counters. A threshold of 0 acts as 1.
pub record IsWithin (cfg : CircuitBreakerConfig) (s : CircuitState) : Type 0 where
  pub failures : s.state ≡ closed → s.failure_count < max 1 cfg.failure_threshold
  pub successes : s.state ≡ half_open → s.success_count < max 1 cfg.success_threshold
  pub probes : s.state ≡ half_open → s.half_open_reqs ≤ max 1 cfg.half_open_max_reqs

fresh-IsWithin : (cfg : CircuitBreakerConfig) → IsWithin cfg fresh
fresh-IsWithin cfg = record { failures = λ _. omega arith; successes = λ e. cc; probes = λ e. cc }

allow_in-IsWithin :
    (cfg : CircuitBreakerConfig) (k : CbState) (s : CircuitState) (now : ℕ)
    → s.state ≡ k
    → IsWithin cfg s
    → IsWithin cfg (allow_in cfg k s now).1
unfolding allow_in
allow_in-IsWithin cfg closed s now e v = v
allow_in-IsWithin cfg open' s now e v = ground arith
allow_in-IsWithin cfg half_open s now e v = ground arith

success_in-IsWithin :
    (cfg : CircuitBreakerConfig) (k : CbState) (s : CircuitState)
    → s.state ≡ k
    → IsWithin cfg s
    → IsWithin cfg (success_in cfg k s)
unfolding success_in
success_in-IsWithin cfg closed s e v = ground arith
success_in-IsWithin cfg open' s e v = v
success_in-IsWithin cfg half_open s e v = ground (arith)

failure_in-IsWithin :
    (cfg : CircuitBreakerConfig) (k : CbState) (s : CircuitState) (now : ℕ)
    → s.state ≡ k
    → IsWithin cfg s
    → IsWithin cfg (failure_in cfg k s now)
unfolding failure_in
failure_in-IsWithin cfg closed s now e v = ground arith
failure_in-IsWithin cfg open' s now e v = v
failure_in-IsWithin cfg half_open s now e v = ground arith

step_in-IsWithin :
    (cfg : CircuitBreakerConfig) (s : CircuitState) (now : ℕ) (o : Operation)
    → IsWithin cfg s
    → IsWithin cfg (step_in cfg s now o)
unfolding step_in
step_in-IsWithin cfg s now allows v = allow_in-IsWithin cfg s.state s now refl v
step_in-IsWithin cfg s now succeeds v = success_in-IsWithin cfg s.state s refl v
step_in-IsWithin cfg s now fails v = failure_in-IsWithin cfg s.state s now refl v

pub record Call : Type 0 where
  pub ip : Str
  pub now : ℕ
  pub operation : Operation

pub run : PerIpCircuitBreaker → List Call → PerIpCircuitBreaker
run b [] = b
run b (c ∷ cs) = run (step b c.ip c.now c.operation) cs

pub step-cfg :
    (b : PerIpCircuitBreaker) (ip : Str) (now : ℕ) (o : Operation) → (step b ip now o).cfg ≡ b.cfg
unfolding step
step-cfg b ip now allows = ground arith
step-cfg b ip now succeeds = ground arith
step-cfg b ip now fails = ground arith

AllWithin : PerIpCircuitBreaker → Type 0
AllWithin b = (j : Str) → IsWithin b.cfg (circuit b j)

step-AllWithin :
    (b : PerIpCircuitBreaker) (ip : Str) (now : ℕ) (o : Operation)
    → AllWithin b
    → AllWithin (step b ip now o)
unfolding AllWithin
step-AllWithin b ip now o v j =
    subst (λ c. IsWithin c (circuit (step b ip now o) j)) (sym (step-cfg b ip now o))
      (elim (Bool-cases (ip == j)) [
        | inl same ↦ elim (Bool-cases (is_exempt b.cfg ip)) [
          | inl h ↦ rw (step-exempt b ip now o h) (v j)
          | inr h ↦
              subst (λ k. IsWithin b.cfg (circuit (step b ip now o) k)) ((str_beq_iff ip j).0 same)
                (rw (circuit-step b ip now o h)
                  (step_in-IsWithin b.cfg (circuit b ip) now o (v ip)))
        ]
        | inr other ↦ rw (circuit-step_ne b ip j now o (ground (arith, str_beq_iff ip j))) (v j)
      ])

run-AllWithin : (b : PerIpCircuitBreaker) (cs : List Call) → AllWithin b → AllWithin (run b cs)
unfolding run
run-AllWithin b [] v = v
run-AllWithin b (c ∷ cs) v =
    run-AllWithin (step b c.ip c.now c.operation) cs (step-AllWithin b c.ip c.now c.operation v)

run-cfg : (b : PerIpCircuitBreaker) (cs : List Call) → (run b cs).cfg ≡ b.cfg
unfolding run
run-cfg b [] = refl
run-cfg b (c ∷ cs) = run-cfg (step b c.ip c.now c.operation) cs ∙ step-cfg b c.ip c.now c.operation

new-AllWithin : (cfg : CircuitBreakerConfig) → AllWithin (record { cfg = cfg; states = [] })
unfolding AllWithin circuit lookup
new-AllWithin cfg j = fresh-IsWithin cfg

-- After any history of calls on a new breaker the counters of every address are within bounds: while
-- CLOSED fewer failures than the failure threshold, while HALF_OPEN fewer successes than the success
-- threshold and at most `half_open_max_reqs` probes (each bound at least 1).
pub run-IsWithin :
    (cfg : CircuitBreakerConfig) (cs : List Call) (j : Str)
    → IsWithin cfg (circuit (run (record { cfg = cfg; states = [] }) cs) j)
unfolding AllWithin
run-IsWithin cfg cs j =
    let new : PerIpCircuitBreaker = record { cfg = cfg; states = [] } in
    subst (λ c. IsWithin c (circuit (run new cs) j)) (run-cfg new cs)
      (run-AllWithin new cs (new-AllWithin cfg) j)
