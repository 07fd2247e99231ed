-- ===== src/Security/Breaker/Probes.antt =====
-- PerIpCircuitBreaker.allow while a circuit is OPEN or HALF_OPEN: how long it refuses, how many
-- probes it admits, and whether it can close again.
use Prim.Native.Nat.{max}
use mcp_server.Base.{
  ℕ, suc, ◌+◌, ◌^◌, ◌≤◌, ◌<◌, ◌≡◌, refl, sym, ap, ◌∙◌, subst, subst₂, ◌≢◌, Bool, true, false, arith,
  Str, List, [], ◌∷◌, All, if◌then◌else◌,
}
use mcp_server.Security.Policy.{CircuitBreakerConfig}
use mcp_server.Security.Breaker.{
  CbState, closed, open', half_open, CircuitState, PerIpCircuitBreaker, elapsed_seconds, allow_in,
  success_in, failure_in, circuit, is_exempt, allow, Operation, allows, succeeds, fails, step,
  step_in,
}
use mcp_server.Security.Breaker.Transitions.{circuit-step, step-cfg}

-- The answer of an `allow` call, and the circuit after it, where the address is watched.
pub allow-answer :
    (b : PerIpCircuitBreaker) (ip : Str) (now : ℕ)
    → is_exempt b.cfg ip ≡ false
    → (allow b ip now).0 ≡ (allow_in b.cfg (circuit b ip).state (circuit b ip) now).0
unfolding allow
allow-answer b ip now h = ground arith

pub record Event : Type 0 where
  pub now : ℕ
  pub operation : Operation

-- The answer of `allow` in front of the later ones; the other calls answer nothing.
abbrev note_answer : Operation → Bool → List Bool → List Bool
note_answer allows a later = a ∷ later
note_answer _ a later = later

-- A series of calls for one address: the breaker after it, and what `allow` answered, in order.
pub calls : PerIpCircuitBreaker → Str → List Event → PerIpCircuitBreaker × List Bool
calls b ip [] = (b, [])
calls b ip (e ∷ es) =
    let (b', later) = calls (step b ip e.now e.operation) ip es in
    (b', note_answer e.operation (allow b ip e.now).0 later)

abbrev pub IsRefusal : Bool → Type 0
IsRefusal a = a ≡ false

-- The event leaves the circuit as it is, and `allow` would refuse at its time.
abbrev IsIdle : CircuitBreakerConfig → CircuitState → Event → Type 0
IsIdle cfg s e =
    (step_in cfg s e.now e.operation ≡ s)
    × ((e.operation ≡ allows) → (allow_in cfg s.state s e.now).0 ≡ false)

note-IsRefusal :
    (o : Operation) (a : Bool) (later : List Bool)
    → (o ≡ allows → a ≡ false)
    → All IsRefusal later
    → All IsRefusal (note_answer o a later)
note-IsRefusal allows a later h rest = (h refl, rest)
note-IsRefusal succeeds a later h rest = rest
note-IsRefusal fails a later h rest = rest

calls_idle :
    (b : PerIpCircuitBreaker) (ip : Str) (es : List Event)
    → is_exempt b.cfg ip ≡ false
    → All (IsIdle b.cfg (circuit b ip)) es
    → All IsRefusal (calls b ip es).1 × (circuit (calls b ip es).0 ip ≡ circuit b ip)
unfolding calls
calls_idle b ip [] w h = (tt, refl)
calls_idle b ip (e ∷ es) w (idle, h) =
    let b' = step b ip e.now e.operation in
    let same = step-cfg b ip e.now e.operation in
    let kept = circuit-step b ip e.now e.operation w ∙ idle.0 in
    let later =
      calls_idle b' ip es (subst (λ c. is_exempt c ip ≡ false) (sym same) w)
        (subst₂ (λ c s. All (IsIdle c s) es) (sym same) (sym kept) h) in
    (
      note-IsRefusal e.operation _ _ (λ o. allow-answer b ip e.now w ∙ idle.1 o) later.0,
      later.1 ∙ kept,
    )

open-IsIdle :
    (cfg : CircuitBreakerConfig) (s : CircuitState) (e : Event)
    → s.state ≡ open'
    → elapsed_seconds s.open_time e.now < cfg.timeout_seconds
    → IsIdle cfg s e
open-IsIdle cfg s e c h = (kept e.operation, λ _. refused)
  where
    refused : (allow_in cfg s.state s e.now).0 ≡ false
    refused = unfold allow_in in rw c (ground arith)

    kept : (o : Operation) → step_in cfg s e.now o ≡ s
    kept allows = unfold step_in allow_in in rw c (ground arith)
    kept succeeds = unfold step_in success_in in rw c
    kept fails = unfold step_in failure_in in rw c

opens-All :
    (cfg : CircuitBreakerConfig) (s : CircuitState) (es : List Event)
    → s.state ≡ open'
    → All (λ e. elapsed_seconds s.open_time e.now < cfg.timeout_seconds) es
    → All (IsIdle cfg s) es
opens-All cfg s [] c h = tt
opens-All cfg s (e ∷ es) c (t, h) = (open-IsIdle cfg s e c t, opens-All cfg s es c h)

-- While fewer than `timeout_seconds` whole seconds have passed since the circuit of a watched address
-- opened, every `allow` is refused and no call changes the circuit, in any series of `allow`,
-- `record_success` and `record_failure`.
pub cooling_refuses :
    (b : PerIpCircuitBreaker) (ip : Str) (es : List Event)
    → is_exempt b.cfg ip ≡ false
    → (circuit b ip).state ≡ open'
    → All (λ e. elapsed_seconds (circuit b ip).open_time e.now < b.cfg.timeout_seconds) es
    → All IsRefusal (calls b ip es).1 × (circuit (calls b ip es).0 ip ≡ circuit b ip)
cooling_refuses b ip es w c h = calls_idle b ip es w (opens-All b.cfg (circuit b ip) es c h)

full-IsIdle :
    (cfg : CircuitBreakerConfig) (s : CircuitState) (es : List Event)
    → s.state ≡ half_open
    → cfg.half_open_max_reqs ≤ s.half_open_reqs
    → All (λ e. e.operation ≡ allows) es
    → All (IsIdle cfg s) es
unfolding step_in allow_in
full-IsIdle cfg s [] c h o = tt
full-IsIdle cfg s (e ∷ es) c h (a, o) =
    ((rw (a, c) (ground arith), λ _. rw c (ground arith)), full-IsIdle cfg s es c h o)

-- Once a HALF_OPEN circuit has spent its probes, `allow` is refused at every later time and the
-- circuit stays as it is, unless an outcome is recorded: no time-out leads out of HALF_OPEN.
pub spent_probes_lock :
    (b : PerIpCircuitBreaker) (ip : Str) (es : List Event)
    → is_exempt b.cfg ip ≡ false
    → (circuit b ip).state ≡ half_open
    → b.cfg.half_open_max_reqs ≤ (circuit b ip).half_open_reqs
    → All (λ e. e.operation ≡ allows) es
    → All IsRefusal (calls b ip es).1 × (circuit (calls b ip es).0 ip ≡ circuit b ip)
spent_probes_lock b ip es w c h o = calls_idle b ip es w (full-IsIdle b.cfg (circuit b ip) es c h o)

-- One address and its requests in flight, where no probe fails: `allow` admits or refuses a request,
-- and a request in flight comes back with a success.
pub data Exchange (ip : Str) (b : PerIpCircuitBreaker) (flying : ℕ)
    : PerIpCircuitBreaker → ℕ → Type 0 where
  idle : Exchange ip b flying b flying
  admits :
      {c : PerIpCircuitBreaker} {n : ℕ} (now : ℕ)
      → Exchange ip b flying c n
      → (allow c ip now).0 ≡ true
      → Exchange ip b flying (step c ip now allows) (suc n)
  refuses :
      {c : PerIpCircuitBreaker} {n : ℕ} (now : ℕ)
      → Exchange ip b flying c n
      → (allow c ip now).0 ≡ false
      → Exchange ip b flying (step c ip now allows) n
  completes :
      {c : PerIpCircuitBreaker} {n : ℕ} (now : ℕ)
      → Exchange ip b flying c (suc n)
      → Exchange ip b flying (step c ip now succeeds) n

-- Every success counted and every request in flight is one of the probes.
record Probing (cfg : CircuitBreakerConfig) (s : CircuitState) (n : ℕ) : Type 0 where
  never_closed : s.state ≢ closed
  none_flying : s.state ≡ open' → n ≡ 0
  counted : s.state ≡ half_open → s.success_count + n ≤ s.half_open_reqs
  bounded : s.state ≡ half_open → s.half_open_reqs ≤ max 1 cfg.half_open_max_reqs

allow_in-Probing :
    (cfg : CircuitBreakerConfig) (k : CbState) (s : CircuitState) (now n : ℕ)
    → s.state ≡ k
    → cfg.half_open_max_reqs < 2 ^ 32
    → Probing cfg s n
    → Probing cfg (allow_in cfg k s now).1 (if (allow_in cfg k s now).0 then suc n else n)
unfolding allow_in
allow_in-Probing cfg closed s now n e small p = absurd (p.never_closed e)
allow_in-Probing cfg open' s now n e small p = ground arith
allow_in-Probing cfg half_open s now n e small p = ground arith

success_in-Probing :
    (cfg : CircuitBreakerConfig) (k : CbState) (s : CircuitState) (n : ℕ)
    → s.state ≡ k
    → max 1 cfg.half_open_max_reqs < cfg.success_threshold
    → Probing cfg s (suc n)
    → Probing cfg (success_in cfg k s) n
unfolding success_in
success_in-Probing cfg closed s n e few p = absurd (p.never_closed e)
success_in-Probing cfg open' s n e few p = ground arith
success_in-Probing cfg half_open s n e few p = ground arith

success_moves :
    (c : PerIpCircuitBreaker) (ip : Str) (now : ℕ) (cfg : CircuitBreakerConfig)
    → is_exempt c.cfg ip ≡ false
    → c.cfg ≡ cfg
    → circuit (step c ip now succeeds) ip ≡ success_in cfg (circuit c ip).state (circuit c ip)
unfolding step_in
success_moves c ip now cfg w same =
    circuit-step c ip now succeeds w
    ∙ ap (λ g. success_in g (circuit c ip).state (circuit c ip)) same

flying-le :
    (cfg : CircuitBreakerConfig) (s : CircuitState) (n : ℕ) (k : CbState)
    → s.state ≡ k
    → Probing cfg s n
    → n ≤ max 1 cfg.half_open_max_reqs
flying-le cfg s n closed e p = absurd (p.never_closed e)
flying-le cfg s n open' e p = omega (arith, p.none_flying e)
flying-le cfg s n half_open e p = omega (arith, p.counted e, p.bounded e)

module _ (ip : Str) (b : PerIpCircuitBreaker) (watched : is_exempt b.cfg ip ≡ false)
    (small : b.cfg.half_open_max_reqs < 2 ^ 32)
    (few : max 1 b.cfg.half_open_max_reqs < b.cfg.success_threshold)
    (opened : (circuit b ip).state ≡ open') where
  abbrev Holds : PerIpCircuitBreaker → ℕ → Type 0
  Holds c n = (c.cfg ≡ b.cfg) × Probing b.cfg (circuit c ip) n

  allows-Holds :
      (c : PerIpCircuitBreaker) (n : ℕ) (now : ℕ)
      → Holds c n
      → Holds (step c ip now allows) (if (allow c ip now).0 then suc n else n)
  unfolding step_in
  allows-Holds c n now (same, p) =
      let w = subst (λ g. is_exempt g ip ≡ false) (sym same) watched in
      let moved =
        circuit-step c ip now allows w
        ∙ ap (λ g. (allow_in g (circuit c ip).state (circuit c ip) now).1) same in
      let told =
        allow-answer c ip now w
        ∙ ap (λ g. (allow_in g (circuit c ip).state (circuit c ip) now).0) same in
      (
        step-cfg c ip now allows ∙ same,
        subst₂ (λ s a. Probing b.cfg s (if a then suc n else n)) (sym moved) (sym told)
            (allow_in-Probing b.cfg (circuit c ip).state (circuit c ip) now n refl small p),
      )

  Exchange-Holds : {c : PerIpCircuitBreaker} {n : ℕ} → Exchange ip b 0 c n → Holds c n
  Exchange-Holds idle = (
    refl,
    record {
      never_closed = λ e. cc;
      none_flying = λ _. refl;
      counted = λ e. cc;
      bounded = λ e. cc;
    },
  )
  Exchange-Holds (admits {c} {n} now x yes_) =
      subst (λ a. Holds (step c ip now allows) (if a then suc n else n)) yes_
        (allows-Holds c n now (Exchange-Holds x))
  Exchange-Holds (refuses {c} {n} now x no_) =
      subst (λ a. Holds (step c ip now allows) (if a then suc n else n)) no_
        (allows-Holds c n now (Exchange-Holds x))
  Exchange-Holds (completes {c} {n} now x) =
      let (same, p) = Exchange-Holds x in
      let w = subst (λ g. is_exempt g ip ≡ false) (sym same) watched in
      let moved = success_moves c ip now b.cfg w same in
      (
        step-cfg c ip now succeeds ∙ same,
        subst (λ s. Probing b.cfg s n) (sym moved)
            (success_in-Probing b.cfg (circuit c ip).state (circuit c ip) n refl few p),
      )

  -- A success threshold above the number of probes (at least 1) can never be reached: from OPEN with
  -- no request in flight, the circuit of a watched address never closes again, even if every probe
  -- succeeds, and at most `max 1 half_open_max_reqs` requests are ever in flight.
  pub high_threshold_never_closes :
      (c : PerIpCircuitBreaker) (n : ℕ)
      → Exchange ip b 0 c n
      → ((circuit c ip).state ≢ closed) × (n ≤ max 1 b.cfg.half_open_max_reqs)
  high_threshold_never_closes c n x = (
    (Exchange-Holds x).1.never_closed,
    flying-le b.cfg (circuit c ip) n (circuit c ip).state refl (Exchange-Holds x).1,
  )
