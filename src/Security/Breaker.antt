-- ===== src/Security/Breaker.antt =====
-- include/mcp/security/circuit_breaker.hh: the per-IP circuit breaker. A call takes the reading of
-- the steady clock, in nanoseconds, as `now`; a uint32_t counter keeps its wrap-around.
pub mod Transitions
pub mod Failures
pub mod Probes
pub mod Spending
mod Tests
use mcp_server.Base.{
  ℕ, ◌+◌, ◌-◌, ◌/◌, ◌%◌, ◌^◌, Bool, true, false, ◌||◌, not, Option, none, some, ltb, leb,
  if◌then◌else◌, Str, str_eq, Dict, lookup, insert, erase, is_empty,
}
use mcp_server.Security.Policy.{CircuitBreakerConfig}

pub data CbState : Type 0 where
  closed open' half_open : CbState

pub record CircuitState : Type 0 where
  pub state : CbState
  pub failure_count : ℕ
  pub success_count : ℕ
  pub half_open_reqs : ℕ
  pub open_time : ℕ

-- `CircuitState{}`
abbrev pub fresh : CircuitState
fresh = record {
  state = closed;
  failure_count = 0;
  success_count = 0;
  half_open_reqs = 0;
  open_time = 0;
}

pub record PerIpCircuitBreaker : Type 0 where
  pub cfg : CircuitBreakerConfig
  pub states : Dict Str CircuitState

abbrev pub u32 : ℕ → ℕ
u32 n = n % 2 ^ 32

-- The wait in whole seconds, as duration_cast rounds it.
abbrev pub elapsed_seconds : ℕ → ℕ → ℕ
elapsed_seconds open_time now = (now - open_time) / 1000000000

-- The switch of `allow` on one circuit.
pub allow_in : CircuitBreakerConfig → CbState → CircuitState → ℕ → Bool × CircuitState
allow_in cfg closed s now = (true, s)
allow_in cfg open' s now =
    if leb cfg.timeout_seconds (elapsed_seconds s.open_time now)
    then (true, record s { state = half_open; success_count = 0; half_open_reqs = 1 })
    else (false, s)
allow_in cfg half_open s now =
    if ltb s.half_open_reqs cfg.half_open_max_reqs
    then (true, record s { half_open_reqs = u32 (s.half_open_reqs + 1) })
    else (false, s)

pub success_in : CircuitBreakerConfig → CbState → CircuitState → CircuitState
success_in cfg closed s = record s { failure_count = 0 }
success_in cfg open' s = s
success_in cfg half_open s =
    let n = u32 (s.success_count + 1) in
    if leb cfg.success_threshold n then fresh else record s { success_count = n }

pub failure_in : CircuitBreakerConfig → CbState → CircuitState → ℕ → CircuitState
failure_in cfg closed s now =
    let n = u32 (s.failure_count + 1) in
    if leb cfg.failure_threshold n
    then record s { failure_count = n; state = open'; open_time = now }
    else record s { failure_count = n }
failure_in cfg open' s now = s
failure_in cfg half_open s now = record s {
  state = open';
  open_time = now;
  success_count = 0;
  half_open_reqs = 0;
}

-- `_get_or_create`: the circuit of an address, a fresh one at its first use.
abbrev pub or_fresh : Option CircuitState → CircuitState
or_fresh none = fresh
or_fresh (some s) = s

pub circuit : PerIpCircuitBreaker → Str → CircuitState
circuit b ip = or_fresh (lookup ip b.states)

abbrev pub store : PerIpCircuitBreaker → Str → CircuitState → PerIpCircuitBreaker
store b ip s = record b { states = insert ip s b.states }

-- `!_cfg.enabled || ip.empty()`
abbrev pub is_exempt : CircuitBreakerConfig → Str → Bool
is_exempt cfg ip = not cfg.enabled || is_empty ip

unfoldable pub allow : PerIpCircuitBreaker → Str → ℕ → Bool × PerIpCircuitBreaker
unfolding allow_in circuit
allow b ip now =
    if is_exempt b.cfg ip
    then (true, b)
    else let s = circuit b ip in
      let (granted, s') = allow_in b.cfg s.state s now in (granted, store b ip s')

pub record_success : PerIpCircuitBreaker → Str → PerIpCircuitBreaker
unfolding success_in circuit
record_success b ip =
    if is_exempt b.cfg ip
    then b
    else let s = circuit b ip in store b ip (success_in b.cfg s.state s)

pub record_failure : PerIpCircuitBreaker → Str → ℕ → PerIpCircuitBreaker
unfolding failure_in circuit
record_failure b ip now =
    if is_exempt b.cfg ip
    then b
    else let s = circuit b ip in store b ip (failure_in b.cfg s.state s now)

-- An address that was never seen counts as CLOSED.
pub get_state : PerIpCircuitBreaker → Str → CbState
unfolding circuit
get_state b ip = elim (lookup ip b.states) [ some s ↦ s.state | none ↦ closed ]

pub reset : PerIpCircuitBreaker → Str → PerIpCircuitBreaker
reset b ip = record b { states = erase ip b.states }

pub data Operation : Type 0 where
  allows succeeds fails : Operation

-- One call of the three that transports make for an address.
pub step : PerIpCircuitBreaker → Str → ℕ → Operation → PerIpCircuitBreaker
unfolding allow record_success record_failure
step b ip now allows = (allow b ip now).1
step b ip now succeeds = record_success b ip
step b ip now fails = record_failure b ip now

-- The same on one circuit.
pub step_in : CircuitBreakerConfig → CircuitState → ℕ → Operation → CircuitState
unfolding allow_in success_in failure_in
step_in cfg s now allows = (allow_in cfg s.state s now).1
step_in cfg s now succeeds = success_in cfg s.state s
step_in cfg s now fails = failure_in cfg s.state s now
