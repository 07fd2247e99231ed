-- ===== src/Security/Breaker/Tests.antt =====
-- PerIpCircuitBreaker: a run through its states, and the theorems at concrete inputs.
use Prim.Native.Nat.{max}
use mcp_server.Base.{
  ℕ, ◌≤◌, ◌≡◌, refl, ◌≢◌, ◌↔◌, true, false, List, [], ◌∷◌, arith, Str, str_beq, lookup, insert,
  erase, ◌*◌,
}
use mcp_server.Security.Policy.{CircuitBreakerConfig}
use mcp_server.Security.Breaker.{
  closed, open', half_open, CircuitState, PerIpCircuitBreaker, circuit, allow, record_success,
  record_failure, get_state, reset, allows, fails, step, is_exempt,
}
use mcp_server.Security.Breaker.Transitions.{Call, run, IsWithin, run-IsWithin}
use mcp_server.Security.Breaker.Failures.{Report, reports, Streak, open_iff_Streak}
use mcp_server.Security.Breaker.Spending.{answers, grants, answers-probes}
use mcp_server.Security.Breaker.Probes.{Event, Exchange, idle, admits, high_threshold_never_closes}

abbrev cfg : CircuitBreakerConfig
cfg = record {
  enabled = true;
  failure_threshold = 2;
  success_threshold = 2;
  timeout_seconds = 30;
  half_open_max_reqs = 1;
}

abbrev client : Str
client = 49 ∷ []

abbrev second : ℕ
second = 1000000000

abbrev new : PerIpCircuitBreaker
new = record { cfg = cfg; states = [] }

abbrev in_state : CircuitState → PerIpCircuitBreaker
in_state s = record { cfg = cfg; states = (client, s) ∷ [] }

abbrev tripped : CircuitState
tripped = record {
  state = open';
  failure_count = 2;
  success_count = 0;
  half_open_reqs = 0;
  open_time = 5;
}

abbrev probing : CircuitState
probing = record tripped { state = half_open; half_open_reqs = 1 }

abbrev failure : ℕ → Report
failure t = record { failed = true; now = t }

abbrev asked : ℕ → Event
asked t = record { now = t; operation = allows }

-- The whole cycle: two failures trip the circuit, it cools for 30 s, one probe is let through, and a
-- failed probe trips it again.
breaker_cycle :
    (step (step new client 1 fails) client 2 fails ≡ in_state (record tripped { open_time = 2 }))
    × ((allow (in_state tripped) client (29 * second)).0 ≡ false)
    × (allow (in_state tripped) client (31 * second) ≡ (true, in_state probing))
    × ((allow (in_state probing) client (99 * second)).0 ≡ false)
    × (get_state (record_failure (in_state probing) client 7) client ≡ open')
    × (get_state (reset (in_state probing) client) client ≡ closed)
    × (get_state (record_success (record_success (in_state probing) client) client) client ≡ closed)
unfolding step allow record_success record_failure get_state reset lookup insert erase str_beq
breaker_cycle = (refl, refl, refl, refl, refl, refl, refl)

watched : is_exempt cfg client ≡ false
watched = refl

circuit-tripped : circuit (in_state tripped) client ≡ tripped
unfolding circuit lookup str_beq
circuit-tripped = refl

circuit-probing : circuit (in_state probing) client ≡ probing
unfolding circuit lookup str_beq
circuit-probing = refl

abbrev history : List Call
history =
    record { ip = client; now = 1; operation = fails }
    ∷ record { ip = client; now = 2; operation = fails }
    ∷ record { ip = client; now = 40 * second; operation = allows }
    ∷ []

run-IsWithin_example : IsWithin cfg (circuit (run new history) client)
run-IsWithin_example = run-IsWithin cfg history client

open_iff_Streak_example :
    ((circuit (reports new client (failure 1 ∷ failure 2 ∷ [])) client).state ≡ open')
    ↔ Streak 2 (failure 1 ∷ failure 2 ∷ [])
unfolding circuit lookup
open_iff_Streak_example =
    open_iff_Streak new client (failure 1 ∷ failure 2 ∷ []) watched refl refl (omega arith)
      (omega arith)

one_probe :
    Exchange client (in_state tripped) 0 (step (in_state tripped) client (31 * second) allows) 1
unfolding allow lookup str_beq
one_probe = admits (31 * second) idle refl

high_threshold_never_closes_example :
    ((circuit (step (in_state tripped) client (31 * second) allows) client).state ≢ closed)
    × (1 ≤ max 1 1)
unfolding circuit lookup str_beq
high_threshold_never_closes_example =
    high_threshold_never_closes client (in_state tripped) watched (omega arith) (omega arith) refl
      (step (in_state tripped) client (31 * second) allows) 1 one_probe

answers-probes_example :
    answers (in_state tripped) client (31 * second ∷ 32 * second ∷ 1000 * second ∷ [])
    ≡ grants (max 1 1) (31 * second ∷ 32 * second ∷ 1000 * second ∷ [])
unfolding lookup str_beq circuit
answers-probes_example =
    answers-probes (in_state tripped) client (31 * second) (32 * second ∷ 1000 * second ∷ []) refl
      (omega arith) refl (omega arith)
