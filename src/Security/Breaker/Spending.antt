-- ===== src/Security/Breaker/Spending.antt =====
-- How many probes PerIpCircuitBreaker.allow admits while no outcome is reported.
use mcp_server.Base.{
  ℕ, zero, suc, ◌+◌, ◌-◌, ◌^◌, ◌≤◌, ◌<◌, ◌≡◌, refl, sym, ap, ap₂, ◌∙◌, ◌%◌, subst, subst₂,
  if◌then◌else◌, ltb, leb, Bool, true, false, arith, Str, List, [], ◌∷◌,
}
use Prim.Native.Nat.{max}
use mcp_server.Security.Policy.{CircuitBreakerConfig}
use mcp_server.Security.Breaker.{
  open', half_open, CircuitState, PerIpCircuitBreaker, elapsed_seconds, allow_in, circuit,
  is_exempt, allow, allows, step, step_in,
}
use mcp_server.Security.Breaker.Transitions.{circuit-step, step-cfg}
use mcp_server.Security.Breaker.Probes.{allow-answer}

-- What `allow` answers at these times, with no call in between.
pub answers : PerIpCircuitBreaker → Str → List ℕ → List Bool
answers b ip [] = []
answers b ip (now ∷ times) = (allow b ip now).0 ∷ answers (step b ip now allows) ip times

-- The first `n` pass.
pub grants : ℕ → List ℕ → List Bool
grants n [] = []
grants zero (now ∷ times) = false ∷ grants zero times
grants (suc n) (now ∷ times) = true ∷ grants n times

abbrev HasLeft : CircuitBreakerConfig → CircuitState → ℕ → Type 0
HasLeft cfg s n =
    (s.state ≡ half_open)
    × (cfg.half_open_max_reqs - s.half_open_reqs ≡ n)
    × (cfg.half_open_max_reqs < 2 ^ 32)

refuses :
    (cfg : CircuitBreakerConfig) (s : CircuitState) (now : ℕ)
    → HasLeft cfg s 0
    → allow_in cfg s.state s now ≡ (false, s)
unfolding allow_in
refuses cfg s now (c, left, _) = rw c (ground (arith, left))

passes :
    (cfg : CircuitBreakerConfig) (s : CircuitState) (now n : ℕ)
    → HasLeft cfg s (suc n)
    → (t : CircuitState) × (allow_in cfg s.state s now ≡ (true, t)) × HasLeft cfg t n
unfolding allow_in
passes cfg s now n (c, left, small) =
    let room : ltb s.half_open_reqs cfg.half_open_max_reqs ≡ true = ground (arith, left) in
    let one_more : (s.half_open_reqs + 1) % 2 ^ 32 ≡ s.half_open_reqs + 1 =
      ground (arith, left, small) in
    (
      record s { half_open_reqs = s.half_open_reqs + 1 },
      ap (λ q. allow_in cfg q s now) c
          ∙ ap
              (λ b.
                if b
                then (true, record s { half_open_reqs = (s.half_open_reqs + 1) % 2 ^ 32 })
                else (false, s))
              room
          ∙ ap (λ k. (true, record s { half_open_reqs = k })) one_more,
      (c, omega (arith, left), small),
    )

answers-grants :
    (b : PerIpCircuitBreaker) (ip : Str) (n : ℕ) (times : List ℕ)
    → is_exempt b.cfg ip ≡ false
    → HasLeft b.cfg (circuit b ip) n
    → answers b ip times ≡ grants n times
unfolding answers grants step_in
answers-grants b ip n [] w h = refl
answers-grants b ip zero (now ∷ times) w h =
    let same = step-cfg b ip now allows in
    let asked = refuses b.cfg (circuit b ip) now h in
    let kept = circuit-step b ip now allows w ∙ ap (λ r. r.1) asked in
    ap₂ ◌∷◌ (allow-answer b ip now w ∙ ap (λ r. r.0) asked) (
      answers-grants (step b ip now allows) ip zero times
        (subst (λ c. is_exempt c ip ≡ false) (sym same) w)
        (subst₂ (λ c s. HasLeft c s 0) (sym same) (sym kept) h))
answers-grants b ip (suc n) (now ∷ times) w h =
    let same = step-cfg b ip now allows in
    let (t, asked, left) = passes b.cfg (circuit b ip) now n h in
    let kept = circuit-step b ip now allows w ∙ ap (λ r. r.1) asked in
    ap₂ ◌∷◌ (allow-answer b ip now w ∙ ap (λ r. r.0) asked) (
      answers-grants (step b ip now allows) ip n times
        (subst (λ c. is_exempt c ip ≡ false) (sym same) w)
        (subst₂ (λ c s. HasLeft c s n) (sym same) (sym kept) left))

-- The circuit of a watched address is OPEN and at `now` its time-out is over. Of the requests at `now`
-- and at any later times, while no outcome is reported, exactly the first half_open_max_reqs pass (one
-- where that is 0), and every one behind them is refused however late it comes: no time-out leads out
-- of HALF_OPEN.
pub answers-probes :
    (b : PerIpCircuitBreaker) (ip : Str) (now : ℕ) (times : List ℕ)
    → is_exempt b.cfg ip ≡ false
    → b.cfg.half_open_max_reqs < 2 ^ 32
    → (circuit b ip).state ≡ open'
    → b.cfg.timeout_seconds ≤ elapsed_seconds (circuit b ip).open_time now
    → answers b ip (now ∷ times) ≡ grants (max 1 b.cfg.half_open_max_reqs) (now ∷ times)
unfolding answers grants step_in allow_in
answers-probes b ip now times w small c late =
    let same = step-cfg b ip now allows in
    let over : leb b.cfg.timeout_seconds (elapsed_seconds (circuit b ip).open_time now) ≡ true =
      ground (arith, late) in
    let first : CircuitState = record (circuit b ip) {
      state = half_open;
      success_count = 0;
      half_open_reqs = 1;
    } in
    let asked : allow_in b.cfg (circuit b ip).state (circuit b ip) now ≡ (true, first) =
      rw (c, over) refl in
    let kept = circuit-step b ip now allows w ∙ ap (λ r. r.1) asked in
    let left : HasLeft b.cfg first (b.cfg.half_open_max_reqs - 1) = (refl, refl, small) in
    let all : max 1 b.cfg.half_open_max_reqs ≡ suc (b.cfg.half_open_max_reqs - 1) = omega arith in
    ap₂ ◌∷◌ (allow-answer b ip now w ∙ ap (λ r. r.0) asked) (
      answers-grants (step b ip now allows) ip (b.cfg.half_open_max_reqs - 1) times
        (subst (λ c. is_exempt c ip ≡ false) (sym same) w)
        (subst₂ (λ c s. HasLeft c s (b.cfg.half_open_max_reqs - 1)) (sym same) (sym kept) left))
    ∙ sym (ap (λ n. grants n (now ∷ times)) all)
