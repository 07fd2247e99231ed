-- ===== src/Security/Breaker/Failures.antt =====
-- PerIpCircuitBreaker.record_failure and record_success: when a run of outcomes trips the circuit.
use mathlib.Core.List.{append_assoc}
use mcp_server.Base.{
  ℕ, suc, ◌+◌, ◌^◌, ◌≤◌, ◌<◌, ◌≡◌, refl, sym, ap, ap₂, ◌∙◌, subst, ◌≢◌, ◌↔◌, ◌⊎◌, inl, inr, Bool,
  true, false, arith, Str, List, [], ◌∷◌, ◌++◌, length, length-append, All, All-append, Bool-cases,
  dec_lt,
}
use mcp_server.Security.Policy.{CircuitBreakerConfig}
use mcp_server.Security.Breaker.{
  CbState, closed, open', CircuitState, PerIpCircuitBreaker, success_in, failure_in, circuit,
  is_exempt, Operation, succeeds, fails, step, step_in,
}
use mcp_server.Security.Breaker.Transitions.{circuit-step, step-cfg}

-- What a transport reports of one request: whether it failed, and when.
pub record Report : Type 0 where
  pub failed : Bool
  pub now : ℕ

abbrev operation : Bool → Operation
operation true = fails
operation false = succeeds

pub reports : PerIpCircuitBreaker → Str → List Report → PerIpCircuitBreaker
reports b ip [] = b
reports b ip (r ∷ rs) = reports (step b ip r.now (operation r.failed)) ip rs

reports_in : CircuitBreakerConfig → CircuitState → List Report → CircuitState
reports_in cfg s [] = s
reports_in cfg s (r ∷ rs) = reports_in cfg (step_in cfg s r.now (operation r.failed)) rs

circuit-reports :
    (b : PerIpCircuitBreaker) (ip : Str) (rs : List Report)
    → is_exempt b.cfg ip ≡ false
    → circuit (reports b ip rs) ip ≡ reports_in b.cfg (circuit b ip) rs
unfolding reports reports_in
circuit-reports b ip [] h = refl
circuit-reports b ip (r ∷ rs) h =
    let o = operation r.failed in
    let same = step-cfg b ip r.now o in
    circuit-reports (step b ip r.now o) ip rs (subst (λ c. is_exempt c ip ≡ false) (sym same) h)
    ∙ ap₂ (λ c s. reports_in c s rs) same (circuit-step b ip r.now o h)

closed_not_open : ◌≢◌ {A = CbState} closed open'
closed_not_open = λ e. cc

abbrev HasFailed : Report → Type 0
HasFailed r = r.failed ≡ true

-- `n` failures in a row, somewhere in the history.
pub record Streak (n : ℕ) (rs : List Report) : Type 0 where
  pub before : List Report
  pub streak : List Report
  pub after : List Report
  pub splits : rs ≡ before ++ (streak ++ after)
  pub failures : All HasFailed streak
  pub long : length streak ≡ n

after_success :
    {n : ℕ} (before : List Report) (r : Report) (rs : List Report)
    → Streak n rs
    → Streak n (before ++ r ∷ rs)
after_success before r rs k = record {
  before = before ++ r ∷ k.before;
  streak = k.streak;
  after = k.after;
  splits =
      ap (λ l. before ++ r ∷ l) k.splits
      ∙ sym (append_assoc before (r ∷ k.before) (k.streak ++ k.after));
  failures = k.failures;
  long = k.long;
}

module _ (cfg : CircuitBreakerConfig) (small : cfg.failure_threshold < 2 ^ 32) where
  open cfg use {failure_threshold}

  -- Closed, with `n` failures counted.
  abbrev Counts : ℕ → CircuitState → Type 0
  Counts n s = (s.state ≡ closed) × (s.failure_count ≡ n) × (n < failure_threshold)

  fail-last :
      (s : CircuitState) (now n : ℕ)
      → Counts n s
      → suc n ≡ failure_threshold
      → (step_in cfg s now fails).state ≡ open'
  unfolding step_in failure_in
  fail-last s now n (c, m, l) e = rw c (ground arith)

  fail-more :
      (s : CircuitState) (now n : ℕ)
      → Counts n s
      → suc n < failure_threshold
      → Counts (suc n) (step_in cfg s now fails)
  unfolding step_in failure_in
  fail-more s now n (c, m, l) e = rw c (ground arith)

  succeed : (s : CircuitState) (now n : ℕ) → Counts n s → Counts 0 (step_in cfg s now succeeds)
  unfolding step_in success_in
  succeed s now n (c, m, l) = rw c (ground arith)

  open_ignores :
      (s : CircuitState) (now : ℕ) (f : Bool)
      → s.state ≡ open'
      → step_in cfg s now (operation f) ≡ s
  unfolding step_in failure_in success_in
  open_ignores s now true e = rw e
  open_ignores s now false e = rw e

  stays_open :
      (s : CircuitState) (rs : List Report) → s.state ≡ open' → (reports_in cfg s rs).state ≡ open'
  unfolding reports_in
  stays_open s [] e = e
  stays_open s (r ∷ rs) e =
      ap (λ t. (reports_in cfg t rs).state) (open_ignores s r.now r.failed e) ∙ stays_open s rs e

  -- A closed circuit that ends open has seen the streak, the failures counted before included.
  open-Streak :
      (s : CircuitState) (n : ℕ) (before rs : List Report)
      → Counts n s
      → length before ≡ n
      → All HasFailed before
      → (reports_in cfg s rs).state ≡ open'
      → Streak failure_threshold (before ++ rs)
  unfolding reports_in
  open-Streak s n before [] c l f e = absurd (closed_not_open (sym c.0 ∙ e))
  open-Streak s n before (r ∷ rs) c l f e = elim (Bool-cases r.failed) [
    | inl bad ↦
        let more : All HasFailed (before ++ r ∷ []) =
          All-append HasFailed before (r ∷ []) f (bad, tt) in
        let size : length (before ++ r ∷ []) ≡ suc n =
          omega (arith, length-append before (r ∷ []), l) in
        elim (dec_lt (suc n) failure_threshold) [
          | yes lt ↦ subst (Streak failure_threshold) (append_assoc before (r ∷ []) rs) (
              open-Streak (step_in cfg s r.now fails) (suc n) (before ++ r ∷ []) rs
                (fail-more s r.now n c lt) size more
                (subst (λ b. (reports_in cfg (step_in cfg s r.now (operation b)) rs).state ≡ open')
                  bad e))
          | no ge ↦ record {
            before = [];
            streak = before ++ r ∷ [];
            after = rs;
            splits = sym (append_assoc before (r ∷ []) rs);
            failures = more;
            long = omega (arith, size, c.2);
          }
        ]
    | inr good ↦ after_success before r rs (
        open-Streak (step_in cfg s r.now succeeds) 0 [] rs (succeed s r.now n c) refl tt (
          subst (λ b. (reports_in cfg (step_in cfg s r.now (operation b)) rs).state ≡ open') good
            e))
  ]

  reports_in-append :
      (s : CircuitState) (xs ys : List Report)
      → reports_in cfg s (xs ++ ys) ≡ reports_in cfg (reports_in cfg s xs) ys
  unfolding reports_in
  reports_in-append s [] ys = refl
  reports_in-append s (x ∷ xs) ys =
      reports_in-append (step_in cfg s x.now (operation x.failed)) xs ys

  -- Closed with some count, or open.
  abbrev Watching : CircuitState → Type 0
  Watching s = ((n : ℕ) × Counts n s) ⊎ (s.state ≡ open')

  step-Watching :
      (s : CircuitState) (r : Report)
      → Watching s
      → Watching (step_in cfg s r.now (operation r.failed))
  step-Watching s r (inr e) = inr (ap (λ t. t.state) (open_ignores s r.now r.failed e) ∙ e)
  step-Watching s r (inl (n, c)) = elim (Bool-cases r.failed) [
    | inl bad ↦
        subst (λ b. Watching (step_in cfg s r.now (operation b))) (sym bad)
          (elim (dec_lt (suc n) failure_threshold) [
            | yes lt ↦ inl (suc n, fail-more s r.now n c lt)
            | no ge ↦ inr (fail-last s r.now n c (omega (arith, c.2)))
          ])
    | inr good ↦
        subst (λ b. Watching (step_in cfg s r.now (operation b))) (sym good)
          (inl (0, succeed s r.now n c))
  ]

  reports_in-Watching :
      (s : CircuitState) (rs : List Report) → Watching s → Watching (reports_in cfg s rs)
  unfolding reports_in
  reports_in-Watching s [] w = w
  reports_in-Watching s (r ∷ rs) w =
      reports_in-Watching (step_in cfg s r.now (operation r.failed)) rs (step-Watching s r w)

  -- Enough failures in a row open a closed circuit.
  streak_opens :
      (s : CircuitState) (rs : List Report) (n : ℕ)
      → Counts n s
      → All HasFailed rs
      → failure_threshold ≤ n + length rs
      → (reports_in cfg s rs).state ≡ open'
  unfolding reports_in
  streak_opens s [] n c f h = absurd (omega (arith, c.2))
  streak_opens s (r ∷ rs) n c (bad, f) h =
      subst (λ b. (reports_in cfg (step_in cfg s r.now (operation b)) rs).state ≡ open') (sym bad)
        (elim (dec_lt (suc n) failure_threshold) [
          | yes lt ↦
              streak_opens (step_in cfg s r.now fails) rs (suc n) (fail-more s r.now n c lt) f
                (omega arith)
          | no ge ↦
              stays_open (step_in cfg s r.now fails) rs (fail-last s r.now n c (omega (arith, c.2)))
        ])

  Watching-opens :
      (s : CircuitState) (rs : List Report)
      → Watching s
      → All HasFailed rs
      → failure_threshold ≤ length rs
      → (reports_in cfg s rs).state ≡ open'
  Watching-opens s rs (inl (n, c)) f h = streak_opens s rs n c f (omega arith)
  Watching-opens s rs (inr e) f h = stays_open s rs e

  Streak-open :
      (s : CircuitState) (rs : List Report)
      → Watching s
      → Streak failure_threshold rs
      → (reports_in cfg s rs).state ≡ open'
  Streak-open s rs w k =
      let past = reports_in cfg s k.before in
      let seen =
        Watching-opens past k.streak (reports_in-Watching s k.before w) k.failures
          (omega (arith, k.long)) in
      ap (λ l. (reports_in cfg s l).state) k.splits
      ∙ ap (λ t. t.state) (reports_in-append s k.before (k.streak ++ k.after))
      ∙ ap (λ t. t.state) (reports_in-append past k.streak k.after)
      ∙ stays_open (reports_in cfg past k.streak) k.after seen

-- The circuit of a watched address that is CLOSED with no failure counted is OPEN after a series of
-- reports exactly when the series holds `failure_threshold` failures in a row, for a threshold of at
-- least 1 that fits uint32_t.
pub open_iff_Streak :
    (b : PerIpCircuitBreaker) (ip : Str) (rs : List Report)
    → is_exempt b.cfg ip ≡ false
    → (circuit b ip).state ≡ closed
    → (circuit b ip).failure_count ≡ 0
    → 0 < b.cfg.failure_threshold
    → b.cfg.failure_threshold < 2 ^ 32
    → ((circuit (reports b ip rs) ip).state ≡ open') ↔ Streak b.cfg.failure_threshold rs
open_iff_Streak b ip rs watched c z pos small =
    let s = circuit b ip in
    let same = ap (λ t. t.state) (circuit-reports b ip rs watched) in
    let counts : (s.state ≡ closed) × (s.failure_count ≡ 0) × (0 < b.cfg.failure_threshold) =
      (c, z, pos) in
    (
      λ e. open-Streak b.cfg small s 0 [] rs counts refl tt (sym same ∙ e),
      λ k. same ∙ Streak-open b.cfg small s rs (inl (0, counts)) k,
    )
