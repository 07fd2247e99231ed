-- ===== src/Rpc/Coroutines.antt =====
-- seastar coroutines over a shared state, cut at their suspensions. Between two pieces of one
-- coroutine other code of the core may run.
use mcp_server.Base.{
  ◌≡◌, refl, ap, subst, sym, Bool, Bool-cases, if_rule, inl, inr, if◌then◌else◌, Outcome,
}

-- A coroutine that was started: its result, or what it does to the state when it is resumed and how
-- it goes on from the state that it then finds.
pub data Coroutine (E S A : Type 0) : Type 0 where
  finished : Outcome E A → Coroutine E S A
  waiting : (S → S) → (S → Coroutine E S A) → Coroutine E S A

-- A started coroutine and the state that it left.
abbrev pub Started : Type 0 → Type 0 → Type 0 → Type 0
Started E S A = Coroutine E S A × S

-- Without anything else in between.
unfoldable pub run : {E S A : Type 0} → Coroutine E S A → S → Outcome E A × S
run (finished r) s = (r, s)
run (waiting effect next) s = run (next s) (effect s)

abbrev pub complete : {E S A : Type 0} → Started E S A → Outcome E A × S
complete (c, s) = run c s

module _ {E F S A B : Type 0} where
  -- A continuation that is scheduled behind what is ready on the core.
  abbrev pub suspended : (Outcome E A → S → Started F S B) → Outcome E A → Coroutine F S B
  suspended k r = waiting (λ s. (k r s).1) (λ s. (k r s).0)

  -- The coroutine that awaits one which is not finished: it is scheduled when that one is.
  unfoldable pub awaiting : Coroutine E S A → (Outcome E A → S → Started F S B) → Coroutine F S B
  awaiting (finished r) k = suspended k r
  awaiting (waiting effect next) k = waiting effect (λ s. awaiting (next s) k)

  -- `co_await`: where the future is ready the code goes on at once, unless the reactor asks for the
  -- core (`need_preempt`).
  unfoldable pub await :
      (S → Bool) → Started E S A → (Outcome E A → S → Started F S B) → Started F S B
  unfolding awaiting
  await need_preempt (finished r, s) k = if need_preempt s then (suspended k r, s) else k r s
  await need_preempt (waiting effect next, s) k = (waiting effect (λ t. awaiting (next t) k), s)

  -- What the awaiting coroutine does with the outcome and the state of the awaited one.
  abbrev pub continue : (Outcome E A → S → Started F S B) → Outcome E A × S → Outcome F B × S
  continue k (r, s) = complete (k r s)

  pub run-awaiting :
      (c : Coroutine E S A) (k : Outcome E A → S → Started F S B) (s : S)
      → run (awaiting c k) s ≡ continue k (run c s)
  unfolding run awaiting
  run-awaiting (finished r) k s = refl
  run-awaiting (waiting effect next) k s = run-awaiting (next s) k (effect s)

  -- Alone on the core, `co_await` runs the one and then the other.
  pub complete-await :
      (need_preempt : S → Bool) (c : Started E S A) (k : Outcome E A → S → Started F S B)
      → complete (await need_preempt c k) ≡ continue k (complete c)
  unfolding run await awaiting
  complete-await need_preempt (finished r, s) k = elim (Bool-cases (need_preempt s)) [
    | inl asked ↦ ap (λ b. complete (if b then (suspended k r, s) else k r s)) asked
    | inr free ↦ ap (λ b. complete (if b then (suspended k r, s) else k r s)) free
  ]
  complete-await need_preempt (waiting effect next, s) k = run-awaiting (next s) k (effect s)

-- However the state changes while the coroutine waits, it ends with this outcome.
unfoldable pub Yields : {E S A : Type 0} → Outcome E A → Coroutine E S A → Type 0
Yields {S} r (finished o) = o ≡ r
Yields {S} r (waiting effect next) = (s : S) → Yields r (next s)

pub Yields-run :
    {E S A : Type 0}
    → (r : Outcome E A) (c : Coroutine E S A) (s : S) → Yields r c
    → (run c s).0 ≡ r
unfolding Yields run
Yields-run r (finished o) s h = h
Yields-run r (waiting effect next) s h = Yields-run r (next s) (effect s) (h s)

module _ {E F S A B : Type 0} (r : Outcome E A) (o : Outcome F B)
    (k : Outcome E A → S → Started F S B) (ends : (s : S) → Yields o (k r s).0) where
  Yields-awaiting : (c : Coroutine E S A) → Yields r c → Yields o (awaiting c k)
  unfolding Yields awaiting
  Yields-awaiting (finished q) h = λ s. subst (λ x. Yields o (k x s).0) (sym h) (ends s)
  Yields-awaiting (waiting effect next) h = λ s. Yields-awaiting (next s) (h s)

  pub Yields-await :
      (need_preempt : S → Bool) (c : Coroutine E S A) (s : S)
      → Yields r c
      → Yields o (await need_preempt (c, s) k).0
  unfolding Yields await awaiting
  Yields-await need_preempt (finished q) s h =
      let now = subst (λ x. Yields o (k x s).0) (sym h) (ends s) in
      let later = λ (t : S). subst (λ x. Yields o (k x t).0) (sym h) (ends t) in
      if_rule (λ (x : Started F S B). Yields o x.0) (need_preempt s) (λ _. later) (λ _. now)
  Yields-await need_preempt (waiting effect next) s h = λ t. Yields-awaiting (next t) (h t)

-- Where what follows a co_await leaves the state, the state is the awaited coroutine's.
pub await-state :
    {E F S A B : Type 0}
    → (need_preempt : S → Bool) (c : Started E S A) (k : Outcome E A → S → Started F S B)
    → ((r : Outcome E A) (s : S) → (k r s).1 ≡ s)
    → (await need_preempt c k).1 ≡ c.1
unfolding await
await-state {F} {S} {B} need_preempt (finished r, s) k h =
    if_rule (λ (x : Started F S B). x.1 ≡ s) (need_preempt s) (λ _. refl) (λ _. h r s)
await-state need_preempt (waiting effect next, s) k h = refl
