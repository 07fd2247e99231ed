-- ===== src/Transport/Stdio/Stopping.antt =====
-- Which lines StdioTransport answers before its stop.
use mcp_server.Base.{
  ℕ, zero, suc, ◌≡◌, refl, sym, ap, subst, ◌∙◌, Bool, true, false, inl, inr, Bool-cases, List, [],
  ◌∷◌, ◌++◌, Option, none, some, if◌then◌else◌, Str, is_empty, take, Outcome, returned, thrown,
}
use mcp_server.Json.{JsonLib}
use mcp_server.Rpc.Dispatcher.{Escape, JsonRpcDispatcher, RpcReply}
use mcp_server.Server.Dispatch.{McpShard, dispatch}
use mcp_server.Transport.Stdio.{
  ThreadPhase, over, in_dispatch, next_line, result_line, StdioTransport, start, loop,
  after_dispatch, resume_at, resume, stop, joined,
}

abbrev pub nonempty : List Str → List Str
nonempty [] = []
nonempty (line ∷ lines) = let rest = nonempty lines in if is_empty line then rest else line ∷ rest

module _ (js : JsonLib) (W : Type 0) (d : JsonRpcDispatcher js (McpShard js W)) where
  abbrev pub Answers : Type 0
  Answers = Str × Outcome Escape (Unit {0}) × McpShard js W

  -- The lines one after another: each reply on a line of its own, up to the first exception.
  abbrev answer_next :
      (Str → McpShard js W → Answers) → Str → RpcReply js (McpShard js W) × McpShard js W → Answers
  answer_next rest out (thrown e, shard) = (out, thrown e, shard)
  answer_next rest out (returned result, shard) = rest (out ++ result_line result) shard

  abbrev pub answers : List Str → Str → McpShard js W → Answers
  answers [] out shard = (out, returned tt, shard)
  answers (line ∷ lines) out shard = answer_next (answers lines) out (dispatch js W d line [] shard)

  abbrev pub resumes : ℕ → StdioTransport js W → StdioTransport js W
  resumes zero s = s
  resumes (suc n) s = resumes n (resume js W d s)

  -- The thread has ended with these answers, and its stop is ready.
  pub record Ends (s : StdioTransport js W) (a : Answers) : Type 0 where
    pub thread : s.thread ≡ some (over a.1)
    pub cout : s.cout ≡ a.0
    pub shard : s.shard ≡ a.2
    stopped : StdioTransport js W
    pub ready : joined js W s.thread s ≡ some (a.1, stopped)

  pub stopped_by : ℕ → ℕ → StdioTransport js W → StdioTransport js W
  stopped_by k m s = resumes (suc m) (stop js W (resumes k s))

  abbrev at_phase : ThreadPhase → Bool → List Str → Str → McpShard js W → StdioTransport js W
  at_phase phase stop_requested cin cout shard = record {
    thread = some phase;
    stop_requested = stop_requested;
    cin = cin;
    cout = cout;
    shard = shard;
  }

  resumes-over :
      (n : ℕ) (o : Outcome Escape (Unit {0})) (b : Bool) (cin : List Str) (cout : Str)
      (shard : McpShard js W)
      → resumes n (at_phase (over o) b cin cout shard) ≡ at_phase (over o) b cin cout shard
  unfolding resume resume_at
  resumes-over zero o b cin cout shard = refl
  resumes-over (suc n) o b cin cout shard = resumes-over n o b cin cout shard

  over-Ends :
      (o : Outcome Escape (Unit {0})) (b : Bool) (cin : List Str) (cout : Str)
      (shard : McpShard js W)
      → Ends (at_phase (over o) b cin cout shard) (cout, o, shard)
  over-Ends (returned tt) b cin cout shard = record {
    thread = refl;
    cout = refl;
    shard = refl;
    stopped = record (at_phase (over (returned tt)) b cin cout shard) { thread = none };
    ready = refl;
  }
  over-Ends (thrown e) b cin cout shard = record {
    thread = refl;
    cout = refl;
    shard = refl;
    stopped = at_phase (over (thrown e)) b cin cout shard;
    ready = refl;
  }

  -- A thread that has ended is the same whenever it is stopped.
  stopped_by-over :
      (k m : ℕ) (o : Outcome Escape (Unit {0})) (cin : List Str) (cout : Str)
      (shard : McpShard js W)
      → Ends (stopped_by k m (at_phase (over o) false cin cout shard)) (cout, o, shard)
  unfolding stopped_by stop
  stopped_by-over k m o cin cout shard =
      let runs : stopped_by k m (at_phase (over o) false cin cout shard)
          ≡ at_phase (over o) true cin cout shard =
        ap (λ s. resumes (suc m) (stop js W s)) (resumes-over k o false cin cout shard)
        ∙ resumes-over (suc m) o true cin cout shard in
      subst (λ s. Ends s (cout, o, shard)) (sym runs) (over-Ends o true cin cout shard)

  looping : List Str → Str → McpShard js W → StdioTransport js W
  looping cin cout shard =
      let (phase, lines) = next_line false cin in at_phase phase false lines cout shard

  -- The reply that waits when the stop comes is still written.
  last_answer-Ends :
      (m : ℕ) (r : RpcReply js (McpShard js W) × McpShard js W) (cin : List Str) (cout : Str)
      (t : ThreadPhase) (shard : McpShard js W)
      → Ends
          (resumes m (after_dispatch js W r (at_phase t true cin cout shard)))
          (answer_next (answers []) cout r)
  unfolding loop after_dispatch
  last_answer-Ends m (thrown e, after) cin cout t shard =
      subst (λ s. Ends s (cout, thrown e, after))
        (sym (resumes-over m (thrown e) true cin cout after))
        (over-Ends (thrown e) true cin cout after)
  last_answer-Ends m (returned result, after) cin cout t shard =
      subst (λ s. Ends s (cout ++ result_line result, returned tt, after))
        (sym (resumes-over m (returned tt) true cin (cout ++ result_line result) after))
        (over-Ends (returned tt) true cin (cout ++ result_line result) after)

  module _ (k m : ℕ)
      (waits : (line : Str) (cin : List Str) (cout : Str) (shard : McpShard js W)
        → Ends
            (stopped_by k m (at_phase (in_dispatch line) false cin cout shard))
            (answers (take (suc k) (line ∷ nonempty cin)) cout shard)) where
    looping-Ends :
        (cin : List Str) (cout : Str) (shard : McpShard js W)
        → Ends
            (stopped_by k m (looping cin cout shard))
            (answers (take (suc k) (nonempty cin)) cout shard)
    unfolding looping
    looping-Ends [] cout shard = stopped_by-over k m (returned tt) [] cout shard
    looping-Ends (line ∷ cin) cout shard = elim (Bool-cases (is_empty line)) [
      | inl empty ↦ rw empty (looping-Ends cin cout shard)
      | inr full ↦ rw full (waits line cin cout shard)
    ]

    next-Ends :
        (r : RpcReply js (McpShard js W) × McpShard js W) (cin : List Str) (cout : Str)
        (t : ThreadPhase) (shard : McpShard js W)
        → Ends
            (stopped_by k m (after_dispatch js W r (at_phase t false cin cout shard)))
            (answer_next (answers (take (suc k) (nonempty cin))) cout r)
    unfolding loop looping after_dispatch
    next-Ends (thrown e, after) cin cout t shard = stopped_by-over k m (thrown e) cin cout after
    next-Ends (returned result, after) cin cout t shard =
        looping-Ends cin (cout ++ result_line result) after

  in_dispatch-Ends :
      (k m : ℕ) (line : Str) (cin : List Str) (cout : Str) (shard : McpShard js W)
      → Ends
          (stopped_by k m (at_phase (in_dispatch line) false cin cout shard))
          (answers (take (suc k) (line ∷ nonempty cin)) cout shard)
  unfolding stopped_by resume resume_at stop
  in_dispatch-Ends zero m line cin cout shard =
      last_answer-Ends m (dispatch js W d line [] shard) cin cout (in_dispatch line) shard
  in_dispatch-Ends (suc k) m line cin cout shard =
      next-Ends k m (in_dispatch-Ends k m) (dispatch js W d line [] shard) cin cout
        (in_dispatch line) shard

  -- The transport starts, which runs its thread up to the first wait for dispatch or to its end, the
  -- thread runs `k` times more, each time up to the next wait or to its end, then stop is called and
  -- the thread runs at least once more: it has ended and the future of stop is ready. The first
  -- `k + 1` lines that are not empty, or all where there are fewer, were dispatched in order, each reply
  -- stands on a line of its own, and no further line was. An exception of dispatch ends the thread, its
  -- line is the last, and the future of stop fails with it.
  pub start-stop :
      (k m : ℕ) (cin : List Str) (shard : McpShard js W) (thread : Option ThreadPhase)
      → Ends
          (stopped_by k m (
            start js W (record {
              thread = thread;
              stop_requested = false;
              cin = cin;
              cout = [];
              shard = shard;
            })))
          (answers (take (suc k) (nonempty cin)) [] shard)
  unfolding start loop looping
  start-stop k m cin shard thread = looping-Ends k m (in_dispatch-Ends k m) cin [] shard
