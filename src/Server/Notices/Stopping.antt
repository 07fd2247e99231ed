-- ===== src/Server/Notices/Stopping.antt =====
-- What McpShard::stop leaves of its sessions and of its requests to clients.
use mathlib.Core.List.{append_assoc}
use mcp_server.Base.{
  ℕ, ◌≡◌, refl, ap, ◌∙◌, ◌≢◌, ◌⊎◌, ltb, length, arith, Bool, true, false, List, [], ◌∷◌, ◌++◌,
  Option, some, inl, inr, Bool-cases, Option-cases, if◌then◌else◌, ◌==◌, nat_eq, nat_beq_iff, Str,
  str_eq, lit, get_elem?, set, get_elem?-set_self, get_elem?-set_ne, Dict, lookup, All,
}
use mcp_server.Json.{JsonLib}
use mcp_server.Server.Sessions.{SseSession, get_session}
use mcp_server.Server.Requests.{Settlement, failure, fail_all, stop_requests}
use mcp_server.Server.Routes.{deactivate, deactivate_at}
use mcp_server.Server.Dispatch.{McpShard}
use mcp_server.Server.Notices.{end_streams, stop}

-- `y` has the empty message, at which its stream ends, behind the messages of `x`, or the queue of `x`
-- was full and holds what it held.
abbrev pub IsClosed : SseSession → SseSession → Type 0
IsClosed x y =
    (y.active ≡ false)
    × (((rest : List Str) × (y.messages ≡ x.messages ++ [] ∷ rest))
        ⊎ (ltb (length x.messages) 100 ≡ false) × (y.messages ≡ x.messages))

deactivate-IsClosed : (x : SseSession) → IsClosed x (deactivate x)
unfolding deactivate
deactivate-IsClosed x = elim (Bool-cases (ltb (length x.messages) 100)) [
  | inl room ↦ rw room (refl, inl ([], refl))
  | inr full ↦ rw full (refl, inr (refl, refl))
]

deactivate-still : (x y : SseSession) → IsClosed x y → IsClosed x (deactivate y)
unfolding deactivate
deactivate-still x y (off, h) = elim (Bool-cases (ltb (length y.messages) 100)) [
  | inl room ↦ elim h [
    | inl (rest, e) ↦ rw room (
      refl,
      inl (
        rest ++ [] ∷ [],
        ap (λ m. m ++ [] ∷ []) e ∙ append_assoc x.messages ([] ∷ rest) ([] ∷ []),
      ),
    )
    | inr (full, e) ↦ absurd (ground (arith, room, full, ap length e))
  ]
  | inr full ↦ rw full (refl, h)
]

-- The session at `k`, which was `x`, is closed.
abbrev pub IsEnded : ℕ → SseSession → List SseSession → Type 0
IsEnded k x heap = (y : SseSession) × (get_elem? heap k ≡ some y) × IsClosed x y

deactivate_at_self :
    (heap : List SseSession) (k : ℕ) (x : SseSession)
    → get_elem? heap k ≡ some x
    → get_elem? (deactivate_at heap k) k ≡ some (deactivate x)
unfolding deactivate_at
deactivate_at_self heap k x e = rw (deactivate_at, e) (get_elem?-set_self heap k (deactivate x) x e)

deactivate_at_ne :
    (heap : List SseSession) (k j : ℕ)
    → k ≢ j
    → get_elem? (deactivate_at heap k) j ≡ get_elem? heap j
unfolding deactivate_at
deactivate_at_ne heap k j n = elim (Option-cases (get_elem? heap k)) [
  | inl e ↦ rw (deactivate_at, e) refl
  | inr (x, e) ↦ rw (deactivate_at, e) (get_elem?-set_ne heap k j (deactivate x) n)
]

deactivate_at-IsEnded :
    (heap : List SseSession) (at_ k : ℕ) (x : SseSession)
    → IsEnded k x heap
    → IsEnded k x (deactivate_at heap at_)
deactivate_at-IsEnded heap at_ k x (y, e, h) = elim (Bool-cases (at_ == k)) [
  | inl same ↦ (
    deactivate y,
    ap (λ j. get_elem? (deactivate_at heap j) k) ((nat_beq_iff at_ k).0 same)
        ∙ deactivate_at_self heap k y e,
    deactivate-still x y h,
  )
  | inr differs ↦ (y, deactivate_at_ne heap at_ k (ground (arith, differs)) ∙ e, h)
]

end_streams-IsEnded :
    (heap : List SseSession) (table : Dict Str ℕ) (k : ℕ) (x : SseSession)
    → IsEnded k x heap
    → IsEnded k x (end_streams heap table)
unfolding end_streams
end_streams-IsEnded heap [] k x h = h
end_streams-IsEnded heap ((id, at_) ∷ table) k x h =
    end_streams-IsEnded (deactivate_at heap at_) table k x (deactivate_at-IsEnded heap at_ k x h)

behind :
    (b : Bool) (at_ k : ℕ) (o : Option ℕ)
    → at_ ≢ k
    → (if b then some at_ else o) ≡ some k
    → o ≡ some k
behind true at_ k o n e = absurd (n (cc))
behind false at_ k o n e = e

-- Every session of the table is ended.
end_streams_lem :
    (heap : List SseSession) (table : Dict Str ℕ) (id : Str) (k : ℕ) (x : SseSession)
    → lookup id table ≡ some k
    → get_elem? heap k ≡ some x
    → IsEnded k x (end_streams heap table)
unfolding end_streams lookup
end_streams_lem heap [] id k x e f = absurd (cc)
end_streams_lem heap ((other, at_) ∷ table) id k x e f = elim (Bool-cases (at_ == k)) [
  | inl same ↦
      let is = (nat_beq_iff at_ k).0 same in
      end_streams-IsEnded (deactivate_at heap at_) table k x (
        deactivate x,
        ap (λ j. get_elem? (deactivate_at heap j) k) is ∙ deactivate_at_self heap k x f,
        deactivate-IsClosed x,
      )
  | inr differs ↦
      end_streams_lem (deactivate_at heap at_) table id k x
        (behind (other == id) at_ k (lookup id table) (ground (arith, differs)) e)
        (deactivate_at_ne heap at_ k (ground (arith, differs)) ∙ f)
]

module _ (js : JsonLib) where
  abbrev stopped : Option (Settlement js)
  stopped = some (failure (lit "server stopped"))

  abbrev Futures : Type 0
  Futures = List (Option (Settlement js))

  fail_all-failed :
      (futures : Futures) (table : Dict ℕ ℕ) (cell : ℕ)
      → get_elem? futures cell ≡ some stopped
      → get_elem? (fail_all js futures table) cell ≡ some stopped
  unfolding fail_all
  fail_all-failed futures [] cell e = e
  fail_all-failed futures ((id, at_) ∷ table) cell e = elim (Bool-cases (at_ == cell)) [
    | inl same ↦
        let is = (nat_beq_iff at_ cell).0 same in
        fail_all-failed (set futures at_ stopped) table cell (
          ap (λ j. get_elem? (set futures j stopped) cell) is
          ∙ get_elem?-set_self futures cell stopped stopped e)
    | inr differs ↦
        fail_all-failed (set futures at_ stopped) table cell
          (get_elem?-set_ne futures at_ cell stopped (ground (arith, differs)) ∙ e)
  ]

  -- Every request of the table fails.
  fail_all-waiting :
      (futures : Futures) (table : Dict ℕ ℕ) (id cell : ℕ) (v : Option (Settlement js))
      → lookup id table ≡ some cell
      → get_elem? futures cell ≡ some v
      → get_elem? (fail_all js futures table) cell ≡ some stopped
  unfolding fail_all lookup
  fail_all-waiting futures [] id cell v e f = cc
  fail_all-waiting futures ((other, at_) ∷ table) id cell v e f = elim (Bool-cases (at_ == cell)) [
    | inl same ↦
        let is = (nat_beq_iff at_ cell).0 same in
        fail_all-failed (set futures at_ stopped) table cell (
          ap (λ j. get_elem? (set futures j stopped) cell) is
          ∙ get_elem?-set_self futures cell stopped v f)
    | inr differs ↦
        fail_all-waiting (set futures at_ stopped) table id cell v
          (behind (other == id) at_ cell (lookup id table) (ground (arith, differs)) e)
          (get_elem?-set_ne futures at_ cell stopped (ground (arith, differs)) ∙ f)
  ]

  -- Any other future is as before.
  fail_all-settled :
      (futures : Futures) (table : Dict ℕ ℕ) (cell : ℕ)
      → All (λ p. p.1 ≢ cell) table
      → get_elem? (fail_all js futures table) cell ≡ get_elem? futures cell
  unfolding fail_all
  fail_all-settled futures [] cell h = refl
  fail_all-settled futures ((id, at_) ∷ table) cell (n, h) =
      fail_all-settled (set futures at_ stopped) table cell h
      ∙ get_elem?-set_ne futures at_ cell stopped n

  -- A shard that stops: its tables of sessions and of waiting requests are empty.
  module _ (W : Type 0) (s : McpShard js W) where
    pub stop_empties :
        ((stop js W s).world.sessions.sessions ≡ [])
        × ((stop js W s).world.requests.pending_client_requests ≡ [])
    unfolding stop stop_requests
    stop_empties = (refl, refl)

    pub stop-IsEnded :
        (id : Str) (k : ℕ) (x : SseSession)
        → get_session s.world.sessions id ≡ some k
        → get_elem? s.world.sessions.heap k ≡ some x
        → IsEnded k x (stop js W s).world.sessions.heap
    unfolding stop get_session
    stop-IsEnded id k x e f =
        end_streams_lem s.world.sessions.heap s.world.sessions.sessions id k x e f

    pub stop-failed :
        (id cell : ℕ) (v : Option (Settlement js))
        → lookup id s.world.requests.pending_client_requests ≡ some cell
        → get_elem? s.world.requests.futures cell ≡ some v
        → get_elem? (stop js W s).world.requests.futures cell
          ≡ some (some (failure (lit "server stopped")))
    unfolding stop stop_requests
    stop-failed id cell v e f =
        fail_all-waiting s.world.requests.futures s.world.requests.pending_client_requests id cell v
          e f

    pub stop-settled :
        (cell : ℕ)
        → All (λ p. p.1 ≢ cell) s.world.requests.pending_client_requests
        → get_elem? (stop js W s).world.requests.futures cell
          ≡ get_elem? s.world.requests.futures cell
    unfolding stop stop_requests
    stop-settled cell h =
        fail_all-settled s.world.requests.futures s.world.requests.pending_client_requests cell h
