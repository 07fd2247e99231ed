-- ===== src/Server/Sessions/History.antt =====
-- The session table over the calls that change it: create_session of the SSE transport,
-- create_session_with_id of the streamable transport under the next id of its own counter,
-- remove_session of either, and the pushes.
use mcp_server.Base.{
  ℕ, suc, ◌+◌, ◌%◌, ◌^◌, ◌<◌, ◌≤◌, ◌≡◌, refl, sym, subst, inl, inr, Bool, true, false, List, none,
  some, arith, if_rule, Bool-cases, Option-cases, leb, ◌&&◌, not, is_empty, ◌==◌, Str, str_eq,
  str_beq_iff, lookup, erase, lookup-erase, length,
}
use mcp_server.Security.Policy.{SecurityPolicy}
use mcp_server.Server.Ids.{session_id, streamable_id}
use mcp_server.Server.Sessions.{
  Sessions, no_sessions, create_session, create_session_with_id, remove_session, push_to_session,
  broadcast_notification, refuse, accept, count_or_zero, get_session, push, SseSession,
}
use mcp_server.Server.Sessions.Counting.{held-erase, Distinct-erase, erase-IsCounted, one_more_if}
use mcp_server.Server.Sessions.Soundness.{
  Issued, IsSound, no_sessions-IsSound, create_session_with_id-IsSound, session_id-fresh,
  streamable_id-fresh,
}

pub one_more_if-le_of : (b : Bool) (n m : ℕ) → one_more_if b n ≤ m → n ≤ m
one_more_if-le_of true n m h = omega arith
one_more_if-le_of false n m h = h

-- `adopted` is the counter of the streamable transport. Both counters together stay below 2^64.
pub data Reachable (policy : SecurityPolicy) (shard : ℕ) : ℕ → Sessions → Type 0 where
  starts : Reachable policy shard 0 (no_sessions policy shard)
  creates :
      {adopted : ℕ} {s : Sessions} (client_ip : Str)
      → s.session_counter + adopted + 1 < 2 ^ 64
      → Reachable policy shard adopted s
      → Reachable policy shard adopted (create_session s client_ip).1
  adopts :
      {adopted : ℕ} {s : Sessions} (client_ip : Str)
      → s.session_counter + adopted + 1 < 2 ^ 64
      → Reachable policy shard adopted s
      → Reachable policy shard
          (suc adopted)
          (create_session_with_id s (streamable_id shard (suc adopted)) client_ip)
  removes :
      {adopted : ℕ} {s : Sessions} (id : Str)
      → Reachable policy shard adopted s
      → Reachable policy shard adopted (remove_session s id)
  pushes :
      {adopted : ℕ} {s : Sessions} (id msg : Str)
      → Reachable policy shard adopted s
      → Reachable policy shard adopted (push_to_session s id msg)
  broadcasts :
      {adopted : ℕ} {s : Sessions} (msg : Str)
      → Reachable policy shard adopted s
      → Reachable policy shard adopted (broadcast_notification s msg)

accept-IsSound :
    (policy : SecurityPolicy) (shard adopted : ℕ) (s : Sessions) (client_ip : Str)
    → s.session_counter + adopted + 1 < 2 ^ 64
    → IsSound policy shard adopted s
    → IsSound policy shard adopted (accept s client_ip).1
unfolding accept
accept-IsSound policy shard adopted s client_ip room v =
    let next = suc s.session_counter in
    let wrap : (s.session_counter + 1) % 2 ^ 64 ≡ next = omega arith in
    subst
      (λ n. IsSound policy shard adopted (
        create_session_with_id (record s { session_counter = n }) (session_id s.shard_id n)
          client_ip))
      (sym wrap)
      (subst
        (λ here. IsSound policy shard adopted (
          create_session_with_id (record s { session_counter = next }) (session_id here next)
            client_ip))
        (sym v.shard_kept)
        (create_session_with_id-IsSound policy shard adopted adopted s next (session_id shard next)
          client_ip v (omega arith) (omega arith) (omega arith) (omega arith)
          (session_id-fresh policy shard adopted s v) (inl (next, omega arith, refl))))

create_session-IsSound :
    (policy : SecurityPolicy) (shard adopted : ℕ) (s : Sessions) (client_ip : Str)
    → s.session_counter + adopted + 1 < 2 ^ 64
    → IsSound policy shard adopted s
    → IsSound policy shard adopted (create_session s client_ip).1
unfolding create_session refuse accept
create_session-IsSound policy shard adopted s client_ip room v =
    let P : Str × Sessions → Type 0 = λ r. IsSound policy shard adopted r.1 in
    let limit = s.security.connection_limit in
    let refused : (event : Str) → P (refuse s event client_ip) = λ event. record {
      policy_kept = v.policy_kept;
      shard_kept = v.shard_kept;
      issued = v.issued;
      listed = v.listed;
      apart = v.apart;
      counted = v.counted;
      few = v.few;
    } in
    let accepted : P (accept s client_ip) =
      accept-IsSound policy shard adopted s client_ip room v in
    if_rule P limit.enabled
      (λ _.
        if_rule P (leb limit.max_total (length s.sessions)) (λ _. refused _)
          (λ _.
            if_rule P
              (not (is_empty client_ip)
                && leb limit.max_per_ip (count_or_zero (lookup client_ip s.ip_conn_count)))
              (λ _. refused _) (λ _. accepted)))
      (λ _. accepted)

remove_session-IsSound :
    (policy : SecurityPolicy) (shard adopted : ℕ) (s : Sessions) (id : Str)
    → IsSound policy shard adopted s
    → IsSound policy shard adopted (remove_session s id)
unfolding remove_session
remove_session-IsSound policy shard adopted s id v =
    let issued : (j : Str) (at_ : ℕ)
        → lookup j (erase id s.sessions) ≡ some at_
        → Issued shard s.session_counter adopted j =
      λ j at_ e. v.issued j at_ (ground (arith, lookup-erase id j s.sessions, e)) in
    elim (Option-cases (lookup id s.session_to_ip)) [
      | inl e ↦ rw e (record {
        policy_kept = v.policy_kept;
        shard_kept = v.shard_kept;
        issued = issued;
        listed = λ j n. elim (Bool-cases (id == j)) [
          | inl same ↦ subst (λ x. lookup x s.session_to_ip ≡ none) ((str_beq_iff id j).0 same) e
          | inr other ↦ v.listed j (ground (arith, lookup-erase id j s.sessions, n, other))
        ];
        apart = v.apart;
        counted = v.counted;
        few = v.few;
      })
      | inr (ip, e) ↦ rw e (record {
        policy_kept = v.policy_kept;
        shard_kept = v.shard_kept;
        issued = issued;
        listed = λ j n. elim (Bool-cases (id == j)) [
          | inl same ↦ ground (arith, lookup-erase id j s.session_to_ip, same)
          | inr other ↦ ground (
            arith,
            lookup-erase id j s.session_to_ip,
            v.listed j (ground (arith, lookup-erase id j s.sessions, n, other)),
            other,
          )
        ];
        apart = Distinct-erase id s.session_to_ip v.apart;
        counted = erase-IsCounted s.ip_conn_count s.session_to_ip id ip v.apart e v.counted;
        few = λ j. one_more_if-le_of (ip == j) _ _ (
            subst (λ n. n ≤ s.session_counter + adopted)
              (held-erase j id ip s.session_to_ip v.apart e) (v.few j));
      })
    ]

with_heap :
    (policy : SecurityPolicy) (shard adopted : ℕ) (s : Sessions) (heap : List SseSession)
    → IsSound policy shard adopted s
    → IsSound policy shard adopted (record s { heap = heap })
with_heap policy shard adopted s heap v = record {
  policy_kept = v.policy_kept;
  shard_kept = v.shard_kept;
  issued = v.issued;
  listed = v.listed;
  apart = v.apart;
  counted = v.counted;
  few = v.few;
}

pub Reachable-IsSound :
    (policy : SecurityPolicy) (shard : ℕ) {adopted : ℕ} {s : Sessions}
    → Reachable policy shard adopted s
    → IsSound policy shard adopted s
unfolding push_to_session broadcast_notification
Reachable-IsSound policy shard starts = no_sessions-IsSound policy shard
Reachable-IsSound policy shard (creates {adopted} {s} client_ip room r) =
    create_session-IsSound policy shard adopted s client_ip room (Reachable-IsSound policy shard r)
Reachable-IsSound policy shard (adopts {adopted} {s} client_ip room r) =
    let v = Reachable-IsSound policy shard r in
    create_session_with_id-IsSound policy shard adopted (suc adopted) s s.session_counter
      (streamable_id shard (suc adopted)) client_ip v (omega arith) (omega arith) (omega arith)
      (omega arith) (streamable_id-fresh policy shard adopted s v)
      (inr (suc adopted, omega arith, refl))
Reachable-IsSound policy shard (removes {adopted} {s} id r) =
    remove_session-IsSound policy shard adopted s id (Reachable-IsSound policy shard r)
Reachable-IsSound policy shard (pushes {adopted} {s} id msg r) =
    let v = Reachable-IsSound policy shard r in
    elim (get_session s id)
      as (λ o.
        IsSound policy shard adopted
          (elim o [ none ↦ s | some at_ ↦ record s { heap = push s.heap at_ msg } ])) [
            | none ↦ v
            | some at_ ↦ with_heap policy shard adopted s _ v
          ]
Reachable-IsSound policy shard (broadcasts {adopted} {s} msg r) =
    with_heap policy shard adopted s _ (Reachable-IsSound policy shard r)
