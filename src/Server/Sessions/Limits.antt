-- ===== src/Server/Sessions/Limits.antt =====
-- The connection limit of McpShard::create_session.
use mcp_server.Base.{
  ℕ, suc, ◌+◌, ◌%◌, ◌^◌, ◌<◌, ◌≤◌, ◌≡◌, refl, sym, ap, ◌∙◌, subst, ap₂, str_beq_iff, inl, inr, Bool,
  true, false, none, some, [], ◌∷◌, arith, if_rule, Bool-cases, Option-cases, leb, ◌&&◌, not,
  is_empty, ◌==◌, Str, str_eq, Dict, lookup, insert, erase, length,
}
use mcp_server.Security.Policy.{SecurityPolicy}
use mcp_server.Server.Ids.{session_id}
use mcp_server.Server.Sessions.{
  Sessions, create_session, create_session_with_id, remove_session, push_to_session,
  broadcast_notification, refuse, accept, add_session, track_ip_conn, count_or_zero, get_session,
  push,
}
use mcp_server.Server.Sessions.Counting.{held, held-insert, held-erase, one_more_if, stored-or_zero}
use mcp_server.Server.Sessions.Soundness.{IsSound, session_id-fresh}
use mcp_server.Server.Sessions.Owners.{owners, Reachable-Keeps}
use mcp_server.Server.Sessions.Addresses.{is_some}
use mcp_server.Server.Sessions.History.{
  Reachable, starts, creates, adopts, removes, pushes, broadcasts, Reachable-IsSound,
  one_more_if-le_of,
}

length-insert {ℓ} :
    {V : Type ℓ} (key : Str) (v : V) (d : Dict Str V)
    → lookup key d ≡ none
    → length (insert key v d) ≡ suc (length d)
unfolding lookup insert
length-insert key v [] e = refl
length-insert key v ((k, w) ∷ rest) e = elim (Bool-cases (k == key)) [
  | inl same ↦ absurd (ground (arith, e, same))
  | inr other ↦ rw other (ap suc (length-insert key v rest (ground (arith, e, other))))
]

length-erase {ℓ} : {V : Type ℓ} (key : Str) (d : Dict Str V) → length (erase key d) ≤ length d
unfolding erase
length-erase key [] = omega arith
length-erase key ((k, w) ∷ rest) =
    if_rule (λ (m : Dict Str _). length m ≤ suc (length rest)) (k == key)
      (λ _. omega (arith, length-erase key rest)) (λ _. omega (arith, length-erase key rest))

-- The tables within the limits.
abbrev pub IsLimited : SecurityPolicy → Sessions → Type 0
IsLimited policy s =
    (length s.sessions ≤ policy.connection_limit.max_total)
    × ((ip : Str) → held ip s.session_to_ip ≤ policy.connection_limit.max_per_ip)

one_more_if-le_max : (b : Bool) (n m : ℕ) → n ≤ m → (b ≡ true → n < m) → one_more_if b n ≤ m
one_more_if-le_max true n m h l = omega (arith, l refl)
one_more_if-le_max false n m h l = h

create_session_with_id-IsLimited :
    (policy : SecurityPolicy) (s : Sessions) (counter : ℕ) (id client_ip : Str)
    → lookup id s.sessions ≡ none
    → lookup id s.session_to_ip ≡ none
    → length s.sessions < policy.connection_limit.max_total
    → (not (is_empty client_ip) ≡ true
        → held client_ip s.session_to_ip < policy.connection_limit.max_per_ip)
    → IsLimited policy s
    → IsLimited policy
        (create_session_with_id (record s { session_counter = counter }) id client_ip)
unfolding create_session_with_id add_session track_ip_conn
create_session_with_id-IsLimited policy s counter id client_ip e f total per (t, p) =
    let larger : length (insert id (length s.heap) s.sessions) ≤ policy.connection_limit.max_total =
      omega (arith, length-insert id (length s.heap) s.sessions e, total) in
    if_rule (IsLimited policy) (not (is_empty client_ip))
      (λ known. (
        larger,
        λ ip.
            subst (λ n. n ≤ policy.connection_limit.max_per_ip)
              (sym (held-insert ip id client_ip s.session_to_ip f))
              (one_more_if-le_max (client_ip == ip) _ _ (p ip) (λ same.
                subst (λ x. held x s.session_to_ip < policy.connection_limit.max_per_ip)
                  ((str_beq_iff client_ip ip).0 same) (per known))),
      ))
      (λ _. (larger, p))

accept-IsLimited :
    (policy : SecurityPolicy) (shard : ℕ) (s : Sessions) (client_ip : Str)
    → s.session_counter + 1 < 2 ^ 64
    → IsSound policy shard 0 s
    → length s.sessions < policy.connection_limit.max_total
    → (not (is_empty client_ip) ≡ true
        → held client_ip s.session_to_ip < policy.connection_limit.max_per_ip)
    → IsLimited policy s
    → IsLimited policy (accept s client_ip).1
unfolding accept
accept-IsLimited policy shard s client_ip room v total per l =
    let id = session_id s.shard_id ((s.session_counter + 1) % 2 ^ 64) in
    let same : session_id shard (suc s.session_counter) ≡ id =
      ap₂ session_id (sym v.shard_kept) (omega arith) in
    let e : lookup id s.sessions ≡ none =
      subst (λ x. lookup x s.sessions ≡ none) same (session_id-fresh policy shard 0 s v) in
    create_session_with_id-IsLimited policy s ((s.session_counter + 1) % 2 ^ 64) id client_ip e
      (v.listed id e) total per l

create_session-IsLimited :
    (policy : SecurityPolicy) (shard : ℕ) (s : Sessions) (client_ip : Str)
    → policy.connection_limit.enabled ≡ true
    → s.session_counter + 1 < 2 ^ 64
    → IsSound policy shard 0 s
    → IsLimited policy s
    → IsLimited policy (create_session s client_ip).1
unfolding create_session refuse
create_session-IsLimited policy shard s client_ip enabled room v l =
    let P : Str × Sessions → Type 0 = λ r. IsLimited policy r.1 in
    let limit = s.security.connection_limit in
    let same : limit ≡ policy.connection_limit = ap (λ p. p.connection_limit) v.policy_kept in
    let count : count_or_zero (lookup client_ip s.ip_conn_count) ≡ held client_ip s.session_to_ip =
      ap count_or_zero (v.counted client_ip) ∙ stored-or_zero _ in
    if_rule P limit.enabled
      (λ _.
        if_rule P (leb limit.max_total (length s.sessions)) (λ _. l)
          (λ below.
            if_rule P
              (not (is_empty client_ip)
                && leb limit.max_per_ip (count_or_zero (lookup client_ip s.ip_conn_count)))
              (λ _. l)
              (λ free.
                accept-IsLimited policy shard s client_ip room v
                  (ground (arith, below, ap (λ x. x.max_total) same))
                  (λ known. ground (arith, free, known, count, ap (λ x. x.max_per_ip) same)) l)))
      (λ off. absurd (ground (arith, off, enabled, ap (λ x. x.enabled) same)))

remove_session-IsLimited :
    (policy : SecurityPolicy) (shard : ℕ) (s : Sessions) (id : Str)
    → IsSound policy shard 0 s
    → IsLimited policy s
    → IsLimited policy (remove_session s id)
unfolding remove_session
remove_session-IsLimited policy shard s id v (t, p) =
    let fewer : length (erase id s.sessions) ≤ policy.connection_limit.max_total =
      omega (arith, length-erase id s.sessions, t) in
    elim (Option-cases (lookup id s.session_to_ip)) [
      | inl e ↦ rw e (fewer, p)
      | inr (ip, e) ↦ rw e (
        fewer,
        λ j. one_more_if-le_of (ip == j) _ _ (
            subst (λ n. n ≤ policy.connection_limit.max_per_ip)
              (held-erase j id ip s.session_to_ip v.apart e) (p j)),
      )
    ]

Reachable-IsLimited :
    (policy : SecurityPolicy) (shard : ℕ) {adopted : ℕ} {s : Sessions}
    → policy.connection_limit.enabled ≡ true
    → Reachable policy shard adopted s
    → adopted ≡ 0
    → IsLimited policy s
unfolding push_to_session broadcast_notification
Reachable-IsLimited policy shard on starts z = (omega arith, λ ip. omega arith)
Reachable-IsLimited policy shard on (creates {adopted} {s} client_ip room r) z =
    create_session-IsLimited policy shard s client_ip on (omega arith)
      (subst (λ n. IsSound policy shard n s) z (Reachable-IsSound policy shard r))
      (Reachable-IsLimited policy shard on r z)
Reachable-IsLimited policy shard on (adopts client_ip room r) z = absurd (omega arith)
Reachable-IsLimited policy shard on (removes {adopted} {s} id r) z =
    remove_session-IsLimited policy shard s id
      (subst (λ n. IsSound policy shard n s) z (Reachable-IsSound policy shard r))
      (Reachable-IsLimited policy shard on r z)
Reachable-IsLimited policy shard on (pushes {adopted} {s} id msg r) z =
    let l = Reachable-IsLimited policy shard on r z in
    elim (get_session s id)
      as (λ o.
        IsLimited policy
          (elim o [ none ↦ s | some at_ ↦ record s { heap = push s.heap at_ msg } ])) [
            | none ↦ l
            | some at_ ↦ l
          ]
Reachable-IsLimited policy shard on (broadcasts msg r) z = Reachable-IsLimited policy shard on r z

-- With the connection limit on, on a shard that has served no session of the streamable transport
-- and whose session counter has not wrapped around: after any calls that create, remove or write to
-- sessions, the table holds at most max_total sessions, and at most max_per_ip of the sessions that
-- calls have opened and not removed, which are those of the table, are of one address that is not empty.
pub sse-IsLimited :
    (policy : SecurityPolicy) (shard : ℕ) (s : Sessions) (r : Reachable policy shard 0 s)
    → policy.connection_limit.enabled ≡ true
    → (length s.sessions ≤ policy.connection_limit.max_total)
      × ((id : Str) → is_some (lookup id s.sessions) ≡ is_some (lookup id (owners r)))
      × ((ip : Str) → is_empty ip ≡ false → held ip (owners r) ≤ policy.connection_limit.max_per_ip)
sse-IsLimited policy shard s r on =
    let (total, per_ip) = Reachable-IsLimited policy shard on r refl in
    let k = Reachable-Keeps policy shard r in
    (
      total,
      k.present,
      λ ip full. subst (λ n. n ≤ policy.connection_limit.max_per_ip) (k.number ip full) (per_ip ip),
    )
