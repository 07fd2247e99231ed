-- ===== src/Server/Sessions/Owners.antt =====
-- Which address opened which session of the table, kept beside the shard from the calls alone.
use mcp_server.Base.{
  ℕ, suc, ◌+◌, ◌%◌, ◌^◌, ◌≡◌, refl, sym, ap, ◌∙◌, subst, false, none, some, [], arith, if_rule,
  if◌then◌else◌, leb, ◌&&◌, not, is_empty, Str, str_eq, Dict, lookup, insert, erase, length, ap₂,
}
use mcp_server.Security.Policy.{SecurityPolicy}
use mcp_server.Server.Ids.{session_id, streamable_id}
use mcp_server.Server.Sessions.{
  Sessions, create_session, push_to_session, broadcast_notification, refuse, accept, count_or_zero,
  get_session, push,
}
use mcp_server.Server.Sessions.Counting.{held, Distinct, stored}
use mcp_server.Server.Sessions.Addresses.{is_some, Keeps, create-Keeps, remove-Keeps}
use mcp_server.Server.Sessions.Soundness.{session_id-fresh, streamable_id-fresh}
use mcp_server.Server.Sessions.History.{
  Reachable, starts, creates, adopts, removes, pushes, broadcasts, Reachable-IsSound,
}

-- A call that returns an id has opened the session.
abbrev pub opened_as : Str → Str → Dict Str Str → Dict Str Str
opened_as id client_ip o = if is_empty id then o else insert id client_ip o

-- The sessions that the calls have opened and not removed, each with the address it was opened for;
-- the table of the shard and its counts are not read.
pub owners :
    {policy : SecurityPolicy} {shard adopted : ℕ} {s : Sessions}
    → Reachable policy shard adopted s
    → Dict Str Str
owners starts = []
owners (creates {adopted} {s} client_ip room r) =
    opened_as (create_session s client_ip).0 client_ip (owners r)
owners {shard} (adopts {adopted} {s} client_ip room r) =
    insert (streamable_id shard (suc adopted)) client_ip (owners r)
owners (removes id r) = erase id (owners r)
owners (pushes id msg r) = owners r
owners (broadcasts msg r) = owners r

create_session-Keeps :
    (s : Sessions) (o : Dict Str Str) (client_ip : Str)
    → lookup (session_id s.shard_id ((s.session_counter + 1) % 2 ^ 64)) s.sessions ≡ none
    → Keeps s o
    → let (id, t) = create_session s client_ip in Keeps t (opened_as id client_ip o)
unfolding create_session refuse accept session_id
create_session-Keeps s o client_ip fresh k =
    let P : Str × Sessions → Type 0 = λ r. Keeps r.1 (opened_as r.0 client_ip o) in
    let limit = s.security.connection_limit in
    let refused : (event : Str) → P (refuse s event client_ip) = λ event. record {
      present = k.present;
      apart = k.apart;
      address = k.address;
      number = k.number;
    } in
    let counter = (s.session_counter + 1) % 2 ^ 64 in
    let accepted : P (accept s client_ip) =
      create-Keeps s o counter (session_id s.shard_id counter) client_ip fresh k in
    if_rule P limit.enabled
      (λ _.
        if_rule P (leb limit.max_total (length s.sessions)) (λ _. refused _)
          (λ _.
            if_rule P
              (not (is_empty client_ip)
                && leb limit.max_per_ip (count_or_zero (lookup client_ip s.ip_conn_count)))
              (λ _. refused _) (λ _. accepted)))
      (λ _. accepted)

pub Reachable-Keeps :
    (policy : SecurityPolicy) (shard : ℕ) {adopted : ℕ} {s : Sessions}
    (r : Reachable policy shard adopted s)
    → Keeps s (owners r)
unfolding push_to_session broadcast_notification owners lookup
Reachable-Keeps policy shard starts = record {
  present = λ id. refl;
  apart = tt;
  address = λ id. refl;
  number = λ ip full. refl;
}
Reachable-Keeps policy shard (creates {adopted} {s} client_ip room r) =
    let v = Reachable-IsSound policy shard r in
    let next : session_id shard (suc s.session_counter)
        ≡ session_id s.shard_id ((s.session_counter + 1) % 2 ^ 64) =
      ap₂ session_id (sym v.shard_kept) (omega arith) in
    create_session-Keeps s (owners r) client_ip
      (subst (λ id. lookup id s.sessions ≡ none) next (session_id-fresh policy shard adopted s v))
      (Reachable-Keeps policy shard r)
Reachable-Keeps policy shard (adopts {adopted} {s} client_ip room r) =
    create-Keeps s (owners r) s.session_counter (streamable_id shard (suc adopted)) client_ip
      (streamable_id-fresh policy shard adopted s (Reachable-IsSound policy shard r))
      (Reachable-Keeps policy shard r)
Reachable-Keeps policy shard (removes {adopted} {s} id r) =
    remove-Keeps s (owners r) id (Reachable-IsSound policy shard r).apart
      (Reachable-Keeps policy shard r)
Reachable-Keeps policy shard (pushes {adopted} {s} id msg r) =
    let k = Reachable-Keeps policy shard r in
    elim (get_session s id)
      as (λ g.
        Keeps (elim g [ none ↦ s | some at_ ↦ record s { heap = push s.heap at_ msg } ])
          (owners r)) [
            | none ↦ k
            | some at_ ↦ record {
              present = k.present;
              apart = k.apart;
              address = k.address;
              number = k.number;
            }
          ]
Reachable-Keeps policy shard (broadcasts {adopted} {s} msg r) =
    let k = Reachable-Keeps policy shard r in
    record { present = k.present; apart = k.apart; address = k.address; number = k.number }

-- On one shard, whose two session counters have not wrapped around, after any calls that create,
-- remove or write to sessions: the next id of either transport is free; the table holds exactly the
-- sessions that calls have opened and not removed, each once; and the number kept for an address that
-- is not empty is the number of those opened for it, with no entry when there are none.
pub Reachable-counts :
    (policy : SecurityPolicy) (shard adopted : ℕ) (s : Sessions)
    (r : Reachable policy shard adopted s)
    → (lookup (session_id shard (suc s.session_counter)) s.sessions ≡ none)
      × (lookup (streamable_id shard (suc adopted)) s.sessions ≡ none)
      × ((id : Str) → is_some (lookup id s.sessions) ≡ is_some (lookup id (owners r)))
      × Distinct (owners r)
      × ((ip : Str) → is_empty ip ≡ false → lookup ip s.ip_conn_count ≡ stored (held ip (owners r)))
Reachable-counts policy shard adopted s r =
    let v = Reachable-IsSound policy shard r in
    let k = Reachable-Keeps policy shard r in
    (
      session_id-fresh policy shard adopted s v,
      streamable_id-fresh policy shard adopted s v,
      k.present,
      k.apart,
      λ ip full. v.counted ip ∙ ap stored (k.number ip full),
    )
