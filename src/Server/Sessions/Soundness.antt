-- ===== src/Server/Sessions/Soundness.antt =====
-- What the session tables satisfy at every moment, and what a session more keeps of it.
use mcp_server.Base.{
  ℕ, suc, ◌+◌, ◌^◌, ◌<◌, ◌≤◌, ◌≡◌, refl, sym, subst, ◌≢◌, ◌⊎◌, inl, inr, Bool, true, false, none,
  some, arith, if_rule, Bool-cases, Option-cases, not, is_empty, ◌==◌, Str, str_eq, str_beq_iff,
  lookup, lookup-insert, length, ==_refl,
}
use mcp_server.Security.Policy.{SecurityPolicy}
use mcp_server.Server.Ids.{session_id, streamable_id}
use mcp_server.Server.Ids.Fresh.{session_id-inj, streamable_id-inj, session_id-ne-streamable_id}
use mcp_server.Server.Sessions.{
  Sessions, no_sessions, create_session_with_id, add_session, track_ip_conn,
}
use mcp_server.Server.Sessions.Counting.{
  held, Distinct, IsCounted, held-insert, Distinct-insert, insert-IsCounted, one_more_if,
}

one_more_if-le : (b : Bool) (n m : ℕ) → n < m → one_more_if b n ≤ m
one_more_if-le true n m h = omega arith
one_more_if-le false n m h = omega arith

-- An id that was issued, by either counter.
abbrev pub Issued : ℕ → ℕ → ℕ → Str → Type 0
Issued shard counter adopted id =
    ((k : ℕ) × (k ≤ counter) × (id ≡ session_id shard k))
    ⊎ ((k : ℕ) × (k ≤ adopted) × (id ≡ streamable_id shard k))

-- What holds of the tables at every moment.
pub record IsSound (policy : SecurityPolicy) (shard adopted : ℕ) (s : Sessions) : Type 0 where
  pub policy_kept : s.security ≡ policy
  pub shard_kept : s.shard_id ≡ shard
  pub issued :
      (id : Str) (at_ : ℕ)
      → lookup id s.sessions ≡ some at_
      → Issued shard s.session_counter adopted id
  pub listed : (id : Str) → lookup id s.sessions ≡ none → lookup id s.session_to_ip ≡ none
  pub apart : Distinct s.session_to_ip
  pub counted : IsCounted s.ip_conn_count s.session_to_ip
  pub few : (ip : Str) → held ip s.session_to_ip ≤ s.session_counter + adopted

pub no_sessions-IsSound :
    (policy : SecurityPolicy) (shard : ℕ) → IsSound policy shard 0 (no_sessions policy shard)
unfolding lookup
no_sessions-IsSound policy shard = record {
  policy_kept = refl;
  shard_kept = refl;
  issued = λ id at_ e. absurd (cc);
  listed = λ id e. refl;
  apart = tt;
  counted = λ j. refl;
  few = λ ip. omega arith;
}

Issued-mono :
    (shard c d a b : ℕ) (id : Str) → c ≤ d → a ≤ b → Issued shard c a id → Issued shard d b id
Issued-mono shard c d a b id lc la (inl (k, l, e)) = inl (k, omega arith, e)
Issued-mono shard c d a b id lc la (inr (k, l, e)) = inr (k, omega arith, e)

-- A session more, under an id that no session has.
add_session-IsSound :
    (policy : SecurityPolicy) (shard adopted more : ℕ) (s : Sessions) (counter : ℕ) (id : Str)
    → IsSound policy shard adopted s
    → s.session_counter ≤ counter
    → adopted ≤ more
    → Issued shard counter more id
    → IsSound policy shard more (add_session (record s { session_counter = counter }) id)
unfolding add_session
add_session-IsSound policy shard adopted more s counter id v lc la i = record {
  policy_kept = v.policy_kept;
  shard_kept = v.shard_kept;
  issued = λ j at_ e. elim (Bool-cases (id == j)) [
    | inl same ↦ subst (Issued shard counter more) ((str_beq_iff id j).0 same) i
    | inr other ↦
        Issued-mono shard s.session_counter counter adopted more j lc la
          (v.issued j at_ (ground (arith, lookup-insert id j (length s.heap) s.sessions, e, other)))
  ];
  listed = λ j e. v.listed j (ground (arith, lookup-insert id j (length s.heap) s.sessions, e));
  apart = v.apart;
  counted = v.counted;
  few = λ ip. omega (arith, v.few ip);
}

track_ip_conn-IsSound :
    (policy : SecurityPolicy) (shard adopted : ℕ) (s : Sessions) (id client_ip : Str)
    → IsSound policy shard adopted s
    → ((ip : Str) → held ip s.session_to_ip < s.session_counter + adopted)
    → s.session_counter + adopted < 2 ^ 64
    → lookup id s.sessions ≢ none
    → lookup id s.session_to_ip ≡ none
    → IsSound policy shard adopted (track_ip_conn s id client_ip)
unfolding track_ip_conn
track_ip_conn-IsSound policy shard adopted s id client_ip v few room there e =
    if_rule (IsSound policy shard adopted) (not (is_empty client_ip))
      (λ _. record {
        policy_kept = v.policy_kept;
        shard_kept = v.shard_kept;
        issued = v.issued;
        listed = λ j n. elim (Bool-cases (id == j)) [
          | inl same ↦
              absurd (
                there (subst (λ x. lookup x s.sessions ≡ none) (sym ((str_beq_iff id j).0 same)) n))
          | inr other ↦
              ground (arith, lookup-insert id j client_ip s.session_to_ip, v.listed j n, other)
        ];
        apart = Distinct-insert id client_ip s.session_to_ip e v.apart;
        counted =
            insert-IsCounted s.ip_conn_count s.session_to_ip id client_ip e
              (omega (arith, few client_ip)) v.counted;
        few = λ ip.
            subst (λ n. n ≤ s.session_counter + adopted)
              (sym (held-insert ip id client_ip s.session_to_ip e))
              (one_more_if-le (client_ip == ip) _ _ (few ip));
      })
      (λ _. v)

pub create_session_with_id-IsSound :
    (policy : SecurityPolicy) (shard adopted more : ℕ) (s : Sessions) (counter : ℕ)
    (id client_ip : Str)
    → IsSound policy shard adopted s
    → s.session_counter ≤ counter
    → adopted ≤ more
    → s.session_counter + adopted < counter + more
    → counter + more < 2 ^ 64
    → lookup id s.sessions ≡ none
    → Issued shard counter more id
    → IsSound policy shard more
        (create_session_with_id (record s { session_counter = counter }) id client_ip)
unfolding create_session_with_id add_session
create_session_with_id-IsSound policy shard adopted more s counter id client_ip v lc la lt room e
      i =
    track_ip_conn-IsSound policy shard more
      (add_session (record s { session_counter = counter }) id) id client_ip
      (add_session-IsSound policy shard adopted more s counter id v lc la i)
      (λ ip. omega (arith, v.few ip)) room
      (λ n. ground (arith, lookup-insert id id (length s.heap) s.sessions, ==_refl id, n))
      (v.listed id e)

pub session_id-fresh :
    (policy : SecurityPolicy) (shard adopted : ℕ) (s : Sessions)
    → IsSound policy shard adopted s
    → lookup (session_id shard (suc s.session_counter)) s.sessions ≡ none
session_id-fresh policy shard adopted s v =
    let id = session_id shard (suc s.session_counter) in
    elim (Option-cases (lookup id s.sessions)) [
      | inl e ↦ e
      | inr (at_, e) ↦ elim (v.issued id at_ e) [
        | inl (k, l, same) ↦
            absurd (omega (arith, session_id-inj shard (suc s.session_counter) k same, l))
        | inr (k, l, same) ↦
            absurd (session_id-ne-streamable_id shard (suc s.session_counter) k same)
      ]
    ]

pub streamable_id-fresh :
    (policy : SecurityPolicy) (shard adopted : ℕ) (s : Sessions)
    → IsSound policy shard adopted s
    → lookup (streamable_id shard (suc adopted)) s.sessions ≡ none
streamable_id-fresh policy shard adopted s v =
    let id = streamable_id shard (suc adopted) in
    elim (Option-cases (lookup id s.sessions)) [
      | inl e ↦ e
      | inr (at_, e) ↦ elim (v.issued id at_ e) [
        | inl (k, l, same) ↦ absurd (session_id-ne-streamable_id shard k (suc adopted) (sym same))
        | inr (k, l, same) ↦ absurd (omega (arith, streamable_id-inj shard (suc adopted) k same, l))
      ]
    ]
