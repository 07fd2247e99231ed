-- ===== src/Server/Routes/Owner.antt =====
-- A response or a deletion reaches the shard that issued the session id, from every shard.
use mcp_server.Base.{
  ℕ, ◌^◌, ◌<◌, ◌≡◌, ap, subst, List, if◌then◌else◌, if_rule, ◌==◌, nat_eq, nat_beq_iff, Str, str_eq,
}
use mcp_server.Server.Ids.{session_id, streamable_id}
use mcp_server.Server.Ids.Routing.{parse_shard-id}
use mcp_server.Server.Sessions.{Sessions, push_to_session}
use mcp_server.Server.Routes.{
  invoke_on, sse_respond, streamable_respond, close_session, handle_delete,
}

-- Local or not, the effect is that on the target.
either_way :
    (here target : ℕ) (f : Sessions → Sessions) (shards result : List Sessions)
    → invoke_on target f shards ≡ result
    → (if target == here then invoke_on here f shards else invoke_on target f shards) ≡ result
either_way here target f shards result e =
    if_rule (λ r. r ≡ result) (target == here)
      (λ same. subst (λ n. invoke_on n f shards ≡ result) ((nat_beq_iff target here).0 same) e)
      (λ _. e)

-- Whichever shard handles the request, a response of either transport for a session id issued on a
-- 32-bit shard number is pushed to that session on that shard and on no other, and a DELETE of an id
-- of the streamable transport closes the session there and nowhere else.
pub respond-owner :
    (here owner counter : ℕ) (shards : List Sessions) (msg : Str)
    → owner < 2 ^ 32
    → (sse_respond here shards (session_id owner counter) msg
        ≡ invoke_on owner (λ s. push_to_session s (session_id owner counter) msg) shards)
      × (streamable_respond here shards (streamable_id owner counter) msg
          ≡ invoke_on owner (λ s. push_to_session s (streamable_id owner counter) msg) shards)
      × (handle_delete here shards (streamable_id owner counter)
          ≡ invoke_on owner (λ s. close_session s (streamable_id owner counter)) shards)
unfolding sse_respond streamable_respond handle_delete streamable_id
respond-owner here owner counter shards msg h =
    let (sse, _, streamable) = parse_shard-id owner counter h in
    (
      either_way here _ _ shards _ (
          ap (λ n. invoke_on n (λ s. push_to_session s (session_id owner counter) msg) shards) sse),
      either_way here _ _ shards _ (
          ap (λ n. invoke_on n (λ s. push_to_session s (streamable_id owner counter) msg) shards)
            streamable),
      either_way here _ _ shards _ (
          ap (λ n. invoke_on n (λ s. close_session s (streamable_id owner counter)) shards)
            streamable),
    )
