-- ===== src/Server/Subscriptions/Tests.antt =====
-- Two sessions that follow one resource.
use mcp_server.Base.{
  ◌≡◌, refl, [], ◌∷◌, Str, str_eq, str_beq, lit, List, Dict, lookup, insert, erase,
}
use mcp_server.Server.Subscriptions.{
  followers, subscribe_resource, unsubscribe_resource, cleanup_subscriptions,
}

abbrev table : Dict Str (List Str)
table = (lit "file", lit "s0_1" ∷ lit "s0_2" ∷ []) ∷ []

left_alone :
    (cleanup_subscriptions (lit "s0_1") (unsubscribe_resource (lit "s0_2") (lit "file") table) ≡ [])
    × (followers (lit "file") (subscribe_resource [] (lit "file") []) ≡ [])
unfolding cleanup_subscriptions unsubscribe_resource subscribe_resource lookup insert erase lit
    str_beq
left_alone = (refl, refl)
