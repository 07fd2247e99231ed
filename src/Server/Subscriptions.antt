-- ===== src/Server/Subscriptions.antt =====
-- The subscription table of McpShard (mcp_shard.hh): the sessions that follow each resource.
pub mod Followers
mod Tests
use mcp_server.Base.{
  Bool, not, List, [], ◌∷◌, Option, none, some, any, if◌then◌else◌, ◌==◌, Str, str_eq, is_empty,
  Dict, lookup, insert, erase,
}

-- An unordered_set as a list without repetition.
abbrev pub includes : Str → List Str → Bool
includes id set = any (λ x. x == id) set

unfoldable pub include_in : Str → List Str → List Str
include_in id set = if includes id set then set else id ∷ set

pub exclude : Str → List Str → List Str
exclude id [] = []
exclude id (x ∷ set) = let rest = exclude id set in if x == id then rest else x ∷ rest

abbrev pub or_nobody : Option (List Str) → List Str
or_nobody none = []
or_nobody (some set) = set

-- The sessions that follow a resource.
abbrev pub followers : Str → Dict Str (List Str) → List Str
followers uri subscriptions = or_nobody (lookup uri subscriptions)

-- `session` is the current session, empty outside of one.
unfoldable pub subscribe_resource : Str → Str → Dict Str (List Str) → Dict Str (List Str)
unfolding include_in
subscribe_resource session uri subscriptions =
    if not (is_empty session)
    then insert uri (include_in session (followers uri subscriptions)) subscriptions
    else subscriptions

without : Str → Str → Option (List Str) → Dict Str (List Str) → Dict Str (List Str)
unfolding exclude
without session uri none subscriptions = subscriptions
without session uri (some set) subscriptions =
    let rest = exclude session set in
    if is_empty rest then erase uri subscriptions else insert uri rest subscriptions

pub unsubscribe_resource : Str → Str → Dict Str (List Str) → Dict Str (List Str)
unfolding without
unsubscribe_resource session uri subscriptions =
    if not (is_empty session)
    then without session uri (lookup uri subscriptions) subscriptions
    else subscriptions

pub cleanup_subscriptions : Str → Dict Str (List Str) → Dict Str (List Str)
unfolding exclude
cleanup_subscriptions session [] = []
cleanup_subscriptions session ((uri, set) ∷ subscriptions) =
    let rest = cleanup_subscriptions session subscriptions in
    let left = exclude session set in if is_empty left then rest else (uri, left) ∷ rest
