-- ===== src/Server/Notices/Audience.antt =====
-- Who gets the notification of notify_resource_updated.
use mcp_server.Base.{
  ℕ, ◌≡◌, refl, sym, ap, subst, ◌∙◌, Bool, true, false, ◌||◌, List, [], ◌∷◌, Option, none, some,
  arith, inl, inr, Bool-cases, if_rule, if◌then◌else◌, ◌==◌, Str, str_eq, str_beq_iff, lit,
  get_elem?, lookup, returned,
}
use mcp_server.Json.{JsonLib}
use mcp_server.Server.Sessions.{SseSession, Sessions, get_session, push_to_session}
use mcp_server.Server.Sessions.Pushing.{
  told, push_to_session-table, push_to_session-told, push_to_session-elsewhere,
}
use mcp_server.Server.Subscriptions.{includes, followers, or_nobody, cleanup_subscriptions}
use mcp_server.Server.Subscriptions.Followers.{cleanup_forgets}
use mcp_server.Server.Dispatch.{McpShard}
use mcp_server.Server.Notices.{
  push_each, notify_followers, notify_resource_updated, notification_json, sending,
}

-- No two ids of the table share a session.
abbrev pub IsApart : Sessions → Type 0
IsApart s =
    (id other : Str) (i : ℕ) → get_session s id ≡ some i → get_session s other ≡ some i → id ≡ other

-- A list without repetition.
abbrev pub IsSetOf : List Str → Type 0
IsSetOf [] = Unit {0}
IsSetOf (id ∷ ids) = (includes id ids ≡ false) × IsSetOf ids

neither : (a b : Bool) → a || b ≡ false → (a ≡ false) × (b ≡ false)
neither false b h = (refl, h)
neither true b h = cc

second : (a b : Bool) → a ≡ false → a || b ≡ true → b ≡ true
second false b e h = h
second true b e h = cc

pub push-IsApart : (s : Sessions) (id msg : Str) → IsApart s → IsApart (push_to_session s id msg)
unfolding get_session
push-IsApart s id msg h =
    subst (λ t. (a b : Str) (i : ℕ) → lookup a t ≡ some i → lookup b t ≡ some i → a ≡ b)
      (sym (push_to_session-table s id msg)) h

pushed-get :
    (s : Sessions) (id other msg : Str)
    → get_session (push_to_session s id msg) other ≡ get_session s other
unfolding get_session
pushed-get s id other msg = ap (lookup other) (push_to_session-table s id msg)

others_get :
    (s : Sessions) (id other msg : Str) (i : ℕ)
    → IsApart s
    → get_session s id ≡ some i
    → other == id ≡ false
    → get_elem? (push_to_session s other msg).heap i ≡ get_elem? s.heap i
others_get s id other msg i h e n =
    push_to_session-elsewhere s other msg i
      λ f. absurd (ground (arith, n, (str_beq_iff other id).1 (h other id i f e)))

push_each-outside :
    (ids : List Str) (s : Sessions) (id msg : Str) (i : ℕ)
    → IsApart s
    → get_session s id ≡ some i
    → includes id ids ≡ false
    → get_elem? (push_each ids msg s).heap i ≡ get_elem? s.heap i
unfolding push_each
push_each-outside [] s id msg i h e n = refl
push_each-outside (other ∷ ids) s id msg i h e n =
    push_each-outside ids (push_to_session s other msg) id msg i (push-IsApart s other msg h)
      (pushed-get s other id msg ∙ e) (neither (other == id) (includes id ids) n).1
    ∙ others_get s id other msg i h e (neither (other == id) (includes id ids) n).0

push_each-inside :
    (ids : List Str) (s : Sessions) (id msg : Str) (i : ℕ) (x : SseSession)
    → IsApart s
    → IsSetOf ids
    → get_session s id ≡ some i
    → get_elem? s.heap i ≡ some x
    → includes id ids ≡ true
    → get_elem? (push_each ids msg s).heap i ≡ some (told msg x)
unfolding push_each
push_each-inside [] s id msg i x h u e f n = cc
push_each-inside (other ∷ ids) s id msg i x h (once, u) e f n = elim (Bool-cases (other == id)) [
  | inl same ↦
      let is = (str_beq_iff other id).0 same in
      push_each-outside ids (push_to_session s other msg) id msg i (push-IsApart s other msg h)
        (pushed-get s other id msg ∙ e) (ap (λ a. includes a ids) (sym is) ∙ once)
      ∙ push_to_session-told s other msg i x (ap (get_session s) is ∙ e) f
  | inr differs ↦
      push_each-inside ids (push_to_session s other msg) id msg i x (push-IsApart s other msg h) u
        (pushed-get s other id msg ∙ e) (others_get s id other msg i h e differs ∙ f)
        (second (other == id) (includes id ids) differs n)
]

module _ (js : JsonLib) (W : Type 0) where
  -- The notification for a resource.
  abbrev pub updated : Str → js.Json
  updated uri =
      notification_json js W (lit "notifications/resources/updated")
        (js.object ((lit "uri", js.string uri) ∷ []))

  notified :
      (s : McpShard js W) (uri msg id : Str) (i : ℕ) (x : SseSession) (o : Option (List Str))
      → IsApart s.world.sessions
      → (includes id (or_nobody o) ≡ true → IsSetOf (or_nobody o))
      → js.dump (updated uri) ≡ returned msg
      → get_session s.world.sessions id ≡ some i
      → get_elem? s.world.sessions.heap i ≡ some x
      → get_elem? (notify_followers js W uri o s).1.world.sessions.heap i
        ≡ some (if includes id (or_nobody o) then told msg x else x)
  unfolding notify_followers
  notified s uri msg id i x none h u e f g = g
  notified s uri msg id i x (some ids) h u e f g =
      let sent = ap (λ r. sending js W r (push_each ids) s) e in
      ap (λ r. get_elem? r.1.world.sessions.heap i) sent
      ∙ if_rule (λ y. get_elem? (push_each ids msg s.world.sessions).heap i ≡ some y)
          (includes id ids)
          (λ yes. push_each-inside ids s.world.sessions id msg i x h (u yes) f g yes)
          (λ n. push_each-outside ids s.world.sessions id msg i h f n ∙ g)

  -- notify_resource_updated, where the notification can be dumped, no two ids share a session and
  -- the followers of the resource are a set. An open session of the table gets the notification
  -- once, at the end of its queue, exactly when it follows the resource; every other session keeps
  -- its queue, and after cleanup_subscriptions for a session that session keeps it in any case.
  pub notify_resource_updated-followers :
      (s : McpShard js W) (uri msg id : Str) (i : ℕ) (x : SseSession)
      → IsApart s.world.sessions
      → IsSetOf (followers uri s.subscriptions)
      → js.dump (updated uri) ≡ returned msg
      → get_session s.world.sessions id ≡ some i
      → get_elem? s.world.sessions.heap i ≡ some x
      → (get_elem? (notify_resource_updated js W uri s).1.world.sessions.heap i
          ≡ some (if includes id (followers uri s.subscriptions) then told msg x else x))
        × (get_elem?
              (notify_resource_updated js W uri (record s {
                subscriptions = cleanup_subscriptions id s.subscriptions;
              })).1.world.sessions.heap
              i
            ≡ some x)
  unfolding notify_resource_updated
  notify_resource_updated-followers s uri msg id i x h u e f g =
      let forgot = record s { subscriptions = cleanup_subscriptions id s.subscriptions } in
      (
        notified s uri msg id i x (lookup uri s.subscriptions) h (λ _. u) e f g,
        notified forgot uri msg id i x (lookup uri forgot.subscriptions) h
              (λ yes. cc (yes, cleanup_forgets id uri s.subscriptions)) e f g
            ∙ ap (λ b. some (if b then told msg x else x)) (cleanup_forgets id uri s.subscriptions),
      )
