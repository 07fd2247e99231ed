-- ===== src/Server/Interleaving/Tests.antt =====
-- A shard whose clients call a method that waits, subscribe and ping, and the theorems there.
use mcp_server.Base.{
  ℕ, ◌≡◌, refl, ap, sym, ◌∙◌, true, false, [], ◌∷◌, ◌++◌, Option, none, some, Bool-cases, inl, inr,
  ◌==◌, if◌then◌else◌, Str, str_eq, str_beq, nat_eq, lit, lookup, insert, returned, subst,
  get_elem?, set,
}
use mcp_server.Json.{value_json}
use mcp_server.Json.Packed.{
  packed, packed_kind, read_text, members_object, text_of, items, flat, unflat, split, members,
  find_in,
}
use mcp_server.Security.Policy.{default_policy}
use mcp_server.Rpc.Coroutines.{finished, waiting, await, awaiting, Yields}
use mcp_server.Rpc.Dispatcher.{handle_request, answered, send_outcome, has_form}
use mcp_server.Rpc.Dispatcher.Requests.{request}
use mcp_server.Rpc.Waiting.{
  WaitingHandler, waiting_request, waiting_parsed, waiting_single, waiting_method, waiting_route,
  waiting_call, reply_after,
}
use mcp_server.Rpc.Waiting.Alone.{alone}
use mcp_server.Rpc.Waiting.Steady.{IsSteady}
use mcp_server.Rpc.Waiting.Instant.{instant}
use mcp_server.Registry.Methods.{info, ping, resources_subscribe}
use mcp_server.Server.Sessions.{no_sessions}
use mcp_server.Server.Subscriptions.{includes, followers, subscribe_resource, include_in}
use mcp_server.Server.Requests.{no_requests}
use mcp_server.Server.Dispatch.{Around, McpShard, take_response, is_client_response}
use mcp_server.Server.Interleaving.{
  Dispatcher, Reactor, Reach, starts, goes_on, arrives, resumes, waiting_dispatch,
}
use mcp_server.Server.Interleaving.Replies.{Reach-reply}
use mcp_server.Server.Interleaving.Subscribers.{subscription, waiting_dispatch-followers}
use mcp_server.Server.Interleaving.Batches.{interleaved, pausing, interleaved-resources_subscribe}

abbrev Shard : Type 0
Shard = McpShard packed ℕ

abbrev shard : Shard
shard = record {
  current_session_id = [];
  current_progress_token = [];
  subscriptions = [];
  loggers_level = info;
  client_log_levels = info ∷ [];
  world = record {
    sessions = no_sessions default_policy 0;
    requests = no_requests packed;
    program = 0;
  };
}

abbrev done : Str
done = 4 ∷ lit "done"

abbrev wait : WaitingHandler packed Shard
wait = pausing packed ℕ (returned done)

abbrev server : Dispatcher packed ℕ
server = record {
  methods =
      (lit "wait", wait)
      ∷ (
        lit "resources/subscribe",
        instant packed Shard (resources_subscribe packed (Around packed ℕ)),
      )
      ∷ (lit "ping", instant packed Shard (ping packed (Around packed ℕ)))
      ∷ [];
  notifications = [];
  max_batch_size = 3;
  need_preempt = λ s. false;
}

abbrev one : Str
one = 3 ∷ 0 ∷ 1 ∷ []

abbrev nothing_more : Str
nothing_more = members_object []

abbrev pings : Str
pings = b'=' ∷ request packed Shard one (lit "ping") nothing_more

abbrev subscribes : Str
subscribes =
    b'=' ∷ request packed Shard one (lit "resources/subscribe") (subscription packed ℕ (lit "cpu"))

waiting_dispatch-followers_example :
    includes (lit "s0_1") (
      followers
        (lit "cpu")
        (waiting_dispatch packed ℕ server subscribes (lit "s0_1") shard).1.subscriptions)
    ≡ true
unfolding lookup lit str_beq read_text
waiting_dispatch-followers_example =
    waiting_dispatch-followers packed ℕ server shard subscribes (lit "s0_1") (lit "cpu") (lit "cpu")
      (lit "s0_1") one refl refl refl

abbrev batch : Str
batch =
    b'='
    ∷ packed.array (
        request packed Shard one (lit "wait") nothing_more
        ∷ request packed Shard one (lit "resources/subscribe") (subscription packed ℕ (lit "cpu"))
        ∷ [])

interleaved-resources_subscribe_example :
    (let started = waiting_dispatch packed ℕ server batch (lit "s0_1") shard in
      (interleaved
        (λ t. (waiting_dispatch packed ℕ server pings (lit "s0_2") t).1)
        started.0
        started.1).subscriptions)
    ≡ (lit "cpu", lit "s0_2" ∷ []) ∷ []
unfolding lookup lit str_beq read_text send_outcome answered subscribe_resource include_in insert
interleaved-resources_subscribe_example =
    interleaved-resources_subscribe packed ℕ server shard batch pings (lit "s0_1") (lit "s0_2")
      (lit "cpu") (lit "wait") one one nothing_more one nothing_more (returned done) _ (λ t. refl)
      refl refl refl refl refl refl refl refl

-- With the method that waits alone.
abbrev waiter : Dispatcher packed ℕ
waiter = record {
  methods = (lit "wait", wait) ∷ [];
  notifications = [];
  max_batch_size = 3;
  need_preempt = λ s. false;
}

or_wait : Option (WaitingHandler packed Shard) → WaitingHandler packed Shard
or_wait none = wait
or_wait (some handler) = handler

waiter-IsSteady : IsSteady packed Shard waiter
unfolding lookup or_wait Yields
waiter-IsSteady method handler e params = elim (Bool-cases (lit "wait" == method)) [
  | inl same ↦
      let found : lookup method waiter.methods ≡ some wait =
        ap (λ b. if b then some wait else none) same in
      (
        returned done,
        λ s.
            subst (λ (h : WaitingHandler packed Shard). Yields (returned done) (h params s).0)
              (ap or_wait (sym found ∙ e)) (λ t. refl),
      )
  | inr other ↦ absurd (cc (ap (λ b. if b then some wait else none) other ∙ refl, e))
]

abbrev waits : Str
waits = b'=' ∷ request packed Shard one (lit "wait") nothing_more

-- What a coroutine that waits does next.
abbrev resumed : Reactor packed ℕ → ℕ → Reactor packed ℕ
resumed c i = elim (get_elem? c.tasks i) as (λ _. Reactor packed ℕ) [
  | none ↦ c
  | some t ↦ elim t.progress as (λ _. Reactor packed ℕ) [
    | finished r ↦ c
    | waiting effect next ↦ record {
      shard = effect c.shard;
      tasks = set c.tasks i (record t { progress = next c.shard });
    }
  ]
]

abbrev taken : Reactor packed ℕ → Str → Str → Reactor packed ℕ
taken c body session_id = record {
  shard = (waiting_dispatch packed ℕ waiter body session_id c.shard).1;
  tasks =
      c.tasks
      ++ record {
        body = body;
        session_id = session_id;
        progress = (waiting_dispatch packed ℕ waiter body session_id c.shard).0;
      }
        ∷ [];
}

-- The first request waits, a second one comes, and the first is resumed until it ends.
abbrev after_two : Reactor packed ℕ
after_two =
    taken (taken (record { shard = shard; tasks = [] }) waits (lit "s0_1")) waits (lit "s0_2")

after_two-Reach : Reach packed ℕ waiter shard after_two
after_two-Reach = goes_on (goes_on starts (arrives waits (lit "s0_1"))) (arrives waits (lit "s0_2"))

abbrev finished_first : Reactor packed ℕ
finished_first = resumed (resumed (resumed (resumed after_two 0) 0) 0) 0

finished_first-Reach : Reach packed ℕ waiter shard finished_first
unfolding waiting_dispatch waiting_request waiting_parsed waiting_single waiting_method
    waiting_route waiting_call reply_after await awaiting take_response read_text packed_kind
    members_object find_in members unflat flat split items text_of lookup lit str_beq has_form
    value_json insert is_client_response
finished_first-Reach =
    goes_on
      (goes_on (goes_on (goes_on after_two-Reach (resumes 0 _ refl refl)) (resumes 0 _ refl refl))
        (resumes 0 _ refl refl))
      (resumes 0 _ refl refl)

Reach-reply_example :
    send_outcome packed Shard (answered packed Shard one (returned done))
    ≡ (handle_request packed Shard (alone packed Shard waiter) waits shard).0
unfolding waiting_dispatch waiting_request waiting_parsed waiting_single waiting_method
    waiting_route waiting_call reply_after await awaiting take_response read_text packed_kind
    members_object find_in members unflat flat split items text_of lookup lit str_beq has_form
    value_json insert is_client_response
Reach-reply_example =
    Reach-reply packed ℕ waiter shard shard finished_first 0
      (record {
        body = waits;
        session_id = lit "s0_1";
        progress = finished (send_outcome packed Shard (answered packed Shard one (returned done)));
      })
      (send_outcome packed Shard (answered packed Shard one (returned done))) waiter-IsSteady
      finished_first-Reach refl refl refl
