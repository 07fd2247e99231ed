-- ===== src/Transport/Streams/Delivery.antt =====
-- What a reader of an event stream gets of the messages that are pushed to its session.
use mathlib.Core.List.{append_assoc, append-nil}
use mcp_server.Base.{
  ℕ, Option, none, some, ltb, length, get_elem?, Bool-cases, inl, inr, ap₂, ◌≡◌, refl, sym, ap,
  subst, ◌∙◌, Bool, true, false, ◌||◌, not, List, [], ◌∷◌, ◌++◌, if◌then◌else◌, if_rule, Str, lit,
  is_empty, All, All-append, Lacks,
}
use mcp_server.Server.Sessions.{SseSession, enqueue}
use mcp_server.Server.Sessions.Pushing.{told}
use mcp_server.Server.Routes.{deactivate}
use mcp_server.Transport.Streams.{
  frame, endpoint, StreamPhase, opening, looping, popping, holding, writing, flushing, closed,
  SseStream, broken, open_sse, open_streamable, pop_message, write_text, remove_at, join_queue,
  resume_at, StreamEvent, pushes, answers, closes, joins, fails, resumes, react, run_stream,
}
use mcp_server.Transport.Streams.Reading.{
  receive, frames, frames-snoc, receive-frames, receive-endpoint, IsMessage,
}

-- What joins the queue: a push while there is room.
abbrev pub joined : Str → SseSession → List Str
joined msg x = if ltb (length x.messages) 100 then msg ∷ [] else []

abbrev joined_later : Option Str → SseSession → List Str
joined_later none x = []
joined_later (some msg) x = joined msg x

-- What an event puts into the queue.
abbrev queued : StreamEvent → SseStream → List Str
queued (pushes msg) s = if s.session.active then joined msg s.session else []
queued (answers msg) s = joined msg s.session
queued closes s = joined [] s.session
queued (joins i) s = joined_later (get_elem? s.session.waiting i) s.session
queued (fails i) s = []
queued (resumes written) s = []

-- All that is put into the queue in a run.
unfoldable pub queued_in : List StreamEvent → SseStream → List Str
queued_in [] s = []
queued_in (e ∷ es) s = queued e s ++ queued_in es (react e s)

-- The message that the stream has popped and not written.
abbrev pub in_hand : StreamPhase → List Str
in_hand (opening text) = []
in_hand looping = []
in_hand popping = []
in_hand (holding msg) = msg ∷ []
in_hand (writing msg) = msg ∷ []
in_hand flushing = []
in_hand (closed unsent) = unsent

abbrev in_writing : StreamPhase → List Str
in_writing (opening text) = []
in_writing looping = []
in_writing popping = []
in_writing (holding msg) = []
in_writing (writing msg) = msg ∷ []
in_writing flushing = []
in_writing (closed unsent) = []

abbrev is_opening : StreamPhase → Bool
is_opening (opening text) = true
is_opening looping = false
is_opening popping = false
is_opening (holding msg) = false
is_opening (writing msg) = false
is_opening flushing = false
is_opening (closed unsent) = false

-- Behind `head` the stream has written `messages`, and these, what it holds and what waits in the queue
-- are what was queued, in this order.
pub record Wrote (head : Str) (all messages : List Str) (s : SseStream) : Type 0 where
  pub out : s.out ≡ head ++ frames messages
  pub order : messages ++ (in_hand s.phase ++ s.session.messages) ≡ all
  pub full : All IsMessage messages
  pub begun : is_opening s.phase ≡ false
  pub held : All IsMessage (in_writing s.phase)

abbrev Serves : Str → List Str → SseStream → Type 0
Serves head all s = (messages : List Str) × Wrote head all messages s

enqueue-messages :
    (msg : Str) (x : SseSession) → (enqueue msg x).messages ≡ x.messages ++ joined msg x
enqueue-messages msg x = elim (Bool-cases (ltb (length x.messages) 100)) [
  | inl room ↦ rw room refl
  | inr full ↦ rw full (sym (append-nil x.messages))
]

told-messages :
    (b : Bool) (msg : Str) (x : SseSession)
    → (if b then enqueue msg x else x).messages ≡ x.messages ++ (if b then joined msg x else [])
told-messages true msg x = enqueue-messages msg x
told-messages false msg x = sym (append-nil x.messages)

join_queue-messages :
    (i : ℕ) (o : Option Str) (x : SseSession)
    → (join_queue i o x).messages ≡ x.messages ++ joined_later o x
unfolding join_queue
join_queue-messages i none x = sym (append-nil x.messages)
join_queue-messages i (some msg) x = elim (Bool-cases (ltb (length x.messages) 100)) [
  | inl room ↦ rw room refl
  | inr full ↦ rw full (sym (append-nil x.messages))
]

-- Where a phase is known, so is what it holds.
order_at :
    {head : Str} {all ms : List Str} {s : SseStream} (p : StreamPhase)
    → s.phase ≡ p
    → Wrote head all ms s
    → ms ++ (in_hand p ++ s.session.messages) ≡ all
order_at {ms} {s} p at_ w = ap (λ q. ms ++ (in_hand q ++ s.session.messages)) (sym at_) ∙ w.order

-- The same bytes, queue and message in hand in another phase.
moved :
    {head : Str} {all ms : List Str} {s : SseStream} (p q : StreamPhase) (x : SseSession)
    → s.phase ≡ p
    → x.messages ≡ s.session.messages
    → in_hand q ≡ in_hand p
    → is_opening q ≡ false
    → All IsMessage (in_writing q)
    → Wrote head all ms s
    → Serves head all (record s { session = x; phase = q })
moved {ms} {s} p q x at_ same hand begun held w = (
  ms,
  record {
    out = w.out;
    order = ap₂ (λ h m. ms ++ (h ++ m)) hand same ∙ order_at p at_ w;
    full = w.full;
    begun = begun;
    held = held;
  },
)

write-Serves :
    (head msg : Str) (done : Bool) (all : List Str) (s : SseStream)
    → s.phase ≡ writing msg
    → Serves head all s
    → Serves head all (write_text (frame msg) (msg ∷ []) done s)
unfolding write_text broken
write-Serves head msg done all s at_ (ms, w) =
    let one : All IsMessage (msg ∷ []) = subst (λ p. All IsMessage (in_writing p)) at_ w.held in
    if_rule (Serves head all) done
      (λ _. (
        ms ++ msg ∷ [],
        record {
          out =
              ap (λ o. o ++ frame msg) w.out
              ∙ append_assoc head (frames ms) (frame msg)
              ∙ ap (λ f. head ++ f) (sym (frames-snoc ms msg));
          order = append_assoc ms (msg ∷ []) s.session.messages ∙ order_at (writing msg) at_ w;
          full = All-append IsMessage ms (msg ∷ []) w.full one;
          begun = refl;
          held = tt;
        },
      ))
      (λ _.
        moved (writing msg) (closed (msg ∷ [])) (record s.session { active = false }) at_ refl refl
          refl tt w)

pop-Serves :
    (head : Str) (all queue : List Str) (s : SseStream)
    → s.phase ≡ popping
    → s.session.messages ≡ queue
    → Serves head all s
    → Serves head all (pop_message queue s)
unfolding pop_message
pop-Serves head all [] s at_ e w = w
pop-Serves head all (msg ∷ rest) s at_ e (ms, w) = (
  ms,
  record {
    out = w.out;
    order = ap (λ q. ms ++ q) (sym e) ∙ order_at popping at_ w;
    full = w.full;
    begun = refl;
    held = tt;
  },
)

or_false : (a b : Bool) → a || b ≡ false → a ≡ false
or_false false b h = refl
or_false true b h = h

resume-Serves :
    (head : Str) (p : StreamPhase) (done : Bool) (all : List Str) (s : SseStream)
    → s.phase ≡ p
    → Serves head all s
    → Serves head all (resume_at p done s)
unfolding resume_at broken
resume-Serves head (opening text) done all s at_ (ms, w) =
    let bad : true ≡ false = ap is_opening (sym at_) ∙ w.begun in absurd (cc)
resume-Serves head looping done all s at_ (ms, w) =
    if_rule (Serves head all) s.session.active
      (λ _. moved looping popping s.session at_ refl refl refl tt w)
      (λ _. moved looping (closed []) s.session at_ refl refl refl tt w)
resume-Serves head popping done all s at_ w = pop-Serves head all s.session.messages s at_ refl w
resume-Serves head (holding msg) done all s at_ (ms, w) =
    if_rule (Serves head all) (is_empty msg || not s.session.active)
      (λ _. moved (holding msg) (closed (msg ∷ [])) s.session at_ refl refl refl tt w)
      (λ goes.
        moved (holding msg) (writing msg) s.session at_ refl refl refl
          (or_false (is_empty msg) (not s.session.active) goes, tt) w)
resume-Serves head (writing msg) done all s at_ w = write-Serves head msg done all s at_ w
resume-Serves head flushing done all s at_ (ms, w) =
    if_rule (Serves head all) done (λ _. moved flushing looping s.session at_ refl refl refl tt w)
      (λ _.
        moved flushing (closed []) (record s.session { active = false }) at_ refl refl refl tt w)
resume-Serves head (closed unsent) done all s at_ w = w

-- More in the queue is more of all.
queue-Serves :
    (head : Str) (all more : List Str) (s : SseStream) (x : SseSession)
    → x.messages ≡ s.session.messages ++ more
    → Serves head all s
    → Serves head (all ++ more) (record s { session = x })
queue-Serves head all more s x e (ms, w) = (
  ms,
  record {
    out = w.out;
    order =
        ap (λ q. ms ++ (in_hand s.phase ++ q)) e
        ∙ ap (λ q. ms ++ q) (sym (append_assoc (in_hand s.phase) s.session.messages more))
        ∙ sym (append_assoc ms (in_hand s.phase ++ s.session.messages) more)
        ∙ ap (λ q. q ++ more) w.order;
    full = w.full;
    begun = w.begun;
    held = w.held;
  },
)

react-Serves :
    (head : Str) (e : StreamEvent) (all : List Str) (s : SseStream)
    → Serves head all s
    → Serves head (all ++ queued e s) (react e s)
unfolding react deactivate
react-Serves head (pushes msg) all s w =
    queue-Serves head all (if s.session.active then joined msg s.session else []) s
      (told msg s.session) (told-messages s.session.active msg s.session) w
react-Serves head (answers msg) all s w =
    queue-Serves head all (joined msg s.session) s (enqueue msg s.session)
      (enqueue-messages msg s.session) w
react-Serves head closes all s w =
    queue-Serves head all (joined [] s.session) s (deactivate s.session)
      (enqueue-messages [] s.session) w
react-Serves head (joins i) all s w =
    queue-Serves head all (joined_later (get_elem? s.session.waiting i) s.session) s
      (join_queue i (get_elem? s.session.waiting i) s.session)
      (join_queue-messages i (get_elem? s.session.waiting i) s.session) w
react-Serves head (fails i) all s w =
    queue-Serves head all [] s (record s.session { waiting = remove_at i s.session.waiting })
      (sym (append-nil s.session.messages)) w
react-Serves head (resumes done) all s w =
    subst (λ a. Serves head a (resume_at s.phase done s)) (sym (append-nil all))
      (resume-Serves head s.phase done all s refl w)

run-Serves :
    (head : Str) (es : List StreamEvent) (all : List Str) (s : SseStream)
    → Serves head all s
    → Serves head (all ++ queued_in es s) (run_stream es s)
unfolding run_stream queued_in
run-Serves head [] all s w = subst (λ a. Serves head a s) (sym (append-nil all)) w
run-Serves head (e ∷ es) all s w =
    subst (λ a. Serves head a (run_stream es (react e s)))
      (append_assoc all (queued e s) (queued_in es (react e s)))
      (run-Serves head es (all ++ queued e s) (react e s) (react-Serves head e all s w))

All-prefix : {A : Type 0} (P : A → Type 0) (xs ys : List A) → All P (xs ++ ys) → All P xs
All-prefix P [] ys h = tt
All-prefix P (x ∷ xs) ys (p, h) = (p, All-prefix P xs ys h)

-- What a reader got, in terms of what was queued.
pub record Got (messages all : List Str) (s : SseStream) : Type 0 where
  pub heard : receive s.out ≡ messages
  pub in_order : messages ++ (in_hand s.phase ++ s.session.messages) ≡ all
  pub none_empty : All IsMessage messages

got :
    (head : Str) (all : List Str) (s : SseStream)
    → ((t : Str) → receive (head ++ t) ≡ receive t)
    → All (Lacks b'\n') all
    → Serves head all s
    → (messages : List Str) × Got messages all s
got head all s skips plain (ms, w) =
    let lines =
      All-prefix (Lacks b'\n') ms (in_hand s.phase ++ s.session.messages)
        (subst (All (Lacks b'\n')) (sym w.order) plain) in
    (
      ms,
      record {
        heard = ap receive w.out ∙ skips (frames ms) ∙ receive-frames ms w.full lines;
        in_order = w.order;
        none_empty = w.full;
      },
    )

-- The streams, with what was written when their loop starts.
pub data Opening : Type 0 where
  sse : Str → Opening
  streamable : Opening

abbrev pub opened : Opening → SseSession → SseStream
opened (sse session_id) x = react (resumes true) (open_sse session_id x)
opened streamable x = open_streamable x

abbrev pub IsPlain : Opening → Type 0
IsPlain (sse session_id) = Lacks b'\n' session_id
IsPlain streamable = Unit

-- A stream whose first event was written, on a session with no message that holds a line feed. Whatever
-- is pushed to the session, closes it and resumes the stream, in whichever order, with whichever writes
-- and flushes failing, and whatever becomes of the pushes that wait for room, a reader of what was
-- written gets messages that, followed by the one that the stream holds and by those in the queue, are
-- exactly the messages that joined the queue, in the order in which they joined: none is lost before a
-- later one, doubled or overtaken. None of those read is empty.
pub receive-run_stream :
    (o : Opening) (x : SseSession) (es : List StreamEvent)
    → IsPlain o
    → All (Lacks b'\n') (x.messages ++ queued_in es (opened o x))
    → (messages : List Str) × Got messages
        (x.messages ++ queued_in es (opened o x))
        (run_stream es (opened o x))
unfolding react resume_at write_text open_sse open_streamable frames
receive-run_stream (sse session_id) x es known plain =
    let head = endpoint session_id in
    let start = react (resumes true) (open_sse session_id x) in
    got head (x.messages ++ queued_in es start) (run_stream es start)
      (λ t.
        ap receive (
          append_assoc (lit "event: endpoint\ndata: /message?sessionId=")
            (session_id ++ b'\n' ∷ b'\n' ∷ []) t
          ∙ ap (λ r. lit "event: endpoint\ndata: /message?sessionId=" ++ r)
              (append_assoc session_id (b'\n' ∷ b'\n' ∷ []) t))
        ∙ receive-endpoint session_id t known)
      plain
      (run-Serves head es x.messages start (
        [],
        record { out = sym (append-nil head); order = refl; full = tt; begun = refl; held = tt },
      ))
receive-run_stream streamable x es known plain =
    got [] (x.messages ++ queued_in es (open_streamable x)) (run_stream es (open_streamable x))
      (λ t. refl) plain
      (run-Serves [] es x.messages (open_streamable x)
        ([], record { out = refl; order = refl; full = tt; begun = refl; held = tt }))
