-- ===== src/Transport/Streams/Progress.antt =====
-- That a stream goes on while its session is open, and ends when it is closed.
use mathlib.Core.List.{append_assoc, append-nil}
use mcp_server.Base.{
  ◌≡◌, refl, sym, ap, subst, if◌then◌else◌, ltb, length, Bool-cases, inl, inr, ◌∙◌, Bool, true,
  false, List, [], ◌∷◌, ◌++◌, Str, All,
}
use mcp_server.Server.Routes.{deactivate}
use mcp_server.Transport.Streams.{
  frame, StreamPhase, opening, looping, popping, holding, writing, flushing, closed, SseStream,
  broken, pop_message, write_text, resume_at, StreamEvent, closes, resumes, react, run_stream,
}
use mcp_server.Transport.Streams.Reading.{frames, IsMessage}

-- Five pieces of the loop for each message: the test, the pop, the test behind it, the write and the
-- flush.
pub rounds : List Str → List StreamEvent
rounds [] = []
rounds (m ∷ ms) =
    resumes true ∷ resumes true ∷ resumes true ∷ resumes true ∷ resumes true ∷ rounds ms

abbrev pub open_with : List Str → Str → SseStream
open_with queue out = record {
  session = record { messages = queue; waiting = []; active = true };
  phase = looping;
  out = out;
}

one_round :
    (m : Str) (rest : List Str) (out : Str)
    → IsMessage m
    → run_stream (rounds (m ∷ [])) (open_with (m ∷ rest) out) ≡ open_with rest (out ++ frame m)
unfolding run_stream rounds react resume_at pop_message write_text
one_round m rest out full = rw full refl

drained :
    (queue rest : List Str) (out : Str)
    → All IsMessage queue
    → run_stream (rounds queue) (open_with (queue ++ rest) out)
      ≡ open_with rest (out ++ frames queue)
unfolding run_stream rounds frames
drained [] rest out full = ap (open_with rest) (sym (append-nil out))
drained (m ∷ queue) rest out (one, full) =
    ap (run_stream (rounds queue)) (one_round m (queue ++ rest) out one)
    ∙ drained queue rest (out ++ frame m) full
    ∙ ap (open_with rest) (append_assoc out (frame m) (frames queue))

-- What a write under way still adds, if it succeeds.
abbrev pub under_way : StreamPhase → Bool → Str
under_way (opening text) written = if written then text else []
under_way (writing msg) written = if written then frame msg else []
under_way looping written = []
under_way popping written = []
under_way (holding msg) written = []
under_way flushing written = []
under_way (closed unsent) written = []

abbrev Ended : Str → SseStream → Type 0
Ended out t = (unsent : List Str) × (t.phase ≡ closed unsent) × (t.out ≡ out)

-- A session that is not active, with something in its queue.
abbrev shut : StreamPhase → Str → List Str → List Str → Str → SseStream
shut phase m messages waiting out = record {
  session = record { messages = m ∷ messages; waiting = waiting; active = false };
  phase = phase;
  out = out;
}

shut_ends :
    (p : StreamPhase) (m : Str) (ms ws : List Str) (out : Str) (first second third : Bool)
    → Ended (out ++ under_way p first) (
        react (resumes third) (react (resumes second) (react (resumes first) (shut p m ms ws out))))
unfolding react resume_at pop_message write_text broken
shut_ends (opening text) m ms ws out true true third = ([], refl, refl)
shut_ends (opening text) m ms ws out true false third = ([], refl, refl)
shut_ends (opening text) m ms ws out false second third = ([], refl, sym (append-nil out))
shut_ends looping m ms ws out first second third = ([], refl, sym (append-nil out))
shut_ends popping [] ms ws out first second third = ([] ∷ [], refl, sym (append-nil out))
shut_ends popping (c ∷ m) ms ws out first second third = ((c ∷ m) ∷ [], refl, sym (append-nil out))
shut_ends (holding []) m ms ws out first second third = ([] ∷ [], refl, sym (append-nil out))
shut_ends (holding (c ∷ n)) m ms ws out first second third =
    ((c ∷ n) ∷ [], refl, sym (append-nil out))
shut_ends (writing n) m ms ws out true true third = ([], refl, refl)
shut_ends (writing n) m ms ws out true false third = ([], refl, refl)
shut_ends (writing n) m ms ws out false second third = (n ∷ [], refl, sym (append-nil out))
shut_ends flushing m ms ws out true second third = ([], refl, sym (append-nil out))
shut_ends flushing m ms ws out false second third = ([], refl, sym (append-nil out))
shut_ends (closed unsent) m ms ws out first second third = (unsent, refl, sym (append-nil out))

-- What closing a session leaves of it.
deactivated :
    (queue ws : List Str) (on : Bool)
    → (m : Str) × (ms vs : List Str) × (deactivate
          (record { messages = queue; waiting = ws; active = on })
        ≡ record { messages = m ∷ ms; waiting = vs; active = false })
unfolding deactivate
deactivated [] ws on = ([], [], ws, refl)
deactivated (q ∷ qs) ws on = elim (Bool-cases (ltb (length (q ∷ qs)) 100)) [
  | inl room ↦ (q, qs ++ [] ∷ [], ws, rw room refl)
  | inr taken ↦ (q, qs, ws ++ [] ∷ [], rw taken refl)
]

-- An open session: five pieces of the loop for each message that waits, all of whose writes and flushes
-- succeed, write exactly these messages behind what was written, and the stream is ready for more. A
-- session that is closed, by DELETE or stop: whatever the stream was at, three pieces of the loop later
-- it has ended, and has written nothing more than the text whose write was under way, if that succeeds.
pub run_stream-rounds :
    (queue rest : List Str) (out : Str) (s : SseStream) (first second third : Bool)
    → All IsMessage queue
    → (run_stream (rounds queue) (open_with (queue ++ rest) out)
        ≡ open_with rest (out ++ frames queue))
      × (let t = run_stream (closes ∷ resumes first ∷ resumes second ∷ resumes third ∷ []) s in
          (unsent : List Str) × (t.phase ≡ closed unsent)
          × (t.out ≡ s.out ++ under_way s.phase first))
unfolding run_stream react
run_stream-rounds queue rest out s first second third full =
    let (m, ms, ws, e) = deactivated s.session.messages s.session.waiting s.session.active in
    (
      drained queue rest out full,
      subst
          (λ x. Ended (s.out ++ under_way s.phase first) (
            react (resumes third)
              (react (resumes second) (react (resumes first) (record s { session = x })))))
          (sym e) (shut_ends s.phase m ms ws s.out first second third),
    )
