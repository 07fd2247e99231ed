-- ===== src/Transport/Streams/Reading.antt =====
-- A reader of event streams.
use mathlib.Core.List.{append_assoc, append-nil}
use mcp_server.Base.{
  ℕ, ◌≡◌, refl, sym, ap, ◌∙◌, ◌≢◌, Bool, true, false, ◌||◌, List, [], ◌∷◌, ◌++◌, arith,
  if◌then◌else◌, ◌==◌, nat_eq, Str, str_eq, str_beq, lit, is_empty, drop, All, All-append, Lacks,
  starts_with,
}
use mcp_server.Transport.Streams.{frame}

abbrev prepend : ℕ → List Str → List Str
prepend c [] = (c ∷ []) ∷ []
prepend c (l ∷ ls) = (c ∷ l) ∷ ls

-- The complete lines of a text and what stands behind the last line feed.
pub lines : Str → List Str
lines [] = [] ∷ []
lines (c ∷ s) = let rest = lines s in if c == b'\n' then [] ∷ rest else prepend c rest

-- A reader of event streams that keeps the data of unnamed events of one data line: a line
-- `event: endpoint` names the event that it starts, and a blank line ends an event.
pub events : Bool → Str → List Str → List Str
events named payload [] = []
events named payload (l ∷ ls) =
    let ended = events false [] ls in
    let skipped = events named payload ls in
    let announced = events true payload ls in
    let filled = events named (drop 6 l) ls in
    if is_empty l
    then if named || is_empty payload then ended else payload ∷ ended
    else if starts_with (lit "data: ") l
    then filled
    else if l == lit "event: endpoint"
    then announced
    else skipped

pub receive : Str → List Str
unfolding lines events
receive s = events false [] (lines s)

lines-line : (a s : Str) → Lacks b'\n' a → lines (a ++ b'\n' ∷ s) ≡ a ∷ lines s
unfolding lines
lines-line [] s h = refl
lines-line (c ∷ a) s (n, h) = rw (lines-line a s h) (ground (arith, n))

pub receive-frame :
    (c : ℕ) (msg s : Str)
    → Lacks b'\n' (c ∷ msg)
    → receive (frame (c ∷ msg) ++ s) ≡ (c ∷ msg) ∷ receive s
unfolding receive events frame lit starts_with lines str_beq
receive-frame c msg s h =
    let line = lit "data: " ++ (c ∷ msg) in
    let split : lines (frame (c ∷ msg) ++ s) ≡ line ∷ [] ∷ lines s =
      ap (λ t. lines (lit "data: " ++ t)) (append_assoc (c ∷ msg) (b'\n' ∷ b'\n' ∷ []) s)
      ∙ lines-line line (b'\n' ∷ s) (
        omega arith,
        (omega arith, (omega arith, (omega arith, (omega arith, (omega arith, h))))),
      ) in
    ap (events false []) split

-- The first event of the SSE transport is named, and not a message.
pub receive-endpoint :
    (session_id s : Str)
    → Lacks b'\n' session_id
    → receive
        (lit "event: endpoint\ndata: /message?sessionId=" ++ (session_id ++ b'\n' ∷ b'\n' ∷ s))
      ≡ receive s
unfolding receive events lit starts_with lines str_beq
receive-endpoint session_id s h = ap (events false []) (
    lines-line (lit "event: endpoint")
      (lit "data: /message?sessionId=" ++ (session_id ++ b'\n' ∷ b'\n' ∷ s)) (omega arith)
    ∙ ap (◌∷◌ (lit "event: endpoint")) (
        lines-line (lit "data: /message?sessionId=" ++ session_id) (b'\n' ∷ s) (
          All-append (λ x. x ≢ b'\n') (lit "data: /message?sessionId=") session_id (omega arith)
            h)))

-- The events of a list of messages.
unfoldable pub frames : List Str → Str
frames [] = []
frames (m ∷ ms) = frame m ++ frames ms

pub frames-snoc : (ms : List Str) (m : Str) → frames (ms ++ m ∷ []) ≡ frames ms ++ frame m
unfolding frames
frames-snoc [] m = append-nil (frame m)
frames-snoc (n ∷ ms) m =
    ap (λ s. frame n ++ s) (frames-snoc ms m) ∙ sym (append_assoc (frame n) (frames ms) (frame m))

abbrev pub IsMessage : Str → Type 0
IsMessage m = is_empty m ≡ false

receive-message : (m s : Str) → IsMessage m → Lacks b'\n' m → receive (frame m ++ s) ≡ m ∷ receive s
receive-message [] s e h = cc
receive-message (c ∷ m) s e h = receive-frame c m s h

pub receive-frames :
    (ms : List Str) → All IsMessage ms → All (Lacks b'\n') ms → receive (frames ms) ≡ ms
unfolding frames receive events lines
receive-frames [] e h = refl
receive-frames (m ∷ ms) (e, es) (h, hs) =
    receive-message m (frames ms) e h ∙ ap (◌∷◌ m) (receive-frames ms es hs)
