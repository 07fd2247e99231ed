-- ===== src/HttpCommon/LengthSink.antt =====
-- http_content_length_data_sink_impl of http_common_patch.cc.
use mcp_server.Base.{
  ℕ, ◌+◌, ◌%◌, ◌^◌, ◌≤◌, ◌<◌, ◌≡◌, refl, sym, ap, subst, ◌∙◌, List, [], ◌∷◌, ◌++◌, arith, ltb,
  if◌then◌else◌, ◌==◌, nat_eq, Str, length, length-append, Outcome, returned, thrown, leb, ◌-◌, All,
}
use mathlib.Core.List.{append_assoc, append-nil}

-- The bytes on the stream, the announced length and the count that the caller sees.
pub record LengthSink : Type 0 where
  pub out : Str
  pub limit : ℕ
  pub bytes_written : ℕ

-- The constructor resets the count.
pub open_sink : Str → ℕ → ℕ → LengthSink
open_sink out total_len bytes_written = record { out = out; limit = total_len; bytes_written = 0 }

pub data SinkError : Type 0 where
  length_overflow : ℕ → ℕ → SinkError

-- `std::accumulate` over the sizes; a size_t wraps.
pub total_size : List Str → ℕ
total_size [] = 0
total_size (b ∷ bs) = (length b + total_size bs) % 2 ^ 64

abbrev pub flat : List Str → Str
flat [] = []
flat (b ∷ bs) = b ++ flat bs

-- `put`, where the write to the stream succeeds.
pub put : LengthSink → List Str → Outcome SinkError LengthSink
unfolding total_size
put s bufs =
    let size = total_size bufs in
    let after = (s.bytes_written + size) % 2 ^ 64 in
    if size == 0
    then returned s
    else if ltb s.limit after
    then thrown (length_overflow after s.limit)
    else returned (record s { out = s.out ++ flat bufs; bytes_written = after })

-- The two overloads that stand in its place below SEASTAR_API_LEVEL 9: a net::packet, by its bytes, and
-- one buffer.
pub put_packet : LengthSink → Str → Outcome SinkError LengthSink
put_packet s packet =
    let size = length packet in
    let after = (s.bytes_written + size) % 2 ^ 64 in
    if size == 0
    then returned s
    else if ltb s.limit after
    then thrown (length_overflow after s.limit)
    else returned (record s { out = s.out ++ packet; bytes_written = after })

pub put_buffer : LengthSink → Str → Outcome SinkError LengthSink
put_buffer s buf =
    let size = length buf in
    let after = (s.bytes_written + size) % 2 ^ 64 in
    if size == 0
    then returned s
    else if ltb s.limit after
    then thrown (length_overflow after s.limit)
    else returned (record s { out = s.out ++ buf; bytes_written = after })

-- A failed call leaves the sink as it was.
abbrev pub settle : LengthSink → Outcome SinkError LengthSink → LengthSink
settle s (returned t) = t
settle s (thrown e) = s

pub puts : LengthSink → List (List Str) → LengthSink
puts s [] = s
puts s (d ∷ ds) = puts (settle s (put s d)) ds

total_size-flat : (bs : List Str) → length (flat bs) < 2 ^ 64 → total_size bs ≡ length (flat bs)
unfolding total_size
total_size-flat [] h = refl
total_size-flat (b ∷ bs) h = omega (
  arith,
  length-append b (flat bs),
  total_size-flat bs (omega (arith, length-append b (flat bs))),
)

-- The meaning: a chunk of data that still fits goes out whole, one that does not is dropped.
unfoldable pub fitting : ℕ → List (List Str) → Str
fitting room [] = []
fitting room (d ∷ ds) =
    let n = length (flat d) in
    if leb n room then flat d ++ fitting (room - n) ds else fitting room ds

pub record Grown (s t : LengthSink) (payload : Str) : Type 0 where
  pub out : t.out ≡ s.out ++ payload
  pub limit : t.limit ≡ s.limit
  pub count : t.bytes_written ≡ s.bytes_written + length payload

-- The branches of `put` on the bytes themselves.
branches-Grown :
    (s : LengthSink) (p : Str)
    → s.bytes_written ≤ s.limit
    → s.limit < 2 ^ 63
    → length p < 2 ^ 63
    → Grown s
        (settle s (
          if length p == 0
          then returned s
          else if ltb s.limit ((s.bytes_written + length p) % 2 ^ 64)
          then thrown (length_overflow ((s.bytes_written + length p) % 2 ^ 64) s.limit)
          else returned (record s {
            out = s.out ++ p;
            bytes_written = (s.bytes_written + length p) % 2 ^ 64;
          })))
        (if leb (length p) (s.limit - s.bytes_written) then p else [])
branches-Grown s [] w l h = ground (arith, append-nil s.out)
branches-Grown s (c ∷ p) w l h = ground (arith, append-nil s.out)

-- One call: the data goes out whole if it fits, else nothing happens.
put-Grown :
    (s : LengthSink) (d : List Str)
    → s.bytes_written ≤ s.limit
    → s.limit < 2 ^ 63
    → length (flat d) < 2 ^ 63
    → Grown s
        (settle s (put s d))
        (if leb (length (flat d)) (s.limit - s.bytes_written) then flat d else [])
unfolding put
put-Grown s d w l h = rw (total_size-flat d (omega arith)) (branches-Grown s (flat d) w l h)

Grown-trans : {s t u : LengthSink} {p q : Str} → Grown s t p → Grown t u q → Grown s u (p ++ q)
Grown-trans {s} {p} {q} a b = record {
  out = b.out ∙ ap (λ o. o ++ q) a.out ∙ append_assoc s.out p q;
  limit = b.limit ∙ a.limit;
  count = omega (arith, a.count, b.count, length-append p q);
}

fitting-cons :
    (room : ℕ) (d : List Str) (ds : List (List Str))
    → let p = if leb (length (flat d)) room then flat d else [] in
      fitting room (d ∷ ds) ≡ p ++ fitting (room - length p) ds
unfolding fitting
fitting-cons room d ds = ground arith

-- A series of `put` calls on spans.
puts-Grown :
    (s : LengthSink) (ds : List (List Str))
    → s.bytes_written ≤ s.limit
    → s.limit < 2 ^ 63
    → All (λ d. length (flat d) < 2 ^ 63) ds
    → Grown s (puts s ds) (fitting (s.limit - s.bytes_written) ds)
      × ((puts s ds).bytes_written ≤ s.limit)
unfolding puts fitting
puts-Grown s [] w l h =
    (record { out = sym (append-nil s.out); limit = refl; count = omega arith }, w)
puts-Grown s (d ∷ ds) w l (h, hs) =
    let room = s.limit - s.bytes_written in
    let n = length (flat d) in
    let p = if leb n room then flat d else [] in
    let t = settle s (put s d) in
    let one = put-Grown s d w l h in
    let small : length p ≤ room = ground arith in
    let (rest, fits) =
      puts-Grown t ds (omega (arith, one.count, one.limit, small)) (omega (arith, one.limit)) hs in
    let left : t.limit - t.bytes_written ≡ room - length p = omega (arith, one.count, one.limit) in
    (
      subst (Grown s (puts t ds)) (ap (λ r. p ++ fitting r ds) left ∙ sym (fitting-cons room d ds))
          (Grown-trans one rest),
      omega (arith, fits, one.limit),
    )

-- A call of `put`: of a span at SEASTAR_API_LEVEL 9 and above, of a packet or a buffer below.
pub data Put : Type 0 where
  span : List Str → Put
  packet buffer : Str → Put

pub put_call : LengthSink → Put → Outcome SinkError LengthSink
unfolding put put_packet put_buffer
put_call s (span bufs) = put s bufs
put_call s (packet p) = put_packet s p
put_call s (buffer buf) = put_buffer s buf

pub put_calls : LengthSink → List Put → LengthSink
unfolding put_call
put_calls s [] = s
put_calls s (c ∷ cs) = put_calls (settle s (put_call s c)) cs

abbrev pub buffers_of : Put → List Str
buffers_of (span bufs) = bufs
buffers_of (packet p) = p ∷ []
buffers_of (buffer buf) = buf ∷ []

abbrev pub all_buffers : List Put → List (List Str)
all_buffers [] = []
all_buffers (c ∷ cs) = buffers_of c ∷ all_buffers cs

-- A packet and a buffer do what a span of one buffer with their bytes does.
put_call-put :
    (s : LengthSink) (c : Put)
    → length (flat (buffers_of c)) < 2 ^ 63
    → put_call s c ≡ put s (buffers_of c)
unfolding put_call put put_packet put_buffer
put_call-put s (span bufs) h = refl
put_call-put s (packet p) h = rw (total_size-flat (p ∷ []) (omega arith), append-nil p) refl
put_call-put s (buffer buf) h = rw (total_size-flat (buf ∷ []) (omega arith), append-nil buf) refl

put_calls-puts :
    (s : LengthSink) (cs : List Put)
    → All (λ d. length (flat d) < 2 ^ 63) (all_buffers cs)
    → put_calls s cs ≡ puts s (all_buffers cs)
unfolding put_calls puts
put_calls-puts s [] h = refl
put_calls-puts s (c ∷ cs) (h, hs) =
    ap (λ o. put_calls (settle s o) cs) (put_call-put s c h)
    ∙ put_calls-puts (settle s (put s (buffers_of c))) cs hs

-- At any API level a series of `put` calls on an open sink writes exactly the data that fits the room
-- left at its turn, each whole or not at all: the stream grows by it, and `bytes_written` counts it and
-- stays within the limit (sizes below 2^63, so that no sum wraps).
pub put_calls-Grown :
    (s : LengthSink) (cs : List Put)
    → s.bytes_written ≤ s.limit
    → s.limit < 2 ^ 63
    → All (λ d. length (flat d) < 2 ^ 63) (all_buffers cs)
    → Grown s (put_calls s cs) (fitting (s.limit - s.bytes_written) (all_buffers cs))
      × ((put_calls s cs).bytes_written ≤ s.limit)
put_calls-Grown s cs w l h =
    subst
      (λ t.
        Grown s t (fitting (s.limit - s.bytes_written) (all_buffers cs))
        × (t.bytes_written ≤ s.limit))
      (sym (put_calls-puts s cs h)) (puts-Grown s (all_buffers cs) w l h)
