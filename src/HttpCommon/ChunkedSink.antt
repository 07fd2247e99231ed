-- ===== src/HttpCommon/ChunkedSink.antt =====
-- http_chunked_data_sink_impl of http_common_patch.cc: each buffer becomes one chunk of HTTP chunked
-- transfer coding.
use mathlib.Core.List.{append_assoc, append-nil}
use mcp_server.Base.{
  ℕ, zero, suc, ◌+◌, ◌-◌, ◌*◌, ◌/◌, ◌%◌, ◌≤◌, ◌<◌, ◌≡◌, refl, sym, ap, ◌∙◌, ◌≢◌, inl, inr, false,
  List, [], ◌∷◌, ◌++◌, Option, none, some, arith, ltb, leb, if◌then◌else◌, ◌==◌, nat_eq, Str,
  length, take, drop, Bool-cases, take-length-append, drop-length-append,
}

abbrev hex_digit : ℕ → ℕ
hex_digit d = if ltb d 10 then 48 + d else 87 + d

-- `{:x}` of seastar::format, with a bound on the number of digits.
hex_digits : ℕ → ℕ → Str
hex_digits zero n = []
hex_digits (suc f) n =
    let high = hex_digits f (n / 16) in
    if ltb n 16 then hex_digit n ∷ [] else high ++ hex_digit (n % 16) ∷ []

pub to_hex : ℕ → Str
unfolding hex_digits
to_hex n = hex_digits (suc n) n

abbrev crlf : Str
crlf = 13 ∷ 10 ∷ []

-- `write_size`: what it adds to the stream.
pub write_size : Str → ℕ → Str
unfolding to_hex
write_size out s = out ++ (to_hex s ++ crlf)

-- `do_put`: an empty buffer is ignored.
pub do_put : Str → Str → Str
unfolding write_size
do_put out buf = if length buf == 0 then out else (write_size out (length buf) ++ buf) ++ crlf

-- `put` of a span of buffers, by data_sink_impl::fallback_put one at a time.
pub put : Str → List Str → Str
put out [] = out
put out (buf ∷ bufs) = put (do_put out buf) bufs

abbrev pub joined : List Str → Str
joined [] = []
joined (b ∷ bs) = b ++ joined bs

-- A receiver of chunked coding, up to the end of its input or a chunk of size 0. It reads a size in
-- hexadecimal, CR LF, that many bytes and CR LF.
abbrev hex_value : ℕ → ℕ
hex_value c = if leb c 57 then c - 48 else c - 87

read_size : ℕ → Str → ℕ × Str
read_size acc [] = (acc, [])
read_size acc (c ∷ s) = if c == 13 then (acc, c ∷ s) else read_size (acc * 16 + hex_value c) s

abbrev skip_crlf : Str → Option Str
skip_crlf (a ∷ b ∷ s) = if a == 13 then (if b == 10 then some s else none) else none
skip_crlf _ = none

abbrev then_rest : Str → Option Str → Option Str
then_rest body none = none
then_rest body (some rest) = some (body ++ rest)

-- After the size: the bytes of the chunk, and what the rest of the input gives.
abbrev receive_chunk : ℕ → Option Str → (Str → Option Str) → Option Str
receive_chunk n none next = none
receive_chunk n (some body) next = elim (skip_crlf (drop n body)) [
  | none ↦ none
  | some more ↦ let rest = next more in if n == 0 then some [] else then_rest (take n body) rest
]

abbrev receive_sized : ℕ × Str → (Str → Option Str) → Option Str
receive_sized (n, r) next = receive_chunk n (skip_crlf r) next

unfoldable pub receive : ℕ → Str → Option Str
unfolding read_size
receive zero s = none
receive (suc f) [] = some []
receive (suc f) (c ∷ s) = receive_sized (read_size 0 (c ∷ s)) (receive f)

hex_value-hex_digit : (d : ℕ) → d < 16 → hex_value (hex_digit d) ≡ d
hex_value-hex_digit d h = ground arith

hex_digit-ne-cr : (d : ℕ) → hex_digit d ≢ 13
hex_digit-ne-cr d = ground arith

read_size-hex_digits :
    (f n : ℕ) (rest : Str) → n < f → read_size 0 (hex_digits f n ++ rest) ≡ read_size n rest
unfolding hex_digits read_size
read_size-hex_digits zero n rest h = absurd (omega arith)
read_size-hex_digits (suc f) n rest h =
    let d = hex_digit (n % 16) in
    elim (Bool-cases (ltb n 16)) [
      | inl small ↦ rw small (ground (arith, hex_digit-ne-cr n, hex_value-hex_digit n))
      | inr big ↦
          rw (big, append_assoc (hex_digits f (n / 16)) (d ∷ []) rest)
            (read_size-hex_digits f (n / 16) (d ∷ rest) (ground arith)
              ∙ ground (arith, hex_digit-ne-cr (n % 16), hex_value-hex_digit (n % 16)))
    ]

append-cons-ne-nil : (s : Str) (c : ℕ) (t : Str) → s ++ c ∷ t ≢ []
append-cons-ne-nil [] c t e = cc
append-cons-ne-nil (x ∷ s) c t e = cc

receive-ne-nil :
    (f : ℕ) (s : Str) → s ≢ [] → receive (suc f) s ≡ receive_sized (read_size 0 s) (receive f)
unfolding receive
receive-ne-nil f [] h = absurd (h refl)
receive-ne-nil f (c ∷ s) h = refl

receive_chunk-append :
    (buf rest : Str) (next : Str → Option Str)
    → length buf ≢ 0
    → receive_chunk (length buf) (some (buf ++ (13 ∷ 10 ∷ rest))) next ≡ then_rest buf (next rest)
receive_chunk-append buf rest next h =
    let body = buf ++ (13 ∷ 10 ∷ rest) in
    let n = length buf in
    ap
      (λ (o : Option Str). elim o [
        | none ↦ none
        | some more ↦
            let later = next more in if n == 0 then some [] else then_rest (take n body) later
      ])
      (ap skip_crlf (drop-length-append buf (13 ∷ 10 ∷ rest)))
    ∙ (ground (arith, take-length-append buf (13 ∷ 10 ∷ rest)))

-- One chunk in front.
receive-chunk :
    (f : ℕ) (buf rest : Str)
    → length buf ≢ 0
    → receive (suc f) (to_hex (length buf) ++ (13 ∷ 10 ∷ (buf ++ (13 ∷ 10 ∷ rest))))
      ≡ then_rest buf (receive f rest)
unfolding to_hex read_size
receive-chunk f buf rest h =
    let n = length buf in
    let tail = buf ++ (13 ∷ 10 ∷ rest) in
    receive-ne-nil f (to_hex n ++ (13 ∷ 10 ∷ tail)) (append-cons-ne-nil (to_hex n) 13 (10 ∷ tail))
    ∙ ap (λ r. receive_sized r (receive f))
        (read_size-hex_digits (suc n) n (13 ∷ 10 ∷ tail) (omega arith))
    ∙ receive_chunk-append buf rest (receive f) h

-- What `put` adds to the stream.
encoded : List Str → Str
encoded [] = []
encoded ([] ∷ bs) = encoded bs
encoded ((c ∷ b) ∷ bs) = to_hex (suc (length b)) ++ (13 ∷ 10 ∷ (c ∷ b ++ (13 ∷ 10 ∷ encoded bs)))

put-encoded : (out : Str) (bs : List Str) → put out bs ≡ out ++ encoded bs
unfolding put do_put write_size encoded
put-encoded out [] = sym (append-nil out)
put-encoded out ([] ∷ bs) = put-encoded out bs
put-encoded out ((c ∷ b) ∷ bs) =
    let full : (length (c ∷ b) == 0) ≡ false = ground arith in
    rw full (
      put-encoded (((out ++ (to_hex (length (c ∷ b)) ++ crlf)) ++ c ∷ b) ++ crlf) bs
      ∙ simp append_assoc)

receive-encoded :
    (bs : List Str) (f : ℕ) → length bs ≤ f → receive (suc f) (encoded bs) ≡ some (joined bs)
unfolding encoded receive
receive-encoded [] f h = refl
receive-encoded ([] ∷ bs) f h = receive-encoded bs f (omega arith)
receive-encoded ((c ∷ b) ∷ bs) zero h = absurd (omega arith)
receive-encoded ((c ∷ b) ∷ bs) (suc f) h =
    receive-chunk (suc f) (c ∷ b) (encoded bs) (omega arith)
    ∙ ap (then_rest (c ∷ b)) (receive-encoded bs f (omega arith))

-- A receiver of chunked coding gets back the bytes of the buffers in order, whatever the buffers and
-- whichever of them are empty; `f` is any bound on the number of buffers.
pub receive-put :
    (bufs : List Str) (f : ℕ) → length bufs ≤ f → receive (suc f) (put [] bufs) ≡ some (joined bufs)
receive-put bufs f h = ap (receive (suc f)) (put-encoded [] bufs) ∙ receive-encoded bufs f h
