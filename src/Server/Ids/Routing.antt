-- ===== src/Server/Ids/Routing.antt =====
-- The shard read out of a session id is the shard that issued it.
use mcp_server.Base.{
  ℕ, ◌^◌, ◌<◌, ◌≡◌, refl, ap, ◌∙◌, ◌≢◌, [], ◌∷◌, ◌++◌, arith, All, Str, length, to_string,
  to_string-IsDigit, to_string-ne-nil, IsDigit, find_byte, Lacks, find_byte-append, drop, take,
  take-length-append, stoul, stoul-digits,
}
use mcp_server.Server.Ids.{
  session_id, streamable_id, sse_parse_shard, streamable_parse_shard, unsigned_or_zero, has_byte,
  parse_from, number_at, prefix_end,
}

digits-Lacks : (t : Str) → All IsDigit t → Lacks b'_' t
digits-Lacks [] h = tt
digits-Lacks (c ∷ t) (d, h) = (λ e. ground (arith, d, e), digits-Lacks t h)

to_string-Lacks : (n : ℕ) → Lacks b'_' (to_string n)
to_string-Lacks n = digits-Lacks (to_string n) (to_string-IsDigit n)

-- The number between a prefix of one letter and the underscore.
sse_parse_shard_at :
    (t u : Str)
    → Lacks b'_' t
    → t ≢ []
    → sse_parse_shard (b's' ∷ (t ++ b'_' ∷ u)) ≡ unsigned_or_zero (stoul t)
unfolding sse_parse_shard has_byte find_byte
sse_parse_shard_at [] u h n = absurd (n refl)
sse_parse_shard_at (c ∷ t) u h n =
    rw (find_byte-append b'_' (c ∷ t) u h)
      (ground (arith, ap (λ x. unsigned_or_zero (stoul x)) (take-length-append (c ∷ t) (b'_' ∷ u))))

parse_from_at :
    (id : Str) (start : ℕ) (t u : Str)
    → drop start id ≡ t ++ b'_' ∷ u
    → Lacks b'_' t
    → t ≢ []
    → parse_from id start ≡ unsigned_or_zero (stoul t)
unfolding parse_from number_at
parse_from_at id start [] u e h n = absurd (n refl)
parse_from_at id start (c ∷ t) u e h n =
    ap (number_at id start) (ap (find_byte b'_') e ∙ find_byte-append b'_' (c ∷ t) u h)
    ∙ ground (
      arith,
      ap (λ x. unsigned_or_zero (stoul x))
          (ap (take (length (c ∷ t))) e ∙ take-length-append (c ∷ t) (b'_' ∷ u)),
    )

streamable_parse_shard_at :
    (t u : Str)
    → Lacks b'_' t
    → t ≢ []
    → streamable_parse_shard (b's' ∷ b'm' ∷ (t ++ b'_' ∷ u)) ≡ unsigned_or_zero (stoul t)
unfolding streamable_parse_shard prefix_end has_byte
streamable_parse_shard_at [] u h n = absurd (n refl)
streamable_parse_shard_at (c ∷ t) u h n =
    ap (parse_from (b's' ∷ b'm' ∷ ((c ∷ t) ++ b'_' ∷ u))) {y = 2} (ground arith)
    ∙ parse_from_at (b's' ∷ b'm' ∷ ((c ∷ t) ++ b'_' ∷ u)) 2 (c ∷ t) u refl h n

-- The streamable transport reads the ids of the SSE transport as well.
streamable_parse_shard-sse :
    (t u : Str)
    → All IsDigit t
    → t ≢ []
    → streamable_parse_shard (b's' ∷ (t ++ b'_' ∷ u)) ≡ unsigned_or_zero (stoul t)
unfolding streamable_parse_shard prefix_end has_byte
streamable_parse_shard-sse [] u h n = absurd (n refl)
streamable_parse_shard-sse (c ∷ t) u (d, h) n =
    ap (parse_from (b's' ∷ ((c ∷ t) ++ b'_' ∷ u))) {y = 1} (ground (arith, d))
    ∙ parse_from_at (b's' ∷ ((c ∷ t) ++ b'_' ∷ u)) 1 (c ∷ t) u refl (digits-Lacks (c ∷ t) (d, h)) n

-- For a shard number of 32 bits, both transports read it back from the id that create_session
-- issues, and the streamable transport from its own ids.
pub parse_shard-id :
    (shard counter : ℕ)
    → shard < 2 ^ 32
    → (sse_parse_shard (session_id shard counter) ≡ shard)
      × (streamable_parse_shard (session_id shard counter) ≡ shard)
      × (streamable_parse_shard (streamable_id shard counter) ≡ shard)
unfolding session_id streamable_id unsigned_or_zero
parse_shard-id shard counter h =
    let digits = to_string shard in
    let read : unsigned_or_zero (stoul digits) ≡ shard =
      ap unsigned_or_zero (stoul-digits shard (omega arith)) ∙ ground arith in
    (
      sse_parse_shard_at digits (to_string counter) (to_string-Lacks shard) (to_string-ne-nil shard)
          ∙ read,
      streamable_parse_shard-sse digits (to_string counter) (to_string-IsDigit shard)
            (to_string-ne-nil shard)
          ∙ read,
      streamable_parse_shard_at digits (to_string counter) (to_string-Lacks shard)
            (to_string-ne-nil shard)
          ∙ read,
    )
