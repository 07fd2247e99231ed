-- ===== src/Server/Ids/Fresh.antt =====
-- Ids of one shard are told apart by their counter and by the transport that issues them.
use mcp_server.Base.{
  ℕ, suc, ◌≡◌, refl, sym, ap, ◌∙◌, ◌≢◌, some, none, Option, [], ◌∷◌, ◌++◌, arith, All, Str, length,
  drop, to_string, to_string-IsDigit, to_string-ne-nil, IsDigit, Signed, scan_number,
  scan_number-to_string, drop-suc-length-append,
}
use mathlib.Core.List.{append-nil}
use mcp_server.Server.Ids.{session_id, streamable_id, numbers}

abbrev magnitude_or_zero : Option Signed → ℕ
magnitude_or_zero none = 0
magnitude_or_zero (some n) = n.magnitude

scan-to_string : (n : ℕ) → magnitude_or_zero (scan_number (to_string n)) ≡ n
scan-to_string n =
    ap (λ t. magnitude_or_zero (scan_number t)) (sym (append-nil (to_string n)))
    ∙ ap magnitude_or_zero (scan_number-to_string n [] tt)

numbers-inj : (shard k l : ℕ) → numbers shard k ≡ numbers shard l → k ≡ l
numbers-inj shard k l e =
    let count : Str → ℕ =
      λ t. magnitude_or_zero (scan_number (drop (suc (length (to_string shard))) t)) in
    let counted : (n : ℕ) → count (numbers shard n) ≡ n = λ n.
      ap (λ t. magnitude_or_zero (scan_number t))
        (drop-suc-length-append (to_string shard) b'_' (to_string n))
      ∙ scan-to_string n in
    sym (counted k) ∙ (ap count e ∙ counted l)

pub session_id-inj : (shard k l : ℕ) → session_id shard k ≡ session_id shard l → k ≡ l
unfolding session_id
session_id-inj shard k l e = numbers-inj shard k l (ap (drop 1) e)

pub streamable_id-inj : (shard k l : ℕ) → streamable_id shard k ≡ streamable_id shard l → k ≡ l
unfolding streamable_id
streamable_id-inj shard k l e = numbers-inj shard k l (ap (drop 2) e)

digits-ne-letter : (t u v : Str) → All IsDigit t → t ≢ [] → t ++ u ≢ b'm' ∷ v
digits-ne-letter [] u v h n e = n refl
digits-ne-letter (c ∷ t) u v (d, h) n e = ground (arith, d, e)

pub session_id-ne-streamable_id : (shard k l : ℕ) → session_id shard k ≢ streamable_id shard l
unfolding session_id streamable_id
session_id-ne-streamable_id shard k l e =
    digits-ne-letter (to_string shard) (b'_' ∷ to_string k) (numbers shard l)
      (to_string-IsDigit shard) (to_string-ne-nil shard) (ap (drop 1) e)
