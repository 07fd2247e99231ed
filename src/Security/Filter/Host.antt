-- ===== src/Security/Filter/Host.antt =====
-- A big-endian host on which four texts are addresses, for the tests.
use mcp_server.Base.{
  ℕ, ◌+◌, ◌*◌, ◌^◌, ◌<◌, ◌≡◌, refl, Option, none, some, arith, if◌then◌else◌, ◌==◌, Str, str_eq,
  str_beq_iff, lit,
}
use mcp_server.Security.Filter.Platform.{Sockets}

abbrev pub quad : ℕ → ℕ → ℕ → ℕ → ℕ
quad a b c d = ((a * 256 + b) * 256 + c) * 256 + d

abbrev pub known : Str → Option ℕ
known s =
    if s == lit "0.0.0.0"
    then some 0
    else if s == lit "10.0.0.0"
    then some (quad 10 0 0 0)
    else if s == lit "10.1.2.3"
    then some (quad 10 1 2 3)
    else if s == lit "10.1.0.0"
    then some (quad 10 1 0 0)
    else none

pub known_zero : (s : Str) → known s ≡ some 0 → s ≡ lit "0.0.0.0"
known_zero s e = ground (arith, str_beq_iff s (lit "0.0.0.0"))

pub known_range : (s : Str) (a : ℕ) → known s ≡ some a → (h : ℕ) × (h < 2 ^ 32) × (a ≡ h)
known_range s a e = (a, ground arith, refl)

abbrev pub host : Sockets
host = record {
  inet_pton = known;
  htonl = λ a. a;
  htonl-and = λ a b _ _. refl;
  htonl-injective = λ a b _ _ e. e;
  htonl-zero = refl;
  inet_pton_range = known_range;
  inet_pton_zero = λ s _ e. known_zero s e;
}
