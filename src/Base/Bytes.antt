-- ===== src/Base/Bytes.antt =====
-- std::string as a sequence of bytes: literals, equality, search, decimal numbers.
use Prim.Native.Nat.{ℕ, ◌+◌, ◌/◌, ◌%◌}
use Prim.Native.Char.{code}
use Prim.Native.String.{String}
use mathlib.Core.Path.{◌≡◌}
use mathlib.Core.Logic.{◌↔◌}
use mathlib.Core.Bool.{Bool, true, false, ◌&&◌}
use mathlib.Core.List.{List, [], ◌∷◌, ◌++◌}
use native.Mathlib.Omega.{arith}
use mcp_server.Base.Tests.{ltb, if◌then◌else◌, Eq, ◌==◌, nat_eq}

abbrev pub Str : Type 0
Str = List ℕ

-- The UTF-8 bytes of a code point.
utf8 : ℕ → Str
utf8 c =
    if ltb c 0x80
    then c ∷ []
    else if ltb c 0x800
    then (0xc0 + c / 64) ∷ (0x80 + c % 64) ∷ []
    else if ltb c 0x10000
    then (0xe0 + c / 4096) ∷ (0x80 + c / 64 % 64) ∷ (0x80 + c % 64) ∷ []
    else (0xf0 + c / 262144) ∷ (0x80 + c / 4096 % 64) ∷ (0x80 + c / 64 % 64) ∷ (0x80 + c % 64) ∷ []

-- A string literal of the source.
unfoldable pub lit : String → Str
unfolding utf8
lit String.[] = []
lit (String.◌∷◌ c s) = utf8 (code c) ++ lit s

unfoldable pub str_beq : Str → Str → Bool
str_beq [] [] = true
str_beq [] (b ∷ t) = false
str_beq (a ∷ s) [] = false
str_beq (a ∷ s) (b ∷ t) = a == b && str_beq s t

pub str_beq_iff : (s t : Str) → (str_beq s t ≡ true) ↔ (s ≡ t)
unfolding str_beq
str_beq_iff [] [] = ground arith
str_beq_iff [] (b ∷ t) = ground arith
str_beq_iff (a ∷ s) [] = ground arith
str_beq_iff (a ∷ s) (b ∷ t) = ground (arith, str_beq_iff s t)

instance abbrev pub str_eq : Eq Str
str_eq = record { agree = str_beq; agree_iff = str_beq_iff }
