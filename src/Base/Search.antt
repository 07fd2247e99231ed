-- ===== src/Base/Search.antt =====
-- std::string::find, substr and rfind at 0. `none` stands for npos.
use Prim.Native.Nat.{ℕ, suc}
use mathlib.Core.Path.{◌≡◌, refl, ap}
use mathlib.Core.Bool.{Bool, true, false, ◌&&◌}
use mathlib.Core.Logic.{◌≢◌}
use mathlib.Core.Option
use mathlib.Core.Option.{Option, none, some}
use mathlib.Core.List.{[], ◌∷◌, ◌++◌}
use native.Mathlib.Omega.{arith}
use mcp_server.Base.Tests.{if◌then◌else◌, ◌==◌, nat_eq}
use mcp_server.Base.Lists.{take, drop, length, All}
use mcp_server.Base.Bytes.{Str}

-- `s.find(c)`
unfoldable pub find_byte : ℕ → Str → Option ℕ
find_byte c [] = none
find_byte c (x ∷ s) = if x == c then some 0 else Option.map suc (find_byte c s)

-- `s.substr(from, count)`, for `from` within the text
abbrev pub substr : Str → ℕ → ℕ → Str
substr s from count = take count (drop from s)

-- `s.rfind(t, 0) == 0`
unfoldable pub starts_with : Str → Str → Bool
starts_with [] s = true
starts_with (x ∷ t) [] = false
starts_with (x ∷ t) (y ∷ s) = x == y && starts_with t s

-- `s.find(t) != npos`
unfoldable pub contains_text : Str → Str → Bool
unfolding starts_with
contains_text t [] = starts_with t []
contains_text t (x ∷ s) = if starts_with t (x ∷ s) then true else contains_text t s

abbrev pub Lacks : ℕ → Str → Type 0
Lacks c s = All (λ x. x ≢ c) s

-- The first occurrence splits the text.
pub find_byte-append : (c : ℕ) (s t : Str) → Lacks c s → find_byte c (s ++ c ∷ t) ≡ some (length s)
unfolding find_byte
find_byte-append c [] t h = ground arith
find_byte-append c (x ∷ s) t (n, h) = rw (find_byte-append c s t h) (ground arith)

pub find_byte-none : (c : ℕ) (s : Str) → Lacks c s → find_byte c s ≡ none
unfolding find_byte
find_byte-none c [] h = refl
find_byte-none c (x ∷ s) (n, h) = rw (find_byte-none c s h) (ground arith)

pub take-length-append : (s t : Str) → take (length s) (s ++ t) ≡ s
take-length-append [] t = refl
take-length-append (x ∷ s) t = ap (◌∷◌ x) (take-length-append s t)

pub drop-length-append : (s t : Str) → drop (length s) (s ++ t) ≡ t
drop-length-append [] t = refl
drop-length-append (x ∷ s) t = drop-length-append s t

pub drop-suc-length-append : (s : Str) (c : ℕ) (t : Str) → drop (suc (length s)) (s ++ c ∷ t) ≡ t
drop-suc-length-append [] c t = refl
drop-suc-length-append (x ∷ s) c t = drop-suc-length-append s c t
