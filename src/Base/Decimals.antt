-- ===== src/Base/Decimals.antt =====
-- std::to_string on unsigned numbers, and std::stoi, stoul and stoull in base 10.
use Prim.Native.Nat.{ℕ, zero, suc, ◌+◌, ◌-◌, ◌*◌, ◌/◌, ◌%◌, ◌^◌, ◌<◌}
use mathlib.Core.Path.{◌≡◌, refl, ap, sym, ◌∙◌}
use mathlib.Core.Bool.{Bool, true, false, ◌&&◌, ◌||◌}
use mathlib.Core.Logic.{◌≢◌, inl, inr}
use mathlib.Core.Option.{Option, none, some}
use mathlib.Core.List.{[], ◌∷◌, ◌++◌, append_assoc, append-nil}
use native.Mathlib.Omega.{arith}
use mcp_server.Base.Tests.{ltb, leb, if◌then◌else◌, ◌==◌, nat_eq, Bool-cases}
use mcp_server.Base.Lists.{All, All-append}
use mcp_server.Base.Bytes.{Str}
use mcp_server.Base.Outcomes.{Outcome, returned, thrown}

-- The digits of `n`, with a bound on their number.
digits : ℕ → ℕ → Str
digits zero n = []
digits (suc f) n =
    let high = digits f (n / 10) in if ltb n 10 then (48 + n) ∷ [] else high ++ (48 + n % 10) ∷ []

unfoldable pub to_string : ℕ → Str
unfolding digits
to_string n = digits (suc n) n

abbrev pub is_digit : ℕ → Bool
is_digit c = leb 48 c && leb c 57

-- isspace in the C locale.
abbrev pub is_space : ℕ → Bool
is_space c = c == 32 || (leb 9 c && leb c 13)

-- The number read so far, extended by the digits in front.
unfoldable pub scan_digits : ℕ → Str → ℕ
scan_digits acc [] = acc
scan_digits acc (c ∷ s) = if is_digit c then scan_digits (acc * 10 + (c - 48)) s else acc

-- A magnitude, if a digit stands in front.
unfoldable pub scan_magnitude : Str → Option ℕ
unfolding scan_digits
scan_magnitude [] = none
scan_magnitude (c ∷ s) = if is_digit c then some (scan_digits 0 (c ∷ s)) else none

-- The parsing rule of strtol: blanks, a sign, digits; the rest is ignored.
pub record Signed : Type 0 where
  pub negative : Bool
  pub magnitude : ℕ

abbrev signed : Bool → Option ℕ → Option Signed
signed sign none = none
signed sign (some m) = some (record { negative = sign; magnitude = m })

scan_sign : Str → Option Signed
unfolding scan_magnitude
scan_sign [] = none
scan_sign (c ∷ s) =
    if c == 45
    then signed true (scan_magnitude s)
    else if c == 43
    then signed false (scan_magnitude s)
    else signed false (scan_magnitude (c ∷ s))

unfoldable pub scan_number : Str → Option Signed
unfolding scan_sign
scan_number [] = none
scan_number (c ∷ s) = if is_space c then scan_number s else scan_sign (c ∷ s)

-- What the number parsers of the standard library throw.
pub data NumberError : Type 0 where
  not_a_number not_in_range : NumberError

-- An `int`: its sign and magnitude, within 32 bits.
unfoldable pub stoi : Str → Outcome NumberError Signed
unfolding scan_number
stoi s = elim (scan_number s) [
  | none ↦ thrown not_a_number
  | some n ↦
      if leb n.magnitude (if n.negative then 2147483648 else 2147483647)
      then returned n
      else thrown not_in_range
]

-- An unsigned number of 64 bits; a minus sign wraps it around.
unfoldable pub stoul : Str → Outcome NumberError ℕ
unfolding scan_number
stoul s = elim (scan_number s) [
  | none ↦ thrown not_a_number
  | some n ↦
      if ltb n.magnitude (2 ^ 64)
      then returned (if n.negative then (2 ^ 64 - n.magnitude) % 2 ^ 64 else n.magnitude)
      else thrown not_in_range
]

abbrev pub IsDigit : ℕ → Type 0
IsDigit c = is_digit c ≡ true

-- A text that is empty or goes on with something else than a digit.
abbrev pub StartsPlain : Str → Type 0
StartsPlain [] = Unit {0}
StartsPlain (c ∷ s) = is_digit c ≡ false

last-IsDigit : (n : ℕ) → IsDigit (48 + n % 10)
last-IsDigit n = ground arith

digits-IsDigit : (f n : ℕ) → All IsDigit (digits f n)
unfolding digits
digits-IsDigit zero n = tt
digits-IsDigit (suc f) n = ground (
  arith,
  last-IsDigit n,
  All-append IsDigit (digits f (n / 10)) ((48 + n % 10) ∷ []) (digits-IsDigit f (n / 10))
      (last-IsDigit n, tt),
)

pub to_string-IsDigit : (n : ℕ) → All IsDigit (to_string n)
unfolding to_string
to_string-IsDigit n = digits-IsDigit (suc n) n

scan_digits-digits :
    (f n : ℕ) (rest : Str) → n < f → scan_digits 0 (digits f n ++ rest) ≡ scan_digits n rest
unfolding digits scan_digits
scan_digits-digits zero n rest h = absurd (omega arith)
scan_digits-digits (suc f) n rest h =
    let more = scan_digits-digits f (n / 10) ((48 + n % 10) ∷ rest) in
    elim (Bool-cases (ltb n 10)) [
      | inl small ↦ rw small (ground arith)
      | inr big ↦
          rw (big, append_assoc (digits f (n / 10)) ((48 + n % 10) ∷ []) rest)
            (ground (arith, more))
    ]

scan_digits-plain : (n : ℕ) (rest : Str) → StartsPlain rest → scan_digits n rest ≡ n
unfolding scan_digits
scan_digits-plain n [] h = refl
scan_digits-plain n (c ∷ s) h = rw h

-- A text that starts with a digit is read as a magnitude.
scan_number_of_digit :
    (c : ℕ) (s : Str)
    → IsDigit c
    → scan_number (c ∷ s) ≡ some (record { negative = false; magnitude = scan_digits 0 (c ∷ s) })
unfolding scan_number scan_magnitude
scan_number_of_digit c s h = ground arith

scan_number_of_digits :
    (t s : Str)
    → All IsDigit t
    → t ≢ []
    → scan_number (t ++ s) ≡ some (record { negative = false; magnitude = scan_digits 0 (t ++ s) })
scan_number_of_digits [] s a h = absurd (h refl)
scan_number_of_digits (c ∷ t) s a h = scan_number_of_digit c (t ++ s) a.0

append-ne-nil : (s : Str) (c : ℕ) → s ++ c ∷ [] ≢ []
append-ne-nil [] c e = cc
append-ne-nil (x ∷ s) c e = cc

digits-ne-nil : (f n : ℕ) → n < f → digits f n ≢ []
unfolding digits
digits-ne-nil zero n h = absurd (omega arith)
digits-ne-nil (suc f) n h = elim (Bool-cases (ltb n 10)) [
  | inl small ↦ rw small (λ e. cc)
  | inr big ↦ rw big (append-ne-nil (digits f (n / 10)) (48 + n % 10))
]

pub to_string-ne-nil : (n : ℕ) → to_string n ≢ []
unfolding to_string
to_string-ne-nil n = digits-ne-nil (suc n) n (omega arith)

pub scan_number-to_string :
    (n : ℕ) (rest : Str)
    → StartsPlain rest
    → scan_number (to_string n ++ rest) ≡ some (record { negative = false; magnitude = n })
unfolding to_string
scan_number-to_string n rest h =
    scan_number_of_digits (to_string n) rest (to_string-IsDigit n) (to_string-ne-nil n)
    ∙ ap (λ m. some (record { negative = false; magnitude = m }))
        (scan_digits-digits (suc n) n rest (omega arith) ∙ scan_digits-plain n rest h)

pub stoul-to_string :
    (n : ℕ) (rest : Str) → StartsPlain rest → n < 2 ^ 64 → stoul (to_string n ++ rest) ≡ returned n
unfolding stoul
stoul-to_string n rest h l = ground (arith, scan_number-to_string n rest h)

pub stoi-to_string :
    (n : ℕ) (rest : Str)
    → StartsPlain rest
    → n < 2 ^ 31
    → stoi (to_string n ++ rest) ≡ returned (record { negative = false; magnitude = n })
unfolding stoi
stoi-to_string n rest h l = ground (arith, scan_number-to_string n rest h)

pub stoul-digits : (n : ℕ) → n < 2 ^ 64 → stoul (to_string n) ≡ returned n
stoul-digits n h = ap stoul (sym (append-nil (to_string n))) ∙ stoul-to_string n [] tt h
