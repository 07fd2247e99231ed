-- ===== src/Security/Limiter/Whole.antt =====
-- Whole numbers in place of floating point, for the tests.
use mcp_server.Base.{ℕ, suc, ◌+◌, ◌-◌, ◌*◌, ◌/◌, ◌≡◌, refl, true, arith, leb, ltb}
use mcp_server.Security.Limiter.Doubles.{Doubles}

pub whole_le_of_lt : (a b : ℕ) → ltb a b ≡ true → leb a b ≡ true
whole_le_of_lt a b h = ground arith

pub whole_sub_one-le : (a c : ℕ) → leb 1 a ≡ true → leb a c ≡ true → leb (a - 1) c ≡ true
whole_sub_one-le a c h k = ground arith

pub whole_sub-one : (n : ℕ) → suc n - 1 ≡ n
whole_sub-one n = omega arith

pub whole_add-mul-zero : (m e : ℕ) → m + e * 0 ≡ m
whole_add-mul-zero m e = omega arith

abbrev pub whole : Doubles
whole = record {
  Double = ℕ;
  of_nat = λ n. n;
  add = λ a b. a + b;
  sub = λ a b. a - b;
  mul = λ a b. a * b;
  div = λ a b. a / b;
  le = leb;
  lt = ltb;
  le-of_nat = λ m n _ _. refl;
  lt-of_nat = λ m n _ _. refl;
  sub-of_nat_one = λ n _. whole_sub-one n;
  add-mul-zero = λ m e _ _. whole_add-mul-zero m e;
  le_of_lt = whole_le_of_lt;
  sub_one-le = whole_sub_one-le;
}
