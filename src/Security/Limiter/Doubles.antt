-- ===== src/Security/Limiter/Doubles.antt =====
-- What rate_limiter.hh uses of IEEE 754 double precision, with the laws that the proofs need.
use mcp_server.Base.{ℕ, suc, ◌^◌, ◌<◌, ◌≡◌, Bool, true, leb, ltb}

pub record Doubles : Type 1 where
  pub Double : Type 0
  -- `static_cast<double>` of an unsigned or a positive signed number.
  pub of_nat : ℕ → Double
  pub add : Double → Double → Double
  pub sub : Double → Double → Double
  pub mul : Double → Double → Double
  pub div : Double → Double → Double
  -- `a <= b` and `a < b`.
  pub le : Double → Double → Bool
  pub lt : Double → Double → Bool
  -- Integers below 2^53 are exact.
  pub le-of_nat : (m n : ℕ) → m < 2 ^ 53 → n < 2 ^ 53 → le (of_nat m) (of_nat n) ≡ leb m n
  pub lt-of_nat : (m n : ℕ) → m < 2 ^ 53 → n < 2 ^ 53 → lt (of_nat m) (of_nat n) ≡ ltb m n
  pub sub-of_nat_one : (n : ℕ) → suc n < 2 ^ 53 → sub (of_nat (suc n)) (of_nat 1) ≡ of_nat n
  pub add-mul-zero :
      (m e : ℕ) → m < 2 ^ 53 → e < 2 ^ 63 → add (of_nat m) (mul (of_nat e) (of_nat 0)) ≡ of_nat m
  pub le_of_lt : (a b : Double) → lt a b ≡ true → le a b ≡ true
  -- Taking 1 away from a number that is at least 1 does not make it larger.
  pub sub_one-le :
      (a c : Double) → le (of_nat 1) a ≡ true → le a c ≡ true → le (sub a (of_nat 1)) c ≡ true
