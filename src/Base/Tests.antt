-- ===== src/Base/Tests.antt =====
-- Boolean tests on the native numbers, the conditional, and equality as an interface.
use Prim.Native.Nat.{ℕ, ◌≤◌, ◌<◌, compare, Ordering}
use mathlib.Core.Path.{◌≡◌, refl}
use mathlib.Core.Logic.{◌↔◌, ◌⊎◌, inl, inr}
use mathlib.Core.Bool.{Bool, true, false}
use mathlib.Core.Option.{Option, none, some}
use native.Mathlib.Omega.{arith}

abbrev pub ltb : ℕ → ℕ → Bool
ltb a b = elim (compare a b) [ Ordering.lt ↦ true | _ ↦ false ]

abbrev pub leb : ℕ → ℕ → Bool
leb a b = elim (compare a b) [ Ordering.gt ↦ false | _ ↦ true ]

abbrev nat_beq : ℕ → ℕ → Bool
nat_beq a b = elim (compare a b) [ Ordering.eq ↦ true | _ ↦ false ]

infix 1 if◌then◌else◌
abbrev pub if◌then◌else◌ {ℓ} : {A : Type ℓ} → Bool → A → A → A
if true then x else y = x
if false then x else y = y

pub ltb→lt : (a b : ℕ) → ltb a b ≡ true → a < b
ltb→lt a b h = ground arith

pub lt→ltb : (a b : ℕ) → a < b → ltb a b ≡ true
lt→ltb a b h = ground arith

pub leb→le : (a b : ℕ) → leb a b ≡ true → a ≤ b
leb→le a b h = ground arith

pub le→leb : (a b : ℕ) → a ≤ b → leb a b ≡ true
le→leb a b h = ground arith

pub nat_beq_iff : (a b : ℕ) → (nat_beq a b ≡ true) ↔ (a ≡ b)
nat_beq_iff a b = ground arith

-- A type whose values the source compares by `==`.
pub record Eq {ℓ} (A : Type ℓ) : Type ℓ where
  pub agree : A → A → Bool
  pub agree_iff : (x y : A) → (agree x y ≡ true) ↔ (x ≡ y)

module _ {ℓ} {A : Type ℓ} ⦃keys : Eq A⦄ where
  infix 50 ◌==◌
  abbrev pub ◌==◌ : A → A → Bool
  x == y = keys.agree x y

  pub ==_refl : (x : A) → (x == x) ≡ true
  ==_refl x = (keys.agree_iff x x).1 refl

instance abbrev pub nat_eq : Eq ℕ
nat_eq = record { agree = nat_beq; agree_iff = nat_beq_iff }

pub Bool-cases : (b : Bool) → (b ≡ true) ⊎ (b ≡ false)
Bool-cases true = inl refl
Bool-cases false = inr refl

pub Option-cases {ℓ} : {A : Type ℓ} (o : Option A) → (o ≡ none) ⊎ ((a : A) × (o ≡ some a))
Option-cases none = inl refl
Option-cases (some a) = inr (a, refl)

-- A property of a conditional from its branches, each with its test.
pub if_rule {ℓ κ} :
    {A : Type ℓ} (P : A → Type κ) (b : Bool) {x y : A}
    → (b ≡ true → P x)
    → (b ≡ false → P y)
    → P (if b then x else y)
if_rule P true hx hy = hx refl
if_rule P false hx hy = hy refl

-- A function of a branch is the branch of the function.
pub if_map {ℓ κ} :
    {A : Type ℓ} {B : Type κ} (f : A → B) (b : Bool) {x y : A} {x' y' : B}
    → f x ≡ x'
    → f y ≡ y'
    → f (if b then x else y) ≡ (if b then x' else y')
if_map f true hx hy = hx
if_map f false hx hy = hy

pub eq_of_iff : (b c : Bool) → (b ≡ true) ↔ (c ≡ true) → b ≡ c
eq_of_iff true true e = refl
eq_of_iff true false e = ground (arith, e.0 refl)
eq_of_iff false true e = ground (arith, e.1 refl)
eq_of_iff false false e = refl
