-- ===== src/Base/Masks.antt =====
-- The bitwise `&` with a mask of `n` ones above `k` zeros, at every width.
use Prim.Native.Nat.{
  ℕ, zero, suc, ◌-◌, ◌*◌, ◌/◌, ◌%◌, ◌^◌, ◌≤◌, ◌<◌, min, bit_and, digits, bit_and-bitwise,
}
use mathlib.Core.Path.{◌≡◌, refl, sym, ap, ◌∙◌}
use mathlib.Core.Logic.{◌↔◌}
use native.Mathlib.Omega.{arith}
use native.Mathlib.Nat.{pow-suc, pow-zero, div-div-eq-div-mul, one-le-pow, div-one, mul-div_cancel}

-- `&` digit by digit, with a bound on the number of digits left.
abbrev meet : ℕ → ℕ → ℕ → ℕ
meet = digits (λ _. zero) min

meet-ones : (n f a : ℕ) → a ≤ f → a < 2 ^ n → meet f a (2 ^ n - 1) ≡ a
meet-ones n zero a h l = omega arith
meet-ones n (suc f) zero h l = refl
meet-ones zero (suc f) (suc a) h l = absurd (omega arith)
meet-ones (suc n) (suc f) (suc a) h l =
    let half : (2 ^ suc n - 1) / 2 ≡ 2 ^ n - 1 = omega (arith, pow-suc 2 n) in
    let last : (2 ^ suc n - 1) % 2 ≡ 1 = omega (arith, pow-suc 2 n, one-le-pow n 2 (omega arith)) in
    omega (
      arith,
      last,
      ap (meet f (suc a / 2)) half,
      meet-ones n f (suc a / 2) (omega arith) (omega (arith, pow-suc 2 n)),
    )

meet-mask :
    (n k f a : ℕ) → a ≤ f → a < 2 ^ n * 2 ^ k → meet f a ((2 ^ n - 1) * 2 ^ k) ≡ a / 2 ^ k * 2 ^ k
meet-mask n zero f a h l =
    ap (meet f a) (omega (arith, pow-zero 2))
    ∙ meet-ones n f a h (omega (arith, pow-zero 2))
    ∙ (omega (arith, div-one a))
meet-mask n (suc k) zero a h l = omega arith
meet-mask n (suc k) (suc f) zero h l = omega arith
meet-mask n (suc k) (suc f) (suc a) h l =
    let m = (2 ^ n - 1) * 2 ^ k in
    let double : (2 ^ n - 1) * 2 ^ suc k ≡ m * 2 =
      omega (arith, ap (λ (t : ℕ). (2 ^ n - 1) * t) (pow-suc 2 k)) in
    let half : ((2 ^ n - 1) * 2 ^ suc k) / 2 ≡ m = omega (arith, double) in
    let last : ((2 ^ n - 1) * 2 ^ suc k) % 2 ≡ 0 = omega (arith, double) in
    let q = suc a / 2 ^ suc k in
    let quotient : suc a / 2 / 2 ^ k ≡ q =
      div-div-eq-div-mul (suc a) 2 (2 ^ k) ∙ ap (λ t. suc a / t) (omega (arith, pow-suc 2 k)) in
    omega (
      arith,
      last,
      ap (meet f (suc a / 2)) half,
      meet-mask n k f (suc a / 2) (omega arith)
          (omega (arith, ap (λ (t : ℕ). 2 ^ n * t) (pow-suc 2 k))),
      ap (λ t. t * 2 ^ k) quotient,
      ap (λ t. q * t) (pow-suc 2 k),
    )

-- Masking keeps the digits from the `k`-th on.
pub bit_and-mask :
    (n k a : ℕ) → a < 2 ^ n * 2 ^ k → bit_and a ((2 ^ n - 1) * 2 ^ k) ≡ a / 2 ^ k * 2 ^ k
bit_and-mask n k a l = bit_and-bitwise a ((2 ^ n - 1) * 2 ^ k) ∙ meet-mask n k a a (omega arith) l

-- Two numbers agree under the mask exactly when they agree from the `k`-th digit on.
pub bit_and-mask_iff :
    (k a b : ℕ) → (a / 2 ^ k * 2 ^ k ≡ b / 2 ^ k * 2 ^ k) ↔ (a / 2 ^ k ≡ b / 2 ^ k)
bit_and-mask_iff k a b =
    let pos : 0 < 2 ^ k = one-le-pow k 2 (omega arith) in
    (
      λ e.
          sym (mul-div_cancel (a / 2 ^ k) pos)
          ∙ ap (λ t. t / 2 ^ k) e
          ∙ mul-div_cancel (b / 2 ^ k) pos,
      ap (λ t. t * 2 ^ k),
    )
