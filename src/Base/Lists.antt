-- ===== src/Base/Lists.antt =====
-- Lists measured and indexed by native numbers, under the library's names.
use Prim.Native.Nat.{ℕ, zero, suc, ◌+◌, ◌-◌, ◌≤◌, ◌<◌, min}
use mathlib.Core.Path.{◌≡◌, refl, ap, sym, ◌∙◌}
use mathlib.Core.Logic.{◌≢◌, ◌⊎◌, inl, inr}
use mathlib.Core.Bool.{Bool, true, false, ◌||◌}
use mathlib.Core.List.{List, [], ◌∷◌, ◌++◌}
use mathlib.Core.Option.{Option, none, some}
use native.Mathlib.Omega.{arith}

module _ {ℓ} {A : Type ℓ} where
  abbrev pub length : List A → ℕ
  length [] = 0
  length (x ∷ xs) = suc (length xs)

  abbrev pub is_empty : List A → Bool
  is_empty [] = true
  is_empty (x ∷ xs) = false

  abbrev pub get_elem? : List A → ℕ → Option A
  get_elem? [] i = none
  get_elem? (x ∷ xs) zero = some x
  get_elem? (x ∷ xs) (suc i) = get_elem? xs i

  -- A write out of bounds changes nothing.
  abbrev pub set : List A → ℕ → A → List A
  set [] i v = []
  set (x ∷ xs) zero v = v ∷ xs
  set (x ∷ xs) (suc i) v = x ∷ set xs i v

  abbrev pub take : ℕ → List A → List A
  take zero xs = []
  take (suc n) [] = []
  take (suc n) (x ∷ xs) = x ∷ take n xs

  abbrev pub drop : ℕ → List A → List A
  drop zero xs = xs
  drop (suc n) [] = []
  drop (suc n) (x ∷ xs) = drop n xs

  abbrev pub any : (A → Bool) → List A → Bool
  any p [] = false
  any p (x ∷ xs) = p x || any p xs

  abbrev pub replicate : ℕ → A → List A
  replicate zero a = []
  replicate (suc n) a = a ∷ replicate n a

  pub length-append : (xs ys : List A) → length (xs ++ ys) ≡ length xs + length ys
  length-append [] ys = omega arith
  length-append (x ∷ xs) ys = omega (arith, length-append xs ys)

  pub length-set : (xs : List A) (i : ℕ) (v : A) → length (set xs i v) ≡ length xs
  length-set [] i v = refl
  length-set (x ∷ xs) zero v = refl
  length-set (x ∷ xs) (suc i) v = ap suc (length-set xs i v)

  pub take-append-drop : (n : ℕ) (xs : List A) → take n xs ++ drop n xs ≡ xs
  take-append-drop zero xs = refl
  take-append-drop (suc n) [] = refl
  take-append-drop (suc n) (x ∷ xs) = rw (take-append-drop n xs)

  pub length-take : (n : ℕ) (xs : List A) → length (take n xs) ≡ min n (length xs)
  length-take zero xs = omega arith
  length-take (suc n) [] = omega arith
  length-take (suc n) (x ∷ xs) = omega (arith, length-take n xs)

  pub length-drop : (n : ℕ) (xs : List A) → length (drop n xs) ≡ length xs - n
  length-drop zero xs = omega arith
  length-drop (suc n) [] = omega arith
  length-drop (suc n) (x ∷ xs) = omega (arith, length-drop n xs)

  pub get_elem?-set_ne :
      (xs : List A) (i j : ℕ) (v : A) → i ≢ j → get_elem? (set xs i v) j ≡ get_elem? xs j
  get_elem?-set_ne [] i j v n = refl
  get_elem?-set_ne (x ∷ xs) zero zero v n = absurd (n refl)
  get_elem?-set_ne (x ∷ xs) zero (suc j) v n = refl
  get_elem?-set_ne (x ∷ xs) (suc i) zero v n = refl
  get_elem?-set_ne (x ∷ xs) (suc i) (suc j) v n = get_elem?-set_ne xs i j v λ e. n (ap suc e)

  pub get_elem?-set_self :
      (xs : List A) (i : ℕ) (v w : A) → get_elem? xs i ≡ some w → get_elem? (set xs i v) i ≡ some v
  get_elem?-set_self [] i v w e = cc
  get_elem?-set_self (x ∷ xs) zero v w e = refl
  get_elem?-set_self (x ∷ xs) (suc i) v w e = get_elem?-set_self xs i v w e

  pub get_elem?-append :
      (xs ys : List A) (i : ℕ) (w : A) → get_elem? xs i ≡ some w → get_elem? (xs ++ ys) i ≡ some w
  get_elem?-append [] ys i w e = cc
  get_elem?-append (x ∷ xs) ys zero w e = e
  get_elem?-append (x ∷ xs) ys (suc i) w e = get_elem?-append xs ys i w e

  pub get_elem?-length : (xs : List A) (y : A) → get_elem? (xs ++ y ∷ []) (length xs) ≡ some y
  get_elem?-length [] y = refl
  get_elem?-length (x ∷ xs) y = get_elem?-length xs y

  pub get_elem?-lt : (xs : List A) (i : ℕ) (w : A) → get_elem? xs i ≡ some w → i < length xs
  get_elem?-lt [] i w e = cc
  get_elem?-lt (x ∷ xs) zero w e = omega arith
  get_elem?-lt (x ∷ xs) (suc i) w e = omega (arith, get_elem?-lt xs i w e)

  pub get_elem?-snoc :
      (xs : List A) (y : A) (i : ℕ) (w : A)
      → get_elem? (xs ++ y ∷ []) i ≡ some w
      → (get_elem? xs i ≡ some w) ⊎ (y ≡ w)
  get_elem?-snoc [] y zero w e = inr (cc)
  get_elem?-snoc [] y (suc i) w e = inl e
  get_elem?-snoc (x ∷ xs) y zero w e = inl e
  get_elem?-snoc (x ∷ xs) y (suc i) w e = get_elem?-snoc xs y i w e

  pub get_elem?-set_hit :
      (xs : List A) (i j : ℕ) (v w : A)
      → get_elem? (set xs i v) j ≡ some w
      → (get_elem? xs j ≡ some w) ⊎ (v ≡ w)
  get_elem?-set_hit [] i j v w e = inl e
  get_elem?-set_hit (x ∷ xs) zero zero v w e = inr (cc)
  get_elem?-set_hit (x ∷ xs) zero (suc j) v w e = inl e
  get_elem?-set_hit (x ∷ xs) (suc i) zero v w e = inl e
  get_elem?-set_hit (x ∷ xs) (suc i) (suc j) v w e = get_elem?-set_hit xs i j v w e

  pub drop-past : (n : ℕ) (xs : List A) → length xs ≤ n → drop n xs ≡ []
  drop-past zero [] h = refl
  drop-past zero (x ∷ xs) h = absurd (omega arith)
  drop-past (suc n) [] h = refl
  drop-past (suc n) (x ∷ xs) h = drop-past n xs (omega arith)

  drop-nil : (n : ℕ) → drop n [] ≡ []
  drop-nil zero = refl
  drop-nil (suc n) = refl

  pub drop-drop : (m n : ℕ) (xs : List A) → drop m (drop n xs) ≡ drop (n + m) xs
  drop-drop m zero xs = ap (λ k. drop k xs) (omega arith)
  drop-drop m (suc n) [] = drop-nil m ∙ sym (drop-nil (suc n + m))
  drop-drop m (suc n) (x ∷ xs) =
      let same : suc (n + m) ≡ suc n + m = omega arith in
      drop-drop m n xs ∙ ap (λ k. drop k (x ∷ xs)) same

module _ {ℓ κ} {A : Type ℓ} (P : A → Type κ) where
  abbrev pub All : List A → Type κ
  All [] = Unit
  All (x ∷ xs) = P x × All xs

  pub All-append : (xs ys : List A) → All xs → All ys → All (xs ++ ys)
  All-append [] ys hx hy = hy
  All-append (x ∷ xs) ys hx hy = (hx.0, All-append xs ys hx.1 hy)
