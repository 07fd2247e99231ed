-- ===== src/Base/Dictionaries.antt =====
-- std::unordered_map as an association list. Its order stands for the iteration order, which C++
-- leaves open.
use mathlib.Core.Path.{◌≡◌, refl}
use mathlib.Core.Logic.{◌≢◌, ◌⊎◌}
use mathlib.Core.Option.{Option, none, some}
use mathlib.Core.List.{List, [], ◌∷◌}
use native.Mathlib.Omega.{arith}
use mcp_server.Base.Tests.{if◌then◌else◌, Eq, ◌==◌, ==_refl}

abbrev pub Dict {ℓ κ} : Type ℓ → Type κ → Type (ℓ ⊔ κ)
Dict K V = List (K × V)

module _ {ℓ κ} {K : Type ℓ} {V : Type κ} ⦃keys : Eq K⦄ where
  -- `erase` by key
  unfoldable pub erase : K → Dict K V → Dict K V
  erase key [] = []
  erase key ((k, v) ∷ rest) = if k == key then erase key rest else (k, v) ∷ erase key rest

  -- `m[key] = new`
  unfoldable pub insert : K → V → Dict K V → Dict K V
  insert key new [] = (key, new) ∷ []
  insert key new ((k, v) ∷ rest) =
      if k == key then (k, new) ∷ rest else (k, v) ∷ insert key new rest

  -- `find`
  unfoldable pub lookup : K → Dict K V → Option V
  lookup key [] = none
  lookup key ((k, v) ∷ rest) = if k == key then some v else lookup key rest

  pub lookup-erase :
      (key other : K) (d : Dict K V)
      → lookup other (erase key d) ≡ (if key == other then none else lookup other d)
  unfolding lookup erase
  lookup-erase key other [] = ground arith
  lookup-erase key other ((k, v) ∷ rest) =
      let same = keys.agree_iff in
      ground (arith, lookup-erase key other rest, same k key, same k other, same key other)

  pub lookup-insert :
      (key other : K) (new : V) (d : Dict K V)
      → lookup other (insert key new d) ≡ (if key == other then some new else lookup other d)
  unfolding lookup insert
  lookup-insert key other new [] = refl
  lookup-insert key other new ((k, v) ∷ rest) =
      let same = keys.agree_iff in
      ground (arith, lookup-insert key other new rest, same k key, same k other, same key other)

  pub lookup-erase_hit :
      (key other : K) (d : Dict K V) (v : V)
      → lookup other (erase key d) ≡ some v
      → (key ≢ other) × (lookup other d ≡ some v)
  lookup-erase_hit key other d v e =
      ground (arith, e, lookup-erase key other d, keys.agree_iff key other)

  pub lookup-insert_hit :
      (key other : K) (new : V) (d : Dict K V) (v : V)
      → lookup other (insert key new d) ≡ some v
      → (key ≡ other) × (new ≡ v) ⊎ (key ≢ other) × (lookup other d ≡ some v)
  lookup-insert_hit key other new d v e =
      ground (arith, e, lookup-insert key other new d, keys.agree_iff key other)

  pub lookup-insert_self :
      (key : K) (new : V) (d : Dict K V) → lookup key (insert key new d) ≡ some new
  lookup-insert_self key new d = simp (lookup-insert, ==_refl)

  pub lookup-insert_ne :
      (key other : K) (new : V) (d : Dict K V)
      → key ≢ other
      → lookup other (insert key new d) ≡ lookup other d
  lookup-insert_ne key other new d h =
      ground (arith, lookup-insert key other new d, keys.agree_iff key other)
