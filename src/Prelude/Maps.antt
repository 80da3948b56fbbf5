-- ===== src/Prelude/Maps.antt =====
-- Go maps as association lists without repeated keys.
use Prim.Native.Nat.{◌+◌}
use mathlib.Core.Path.{◌≡◌, refl}
use mathlib.Core.Bool.{Bool, true, false}
use mathlib.Core.Option.{Option, none, some}
use mathlib.Core.List.{List, [], ◌∷◌}
use native.Mathlib.Omega.{arith}
use kmtproto.Prelude.Tests.{Eq, ◌==◌, if◌then◌else◌}
use kmtproto.Prelude.Lists.{length}

abbrev pub Map {ℓ} : Type ℓ → Type ℓ → Type ℓ
Map K V = List (K × V)

module _ {ℓ} {K V : Type ℓ} ⦃e : Eq K⦄ where
  unfoldable pub lookup : K → Map K V → Option V
  lookup key [] = none
  lookup key ((k, value) ∷ rest) = if k == key then some value else lookup key rest

  -- m[key] = value
  unfoldable pub insert : K → V → Map K V → Map K V
  insert key value [] = (key, value) ∷ []
  insert key value ((k, old) ∷ rest) =
      if k == key then (k, value) ∷ rest else (k, old) ∷ insert key value rest

  -- delete(m, key)
  unfoldable pub delete : K → Map K V → Map K V
  delete key [] = []
  delete key ((k, value) ∷ m) =
      let rest = delete key m in if k == key then rest else (k, value) ∷ rest

  unfoldable pub has_key : K → Map K V → Bool
  has_key key [] = false
  has_key key ((k, value) ∷ rest) = if k == key then true else has_key key rest

  pub lookup-insert :
      (key other : K) (value : V) (m : Map K V)
      → lookup other (insert key value m) ≡ (if key == other then some value else lookup other m)
  unfolding insert lookup
  lookup-insert key other value ((k, old) ∷ m) = ground (
    arith,
    lookup-insert key other value m,
    e.beq_iff key other,
    e.beq_iff k key,
    e.beq_iff k other,
  )
  lookup-insert key other value [] = refl

  pub lookup-delete :
      (key other : K) (m : Map K V)
      → lookup other (delete key m) ≡ (if key == other then none else lookup other m)
  unfolding delete lookup
  lookup-delete key other ((k, value) ∷ m) =
      ground
        (arith, lookup-delete key other m, e.beq_iff key other, e.beq_iff k key, e.beq_iff k other)
  lookup-delete key other [] = ground arith

  pub has_key-lookup :
      (k : K) (m : Map K V) → has_key k m ≡ elim (lookup k m) [ none ↦ false | some v ↦ true ]
  unfolding lookup has_key
  has_key-lookup k [] = refl
  has_key-lookup k ((j, v) ∷ m) = ground (arith, has_key-lookup k m)

  -- A new key makes the map one entry longer; an old one keeps its length.
  pub length-insert :
      (k : K) (v : V) (m : Map K V)
      → length (insert k v m) ≡ (if has_key k m then length m else length m + 1)
  unfolding insert has_key
  length-insert k v [] = omega arith
  length-insert k v ((j, w) ∷ m) = ground (arith, length-insert k v m)
