-- ===== src/Prelude/Assoc.antt =====
-- A Go map as an association list with distinct keys.
use mathlib.Core.Path.{◌≡◌, refl}
use mathlib.Core.Option.{Option, none, some}
use mathlib.Core.List.{List, [], ◌∷◌}
use native.Mathlib.Omega.{arith}
use open_friend_mc.Prelude.Tests.{Comparable, ◌==◌, ==_iff, if◌then◌else◌}

module _ {ℓ κ} {K : Type ℓ} {V : Type κ} ⦃e : Comparable K⦄ where
  -- `m[key]`
  unfoldable pub lookup : (key : K) (entries : List (K × V)) → Option V
  lookup key ((other, held) ∷ entries) = if other == key then some held else lookup key entries
  lookup key [] = none

  -- `m[key] = value`
  unfoldable pub insert : (key : K) (value : V) (entries : List (K × V)) → List (K × V)
  insert key value ((other, held) ∷ entries) =
      if other == key then (key, value) ∷ entries else (other, held) ∷ insert key value entries
  insert key value [] = (key, value) ∷ []

  -- `delete(m, k)`
  unfoldable pub erase : K → List (K × V) → List (K × V)
  erase k [] = []
  erase k ((j, w) ∷ m) = let rest = erase k m in if j == k then rest else (j, w) ∷ rest

  pub lookup-insert :
      (key sought : K) (value : V) (entries : List (K × V))
      → lookup sought (insert key value entries)
        ≡ (if key == sought then some value else lookup sought entries)
  unfolding lookup insert
  lookup-insert key sought value ((other, held) ∷ entries) =
      let later = lookup-insert key sought value entries in
      ground (later, arith, ==_iff other sought, ==_iff other key, ==_iff key sought)
  lookup-insert key sought value [] = refl

  pub lookup-erase :
      (k j : K) (m : List (K × V)) → lookup j (erase k m) ≡ (if k == j then none else lookup j m)
  unfolding lookup erase
  lookup-erase k j [] = ground arith
  lookup-erase k j ((i, w) ∷ m) =
      ground (arith, ==_iff k j, ==_iff i k, ==_iff i j, lookup-erase k j m)
