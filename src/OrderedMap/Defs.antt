-- ===== src/OrderedMap/Defs.antt =====
-- The operations on an association list in the order of its keys.
use drive.Prelude.{[], ◌∷◌, List, Option, none, some, if◌then◌else◌, ◌≡◌}
use drive.Prelude.Texts.{Bytes, str_compare, str_eq, str_ltb}
use Prim.Native.Nat.{Ordering}

abbrev pub Map {ℓ} : Type ℓ → Type ℓ
Map V = List (Bytes × V)

-- Every key of the map comes after `k`.
abbrev pub Above {ℓ} : {V : Type ℓ} → Bytes → Map V → Type 0
Above k [] = Unit
Above k ((j, w) ∷ m) = (str_compare k j ≡ Ordering.lt) × Above k m

abbrev pub IsOrdered {ℓ} : {V : Type ℓ} → Map V → Type 0
IsOrdered [] = Unit
IsOrdered ((j, w) ∷ m) = Above j m × IsOrdered m

module _ {ℓ} {V : Type ℓ} where
  unfoldable pub find : Bytes → Map V → Option V
  find k [] = none
  find k ((j, w) ∷ m) = if str_eq k j then some w else find k m

  -- An existing entry stays.
  unfoldable pub emplace : Bytes → V → Map V → Map V
  emplace k v [] = (k, v) ∷ []
  emplace k v ((j, w) ∷ m) =
      if str_ltb k j
      then (k, v) ∷ (j, w) ∷ m
      else if str_eq k j
      then (j, w) ∷ m
      else (j, w) ∷ emplace k v m

  unfoldable pub assign : Bytes → V → Map V → Map V
  assign k v [] = (k, v) ∷ []
  assign k v ((j, w) ∷ m) =
      if str_ltb k j
      then (k, v) ∷ (j, w) ∷ m
      else if str_eq k j
      then (j, v) ∷ m
      else (j, w) ∷ assign k v m

  unfoldable pub erase : Bytes → Map V → Map V
  erase k [] = []
  erase k ((j, w) ∷ m) = if str_eq k j then m else (j, w) ∷ erase k m
