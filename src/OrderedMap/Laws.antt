-- ===== src/OrderedMap/Laws.antt =====
-- Lookups after each operation, and the order kept.
use drive.Prelude.{◌≡◌, refl, [], ◌∷◌, ◌++◌, none, some, if◌then◌else◌, arith}
use drive.Prelude.Texts.{
  Bytes, str_compare, str_eq, str_compare_gt, str_compare_lt, str_compare_trans, str_eq_iff,
}
use drive.OrderedMap.Defs.{Map, Above, IsOrdered, find, emplace, assign, erase}
use Prim.Native.Nat.{Ordering}

module _ {ℓ} {V : Type ℓ} where
  pub find-assign :
      (k q : Bytes) (v : V) (m : Map V)
      → find q (assign k v m) ≡ (if str_eq q k then some v else find q m)
  unfolding find assign
  find-assign k q v [] = refl
  find-assign k q v ((j, w) ∷ m) =
      ground (arith, str_eq_iff q k, str_eq_iff k j, str_eq_iff q j, find-assign k q v m)

  pub Above-trans :
      (i k : Bytes) (m : Map V) → str_compare i k ≡ Ordering.lt → Above k m → Above i m
  Above-trans i k [] h a = tt
  Above-trans i k ((j, w) ∷ m) h a = (str_compare_trans i k j h a.0, Above-trans i k m h a.1)

  pub find-Above : (k : Bytes) (m : Map V) → Above k m → find k m ≡ none
  unfolding find
  find-Above k [] a = refl
  find-Above k ((j, w) ∷ m) a = ground (arith, find-Above k m a.1)

  pub assign-Above :
      (i k : Bytes) (v : V) (m : Map V)
      → str_compare i k ≡ Ordering.lt
      → Above i m
      → Above i (assign k v m)
  unfolding assign
  assign-Above i k v [] h a = (h, tt)
  assign-Above i k v ((j, w) ∷ m) h a = ground (arith, assign-Above i k v m h a.1)

  pub assign-IsOrdered : (k : Bytes) (v : V) (m : Map V) → IsOrdered m → IsOrdered (assign k v m)
  unfolding assign
  assign-IsOrdered k v [] o = (tt, tt)
  assign-IsOrdered k v ((j, w) ∷ m) o = ground (
    arith,
    assign-IsOrdered k v m o.1,
    Above-trans k j m,
    assign-Above j k v m,
    str_compare_gt k j,
  )

  pub find-erase :
      (k q : Bytes) (m : Map V)
      → IsOrdered m
      → find q (erase k m) ≡ (if str_eq q k then none else find q m)
  unfolding find erase
  find-erase k q [] o = ground arith
  find-erase k q ((j, w) ∷ m) o = ground (
    arith,
    str_eq_iff q k,
    str_eq_iff k j,
    str_eq_iff q j,
    find-Above j m o.0,
    find-erase k q m o.1,
  )

  -- `emplace` behind every other key appends.
  abbrev pub Below : Map V → Bytes → Type 0
  Below [] k = Unit
  Below ((j, w) ∷ m) k = (str_compare j k ≡ Ordering.lt) × Below m k

  pub emplace_last : (k : Bytes) (v : V) (m : Map V) → Below m k → emplace k v m ≡ m ++ (k, v) ∷ []
  unfolding emplace
  emplace_last k v [] b = refl
  emplace_last k v ((j, w) ∷ m) b = ground (arith, str_compare_lt j k b.0, emplace_last k v m b.1)

  pub Below-append :
      (m : Map V) (j k : Bytes) (w : V)
      → Below m k
      → str_compare j k ≡ Ordering.lt
      → Below (m ++ (j, w) ∷ []) k
  Below-append [] j k w b h = (h, tt)
  Below-append ((i, u) ∷ m) j k w b h = (b.0, Below-append m j k w b.1 h)

  -- Every key of the second map comes after every key of the first.
  abbrev pub Follows : Map V → Map V → Type 0
  Follows acc [] = Unit
  Follows acc ((k, v) ∷ m) = Below acc k × Follows acc m

  pub Follows-nil : (m : Map V) → Follows [] m
  Follows-nil [] = tt
  Follows-nil ((k, v) ∷ m) = (tt, Follows-nil m)

  pub Follows-append :
      (acc : Map V) (k : Bytes) (v : V) (m : Map V)
      → Follows acc m
      → Above k m
      → Follows (acc ++ (k, v) ∷ []) m
  Follows-append acc k v [] f a = tt
  Follows-append acc k v ((j, w) ∷ m) f a =
      (Below-append acc k j v f.0 a.0, Follows-append acc k v m f.1 a.1)
