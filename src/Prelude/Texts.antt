-- ===== src/Prelude/Texts.antt =====
-- `std::string` as a list of bytes, with the comparison of `std::string::compare`.
use Prim.Native.Nat.{ℕ, compare, Ordering}
use Prim.Native.Char.{code}
use Prim.Native.String.{String}
use mathlib.Core.Path.{◌≡◌, refl}
use mathlib.Core.Logic.{◌↔◌}
use mathlib.Core.Bool.{Bool, true, false}
use mathlib.Core.List.{List, [], ◌∷◌}
use native.Mathlib.Omega.{arith}

abbrev pub Bytes : Type 0
Bytes = List ℕ

-- The code points of a literal: its bytes, since the program's literals are ASCII.
abbrev pub codes : String → Bytes
codes String.[] = []
codes (String.◌∷◌ c s) = code c ∷ codes s

-- Lexicographic, byte by byte, a proper prefix first.
unfoldable pub str_compare : Bytes → Bytes → Ordering
str_compare [] [] = Ordering.eq
str_compare [] (y ∷ ys) = Ordering.lt
str_compare (x ∷ xs) [] = Ordering.gt
str_compare (x ∷ xs) (y ∷ ys) =
    let rest = str_compare xs ys in
    elim (compare x y) [
      | Ordering.lt ↦ Ordering.lt
      | Ordering.gt ↦ Ordering.gt
      | Ordering.eq ↦ rest
    ]

abbrev pub str_ltb : Bytes → Bytes → Bool
str_ltb a b = elim (str_compare a b) [ Ordering.lt ↦ true | _ ↦ false ]

abbrev pub str_eq : Bytes → Bytes → Bool
str_eq a b = elim (str_compare a b) [ Ordering.eq ↦ true | _ ↦ false ]

pub str_compare_refl : (a : Bytes) → str_compare a a ≡ Ordering.eq
unfolding str_compare
str_compare_refl [] = refl
str_compare_refl (x ∷ xs) = ground (arith, str_compare_refl xs)

pub str_compare_eq : (a b : Bytes) → str_compare a b ≡ Ordering.eq → a ≡ b
unfolding str_compare
str_compare_eq [] [] h = refl
str_compare_eq [] (y ∷ ys) h = cc
str_compare_eq (x ∷ xs) [] h = cc
str_compare_eq (x ∷ xs) (y ∷ ys) h = ground (arith, str_compare_eq xs ys)

pub str_compare_gt : (a b : Bytes) → str_compare a b ≡ Ordering.gt → str_compare b a ≡ Ordering.lt
unfolding str_compare
str_compare_gt [] [] h = cc
str_compare_gt [] (y ∷ ys) h = cc
str_compare_gt (x ∷ xs) [] h = refl
str_compare_gt (x ∷ xs) (y ∷ ys) h = ground (arith, str_compare_gt xs ys)

pub str_compare_lt : (a b : Bytes) → str_compare a b ≡ Ordering.lt → str_compare b a ≡ Ordering.gt
unfolding str_compare
str_compare_lt [] [] h = cc
str_compare_lt [] (y ∷ ys) h = refl
str_compare_lt (x ∷ xs) [] h = cc
str_compare_lt (x ∷ xs) (y ∷ ys) h = ground (arith, str_compare_lt xs ys)

pub str_compare_trans :
    (a b c : Bytes)
    → str_compare a b ≡ Ordering.lt
    → str_compare b c ≡ Ordering.lt
    → str_compare a c ≡ Ordering.lt
unfolding str_compare
str_compare_trans [] [] c h k = cc
str_compare_trans [] (y ∷ ys) [] h k = cc
str_compare_trans [] (y ∷ ys) (z ∷ zs) h k = refl
str_compare_trans (x ∷ xs) [] c h k = cc
str_compare_trans (x ∷ xs) (y ∷ ys) [] h k = cc
str_compare_trans (x ∷ xs) (y ∷ ys) (z ∷ zs) h k = ground (arith, str_compare_trans xs ys zs)

pub str_eq_self : (a : Bytes) → str_eq a a ≡ true
str_eq_self a = ground (arith, str_compare_refl a)

pub str_eq_iff : (a b : Bytes) → (str_eq a b ≡ true) ↔ (a ≡ b)
str_eq_iff a b = (λ h. str_compare_eq a b (ground arith), λ e. rw e (str_eq_self b))
