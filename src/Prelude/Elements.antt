-- ===== src/Prelude/Elements.antt =====
-- The elements of a list, one by one.
use Prim.Native.Nat.{ℕ, zero, suc, ◌+◌, ◌-◌, ◌<◌}
use mathlib.Core.Path.{◌≡◌, refl, ap, ◌∙◌}
use mathlib.Core.List.{List, [], ◌∷◌, ◌++◌}
use native.Mathlib.Omega.{arith}
use drive.Prelude.Lists.{length, take, drop, get_or}
use drive.Prelude.Tests.{ltb, if◌then◌else◌, le→ltb_false, lt→ltb}

ltb-suc : (i n : ℕ) → ltb i n ≡ ltb (suc i) (suc n)
ltb-suc i n = ground arith

sub-suc : (i n : ℕ) → i - n ≡ suc i - suc n
sub-suc i n = omega arith

module _ {ℓ} {A : Type ℓ} where
  pub get_or_eq : (xs : List A) (i j : ℕ) (d : A) → i ≡ j → get_or xs i d ≡ get_or xs j d
  get_or_eq xs i j d e = ap (λ (k : ℕ). get_or xs k d) e

  pub get_or-append :
      (xs ys : List A) (i : ℕ) (d : A)
      → get_or (xs ++ ys) i d
        ≡ (if ltb i (length xs) then get_or xs i d else get_or ys (i - length xs) d)
  get_or-append [] ys i d =
      rw (le→ltb_false i 0 (omega arith)) (get_or_eq ys i (i - 0) d (omega arith))
  get_or-append (x ∷ xs) ys zero d = rw (lt→ltb 0 (suc (length xs)) (omega arith))
  get_or-append (x ∷ xs) ys (suc i) d =
      get_or-append xs ys i d ∙ rw (ltb-suc i (length xs), sub-suc i (length xs))

  pub get_or-take :
      (n : ℕ) (xs : List A) (i : ℕ) (d : A) → i < n → get_or (take n xs) i d ≡ get_or xs i d
  get_or-take zero xs i d h = absurd (omega arith)
  get_or-take (suc n) [] i d h = refl
  get_or-take (suc n) (x ∷ xs) zero d h = refl
  get_or-take (suc n) (x ∷ xs) (suc i) d h = get_or-take n xs i d (omega arith)

  pub get_or-drop :
      (n : ℕ) (xs : List A) (i : ℕ) (d : A) → get_or (drop n xs) i d ≡ get_or xs (n + i) d
  get_or-drop zero xs i d = get_or_eq xs i (0 + i) d (omega arith)
  get_or-drop (suc n) [] i d = refl
  get_or-drop (suc n) (x ∷ xs) i d =
      get_or-drop n xs i d ∙ get_or_eq (x ∷ xs) (suc (n + i)) (suc n + i) d (omega arith)

  -- Lists of one length with the same elements are equal.
  pub list_ext :
      (xs ys : List A) (d : A)
      → length xs ≡ length ys
      → ((i : ℕ) → i < length xs → get_or xs i d ≡ get_or ys i d)
      → xs ≡ ys
  list_ext [] [] d e h = refl
  list_ext [] (y ∷ ys) d e h = absurd (omega arith)
  list_ext (x ∷ xs) [] d e h = absurd (omega arith)
  list_ext (x ∷ xs) (y ∷ ys) d e h =
      let first : x ≡ y = h 0 (omega arith) in
      let others = list_ext xs ys d (omega arith) (λ i l. h (suc i) (omega arith)) in
      rw (first, others)
