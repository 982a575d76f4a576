-- ===== src/BitSet/Bits.antt =====
-- One bit of a word, by its digits: `w & (1 << k)`, `w |= 1 << k` and `w &= ~(1 << k)`.
use drive.Prelude.{
  ℕ, zero, suc, ◌+◌, ◌*◌, ◌/◌, ◌%◌, ◌^◌, ◌<◌, ◌≡◌, ◌≢◌, refl, sym, ap, ◌∙◌, Bool, true, false, ◌==◌,
  arith,
}
use native.Mathlib.Nat.{
  pow-succ', div-add-mod, mod-lt, mod-eq_of_lt, add-mul-mod_self_left, mul_assoc,
  div-div-eq-div-mul,
}

unfoldable pub get_bit : ℕ → ℕ → Bool
get_bit zero w = w % 2 == 1
get_bit (suc k) w = get_bit k (w / 2)

abbrev digit : Bool → ℕ
digit true = 1
digit false = 0

unfoldable pub put_bit : Bool → ℕ → ℕ → ℕ
put_bit v zero w = digit v + 2 * (w / 2)
put_bit v (suc k) w = w % 2 + 2 * put_bit v k (w / 2)

lower_digit : (d w : ℕ) → d < 2 → ((d + 2 * w) % 2 ≡ d) × ((d + 2 * w) / 2 ≡ w)
lower_digit d w h = omega arith

digit-lt : (v : Bool) → digit v < 2
digit-lt true = omega arith
digit-lt false = omega arith

digit_test : (v : Bool) → (digit v == 1) ≡ v
digit_test true = refl
digit_test false = refl

pub get_bit-put_bit : (v : Bool) (k w : ℕ) → get_bit k (put_bit v k w) ≡ v
unfolding get_bit put_bit
get_bit-put_bit v zero w = rw ((lower_digit (digit v) (w / 2) (digit-lt v)).0) (digit_test v)
get_bit-put_bit v (suc k) w =
    rw ((lower_digit (w % 2) (put_bit v k (w / 2)) (omega arith)).1) (get_bit-put_bit v k (w / 2))

pub get_bit-put_bit_ne : (v : Bool) (k j w : ℕ) → k ≢ j → get_bit j (put_bit v k w) ≡ get_bit j w
unfolding get_bit put_bit
get_bit-put_bit_ne v zero zero w h = absurd (h refl)
get_bit-put_bit_ne v zero (suc j) w h = rw ((lower_digit (digit v) (w / 2) (digit-lt v)).1)
get_bit-put_bit_ne v (suc k) zero w h =
    rw ((lower_digit (w % 2) (put_bit v k (w / 2)) (omega arith)).0)
get_bit-put_bit_ne v (suc k) (suc j) w h =
    rw ((lower_digit (w % 2) (put_bit v k (w / 2)) (omega arith)).1)
      (get_bit-put_bit_ne v k j (w / 2) (λ e. h (ap suc e)))

-- A word keeps its width.
pub put_bit-lt : (v : Bool) (k n w : ℕ) → k < n → w < 2 ^ n → put_bit v k w < 2 ^ n
unfolding put_bit
put_bit-lt v k zero w h f = absurd (omega arith)
put_bit-lt v zero (suc n) w h f = omega (arith, pow-succ' 2 n, digit-lt v)
put_bit-lt v (suc k) (suc n) w h f =
    let half : w / 2 < 2 ^ n = omega (arith, pow-succ' 2 n) in
    omega (arith, pow-succ' 2 n, put_bit-lt v k n (w / 2) (omega arith) half)

pub get_bit_zero : (k : ℕ) → get_bit k 0 ≡ false
unfolding get_bit
get_bit_zero zero = refl
get_bit_zero (suc k) = get_bit_zero k

halved : (n w : ℕ) → 0 < 2 ^ n → (w % 2 ^ suc n / 2 ≡ w / 2 % 2 ^ n) × (w % 2 ^ suc n % 2 ≡ w % 2)
halved n w h =
    let double = pow-succ' 2 n in
    let r = w % 2 + 2 * (w / 2 % 2 ^ n) in
    let parts = div-add-mod (w / 2) (2 ^ n) in
    let small = mod-lt (w / 2) h in
    let whole : w ≡ r + 2 ^ suc n * (w / 2 / 2 ^ n) =
      rw double (omega (arith, parts, mul_assoc 2 (2 ^ n) (w / 2 / 2 ^ n))) in
    let fits : r < 2 ^ suc n = rw double (omega (arith, small)) in
    let rest : w % 2 ^ suc n ≡ r =
      ap (λ (t : ℕ). t % 2 ^ suc n) whole
      ∙ add-mul-mod_self_left r (2 ^ suc n) (w / 2 / 2 ^ n)
      ∙ mod-eq_of_lt fits in
    rw rest (omega arith, omega arith)

pub pow_pos : (n : ℕ) → 0 < 2 ^ n
pow_pos zero = omega arith
pow_pos (suc n) = omega (arith, pow-succ' 2 n, pow_pos n)

-- The lowest bits, and the bits above them.
pub get_bit-mod : (k n w : ℕ) → k < n → get_bit k (w % 2 ^ n) ≡ get_bit k w
unfolding get_bit
get_bit-mod k zero w h = absurd (omega arith)
get_bit-mod zero (suc n) w h = rw ((halved n w (pow_pos n)).1)
get_bit-mod (suc k) (suc n) w h =
    rw ((halved n w (pow_pos n)).0) (get_bit-mod k n (w / 2) (omega arith))

pub get_bit_eq : (k j w v : ℕ) → k ≡ j → w ≡ v → get_bit k w ≡ get_bit j v
get_bit_eq k j w v e e' = rw (e, e')

pub get_bit-div : (n k w : ℕ) → get_bit (n + k) w ≡ get_bit k (w / 2 ^ n)
unfolding get_bit
get_bit-div zero k w = get_bit_eq (0 + k) k w (w / 2 ^ 0) (omega arith) (omega arith)
get_bit-div (suc n) k w =
    get_bit_eq (suc n + k) (suc (n + k)) w w (omega arith) refl
    ∙ get_bit-div n k (w / 2)
    ∙ get_bit_eq k k (w / 2 / 2 ^ n) (w / 2 ^ suc n) refl
        (div-div-eq-div-mul w 2 (2 ^ n) ∙ ap (λ (t : ℕ). w / t) (sym (pow-succ' 2 n)))
