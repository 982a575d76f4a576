-- ===== src/Stream/Endian.antt =====
-- Unsigned integers of `k` bytes in network order. What lies in memory after `htobe32` and its
-- like is the same bytes on either kind of host, so the test of `signature` has no counterpart.
use drive.Prelude.{
  ℕ, zero, suc, ◌+◌, ◌*◌, ◌/◌, ◌%◌, ◌^◌, ◌<◌, ◌≡◌, refl, ap, ◌∙◌, [], ◌∷◌, arith, length, All,
}
use drive.Prelude.Texts.{Bytes}
use native.Mathlib.Nat.{div-add-mod, pow-succ', add-mul-mod_self_left, mod-eq_of_lt}

-- The lowest `k` bytes of `v`, the highest of them first.
unfoldable pub be_bytes : ℕ → ℕ → Bytes
be_bytes zero v = []
be_bytes (suc k) v = (v / 256 ^ k % 256) ∷ be_bytes k v

unfoldable pub from_be : ℕ → Bytes → ℕ
from_be acc [] = acc
from_be acc (b ∷ bs) = from_be (acc * 256 + b) bs

pub length-be_bytes : (k v : ℕ) → length (be_bytes k v) ≡ k
unfolding be_bytes
length-be_bytes zero v = refl
length-be_bytes (suc k) v = ap suc (length-be_bytes k v)

abbrev pub IsByte : ℕ → Type 0
IsByte b = b < 256

pub be_bytes-IsByte : (k v : ℕ) → All IsByte (be_bytes k v)
unfolding be_bytes
be_bytes-IsByte zero v = tt
be_bytes-IsByte (suc k) v = (omega arith, be_bytes-IsByte k v)

-- The next digit and the digits below it.
digit_step : (v p : ℕ) → 0 < p → v % (256 * p) ≡ v / p % 256 * p + v % p
digit_step v p h =
    let r = v / p % 256 * p + v % p in
    let whole : v ≡ r + 256 * p * (v / p / 256) =
      omega (arith, div-add-mod v p, ap (λ (t : ℕ). t * p) (div-add-mod (v / p) 256)) in
    let small : r < 256 * p = grind arith in
    ap (λ (t : ℕ). t % (256 * p)) whole
    ∙ add-mul-mod_self_left r (256 * p) (v / p / 256)
    ∙ mod-eq_of_lt small

pow_pos : (k : ℕ) → 0 < 256 ^ k
pow_pos zero = omega arith
pow_pos (suc k) = omega (arith, pow-succ' 256 k, pow_pos k)

pub from_be-be_bytes : (acc k v : ℕ) → from_be acc (be_bytes k v) ≡ acc * 256 ^ k + v % 256 ^ k
unfolding be_bytes from_be
from_be-be_bytes acc zero v = omega arith
from_be-be_bytes acc (suc k) v =
    from_be-be_bytes (acc * 256 + v / 256 ^ k % 256) k v
    ∙ rw (pow-succ' 256 k) (omega (arith, digit_step v (256 ^ k) (pow_pos k)))

pub decode-be_bytes : (k v : ℕ) → from_be 0 (be_bytes k v) ≡ v % 256 ^ k
decode-be_bytes k v = omega (arith, from_be-be_bytes 0 k v)
