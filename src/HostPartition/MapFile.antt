-- ===== src/HostPartition/MapFile.antt =====
-- The file form of a bit set (src/bdhost/BitSet.cpp): what is written is read again.
use drive.BitSet.{BitSet, get, new_bit_set, word_count}
use drive.BitSet.Bits.{get_bit, get_bit_eq, get_bit-mod, get_bit-div, pow_pos}
use drive.BitSet.Laws.{IsValid}
use drive.HostPartition.Blocks.{replicate_split}
use drive.HostPartition.{rest_bytes, write_words, write_to, fetch, read_words, read_from}
use drive.Prelude.{
  ℕ, zero, suc, ◌+◌, ◌-◌, ◌*◌, ◌/◌, ◌%◌, ◌^◌, ◌≤◌, ◌<◌, ◌≡◌, ◌⊎◌, refl, sym, ap, ◌∙◌, false, [],
  ◌∷◌, ◌++◌, List, arith, ltb, ◌==◌, length, take, drop, replicate, get_or, Bool-cases, inl, inr,
  length-take, length-drop, length-append, length-replicate, take-append_at, drop-append_at,
  drop_all, take_all, append-nil,
}
use drive.Prelude.Texts.{Bytes}
use drive.Stream.Endian.{be_bytes, from_be, length-be_bytes, decode-be_bytes}
use native.Mathlib.Nat.{
  mul-div_cancel, mul_left_comm, pow-zero, pow-succ', mul_assoc, mul_comm, div-div-eq-div-mul,
}

power_sum : (k r m : ℕ) → k ^ (r + m) ≡ k ^ m * k ^ r
power_sum k zero m =
    ap (λ (t : ℕ). k ^ t) (zero_left m)
    ∙ times_one (k ^ m)
    ∙ ap (λ (t : ℕ). k ^ m * t) (sym (pow-zero k))
  where
    zero_left : (m : ℕ) → 0 + m ≡ m
    zero_left m = omega arith

    times_one : (n : ℕ) → n ≡ n * 1
    times_one n = omega arith
power_sum k (suc r) m =
    ap (λ (t : ℕ). k ^ t) (suc_left r m)
    ∙ pow-succ' k (r + m)
    ∙ ap (λ (t : ℕ). k * t) (power_sum k r m)
    ∙ mul_left_comm k (k ^ m) (k ^ r)
    ∙ ap (λ (t : ℕ). k ^ m * t) (sym (pow-succ' k r))
  where
    suc_left : (r m : ℕ) → suc r + m ≡ suc (r + m)
    suc_left r m = omega arith

be_bytes-suc : (r m v : ℕ) → be_bytes (suc r + m) v ≡ (v / 256 ^ (r + m) % 256) ∷ be_bytes (r + m) v
unfolding be_bytes
be_bytes-suc r m v = ap (λ (t : ℕ). be_bytes t v) (suc_left r m)
  where
    suc_left : (r m : ℕ) → suc r + m ≡ suc (r + m)
    suc_left r m = omega arith

-- The first bytes of a number are those of its highest digits.
take-be_bytes : (r m v : ℕ) → take r (be_bytes (r + m) v) ≡ be_bytes r (v / 256 ^ m)
unfolding be_bytes
take-be_bytes zero m v = refl
take-be_bytes (suc r) m v =
    let split : v / 256 ^ (r + m) ≡ v / 256 ^ m / 256 ^ r =
      ap (λ (t : ℕ). v / t) (power_sum 256 r m) ∙ sym (div-div-eq-div-mul v (256 ^ m) (256 ^ r)) in
    rw (be_bytes-suc r m v, split)
      (ap (λ (t : Bytes). v / 256 ^ m / 256 ^ r % 256 ∷ t) (take-be_bytes r m v))

from_be-zeros : (m acc : ℕ) → from_be acc (replicate m 0) ≡ acc * 256 ^ m
unfolding from_be
from_be-zeros zero acc = omega arith
from_be-zeros (suc m) acc =
    let next : acc * 256 + 0 ≡ acc * 256 = omega arith in
    from_be-zeros m (acc * 256 + 0) ∙ rw (next, pow-succ' 256 m) (mul_assoc acc 256 (256 ^ m))

from_be-append : (acc : ℕ) (xs ys : Bytes) → from_be acc (xs ++ ys) ≡ from_be (from_be acc xs) ys
unfolding from_be
from_be-append acc [] ys = refl
from_be-append acc (x ∷ xs) ys = from_be-append (acc * 256 + x) xs ys

-- The last word of the file: `r` bytes of it, and zeros.
last_word :
    (r m w : ℕ)
    → from_be 0 (be_bytes r (w / 256 ^ m) ++ replicate m 0) ≡ w / 256 ^ m % 256 ^ r * 256 ^ m
last_word r m w =
    from_be-append 0 (be_bytes r (w / 256 ^ m)) (replicate m 0)
    ∙ from_be-zeros m (from_be 0 (be_bytes r (w / 256 ^ m)))
    ∙ ap (λ (t : ℕ). t * 256 ^ m) (decode-be_bytes r (w / 256 ^ m))

bits_of_bytes : (m : ℕ) → 256 ^ m ≡ 2 ^ (8 * m)
bits_of_bytes zero = refl
bits_of_bytes (suc m) =
    pow-succ' 256 m
    ∙ ap (λ (t : ℕ). 256 * t) (bits_of_bytes m)
    ∙ mul_comm 256 (2 ^ (8 * m))
    ∙ sym (power_sum 2 8 (8 * m))
    ∙ ap (λ (t : ℕ). 2 ^ t) (next m)
  where
    next : (m : ℕ) → 8 + 8 * m ≡ 8 * suc m
    next m = omega arith

-- It has the bits that the bytes cover.
last_word_bit :
    (r m w b : ℕ)
    → 8 * m ≤ b
    → b < 8 * (r + m)
    → get_bit b (w / 256 ^ m % 256 ^ r * 256 ^ m) ≡ get_bit b w
last_word_bit r m w b low high =
    let n = 8 * m in
    let k = b - n in
    let place : b ≡ n + k = omega arith in
    let y = w / 256 ^ m % 256 ^ r in
    let power = bits_of_bytes m in
    let shifted : y * 256 ^ m / 2 ^ n ≡ y =
      ap (λ (t : ℕ). y * t / 2 ^ n) power ∙ mul-div_cancel y (pow_pos n) in
    let mine : get_bit k (w / 256 ^ m % 256 ^ r) ≡ get_bit k (w / 256 ^ m) =
      rw (bits_of_bytes r) (get_bit-mod k (8 * r) (w / 256 ^ m) (omega arith)) in
    get_bit_eq b (n + k) (y * 256 ^ m) (y * 256 ^ m) place refl
    ∙ get_bit-div n k (y * 256 ^ m)
    ∙ get_bit_eq k k (y * 256 ^ m / 2 ^ n) y refl shifted
    ∙ mine
    ∙ get_bit_eq k k (w / 256 ^ m) (w / 2 ^ n) refl (ap (λ (t : ℕ). w / t) power)
    ∙ sym (get_bit-div n k w)
    ∙ get_bit_eq (n + k) b w w (sym place) refl

length-fetch : (n : ℕ) (old file : Bytes) → length old ≡ n → length (fetch n old file) ≡ n
length-fetch n old file e = omega (
  arith,
  length-append (take n file) (drop (length (take n file)) old),
  length-drop (length (take n file)) old,
  length-take n file,
)

-- A whole word, and the last one, as `fread` finds them.
fetch_word :
    (w : ℕ) (old rest : Bytes) → length old ≡ 8 → fetch 8 old (be_bytes 8 w ++ rest) ≡ be_bytes 8 w
fetch_word w old rest e = rw (
  take-append_at 8 (be_bytes 8 w) rest (length-be_bytes 8 w),
  drop_all (length (be_bytes 8 w)) old (omega (arith, length-be_bytes 8 w)),
  append-nil,
)

drop-zeros : (r m : ℕ) → drop r (replicate {A = ℕ} (r + m) 0) ≡ replicate m 0
drop-zeros r m =
    rw (sym (replicate_split r m))
      (drop-append_at r (replicate r 0) (replicate m 0) (length-replicate {A = ℕ} r 0))

fetch_last :
    (r m w : ℕ)
    → r + m ≡ 8
    → fetch r (replicate 8 0) (take r (be_bytes 8 w)) ≡ be_bytes r (w / 256 ^ m) ++ replicate m 0
fetch_last r m w e =
    let head = be_bytes r (w / 256 ^ m) in
    let short : take r (be_bytes 8 w) ≡ head =
      ap (λ (t : ℕ). take r (be_bytes t w)) (sym e) ∙ take-be_bytes r m w in
    let zeros : drop r (replicate {A = ℕ} 8 0) ≡ replicate m 0 =
      ap (λ (t : ℕ). drop r (replicate {A = ℕ} t 0)) (sym e) ∙ drop-zeros r m in
    rw (
      short,
      take_all r head (omega (arith, length-be_bytes r (w / 256 ^ m))),
      length-be_bytes r (w / 256 ^ m),
      zeros,
    )

whole_word_bit : (w b : ℕ) → b < 64 → get_bit b (from_be 0 (be_bytes 8 w)) ≡ get_bit b w
whole_word_bit w b h =
    get_bit_eq b b (from_be 0 (be_bytes 8 w)) (w % 2 ^ 64) refl (decode-be_bytes 8 w)
    ∙ get_bit-mod b 64 w h

-- Bit `b` of word `i` is in a file that has `n` words and `rest` bytes of one more.
abbrev IsStoredBit : ℕ → ℕ → ℕ → ℕ → Type 0
IsStoredBit n rest i b = (i < n) ⊎ ((i ≡ n) × (0 < rest) × (8 * (8 - rest) ≤ b))

bit-read_words :
    (n rest : ℕ) (old : Bytes) (ws zs : List ℕ) (i b : ℕ)
    → length zs ≡ length ws
    → length old ≡ 8
    → rest ≤ 8
    → i < length ws
    → b < 64
    → IsStoredBit n rest i b
    → get_bit b (get_or (read_words n rest old (write_words n rest ws) zs) i 0)
      ≡ get_bit b (get_or ws i 0)
unfolding read_words write_words
bit-read_words n rest old [] zs i b e o r h k s = absurd (omega arith)
bit-read_words n rest old (w ∷ ws) [] i b e o r h k s = absurd (omega arith)
bit-read_words zero rest old (w ∷ ws) (z ∷ zs) zero b e o r h k s =
    let m = 8 - rest in
    let some_rest : (rest == 0) ≡ false = ground arith in
    rw (some_rest, fetch_last rest m w (omega arith))
      (get_bit_eq b b _ _ refl (last_word rest m w)
        ∙ last_word_bit rest m w b (ground arith) (omega arith))
bit-read_words zero rest old (w ∷ ws) (z ∷ zs) (suc i) b e o r h k s = absurd (ground arith)
bit-read_words (suc n) rest old (w ∷ ws) (z ∷ zs) zero b e o r h k s =
    rw (fetch_word w old (write_words n rest ws) o) (whole_word_bit w b k)
bit-read_words (suc n) rest old (w ∷ ws) (z ∷ zs) (suc i) b e o r h k s =
    rw
      (
        fetch_word w old (write_words n rest ws) o,
        drop-append_at 8 (be_bytes 8 w) (write_words n rest ws) (length-be_bytes 8 w),
      )
      (bit-read_words n rest (be_bytes 8 w) ws zs i b (omega arith) (length-be_bytes 8 w) r
        (omega arith) k (ground arith))

length-read_words :
    (n rest : ℕ) (old file : Bytes) (ws : List ℕ)
    → length (read_words n rest old file ws) ≡ length ws
unfolding read_words
length-read_words n rest old file [] = refl
length-read_words zero rest old file (w ∷ ws) = elim (Bool-cases (rest == 0)) [
  | inl e ↦ rw e
  | inr e ↦ rw e
]
length-read_words (suc n) rest old file (w ∷ ws) =
    ap suc (length-read_words n rest (fetch 8 old file) (drop 8 file) ws)

pub read_from-IsValid :
    (stale file : Bytes) (s : BitSet) → IsValid s → IsValid (read_from stale file s)
unfolding read_from
read_from-IsValid stale file s v = record {
  words = length-read_words (s.size / 64) (rest_bytes s.size) (stale) file s.buffer ∙ v.words;
}

-- A new set of the same size that is read from what a valid set writes to its file has the same bit
-- at every index, whatever the eight bytes of the variable that takes the words are at first.
pub get-read_from :
    (stale : Bytes) (s : BitSet) (trash j : ℕ)
    → IsValid s
    → length stale ≡ 8
    → get (read_from stale (write_to s) (new_bit_set s.size trash)) j ≡ get s j
unfolding get read_from write_to new_bit_set
get-read_from stale s trash j v o = elim (Bool-cases (ltb j s.size)) [
  | inl inside ↦ rw inside (
      bit-read_words (s.size / 64) (rest_bytes s.size) stale s.buffer
        (replicate (word_count s.size) 0) (j / 64) (63 - j % 64)
        (length-replicate {A = ℕ} (word_count s.size) 0 ∙ sym v.words) o (ground arith)
        (ground (arith, v.words)) (omega arith) (stored_bit s.size j (ground arith)))
  | inr outside ↦ rw outside
]
  where
    stored_bit : (n j : ℕ) → j < n → IsStoredBit (n / 64) (rest_bytes n) (j / 64) (63 - j % 64)
    stored_bit n j h = elim (Bool-cases (ltb (j / 64) (n / 64))) [
      | inl e ↦ inl (ground arith)
      | inr e ↦ inr (ground arith, ground arith, ground arith)
    ]
