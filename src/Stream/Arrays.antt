-- ===== src/Stream/Arrays.antt =====
-- The array methods of src/bdfsclient-lib/IInputStream.cpp and IOutputStream.cpp.
use drive.Prelude.{
  ℕ, zero, suc, ◌+◌, ◌*◌, ◌/◌, ◌%◌, ◌^◌, ◌<◌, ◌≡◌, refl, List, [], ◌∷◌, ◌++◌, true, arith, length,
  take, drop, ◌==◌, ==_iff, if◌then◌else◌, length-append, take-append_at, drop-append_at, map,
}
use drive.Prelude.Texts.{Bytes}
use drive.Stream.Bounds.{new_output-IsFit}
use drive.Stream.Endian.{be_bytes, from_be, length-be_bytes, decode-be_bytes}
use drive.Stream.Input.{InputStream, open_input, read}
use drive.Stream.Output.{Writer, write_bytes, new_output, contents}
use drive.Stream.ReadBack.{at, read-at}
use native.Mathlib.Nat.{suc-mul, mul-div_cancel, mul-pos}
use drive.Stream.Writers.{write_bytes-Appends}

-- The elements in network order, `k` bytes each.
unfoldable pub array_bytes : ℕ → List ℕ → Bytes
array_bytes k [] = []
array_bytes k (v ∷ ary) = be_bytes k v ++ array_bytes k ary

-- The methods put the elements into network order, write the array, and put them back.
unfoldable pub write_uint8_array : List ℕ → Writer
write_uint8_array ary = write_bytes (array_bytes 1 ary)

unfoldable pub write_uint16_array : List ℕ → Writer
write_uint16_array ary = write_bytes (array_bytes 2 ary)

unfoldable pub write_uint32_array : List ℕ → Writer
write_uint32_array ary = write_bytes (array_bytes 4 ary)

unfoldable pub write_uint64_array : List ℕ → Writer
write_uint64_array ary = write_bytes (array_bytes 8 ary)

-- A number as the processor reads it, the lowest byte first.
unfoldable pub from_le : Bytes → ℕ
from_le [] = 0
from_le (b ∷ bytes) = b + 256 * from_le bytes

unfoldable pub elements : (Bytes → ℕ) → ℕ → ℕ → Bytes → List ℕ
elements value k zero bytes = []
elements value k (suc n) bytes = value (take k bytes) ∷ elements value k n (drop k bytes)

-- The result and the elements that were read whole. If the input has fewer than `n`, they stay
-- as the bytes lie in memory.
unfoldable pub read_array : ℕ → ℕ → InputStream → ℕ × List ℕ × InputStream
read_array k n s =
    let (bytes, s') = read (n * k) s in
    let count = length bytes / k in
    (count, elements (if count == n then from_be 0 else from_le) k count bytes, s')

unfoldable pub read_uint8_array : ℕ → InputStream → ℕ × List ℕ × InputStream
read_uint8_array n s = read_array 1 n s

unfoldable pub read_uint16_array : ℕ → InputStream → ℕ × List ℕ × InputStream
read_uint16_array n s = read_array 2 n s

unfoldable pub read_uint32_array : ℕ → InputStream → ℕ × List ℕ × InputStream
read_uint32_array n s = read_array 4 n s

unfoldable pub read_uint64_array : ℕ → InputStream → ℕ × List ℕ × InputStream
read_uint64_array n s = read_array 8 n s

length-array_bytes : (k : ℕ) (ary : List ℕ) → length (array_bytes k ary) ≡ length ary * k
unfolding array_bytes
length-array_bytes k [] = omega arith
length-array_bytes k (v ∷ ary) =
    rw
      (
        length-append (be_bytes k v) (array_bytes k ary),
        length-be_bytes k v,
        length-array_bytes k ary,
      )
      (omega (arith, suc-mul (length ary) k))

elements-array_bytes :
    (k : ℕ) (ary : List ℕ)
    → elements (from_be 0) k (length ary) (array_bytes k ary) ≡ map (λ v. v % 256 ^ k) ary
unfolding elements array_bytes
elements-array_bytes k [] = refl
elements-array_bytes k (v ∷ ary) =
    let first : take k (be_bytes k v ++ array_bytes k ary) ≡ be_bytes k v =
      take-append_at k (be_bytes k v) (array_bytes k ary) (length-be_bytes k v) in
    let others : drop k (be_bytes k v ++ array_bytes k ary) ≡ array_bytes k ary =
      drop-append_at k (be_bytes k v) (array_bytes k ary) (length-be_bytes k v) in
    rw (first, others, decode-be_bytes k v, elements-array_bytes k ary)

pub read_array-at :
    (k : ℕ) (ary : List ℕ) (front rest : Bytes)
    → 0 < k
    → read_array k (length ary) (at front (array_bytes k ary ++ rest))
      ≡ (length ary, map (λ v. v % 256 ^ k) ary, at (front ++ array_bytes k ary) rest)
unfolding read_array
read_array-at k ary front rest h =
    let whole : length ary * k / k ≡ length ary = mul-div_cancel (length ary) h in
    rw (
      read-at (length ary * k) front (array_bytes k ary) rest (length-array_bytes k ary),
      length-array_bytes k ary,
      whole,
      (==_iff (length ary) (length ary)).1 refl,
      elements-array_bytes k ary,
    )

pub read_array-write_bytes :
    (k : ℕ) (ary : List ℕ) (rest : Bytes)
    → 0 < k
    → 0 < length ary
    → let (success, out) = write_bytes (array_bytes k ary) new_output in
      let input = contents out ++ rest in
      (success ≡ true)
      × (read_array k (length ary) (open_input input (length input))
          ≡ (length ary, map (λ v. v % 256 ^ k) ary, at (contents out) rest))
unfolding open_input
read_array-write_bytes k ary rest h filled =
    let some_bytes : 0 < length (array_bytes k ary) =
      rw (length-array_bytes k ary) (mul-pos filled h) in
    let (success, fit, wrote) =
      (write_bytes-Appends (array_bytes k ary) some_bytes).run new_output new_output-IsFit in
    (success, rw wrote (read_array-at k ary [] rest h))

-- An array of at least one number is written to a fresh stream, and reading as many, whatever
-- follows, gives their count, the numbers cut to 32 bits, and the stream behind them.
pub read_uint32_array-write_uint32_array :
    (ary : List ℕ) (rest : Bytes)
    → 0 < length ary
    → let (success, out) = write_uint32_array ary new_output in
      let input = contents out ++ rest in
      (success ≡ true)
      × (read_uint32_array (length ary) (open_input input (length input))
          ≡ (length ary, map (λ v. v % 2 ^ 32) ary, at (contents out) rest))
unfolding write_uint32_array read_uint32_array
read_uint32_array-write_uint32_array ary rest filled =
    read_array-write_bytes 4 ary rest (omega arith) filled
