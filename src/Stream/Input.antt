-- ===== src/Stream/Input.antt =====
-- src/bdfsclient-lib/BufferedInputStream.cpp and IInputStream.cpp: reading from a byte array.
-- Sizes and offsets are lengths of arrays in memory, so their sums do not wrap.
use drive.Prelude.{
  ℕ, ◌+◌, ◌-◌, Bool, false, true, ◌&&◌, ◌++◌, ltb, ◌==◌, if◌then◌else◌, length, take, drop,
  replicate,
}
use drive.Prelude.Texts.{Bytes}
use drive.Stream.Endian.{from_be}

pub record InputStream : Type 0 where
  pub buffer : Bytes
  pub size : ℕ
  pub offset : ℕ
  pub is_valid : Bool

unfoldable pub open_input : Bytes → ℕ → InputStream
open_input buffer size = record { buffer = buffer; size = size; offset = 0; is_valid = true }

-- `offset` never passes `size` (Bounds), so the subtraction does not wrap.
abbrev pub remainder : InputStream → ℕ
remainder s = s.size - s.offset

-- The bytes that `memcpy` hands over; their number is the method's result.
unfoldable pub read : ℕ → InputStream → Bytes × InputStream
read n s =
    let short = ltb (remainder s) n in
    let count = if short then remainder s else n in
    let valid = if short then false else s.is_valid in
    (take count (drop s.offset s.buffer), record s { offset = s.offset + count; is_valid = valid })

unfoldable pub peek : ℕ → InputStream → Bytes
peek n s =
    let count = if ltb (remainder s) n then remainder s else n in
    take count (drop s.offset s.buffer)

-- `Read(&value, sizeof(value)) == sizeof(value)`, and 0 where the bytes do not suffice.
value_of : ℕ → Bytes → ℕ
value_of n bytes = if length bytes == n then from_be 0 bytes else 0

unfoldable pub read_uint8 : InputStream → ℕ × InputStream
unfolding value_of
read_uint8 s = let (bytes, s') = read 1 s in (value_of 1 bytes, s')

unfoldable pub read_uint16 : InputStream → ℕ × InputStream
unfolding value_of
read_uint16 s = let (bytes, s') = read 2 s in (value_of 2 bytes, s')

unfoldable pub peek_uint16 : InputStream → ℕ
unfolding value_of
peek_uint16 s = value_of 2 (peek 2 s)

unfoldable pub read_uint32 : InputStream → ℕ × InputStream
unfolding value_of
read_uint32 s = let (bytes, s') = read 4 s in (value_of 4 bytes, s')

unfoldable pub read_uint64 : InputStream → ℕ × InputStream
unfolding value_of
read_uint64 s = let (bytes, s') = read 8 s in (value_of 8 bytes, s')

-- `std::string::resize`
unfoldable pub resize : ℕ → Bytes → Bytes
resize n str = take n str ++ replicate (n - length str) 0

-- The result, the string that was passed in, and the stream. Nothing tells the caller of a string
-- that the input cuts short but the stream's `is_valid`; its missing bytes are zeros.
unfoldable pub read_string : Bytes → InputStream → ℕ × Bytes × InputStream
read_string str s =
    let (str_length, s₁) = read_uint32 s in
    let (bytes, s₂) = read str_length s₁ in
    if s₁.is_valid && ltb 0 str_length
    then (4 + length bytes, bytes ++ drop (length bytes) (resize str_length str), s₂)
    else (4, str, s₁)
