-- ===== src/Stream/Output.antt =====
-- src/bdfsclient-lib/BufferedOutputStream.cpp and IOutputStream.cpp: writing to a growing array.
-- Sizes are lengths of arrays in memory, so their sums do not wrap; `realloc` that fails throws,
-- and such runs are left out.
use drive.Prelude.{
  ℕ, ◌+◌, ◌*◌, ◌/◌, Bool, true, false, not, [], ◌++◌, ltb, ◌==◌, if◌then◌else◌, length, take,
}
use drive.Prelude.Texts.{Bytes}
use drive.Stream.Endian.{be_bytes}

-- `buffer` holds what has been written, `capacity` is the C++ member `length`.
pub record OutputStream : Type 0 where
  pub buffer : Bytes
  pub capacity : ℕ
  pub offset : ℕ

abbrev pub new_output : OutputStream
new_output = record { buffer = []; capacity = 0; offset = 0 }

abbrev pub contents : OutputStream → Bytes
contents s = take s.offset s.buffer

unfoldable pub reset : OutputStream → OutputStream
reset s = record s { offset = 0 }

-- `&= ~63` rounds down to a multiple of 64.
unfoldable pub ensure_buffer : ℕ → OutputStream → OutputStream
ensure_buffer n s =
    if ltb s.capacity (s.offset + n)
    then record s { capacity = (s.capacity + n + 64) / 64 * 64 }
    else s

unfoldable pub write : Bytes → OutputStream → ℕ × OutputStream
unfolding ensure_buffer
write ary s =
    let s' = ensure_buffer (length ary) s in
    (
      length ary,
      record s' { buffer = take s'.offset s'.buffer ++ ary; offset = s'.offset + length ary },
    )

-- A method that writes and answers whether it succeeded.
abbrev pub Writer : Type 0
Writer = OutputStream → Bool × OutputStream

-- `return_false_if(!m)` before the rest.
infixl 5 ◌>>◌
abbrev pub ◌>>◌ : Writer → Writer → Writer
◌>>◌ m k s = let (success, s') = m s in if success then k s' else (false, s')

abbrev pub done : Writer
done s = (true, s)

-- `return Write(...)`: the number of bytes as a `bool`.
unfoldable pub write_bytes : Bytes → Writer
write_bytes ary s = let (count, s') = write ary s in (not (count == 0), s')

unfoldable pub write_uint8 : ℕ → Writer
write_uint8 v = write_bytes (be_bytes 1 v)

unfoldable pub write_uint16 : ℕ → Writer
write_uint16 v = write_bytes (be_bytes 2 v)

unfoldable pub write_uint32 : ℕ → Writer
write_uint32 v = write_bytes (be_bytes 4 v)

unfoldable pub write_uint64 : ℕ → Writer
write_uint64 v = write_bytes (be_bytes 8 v)

-- The size is cut to 32 bits.
unfoldable pub write_string : Bytes → Writer
write_string str = do
  write_uint32 (length str)
  if ltb 0 (length str) then write_bytes str else done
