-- ===== src/Stream/ReadBack.antt =====
-- Reading what lies at the offset, for a stream that stands between `front` and `rest`.
use drive.Prelude.{
  ℕ, ◌+◌, ◌-◌, ◌^◌, ◌%◌, ◌<◌, ◌≤◌, ◌≡◌, refl, true, [], ◌∷◌, ◌++◌, append_assoc, append-nil, arith,
  length, take, take-append_length, drop-append_length, length-append, ltb, false, le→ltb_false,
  lt→ltb, drop_all, length-replicate, length-take, replicate,
}
use drive.Prelude.Texts.{Bytes}
use drive.Stream.Endian.{be_bytes, length-be_bytes, decode-be_bytes}
use drive.Stream.Input.{
  InputStream, read, read_uint8, read_uint32, read_uint64, read_string, resize, remainder,
}
use drive.Stream.Writers.{string_format}
use native.Mathlib.Nat.{mod-eq_of_lt}

abbrev pub at : Bytes → Bytes → InputStream
at front rest = record {
  buffer = front ++ rest;
  size = length (front ++ rest);
  offset = length front;
  is_valid = true;
}

pub remainder-at : (front rest : Bytes) → remainder (at front rest) ≡ length rest
remainder-at front rest = omega (arith, length-append front rest)

pub read-at :
    (n : ℕ) (front xs rest : Bytes)
    → length xs ≡ n
    → read n (at front (xs ++ rest)) ≡ (xs, at (front ++ xs) rest)
unfolding read
read-at n front xs rest h =
    let enough : n ≤ remainder (at front (xs ++ rest)) =
      omega (arith, remainder-at front (xs ++ rest), length-append xs rest) in
    rw (
      drop-append_length,
      append_assoc,
      le→ltb_false _ n enough,
      ← h,
      take-append_length,
      length-append front xs,
    )

-- A guard on the bytes that are left passes.
pub enough-at :
    (n : ℕ) (front xs rest : Bytes)
    → n ≤ length xs
    → ltb (remainder (at front (xs ++ rest))) n ≡ false
enough-at n front xs rest h =
    le→ltb_false _ n (omega (arith, remainder-at front (xs ++ rest), length-append xs rest))

-- Each number comes back as it was written, cut to its width.
module _ (v : ℕ) (front rest : Bytes) where
  pub read_uint8-at :
      read_uint8 (at front (be_bytes 1 v ++ rest)) ≡ (v % 256, at (front ++ be_bytes 1 v) rest)
  unfolding read_uint8
  read_uint8-at =
      rw (read-at 1 front (be_bytes 1 v) rest (length-be_bytes 1 v), length-be_bytes 1 v)
        (rw (decode-be_bytes 1 v))

  pub read_uint32-at :
      read_uint32 (at front (be_bytes 4 v ++ rest)) ≡ (v % 2 ^ 32, at (front ++ be_bytes 4 v) rest)
  unfolding read_uint32
  read_uint32-at =
      rw (read-at 4 front (be_bytes 4 v) rest (length-be_bytes 4 v), length-be_bytes 4 v)
        (rw (decode-be_bytes 4 v))

  pub read_uint64-at :
      read_uint64 (at front (be_bytes 8 v ++ rest)) ≡ (v % 2 ^ 64, at (front ++ be_bytes 8 v) rest)
  unfolding read_uint64
  read_uint64-at =
      rw (read-at 8 front (be_bytes 8 v) rest (length-be_bytes 8 v), length-be_bytes 8 v)
        (rw (decode-be_bytes 8 v))

pub length-resize : (n : ℕ) (str : Bytes) → length (resize n str) ≡ n
unfolding resize
length-resize n str = omega (
  arith,
  length-append (take n str) (replicate (n - length str) 0),
  length-take n str,
  length-replicate {A = ℕ} (n - length str) 0,
)

-- A string of less than 4 GB comes back whole, into an empty string.
pub read_string-at :
    (str front rest : Bytes)
    → length str < 2 ^ 32
    → read_string [] (at front (string_format str ++ rest))
      ≡ (4 + length str, str, at (front ++ string_format str) rest)
unfolding read_string
read_string-at [] front rest h = rw (append-nil, read_uint32-at 0 front rest)
read_string-at (c ∷ str) front rest h =
    let size = length (c ∷ str) in
    rw (
      append_assoc,
      read_uint32-at size front ((c ∷ str) ++ rest),
      mod-eq_of_lt h,
      read-at size (front ++ be_bytes 4 size) (c ∷ str) rest refl,
      lt→ltb 0 size (omega arith),
      drop_all size (resize size []) (omega (arith, length-resize size [])),
      append-nil,
      append_assoc front (be_bytes 4 size) (c ∷ str),
    )
