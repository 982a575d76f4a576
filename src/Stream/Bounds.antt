-- ===== src/Stream/Bounds.antt =====
-- Offsets stay within the arrays, on both sides.
use drive.Prelude.{ℕ, ◌+◌, ◌≤◌, ◌≡◌, ap, arith, length, take, length-append, length-take}
use drive.Prelude.Texts.{Bytes}
use drive.Stream.Input.{InputStream, read}
use drive.Stream.Output.{OutputStream, new_output, ensure_buffer, write}

-- The array of an input stream has the size that the stream was given.
pub record IsWithin (s : InputStream) : Type 0 where
  pub sized : length s.buffer ≡ s.size
  pub bounded : s.offset ≤ s.size

-- Reading any number of bytes keeps the offset inside the buffer.
pub read-IsWithin : (n : ℕ) (s : InputStream) → IsWithin s → IsWithin (read n s).1
unfolding read
read-IsWithin n s w = ground arith

-- What has been written lies in the array that was allocated.
pub record IsFit (s : OutputStream) : Type 0 where
  pub written : s.offset ≤ length s.buffer
  pub room : s.offset ≤ s.capacity

-- With the offset inside the capacity, `EnsureBuffer` makes room for `n` more bytes; it moves
-- neither offset nor bytes, and never shrinks the capacity.
pub ensure_buffer_room :
    (n : ℕ) (s : OutputStream)
    → s.offset ≤ s.capacity
    → (s.offset + n ≤ (ensure_buffer n s).capacity)
      × (s.capacity ≤ (ensure_buffer n s).capacity)
      × ((ensure_buffer n s).offset ≡ s.offset)
      × ((ensure_buffer n s).buffer ≡ s.buffer)
unfolding ensure_buffer
ensure_buffer_room n s h = ground arith

pub write-IsFit : (ary : Bytes) (s : OutputStream) → IsFit s → IsFit (write ary s).1
unfolding write
write-IsFit ary s f = record {
  written =
      let (room, grown, kept, same) = ensure_buffer_room (length ary) s f.room in
      omega (
        arith,
        length-append
            (take (ensure_buffer (length ary) s).offset (ensure_buffer (length ary) s).buffer) ary,
        length-take (ensure_buffer (length ary) s).offset (ensure_buffer (length ary) s).buffer,
        ap length same,
      );
  room = omega (arith, ensure_buffer_room (length ary) s f.room);
}

pub new_output-IsFit : IsFit new_output
new_output-IsFit = omega arith
