-- ===== src/Stream/Writers.antt =====
-- What each writing method appends, by rules that compose along `>>`.
use drive.Prelude.{
  ℕ, suc, ◌+◌, ◌<◌, ◌≡◌, refl, true, [], ◌∷◌, ◌++◌, append_assoc, append-nil, arith, length,
  take_all, length-append, length-take, ltb, lt→ltb, if◌then◌else◌, sym,
}
use drive.Prelude.Texts.{Bytes}
use drive.Stream.Bounds.{IsFit, write-IsFit, ensure_buffer_room}
use drive.Stream.Endian.{be_bytes, length-be_bytes}
use drive.Stream.Output.{
  OutputStream, contents, write, Writer, ◌>>◌, done, write_bytes, write_uint8, write_uint32,
  write_uint64, write_string,
}

-- On a stream in order the method succeeds, keeps the order, and adds the bytes `bs` at the end.
pub record Appends (m : Writer) (bs : Bytes) : Type 0 where
  pub run :
      (s : OutputStream)
      → IsFit s
      → ((m s).0 ≡ true) × IsFit (m s).1 × (contents (m s).1 ≡ contents s ++ bs)

pub done-Appends : Appends done []
done-Appends = record { run = λ s f. (refl, f, sym (append-nil (contents s))) }

pub >>-Appends :
    (m k : Writer) (a b : Bytes) → Appends m a → Appends k b → Appends (m >> k) (a ++ b)
>>-Appends m k a b p q = record {
  run = λ s f.
      let (success, fit, wrote) = p.run s f in
      let (success', fit', wrote') = q.run (m s).1 fit in
      ground (arith, append_assoc (contents s) a b);
}

pub write_bytes-Appends : (ary : Bytes) → 0 < length ary → Appends (write_bytes ary) ary
unfolding write_bytes write
write_bytes-Appends ary h = record {
  run = λ s f.
      let (room, grown, kept, same) = ensure_buffer_room (length ary) s f.room in
      (
        ground arith,
        write-IsFit ary s f,
        rw (kept, same)
            (take_all (s.offset + length ary) (contents s ++ ary)
              (omega (arith, length-append (contents s) ary, length-take s.offset s.buffer))),
      );
}

pub write_uint8-Appends : (v : ℕ) → Appends (write_uint8 v) (be_bytes 1 v)
unfolding write_uint8
write_uint8-Appends v = write_bytes-Appends _ (omega (arith, length-be_bytes 1 v))

pub write_uint32-Appends : (v : ℕ) → Appends (write_uint32 v) (be_bytes 4 v)
unfolding write_uint32
write_uint32-Appends v = write_bytes-Appends _ (omega (arith, length-be_bytes 4 v))

pub write_uint64-Appends : (v : ℕ) → Appends (write_uint64 v) (be_bytes 8 v)
unfolding write_uint64
write_uint64-Appends v = write_bytes-Appends _ (omega (arith, length-be_bytes 8 v))

-- The format of a string: its size in four bytes, and its bytes.
abbrev pub string_format : Bytes → Bytes
string_format str = be_bytes 4 (length str) ++ str

content-Appends : (str : Bytes) → Appends (if ltb 0 (length str) then write_bytes str else done) str
content-Appends [] = done-Appends
content-Appends (c ∷ str) =
    rw (lt→ltb 0 (suc (length str)) (omega arith)) (write_bytes-Appends (c ∷ str) (omega arith))

pub write_string-Appends : (str : Bytes) → Appends (write_string str) (string_format str)
unfolding write_string
write_string-Appends str =
    >>-Appends _ _ _ _ (write_uint32-Appends (length str)) (content-Appends str)
