-- ===== src/BlobFile/Reads.antt =====
-- Reads of a file (src/bdblob/File.cpp).
use drive.BlobFile.{Provider, File, read}
use drive.BlobFile.Laws.{IsProvider}
use drive.HostPartition.{overlay}
use drive.HostPartition.Blocks.{take-drop-overlay}
use drive.Prelude.{
  ℕ, zero, suc, ◌+◌, ◌-◌, ◌^◌, ◌≤◌, ◌<◌, ◌≡◌, refl, sym, some, [], arith, leb, min, leb→le, length,
  take, drop, get_or-take, get_or-drop, list_ext, length-take, length-drop, Bool-cases, inl, inr,
}
use drive.Prelude.Texts.{Bytes}
use native.Mathlib.Nat.{mod-eq_of_lt}

-- A part of the first bytes is a shorter part of all.
take-drop-take :
    (len offset size : ℕ) (bytes : Bytes)
    → take len (drop offset (take size bytes)) ≡ take (min len (size - offset)) (drop offset bytes)
take-drop-take len offset size bytes =
    let short = min len (size - offset) in
    let left = length-take len (drop offset (take size bytes)) in
    let left' = length-drop offset (take size bytes) in
    let left'' = length-take size bytes in
    let right = length-take short (drop offset bytes) in
    let right' = length-drop offset bytes in
    list_ext (take len (drop offset (take size bytes))) (take short (drop offset bytes)) 0
      (omega arith)
      (λ i l. rw (
        get_or-take len (drop offset (take size bytes)) i 0 (omega arith),
        get_or-drop offset (take size bytes) i 0,
        get_or-take size bytes (offset + i) 0 (omega arith),
        get_or-take short (drop offset bytes) i 0 (omega arith),
        get_or-drop offset bytes i 0,
      ))

pub take-take : (n m : ℕ) (bytes : Bytes) → n ≤ m → take n (take m bytes) ≡ take n bytes
take-take n m bytes h =
    let short : min n (m - 0) ≡ n = omega arith in rw short at (take-drop-take n 0 m bytes)

-- What was laid over the blob's bytes is found in the file, up to the file's end.
pub taken_back :
    (offset n size : ℕ) (new bytes after : Bytes)
    → offset ≤ length bytes
    → offset + n ≤ size
    → n ≤ length new
    → after ≡ overlay offset (take n new) bytes
    → take n (drop offset (take size after)) ≡ take n new
taken_back offset n size new bytes after inside reach count same =
    let short : min n (size - offset) ≡ n = omega arith in
    let taken : length (take n new) ≡ n = omega (arith, length-take n new) in
    rw (take-drop-take n offset size after, short, same)
      (rw taken at (take-drop-overlay offset (take n new) bytes inside))

take_empty : (n : ℕ) (bytes : Bytes) → n ≡ 0 → take n bytes ≡ []
take_empty zero bytes h = refl
take_empty (suc n) bytes h = absurd (omega arith)

module _ (b : Provider) (Shows : b.Blob → b.Store → Bytes → Type 0)
    (laws : IsProvider b Shows) where
  -- A read of an open file gives the part asked for of the first bytes of its blob, as many as the
  -- file's size says, while the end of the part fits 64 bits.
  pub read_lem :
      (offset len : ℕ) (f : File b) (x : b.Blob) (s : b.Store) (bytes : Bytes)
      → f.blob ≡ some x
      → Shows x s bytes
      → offset + len < 2 ^ 64
      → read b offset len f s ≡ take len (drop offset (take f.size bytes))
  unfolding read
  read_lem offset len f x s bytes e shows h =
      let start = min offset f.size in
      let fits = mod-eq_of_lt h in
      let whole = take-drop-take len offset f.size bytes in
      let end = min (offset + len) f.size in
      elim (Bool-cases (leb end start)) [
        | inl nothing ↦
            rw (e, fits, nothing, whole)
              (sym (
                take_empty (min len (f.size - offset)) (drop offset bytes)
                  (omega (arith, leb→le end start nothing))))
        | inr something ↦
            let from : start ≡ offset = ground arith in
            let part : end - start ≡ min len (f.size - offset) = ground arith in
            rw (e, fits, something, whole, part, from)
              (laws.read_lem offset (min len (f.size - offset)) x s bytes shows)
      ]
