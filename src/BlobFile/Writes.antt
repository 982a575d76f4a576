-- ===== src/BlobFile/Writes.antt =====
-- Writes to a file (src/bdblob/File.cpp).
use drive.BlobFile.{Provider, File, capacity_of, grow, read, write}
use drive.BlobFile.Laws.{IsProvider, IsRoundable, capacity_of_ge, capacity_of_same, last_block_same}
use drive.BlobFile.Reads.{read_lem, take-take, taken_back}
use drive.HostPartition.{overlay}
use drive.Prelude.{
  All, ap, ℕ, ◌+◌, ◌-◌, ◌^◌, ◌≤◌, ◌<◌, ◌≡◌, refl, ◌∙◌, Option, some, none, List, ◌⊎◌, [], ◌∷◌,
  arith, ltb, leb, ltb→lt, ltb_false→le, min, length, take, length-take, Bool-cases, inl, inr,
}
use drive.Prelude.Texts.{Bytes}
use native.Mathlib.Nat.{mod-eq_of_lt}

-- Writes one after the other, up to the first whose behaviour is undefined.
unfoldable pub write_all :
    (b : Provider) → ℕ → List (ℕ × Bytes) → File b → b.Store → Option (File b × b.Store)
write_all b block_size [] f s = some (f, s)
write_all b block_size ((offset, new) ∷ writes) f s = elim (write b block_size offset new f s) [
  | none ↦ none
  | some (_, f', s') ↦ write_all b block_size writes f' s'
]

module _ (b : Provider) (Shows : b.Blob → b.Store → Bytes → Type 0) (laws : IsProvider b Shows)
    (block_size : ℕ) (positive : 0 < block_size) where
  -- A file in the state `s`, open on the blob `x` that holds `bytes`.
  pub record IsOpen (f : File b) (x : b.Blob) (s : b.Store) (bytes : Bytes) : Type 0 where
    pub opened : f.blob ≡ some x
    pub shown : Shows x s bytes
    pub roundable : IsRoundable block_size f.size

  -- What a write of `new` that reports `n` bytes makes of the file `f`.
  pub record IsWritten (offset : ℕ) (new : Bytes) (f : File b) (x : b.Blob) (bytes : Bytes) (n : ℕ)
      (f' : File b) (s' : b.Store) : Type 0 where
    pub after : Bytes
    pub file : IsOpen f' x s' after
    pub count : n ≤ length new
    pub grown : f.size ≤ f'.size
    pub same_capacity : capacity_of block_size f'.size ≡ capacity_of block_size f.size
    pub held :
        (n ≡ 0)
        ⊎ (offset ≤ length bytes)
          × (offset + n ≤ f'.size)
          × (after ≡ overlay offset (take n new) bytes)

  -- A file that keeps its blob and grows up to its capacity at most.
  grown_file :
      (f : File b) (x : b.Blob) (s s' : b.Store) (bytes after : Bytes) (end : ℕ)
      → IsOpen f x s bytes
      → Shows x s' after
      → end ≤ capacity_of block_size f.size
      → let f' = grow b end f in
        IsOpen f' x s' after
        × (f.size ≤ f'.size)
        × (end ≤ f'.size)
        × (capacity_of block_size f'.size ≡ capacity_of block_size f.size)
  grown_file f x s s' bytes after end o shows h =
      let low : f.size ≤ (grow b end f).size = ground arith in
      let low' : end ≤ (grow b end f).size = ground arith in
      let top : (grow b end f).size ≤ capacity_of block_size f.size =
        ground (arith, capacity_of_ge block_size f.size positive o.roundable) in
      let same =
        last_block_same block_size f.size (grow b end f).size positive o.roundable low top in
      (
        record { opened = o.opened; shown = shows; roundable = rw same o.roundable },
        low,
        low',
        capacity_of_same block_size f.size (grow b end f).size positive o.roundable low top,
      )

  unchanged :
      (offset : ℕ) (new : Bytes) (f : File b) (x : b.Blob) (s : b.Store) (bytes : Bytes)
      → IsOpen f x s bytes
      → IsWritten offset new f x bytes 0 f s
  unchanged offset new f x s bytes o = record {
    after = bytes;
    file = o;
    count = omega arith;
    grown = omega arith;
    same_capacity = refl;
    held = inl refl;
  }

  -- A write to an open file, at an end that fits 64 bits, is defined. It takes a first part of its
  -- bytes, lays them over what the blob held, and never shrinks the file nor changes its capacity.
  pub write_lem :
      (offset : ℕ) (new : Bytes) (f : File b) (x : b.Blob) (s : b.Store) (bytes : Bytes)
      → IsOpen f x s bytes
      → offset + length new < 2 ^ 64
      → (n : ℕ) × (f' : File b) × (s' : b.Store) × (write b block_size offset new f s
          ≡ some (n, f', s'))
        × IsWritten offset new f x bytes n f' s'
  unfolding write
  write_lem offset new f x s bytes o h =
      let capacity = capacity_of block_size f.size in
      let start = min offset capacity in
      let end = min (offset + length new) capacity in
      let fits = mod-eq_of_lt h in
      let size = laws.size_lem x s bytes o.shown in
      let part = take (end - offset) new in
      let part_length = length-take (end - offset) new in
      elim (Bool-cases (leb end start)) [
        | inl nothing ↦ (0, f, s, rw (o.opened, fits, nothing), unchanged offset new f x s bytes o)
        | inr something ↦
            let from : start ≡ offset = ground arith in
            elim (Bool-cases (ltb (b.size x) offset)) [
              | inl outside ↦
                  let (s', wrote, shows) =
                    laws.write_outside offset part x s bytes o.shown
                      (ltb→lt (b.size x) offset outside) in
                  let (file, low, reach, same) =
                    grown_file f x s s' bytes bytes (offset + 0) o shows (ground arith) in
                  (
                    0,
                    grow b (offset + 0) f,
                    s',
                    rw (o.opened, fits, something, from, wrote, from),
                    record {
                      after = bytes;
                      file = file;
                      count = omega arith;
                      grown = low;
                      same_capacity = same;
                      held = inl refl;
                    },
                  )
              | inr inside ↦
                  let (n, s', wrote, count, reach, shows) =
                    laws.write_lem offset part x s bytes o.shown
                      (ltb_false→le (b.size x) offset inside) in
                  let (file, low, reach', same) =
                    grown_file f x s s' bytes (overlay offset (take n part) bytes) (offset + n) o
                      shows (ground (arith, part_length)) in
                  (
                    n,
                    grow b (offset + n) f,
                    s',
                    rw (o.opened, fits, something, from, wrote, from),
                    record {
                      after = overlay offset (take n part) bytes;
                      file = file;
                      count = omega (arith, part_length);
                      grown = low;
                      same_capacity = same;
                      held = inr (
                        omega (arith, size),
                        reach',
                        (ap (λ (t : Bytes). overlay offset t bytes)
                            (take-take n (end - offset) new (omega (arith, part_length)))),
                      );
                    },
                  )
            ]
      ]

  -- A write to a file that is open on a blob in order, at an end that fits 64 bits, is defined and
  -- takes a first part of its bytes; a read of as many bytes at its offset then gives that part.
  pub read-write_file :
      (offset : ℕ) (new : Bytes) (f : File b) (x : b.Blob) (s : b.Store) (bytes : Bytes)
      → IsOpen f x s bytes
      → offset + length new < 2 ^ 64
      → (n : ℕ) × (f' : File b) × (s' : b.Store) × (write b block_size offset new f s
          ≡ some (n, f', s'))
        × (n ≤ length new)
        × (read b offset n f' s' ≡ take n new)
  read-write_file offset new f x s bytes o h =
      let (n, f', s', wrote, w) = write_lem offset new f x s bytes o h in
      let seen =
        read_lem b Shows laws offset n f' x s' w.after w.file.opened w.file.shown
          (omega (arith, w.count)) in
      (
        n,
        f',
        s',
        wrote,
        w.count,
        seen ∙ elim w.held [
          | inl nothing ↦ rw nothing
          | inr (inside, reach, same) ↦
              taken_back offset n f'.size new bytes w.after inside reach w.count same
        ],
      )

  -- A file that is open on a blob in order never grows past the rounding of its size to whole
  -- blocks, whatever is written to it: all of any number of writes, at ends that fit 64 bits, are
  -- defined, and leave the size between the old one and its rounding.
  pub write_all-Within :
      (writes : List (ℕ × Bytes)) (f : File b) (x : b.Blob) (s : b.Store) (bytes : Bytes)
      → IsOpen f x s bytes
      → All (λ (w : ℕ × Bytes). w.0 + length w.1 < 2 ^ 64) writes
      → (f' : File b) × (s' : b.Store) × (write_all b block_size writes f s ≡ some (f', s'))
        × (f.size ≤ f'.size)
        × (f'.size ≤ capacity_of block_size f.size)
  unfolding write_all
  write_all-Within [] f x s bytes o h =
      (f, s, refl, omega arith, capacity_of_ge block_size f.size positive o.roundable)
  write_all-Within ((offset, new) ∷ writes) f x s bytes o (h, others) =
      let (n, f₁, s₁, wrote, w) = write_lem offset new f x s bytes o h in
      let (f', s', rest, low, top) = write_all-Within writes f₁ x s₁ w.after w.file others in
      (f', s', rw (write_all, wrote) rest, omega (arith, w.grown), rw w.same_capacity at top)
