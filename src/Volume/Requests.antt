-- ===== src/Volume/Requests.antt =====
-- The requests on the bytes of a volume and on its cells: src/bdfsclient-lib/Volume.cpp and
-- VolumeCell.cpp.
use drive.Prelude.{
  ℕ, zero, suc, ◌+◌, ◌-◌, ◌*◌, ◌/◌, ◌%◌, ◌^◌, Bool, true, false, not, ◌||◌, Option, none, some, [],
  ◌++◌, ltb, leb, ◌==◌, if◌then◌else◌, length, take, drop,
}
use drive.Prelude.Texts.{Bytes}
use drive.Volume.{
  Volume, Backend, Row, Column, columns, read_cached, write_cached, encode_row, verify_row,
}

-- Numbers of type `uint64_t` and `size_t`.
abbrev word : ℕ → ℕ
word n = n % 2 ^ 64

-- The bytes of all data blocks.
abbrev pub data_size : Volume → ℕ
data_size v = word (word (v.block_count * v.data_count) * v.block_size)

abbrev pub is_outside : Volume → ℕ → ℕ → Bool
is_outside v size offset =
    leb (data_size v) offset || (ltb (data_size v) size || ltb (data_size v) (word (offset + size)))

abbrev pub prepend : Bytes → Option Bytes → Option Bytes
prepend bytes none = none
prepend bytes (some more) = some (bytes ++ more)

module _ (b : Backend) (v : Volume) where
  -- The loop of `Write`, each round with at least one of the bytes left.
  unfoldable pub write_loop : ℕ → Row → Column → ℕ → Bytes → b.State → Bool × b.State
  write_loop zero row col block_offset bytes s = (false, s)
  write_loop (suc fuel) row col block_offset bytes s =
      let room = v.block_size - block_offset in
      let (written, s₁) = write_cached b row col (take room bytes) block_offset s in
      let rest = drop room bytes in
      let (encoded, s₂) = encode_row b v row s₁ in
      let (verified, s₃) = verify_row b v (suc row) s₂ in
      let same_row = write_loop fuel row (suc col) 0 rest s₁ in
      let next_row = write_loop fuel (suc row) 0 0 rest s₃ in
      if not written
      then (false, s₁)
      else if length rest == 0
      then (encoded, s₂)
      else if not (suc col == v.data_count)
      then same_row
      else if not encoded
      then (false, s₂)
      else if not verified
      then (false, s₃)
      else next_row

  unfoldable pub write : Bytes → ℕ → b.State → Bool × b.State
  unfolding write_loop
  write bytes offset s =
      let block = offset / v.block_size in
      let (verified, s') = verify_row b v (block / v.data_count) s in
      let looped =
        write_loop (length bytes) (block / v.data_count) (block % v.data_count)
          (offset % v.block_size) bytes s' in
      if length bytes == 0
      then (true, s)
      else if is_outside v (length bytes) offset
      then (false, s)
      else if not verified
      then (false, s')
      else looped

  -- The loop of `Read`; what was read before a failure is dropped; `size` bytes are left to be read, each round reads at least one.
  unfoldable pub read_loop : ℕ → Row → Column → ℕ → ℕ → b.State → Option Bytes × b.State
  read_loop zero row col block_offset size s = (none, s)
  read_loop (suc fuel) row col block_offset size s =
      let room = v.block_size - block_offset in
      let to_read = if ltb room size then room else size in
      let (answer, s₁) = read_cached b row col to_read block_offset s in
      let rest = size - to_read in
      let (verified, s₂) = verify_row b v (suc row) s₁ in
      let same_row = read_loop fuel row (suc col) 0 rest s₁ in
      let next_row = read_loop fuel (suc row) 0 0 rest s₂ in
      elim answer [
        | none ↦ (none, s₁)
        | some bytes ↦
            if rest == 0
            then (some bytes, s₁)
            else if not (suc col == v.data_count)
            then (prepend bytes same_row.0, same_row.1)
            else if not verified
            then (none, s₂)
            else (prepend bytes next_row.0, next_row.1)
      ]

  unfoldable pub read : ℕ → ℕ → b.State → Option Bytes × b.State
  unfolding read_loop
  read size offset s =
      let block = offset / v.block_size in
      let (verified, s') = verify_row b v (block / v.data_count) s in
      let looped =
        read_loop size (block / v.data_count) (block % v.data_count) (offset % v.block_size) size
          s' in
      if size == 0
      then (some [], s)
      else if is_outside v size offset
      then (none, s)
      else if not verified
      then (none, s')
      else looped

  -- `__WriteCell` and `__ReadCell`; for a cell of a code column nothing is verified or encoded.
  unfoldable pub write_cell : Row → Column → Bytes → ℕ → b.State → Bool × b.State
  write_cell row col bytes offset s =
      let is_code = leb v.data_count col in
      let (verified, s₁) = if is_code then (true, s) else verify_row b v row s in
      let (written, s₂) = write_cached b row col bytes offset s₁ in
      if leb (columns v) col || not (v.present col)
      then (false, s)
      else if not verified
      then (false, s₁)
      else if not written
      then (false, s₂)
      else if is_code
      then (true, s₂)
      else encode_row b v row s₂

  unfoldable pub read_cell : Row → Column → ℕ → ℕ → b.State → Option Bytes × b.State
  read_cell row col size offset s =
      let (answer, s₁) = read_cached b row col size offset s in
      let (verified, s₂) = verify_row b v row s₁ in
      if leb (columns v) col || not (v.present col) then (none, s) else elim answer [
        | some bytes ↦ (some bytes, s₁)
        | none ↦ if not verified then (none, s₂) else read_cached b row col size offset s₂
      ]
