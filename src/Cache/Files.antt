-- ===== src/Cache/Files.antt =====
-- The files of the cache (src/bdfsclient-lib/Cache.cpp): a file holds blocks of one row, each behind
-- its column in eight bytes of the processor's order, the lowest byte first.
use drive.HostPartition.{overlay}
use drive.Prelude.{
  ℕ, zero, suc, ◌+◌, ◌/◌, ◌%◌, Bool, true, false, not, Option, none, some, [], ◌∷◌, ◌==◌,
  if◌then◌else◌, length, take, drop,
}
use drive.Prelude.Texts.{Bytes}
use drive.Stream.Arrays.{from_le}
use drive.Volume.{Column}

-- How the calls of the C library within one request turn out: `reads` is opening the file of a row
-- that is there to read it, `updates` opening one to change it, `creates` making one, which empties
-- a file that is there, and `takes` how many bytes of so many `fwrite` takes.
pub record LocalDisk : Type 0 where
  pub reads : ℕ → Bool
  pub updates : Bool
  pub creates : Bool
  pub takes : ℕ → ℕ

unfoldable pub le_bytes : ℕ → ℕ → Bytes
le_bytes zero n = []
le_bytes (suc k) n = (n % 256) ∷ le_bytes k (n / 256)

-- The number of bytes written at a position, and the file. A gap before them reads as zeros.
unfoldable pub fwrite : LocalDisk → Bytes → ℕ → Bytes → ℕ × Bytes
fwrite disk bytes position file =
    let taken = take (disk.takes (length bytes)) bytes in
    (length taken, if length taken == 0 then file else overlay position taken file)

-- "rb+", and "wb+" if that fails.
unfoldable pub open_or_create : LocalDisk → Option Bytes → Option Bytes
open_or_create disk (some file) =
    if disk.updates then some file else if disk.creates then some [] else none
open_or_create disk none = if disk.creates then some [] else none

-- "rb": a file that cannot be opened is taken for one that is not there.
unfoldable pub open_to_read : LocalDisk → ℕ → Option Bytes → Option Bytes
open_to_read disk row file = if disk.reads row then file else none

module _ (block_size : ℕ) where
  -- The loop that looks for a column: whether it is there, and the position at the end. A round
  -- takes eight bytes of `rest` at least, so as much fuel as there are bytes suffices.
  unfoldable pub locate : ℕ → Column → ℕ → Bytes → Bool × ℕ
  locate zero column position rest = (false, position)
  locate (suc fuel) column position rest =
      let next = locate fuel column (position + (8 + block_size)) (drop (8 + block_size) rest) in
      if not (length (take 8 rest) == 8)
      then (false, position + length rest)
      else if from_le (take 8 rest) == column
      then (true, position + 8)
      else next

  -- `ReadFileBlock`
  unfoldable pub read_file_block : Option Bytes → Column → Option Bytes
  read_file_block file column =
      let got : Bytes = elim file [
        | none ↦ []
        | some bytes ↦
            let (found, position) = locate (suc (length bytes)) column 0 bytes in
            if found then take block_size (drop position bytes) else []
      ] in
      if length got == block_size then some got else none

  -- The writes behind the loop of `WriteFileBlock`.
  unfoldable pub write_found : LocalDisk → Bool → ℕ → Bytes → Bytes → ℕ × ℕ × Bytes
  write_found disk found position block file =
      let (count, file') = fwrite disk block position file in
      if found then (count, position + count, file') else (0, position, file)

  unfoldable pub append_cell : LocalDisk → Column → ℕ → Bytes → Bytes → Bool × Bytes
  append_cell disk column position block file =
      let (header_count, headed) = fwrite disk (le_bytes 8 column) position file in
      let (count, file') = fwrite disk block (position + header_count) headed in
      if header_count == 8 then (count == block_size, file') else (false, headed)

  -- The part of `WriteFileBlock` on the open file.
  unfoldable pub write_open : LocalDisk → Bytes → Column → Bytes → Bool × Bytes
  unfolding write_found append_cell
  write_open disk bytes column block =
      let (found, position) = locate (suc (length bytes)) column 0 bytes in
      let (count, position', bytes') = write_found disk found position block bytes in
      let (success, appended) = append_cell disk column position' block bytes' in
      if count == block_size then (true, bytes') else (success, appended)

  -- `WriteFileBlock`, of a block of `block_size` bytes.
  unfoldable pub write_file_block : LocalDisk → Option Bytes → Column → Bytes → Bool × Option Bytes
  write_file_block disk file column block = elim (open_or_create disk file) [
    | none ↦ (0 == block_size, file)
    | some bytes ↦
        let (success, bytes') = write_open disk bytes column block in (success, some bytes')
  ]
