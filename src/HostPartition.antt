-- ===== src/HostPartition.antt =====
-- src/bdhost/Partition.cpp, with the file form of src/bdhost/BitSet.cpp and the block requests of
-- src/bdhost/PartitionHandler.cpp.
pub mod Blocks
pub mod Zeroed
pub mod MapFile
pub mod Writes
pub mod Stored
pub mod Requests
use drive.BitSet.{BitSet, new_bit_set, refer, to_bool, assign_bit}
use drive.Prelude.{
  ℕ, zero, suc, ◌+◌, ◌-◌, ◌*◌, ◌/◌, ◌%◌, ◌^◌, Bool, true, false, not, ◌||◌, Option, none, some,
  List, [], ◌∷◌, ◌++◌, ltb, leb, ◌==◌, if◌then◌else◌, length, take, drop, replicate, get_or, min,
}
use drive.Prelude.Texts.{Bytes}
use drive.Stream.Endian.{be_bytes, from_be}

-- The bytes of the last word that the file holds.
abbrev pub rest_bytes : ℕ → ℕ
rest_bytes size = let rest = size % 64 in if rest % 8 == 0 then rest / 8 else rest / 8 + 1

unfoldable pub write_words : ℕ → ℕ → List ℕ → Bytes
write_words n rest [] = []
write_words zero rest (w ∷ ws) = if rest == 0 then [] else take rest (be_bytes 8 w)
write_words (suc n) rest (w ∷ ws) = be_bytes 8 w ++ write_words n rest ws

-- `WriteTo`
unfoldable pub write_to : BitSet → Bytes
unfolding write_words
write_to s = write_words (s.size / 64) (rest_bytes s.size) s.buffer

-- `fread` of `n` bytes into a variable: what the file does not have stays as it is.
abbrev pub fetch : ℕ → Bytes → Bytes → Bytes
fetch n old file = take n file ++ drop (length (take n file)) old

unfoldable pub read_words : ℕ → ℕ → Bytes → Bytes → List ℕ → List ℕ
read_words n rest old file [] = []
read_words zero rest old file (w ∷ ws) =
    if rest == 0 then w ∷ ws else from_be 0 (fetch rest (replicate 8 0) file) ∷ ws
read_words (suc n) rest old file (w ∷ ws) =
    let got = fetch 8 old file in from_be 0 got ∷ read_words n rest got (drop 8 file) ws

-- `ReadFrom`; `stale` are the bytes that `netBytes` has at first.
unfoldable pub read_from : Bytes → Bytes → BitSet → BitSet
unfolding read_words
read_from stale file s = record s {
  buffer = read_words (s.size / 64) (rest_bytes s.size) stale file s.buffer;
}

-- `files` are the files `block-<index>` of the partition's directory, `map_file` its `.partmap`.
pub record Partition : Type 0 where
  pub block_count : ℕ
  pub block_size : ℕ
  pub map : BitSet
  pub files : ℕ → Option Bytes
  pub map_file : Option Bytes

-- Whether new files can be made, `.partmap` be opened for writing, and a `.partmap` that is there for
-- reading; `stale` are the bytes that `netBytes` has at first. A write to a file that is open takes
-- all its bytes: the code does not look at what `fwrite` returns.
pub record Disk : Type 0 where
  pub creates : Bool
  pub flushes : Bool
  pub opens : Bool
  pub stale : Bytes

-- The constructor, on the directory's files; `trash` is the word that references outside share.
unfoldable pub open_partition : Disk → ℕ → ℕ → ℕ → (ℕ → Option Bytes) → Option Bytes → Partition
open_partition disk block_count block_size trash files map_file =
    let empty_map = new_bit_set block_count trash in
    record {
      block_count = block_count;
      block_size = block_size;
      map =
          if disk.opens
          then elim map_file [ none ↦ empty_map | some file ↦ read_from disk.stale file empty_map ]
          else empty_map;
      files = files;
      map_file = map_file;
    }

-- A request makes a partition of its own: of what the one before left it has the files and, from
-- its map, the word that references outside share.
abbrev pub reopen : Disk → Partition → Partition
reopen disk p = open_partition disk p.block_count p.block_size p.map.trash_bits p.files p.map_file

unfoldable pub flush_map : Disk → Partition → Partition
flush_map disk p = if disk.flushes then record p { map_file = some (write_to p.map) } else p

unfoldable pub verify_block : ℕ → Partition → Bool
verify_block index p =
    if leb p.block_count index
    then false
    else if to_bool p.map (refer p.map index)
    then elim (p.files index) [ none ↦ false | some file ↦ length file == p.block_size ]
    else true

-- `fseek` and `fwrite`: a gap before the offset reads as zeros.
unfoldable pub overlay : ℕ → Bytes → Bytes → Bytes
overlay offset bytes file =
    take offset file
    ++ (replicate (offset - length file) 0 ++ (bytes ++ drop (offset + length bytes) file))

-- The loop of `InitBlock`, 4096 bytes at a time; each round takes at least one of `fuel`.
unfoldable pub zero_chunks : ℕ → ℕ → Bytes
zero_chunks zero remaining = []
zero_chunks (suc fuel) remaining =
    let to_write = if ltb 4096 remaining then 4096 else remaining in
    let rest = zero_chunks fuel (remaining - to_write) in
    if ltb 0 remaining then replicate to_write 0 ++ rest else []

abbrev pub put_file : ℕ → Bytes → Partition → Partition
put_file index file p = record p { files = λ j. if j == index then some file else p.files j }

-- Opening a block's file for writing: "r+", and "w+" if there is none.
abbrev pub open_file : Disk → Option Bytes → Option Bytes
open_file disk (some file) = some file
open_file disk none = if disk.creates then some [] else none

unfoldable pub init_block : Disk → ℕ → Partition → Bool × Partition
unfolding zero_chunks
init_block disk index p = elim (open_file disk (p.files index)) [
  | none ↦ (false, p)
  | some file ↦
      let p' = put_file index (overlay 0 (zero_chunks p.block_size p.block_size) file) p in
      (true, flush_map disk (record p' { map = assign_bit p.map (refer p.map index) true }))
]

-- The tests at the head of `ReadBlock` and `WriteBlock`; `offset + size` is of type `size_t`.
abbrev pub is_outside : ℕ → ℕ → ℕ → Partition → Bool
is_outside index size offset p =
    ltb p.block_count index
    || (ltb p.block_size offset
        || (ltb p.block_size size || ltb p.block_size ((offset + size) % 2 ^ 64)))

-- `buffer` is the caller's, of `size` bytes.
unfoldable pub read_block : ℕ → Bytes → ℕ → ℕ → Partition → Bool × Bytes
read_block index buffer size offset p =
    if is_outside index size offset p
    then (false, buffer)
    else if to_bool p.map (refer p.map index)
    then elim (p.files index) [
      | none ↦ (false, buffer)
      | some file ↦ (true, fetch size buffer (drop offset file))
    ]
    else (true, replicate size 0)

unfoldable pub write_block : Disk → ℕ → Bytes → ℕ → Partition → Bool × Partition
write_block disk index bytes offset p =
    let p' = if to_bool p.map (refer p.map index) then p else (init_block disk index p).1 in
    if is_outside index (length bytes) offset p
    then (false, p)
    else elim (open_file disk (p'.files index)) [
      | none ↦ (false, p')
      | some file ↦ (true, put_file index (overlay offset bytes file) p')
    ]

-- The answers to a request on blocks.
pub data Answer : Type 0 where
  invalid_arguments failed_to_read failed_to_write : Answer
  bytes_read : Bytes → Answer
  size_written : ℕ → Answer

-- `OnReadBlock`, on the numbers that `strtoull` and `strtoul` find.
unfoldable pub on_read_block : Disk → ℕ → ℕ → ℕ → Partition → Answer
on_read_block disk block offset_text size_text p =
    let offset = offset_text % 2 ^ 32 in
    let size = size_text % 2 ^ 32 in
    if leb p.block_count block || (leb p.block_size offset || ltb (p.block_size - offset) size)
    then invalid_arguments
    else let (success, buffer) = read_block block (replicate size 0) size offset (reopen disk p) in
      if success then bytes_read buffer else failed_to_read

-- `OnWriteBlock`; the body is `none` for a null pointer.
unfoldable pub on_write_block : Disk → ℕ → ℕ → Option Bytes → Partition → Answer × Partition
on_write_block disk block offset_text body p =
    let offset = offset_text % 2 ^ 32 in
    elim body [
      | none ↦ (invalid_arguments, p)
      | some bytes ↦
          if leb p.block_count block || (leb p.block_size offset || length bytes == 0)
          then (invalid_arguments, p)
          else let (success, p') = write_block disk block bytes offset (reopen disk p) in
            if success then (size_written (length bytes), p') else (failed_to_write, p')
    ]
