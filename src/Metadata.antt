-- ===== src/Metadata.antt =====
-- src/bdblob/BlobMetadata.cpp: the description of a blob and the partitions that hold it.
pub mod RoundTrip
use drive.Prelude.{
  ℕ, zero, suc, ◌+◌, Bool, true, false, List, [], ◌∷◌, ◌++◌, ltb, if◌then◌else◌, length,
}
use drive.Prelude.Texts.{Bytes}
use drive.Stream.Input.{InputStream, remainder, read_uint32, read_uint64, read_string}
use drive.Stream.Output.{Writer, ◌>>◌, done, write_uint32, write_uint64, write_string}

pub record PartitionInfo : Type 0 where
  pub name : Bytes
  pub provider : Bytes

pub record BlobMetadata : Type 0 where
  pub size : ℕ
  pub block_size : ℕ
  pub partitions : List PartitionInfo

abbrev pub new_metadata : BlobMetadata
new_metadata = record { size = 0; block_size = 0; partitions = [] }

serialize_partitions : List PartitionInfo → Writer
serialize_partitions [] = done
serialize_partitions (p ∷ ps) = do
  write_string p.name
  write_string p.provider
  serialize_partitions ps

unfoldable pub serialize : BlobMetadata → Writer
unfolding serialize_partitions
serialize m = do
  write_uint64 m.size
  write_uint64 m.block_size
  write_uint32 (length m.partitions)
  serialize_partitions m.partitions

unfoldable pub add_partition : Bytes → Bytes → BlobMetadata → BlobMetadata
add_partition name provider m = record m {
  partitions = m.partitions ++ record { name = name; provider = provider } ∷ [];
}

-- `count` rounds of the loop. The result, the object as far as it was filled, and the stream.
deserialize_partitions : ℕ → BlobMetadata → InputStream → Bool × BlobMetadata × InputStream
unfolding add_partition
deserialize_partitions zero m s = (true, m, s)
deserialize_partitions (suc count) m s =
    let (_, name, s₁) = read_string [] s in
    let (_, provider, s₂) = read_string [] s₁ in
    let next = deserialize_partitions count (add_partition name provider m) s₂ in
    if ltb (remainder s) 4
    then (false, m, s)
    else if ltb (remainder s₁) 4
    then (false, m, s₁)
    else next

-- Partitions that the object already has stay in front of those that are read.
unfoldable pub deserialize : BlobMetadata → InputStream → Bool × BlobMetadata × InputStream
unfolding deserialize_partitions
deserialize m s =
    let (size, s₁) = read_uint64 s in
    let (block_size, s₂) = read_uint64 s₁ in
    let (count, s₃) = read_uint32 s₂ in
    let rest =
      deserialize_partitions count (record m { size = size; block_size = block_size }) s₃ in
    if ltb (remainder s) 20 then (false, m, s) else rest

partitions_size : List PartitionInfo → ℕ
partitions_size [] = 0
partitions_size (p ∷ ps) = 4 + length p.name + (4 + length p.provider) + partitions_size ps

unfoldable pub get_serialized_size : BlobMetadata → ℕ
unfolding partitions_size
get_serialized_size m = 20 + partitions_size m.partitions
