-- ===== src/Metadata/RoundTrip.antt =====
-- The format of the metadata, its size, and reading back what was written.
use drive.Prelude.{
  ◌+◌, ◌^◌, ◌<◌, ◌≤◌, ◌≡◌, refl, ◌∙◌, true, List, [], ◌∷◌, ◌++◌, append_assoc, append-nil, arith,
  length, length-append, All,
}
use drive.Prelude.Texts.{Bytes}
use drive.Metadata.{
  PartitionInfo, BlobMetadata, serialize_partitions, serialize, deserialize_partitions, deserialize,
  partitions_size, get_serialized_size, add_partition, new_metadata,
}
use drive.Stream.Endian.{be_bytes, length-be_bytes}
use drive.Stream.Bounds.{new_output-IsFit}
use drive.Stream.Input.{open_input}
use drive.Stream.Output.{new_output, contents}
use drive.Stream.ReadBack.{at, enough-at, read_string-at, read_uint32-at, read_uint64-at}
use drive.Stream.Writers.{
  Appends, done-Appends, >>-Appends, write_string-Appends, write_uint32-Appends,
  write_uint64-Appends, string_format,
}
use native.Mathlib.Nat.{mod-eq_of_lt}

abbrev pub partition_format : PartitionInfo → Bytes
partition_format p = string_format p.name ++ string_format p.provider

abbrev pub partitions_format : List PartitionInfo → Bytes
partitions_format [] = []
partitions_format (p ∷ ps) =
    string_format p.name ++ (string_format p.provider ++ partitions_format ps)

abbrev pub format : BlobMetadata → Bytes
format m =
    be_bytes 8 m.size
    ++ (be_bytes 8 m.block_size
        ++ (be_bytes 4 (length m.partitions) ++ partitions_format m.partitions))

serialize_partitions-Appends :
    (ps : List PartitionInfo) → Appends (serialize_partitions ps) (partitions_format ps)
unfolding serialize_partitions
serialize_partitions-Appends [] = done-Appends
serialize_partitions-Appends (p ∷ ps) =
    >>-Appends _ _ _ _ (write_string-Appends p.name)
      (>>-Appends _ _ _ _ (write_string-Appends p.provider) (serialize_partitions-Appends ps))

pub serialize-Appends : (m : BlobMetadata) → Appends (serialize m) (format m)
unfolding serialize
serialize-Appends m = >>-Appends _ _ _ _ (write_uint64-Appends m.size) (
    >>-Appends _ _ _ _ (write_uint64-Appends m.block_size) (
      >>-Appends _ _ _ _ (write_uint32-Appends (length m.partitions))
        (serialize_partitions-Appends m.partitions)))

pub length-string_format : (str : Bytes) → length (string_format str) ≡ 4 + length str
length-string_format str =
    omega (arith, length-append (be_bytes 4 (length str)) str, length-be_bytes 4 (length str))

length-partitions_format :
    (ps : List PartitionInfo) → length (partitions_format ps) ≡ partitions_size ps
unfolding partitions_size
length-partitions_format [] = refl
length-partitions_format (p ∷ ps) = omega (
  arith,
  length-append (string_format p.name) (string_format p.provider ++ partitions_format ps),
  length-append (string_format p.provider) (partitions_format ps),
  length-string_format p.name,
  length-string_format p.provider,
  length-partitions_format ps,
)

pub length-format : (m : BlobMetadata) → length (format m) ≡ get_serialized_size m
unfolding get_serialized_size
length-format m =
    let tail = partitions_format m.partitions in
    let count = be_bytes 4 (length m.partitions) in
    let block = be_bytes 8 m.block_size in
    omega (
      arith,
      length-append (be_bytes 8 m.size) (block ++ (count ++ tail)),
      length-append block (count ++ tail),
      length-append count tail,
      length-be_bytes 8 m.size,
      length-be_bytes 8 m.block_size,
      length-be_bytes 4 (length m.partitions),
      length-partitions_format m.partitions,
    )

pub get_serialized_size_ge : (m : BlobMetadata) → 20 ≤ get_serialized_size m
unfolding get_serialized_size
get_serialized_size_ge m = omega arith

-- The fields fit the widths of the C++ types and of the format.
abbrev pub IsShort : PartitionInfo → Type 0
IsShort p = (length p.name < 2 ^ 32) × (length p.provider < 2 ^ 32)

pub record IsSized (m : BlobMetadata) : Type 0 where
  pub size_fits : m.size < 2 ^ 64
  pub block_fits : m.block_size < 2 ^ 64
  pub count_fits : length m.partitions < 2 ^ 32
  pub strings_fit : All IsShort m.partitions

deserialize_partitions-at :
    (ps : List PartitionInfo) (m : BlobMetadata) (front rest : Bytes)
    → All IsShort ps
    → deserialize_partitions (length ps) m (at front (partitions_format ps ++ rest)) ≡ (
      true,
      record m { partitions = m.partitions ++ ps },
      at (front ++ partitions_format ps) rest,
    )
unfolding deserialize_partitions
deserialize_partitions-at [] m front rest h = rw (append-nil, append-nil)
deserialize_partitions-at (p ∷ ps) m front rest h =
    let name = string_format p.name in
    let provider = string_format p.provider in
    let tail = partitions_format ps in
    rw
      (
        append_assoc name (provider ++ tail) rest,
        append_assoc provider tail rest,
        enough-at 4 front name (provider ++ (tail ++ rest))
            (omega (arith, length-string_format p.name)),
        read_string-at p.name front (provider ++ (tail ++ rest)) h.0.0,
        enough-at 4 (front ++ name) provider (tail ++ rest)
            (omega (arith, length-string_format p.provider)),
        read_string-at p.provider (front ++ name) (tail ++ rest) h.0.1,
      )
      (deserialize_partitions-at ps (add_partition p.name p.provider m) (front ++ name ++ provider)
          rest h.1
        ∙ simp append_assoc)

-- The object that is read into `old`: its own partitions stay in front.
pub deserialize-at :
    (m old : BlobMetadata) (front rest : Bytes)
    → IsSized m
    → deserialize old (at front (format m ++ rest)) ≡ (
      true,
      record m { partitions = old.partitions ++ m.partitions },
      at (front ++ format m) rest,
    )
unfolding deserialize
deserialize-at m old front rest h =
    let size = be_bytes 8 m.size in
    let block = be_bytes 8 m.block_size in
    let count = be_bytes 4 (length m.partitions) in
    let tail = partitions_format m.partitions in
    rw
      (
        enough-at 20 front (format m) rest
            (omega (arith, length-format m, get_serialized_size_ge m)),
        append_assoc size (block ++ (count ++ tail)) rest,
        append_assoc block (count ++ tail) rest,
        append_assoc count tail rest,
        read_uint64-at m.size front (block ++ (count ++ (tail ++ rest))),
        read_uint64-at m.block_size (front ++ size) (count ++ (tail ++ rest)),
        read_uint32-at (length m.partitions) (front ++ size ++ block) (tail ++ rest),
        mod-eq_of_lt h.size_fits,
        mod-eq_of_lt h.block_fits,
        mod-eq_of_lt h.count_fits,
      )
      (deserialize_partitions-at m.partitions (record m { partitions = old.partitions })
          (front ++ size ++ block ++ count) rest h.strings_fit
        ∙ simp append_assoc)

-- For metadata whose numbers and lengths fit their fields: writing it to a fresh stream succeeds
-- with as many bytes as `GetSerializedSize` says, and reading them gives it back, whatever
-- follows them.
pub deserialize-serialize_metadata :
    (m : BlobMetadata) (rest : Bytes)
    → IsSized m
    → let (success, out) = serialize m new_output in
      (success ≡ true)
      × (length (contents out) ≡ get_serialized_size m)
      × (deserialize new_metadata
            (open_input (contents out ++ rest) (length (contents out ++ rest)))
          ≡ (true, m, at (contents out) rest))
unfolding open_input
deserialize-serialize_metadata m rest h =
    let (success, fit, wrote) = (serialize-Appends m).run new_output new_output-IsFit in
    (success, rw wrote (length-format m), rw wrote (deserialize-at m new_metadata [] rest h))
