-- ===== src/Tests/Stored.antt =====
-- A folder and its stored form (src/bdblob/Folder.cpp, src/bdblob/BlobMetadata.cpp).
use drive.Folder
use drive.Folder.{Entry, Folder, folder, file}
use drive.Folder.RoundTrip.{IsEntrySized, IsStorable, deserialize-serialize_folder}
use drive.Metadata
use drive.Metadata.{BlobMetadata, new_metadata}
use drive.Metadata.RoundTrip.{IsSized}
use drive.Prelude.{map, ◌%◌, ◌^◌, arith, ◌≡◌, refl, true, false, [], ◌∷◌, ◌++◌, length}
use drive.Prelude.Texts.{codes, str_compare}
use drive.Stream.Input.{InputStream, open_input, read}
use drive.Stream.Output.{
  OutputStream, new_output, contents, write, write_bytes, write_uint32, write_uint64,
}
use drive.Stream.Arrays.{
  write_uint32_array, read_uint32_array, read_uint16_array, read_array, elements, from_le,
  read_uint32_array-write_uint32_array,
}
use drive.Stream.Endian.{be_bytes}
use drive.Stream.ReadBack.{at}

abbrev metadata : BlobMetadata
metadata = record {
  size = 1000;
  block_size = 512;
  partitions = record { name = codes "p"; provider = codes "kad://host" } ∷ [];
}

metadata-IsSized : IsSized metadata
metadata-IsSized = record {
  size_fits = ground arith;
  block_fits = ground arith;
  count_fits = ground arith;
  strings_fit = ((ground arith, ground arith), tt);
}

abbrev entry_a : Entry
entry_a = record {
  id = codes "a";
  type = file;
  create_time = 3;
  modify_time = 4;
  size = 1000;
  metadata = metadata;
}

abbrev entry_b : Entry
entry_b = record {
  id = codes "b";
  type = folder;
  create_time = 5;
  modify_time = 6;
  size = 0;
  metadata = new_metadata;
}

abbrev home : Folder
home = record {
  entries = (codes "a", entry_a) ∷ (codes "b", entry_b) ∷ [];
  name = codes "home";
  modified = true;
}

sized_a : IsEntrySized entry_a
sized_a = record {
  id_fits = ground arith;
  create_fits = ground arith;
  modify_fits = ground arith;
  size_fits = ground arith;
  metadata_fits = metadata-IsSized;
}

sized_b : IsEntrySized entry_b
sized_b = record {
  id_fits = ground arith;
  create_fits = ground arith;
  modify_fits = ground arith;
  size_fits = ground arith;
  metadata_fits = record {
    size_fits = ground arith;
    block_fits = ground arith;
    count_fits = ground arith;
    strings_fit = tt;
  };
}

home-IsStorable : IsStorable home
unfolding str_compare
home-IsStorable = record {
  ordered = ((refl, tt), (tt, tt));
  name_fits = ground arith;
  count_fits = ground arith;
  entries_fit = (ground arith, sized_a, (ground arith, sized_b, tt));
}

deserialize-serialize_folder_example :
    let (success, out) = Folder.serialize home new_output in
    (success ≡ true)
    × (length (contents out) ≡ Folder.get_serialized_size home)
    × (Folder.deserialize Folder.new_folder
          (open_input (contents out ++ 9 ∷ []) (length (contents out ++ 9 ∷ [])))
        ≡ (true, record home { modified = false }, at (contents out) (9 ∷ [])))
deserialize-serialize_folder_example = deserialize-serialize_folder home (9 ∷ []) home-IsStorable

-- The bytes of a metadata object without partitions.
new_metadata_bytes :
    contents (Metadata.serialize (record new_metadata { size = 258 }) new_output).1
    ≡ 0 ∷ 0 ∷ 0 ∷ 0 ∷ 0 ∷ 0 ∷ 1 ∷ 2 ∷ 0 ∷ 0 ∷ 0 ∷ 0 ∷ 0 ∷ 0 ∷ 0 ∷ 0 ∷ 0 ∷ 0 ∷ 0 ∷ 0 ∷ []
unfolding Metadata.serialize write_uint64 write_bytes write be_bytes write_uint32
new_metadata_bytes = refl

abbrev half_read : InputStream
half_read = record { buffer = 1 ∷ 2 ∷ 3 ∷ []; size = 3; offset = 2; is_valid = true }

abbrev nearly_full : OutputStream
nearly_full = record { buffer = 1 ∷ 2 ∷ 3 ∷ []; capacity = 4; offset = 3 }

read_uint32_array-write_uint32_array_example :
    let (success, out) = write_uint32_array (5 ∷ 6 ∷ []) new_output in
    let input = contents out ++ 9 ∷ [] in
    (success ≡ true)
    × (read_uint32_array 2 (open_input input (length input))
        ≡ (2, map (λ v. v % 2 ^ 32) (5 ∷ 6 ∷ []), at (contents out) (9 ∷ [])))
read_uint32_array-write_uint32_array_example =
    read_uint32_array-write_uint32_array (5 ∷ 6 ∷ []) (9 ∷ []) (omega arith)

-- One number and a half: the one comes back with its bytes in the wrong order.
cut_array : (read_uint16_array 2 (open_input (1 ∷ 2 ∷ 3 ∷ []) 3)).1 ≡ 513 ∷ []
unfolding read_uint16_array read_array open_input read elements from_le
cut_array = refl
