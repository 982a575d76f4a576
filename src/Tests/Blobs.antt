-- ===== src/Tests/Blobs.antt =====
-- A `BlobMap` with two values (src/bdblob/BlobMap.cpp).
use drive.BlobMap.{
  BlobMap, Outcome, get_value, set_value, append_value, read_range, get_metadata, set_metadata,
}
use drive.BlobMap.Append.{IsValid}
use drive.BlobMap.Lookup.{get_value-set_value_any, get_value-set_value}
use drive.BlobMap.Typed.{get_metadata-set_metadata}
use drive.Metadata.{BlobMetadata, new_metadata, get_serialized_size}
use drive.Metadata.RoundTrip.{IsSized}
use drive.OrderedMap.{find}
use drive.Prelude.{◌≤◌, ◌≡◌, refl, ◌⊎◌, true, some, [], ◌∷◌, arith, if◌then◌else◌}
use drive.Prelude.Texts.{codes, str_eq, str_compare}

abbrev pub healthy : Outcome
healthy = record {
  opens = true;
  seeks = true;
  allocates = true;
  reads = true;
  seeks_end = true;
  write_limit = 100;
}

abbrev full_disk : Outcome
full_disk = record healthy { write_limit = 1 }

abbrev two_values : BlobMap
two_values = record {
  indexes =
      (codes "a", record { offset = 0; size = 2 })
      ∷ (codes "b", record { offset = 2; size = 3 })
      ∷ [];
  file = some (codes "hi you");
  filename = codes "cache";
}

two_values-IsValid : IsValid two_values
unfolding find str_compare
two_values-IsValid = record { inside = λ bytes key ix f i. ground arith }

get_value-set_value_any_example :
    (get_value healthy (codes "b") (set_value full_disk (codes "b") (codes "new") two_values)
      ≡ get_value healthy (codes "b") two_values)
    ⊎ ((codes "b" ≡ codes "b")
        × (get_value healthy (codes "b") (set_value full_disk (codes "b") (codes "new") two_values)
            ≡ codes "new"))
get_value-set_value_any_example =
    get_value-set_value_any full_disk healthy (codes "b") (codes "new") (codes "b") two_values 3
      two_values-IsValid (refl, refl, refl, refl, ground arith)

get_value-set_value_example :
    get_value healthy (codes "b") (set_value healthy (codes "b") (codes "new") two_values) ≡ (
      if str_eq (codes "b") (codes "b")
      then codes "new"
      else get_value healthy (codes "b") two_values)
get_value-set_value_example =
    get_value-set_value healthy healthy (codes "b") (codes "new") (codes "hi you") (codes "b")
      two_values 3 two_values-IsValid refl refl refl (refl, refl, refl, refl, ground arith)
      (refl, refl, refl, refl, ground arith)

-- A disk with room for one byte: the value stays, and one byte is lost at the end of the file.
short_write :
    set_value full_disk (codes "b") (codes "new") two_values
    ≡ record two_values { file = some (codes "hi youn") }
unfolding set_value get_value read_range append_value find str_compare
short_write = refl

abbrev metadata : BlobMetadata
metadata = record {
  size = 70;
  block_size = 64;
  partitions = record { name = codes "p"; provider = codes "q" } ∷ [];
}

metadata-IsSized : IsSized metadata
metadata-IsSized = record {
  size_fits = ground arith;
  block_fits = ground arith;
  count_fits = ground arith;
  strings_fit = ((ground arith, ground arith), tt);
}

few_bytes : get_serialized_size metadata ≤ healthy.write_limit
unfolding get_serialized_size
few_bytes = ground arith

get_metadata-set_metadata_example :
    get_metadata healthy
      (codes "c")
      new_metadata
      (set_metadata healthy (codes "c") metadata two_values)
    ≡ (true, metadata)
get_metadata-set_metadata_example =
    get_metadata-set_metadata healthy healthy (codes "c") (codes "hi you") metadata two_values 30
      two_values-IsValid refl refl metadata-IsSized (refl, refl, refl, refl, few_bytes)
      (refl, refl, refl, refl, ground arith)
