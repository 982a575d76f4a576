-- ===== src/BlobMap/Typed.antt =====
-- Metadata through the map: `SetMetadata` and `GetMetadata`.
use drive.BlobMap.Append.{IsValid, Succeeds}
use drive.BlobMap.Lookup.{get_value-set_value}
use drive.BlobMap.{BlobMap, Outcome, is_empty, get_value, set_value, set_metadata, get_metadata}
use drive.Metadata
use drive.Metadata.RoundTrip.{
  format, length-format, get_serialized_size_ge, serialize-Appends, deserialize-at, IsSized,
}
use drive.Metadata.{BlobMetadata, new_metadata}
use drive.Prelude.{
  ℕ, suc, ◌≤◌, ◌≡◌, refl, ◌∙◌, true, false, some, [], ◌∷◌, append-nil, arith, length, ◌==◌,
}
use drive.Prelude.Texts.{Bytes, str_eq_self}
use drive.Stream.Bounds.{new_output-IsFit}
use drive.Stream.Input.{open_input}
use drive.Stream.Output.{new_output}
use drive.Stream.ReadBack.{}
use drive.Stream.Writers.{}

is_empty-false : (bytes : Bytes) (n : ℕ) → suc n ≤ length bytes → is_empty bytes ≡ false
is_empty-false [] n h = absurd (omega arith)
is_empty-false (b ∷ bs) n h = refl

format_nonempty : (m : BlobMetadata) → is_empty (format m) ≡ false
format_nonempty m =
    is_empty-false (format m) 19 (omega (arith, length-format m, get_serialized_size_ge m))

set_metadata_lem :
    (io : Outcome) (key : Bytes) (metadata : BlobMetadata) (m : BlobMap)
    → set_metadata io key metadata m ≡ set_value io key (format metadata) m
unfolding set_metadata
set_metadata_lem io key metadata m =
    let (success, fit, wrote) = (serialize-Appends metadata).run new_output new_output-IsFit in
    rw (success, wrote)

-- On a valid map with an open file, for a key that is not empty and metadata that fits its
-- fields, when no call fails: `GetMetadata` after `SetMetadata` of the same key succeeds and
-- fills a fresh object with that metadata.
pub get_metadata-set_metadata :
    (io io' : Outcome) (key bytes : Bytes) (metadata : BlobMetadata) (m : BlobMap) (n : ℕ)
    → IsValid m
    → m.file ≡ some bytes
    → is_empty key ≡ false
    → IsSized metadata
    → Succeeds io (Metadata.get_serialized_size metadata)
    → Succeeds io' n
    → get_metadata io' key new_metadata (set_metadata io key metadata m) ≡ (true, metadata)
unfolding get_metadata open_input
get_metadata-set_metadata io io' key bytes metadata m n v e named sized ok ok' =
    let stored : get_value io' key (set_metadata io key metadata m) ≡ format metadata =
      rw (set_metadata_lem io key metadata m) (
        get_value-set_value io io' key (format metadata) bytes key m n v e named
          (format_nonempty metadata) (rw (length-format metadata) ok) ok'
        ∙ rw (str_eq_self key)) in
    let parsed =
      rw (append-nil (format metadata)) at (deserialize-at metadata new_metadata [] [] sized) in
    let filled : (length (format metadata) == 0) ≡ false =
      ground (arith, length-format metadata, get_serialized_size_ge metadata) in
    rw (stored, parsed, filled)
