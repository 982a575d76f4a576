-- ===== src/BlobMap.antt =====
-- src/bdblob/BlobMap.cpp: a file of values that only grows, and an index from keys to its ranges.
pub mod Append
pub mod Lookup
pub mod Typed
use drive.Metadata
use drive.Metadata.{BlobMetadata}
use drive.OrderedMap.{Map, find, assign}
use drive.Prelude.{
  ℕ, ◌+◌, Bool, true, false, not, ◌&&◌, ◌||◌, Option, none, some, [], ◌∷◌, ◌++◌, ltb, ◌==◌,
  if◌then◌else◌, length, take, drop, min,
}
use drive.Prelude.Texts.{Bytes, str_eq}
use drive.Stream.Input.{open_input}
use drive.Stream.Output.{new_output, contents}

pub record Index : Type 0 where
  pub offset : ℕ
  pub size : ℕ

-- `file` holds the bytes of the open file, and is `none` before `Initialize`.
pub record BlobMap : Type 0 where
  pub indexes : Map Index
  pub file : Option Bytes
  pub filename : Bytes

abbrev pub new_blob_map : BlobMap
new_blob_map = record { indexes = []; file = none; filename = [] }

-- How the calls of the C library within one operation turn out. `write_limit` is the number of
-- bytes that the disk still takes.
pub record Outcome : Type 0 where
  pub opens : Bool
  pub seeks : Bool
  pub allocates : Bool
  pub reads : Bool
  pub seeks_end : Bool
  pub write_limit : ℕ

abbrev pub is_empty : Bytes → Bool
is_empty [] = true
is_empty (_ ∷ _) = false

unfoldable pub initialize : Outcome → Bytes → BlobMap → Bool × BlobMap
initialize io path m = elim m.file [
  | some _ ↦ (false, m)
  | none ↦
      if is_empty path || not io.opens
      then (false, m)
      else (true, record m { file = some []; filename = path })
]

-- The bytes of a range, as far as the file reaches.
abbrev pub range : Bytes → Index → Bytes
range bytes ix = take ix.size (drop ix.offset bytes)

unfoldable pub read_range : Outcome → Bytes → Index → Bytes
read_range io bytes ix =
    if ix.size == 0 || not io.seeks
    then []
    else if not io.allocates
    then []
    else if not io.reads || ltb (length (range bytes ix)) ix.size
    then []
    else range bytes ix

-- The empty buffer stands for every failure.
unfoldable pub get_value : Outcome → Bytes → BlobMap → Bytes
unfolding read_range
get_value io key m = elim m.file [
  | none ↦ []
  | some bytes ↦
      if is_empty key
      then []
      else elim (find key m.indexes) [ none ↦ [] | some ix ↦ read_range io bytes ix ]
]

-- `fwrite` at the end of the file, and the entry if all of the data was taken.
unfoldable pub append_value : Outcome → Bytes → Bytes → Bytes → BlobMap → BlobMap
append_value io key bytes payload m =
    let written = min io.write_limit (length payload) in
    let index : Index = record { offset = length bytes; size = written } in
    let grown = record m { file = some (bytes ++ take written payload) } in
    if ltb written (length payload)
    then grown
    else record grown { indexes = assign key index m.indexes }

unfoldable pub set_value : Outcome → Bytes → Bytes → BlobMap → BlobMap
unfolding get_value append_value
set_value io key payload m = elim m.file [
  | none ↦ m
  | some bytes ↦
      if is_empty key || is_empty payload
      then m
      else if str_eq (get_value io key m) payload
      then m
      else if not io.seeks_end
      then m
      else append_value io key bytes payload m
]

unfoldable pub set_metadata : Outcome → Bytes → BlobMetadata → BlobMap → BlobMap
set_metadata io key metadata m =
    let (success, stream) = Metadata.serialize metadata new_output in
    if success then set_value io key (contents stream) m else m

-- The object that the caller passes is filled as far as the bytes allow.
unfoldable pub get_metadata : Outcome → Bytes → BlobMetadata → BlobMap → Bool × BlobMetadata
get_metadata io key metadata m =
    let buffer = get_value io key m in
    let (success, filled, _) = Metadata.deserialize metadata (open_input buffer (length buffer)) in
    if length buffer == 0 then (false, metadata) else (success, filled)

unfoldable pub has_key : Bytes → BlobMap → Bool
has_key key m = elim (find key m.indexes) [ none ↦ false | some _ ↦ true ]
