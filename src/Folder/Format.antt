-- ===== src/Folder/Format.antt =====
-- The stored form of a folder, and its size.
use drive.Folder.{
  Entry, Folder, type_code, serialize_entry, serialize_entries, serialize, entries_size,
  get_entry_serialized_size, get_serialized_size, magic_header,
}
use drive.Metadata
use drive.Metadata.RoundTrip
use drive.OrderedMap.{Map}
use drive.Prelude.{◌+◌, ◌≡◌, refl, [], ◌∷◌, ◌++◌, arith, length, length-append}
use drive.Prelude.Texts.{Bytes}
use drive.Stream.Endian.{be_bytes, length-be_bytes}
use drive.Stream.Output.{}
use drive.Stream.Writers.{
  Appends, done-Appends, >>-Appends, write_string-Appends, write_uint8-Appends,
  write_uint32-Appends, write_uint64-Appends, string_format,
}

-- What follows the id of an entry.
abbrev pub entry_numbers : Entry → Bytes
entry_numbers e =
    be_bytes 1 (type_code e.type)
    ++ (be_bytes 4 e.create_time
        ++ (be_bytes 4 e.modify_time ++ (be_bytes 8 e.size ++ RoundTrip.format e.metadata)))

abbrev pub entry_format : Entry → Bytes
entry_format e = string_format e.id ++ entry_numbers e

abbrev pub entries_format : Map Entry → Bytes
entries_format [] = []
entries_format ((k, e) ∷ m) = string_format k ++ (entry_format e ++ entries_format m)

abbrev pub format : Folder → Bytes
format f =
    be_bytes 4 magic_header
    ++ (string_format f.name ++ (be_bytes 4 (length f.entries) ++ entries_format f.entries))

pub serialize_entry-Appends : (e : Entry) → Appends (serialize_entry e) (entry_format e)
unfolding serialize_entry
serialize_entry-Appends e = >>-Appends _ _ _ _ (write_string-Appends e.id) (
    >>-Appends _ _ _ _ (write_uint8-Appends (type_code e.type)) (
      >>-Appends _ _ _ _ (write_uint32-Appends e.create_time) (
        >>-Appends _ _ _ _ (write_uint32-Appends e.modify_time) (
          >>-Appends _ _ _ _ (write_uint64-Appends e.size)
            (RoundTrip.serialize-Appends e.metadata)))))

serialize_entries-Appends : (m : Map Entry) → Appends (serialize_entries m) (entries_format m)
unfolding serialize_entries
serialize_entries-Appends [] = done-Appends
serialize_entries-Appends ((k, e) ∷ m) =
    >>-Appends _ _ _ _ (write_string-Appends k)
      (>>-Appends _ _ _ _ (serialize_entry-Appends e) (serialize_entries-Appends m))

pub serialize-Appends : (f : Folder) → Appends (serialize f) (format f)
unfolding serialize
serialize-Appends f = >>-Appends _ _ _ _ (write_uint32-Appends magic_header) (
    >>-Appends _ _ _ _ (write_string-Appends f.name) (
      >>-Appends _ _ _ _ (write_uint32-Appends (length f.entries))
        (serialize_entries-Appends f.entries)))

pub length-entry_numbers :
    (e : Entry) → length (entry_numbers e) ≡ 17 + Metadata.get_serialized_size e.metadata
length-entry_numbers e =
    let meta = RoundTrip.format e.metadata in
    let size = be_bytes 8 e.size in
    let modified = be_bytes 4 e.modify_time in
    let created = be_bytes 4 e.create_time in
    omega (
      arith,
      length-append (be_bytes 1 (type_code e.type)) (created ++ (modified ++ (size ++ meta))),
      length-append created (modified ++ (size ++ meta)),
      length-append modified (size ++ meta),
      length-append size meta,
      length-be_bytes 1 (type_code e.type),
      length-be_bytes 4 e.create_time,
      length-be_bytes 4 e.modify_time,
      length-be_bytes 8 e.size,
      RoundTrip.length-format e.metadata,
    )

pub length-entry_format : (e : Entry) → length (entry_format e) ≡ get_entry_serialized_size e
unfolding get_entry_serialized_size
length-entry_format e = omega (
  arith,
  length-append (string_format e.id) (entry_numbers e),
  RoundTrip.length-string_format e.id,
  length-entry_numbers e,
)

length-entries_format : (m : Map Entry) → length (entries_format m) ≡ entries_size m
unfolding entries_size
length-entries_format [] = refl
length-entries_format ((k, e) ∷ m) = omega (
  arith,
  length-append (string_format k) (entry_format e ++ entries_format m),
  length-append (entry_format e) (entries_format m),
  RoundTrip.length-string_format k,
  length-entry_format e,
  length-entries_format m,
)

pub length-format : (f : Folder) → length (format f) ≡ get_serialized_size f
unfolding get_serialized_size
length-format f =
    let tail = entries_format f.entries in
    let count = be_bytes 4 (length f.entries) in
    omega (
      arith,
      length-append (be_bytes 4 magic_header) (string_format f.name ++ (count ++ tail)),
      length-append (string_format f.name) (count ++ tail),
      length-append count tail,
      length-be_bytes 4 magic_header,
      length-be_bytes 4 (length f.entries),
      RoundTrip.length-string_format f.name,
      length-entries_format f.entries,
    )
