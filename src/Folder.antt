-- ===== src/Folder.antt =====
-- src/bdblob/Folder.cpp: a folder's entries and their stored form.
pub mod Format
pub mod RoundTrip
use drive.Metadata
use drive.Metadata.{BlobMetadata, new_metadata}
use drive.OrderedMap.{Map, find, emplace}
use drive.Prelude.{
  ℕ, zero, suc, ◌+◌, Bool, true, false, not, ◌||◌, Option, none, some, [], ◌∷◌, ltb, leb, ◌==◌,
  if◌then◌else◌, length,
}
use drive.Prelude.Texts.{Bytes, codes, str_eq}
use drive.Stream.Input.{InputStream, remainder, read_uint8, read_uint32, read_uint64, read_string}
use drive.Stream.Output.{Writer, ◌>>◌, done, write_uint8, write_uint32, write_uint64, write_string}

abbrev pub magic_header : ℕ
magic_header = 0x0a0b0c0d

pub data EntryType : Type 0 where
  folder file : EntryType

-- `static_cast` both ways; `__MAX__` is 2.
abbrev pub type_code : EntryType → ℕ
type_code folder = 0
type_code file = 1

abbrev pub entry_type : ℕ → EntryType
entry_type zero = folder
entry_type (suc _) = file

pub record Entry : Type 0 where
  pub id : Bytes
  pub type : EntryType
  pub create_time : ℕ
  pub modify_time : ℕ
  pub size : ℕ
  pub metadata : BlobMetadata

-- `Entry entry;`: the numbers are not set before they are read.
abbrev pub new_entry : Entry
new_entry = record {
  id = [];
  type = folder;
  create_time = 0;
  modify_time = 0;
  size = 0;
  metadata = new_metadata;
}

pub record Folder : Type 0 where
  pub entries : Map Entry
  pub name : Bytes
  pub modified : Bool

-- `Folder(provider)`; the provider is no part of the stored form.
abbrev pub new_folder : Folder
new_folder = record { entries = []; name = []; modified = false }

abbrev pub self_key : Bytes
self_key = codes "."

abbrev pub parent_key : Bytes
parent_key = codes ".."

unfoldable pub serialize_entry : Entry → Writer
serialize_entry e = do
  write_string e.id
  write_uint8 (type_code e.type)
  write_uint32 e.create_time
  write_uint32 e.modify_time
  write_uint64 e.size
  Metadata.serialize e.metadata

-- The bodies of the two loops stand here with the recursion over the map.
serialize_entries : Map Entry → Writer
serialize_entries [] = done
serialize_entries ((k, e) ∷ m) = do write_string k; serialize_entry e; serialize_entries m

unfoldable pub serialize : Folder → Writer
unfolding serialize_entries
serialize f = do
  write_uint32 magic_header
  write_string f.name
  write_uint32 (length f.entries)
  serialize_entries f.entries

unfoldable pub deserialize_entry : Entry → InputStream → Bool × Entry × InputStream
deserialize_entry e s =
    let (_, id, s₁) = read_string e.id s in
    let (type, s₂) = read_uint8 s₁ in
    let (create_time, s₃) = read_uint32 s₂ in
    let (modify_time, s₄) = read_uint32 s₃ in
    let (size, s₅) = read_uint64 s₄ in
    let (success, metadata, s₆) = Metadata.deserialize e.metadata s₅ in
    if ltb (remainder s) 4
    then (false, e, s)
    else if ltb (remainder s₁) 17
    then (false, record e { id = id }, s₁)
    else if leb 2 type
    then (false, record e { id = id }, s₂)
    else (
      success,
      record {
        id = id;
        type = entry_type type;
        create_time = create_time;
        modify_time = modify_time;
        size = size;
        metadata = metadata;
      },
      s₆,
    )

deserialize_entries : ℕ → Folder → InputStream → Bool × Folder × InputStream
deserialize_entries zero f s = (true, f, s)
deserialize_entries (suc count) f s =
    let (_, key, s₁) = read_string [] s in
    let (success, e, s₂) = deserialize_entry new_entry s₁ in
    let next = deserialize_entries count (record f { entries = emplace key e f.entries }) s₂ in
    if ltb (remainder s) 4 then (false, f, s) else if success then next else (false, f, s₂)

unfoldable pub deserialize : Folder → InputStream → Bool × Folder × InputStream
unfolding deserialize_entries
deserialize f s =
    let (magic, s₁) = read_uint32 s in
    let (_, name, s₂) = read_string f.name s₁ in
    let (count, s₃) = read_uint32 s₂ in
    let named = record f { name = name } in
    let rest = deserialize_entries count named s₃ in
    if ltb (remainder s) 4
    then (false, f, s)
    else if not (magic == magic_header)
    then (false, f, s₁)
    else if ltb (remainder s₁) 4
    then (false, f, s₁)
    else if ltb (remainder s₂) 4
    then (false, named, s₂)
    else rest

unfoldable pub get_entry_serialized_size : Entry → ℕ
get_entry_serialized_size e =
    4 + length e.id + 1 + 4 + 4 + 8 + Metadata.get_serialized_size e.metadata

entries_size : Map Entry → ℕ
entries_size [] = 0
entries_size ((k, e) ∷ m) = 4 + length k + get_entry_serialized_size e + entries_size m

unfoldable pub get_serialized_size : Folder → ℕ
unfolding entries_size
get_serialized_size f = 4 + (4 + length f.name) + 4 + entries_size f.entries

unfoldable pub parent : Folder → Option Entry
parent f = find parent_key f.entries

unfoldable pub is_root_folder : Folder → Bool
unfolding parent
is_root_folder f = elim (parent f) [
  | none ↦ true
  | some up ↦ elim (find self_key f.entries) [ none ↦ true | some self ↦ str_eq self.id up.id ]
]
