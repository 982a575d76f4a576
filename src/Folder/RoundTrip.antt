-- ===== src/Folder/RoundTrip.antt =====
-- Reading back a folder that was written.
use drive.Folder.{
  EntryType, folder, file, Entry, Folder, type_code, deserialize_entry, deserialize_entries,
  deserialize, serialize, get_serialized_size, magic_header, new_entry, new_folder,
}
use drive.Folder.Format.{
  entry_format, entry_numbers, entries_format, format, serialize-Appends, length-format,
  length-entry_numbers,
}
use drive.Metadata.RoundTrip
use drive.Metadata.{new_metadata}
use drive.OrderedMap.{Map, IsOrdered, emplace_last, Follows, Follows-nil, Follows-append}
use drive.Prelude.{
  ◌%◌, ◌^◌, ◌<◌, ◌≡◌, refl, ◌∙◌, true, false, [], ◌∷◌, ◌++◌, append_assoc, append-nil, arith,
  length, leb,
}
use drive.Prelude.Texts.{Bytes}
use drive.Stream.Bounds.{new_output-IsFit}
use drive.Stream.Endian.{be_bytes, length-be_bytes}
use drive.Stream.Input.{open_input}
use drive.Stream.Output.{new_output, contents}
use drive.Stream.ReadBack.{
  at, enough-at, read_string-at, read_uint8-at, read_uint32-at, read_uint64-at,
}
use drive.Stream.Writers.{string_format}
use native.Mathlib.Nat.{mod-eq_of_lt}

pub record IsEntrySized (e : Entry) : Type 0 where
  pub id_fits : length e.id < 2 ^ 32
  pub create_fits : e.create_time < 2 ^ 32
  pub modify_fits : e.modify_time < 2 ^ 32
  pub size_fits : e.size < 2 ^ 64
  pub metadata_fits : RoundTrip.IsSized e.metadata

abbrev pub EntriesSized : Map Entry → Type 0
EntriesSized [] = Unit
EntriesSized ((k, e) ∷ m) = (length k < 2 ^ 32) × IsEntrySized e × EntriesSized m

-- What the C++ types guarantee of a folder of less than 4 G entries, names and keys of less than
-- 4 GB, and the order of `std::map`.
pub record IsStorable (f : Folder) : Type 0 where
  pub ordered : IsOrdered f.entries
  pub name_fits : length f.name < 2 ^ 32
  pub count_fits : length f.entries < 2 ^ 32
  pub entries_fit : EntriesSized f.entries

type_code_lt : (t : EntryType) → (type_code t % 256 ≡ type_code t) × (leb 2 (type_code t) ≡ false)
type_code_lt folder = (refl, refl)
type_code_lt file = (refl, refl)

entry_type-type_code : (t : EntryType) → drive.Folder.entry_type (type_code t) ≡ t
entry_type-type_code folder = refl
entry_type-type_code file = refl

deserialize_entry-at :
    (e : Entry) (front rest : Bytes)
    → IsEntrySized e
    → deserialize_entry new_entry (at front (entry_format e ++ rest))
      ≡ (true, e, at (front ++ entry_format e) rest)
unfolding deserialize_entry
deserialize_entry-at e front rest h =
    let id = string_format e.id in
    let type = be_bytes 1 (type_code e.type) in
    let created = be_bytes 4 e.create_time in
    let modified = be_bytes 4 e.modify_time in
    let size = be_bytes 8 e.size in
    let meta = RoundTrip.format e.metadata in
    rw
      (
        append_assoc id (entry_numbers e) rest,
        enough-at 4 front id (entry_numbers e ++ rest)
            (omega (arith, RoundTrip.length-string_format e.id)),
        read_string-at e.id front (entry_numbers e ++ rest) h.id_fits,
        enough-at 17 (front ++ id) (entry_numbers e) rest (omega (arith, length-entry_numbers e)),
        append_assoc type (created ++ (modified ++ (size ++ meta))) rest,
        append_assoc created (modified ++ (size ++ meta)) rest,
        append_assoc modified (size ++ meta) rest,
        append_assoc size meta rest,
        read_uint8-at (type_code e.type) (front ++ id)
            (created ++ (modified ++ (size ++ (meta ++ rest)))),
        read_uint32-at e.create_time (front ++ id ++ type) (modified ++ (size ++ (meta ++ rest))),
        read_uint32-at e.modify_time (front ++ id ++ type ++ created) (size ++ (meta ++ rest)),
        read_uint64-at e.size (front ++ id ++ type ++ created ++ modified) (meta ++ rest),
        RoundTrip.deserialize-at e.metadata new_metadata
            (front ++ id ++ type ++ created ++ modified ++ size) rest h.metadata_fits,
        (type_code_lt e.type).0,
        (type_code_lt e.type).1,
        entry_type-type_code e.type,
        mod-eq_of_lt h.create_fits,
        mod-eq_of_lt h.modify_fits,
        mod-eq_of_lt h.size_fits,
      )
      (simp append_assoc)

deserialize_entries-at :
    (m : Map Entry) (f : Folder) (front rest : Bytes)
    → IsOrdered m
    → Follows f.entries m
    → EntriesSized m
    → deserialize_entries (length m) f (at front (entries_format m ++ rest))
      ≡ (true, record f { entries = f.entries ++ m }, at (front ++ entries_format m) rest)
unfolding deserialize_entries
deserialize_entries-at [] f front rest o later h = rw (append-nil, append-nil)
deserialize_entries-at ((k, e) ∷ m) f front rest o later h =
    let key = string_format k in
    let entry = entry_format e in
    let tail = entries_format m in
    rw
      (
        append_assoc key (entry ++ tail) rest,
        append_assoc entry tail rest,
        enough-at 4 front key (entry ++ (tail ++ rest))
            (omega (arith, RoundTrip.length-string_format k)),
        read_string-at k front (entry ++ (tail ++ rest)) h.0,
        deserialize_entry-at e (front ++ key) (tail ++ rest) h.1,
        emplace_last k e f.entries later.0,
      )
      (deserialize_entries-at m (record f { entries = f.entries ++ (k, e) ∷ [] })
          (front ++ key ++ entry) rest o.1 (Follows-append f.entries k e m later.1 o.0) h.2
        ∙ simp append_assoc)

pub deserialize-at :
    (f : Folder) (front rest : Bytes)
    → IsStorable f
    → deserialize new_folder (at front (format f ++ rest))
      ≡ (true, record f { modified = false }, at (front ++ format f) rest)
unfolding deserialize
deserialize-at f front rest h =
    let magic = be_bytes 4 magic_header in
    let name = string_format f.name in
    let count = be_bytes 4 (length f.entries) in
    let tail = entries_format f.entries in
    rw
      (
        append_assoc magic (name ++ (count ++ tail)) rest,
        append_assoc name (count ++ tail) rest,
        append_assoc count tail rest,
        enough-at 4 front magic (name ++ (count ++ (tail ++ rest)))
            (omega (arith, length-be_bytes 4 magic_header)),
        read_uint32-at magic_header front (name ++ (count ++ (tail ++ rest))),
        enough-at 4 (front ++ magic) name (count ++ (tail ++ rest))
            (omega (arith, RoundTrip.length-string_format f.name)),
        read_string-at f.name (front ++ magic) (count ++ (tail ++ rest)) h.name_fits,
        enough-at 4 (front ++ magic ++ name) count (tail ++ rest)
            (omega (arith, length-be_bytes 4 (length f.entries))),
        read_uint32-at (length f.entries) (front ++ magic ++ name) (tail ++ rest),
        mod-eq_of_lt h.count_fits,
      )
      (deserialize_entries-at f.entries (record new_folder { name = f.name })
          (front ++ magic ++ name ++ count) rest h.ordered (Follows-nil f.entries) h.entries_fit
        ∙ simp append_assoc)

-- For a folder whose entries are in order, fewer than 2 ^ 32, and whose numbers and lengths fit
-- their fields: writing it to a fresh stream succeeds with as many bytes as `GetSerializedSize`
-- says, and reading them gives the folder back, unmodified, whatever follows them.
pub deserialize-serialize_folder :
    (f : Folder) (rest : Bytes)
    → IsStorable f
    → let (success, out) = serialize f new_output in
      (success ≡ true)
      × (length (contents out) ≡ get_serialized_size f)
      × (deserialize new_folder (open_input (contents out ++ rest) (length (contents out ++ rest)))
          ≡ (true, record f { modified = false }, at (contents out) rest))
unfolding open_input
deserialize-serialize_folder f rest h =
    let (success, fit, wrote) = (serialize-Appends f).run new_output new_output-IsFit in
    (success, rw wrote (length-format f), rw wrote (deserialize-at f [] rest h))
