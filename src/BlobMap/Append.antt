-- ===== src/BlobMap/Append.antt =====
-- What `get_value` sees once bytes stand at the end of the file (src/bdblob/BlobMap.cpp).
use drive.BlobMap.{Index, BlobMap, Outcome, is_empty, read_range, get_value, append_value}
use drive.OrderedMap.{find, find-assign}
use drive.Prelude.{
  ℕ, ◌+◌, ◌≤◌, ◌<◌, ◌≡◌, refl, ◌⊎◌, true, false, Option, none, some, [], ◌++◌, arith, length, take,
  min, length-append, length-take, take-drop-append, drop-append_length, take_all, if◌then◌else◌,
  ltb,
}
use drive.Prelude.Texts.{Bytes, str_eq, str_eq_self}

-- The index points into the file, at ranges that are not empty.
pub record IsValid (m : BlobMap) : Type 0 where
  pub inside :
      (bytes key : Bytes) (ix : Index)
      → m.file ≡ some bytes
      → find key m.indexes ≡ some ix
      → (ix.offset + ix.size ≤ length bytes) × (0 < ix.size)

-- The calls of one operation all succeed, on `n` bytes of data.
abbrev pub Succeeds : Outcome → ℕ → Type 0
Succeeds io n =
    (io.seeks ≡ true)
    × (io.allocates ≡ true)
    × (io.reads ≡ true)
    × (io.seeks_end ≡ true)
    × (n ≤ io.write_limit)

pub read_range-append :
    (io : Outcome) (bytes more : Bytes) (ix : Index)
    → ix.offset + ix.size ≤ length bytes
    → read_range io (bytes ++ more) ix ≡ read_range io bytes ix
unfolding read_range
read_range-append io bytes more ix h = rw (take-drop-append ix.offset ix.size bytes more h)

pub read_range_last :
    (io : Outcome) (n : ℕ) (bytes payload : Bytes)
    → Succeeds io n
    → 0 < length payload
    → read_range io (bytes ++ payload) (record { offset = length bytes; size = length payload })
      ≡ payload
unfolding read_range
read_range_last io n bytes payload ok h =
    rw (drop-append_length, take_all (length payload) payload (omega arith)) (ground arith)

-- One read through the index: growing the file does not change it.
unfoldable pub read_index : Outcome → Bytes → Option Index → Bytes
read_index io bytes found = elim found [ none ↦ [] | some ix ↦ read_range io bytes ix ]

pub get_value_lem :
    (io : Outcome) (q : Bytes) (m : BlobMap) (bytes : Bytes)
    → m.file ≡ some bytes
    → get_value io q m ≡ (if is_empty q then [] else read_index io bytes (find q m.indexes))
unfolding get_value read_index
get_value_lem io q m bytes e = rw e

pub read_index-append :
    (io : Outcome) (bytes more : Bytes) (found : Option Index)
    → ((ix : Index) → found ≡ some ix → ix.offset + ix.size ≤ length bytes)
    → read_index io (bytes ++ more) found ≡ read_index io bytes found
unfolding read_index
read_index-append io bytes more none h = refl
read_index-append io bytes more (some ix) h = read_range-append io bytes more ix (h ix refl)

module _ (io : Outcome) (key bytes payload : Bytes) (m : BlobMap) where
  abbrev pub written : ℕ
  written = min io.write_limit (length payload)

  abbrev pub last_index : Index
  last_index = record { offset = length bytes; size = written }

  abbrev pub grown : Bytes
  grown = bytes ++ take written payload

  pub append_value_file : (append_value io key bytes payload m).file ≡ some grown
  unfolding append_value
  append_value_file = ground arith

  pub find-append_value :
      (q : Bytes)
      → find q (append_value io key bytes payload m).indexes ≡ (
          if ltb written (length payload)
          then find q m.indexes
          else if str_eq q key
          then some last_index
          else find q m.indexes)
  unfolding append_value
  find-append_value q = ground (arith, find-assign key q last_index m.indexes)

  pub append_value-IsValid :
      m.file ≡ some bytes
      → 0 < length payload
      → IsValid m
      → IsValid (append_value io key bytes payload m)
  append_value-IsValid e pos v = record {
    inside = λ bytes' q ix f i.
        let size = length-append bytes (take written payload) in
        let taken = length-take written payload in
        ground (arith, append_value_file, find-append_value q, v.inside bytes q ix e, size, taken);
  }

  -- At another key, or after a write that the disk cut short, nothing changes.
  pub append_value_same :
      (io' : Outcome) (q : Bytes)
      → m.file ≡ some bytes
      → IsValid m
      → (ltb written (length payload) ≡ true) ⊎ (str_eq q key ≡ false)
      → get_value io' q (append_value io key bytes payload m) ≡ get_value io' q m
  append_value_same io' q e v why =
      let same : find q (append_value io key bytes payload m).indexes ≡ find q m.indexes =
        ground (arith, find-append_value q) in
      rw (
        get_value_lem io' q (append_value io key bytes payload m) grown append_value_file,
        get_value_lem io' q m bytes e,
        same,
        read_index-append io' bytes (take written payload) (find q m.indexes)
            (λ ix i. (v.inside bytes q ix e i).0),
      )

  -- After a whole write the value is read back.
  pub append_value_self :
      (io' : Outcome) (n : ℕ)
      → is_empty key ≡ false
      → 0 < length payload
      → length payload ≤ io.write_limit
      → Succeeds io' n
      → get_value io' key (append_value io key bytes payload m) ≡ payload
  unfolding read_index
  append_value_self io' n named pos room ok =
      let whole : written ≡ length payload = omega arith in
      let found : find key (append_value io key bytes payload m).indexes ≡ some last_index =
        ground (arith, find-append_value key, str_eq_self key) in
      rw
        (
          get_value_lem io' key (append_value io key bytes payload m) grown append_value_file,
          named,
          found,
          whole,
          take_all (length payload) payload (omega arith),
        )
        (read_range_last io' n bytes payload ok pos)
