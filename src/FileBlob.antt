-- ===== src/FileBlob.antt =====
-- src/bdblob/FileBlob.cpp and FileBlobProvider.cpp: blobs that are files of one directory.
pub mod Contents
pub mod Created
use drive.BlobMap.{BlobMap, Outcome, set_metadata, get_metadata}
use drive.HostPartition.{overlay}
use drive.Metadata.{new_metadata}
use drive.Prelude.{
  ℕ, zero, suc, ◌+◌, ◌-◌, Bool, true, false, not, ◌||◌, ◌&&◌, Option, none, some, List, [], ◌∷◌,
  ◌++◌, ltb, leb, if◌then◌else◌, length, take, drop, replicate, min,
}
use drive.Prelude.Texts.{Bytes, str_eq}

-- The files by their paths. A file is not deleted while a blob has it open, and sizes fit a `long`.
abbrev pub Directory : Type 0
Directory = Bytes → Option Bytes

-- How the calls of the C library within one operation turn out: `opens` is a `fopen` of a file that
-- is there, and `creates` one that makes a file. `fwrite` reports at most `accepts` bytes, and at most
-- `room` of them reach the file: the rest is lost in a `fflush` or `fclose` that fails, and neither's
-- result is looked at.
pub record Calls : Type 0 where
  pub has_folder : Bool
  pub opens : Bool
  pub creates : Bool
  pub unlinks : Bool
  pub accepts : ℕ
  pub room : ℕ
  pub map_calls : Outcome

pub record FileBlob : Type 0 where
  pub path : Bytes
  pub opened : Bool
  pub id : Bytes
  pub size : ℕ

abbrev pub put_path : Bytes → Option Bytes → Directory → Directory
put_path path file dir = λ p. if str_eq p path then file else dir p

abbrev pub is_file : Bytes → Directory → Bool
is_file path dir = elim (dir path) [ none ↦ false | some _ ↦ true ]

abbrev pub file_bytes : Bytes → Directory → Bytes
file_bytes path dir = elim (dir path) [ none ↦ [] | some bytes ↦ bytes ]

-- The constructor: mode "rb+", and "wb+", which empties the file, when that fails.
unfoldable pub new_file_blob : Calls → Bytes → Bytes → ℕ → Directory → FileBlob × Directory
new_file_blob calls path id size dir =
    if is_file path dir && calls.opens
    then (record { path = path; opened = true; id = id; size = size }, dir)
    else if calls.creates
    then (record { path = path; opened = true; id = id; size = size }, put_path path (some []) dir)
    else (record { path = path; opened = false; id = id; size = size }, dir)

abbrev pub close : FileBlob → FileBlob
close blob = record blob { opened = false }

-- The first bytes of the buffer, as many as the result says.
unfoldable pub read : ℕ → ℕ → FileBlob → Directory → Bytes
read offset len blob dir =
    let wanted = min len (blob.size - offset) in
    let got = take wanted (drop offset (file_bytes blob.path dir)) in
    if not blob.opened || ltb blob.size offset then [] else got ++ replicate (wanted - length got) 0

-- Behind the end of the file the code writes `fileSize - offset` bytes, which wraps, from an array
-- of one byte: the result is `none`.
unfoldable pub write : Calls → ℕ → Bytes → FileBlob → Directory → Option (ℕ × Directory)
write calls offset bytes blob dir =
    let file = file_bytes blob.path dir in
    let written = min calls.accepts (min (length bytes) (blob.size - offset)) in
    let landed = min calls.room written in
    if not blob.opened || ltb blob.size offset
    then some (0, dir)
    else if ltb (length file) offset
    then none
    else some (written, put_path blob.path (some (overlay offset (take landed bytes) file)) dir)

pub record FileBlobProvider : Type 0 where
  pub root_path : Bytes
  pub blob_map : Option BlobMap
  pub directory : Directory

abbrev pub path_of : FileBlobProvider → Bytes → Bytes
path_of p id = p.root_path ++ 47 ∷ id

-- The loop of `NewBlob` over a buffer of `buf_size` bytes; each round takes one of `fuel`.
unfoldable pub fill_zeros : ℕ → ℕ → ℕ → Bytes
fill_zeros buf_size zero remaining = []
fill_zeros buf_size (suc fuel) remaining =
    let rest = fill_zeros buf_size fuel (remaining - buf_size) in
    if leb buf_size remaining then replicate buf_size 0 ++ rest else replicate remaining 0

-- `fopen` in mode "wb" and what is then written, as far as the file could be made.
unfoldable pub create_file : Calls → Bytes → Bytes → Directory → Directory
create_file calls path bytes dir = if calls.creates then put_path path (some bytes) dir else dir

-- `buf_size` is `BUFSIZ`, and `id` what `uuidgen` returns.
unfoldable pub new_blob :
    ℕ → Calls → Bytes → ℕ → FileBlobProvider → Option FileBlob × FileBlobProvider
new_blob buf_size calls id size p = if not calls.has_folder then (none, p) else elim p.blob_map [
  | none ↦ (none, p)
  | some m ↦
      let m' = set_metadata calls.map_calls id (record new_metadata { size = size }) m in
      let path = path_of p id in
      let zeros = take calls.room (fill_zeros buf_size size size) in
      let dir = create_file calls path zeros p.directory in
      let (blob, dir') = new_file_blob calls path id size dir in
      (some blob, record p { blob_map = some m'; directory = dir' })
]

unfoldable pub open_blob : Calls → Bytes → FileBlobProvider → Option FileBlob × FileBlobProvider
open_blob calls id p = elim p.blob_map [
  | none ↦ (none, p)
  | some m ↦
      let (found, metadata) = get_metadata calls.map_calls id new_metadata m in
      let (blob, dir) = new_file_blob calls (path_of p id) id metadata.size p.directory in
      if not found
      then (none, p)
      else (if blob.opened then some blob else none, record p { directory = dir })
]

unfoldable pub delete_blob : Calls → Bytes → FileBlobProvider → FileBlobProvider
delete_blob calls id p =
    if calls.unlinks then record p { directory = put_path (path_of p id) none p.directory } else p
