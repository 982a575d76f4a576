-- ===== src/FileBlob/Created.antt =====
-- Blobs from their making to their removal (src/bdblob/FileBlobProvider.cpp).
use drive.BlobMap.{BlobMap, is_empty, set_metadata, get_metadata}
use drive.BlobMap.Append.{IsValid, Succeeds}
use drive.BlobMap.Typed.{get_metadata-set_metadata}
use drive.FileBlob.Contents.{shown, IsFull, shown_take}
use drive.FileBlob.{
  Calls, Directory, FileBlob, FileBlobProvider, put_path, file_bytes, path_of, new_file_blob,
  fill_zeros, new_blob, is_file, create_file, open_blob, delete_blob,
}
use drive.HostPartition.Blocks.{zeros_eq, replicate_split}
use drive.Metadata
use drive.Metadata.RoundTrip.{IsSized}
use drive.Metadata.{BlobMetadata, new_metadata}
use drive.Prelude.{
  ℕ, zero, suc, ◌+◌, ◌-◌, ◌^◌, ◌≤◌, ◌<◌, ◌≡◌, refl, ◌∙◌, true, false, some, none, [], arith, leb,
  length, take, replicate, length-replicate, take_all, Bool-cases, inl, inr,
}
use drive.Prelude.Texts.{Bytes, str_eq_self}

pub fill_zeros_lem :
    (buf_size fuel remaining : ℕ)
    → 0 < buf_size
    → remaining ≤ fuel
    → fill_zeros buf_size fuel remaining ≡ replicate remaining 0
unfolding fill_zeros
fill_zeros_lem buf_size zero remaining p h = zeros_eq 0 remaining (omega arith)
fill_zeros_lem buf_size (suc fuel) remaining p h = elim (Bool-cases (leb buf_size remaining)) [
  | inl whole ↦
      rw
        (
          whole,
          fill_zeros_lem buf_size fuel (remaining - buf_size) p (ground arith),
          replicate_split buf_size (remaining - buf_size),
        )
        (zeros_eq (buf_size + (remaining - buf_size)) remaining (ground arith))
  | inr part ↦ rw part
]

abbrev pub blob_metadata : ℕ → BlobMetadata
blob_metadata size = record new_metadata { size = size }

pub blob_metadata-IsSized : (size : ℕ) → size < 2 ^ 64 → IsSized (blob_metadata size)
blob_metadata-IsSized size h = record {
  size_fits = h;
  block_fits = ground arith;
  count_fits = ground arith;
  strings_fit = tt;
}

-- No call of the C library fails while a blob of `size` bytes is made.
pub record AllSucceed (calls : Calls) (size : ℕ) : Type 0 where
  pub has_folder : calls.has_folder ≡ true
  pub opens : calls.opens ≡ true
  pub creates : calls.creates ≡ true
  pub room : size ≤ calls.room
  pub mapped : Succeeds calls.map_calls (Metadata.get_serialized_size (blob_metadata size))

-- A provider with an open blob map.
pub record IsReady (p : FileBlobProvider) (m : BlobMap) (bytes : Bytes) : Type 0 where
  pub present : p.blob_map ≡ some m
  pub valid : IsValid m
  pub filled : m.file ≡ some bytes

module _ (p : FileBlobProvider) (id : Bytes) (size : ℕ) where
  abbrev pub the_blob : FileBlob
  the_blob = record { path = path_of p id; opened = true; id = id; size = size }

opens_file :
    (calls : Calls) (path id file : Bytes) (size : ℕ) (dir : Directory)
    → dir path ≡ some file
    → calls.opens ≡ true
    → new_file_blob calls path id size dir
      ≡ (record { path = path; opened = true; id = id; size = size }, dir)
unfolding new_file_blob
opens_file calls path id file size dir e o = rw (is_file, e, o)

creates_file :
    (calls : Calls) (path bytes : Bytes) (dir : Directory)
    → calls.creates ≡ true
    → create_file calls path bytes dir ≡ put_path path (some bytes) dir
unfolding create_file
creates_file calls path bytes dir c = rw c

-- When no call fails, `NewBlob` returns an open blob of the size asked for that is full of zeros.
pub new_blob_lem :
    (buf_size : ℕ) (calls : Calls) (id : Bytes) (size : ℕ) (p : FileBlobProvider) (m : BlobMap)
    (bytes : Bytes)
    → 0 < buf_size
    → AllSucceed calls size
    → IsReady p m bytes
    → let dir = put_path (path_of p id) (some (replicate size 0)) p.directory in
      let blob = the_blob p id size in
      (new_blob buf_size calls id size p ≡ (
        some blob,
        record p {
          blob_map = some (set_metadata calls.map_calls id (blob_metadata size) m);
          directory = dir;
        },
      ))
      × IsFull blob dir
      × (shown blob dir ≡ replicate size 0)
unfolding new_blob
new_blob_lem buf_size calls id size p m bytes b ok ready =
    let path = path_of p id in
    let dir = put_path path (some (replicate size 0)) p.directory in
    let blob = the_blob p id size in
    let zeros : take calls.room (fill_zeros buf_size size size) ≡ replicate size 0 =
      rw (fill_zeros_lem buf_size size size b (omega arith)) (
        take_all calls.room (replicate size 0)
          (omega (arith, ok.room, length-replicate {A = ℕ} size 0))) in
    let there : dir path ≡ some (replicate size 0) = rw (put_path, str_eq_self path) in
    let held : file_bytes path dir ≡ replicate size 0 = rw (file_bytes, there) in
    let made = creates_file calls path (replicate size 0) p.directory ok.creates in
    let found = opens_file calls path id (replicate size 0) size dir there ok.opens in
    let long : size ≤ length (file_bytes path dir) =
      rw held (omega (arith, length-replicate {A = ℕ} size 0)) in
    (
      rw (ok.has_folder, ready.present, zeros, made, found),
      record { opened = refl; long = long },
      shown_take blob dir long
          ∙ rw held
              (take_all size (replicate size 0) (omega (arith, length-replicate {A = ℕ} size 0))),
    )

-- A blob whose metadata the map has, and whose file is there, is opened.
open_blob_lem :
    (calls : Calls) (id file : Bytes) (metadata : BlobMetadata) (p : FileBlobProvider) (m : BlobMap)
    → p.blob_map ≡ some m
    → get_metadata calls.map_calls id new_metadata m ≡ (true, metadata)
    → p.directory (path_of p id) ≡ some file
    → calls.opens ≡ true
    → open_blob calls id p ≡ (some (the_blob p id metadata.size), p)
unfolding open_blob
open_blob_lem calls id file metadata p m e found there o =
    rw (e, found, opens_file calls (path_of p id) id file metadata.size p.directory there o)

-- When no call fails, on a provider with an open and valid blob map, for an id that is not empty
-- and a size below 2 ^ 64: `OpenBlob` of the id of a new blob gives the same blob, which is full of
-- zeros, and changes nothing.
pub open_blob-new_blob :
    (buf_size : ℕ) (calls calls' : Calls) (id : Bytes) (size n : ℕ) (p : FileBlobProvider)
    (m : BlobMap) (bytes : Bytes)
    → 0 < buf_size
    → AllSucceed calls size
    → Succeeds calls'.map_calls n
    → calls'.opens ≡ true
    → IsReady p m bytes
    → is_empty id ≡ false
    → size < 2 ^ 64
    → let (blob, p') = new_blob buf_size calls id size p in
      (blob ≡ some (the_blob p id size))
      × (open_blob calls' id p' ≡ (some (the_blob p id size), p'))
      × IsFull (the_blob p id size) p'.directory
      × (shown (the_blob p id size) p'.directory ≡ replicate size 0)
open_blob-new_blob buf_size calls calls' id size n p m bytes b ok ok' o ready named small =
    let (made, full, zeros) = new_blob_lem buf_size calls id size p m bytes b ok ready in
    let m' = set_metadata calls.map_calls id (blob_metadata size) m in
    let dir = put_path (path_of p id) (some (replicate size 0)) p.directory in
    let p' : FileBlobProvider = record p { blob_map = some m'; directory = dir } in
    let stored =
      get_metadata-set_metadata calls.map_calls calls'.map_calls id bytes (blob_metadata size) m n
        ready.valid ready.filled named (blob_metadata-IsSized size small) ok.mapped ok' in
    let there : dir (path_of p id) ≡ some (replicate size 0) =
      rw (put_path, str_eq_self (path_of p id)) in
    let opened =
      open_blob_lem calls' id (replicate size 0) (blob_metadata size) p' m' refl stored there o in
    rw made (refl, opened, full, zeros)

makes_file :
    (calls : Calls) (path id : Bytes) (size : ℕ) (dir : Directory)
    → dir path ≡ none
    → calls.creates ≡ true
    → new_file_blob calls path id size dir
      ≡ (record { path = path; opened = true; id = id; size = size }, put_path path (some []) dir)
unfolding new_file_blob
makes_file calls path id size dir e c = rw (is_file, e, c)

deletes_file :
    (calls : Calls) (id : Bytes) (p : FileBlobProvider)
    → calls.unlinks ≡ true
    → delete_blob calls id p ≡ record p { directory = put_path (path_of p id) none p.directory }
unfolding delete_blob
deletes_file calls id p u = rw u

-- Without its file a blob is opened too, on a file made for it.
open_blob_missing :
    (calls : Calls) (id : Bytes) (metadata : BlobMetadata) (p : FileBlobProvider) (m : BlobMap)
    → p.blob_map ≡ some m
    → get_metadata calls.map_calls id new_metadata m ≡ (true, metadata)
    → p.directory (path_of p id) ≡ none
    → calls.creates ≡ true
    → open_blob calls id p ≡ (
      some (the_blob p id metadata.size),
      record p { directory = put_path (path_of p id) (some []) p.directory },
    )
unfolding open_blob
open_blob_missing calls id metadata p m e found missing c =
    rw (e, found, makes_file calls (path_of p id) id metadata.size p.directory missing c)

-- `DeleteBlob` leaves the metadata in the map: with an `unlink` that succeeds, a map that still
-- answers and a directory that takes new files, `OpenBlob` of the deleted id succeeds, with a blob
-- of the old size that is all zeros.
pub open_blob-delete_blob :
    (calls : Calls) (id : Bytes) (metadata : BlobMetadata) (p : FileBlobProvider) (m : BlobMap)
    → p.blob_map ≡ some m
    → get_metadata calls.map_calls id new_metadata m ≡ (true, metadata)
    → calls.unlinks ≡ true
    → calls.creates ≡ true
    → let (blob, p') = open_blob calls id (delete_blob calls id p) in
      (blob ≡ some (the_blob p id metadata.size))
      × (shown (the_blob p id metadata.size) p'.directory ≡ replicate metadata.size 0)
open_blob-delete_blob calls id metadata p m e found u c =
    let path = path_of p id in
    let gone = put_path path none p.directory in
    let missing : gone path ≡ none = rw (put_path, str_eq_self path) in
    let dir = put_path path (some []) gone in
    let held : file_bytes path dir ≡ [] = rw (file_bytes, put_path, str_eq_self path) in
    let opened =
      open_blob_missing calls id metadata (record p { directory = gone }) m e found missing c in
    rw (deletes_file calls id p u, opened)
      (
        refl,
        rw (held, zeros_eq (metadata.size - 0) metadata.size (omega arith))
            (take_all metadata.size (replicate metadata.size 0)
              (omega (arith, length-replicate {A = ℕ} metadata.size 0))),
      )
