-- ===== src/Tests/Files.antt =====
-- Files in blobs that are files of a directory (src/bdblob/File.cpp, FileBlob.cpp and
-- FileBlobProvider.cpp).
use drive.BlobFile.{Provider, File, new_file, capacity_of, open_new, open_id, read, write}
use drive.BlobFile.Laws.{IsProvider}
use drive.BlobFile.Files.{Directories, Shows, files, files-IsProvider, open_id-open_new}
use drive.BlobFile.Writes.{read-write_file, write_all, write_all-Within, IsOpen}
use drive.BlobMap.{BlobMap, set_metadata, get_metadata}
use drive.BlobMap.Append.{IsValid}
use drive.BlobMap.Typed.{get_metadata-set_metadata}
use drive.FileBlob
use drive.FileBlob.{Calls, Directory, FileBlob, FileBlobProvider, put_path, file_bytes}
use drive.FileBlob.Contents
use drive.FileBlob.Contents.{shown, IsFull}
use drive.FileBlob.Created.{
  AllSucceed, IsReady, blob_metadata, blob_metadata-IsSized, the_blob, open_blob-new_blob,
  open_blob-delete_blob,
}
use drive.HostPartition.{overlay}
use drive.Metadata
use drive.Metadata.{new_metadata}
use drive.OrderedMap.{find}
use drive.Prelude.{
  ℕ, ◌-◌, ◌≤◌, ◌≡◌, refl, true, some, none, List, [], ◌∷◌, arith, leb, take, replicate, min,
}
use drive.Prelude.Texts.{Bytes, codes}
use drive.Tests.Blobs.{healthy}

abbrev fine : Calls
fine = record {
  has_folder = true;
  opens = true;
  creates = true;
  unlinks = true;
  accepts = 100;
  room = 100;
  map_calls = healthy;
}

abbrev empty_map : BlobMap
empty_map = record { indexes = []; file = some []; filename = codes "blobs" }

empty_map-IsValid : IsValid empty_map
unfolding find
empty_map-IsValid = record { inside = λ bytes key ix f i. ground arith }

abbrev storage : FileBlobProvider
storage = record { root_path = codes "storage"; blob_map = some empty_map; directory = λ p. none }

storage-IsReady : IsReady storage empty_map []
storage-IsReady = record { present = refl; valid = empty_map-IsValid; filled = refl }

abbrev uuid : Bytes
uuid = codes "2f"

few_bytes : Metadata.get_serialized_size (blob_metadata 4) ≤ healthy.write_limit
unfolding Metadata.get_serialized_size
few_bytes = ground arith

fine-AllSucceed : AllSucceed fine 4
fine-AllSucceed = record {
  has_folder = refl;
  opens = refl;
  creates = refl;
  room = omega arith;
  mapped = (refl, refl, refl, refl, few_bytes);
}

open_blob-new_blob_example :
    let (blob, p) = FileBlob.new_blob 3 fine uuid 4 storage in
    (blob ≡ some (the_blob storage uuid 4))
    × (FileBlob.open_blob fine uuid p ≡ (some (the_blob storage uuid 4), p))
    × IsFull (the_blob storage uuid 4) p.directory
    × (shown (the_blob storage uuid 4) p.directory ≡ replicate 4 0)
open_blob-new_blob_example =
    open_blob-new_blob 3 fine fine uuid 4 3 storage empty_map [] (omega arith) fine-AllSucceed
      (refl, refl, refl, refl, ground arith) refl storage-IsReady refl (omega arith)

abbrev named_map : BlobMap
named_map = set_metadata healthy uuid (blob_metadata 4) empty_map

abbrev kept : FileBlobProvider
kept = record {
  root_path = codes "storage";
  blob_map = some named_map;
  directory = λ p. some (1 ∷ 2 ∷ 3 ∷ 4 ∷ []);
}

named : get_metadata healthy uuid new_metadata named_map ≡ (true, blob_metadata 4)
named =
    get_metadata-set_metadata healthy healthy uuid [] (blob_metadata 4) empty_map 3
      empty_map-IsValid refl refl (blob_metadata-IsSized 4 (omega arith))
      (refl, refl, refl, refl, few_bytes) (refl, refl, refl, refl, ground arith)

open_blob-delete_blob_example :
    let (blob, p) = FileBlob.open_blob fine uuid (FileBlob.delete_blob fine uuid kept) in
    (blob ≡ some (the_blob kept uuid 4))
    × (shown (the_blob kept uuid 4) p.directory ≡ replicate 4 0)
open_blob-delete_blob_example =
    open_blob-delete_blob fine uuid (blob_metadata 4) kept named_map refl named refl refl

abbrev blob : FileBlob
blob = the_blob kept uuid 4

blob-IsFull : IsFull blob kept.directory
blob-IsFull = record { opened = refl; long = omega arith }

-- A disk with room for one byte: both bytes are reported, and one reaches the file.
abbrev nearly_full : Calls
nearly_full = record fine { room = 1 }

write_lem_example :
    let n = min 100 (min 2 (4 - 2)) in
    (dir : Directory) × (FileBlob.write nearly_full 2 (7 ∷ 8 ∷ []) blob kept.directory
      ≡ some (n, dir))
    × IsFull blob dir
    × (shown blob dir ≡ overlay 2 (take (min 1 n) (7 ∷ 8 ∷ [])) (shown blob kept.directory))
write_lem_example =
    Contents.write_lem nearly_full 2 (7 ∷ 8 ∷ []) blob kept.directory blob-IsFull (omega arith)

abbrev state : Directories
state = record { operations = 0; provider = kept }

abbrev disk_files : Provider
disk_files = files 3 (λ t. fine) (λ t. uuid)

abbrev files_laws : IsProvider disk_files (Shows 3 (λ t. fine) (λ t. uuid))
files_laws = files-IsProvider 3 (λ t. fine) (λ t. uuid) (λ t. omega arith)

abbrev file : File disk_files
file = record { id = uuid; blob = some blob; size = 2 }

file-IsOpen :
    IsOpen disk_files
      (Shows 3 (λ t. fine) (λ t. uuid))
      files_laws
      4
      (omega arith)
      file
      blob
      state
      (1 ∷ 2 ∷ 3 ∷ 4 ∷ [])
file-IsOpen = record { opened = refl; shown = (blob-IsFull, refl); roundable = ground arith }

read-write_file_example :
    (n : ℕ) × (f : File disk_files) × (s : Directories) × (write disk_files 4 1
        (8 ∷ 9 ∷ [])
        file
        state
      ≡ some (n, f, s))
    × (n ≤ 2)
    × (read disk_files 1 n f s ≡ take n (8 ∷ 9 ∷ []))
read-write_file_example =
    read-write_file disk_files (Shows 3 (λ t. fine) (λ t. uuid)) files_laws 4 (omega arith) 1
      (8 ∷ 9 ∷ []) file blob state (1 ∷ 2 ∷ 3 ∷ 4 ∷ []) file-IsOpen (omega arith)

abbrev writes : List (ℕ × Bytes)
writes = (1, 8 ∷ 9 ∷ []) ∷ (3, 5 ∷ 6 ∷ 7 ∷ []) ∷ (4, 1 ∷ []) ∷ []

write_all-Within_example :
    (f : File disk_files) × (s : Directories) × (write_all disk_files 4 writes file state
      ≡ some (f, s))
    × (2 ≤ f.size)
    × (f.size ≤ capacity_of 4 2)
write_all-Within_example =
    write_all-Within disk_files (Shows 3 (λ t. fine) (λ t. uuid)) files_laws 4 (omega arith) writes
      file blob state (1 ∷ 2 ∷ 3 ∷ 4 ∷ []) file-IsOpen
      (omega arith, (omega arith, (omega arith, tt)))

-- A file of five bytes in blocks of four cannot be opened again.
open_id-open_new_example :
    let start : Directories = record { operations = 0; provider = storage } in
    let (success, f, s) = open_new disk_files 4 5 (new_file disk_files) start in
    let (again, _, _) = open_id disk_files f.id f.size (new_file disk_files) s in
    (success ≡ true) × (again ≡ leb 5 4)
open_id-open_new_example =
    open_id-open_new 3 (λ t. fine) (λ t. uuid) 4 5 3 (record { operations = 0; provider = storage })
      empty_map [] (omega arith) (omega arith) (omega arith) fine-AllSucceed
      (refl, refl, refl, refl, ground arith) refl storage-IsReady refl
