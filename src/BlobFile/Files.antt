-- ===== src/BlobFile/Files.antt =====
-- Files in blobs that are files of a directory: src/bdblob/File.cpp over FileBlobProvider.cpp.
use drive.BlobFile.{Provider, new_file, capacity_of, open_new, open_id}
use drive.BlobFile.Laws.{IsProvider, capacity_of_zero}
use drive.BlobMap.{BlobMap, is_empty}
use drive.BlobMap.Append.{Succeeds}
use drive.FileBlob
use drive.FileBlob.{Calls, FileBlob, FileBlobProvider}
use drive.FileBlob.Contents
use drive.FileBlob.Contents.{shown, length-shown, IsFull}
use drive.FileBlob.Created.{AllSucceed, IsReady, the_blob, open_blob-new_blob}
use drive.HostPartition.{overlay}
use drive.Prelude.{
  ℕ, suc, ◌+◌, ◌-◌, ◌^◌, ◌≤◌, ◌<◌, ◌≡◌, refl, ap, true, false, Option, some, none, arith, ltb, leb,
  length, take, min, Bool-cases, inl, inr,
}
use drive.Prelude.Texts.{Bytes}

module _ (b : Provider) where
  -- `Open` of a size succeeds with the blob that the provider makes.
  open_new_lem :
      (block_size size : ℕ) (x : b.Blob) (s s' : b.Store)
      → b.new_blob (capacity_of block_size 0) s ≡ (some x, s')
      → open_new b block_size size (new_file b) s
        ≡ (true, record { id = b.id x; blob = some x; size = size }, s')
  unfolding open_new
  open_new_lem block_size size x s s' e = rw (e, ap (λ (t : Option b.Blob × b.Store). t.1) e)

  -- `Open` of an id succeeds on a blob that is found exactly if the blob is as long as the file.
  open_id_lem :
      (id : Bytes) (size : ℕ) (x : b.Blob) (s s' : b.Store)
      → b.open_blob id s ≡ (some x, s')
      → (open_id b id size (new_file b) s).0 ≡ leb size (b.size x)
  unfolding open_id
  open_id_lem id size x s s' e = elim (Bool-cases (ltb (b.size x) size)) [
    | inl short ↦ rw (e, short) (ground arith)
    | inr long ↦ rw (e, long) (ground arith)
  ]

-- A provider, and the number of operations so far. `calls` says how the calls of the C library turn
-- out in each operation, counted from the start, and `uuids` which id `uuidgen` returns in it.
pub record Directories : Type 0 where
  pub operations : ℕ
  pub provider : FileBlobProvider

module _ (buf_size : ℕ) (calls : ℕ → Calls) (uuids : ℕ → Bytes) where
  abbrev pub counted : FileBlobProvider → Directories → Directories
  counted p s = record { operations = suc s.operations; provider = p }

  unfoldable pub counted_write : ℕ → Bytes → FileBlob → Directories → Option (ℕ × Directories)
  counted_write offset bytes x s =
      elim (FileBlob.write (calls s.operations) offset bytes x s.provider.directory) [
        | none ↦ none
        | some (n, dir) ↦ some (n, counted (record s.provider { directory = dir }) s)
      ]

  unfoldable pub counted_new : ℕ → Directories → Option FileBlob × Directories
  counted_new size s =
      let (blob, p) =
        FileBlob.new_blob buf_size (calls s.operations) (uuids s.operations) size s.provider in
      (blob, counted p s)

  unfoldable pub counted_open : Bytes → Directories → Option FileBlob × Directories
  counted_open id s =
      let (blob, p) = FileBlob.open_blob (calls s.operations) id s.provider in (blob, counted p s)

  abbrev pub files : Provider
  files = record {
    Store = Directories;
    Blob = FileBlob;
    id = λ x. x.id;
    size = λ x. x.size;
    read = λ offset len x s. FileBlob.read offset len x s.provider.directory;
    write = counted_write;
    new_blob = counted_new;
    open_blob = counted_open;
  }

  abbrev pub Shows : FileBlob → Directories → Bytes → Type 0
  Shows x s bytes = IsFull x s.provider.directory × (shown x s.provider.directory ≡ bytes)

  -- What `fwrite` reports reaches the file.
  abbrev pub AreFlushed : Type 0
  AreFlushed = (t : ℕ) → (calls t).accepts ≤ (calls t).room

  write_blob_lem :
      AreFlushed
      → (offset : ℕ) (new : Bytes) (x : FileBlob) (s : Directories) (bytes : Bytes)
      → Shows x s bytes
      → offset ≤ x.size
      → (n : ℕ) × (s' : Directories) × (counted_write offset new x s ≡ some (n, s'))
        × (n ≤ length new)
        × (offset + n ≤ x.size)
        × Shows x s' (overlay offset (take n new) bytes)
  unfolding counted_write
  write_blob_lem flushed offset new x s bytes (full, e) h =
      let c = calls s.operations in
      let n = min c.accepts (min (length new) (x.size - offset)) in
      let all_land : min c.room n ≡ n = omega (arith, flushed s.operations) in
      let (dir, wrote, full', after) =
        Contents.write_lem c offset new x s.provider.directory full h in
      (
        n,
        counted (record s.provider { directory = dir }) s,
        rw (counted_write, wrote),
        omega arith,
        omega arith,
        (full', rw (← e) (rw all_land at after)),
      )

  write_blob_outside :
      (offset : ℕ) (new : Bytes) (x : FileBlob) (s : Directories) (bytes : Bytes)
      → Shows x s bytes
      → x.size < offset
      → (s' : Directories) × (counted_write offset new x s ≡ some (0, s')) × Shows x s' bytes
  unfolding counted_write
  write_blob_outside offset new x s bytes (full, e) h =
      let wrote =
        Contents.write_outside (calls s.operations) offset new x s.provider.directory full.opened
          h in
      (counted s.provider s, rw (counted_write, wrote), (full, e))

  -- Blobs that are files, each in a state where its file is open and complete, do what a file asks
  -- of its blob, while what `fwrite` reports reaches the file.
  pub files-IsProvider : AreFlushed → IsProvider files Shows
  files-IsProvider flushed = record {
    size_lem = λ x s bytes (full, e). rw (← e) (length-shown x s.provider.directory);
    read_lem = λ offset len x s bytes (full, e).
        rw (← e) (Contents.read_lem offset len x s.provider.directory full.opened);
    write_lem = write_blob_lem flushed;
    write_outside = write_blob_outside;
  }

  -- `Open` of a size makes a blob of one block, whatever the size: when no call fails, on a provider
  -- with an open and valid blob map, with an id that is not empty, it succeeds, and `Open` of the
  -- file's id and size by another object then succeeds exactly if the size is at most a block.
  pub open_id-open_new :
      (block_size size n : ℕ) (s : Directories) (m : BlobMap) (bytes : Bytes)
      → 0 < buf_size
      → 0 < block_size
      → block_size < 2 ^ 64
      → AllSucceed (calls s.operations) block_size
      → Succeeds (calls (suc s.operations)).map_calls n
      → (calls (suc s.operations)).opens ≡ true
      → IsReady s.provider m bytes
      → is_empty (uuids s.operations) ≡ false
      → let (success, f, s') = open_new files block_size size (new_file files) s in
        let (again, _, _) = open_id files f.id f.size (new_file files) s' in
        (success ≡ true) × (again ≡ leb size block_size)
  unfolding counted_new counted_open
  open_id-open_new block_size size n s m bytes bp p small ok ok' o ready named =
      let id = uuids s.operations in
      let blob = the_blob s.provider id block_size in
      let p' = (FileBlob.new_blob buf_size (calls s.operations) id block_size s.provider).1 in
      let (made, opened, full, zeros) =
        open_blob-new_blob buf_size (calls s.operations) (calls (suc s.operations)) id block_size n
          s.provider m bytes bp ok ok' o ready named small in
      let new : counted_new (capacity_of block_size 0) s ≡ (some blob, counted p' s) =
        rw (capacity_of_zero block_size p small, counted_new, made) in
      let found : counted_open id (counted p' s) ≡ (some blob, counted p' (counted p' s)) =
        rw (counted_open, opened) in
      rw (open_new_lem files block_size size blob s (counted p' s) new)
        (refl, open_id_lem files id size blob (counted p' s) (counted p' (counted p' s)) found)
