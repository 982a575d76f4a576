-- ===== src/BlobFile.antt =====
-- src/bdblob/File.cpp: a file of some size in a blob, over the calls of a provider of blobs.
pub mod Laws
pub mod Reads
pub mod Writes
pub mod Files
use drive.Prelude.{
  ℕ, ◌+◌, ◌-◌, ◌*◌, ◌/◌, ◌%◌, ◌^◌, Bool, true, false, Option, none, some, List, [], ◌∷◌, ltb, leb,
  ◌==◌, if◌then◌else◌, length, take, min, max,
}
use drive.Prelude.Texts.{Bytes}

-- `IBlob` and `BlobProvider`. A `Store` is what the blobs of a provider share. A write whose
-- behaviour is undefined gives `none`.
pub record Provider : Type 1 where
  pub Store : Type 0
  pub Blob : Type 0
  pub id : Blob → Bytes
  pub size : Blob → ℕ
  pub read : ℕ → ℕ → Blob → Store → Bytes
  pub write : ℕ → Bytes → Blob → Store → Option (ℕ × Store)
  pub new_blob : ℕ → Store → Option Blob × Store
  pub open_blob : Bytes → Store → Option Blob × Store

-- `block_size` is `BlobConfig::BlockSize()`.
unfoldable pub capacity_of : ℕ → ℕ → ℕ
capacity_of block_size size =
    let capacity = if size == 0 then 1 else size in
    ((capacity - 1) / block_size + 1) * block_size % 2 ^ 64

module _ (b : Provider) where
  pub record File : Type 0 where
    pub id : Bytes
    pub blob : Option b.Blob
    pub size : ℕ

  abbrev pub new_file : File
  new_file = record { id = []; blob = none; size = 0 }

  -- `Open` of a size, in a new blob.
  unfoldable pub open_new : ℕ → ℕ → File → b.Store → Bool × File × b.Store
  open_new block_size size f s = elim f.blob [
    | some _ ↦ (false, f, s)
    | none ↦
        let (blob, s') = b.new_blob (capacity_of block_size f.size) s in
        elim blob [
          | none ↦ (false, f, s')
          | some x ↦ (true, record { id = b.id x; blob = some x; size = size }, s')
        ]
  ]

  -- `Open` of an id.
  unfoldable pub open_id : Bytes → ℕ → File → b.Store → Bool × File × b.Store
  open_id id size f s = elim f.blob [
    | some _ ↦ (false, f, s)
    | none ↦
        let (blob, s') = b.open_blob id s in
        elim blob [
          | none ↦ (false, f, s')
          | some x ↦
              if ltb (b.size x) size
              then (false, f, s')
              else (true, record { id = id; blob = some x; size = size }, s')
        ]
  ]

  -- The first bytes of the buffer, as many as the result says.
  unfoldable pub read : ℕ → ℕ → File → b.Store → Bytes
  read offset len f s = elim f.blob [
    | none ↦ []
    | some x ↦
        let start = min offset f.size in
        let end = min ((offset + len) % 2 ^ 64) f.size in
        if leb end start then [] else b.read start (end - start) x s
  ]

  abbrev pub grow : ℕ → File → File
  grow end f = record f { size = if ltb f.size end then end else f.size }

  unfoldable pub write : ℕ → ℕ → Bytes → File → b.Store → Option (ℕ × File × b.Store)
  write block_size offset bytes f s = elim f.blob [
    | none ↦ some (0, f, s)
    | some x ↦
        let capacity = capacity_of block_size f.size in
        let start = min offset capacity in
        let end = min ((offset + length bytes) % 2 ^ 64) capacity in
        if leb end start
        then some (0, f, s)
        else elim (b.write start (take (end - start) bytes) x s) [
          | none ↦ none
          | some (n, s') ↦ some (n, grow (start + n) f, s')
        ]
  ]

  abbrev pub close : File → File
  close f = record f { blob = none }
