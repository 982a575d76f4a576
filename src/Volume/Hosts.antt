-- ===== src/Volume/Hosts.antt =====
-- A volume whose columns are partitions of hosts: the calls of src/bdfs-lib/BdPartition.cpp, answered
-- by the handlers of src/bdhost/PartitionHandler.cpp.
use drive.HostPartition.{
  Partition, Disk, Answer, invalid_arguments, failed_to_read, failed_to_write, bytes_read,
  size_written, overlay, open_partition, reopen, on_read_block, on_write_block,
}
use drive.HostPartition.Blocks.{IsSound, block}
use drive.HostPartition.Requests.{read_inside, IsWritten, on_write_block_lem}
use drive.HostPartition.Stored.{IsHealthy}
use drive.HostPartition.Writes.{length-block}
use drive.Prelude.{
  ℕ, ◌+◌, ◌*◌, ◌%◌, ◌^◌, ◌≤◌, ◌<◌, ◌≡◌, refl, ◌∙◌, true, false, ◌&&◌, Option, none, some, List, [],
  arith, ltb, ◌==◌, ==_iff, if◌then◌else◌, length, take, drop, take_all, length-take, length-drop,
  All, Bool-cases, inl, inr,
}
use drive.Prelude.Texts.{Bytes}
use drive.Volume.{
  Volume, Backend, Row, Column, columns, read_cached, write_cached, read_direct, write_direct,
}
use drive.Volume.Cells.{IsReliable}
use drive.Volume.Reads.{read-write}
use drive.Volume.Requests.{read, write}
use native.Mathlib.Nat.{mod-eq_of_lt}

-- What the callbacks of `Read` and `Write` make of an answer; `none` is the result -1.
abbrev read_answer : Answer → Bytes
read_answer (bytes_read bytes) = bytes
read_answer (size_written n) = []
read_answer invalid_arguments = []
read_answer failed_to_read = []
read_answer failed_to_write = []

-- The answer is a number for `isInt` below 2 ^ 63.
abbrev write_answer : Answer → Option ℕ
write_answer (size_written n) = if ltb n (2 ^ 63) then some n else none
write_answer (bytes_read bytes) = none
write_answer invalid_arguments = none
write_answer failed_to_read = none
write_answer failed_to_write = none

-- The block goes as an unsigned number of 64 bits, offset and size are of 32.
unfoldable pub call_read : Disk → Row → ℕ → ℕ → Partition → Bytes
call_read disk row offset size p =
    read_answer (on_read_block disk (row % 2 ^ 64) (offset % 2 ^ 32) (size % 2 ^ 32) p)

unfoldable pub call_write : Disk → Row → ℕ → Bytes → Partition → Option ℕ × Partition
call_write disk row offset bytes p =
    let body = take (length bytes % 2 ^ 32) bytes in
    let (answer, p') = on_write_block disk (row % 2 ^ 64) (offset % 2 ^ 32) (some body) p in
    (write_answer answer, p')

abbrev pub Encode : Type 0
Encode = ℕ → ℕ → ℕ → List Bytes → Option (List Bytes)

abbrev pub Decode : Type 0
Decode = ℕ → ℕ → ℕ → List (Bytes × ℕ) → Option (List (Bytes × ℕ))

unfoldable pub at_column : Column → Partition → (Column → Partition) → Column → Partition
at_column col p s c = if c == col then p else s c

-- The hosts of the columns, each of which answers in time; there is no cache.
abbrev pub hosts : Disk → Encode → Decode → Backend
hosts disk encode decode = record {
  State = Column → Partition;
  remote_read = λ col row offset size s. (some (call_read disk row offset size (s col)), s);
  remote_write = λ col row offset bytes s.
      let (answer, p) = call_write disk row offset bytes (s col) in (answer, at_column col p s);
  verify_block = λ col row s. true;
  cached = false;
  cache_read = λ row col size offset s. (none, s);
  cache_write = λ row col bytes offset s. (false, s);
  encode = encode;
  decode = decode;
}

module _ (disk : Disk) (v : Volume) where
  -- Each column of the volume has a partition that is large enough, and sound when it is opened.
  pub record AreReady (s : Column → Partition) : Type 0 where
    pub sound : (col : Column) → col < columns v → IsSound (reopen disk (s col))
    pub count : (col : Column) → col < columns v → v.block_count ≤ (s col).block_count
    pub size : (col : Column) → col < columns v → (s col).block_size ≡ v.block_size

  -- The partition that a write request leaves.
  abbrev pub left : Row → ℕ → Bytes → Partition → Partition
  left row offset bytes p = (on_write_block disk row offset (some bytes) p).1

  -- Such a call reads and writes as the host's partition does.
  call_read_lem :
      (row : Row) (col : Column) (size offset : ℕ) (s : Column → Partition)
      → AreReady s
      → v.block_count ≤ 2 ^ 64
      → v.block_size < 2 ^ 32
      → row < v.block_count
      → col < columns v
      → 0 < size
      → offset + size ≤ v.block_size
      → call_read disk row offset size (s col)
        ≡ take size (drop offset (block (reopen disk (s col)) row))
  unfolding call_read
  call_read_lem row col size offset s a few short h k pos l =
      let same = a.size col k in
      let row_eq : row % 2 ^ 64 ≡ row = mod-eq_of_lt (omega arith) in
      let offset_eq : offset % 2 ^ 32 ≡ offset = mod-eq_of_lt (omega arith) in
      let size_eq : size % 2 ^ 32 ≡ size = mod-eq_of_lt (omega arith) in
      rw (
        row_eq,
        offset_eq,
        size_eq,
        read_inside disk (s col) (a.sound col k) row offset size (omega (arith, a.count col k))
            (omega (arith, same)) (omega (arith, same)) (omega arith) (omega arith),
      )

  pub length-stored :
      (row : Row) (col : Column) (s : Column → Partition)
      → AreReady s
      → col < columns v
      → length (block (reopen disk (s col)) row) ≡ v.block_size
  unfolding open_partition
  length-stored row col s a k =
      length-block (reopen disk (s col)) row (a.sound col k) ∙ a.size col k

  module _ (healthy : IsHealthy disk) where
    -- A write request to a partition of the volume.
    answered :
        (row : Row) (col : Column) (bytes : Bytes) (offset : ℕ) (s : Column → Partition) (r : Row)
        (a : AreReady s)
        → v.block_size < 2 ^ 32
        → row < v.block_count
        → (k : col < columns v) → 0 < length bytes
        → offset + length bytes ≤ v.block_size
        → IsWritten disk
            (s col)
            (a.sound col k)
            row
            offset
            r
            bytes
            (on_write_block disk row offset (some bytes) (s col))
    answered row col bytes offset s r a short h k pos l =
        on_write_block_lem disk (s col) (a.sound col k) row offset r bytes healthy
          (omega (arith, a.count col k)) pos (omega (arith, a.size col k)) (omega arith)

    call_write_lem :
        (row : Row) (col : Column) (bytes : Bytes) (offset : ℕ) (s : Column → Partition)
        → AreReady s
        → v.block_count ≤ 2 ^ 64
        → v.block_size < 2 ^ 32
        → row < v.block_count
        → col < columns v
        → 0 < length bytes
        → offset + length bytes ≤ v.block_size
        → call_write disk row offset bytes (s col)
          ≡ (some (length bytes), left row offset bytes (s col))
    unfolding call_write
    call_write_lem row col bytes offset s a few short h k pos l =
        let row_eq : row % 2 ^ 64 ≡ row = mod-eq_of_lt (omega arith) in
        let offset_eq : offset % 2 ^ 32 ≡ offset = mod-eq_of_lt (omega arith) in
        let size_eq : length bytes % 2 ^ 32 ≡ length bytes = mod-eq_of_lt (omega arith) in
        let is_short : ltb (length bytes) (2 ^ 63) ≡ true = ground arith in
        rw (
          row_eq,
          offset_eq,
          size_eq,
          take_all (length bytes) bytes (omega arith),
          (answered row col bytes offset s row a short h k pos l).0,
          is_short,
        )

  module _ (encode : Encode) (decode : Decode) (healthy : IsHealthy disk)
      (few : v.block_count ≤ 2 ^ 64) (short : v.block_size < 2 ^ 32) where
    abbrev pub backend : Backend
    backend = hosts disk encode decode

    pub wrote :
        (row : Row) (col : Column) (bytes : Bytes) (offset : ℕ) (s : Column → Partition)
        → AreReady s
        → row < v.block_count
        → col < columns v
        → 0 < length bytes
        → offset + length bytes ≤ v.block_size
        → write_cached backend row col bytes offset s
          ≡ (true, at_column col (left row offset bytes (s col)) s)
    unfolding write_cached write_direct
    wrote row col bytes offset s a h k pos l = rw (
      call_write_lem healthy row col bytes offset s a few short h k pos l,
      (==_iff (length bytes) (length bytes)).1 refl,
    )

    pub wrote-AreReady :
        (row : Row) (col : Column) (bytes : Bytes) (offset : ℕ) (s : Column → Partition)
        → AreReady s
        → row < v.block_count
        → col < columns v
        → 0 < length bytes
        → offset + length bytes ≤ v.block_size
        → AreReady (at_column col (left row offset bytes (s col)) s)
    unfolding at_column
    wrote-AreReady row col bytes offset s a h k pos l =
        let (answer, sound, count, size, held) =
          answered healthy row col bytes offset s row a short h k pos l in
        record {
          sound = λ c l'. elim (Bool-cases (c == col)) [
            | inl e ↦ rw e sound
            | inr e ↦ rw e (a.sound c l')
          ];
          count = λ c l'. elim (Bool-cases (c == col)) [
            | inl e ↦ rw (e, count) (a.count col k)
            | inr e ↦ rw e (a.count c l')
          ];
          size = λ c l'. elim (Bool-cases (c == col)) [
            | inl e ↦ rw (e, size) (a.size col k)
            | inr e ↦ rw e (a.size c l')
          ];
        }

    pub wrote-block :
        (row : Row) (col : Column) (bytes : Bytes) (offset : ℕ) (s : Column → Partition) (r : Row)
        (c : Column)
        → AreReady s
        → row < v.block_count
        → col < columns v
        → 0 < length bytes
        → offset + length bytes ≤ v.block_size
        → block (reopen disk (at_column col (left row offset bytes (s col)) s c)) r ≡ (
            if r == row && c == col
            then overlay offset bytes (block (reopen disk (s col)) row)
            else block (reopen disk (s c)) r)
    unfolding at_column
    wrote-block row col bytes offset s r c a h k pos l =
        let (answer, sound, count, size, held) =
          answered healthy row col bytes offset s r a short h k pos l in
        elim (Bool-cases (c == col)) [
          | inl e ↦
              let same : c ≡ col = (==_iff c col).0 e in
              elim (Bool-cases (r == row)) [
                | inl e' ↦ rw (e, e') (held ∙ rw e')
                | inr e' ↦ rw (e, e', same) (held ∙ rw e')
              ]
          | inr e ↦ let apart : (r == row && c == col) ≡ false = ground arith in rw (apart, e)
        ]

    pub read_host :
        (row : Row) (col : Column) (size offset : ℕ) (s : Column → Partition)
        → AreReady s
        → row < v.block_count
        → col < columns v
        → 0 < size
        → offset + size ≤ v.block_size
        → read_cached backend row col size offset s
          ≡ (some (take size (drop offset (block (reopen disk (s col)) row))), s)
    unfolding read_cached read_direct
    read_host row col size offset s a h k pos l =
        let held = block (reopen disk (s col)) row in
        let bytes = take size (drop offset held) in
        let sized : length bytes ≡ size = omega (
          arith,
          length-take size (drop offset held),
          length-drop offset held,
          length-stored row col s a k,
        ) in
        rw (
          call_read_lem row col size offset s a few short h k pos l,
          (==_iff (length bytes) size).1 sized,
        )

    -- Hosts with healthy disks, with blocks that are not empty and shorter than 2 ^ 32 bytes, at
    -- most 2 ^ 64 of them: a reliable backend, if the partitions are set and the encoder works.
    unfoldable pub hosts-IsReliable :
        0 < v.block_size
        → ((col : Column) → col < columns v → v.present col ≡ true)
        → ((blocks : List Bytes)
            → (codes : List Bytes) × (encode v.block_size v.data_count v.code_count blocks
                ≡ some codes)
              × (length codes ≡ v.code_count)
              × All (λ code. length code ≡ v.block_size) codes)
        → IsReliable (hosts disk encode decode) v
    hosts-IsReliable pos present encodes = record {
      has_bytes = pos;
      IsGood = AreReady;
      content = λ s row col. block (reopen disk (s col)) row;
      length-content = λ row col s a h k. length-stored row col s a k;
      read_good = λ row col size offset s a h k l m.
          rw (read_host row col size offset s a h k l m) (refl, a);
      read_same =
          λ row col size offset s r c a h k l m. rw (read_host row col size offset s a h k l m);
      write_good = λ row col bytes offset s a h k l m.
          rw (wrote row col bytes offset s a h k l m)
            (refl, wrote-AreReady row col bytes offset s a h k l m);
      write_content = λ row col bytes offset s r c a h k l m.
          rw (wrote row col bytes offset s a h k l m)
            (wrote-block row col bytes offset s r c a h k l m);
      present = present;
      verifies = λ row col s a k. refl;
      encodes = encodes;
    }

  -- The bytes of a volume on hosts, each of which answers in time and opens its partition anew for
  -- each request, on disks where opening and making files succeeds, with partitions for all columns
  -- that are sound when they are opened, and an encoder that makes a block for each code column:
  -- `write` of bytes that end inside the volume succeeds, and `read` of their length at their offset
  -- then gives them. The volume has at least one data partition, blocks of 1 to 2 ^ 32 - 1 bytes, at
  -- most 2 ^ 64 of them in a partition, and less than 2 ^ 64 bytes in all.
  pub read-write-hosts :
      (encode : Encode) (decode : Decode) (bytes : Bytes) (offset : ℕ) (s : Column → Partition)
      → IsHealthy disk
      → v.block_count ≤ 2 ^ 64
      → v.block_size < 2 ^ 32
      → 0 < v.block_size
      → 0 < v.data_count
      → v.block_count * v.data_count * v.block_size < 2 ^ 64
      → offset + length bytes ≤ v.block_count * v.data_count * v.block_size
      → ((col : Column) → col < columns v → v.present col ≡ true)
      → ((blocks : List Bytes)
          → (codes : List Bytes) × (encode v.block_size v.data_count v.code_count blocks
              ≡ some codes)
            × (length codes ≡ v.code_count)
            × All (λ code. length code ≡ v.block_size) codes)
      → AreReady s
      → let b = hosts disk encode decode in
        ((write b v bytes offset s).0 ≡ true)
        × ((read b v (length bytes) offset (write b v bytes offset s).1).0 ≡ some bytes)
  unfolding hosts-IsReliable
  read-write-hosts encode decode bytes offset s healthy few short pos d small h present encodes
        ready =
      read-write (hosts-IsReliable encode decode healthy few short pos present encodes) bytes offset
        s d small h ready
