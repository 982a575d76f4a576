-- ===== src/Tests/Disks.antt =====
-- A partition of 70 blocks of 8 bytes (src/bdhost/Partition.cpp).
use drive.BitSet.{BitSet, new_bit_set, get, put, refer, to_bool}
use drive.BitSet.Bits.{get_bit}
use drive.BitSet.Laws.{put-IsValid, new_bit_set-IsValid, get-new_bit_set}
use drive.HostPartition.{
  Partition, Disk, read_from, write_to, open_partition, reopen, overlay, read_block, write_block,
  on_read_block, on_write_block, bytes_read, size_written,
}
use drive.HostPartition.Stored.{IsHealthy}
use drive.HostPartition.Blocks.{IsSound, block}
use drive.HostPartition.MapFile.{get-read_from}
use drive.HostPartition.Writes.{write_block_lem}
use drive.HostPartition.Requests.{on_read_block-on_write_block, read_block_past_end}
use drive.Prelude.{
  ◌≡◌, refl, true, false, none, some, [], ◌∷◌, arith, ◌==◌, if◌then◌else◌, replicate,
}

abbrev disk : Disk
disk = record { creates = true; flushes = true; opens = true; stale = replicate 8 0 }

disk-IsHealthy : IsHealthy disk
disk-IsHealthy = record { creates = refl; flushes = refl; opens = refl; stale = refl }

abbrev partition : Partition
partition = record {
  block_count = 70;
  block_size = 8;
  map = new_bit_set 70 0;
  files = λ _. none;
  map_file = none;
}

partition-IsSound : IsSound partition
unfolding new_bit_set
partition-IsSound = record {
  mapped = refl;
  words = new_bit_set-IsValid 70 0;
  narrow = ground arith;
  filled = λ i shown. cc (get-new_bit_set 70 0 i);
  sized = λ i file found. cc;
}

opened-IsSound : IsSound (reopen disk partition)
unfolding open_partition new_bit_set
opened-IsSound = partition-IsSound

write_block_example :
    let (success, p') = write_block disk 69 (3 ∷ 4 ∷ []) 6 partition in
    (success ≡ true)
    × IsSound p'
    × (p'.block_count ≡ 70)
    × (p'.block_size ≡ 8)
    × (block p' 68
        ≡ (if 68 == 69 then overlay 6 (3 ∷ 4 ∷ []) (block partition 69) else block partition 68))
write_block_example =
    write_block_lem disk 69 6 68 (3 ∷ 4 ∷ []) partition partition-IsSound refl (ground arith)
      (ground arith)

on_read_block-on_write_block_example :
    let (answer, p') = on_write_block disk 69 6 (some (3 ∷ 4 ∷ [])) partition in
    (answer ≡ size_written 2) × (on_read_block disk 69 6 2 p' ≡ bytes_read (3 ∷ 4 ∷ []))
on_read_block-on_write_block_example =
    on_read_block-on_write_block disk 69 6 (3 ∷ 4 ∷ []) partition opened-IsSound disk-IsHealthy
      (ground arith) (ground arith) (ground arith) (ground arith) (ground arith)

shared_word_clear : to_bool partition.map (refer partition.map 70) ≡ false
unfolding to_bool refer new_bit_set get_bit
shared_word_clear = refl

read_block_past_end_example : read_block 70 (1 ∷ 2 ∷ []) 2 5 partition ≡ (true, replicate 2 0)
read_block_past_end_example =
    read_block_past_end 2 5 (1 ∷ 2 ∷ []) partition partition-IsSound (ground arith)
      shared_word_clear

abbrev last_bit : BitSet
last_bit = put (new_bit_set 70 0) 69 true

get-read_from_example :
    get (read_from (replicate 8 9) (write_to last_bit) (new_bit_set last_bit.size 5)) 69
    ≡ get last_bit 69
get-read_from_example =
    get-read_from (replicate 8 9) last_bit 5 69
      (put-IsValid (new_bit_set 70 0) 69 true (new_bit_set-IsValid 70 0)) refl
