-- ===== src/Tests/Volumes.antt =====
-- A volume of two rows over two data partitions and a code partition of hosts.
use drive.BitSet.{new_bit_set}
use drive.BitSet.Laws.{new_bit_set-IsValid, get-new_bit_set}
use drive.HostPartition.{Partition, Disk, open_partition, reopen}
use drive.HostPartition.Stored.{IsHealthy}
use drive.HostPartition.Blocks.{IsSound}
use drive.Prelude.{ℕ, ◌≡◌, refl, true, Option, none, some, List, [], ◌∷◌, arith, replicate}
use drive.Prelude.Texts.{Bytes}
use drive.Volume.{Volume}
use drive.Volume.Cells.{IsReliable}
use drive.Volume.Hosts.{hosts, hosts-IsReliable, AreReady, read-write-hosts}
use drive.Volume.Reads.{read-write}
use drive.Volume.Requests.{read, write}

abbrev pub disk : Disk
disk = record { creates = true; flushes = true; opens = true; stale = replicate 8 0 }

disk-IsHealthy : IsHealthy disk
disk-IsHealthy = record { creates = refl; flushes = refl; opens = refl; stale = refl }

abbrev pub volume : Volume
volume = record {
  block_count = 2;
  data_count = 2;
  code_count = 1;
  block_size = 3;
  present = λ col. true;
}

abbrev pub copy_codes : ℕ → ℕ → ℕ → List Bytes → Option (List Bytes)
copy_codes size data_count code_count blocks = some (replicate code_count (replicate size 7))

abbrev pub no_decode : ℕ → ℕ → ℕ → List (Bytes × ℕ) → Option (List (Bytes × ℕ))
no_decode size data_count code_count blocks = none

abbrev pub partition : Partition
partition = record {
  block_count = 2;
  block_size = 3;
  map = new_bit_set 2 0;
  files = λ i. none;
  map_file = none;
}

partition-IsSound : IsSound partition
unfolding new_bit_set
partition-IsSound = record {
  mapped = refl;
  words = new_bit_set-IsValid 2 0;
  narrow = ground arith;
  filled = λ i shown. cc (get-new_bit_set 2 0 i);
  sized = λ i file found. cc;
}

pub backend-IsReliable : IsReliable (hosts disk copy_codes no_decode) volume
backend-IsReliable =
    hosts-IsReliable disk volume copy_codes no_decode disk-IsHealthy (ground arith) (ground arith)
      (ground arith) (λ col h. refl)
      (λ blocks. (replicate 1 (replicate 3 7), refl, refl, (refl, tt)))

opened-IsSound : IsSound (reopen disk partition)
unfolding open_partition new_bit_set
opened-IsSound = partition-IsSound

ready : AreReady disk volume (λ col. partition)
ready = record {
  sound = λ col h. opened-IsSound;
  count = λ col h. omega arith;
  size = λ col h. refl;
}

pub ready-IsGood : backend-IsReliable.IsGood (λ col. partition)
unfolding backend-IsReliable hosts-IsReliable
ready-IsGood = ready

-- Seven bytes from the second byte on: over three cells of both rows.
abbrev bytes : Bytes
bytes = 1 ∷ 2 ∷ 3 ∷ 4 ∷ 5 ∷ 6 ∷ 7 ∷ []

read-write_example :
    let b = hosts disk copy_codes no_decode in
    ((write b volume bytes 1 (λ col. partition)).0 ≡ true)
    × ((read b volume 7 1 (write b volume bytes 1 (λ col. partition)).1).0 ≡ some bytes)
unfolding hosts-IsReliable backend-IsReliable
read-write_example =
    read-write backend-IsReliable bytes 1 (λ col. partition) (ground arith) (ground arith)
      (ground arith) ready

read-write-hosts_example :
    let b = hosts disk copy_codes no_decode in
    ((write b volume bytes 1 (λ col. partition)).0 ≡ true)
    × ((read b volume 7 1 (write b volume bytes 1 (λ col. partition)).1).0 ≡ some bytes)
read-write-hosts_example =
    read-write-hosts disk volume copy_codes no_decode bytes 1 (λ col. partition) disk-IsHealthy
      (ground arith) (ground arith) (ground arith) (ground arith) (ground arith) (ground arith)
      (λ col h. refl) (λ blocks. (replicate 1 (replicate 3 7), refl, refl, (refl, tt))) ready
