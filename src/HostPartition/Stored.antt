-- ===== src/HostPartition/Stored.antt =====
-- What the directory of a partition holds after a write, as the next request opens it
-- (src/bdhost/Partition.cpp).
use drive.BitSet.{get}
use drive.BitSet.Laws.{new_bit_set-IsValid}
use drive.HostPartition.{
  Partition, Disk, open_partition, reopen, overlay, put_file, read_from, write_to, write_block,
  flush_map,
}
use drive.BitSet.{new_bit_set}
use drive.HostPartition.Blocks.{IsSound, block}
use drive.HostPartition.MapFile.{get-read_from, read_from-IsValid}
use drive.HostPartition.Writes.{ready}
use drive.HostPartition.Zeroed.{shown_zeros-IsSound, shown_zeros, zeroed}
use drive.Prelude.{
  ℕ, ◌+◌, ◌≤◌, ◌<◌, ◌≡◌, sym, ap, ◌∙◌, Bool, subst, true, some, length, Option-cases, inl, inr,
}
use drive.Prelude.Texts.{Bytes}

-- A disk on which opening and making files succeeds.
pub record IsHealthy (disk : Disk) : Type 0 where
  pub creates : disk.creates ≡ true
  pub flushes : disk.flushes ≡ true
  pub opens : disk.opens ≡ true
  pub stale : length disk.stale ≡ 8

module _ (disk : Disk) (healthy : IsHealthy disk) where
  -- The map is the one that opening the partition anew finds.
  abbrev pub IsStored : Partition → Type 0
  IsStored p = (j : ℕ) → get (reopen disk p).map j ≡ get p.map j

  pub reopen-IsStored : (p : Partition) → IsStored (reopen disk p)
  unfolding open_partition read_from new_bit_set
  reopen-IsStored p j = elim (Option-cases p.map_file) [
    | inl e ↦ simp (healthy.opens, e)
    | inr (file, e) ↦ simp (healthy.opens, e)
  ]

  pub reopen-IsSound : (p : Partition) → IsSound p → IsStored p → IsSound (reopen disk p)
  unfolding open_partition read_from new_bit_set
  reopen-IsSound p s stored = elim (Option-cases p.map_file) [
    | inl e ↦ record {
      mapped = rw (healthy.opens, e);
      words = rw (healthy.opens, e) (new_bit_set-IsValid p.block_count p.map.trash_bits);
      narrow = s.narrow;
      filled = λ i shown. s.filled i (sym (stored i) ∙ shown);
      sized = s.sized;
    }
    | inr (file, e) ↦ record {
      mapped = rw (healthy.opens, e);
      words =
          rw (healthy.opens, e)
            (read_from-IsValid disk.stale file (new_bit_set p.block_count p.map.trash_bits)
              (new_bit_set-IsValid p.block_count p.map.trash_bits));
      narrow = s.narrow;
      filled = λ i shown. s.filled i (sym (stored i) ∙ shown);
      sized = s.sized;
    }
  ]

  pub block-reopen : (p : Partition) (j : ℕ) → IsStored p → block (reopen disk p) j ≡ block p j
  unfolding open_partition
  block-reopen p j stored = rw (stored j)

  keep-IsStored : (p q : Partition) → p ≡ q → IsStored q → IsStored p
  keep-IsStored p q e stored = subst IsStored (sym e) stored

  -- After `FlushMap` the map is stored.
  flushed-IsStored :
      (p : Partition) → IsSound p → IsStored (record p { map_file = some (write_to p.map) })
  unfolding open_partition
  flushed-IsStored p s j =
      rw (healthy.opens, sym s.mapped)
        (get-read_from disk.stale p.map p.map.trash_bits j s.words healthy.stale)

  flush_map-IsStored : (p : Partition) → IsSound p → IsStored (flush_map disk p)
  unfolding flush_map
  flush_map-IsStored p s =
      keep-IsStored (flush_map disk p) (record p { map_file = some (write_to p.map) })
        (rw healthy.flushes) (flushed-IsStored p s)

  pub write_block-IsStored :
      (i offset : ℕ) (bytes : Bytes) (p : Partition)
      → IsSound p
      → IsStored p
      → i < p.block_count
      → offset + length bytes ≤ p.block_size
      → IsStored (write_block disk i bytes offset p).1
  unfolding open_partition
  write_block-IsStored i offset bytes p s stored h k =
      let (q, r, kind, wrote) = ready disk i offset bytes p s healthy.creates h k in
      keep-IsStored (write_block disk i bytes offset p).1
        (put_file i (overlay offset bytes (block p i)) q) (ap (λ (t : Bool × Partition). t.1) wrote)
        (elim kind [
          | inl e ↦ keep-IsStored q p e stored
          | inr e ↦
              keep-IsStored q (zeroed disk i p) e
                (flush_map-IsStored (shown_zeros i p) (shown_zeros-IsSound i p s h))
        ])
