-- ===== src/HostPartition/Requests.antt =====
-- The block requests of src/bdhost/PartitionHandler.cpp on the blocks of a partition.
use drive.BitSet.{refer, to_bool}
use drive.HostPartition.{
  is_outside, Partition, Disk, Answer, open_partition, reopen, bytes_read, size_written, overlay,
  read_block, write_block, on_read_block, on_write_block,
}
use drive.HostPartition.Blocks.{IsSound, block, read_block_lem, take-drop-overlay}
use drive.HostPartition.Stored.{
  IsHealthy, reopen-IsStored, reopen-IsSound, block-reopen, write_block-IsStored,
}
use drive.HostPartition.Writes.{write_block_lem, length-block}
use drive.Prelude.{
  ℕ, ◌+◌, ◌-◌, ◌%◌, ◌^◌, ◌≤◌, ◌<◌, ◌≡◌, refl, sym, subst, ap, if◌then◌else◌, true, false, some,
  arith, ◌==◌, ==_iff, leb, ltb, ◌||◌, length, take, drop, replicate, length-replicate, ◌∙◌,
}
use drive.Prelude.Texts.{Bytes}
use native.Mathlib.Nat.{mod-eq_of_lt}

module _ (disk : Disk) (p : Partition) (s : IsSound (reopen disk p)) where
  pub read_inside :
      (i offset size : ℕ)
      → i < p.block_count
      → offset < p.block_size
      → offset + size ≤ p.block_size
      → offset < 2 ^ 32
      → size < 2 ^ 32
      → on_read_block disk i offset size p
        ≡ bytes_read (take size (drop offset (block (reopen disk p) i)))
  unfolding on_read_block open_partition
  read_inside i offset size h o k small short =
      let guard : (leb p.block_count i
            || (leb p.block_size offset || ltb (p.block_size - offset) size))
          ≡ false =
        ground arith in
      let zeros : Bytes = replicate size 0 in
      rw (
        mod-eq_of_lt small,
        mod-eq_of_lt short,
        guard,
        read_block_lem i size offset zeros (reopen disk p) s h k (length-replicate {A = ℕ} size 0),
      )

  write_inside :
      (i offset : ℕ) (bytes : Bytes)
      → disk.creates ≡ true
      → i < p.block_count
      → 0 < length bytes
      → offset + length bytes ≤ p.block_size
      → offset < 2 ^ 32
      → on_write_block disk i offset (some bytes) p
        ≡ (size_written (length bytes), (write_block disk i bytes offset (reopen disk p)).1)
  unfolding on_write_block open_partition
  write_inside i offset bytes c h pos k small =
      let guard : (leb p.block_count i || (leb p.block_size offset || length bytes == 0)) ≡ false =
        ground arith in
      let success = (write_block_lem disk i offset i bytes (reopen disk p) s c h k).0 in
      rw (mod-eq_of_lt small, guard, success)

  -- The answer to a write request, and the block `j` that the next request then finds.
  abbrev pub IsWritten : ℕ → ℕ → ℕ → Bytes → Answer × Partition → Type 0
  IsWritten i offset j bytes r =
      (r.0 ≡ size_written (length bytes))
      × IsSound (reopen disk r.1)
      × (r.1.block_count ≡ p.block_count)
      × (r.1.block_size ≡ p.block_size)
      × (block (reopen disk r.1) j ≡ (
          if j == i
          then overlay offset bytes (block (reopen disk p) i)
          else block (reopen disk p) j))

  -- A write request inside a block, and what the next request finds.
  pub on_write_block_lem :
      (i offset j : ℕ) (bytes : Bytes)
      → IsHealthy disk
      → i < p.block_count
      → 0 < length bytes
      → offset + length bytes ≤ p.block_size
      → offset < 2 ^ 32
      → IsWritten i offset j bytes (on_write_block disk i offset (some bytes) p)
  unfolding open_partition
  on_write_block_lem i offset j bytes healthy h pos k small =
      let q = reopen disk p in
      let p' = (write_block disk i bytes offset q).1 in
      let (success, sound, count, size, held) =
        write_block_lem disk i offset j bytes q s healthy.creates h k in
      let stored =
        write_block-IsStored disk healthy i offset bytes q s (reopen-IsStored disk healthy p) h k in
      let written : IsWritten i offset j bytes (size_written (length bytes), p') = (
        refl,
        reopen-IsSound disk healthy p' sound stored,
        count,
        size,
        block-reopen disk healthy p' j stored ∙ held,
      ) in
      subst (IsWritten i offset j bytes)
        (sym (write_inside i offset bytes healthy.creates h pos k small)) written

-- On a partition that is sound when it is opened, on a disk where opening and making files
-- succeeds: a write request inside a block, of at least one byte, answers with the number of
-- bytes, and the read request of the same place, which opens the partition anew, then answers with
-- them. Offset and number of bytes are below 2 ^ 32.
pub on_read_block-on_write_block :
    (disk : Disk) (i offset : ℕ) (bytes : Bytes) (p : Partition)
    → IsSound (reopen disk p)
    → IsHealthy disk
    → i < p.block_count
    → 0 < length bytes
    → offset + length bytes ≤ p.block_size
    → offset < 2 ^ 32
    → length bytes < 2 ^ 32
    → let (answer, p') = on_write_block disk i offset (some bytes) p in
      (answer ≡ size_written (length bytes))
      × (on_read_block disk i offset (length bytes) p' ≡ bytes_read bytes)
unfolding open_partition
on_read_block-on_write_block disk i offset bytes p s healthy h pos k small short =
    let p' = (on_write_block disk i offset (some bytes) p).1 in
    let old = block (reopen disk p) i in
    let (answer, sound, count, size, held) =
      on_write_block_lem disk p s i offset i bytes healthy h pos k small in
    let same : block (reopen disk p') i ≡ overlay offset bytes old =
      held ∙ rw ((==_iff i i).1 refl) in
    let sized : offset ≤ length old = omega (arith, length-block (reopen disk p) i s) in
    (
      answer,
      read_inside disk p' sound i offset (length bytes) (rw count h) (rw size (omega arith))
            (rw size k) small short
          ∙ ap (λ (t : Bytes). bytes_read (take (length bytes) (drop offset t))) same
          ∙ ap bytes_read (take-drop-overlay offset bytes old sized),
    )

-- On a sound partition, while the word that references outside share has the bit clear, a read
-- of the block behind the last, inside the size of a block, is answered with zeros.
pub read_block_past_end :
    (size offset : ℕ) (buffer : Bytes) (p : Partition)
    → IsSound p
    → offset + size ≤ p.block_size
    → to_bool p.map (refer p.map p.block_count) ≡ false
    → read_block p.block_count buffer size offset p ≡ (true, replicate size 0)
unfolding read_block
read_block_past_end size offset buffer p s k clear =
    let small : (offset + size) % 2 ^ 64 ≡ offset + size = mod-eq_of_lt (omega (arith, s.narrow)) in
    let inside : is_outside p.block_count size offset p ≡ false = rw small (ground arith) in
    rw (inside, clear)
