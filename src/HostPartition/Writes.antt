-- ===== src/HostPartition/Writes.antt =====
-- What a write leaves in the blocks of a partition (src/bdhost/Partition.cpp).
use drive.BitSet.{get}
use drive.BitSet.Laws.{refer_inside}
use drive.HostPartition.{Partition, Disk, overlay, put_file, write_block}
use drive.HostPartition.Blocks.{IsSound, block, length-overlay, inside_false}
use drive.Prelude.{
  ℕ, ◌+◌, ◌≤◌, ◌<◌, ◌≡◌, ◌⊎◌, refl, sym, ◌∙◌, true, arith, ◌==◌, if◌then◌else◌, length, Bool-cases,
  inl, inr, length-replicate,
}
use drive.Prelude.Texts.{Bytes}
use drive.HostPartition.Zeroed.{
  IsReady, put_file-IsSound, block-put_file, zeroed, shown_zeros-IsReady, zeroed-IsReady,
  init_block_lem,
}

-- A write goes to the file of a partition that holds the same blocks.
pub ready :
    (disk : Disk) (i offset : ℕ) (bytes : Bytes) (p : Partition)
    → IsSound p
    → disk.creates ≡ true
    → i < p.block_count
    → offset + length bytes ≤ p.block_size
    → (q : Partition) × IsReady p i q
      × ((q ≡ p) ⊎ (q ≡ zeroed disk i p))
      × (write_block disk i bytes offset p
          ≡ (true, put_file i (overlay offset bytes (block p i)) q))
unfolding write_block
ready disk i offset bytes p s c h k =
    let seen = (refer_inside p.map i true (rw s.mapped h)).0 in
    let inside = inside_false i (length bytes) offset p h s.narrow k in
    elim (Bool-cases (get p.map i)) [
      | inl shown ↦
          let (file, found) = s.filled i shown in
          (
            p,
            record {
              sound = s;
              shown = shown;
              found = rw (shown, found);
              count = refl;
              size = refl;
              same = λ j. refl;
            },
            inl refl,
            rw (seen, shown, inside, found, seen, shown),
          )
      | inr hidden ↦
          let r = zeroed-IsReady disk i p (shown_zeros-IsReady i p s h hidden) in
          (
            zeroed disk i p,
            r,
            inr refl,
            rw (
              seen,
              hidden,
              inside,
              init_block_lem disk i p s c h,
              r.found,
              seen,
              hidden,
              init_block_lem disk i p s c h,
            ),
          )
    ]

pub length-block : (p : Partition) (i : ℕ) → IsSound p → length (block p i) ≡ p.block_size
length-block p i s = elim (Bool-cases (get p.map i)) [
  | inl shown ↦ let (file, found) = s.filled i shown in rw (shown, found) (s.sized i file found)
  | inr hidden ↦ rw hidden (length-replicate {A = ℕ} p.block_size 0)
]

-- On a sound partition a write inside a block succeeds if new files can be made. It leaves the
-- partition sound, lays the bytes over what the block held, and every other block holds what it did.
pub write_block_lem :
    (disk : Disk) (i offset j : ℕ) (bytes : Bytes) (p : Partition)
    → IsSound p
    → disk.creates ≡ true
    → i < p.block_count
    → offset + length bytes ≤ p.block_size
    → let (success, p') = write_block disk i bytes offset p in
      (success ≡ true)
      × IsSound p'
      × (p'.block_count ≡ p.block_count)
      × (p'.block_size ≡ p.block_size)
      × (block p' j ≡ (if j == i then overlay offset bytes (block p i) else block p j))
write_block_lem disk i offset j bytes p s c h k =
    let (q, r, kind, wrote) = ready disk i offset bytes p s c h k in
    let file = overlay offset bytes (block p i) in
    rw wrote (
      refl,
      put_file-IsSound i file q r.sound (
          length-overlay offset bytes (block p i) (omega (arith, length-block p i s))
          ∙ length-block p i s
          ∙ sym r.size),
      r.count,
      r.size,
      block-put_file i j file q r.shown ∙ rw (r.same j),
    )
