-- ===== src/HostPartition/Zeroed.antt =====
-- What `InitBlock` leaves in the blocks of a partition (src/bdhost/Partition.cpp).
use drive.BitSet.{BitSet, get, put}
use drive.BitSet.Laws.{put-IsValid, get-put, refer_inside}
use drive.HostPartition.{Partition, Disk, flush_map, zero_chunks, put_file, init_block}
use drive.HostPartition.Blocks.{IsSound, block, zero_chunks_lem, overlay_all}
use drive.Prelude.{
  ℕ, ◌<◌, ◌≡◌, refl, ◌∙◌, Bool, true, false, some, [], arith, ◌==◌, ==_iff, if◌then◌else◌, length,
  replicate, Bool-cases, Option-cases, inl, inr, length-replicate,
}
use drive.Prelude.Texts.{Bytes}

-- `q` holds what `p` does, and its block `i` has a file.
pub record IsReady (p : Partition) (i : ℕ) (q : Partition) : Type 0 where
  pub sound : IsSound q
  pub shown : get q.map i ≡ true
  pub found : q.files i ≡ some (block p i)
  pub count : q.block_count ≡ p.block_count
  pub size : q.block_size ≡ p.block_size
  pub same : (j : ℕ) → block q j ≡ block p j

pub put_file-IsSound :
    (i : ℕ) (file : Bytes) (p : Partition)
    → IsSound p
    → length file ≡ p.block_size
    → IsSound (put_file i file p)
put_file-IsSound i file p s e = record {
  mapped = s.mapped;
  words = s.words;
  narrow = s.narrow;
  filled = λ j shown. elim (Bool-cases (j == i)) [
    | inl e' ↦ rw e' (file, refl)
    | inr e' ↦ rw e' (s.filled j shown)
  ];
  sized = λ j file' found. elim (Bool-cases (j == i)) [
    | inl e' ↦ ground arith
    | inr e' ↦ ground (arith, s.sized j file')
  ];
}

pub block-put_file :
    (i j : ℕ) (file : Bytes) (p : Partition)
    → get p.map i ≡ true
    → block (put_file i file p) j ≡ (if j == i then file else block p j)
block-put_file i j file p shown = elim (Bool-cases (j == i)) [
  | inl e ↦ rw (e, (==_iff j i).0 e, shown)
  | inr e ↦ rw e
]

-- The state after a block is filled with zeros.
abbrev pub zeroed : Disk → ℕ → Partition → Partition
zeroed disk i p =
    flush_map disk (record (put_file i (replicate p.block_size 0) p) { map = put p.map i true })

put_size : (s : BitSet) (i : ℕ) (value : Bool) → (put s i value).size ≡ s.size
unfolding put
put_size s i value = ground arith

-- The same before `.partmap` is written.
abbrev pub shown_zeros : ℕ → Partition → Partition
shown_zeros i p = record (put_file i (replicate p.block_size 0) p) { map = put p.map i true }

module _ (i : ℕ) (p : Partition) (s : IsSound p) (h : i < p.block_count) where
  get_shown : (j : ℕ) → get (put p.map i true) j ≡ (if i == j then true else get p.map j)
  get_shown j = get-put p.map i j true s.words (rw s.mapped h)

  pub shown_zeros-IsSound : IsSound (shown_zeros i p)
  shown_zeros-IsSound = record {
    mapped = put_size p.map i true ∙ s.mapped;
    words = put-IsValid p.map i true s.words;
    narrow = s.narrow;
    filled = λ j shown. elim (Bool-cases (j == i)) [
      | inl e ↦ rw e (replicate p.block_size 0, refl)
      | inr e ↦ rw e (s.filled j (ground (arith, get_shown j)))
    ];
    sized = λ j file found. elim (Bool-cases (j == i)) [
      | inl e ↦ ground (arith, length-replicate {A = ℕ} p.block_size 0)
      | inr e ↦ ground (arith, s.sized j file)
    ];
  }

  pub shown_zeros-IsReady : get p.map i ≡ false → IsReady p i (shown_zeros i p)
  shown_zeros-IsReady hidden = record {
    sound = shown_zeros-IsSound;
    shown = ground (arith, get_shown i);
    found = rw (hidden, (==_iff i i).1 refl);
    count = refl;
    size = refl;
    same = λ j. elim (Bool-cases (j == i)) [
      | inl e ↦ rw ((==_iff j i).0 e, get_shown i, (==_iff i i).1 refl, hidden)
      | inr e ↦ let other : (i == j) ≡ false = ground arith in rw (get_shown j, other, e)
    ];
  }

pub zeroed-IsReady :
    (disk : Disk) (i : ℕ) (p : Partition)
    → IsReady p i (shown_zeros i p)
    → IsReady p i (zeroed disk i p)
unfolding flush_map
zeroed-IsReady disk i p r = elim (Bool-cases disk.flushes) [
  | inl e ↦ rw e (record {
    sound = record {
      mapped = r.sound.mapped;
      words = r.sound.words;
      narrow = r.sound.narrow;
      filled = r.sound.filled;
      sized = r.sound.sized;
    };
    shown = r.shown;
    found = r.found;
    count = r.count;
    size = r.size;
    same = r.same;
  })
  | inr e ↦ rw e r
]

pub init_block_lem :
    (disk : Disk) (i : ℕ) (p : Partition)
    → IsSound p
    → disk.creates ≡ true
    → i < p.block_count
    → init_block disk i p ≡ (true, zeroed disk i p)
unfolding init_block flush_map
init_block_lem disk i p s c h =
    let assigned = (refer_inside p.map i true (rw s.mapped h)).2 in
    let zeros : zero_chunks p.block_size p.block_size ≡ replicate p.block_size 0 =
      zero_chunks_lem p.block_size p.block_size (ground arith) in
    elim (Option-cases (p.files i)) [
      | inl e ↦ rw (
        e,
        init_block,
        c,
        assigned,
        zeros,
        overlay_all (replicate p.block_size 0) [] (omega arith),
      )
      | inr (file, e) ↦ rw (
        e,
        init_block,
        assigned,
        zeros,
        overlay_all (replicate p.block_size 0) file
            (omega (arith, s.sized i file e, length-replicate {A = ℕ} p.block_size 0)),
      )
    ]
