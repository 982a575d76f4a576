-- ===== src/HostPartition/Blocks.antt =====
-- The blocks of a partition, as src/bdhost/Partition.cpp keeps them in files.
use drive.BitSet.{get}
use drive.BitSet.Laws.{IsValid, refer_inside}
use drive.HostPartition.{Partition, overlay, zero_chunks, is_outside, read_block}
use drive.Prelude.{
  ℕ, zero, suc, ◌+◌, ◌-◌, ◌%◌, ◌^◌, ◌≤◌, ◌<◌, ◌≡◌, ap, ◌∙◌, true, false, none, some, [], ◌∷◌, ◌++◌,
  arith, ltb, if◌then◌else◌, length, take, drop, replicate, Bool-cases, inl, inr, append-nil,
  drop_all, length-append, length-take, length-drop, length-replicate, take-append_length,
  take-append_at, drop-append_at,
}
use native.Mathlib.Nat.{mod-eq_of_lt}
use drive.Prelude.Texts.{Bytes}

-- The map is as long as the partition, each block that it shows has a file, and each file has the
-- size of a block.
pub record IsSound (p : Partition) : Type 0 where
  pub mapped : p.map.size ≡ p.block_count
  pub words : IsValid p.map
  pub narrow : p.block_size < 2 ^ 64
  pub filled : (i : ℕ) → get p.map i ≡ true → (file : Bytes) × (p.files i ≡ some file)
  pub sized : (i : ℕ) (file : Bytes) → p.files i ≡ some file → length file ≡ p.block_size

-- What a block holds: zeros until it is first written.
abbrev pub block : Partition → ℕ → Bytes
block p i =
    if get p.map i
    then elim (p.files i) [ none ↦ [] | some file ↦ file ]
    else replicate p.block_size 0

pub zeros_eq : (n m : ℕ) → n ≡ m → replicate {A = ℕ} n 0 ≡ replicate m 0
zeros_eq n m e = ap (λ (k : ℕ). replicate {A = ℕ} k 0) e

pub replicate_split : (n m : ℕ) → replicate {A = ℕ} n 0 ++ replicate m 0 ≡ replicate (n + m) 0
replicate_split zero m = zeros_eq m (0 + m) (omega arith)
replicate_split (suc n) m =
    ap (λ (t : Bytes). 0 ∷ t) (replicate_split n m)
    ∙ zeros_eq (suc (n + m)) (suc n + m) (omega arith)

pub zero_chunks_lem :
    (fuel remaining : ℕ) → remaining ≤ fuel → zero_chunks fuel remaining ≡ replicate remaining 0
unfolding zero_chunks
zero_chunks_lem zero remaining h = zeros_eq (0) (remaining) (omega arith)
zero_chunks_lem (suc fuel) remaining h = elim (Bool-cases (ltb 0 remaining)) [
  | inl more ↦ elim (Bool-cases (ltb 4096 remaining)) [
    | inl whole ↦
        rw
          (
            more,
            whole,
            zero_chunks_lem fuel (remaining - 4096) (ground arith),
            replicate_split 4096 (remaining - 4096),
          )
          (zeros_eq (4096 + (remaining - 4096)) (remaining) (ground arith))
    | inr part ↦
        rw
          (
            more,
            part,
            zero_chunks_lem fuel (remaining - remaining) (ground arith),
            replicate_split remaining (remaining - remaining),
          )
          (zeros_eq (remaining + (remaining - remaining)) (remaining) (omega arith))
  ]
  | inr done ↦ rw done (zeros_eq (0) (remaining) (ground arith))
]

pub length-overlay :
    (offset : ℕ) (bytes file : Bytes)
    → offset + length bytes ≤ length file
    → length (overlay offset bytes file) ≡ length file
unfolding overlay
length-overlay offset bytes file h =
    rw
      (
        length-append (take offset file)
            (replicate (offset - length file) 0 ++ (bytes ++ drop (offset + length bytes) file)),
        length-append (replicate {A = ℕ} (offset - length file) 0)
            (bytes ++ drop (offset + length bytes) file),
        length-append bytes (drop (offset + length bytes) file),
        length-take offset file,
        length-drop (offset + length bytes) file,
        length-replicate {A = ℕ} (offset - length file) 0,
      )
      (omega arith)

-- What was written is what is read at its place.
pub take-drop-overlay :
    (offset : ℕ) (bytes file : Bytes)
    → offset ≤ length file
    → take (length bytes) (drop offset (overlay offset bytes file)) ≡ bytes
unfolding overlay
take-drop-overlay offset bytes file h =
    let whole : length (take offset file) ≡ offset = omega (arith, length-take offset file) in
    let none_missing : replicate {A = ℕ} (offset - length file) 0 ≡ [] =
      zeros_eq (offset - length file) (0) (omega arith) in
    rw (
      none_missing,
      drop-append_at offset (take offset file) (bytes ++ drop (offset + length bytes) file) whole,
      take-append_length bytes (drop (offset + length bytes) file),
    )

pub overlay_all : (bytes file : Bytes) → length file ≤ length bytes → overlay 0 bytes file ≡ bytes
unfolding overlay
overlay_all bytes file h =
    let no_gap = zeros_eq (0 - length file) 0 (omega arith) in
    rw (no_gap, drop_all (0 + length bytes) file (omega arith), append-nil)

take-drop-zeros :
    (size offset n : ℕ)
    → offset + size ≤ n
    → take size (drop offset (replicate {A = ℕ} n 0)) ≡ replicate size 0
take-drop-zeros size offset n h =
    let parts : replicate {A = ℕ} n 0
        ≡ replicate offset 0 ++ (replicate size 0 ++ replicate (n - offset - size) 0) =
      rw
        (
          replicate_split size (n - offset - size),
          replicate_split offset (size + (n - offset - size)),
        )
        (zeros_eq n (offset + (size + (n - offset - size))) (omega arith)) in
    rw (
      parts,
      drop-append_at offset (replicate offset 0)
          (replicate size 0 ++ replicate (n - offset - size) 0) (length-replicate {A = ℕ} offset 0),
      take-append_at size (replicate size 0) (replicate (n - offset - size) 0)
          (length-replicate {A = ℕ} size 0),
    )

pub inside_false :
    (i size offset : ℕ) (p : Partition)
    → i < p.block_count
    → p.block_size < 2 ^ 64
    → offset + size ≤ p.block_size
    → is_outside i size offset p ≡ false
inside_false i size offset p h narrow k =
    let small : (offset + size) % 2 ^ 64 ≡ offset + size = mod-eq_of_lt (ground arith) in
    rw small (ground arith)

-- On a sound partition a read inside a block gives the part asked for of what the block holds.
pub read_block_lem :
    (i size offset : ℕ) (buffer : Bytes) (p : Partition)
    → IsSound p
    → i < p.block_count
    → offset + size ≤ p.block_size
    → length buffer ≡ size
    → read_block i buffer size offset p ≡ (true, take size (drop offset (block p i)))
unfolding read_block
read_block_lem i size offset buffer p s h k e =
    let seen = (refer_inside p.map i true (rw s.mapped h)).0 in
    elim (Bool-cases (get p.map i)) [
      | inl shown ↦
          let (file, found) = s.filled i shown in
          let got : length (take size (drop offset file)) ≡ size = omega (
            arith,
            length-take size (drop offset file),
            length-drop offset file,
            s.sized i file found,
          ) in
          rw (
            inside_false i size offset p h s.narrow k,
            seen,
            shown,
            found,
            got,
            drop_all size buffer (omega arith),
            append-nil,
          )
      | inr hidden ↦ rw (
        inside_false i size offset p h s.narrow k,
        seen,
        hidden,
        take-drop-zeros size offset p.block_size k,
      )
    ]
