-- ===== src/BlobFile/Laws.antt =====
-- What a file asks of the provider of its blob (src/bdblob/IBlob.h), and the capacity that
-- src/bdblob/File.cpp gives a size.
use drive.BlobFile.{Provider, capacity_of}
use drive.HostPartition.{overlay}
use drive.Prelude.{
  ℕ, suc, ◌+◌, ◌-◌, ◌*◌, ◌/◌, ◌^◌, ◌≤◌, ◌<◌, ◌≡◌, ◌∙◌, some, arith, ◌==◌, if◌then◌else◌, length,
  take, drop,
}
use drive.Prelude.Texts.{Bytes}
use drive.Volume.Layout.{div_mod_unique}
use native.Mathlib.Nat.{div-eq_of_lt, mod-eq_of_lt, mod-lt, div-add-mod', suc-mul}

-- `Shows x s bytes` says that the blob `x` is in order and holds `bytes`. A read then gives the part
-- asked for, as far as the blob reaches. A write from inside the blob is defined, and lays some
-- first part of its bytes over what the blob held; one from outside does nothing.
pub record IsProvider (b : Provider) (Shows : b.Blob → b.Store → Bytes → Type 0) : Type 0 where
  pub size_lem :
      (x : b.Blob) (s : b.Store) (bytes : Bytes) → Shows x s bytes → length bytes ≡ b.size x
  pub read_lem :
      (offset len : ℕ) (x : b.Blob) (s : b.Store) (bytes : Bytes)
      → Shows x s bytes
      → b.read offset len x s ≡ take len (drop offset bytes)
  pub write_lem :
      (offset : ℕ) (new : Bytes) (x : b.Blob) (s : b.Store) (bytes : Bytes)
      → Shows x s bytes
      → offset ≤ b.size x
      → (n : ℕ) × (s' : b.Store) × (b.write offset new x s ≡ some (n, s'))
        × (n ≤ length new)
        × (offset + n ≤ b.size x)
        × Shows x s' (overlay offset (take n new) bytes)
  pub write_outside :
      (offset : ℕ) (new : Bytes) (x : b.Blob) (s : b.Store) (bytes : Bytes)
      → Shows x s bytes
      → b.size x < offset
      → (s' : b.Store) × (b.write offset new x s ≡ some (0, s')) × Shows x s' bytes

-- The last byte of a file of this size, or the first if it has none.
abbrev pub last_of : ℕ → ℕ
last_of size = (if size == 0 then 1 else size) - 1

last_of_lem : (size : ℕ) → last_of size ≡ size - 1
last_of_lem size = ground arith

-- The rounding of the size fits 64 bits.
abbrev pub IsRoundable : ℕ → ℕ → Type 0
IsRoundable block_size size = suc (last_of size / block_size) * block_size < 2 ^ 64

pub capacity_of_lem :
    (block_size size : ℕ)
    → IsRoundable block_size size
    → capacity_of block_size size ≡ suc (last_of size / block_size) * block_size
unfolding capacity_of
capacity_of_lem block_size size h = mod-eq_of_lt (omega (arith, h)) ∙ omega arith

pub capacity_of_ge :
    (block_size size : ℕ)
    → 0 < block_size
    → IsRoundable block_size size
    → size ≤ capacity_of block_size size
capacity_of_ge block_size size p h =
    let parts = div-add-mod' (last_of size) block_size in
    let part = mod-lt (last_of size) p in
    let whole = suc-mul (last_of size / block_size) block_size in
    rw (capacity_of_lem block_size size h) (omega (arith, last_of_lem size))

-- Sizes up to the capacity have the same last block, and the same capacity.
pub last_block_same :
    (block_size size size' : ℕ)
    → 0 < block_size
    → IsRoundable block_size size
    → size ≤ size'
    → size' ≤ capacity_of block_size size
    → last_of size' / block_size ≡ last_of size / block_size
last_block_same block_size size size' p h l u =
    let parts = div-add-mod' (last_of size) block_size in
    let part = mod-lt (last_of size) p in
    let whole = suc-mul (last_of size / block_size) block_size in
    let last = last_of_lem size in
    let last' = last_of_lem size' in
    let top = capacity_of_lem block_size size h in
    (div_mod_unique (last_of size') block_size (last_of size / block_size)
      (last_of size' - last_of size / block_size * block_size) (omega arith) (omega arith)).0

pub capacity_of_same :
    (block_size size size' : ℕ)
    → 0 < block_size
    → IsRoundable block_size size
    → size ≤ size'
    → size' ≤ capacity_of block_size size
    → capacity_of block_size size' ≡ capacity_of block_size size
unfolding capacity_of
capacity_of_same block_size size size' p h l u = rw (last_block_same block_size size size' p h l u)

-- The capacity of nothing is one block.
pub capacity_of_zero :
    (block_size : ℕ) → 0 < block_size → block_size < 2 ^ 64 → capacity_of block_size 0 ≡ block_size
unfolding capacity_of
capacity_of_zero block_size p h =
    let first : 0 / block_size ≡ 0 = div-eq_of_lt p in
    let whole : (0 + 1) * block_size ≡ block_size = omega arith in
    rw (first, whole) (mod-eq_of_lt h)
