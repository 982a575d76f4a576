-- ===== src/Buffer.antt =====
-- src/bdblob/Buffer.cpp: an array that grows by blocks.
pub mod Growth
use drive.Prelude.{
  ℕ, ◌+◌, ◌-◌, ◌*◌, ◌/◌, ◌%◌, ◌^◌, Bool, true, false, [], ◌∷◌, ◌++◌, leb, if◌then◌else◌, length,
  take,
}
use drive.Prelude.Texts.{Bytes}

-- `BUFSIZ`
abbrev pub block_size : ℕ
block_size = 8192

-- `bytes` is the allocated array; `memsize` is the code's record of its length.
pub record Buffer : Type 0 where
  pub bytes : Bytes
  pub size : ℕ
  pub memsize : ℕ

abbrev pub new_buffer : Buffer
new_buffer = record { bytes = []; size = 0; memsize = 0 }

-- The move, as a constructor or an assignment: the result and what is left of the source.
unfoldable pub move : Buffer → Buffer × Buffer
move b = (b, new_buffer)

-- For a size that is not 0.
abbrev pub round_up : ℕ → ℕ
round_up size = ((size - 1) / block_size + 1) * block_size % 2 ^ 64

-- `granted` says whether `realloc` succeeds, and `fresh` is what stands behind the bytes it keeps.
unfoldable pub resize : Bool → Bytes → ℕ → Buffer → Bool × Buffer
resize granted fresh size b =
    if leb size b.memsize
    then (true, record b { size = size })
    else if granted
    then (
      true,
      record {
        bytes = take (round_up size) (b.bytes ++ fresh);
        size = size;
        memsize = round_up size;
      },
    )
    else (false, b)
