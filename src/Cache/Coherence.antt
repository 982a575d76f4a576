-- ===== src/Cache/Coherence.antt =====
-- What the volume behind the cache promises, the invariant of the cache of
-- src/bdfsclient-lib/Cache.cpp, and the block that a reader of the cache is to see.
use drive.Cache.Blocks.{stored, read_file_block_lem}
use drive.Cache.Cells.{Cells, cell_at, AreCells}
use drive.Cache.Files.{read_file_block}
use drive.Cache.Steps.{Cache, new_cache, find_item, is_dirty}
use drive.Prelude.{
  ◌^◌, ◌≤◌, ◌<◌, ◌≡◌, ◌≢◌, refl, ◌∙◌, true, false, Option, none, some, ◌⊎◌, [], length,
}
use drive.Prelude.Texts.{Bytes}
use drive.Volume.{Volume, Backend, Row, Column, columns, read_direct, write_direct}

-- The volume behind the cache, where calls may fail. A read gives the block or fails, and changes
-- no block; a write that fails may leave anything in its block, but changes no other.
pub record IsHonest (b : Backend) (v : Volume) : Type 1 where
  pub has_bytes : 0 < v.block_size
  pub few_columns : columns v ≤ 2 ^ 64
  pub IsGood : b.State → Type 0
  pub content : b.State → Row → Column → Bytes
  pub length-content :
      (s : b.State) (row : Row) (col : Column)
      → IsGood s
      → row < v.block_count
      → col < columns v
      → length (content s row col) ≡ v.block_size
  pub read_good :
      (row : Row) (col : Column) (s : b.State)
      → IsGood s
      → row < v.block_count
      → col < columns v
      → IsGood (read_direct b row col v.block_size 0 s).1
  pub read_same :
      (row : Row) (col : Column) (s : b.State) (r : Row) (k : Column)
      → IsGood s
      → row < v.block_count
      → col < columns v
      → content (read_direct b row col v.block_size 0 s).1 r k ≡ content s r k
  pub read_content :
      (row : Row) (col : Column) (s : b.State) (block : Bytes)
      → IsGood s
      → row < v.block_count
      → col < columns v
      → (read_direct b row col v.block_size 0 s).0 ≡ some block
      → block ≡ content s row col
  pub write_good :
      (row : Row) (col : Column) (block : Bytes) (s : b.State)
      → IsGood s
      → row < v.block_count
      → col < columns v
      → length block ≡ v.block_size
      → IsGood (write_direct b row col block 0 s).1
  pub write_others :
      (row : Row) (col : Column) (block : Bytes) (s : b.State) (r : Row) (k : Column)
      → IsGood s
      → row < v.block_count
      → col < columns v
      → length block ≡ v.block_size
      → (r ≢ row) ⊎ (k ≢ col)
      → content (write_direct b row col block 0 s).1 r k ≡ content s r k
  pub write_content :
      (row : Row) (col : Column) (block : Bytes) (s : b.State)
      → IsGood s
      → row < v.block_count
      → col < columns v
      → length block ≡ v.block_size
      → (write_direct b row col block 0 s).0 ≡ true
      → content (write_direct b row col block 0 s).1 row col ≡ block

abbrev pub shown : Bytes → Option Bytes → Bytes
shown behind none = behind
shown behind (some block) = block

module _ {b : Backend} {v : Volume} (H : IsHonest b v) where
  open H use {IsGood, content}

  -- The files hold cells of the volume, and those of rows that are not dirty agree with it.
  pub record IsSound (c : Cache b.State) (cells : Row → Cells) : Type 0 where
    pub good : IsGood c.volume
    pub kept : (row : Row) → c.files row ≡ stored (cells row)
    pub sized : (row : Row) → AreCells v.block_size (cells row)
    pub placed :
        (row : Row) (col : Column) (block : Bytes)
        → cell_at col (cells row) ≡ some block
        → (row < v.block_count) × (col < columns v)
    pub clean :
        (row : Row) (col : Column) (block : Bytes)
        → cell_at col (cells row) ≡ some block
        → is_dirty (find_item row c.items) ≡ false
        → content c.volume row col ≡ block

  pub record IsCoherent (c : Cache b.State) : Type 0 where
    pub cells : Row → Cells
    pub sound : IsSound c cells

  -- A new cache, in a folder without files.
  pub new_cache-IsCoherent : (s : b.State) → IsGood s → IsCoherent (new_cache s (λ row. none))
  unfolding cell_at
  new_cache-IsCoherent s g = record {
    cells = λ row. [];
    sound = record {
      good = g;
      kept = λ row. refl;
      sized = λ row. tt;
      placed = λ row col block e. cc;
      clean = λ row col block e d. cc;
    };
  }

  -- What the file of the row has, and else what the volume has.
  abbrev pub view : Cache b.State → Row → Column → Bytes
  view c row col = shown (content c.volume row col) (read_file_block v.block_size (c.files row) col)

  pub view_lem :
      (c : Cache b.State) (cells : Row → Cells) (row : Row) (col : Column)
      → IsSound c cells
      → view c row col ≡ shown (content c.volume row col) (cell_at col (cells row))
  view_lem c cells row col s =
      rw (s.kept row, read_file_block_lem v.block_size H.has_bytes (cells row) col (s.sized row))

  -- A step after which every block reads as before.
  pub record Keeps (c c' : Cache b.State) : Type 0 where
    pub coherent : IsCoherent c'
    pub same : (row : Row) (col : Column) → view c' row col ≡ view c row col

  pub Keeps-refl : (c : Cache b.State) → IsCoherent c → Keeps c c
  Keeps-refl c i = record { coherent = i; same = λ row col. refl }

  pub Keeps-trans : (c d e : Cache b.State) → Keeps c d → Keeps d e → Keeps c e
  Keeps-trans c d e k l = record {
    coherent = l.coherent;
    same = λ row col. l.same row col ∙ k.same row col;
  }
