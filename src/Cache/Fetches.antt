-- ===== src/Cache/Fetches.antt =====
-- The block that `ReadImpl` of src/bdfsclient-lib/Cache.cpp reads, and what the files hold then.
use drive.Cache.Blocks.{stored}
use drive.Cache.Cells.{Cells, cell_at, put_cell, cell_at-put_cell, AreCells, put_cell-AreCells}
use drive.Cache.Coherence.{IsHonest, IsSound, IsCoherent, view_lem, shown, Keeps}
use drive.Cache.Files.{read_file_block}
use drive.Cache.Steps.{Cache, put_file}
use drive.Prelude.{
  ◌<◌, ◌≡◌, sym, ap, ◌∙◌, ◌&&◌, Option, none, some, inl, inr, ◌==◌, ==_iff, if◌then◌else◌, length,
  arith, Bool-cases,
}
use drive.Prelude.Texts.{Bytes}
use drive.Volume.{Volume, Backend, Row, Column, columns}

-- The cells after those of one row have become others.
abbrev pub with_cells : Row → Cells → (Row → Cells) → Row → Cells
with_cells row held cells r = if row == r then held else cells r

pub refiled :
    (row : Row) (held : Cells) (files : Row → Option Bytes) (cells : Row → Cells)
    → ((r : Row) → files r ≡ stored (cells r))
    → (r : Row) → put_file row (stored held) files r ≡ stored (with_cells row held cells r)
refiled row held files cells kept r = elim (Bool-cases (row == r)) [
  | inl same ↦ rw same
  | inr other ↦ rw other (kept r)
]

-- What holds of the cells of each row holds after a change of one row.
pub with_cells_all {κ} :
    (P : Row → Cells → Type κ) (row : Row) (held : Cells) (cells : Row → Cells)
    → P row held
    → ((r : Row) → P r (cells r))
    → (r : Row) → P r (with_cells row held cells r)
with_cells_all P row held cells h all r = elim (Bool-cases (row == r)) [
  | inl same ↦ let equal : row ≡ r = (==_iff row r).0 same in rw (same, ← equal) h
  | inr other ↦ rw other (all r)
]

pub cell_at-with_cells :
    (row : Row) (col : Column) (block : Bytes) (cells : Row → Cells) (r : Row) (k : Column)
    → cell_at k (with_cells row (put_cell col block (cells row)) cells r)
      ≡ (if row == r && col == k then some block else cell_at k (cells r))
cell_at-with_cells row col block cells r k = elim (Bool-cases (row == r)) [
  | inl same ↦
      let equal : row ≡ r = (==_iff row r).0 same in
      rw (same, cell_at-put_cell col k block (cells row), equal)
  | inr other ↦ rw other
]

module _ {b : Backend} {v : Volume} (H : IsHonest b v) where
  open H use {content}

  pub put_cell-placed :
      (row : Row) (col : Column) (block : Bytes) (held : Cells)
      → row < v.block_count
      → col < columns v
      → ((k : Column) (x : Bytes)
          → cell_at k held ≡ some x
          → (row < v.block_count) × (k < columns v))
      → (k : Column) (x : Bytes) → cell_at k (put_cell col block held) ≡ some x
      → (row < v.block_count) × (k < columns v)
  put_cell-placed row col block held n l p k x e = elim (Bool-cases (col == k)) [
    | inl same ↦ (n, omega (arith, (==_iff col k).0 same))
    | inr other ↦ p k x (rw (cell_at-put_cell col k block held, other) at e)
  ]

  -- The volume was read and is as before.
  pub reread-IsSound :
      (c : Cache b.State) (cells : Row → Cells) (s' : b.State)
      → IsSound H c cells
      → H.IsGood s'
      → ((r : Row) (k : Column) → content s' r k ≡ content c.volume r k)
      → IsSound H (record c { volume = s' }) cells
  reread-IsSound c cells s' s g same = record {
    good = g;
    kept = s.kept;
    sized = s.sized;
    placed = s.placed;
    clean = λ r k x e d. same r k ∙ s.clean r k x e d;
  }

  pub reread-Keeps :
      (c : Cache b.State) (s' : b.State)
      → IsCoherent H c
      → H.IsGood s'
      → ((r : Row) (k : Column) → content s' r k ≡ content c.volume r k)
      → Keeps H c (record c { volume = s' })
  reread-Keeps c s' i g same = record {
    coherent = record { cells = i.cells; sound = reread-IsSound c i.cells s' i.sound g same };
    same =
        λ r k. ap (λ (x : Bytes). shown x (read_file_block v.block_size (c.files r) k)) (same r k);
  }

  -- A block of the volume has come into the file of its row.
  module _ (row : Row) (col : Column) (block : Bytes) (c : Cache b.State) (i : IsCoherent H c)
      (n : row < v.block_count) (l : col < columns v) (sized : length block ≡ v.block_size)
      (e : content c.volume row col ≡ block) where
    loaded : Cache b.State
    loaded = record c { files = put_file row (stored (put_cell col block (i.cells row))) c.files }

    loaded-IsSound : IsSound H loaded (with_cells row (put_cell col block (i.cells row)) i.cells)
    unfolding loaded
    loaded-IsSound =
        let s = i.sound in
        let held = put_cell col block (i.cells row) in
        record {
          good = s.good;
          kept = refiled row held c.files i.cells s.kept;
          sized =
              with_cells_all (λ r t. AreCells v.block_size t) row held i.cells
                (put_cell-AreCells v.block_size col block (i.cells row)
                  (omega (arith, H.few_columns)) sized (s.sized row))
                s.sized;
          placed =
              with_cells_all
                (λ r t.
                  (k : Column) (x : Bytes)
                  → cell_at k t ≡ some x
                  → (r < v.block_count) × (k < columns v))
                row held i.cells (put_cell-placed row col block (i.cells row) n l (s.placed row))
                s.placed;
          clean = λ r k x here d. elim (Bool-cases (row == r && col == k)) [
            | inl hit ↦
                let mine : block ≡ x =
                  ground (arith, rw (cell_at-with_cells row col block i.cells r k, hit) at here) in
                let row_eq : row ≡ r = ground arith in
                let col_eq : col ≡ k = ground arith in rw (← row_eq, ← col_eq) (e ∙ mine)
            | inr miss ↦
                s.clean r k x (rw (cell_at-with_cells row col block i.cells r k, miss) at here) d
          ];
        }

    pub loaded-Keeps :
        cell_at col (i.cells row) ≡ none
        → Keeps H c
            (record c { files = put_file row (stored (put_cell col block (i.cells row))) c.files })
    unfolding loaded
    loaded-Keeps absent = record {
      coherent = record {
        cells = with_cells row (put_cell col block (i.cells row)) i.cells;
        sound = loaded-IsSound;
      };
      same = λ r k.
          view_lem H loaded _ r k loaded-IsSound
          ∙ elim (Bool-cases (row == r && col == k)) [
            | inl hit ↦
                let row_eq : row ≡ r = ground arith in
                let col_eq : col ≡ k = ground arith in
                rw (cell_at-with_cells row col block i.cells r k, hit, ← row_eq, ← col_eq, absent)
                  (sym e)
            | inr miss ↦ rw (cell_at-with_cells row col block i.cells r k, miss)
          ]
          ∙ sym (view_lem H c i.cells r k i.sound);
    }
