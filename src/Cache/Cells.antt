-- ===== src/Cache/Cells.antt =====
-- The files of the cache as lists of cells, and what reading and writing a block does to them.
use drive.Cache.Files.{le_bytes}
use drive.HostPartition.{overlay}
use drive.Prelude.{
  ℕ, zero, suc, ◌+◌, ◌-◌, ◌/◌, ◌^◌, ◌<◌, ◌≡◌, refl, sym, ap, ◌∙◌, false, Option, none, some, ◌⊎◌,
  inl, inr, List, [], ◌∷◌, ◌++◌, ◌==◌, ==_iff, if◌then◌else◌, length, drop, take_all, drop_all,
  arith, Bool-cases, append-nil, append_assoc, length-append, take-append_at, drop-append_at,
}
use drive.Prelude.Texts.{Bytes}
use drive.Stream.Arrays.{from_le}
use drive.Volume.{Column}
use native.Mathlib.Nat.{pow-succ'}

pub length-le_bytes : (k n : ℕ) → length (le_bytes k n) ≡ k
unfolding le_bytes
length-le_bytes zero n = refl
length-le_bytes (suc k) n = ap suc (length-le_bytes k (n / 256))

pub from_le-le_bytes : (k n : ℕ) → n < 256 ^ k → from_le (le_bytes k n) ≡ n
unfolding le_bytes from_le
from_le-le_bytes zero n h = omega arith
from_le-le_bytes (suc k) n h =
    omega (arith, from_le-le_bytes k (n / 256) (omega (arith, pow-succ' 256 k)))

abbrev pub Cells : Type 0
Cells = List (Column × Bytes)

unfoldable pub encode_cells : Cells → Bytes
encode_cells [] = []
encode_cells ((column, block) ∷ cells) = le_bytes 8 column ++ (block ++ encode_cells cells)

unfoldable pub cell_at : Column → Cells → Option Bytes
cell_at column [] = none
cell_at column ((c, block) ∷ cells) = if c == column then some block else cell_at column cells

unfoldable pub put_cell : Column → Bytes → Cells → Cells
put_cell column block [] = (column, block) ∷ []
put_cell column block ((c, old) ∷ cells) =
    if c == column then (column, block) ∷ cells else (c, old) ∷ put_cell column block cells

pub cell_at-put_cell :
    (column k : Column) (block : Bytes) (cells : Cells)
    → cell_at k (put_cell column block cells)
      ≡ (if column == k then some block else cell_at k cells)
unfolding cell_at put_cell
cell_at-put_cell column k block [] = refl
cell_at-put_cell column k block ((c, old) ∷ cells) =
    ground (arith, cell_at-put_cell column k block cells)

-- Writing over as many bytes in the middle of a file, and behind its end.
pub overlay_between :
    (front old new rest : Bytes) (position : ℕ)
    → length front ≡ position
    → length old ≡ length new
    → overlay position new (front ++ (old ++ rest)) ≡ front ++ (new ++ rest)
unfolding overlay
overlay_between front old new rest position e l =
    let short : position - length (front ++ (old ++ rest)) ≡ 0 =
      omega (arith, length-append front (old ++ rest)) in
    let behind : drop (position + length new) (front ++ (old ++ rest)) ≡ rest =
      ap (λ (t : Bytes). drop (position + length new) t) (sym (append_assoc front old rest))
      ∙ drop-append_at (position + length new) (front ++ old) rest
          (omega (arith, length-append front old)) in
    rw (take-append_at position front (old ++ rest) e, short, behind)

pub overlay_end :
    (file new : Bytes) (position : ℕ)
    → length file ≡ position
    → overlay position new file ≡ file ++ new
unfolding overlay
overlay_end file new position e =
    let short : position - length file ≡ 0 = omega arith in
    rw (
      take_all position file (omega arith),
      short,
      drop_all (position + length new) file (omega arith),
      append-nil new,
    )

pub encode-append : (xs ys : Cells) → encode_cells (xs ++ ys) ≡ encode_cells xs ++ encode_cells ys
unfolding encode_cells
encode-append [] ys = refl
encode-append ((c, block) ∷ xs) ys = rw (
  encode-append xs ys,
  append_assoc (le_bytes 8 c) (block ++ encode_cells xs) (encode_cells ys),
  append_assoc block (encode_cells xs) (encode_cells ys),
)

put_cell_before :
    (column : Column) (block : Bytes) (before after : Cells)
    → cell_at column before ≡ none
    → put_cell column block (before ++ after) ≡ before ++ put_cell column block after
unfolding put_cell cell_at
put_cell_before column block [] after e = refl
put_cell_before column block ((c, old) ∷ before) after e =
    let other : (c == column) ≡ false = ground arith in
    rw (other, put_cell_before column block before after (rw other at e))

cell_at_before :
    (column : Column) (before after : Cells)
    → cell_at column before ≡ none
    → cell_at column (before ++ after) ≡ cell_at column after
unfolding cell_at
cell_at_before column [] after e = refl
cell_at_before column ((c, old) ∷ before) after e =
    let other : (c == column) ≡ false = ground arith in
    rw (other, cell_at_before column before after (rw other at e))

pub put_cell_absent :
    (column : Column) (block : Bytes) (cells : Cells)
    → cell_at column cells ≡ none
    → put_cell column block cells ≡ cells ++ (column, block) ∷ []
unfolding put_cell
put_cell_absent column block cells e =
    ap (λ (t : Cells). put_cell column block t) (sym (append-nil cells))
    ∙ put_cell_before column block cells [] e

module _ (block_size : ℕ) where
  -- Blocks of the cache's size, behind columns of 64 bits, each column once.
  abbrev pub AreCells : Cells → Type 0
  AreCells [] = Unit {0}
  AreCells ((column, block) ∷ cells) =
      (column < 2 ^ 64)
      × (length block ≡ block_size)
      × (cell_at column cells ≡ none)
      × AreCells cells

  pub put_cell-AreCells :
      (column : Column) (block : Bytes) (cells : Cells)
      → column < 2 ^ 64
      → length block ≡ block_size
      → AreCells cells
      → AreCells (put_cell column block cells)
  unfolding put_cell cell_at
  put_cell-AreCells column block [] n l a = (n, l, refl, tt)
  put_cell-AreCells column block ((c, old) ∷ cells) n l a = elim (Bool-cases (c == column)) [
    | inl e ↦ let same : c ≡ column = (==_iff c column).0 e in rw e (n, l, rw same at a.2, a.3)
    | inr e ↦
        let other : (column == c) ≡ false = ground arith in
        rw e (
          a.0,
          a.1,
          cell_at-put_cell column c block cells ∙ rw other a.2,
          put_cell-AreCells column block cells n l a.3,
        )
  ]

  pub length-cell_at :
      (column : Column) (block : Bytes) (cells : Cells)
      → AreCells cells
      → cell_at column cells ≡ some block
      → length block ≡ block_size
  unfolding cell_at
  length-cell_at column block [] a e = cc
  length-cell_at column block ((c, held) ∷ cells) a e = elim (Bool-cases (c == column)) [
    | inl same ↦ let mine : held ≡ block = ground arith in rw (← mine) a.1
    | inr other ↦ length-cell_at column block cells a.3 (rw other at e)
  ]

  -- Where a column is, or that it is nowhere.
  pub record Found (column : Column) (cells : Cells) : Type 0 where
    pub before : Cells
    pub block : Bytes
    pub after : Cells
    pub split : cells ≡ before ++ (column, block) ∷ after
    pub first : cell_at column before ≡ none

  pub find_cell :
      (column : Column) (cells : Cells) → (cell_at column cells ≡ none) ⊎ Found column cells
  unfolding cell_at
  find_cell column [] = inl refl
  find_cell column ((c, block) ∷ cells) = elim (Bool-cases (c == column)) [
    | inl e ↦ inr (record {
      before = [];
      block = block;
      after = cells;
      split = ap (λ (t : Column). (t, block) ∷ cells) ((==_iff c column).0 e);
      first = refl;
    })
    | inr e ↦ elim (find_cell column cells) [
      | inl no_cell ↦ inl (rw e no_cell)
      | inr found ↦ inr (record {
        before = (c, block) ∷ found.before;
        block = found.block;
        after = found.after;
        split = ap (λ (t : Cells). (c, block) ∷ t) found.split;
        first = rw e found.first;
      })
    ]
  ]

  AreCells-at :
      (before : Cells) (column : Column) (block : Bytes) (after : Cells)
      → AreCells (before ++ (column, block) ∷ after)
      → (column < 2 ^ 64) × (length block ≡ block_size)
  AreCells-at [] column block after a = (a.0, a.1)
  AreCells-at (_ ∷ before) column block after a = AreCells-at before column block after a.3

  module _ (column : Column) (cells : Cells) (f : Found column cells) where
    pub put_cell_found :
        (block : Bytes) → put_cell column block cells ≡ f.before ++ (column, block) ∷ f.after
    unfolding put_cell
    put_cell_found block =
        ap (λ (t : Cells). put_cell column block t) f.split
        ∙ put_cell_before column block f.before ((column, f.block) ∷ f.after) f.first
        ∙ rw ((==_iff column column).1 refl)

    pub cell_at_found : cell_at column cells ≡ some f.block
    unfolding cell_at
    cell_at_found =
        ap (λ (t : Cells). cell_at column t) f.split
        ∙ cell_at_before column f.before ((column, f.block) ∷ f.after) f.first
        ∙ rw ((==_iff column column).1 refl)

    pub AreCells-Found : AreCells cells → (column < 2 ^ 64) × (length f.block ≡ block_size)
    AreCells-Found a = AreCells-at f.before column f.block f.after (rw (← f.split) a)
