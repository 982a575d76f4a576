-- ===== src/Cache/Blocks.antt =====
-- `ReadFileBlock` and `WriteFileBlock` of src/bdfsclient-lib/Cache.cpp on files of cells.
use drive.Cache.Cells.{
  Cells, encode_cells, cell_at, put_cell, AreCells, Found, find_cell, length-le_bytes,
  from_le-le_bytes, overlay_between, overlay_end, encode-append, put_cell_found, put_cell_absent,
  cell_at_found, AreCells-Found,
}
use drive.Cache.Files.{
  LocalDisk, le_bytes, fwrite, open_or_create, open_to_read, locate, read_file_block, write_open,
  write_file_block,
}
use drive.HostPartition.{overlay}
use drive.Prelude.{
  ℕ, suc, ◌+◌, ◌-◌, ◌^◌, ◌≤◌, ◌<◌, ◌≡◌, refl, sym, ap, ◌∙◌, true, false, Option, none, some, ◌⊎◌,
  inl, inr, [], ◌∷◌, ◌++◌, ◌==◌, ==_iff, if◌then◌else◌, length, take, drop, take_all, arith,
  Bool-cases, append-nil, append_assoc, length-append, take-append_at, drop-append_at,
}
use drive.Prelude.Texts.{Bytes}
use drive.Volume.{Column}

module _ (block_size : ℕ) where
  locate_cell :
      (fuel : ℕ) (column : Column) (position : ℕ) (c : Column) (block rest : Bytes)
      → c < 2 ^ 64
      → length block ≡ block_size
      → locate block_size (suc fuel) column position (le_bytes 8 c ++ (block ++ rest)) ≡ (
          if c == column
          then (true, position + 8)
          else locate block_size fuel column (position + (8 + block_size)) rest)
  unfolding locate
  locate_cell fuel column position c block rest n l =
      let header : take 8 (le_bytes 8 c ++ (block ++ rest)) ≡ le_bytes 8 c =
        take-append_at 8 (le_bytes 8 c) (block ++ rest) (length-le_bytes 8 c) in
      let behind : drop (8 + block_size) (le_bytes 8 c ++ (block ++ rest)) ≡ rest =
        ap (λ (t : Bytes). drop (8 + block_size) t) (sym (append_assoc (le_bytes 8 c) block rest))
        ∙ drop-append_at (8 + block_size) (le_bytes 8 c ++ block) rest
            (omega (arith, length-append (le_bytes 8 c) block, length-le_bytes 8 c)) in
      rw (header, behind, length-le_bytes 8 c, from_le-le_bytes 8 c n)

  -- The cells before the column are passed over.
  locate_skip :
      (before after : Cells) (fuel n : ℕ) (column : Column) (position : ℕ)
      → AreCells block_size (before ++ after)
      → cell_at column before ≡ none
      → fuel ≡ length before + n
      → locate block_size fuel column position (encode_cells (before ++ after))
        ≡ locate block_size n column (position + length (encode_cells before)) (encode_cells after)
  unfolding encode_cells cell_at
  locate_skip [] after fuel n column position a absent e =
      let same : fuel ≡ n = omega arith in
      let place : position ≡ position + 0 = omega arith in
      rw same (ap (λ (p : ℕ). locate block_size n column p (encode_cells after)) place)
  locate_skip ((c, block) ∷ before) after fuel n column position a absent e =
      let other : (c == column) ≡ false = ground arith in
      let more : fuel ≡ suc (length before + n) = omega arith in
      let place : position + (8 + block_size) + length (encode_cells before)
          ≡ position + length (le_bytes 8 c ++ (block ++ encode_cells before)) =
        omega (
          arith,
          length-append (le_bytes 8 c) (block ++ encode_cells before),
          length-append block (encode_cells before),
          length-le_bytes 8 c,
          a.1,
        ) in
      rw more (
        locate_cell (length before + n) column position c block (encode_cells (before ++ after)) a.0
          a.1
        ∙ rw other (
            locate_skip before after (length before + n) n column (position + (8 + block_size)) a.3
              (rw other at absent) refl
            ∙ ap (λ (p : ℕ). locate block_size n column p (encode_cells after)) place))

  pub cells-le-length :
      (cells : Cells) → AreCells block_size cells → length cells ≤ length (encode_cells cells)
  unfolding encode_cells
  cells-le-length [] a = omega arith
  cells-le-length ((c, block) ∷ cells) a = omega (
    arith,
    length-append (le_bytes 8 c) (block ++ encode_cells cells),
    length-append block (encode_cells cells),
    length-le_bytes 8 c,
    cells-le-length cells a.3,
  )

  -- What the loop finds in a file of cells.
  locate_absent :
      (cells : Cells) (column : Column)
      → AreCells block_size cells
      → cell_at column cells ≡ none
      → locate block_size (suc (length (encode_cells cells))) column 0 (encode_cells cells)
        ≡ (false, length (encode_cells cells))
  unfolding locate encode_cells
  locate_absent cells column a absent =
      let file = encode_cells cells in
      let n = length file - length cells in
      let whole : cells ++ [] ≡ cells = append-nil cells in
      ap (λ (t : Cells). locate block_size (suc (length file)) column 0 (encode_cells t))
        (sym whole)
      ∙ locate_skip cells [] (suc (length file)) (suc n) column 0 (rw whole a) absent
          (omega (arith, cells-le-length cells a))
      ∙ ap (λ (p : ℕ). (false, p)) (omega arith)

  locate-Found :
      (cells : Cells) (column : Column) (f : Found block_size column cells)
      → AreCells block_size cells
      → locate block_size (suc (length (encode_cells cells))) column 0 (encode_cells cells)
        ≡ (true, length (encode_cells f.before) + 8)
  unfolding encode_cells
  locate-Found cells column f a =
      let file = encode_cells cells in
      let n = length file - length f.before in
      let a' : AreCells block_size (f.before ++ (column, f.block) ∷ f.after) = rw (← f.split) a in
      let (small, sized) = AreCells-Found block_size column cells f a in
      let fits : length f.before ≤ length file = omega (
        arith,
        cells-le-length cells a,
        ap length f.split,
        length-append f.before ((column, f.block) ∷ f.after),
      ) in
      ap (λ (t : Cells). locate block_size (suc (length file)) column 0 (encode_cells t)) f.split
      ∙ locate_skip f.before ((column, f.block) ∷ f.after) (suc (length file)) (suc n) column 0 a'
          f.first (omega arith)
      ∙ locate_cell n column (0 + length (encode_cells f.before)) column f.block
          (encode_cells f.after) small sized
      ∙ rw ((==_iff column column).1 refl) (ap (λ (p : ℕ). (true, p)) (omega arith))

-- A row without cells has no file.
abbrev pub stored : Cells → Option Bytes
stored [] = none
stored (cell ∷ cells) = some (encode_cells (cell ∷ cells))

-- The disk opens the files that are there, and takes all bytes.
pub record TakesAll (disk : LocalDisk) : Type 0 where
  pub all : (n : ℕ) → n ≤ disk.takes n
  pub reads : (row : ℕ) → disk.reads row ≡ true
  pub updates : disk.updates ≡ true

pub open_to_read_lem :
    (disk : LocalDisk) (row : ℕ) (file : Option Bytes)
    → disk.reads row ≡ true
    → open_to_read disk row file ≡ file
unfolding open_to_read
open_to_read_lem disk row file e = rw e

fwrite_lem :
    (disk : LocalDisk) (bytes : Bytes) (position : ℕ) (file : Bytes)
    → TakesAll disk
    → 0 < length bytes
    → fwrite disk bytes position file ≡ (length bytes, overlay position bytes file)
unfolding fwrite
fwrite_lem disk bytes position file takes h =
    let whole : take (disk.takes (length bytes)) bytes ≡ bytes =
      take_all (disk.takes (length bytes)) bytes (takes.all (length bytes)) in
    let filled : (length bytes == 0) ≡ false = ground arith in rw (whole, filled)

open_made : (disk : LocalDisk) → disk.creates ≡ true → open_or_create disk none ≡ some []
unfolding open_or_create
open_made disk e = ground arith

open_failed : (disk : LocalDisk) → disk.creates ≡ false → open_or_create disk none ≡ none
unfolding open_or_create
open_failed disk e = ground arith

open_there :
    (disk : LocalDisk) (file : Bytes)
    → disk.updates ≡ true
    → open_or_create disk (some file) ≡ some file
unfolding open_or_create
open_there disk file e = rw e

stored-put_cell :
    (column : Column) (block : Bytes) (cells : Cells)
    → stored (put_cell column block cells) ≡ some (encode_cells (put_cell column block cells))
unfolding put_cell
stored-put_cell column block [] = refl
stored-put_cell column block ((c, old) ∷ cells) = elim (Bool-cases (c == column)) [
  | inl e ↦ rw e
  | inr e ↦ rw e
]

module _ (block_size : ℕ) (filled : 0 < block_size) where
  Found-block :
      (cells : Cells) (column : Column) (f : Found block_size column cells)
      → AreCells block_size cells
      → take block_size (drop (length (encode_cells f.before) + 8) (encode_cells cells)) ≡ f.block
  unfolding encode_cells
  Found-block cells column f a =
      let (small, sized) = AreCells-Found block_size column cells f a in
      let front = encode_cells f.before ++ le_bytes 8 column in
      let rest = encode_cells f.after in
      let whole : encode_cells cells ≡ front ++ (f.block ++ rest) =
        ap encode_cells f.split
        ∙ encode-append f.before ((column, f.block) ∷ f.after)
        ∙ sym (append_assoc (encode_cells f.before) (le_bytes 8 column) (f.block ++ rest)) in
      rw (
        whole,
        drop-append_at (length (encode_cells f.before) + 8) front (f.block ++ rest) (
            omega (
              arith,
              length-append (encode_cells f.before) (le_bytes 8 column),
              length-le_bytes 8 column,
            )),
        take-append_at block_size f.block rest sized,
      )

  -- A block is read exactly if the file has a cell of its column.
  pub read_file_block_lem :
      (cells : Cells) (column : Column)
      → AreCells block_size cells
      → read_file_block block_size (stored cells) column ≡ cell_at column cells
  unfolding read_file_block cell_at
  read_file_block_lem [] column a =
      let no_bytes : (0 == block_size) ≡ false = ground arith in rw no_bytes
  read_file_block_lem (cell ∷ cells) column a =
      let no_bytes : (0 == block_size) ≡ false = ground arith in
      elim (find_cell block_size column (cell ∷ cells)) [
        | inl absent ↦
            rw (locate_absent block_size (cell ∷ cells) column a absent, no_bytes) (sym absent)
        | inr f ↦
            rw
              (
                locate-Found block_size (cell ∷ cells) column f a,
                Found-block (cell ∷ cells) column f a,
                (==_iff (length f.block) block_size).1
                    (AreCells-Found block_size column (cell ∷ cells) f a).1,
              )
              (sym (cell_at_found block_size column (cell ∷ cells) f))
      ]

  module _ (disk : LocalDisk) (takes : TakesAll disk) (column : Column) (block : Bytes)
      (small : column < 2 ^ 64) (sized : length block ≡ block_size) where
    full : (length block == block_size) ≡ true
    full = (==_iff (length block) block_size).1 sized

    -- The writes on an open file of cells.
    write_open_absent :
        (cells : Cells)
        → AreCells block_size cells
        → cell_at column cells ≡ none
        → write_open block_size disk (encode_cells cells) column block
          ≡ (true, encode_cells (put_cell column block cells))
    unfolding write_open encode_cells
    write_open_absent cells a absent =
        let bytes = encode_cells cells in
        let header = le_bytes 8 column in
        let none_yet : (0 == block_size) ≡ false = ground arith in
        let headed : fwrite disk header (length bytes) bytes ≡ (8, bytes ++ header) =
          fwrite_lem disk header (length bytes) bytes takes
            (omega (arith, length-le_bytes 8 column))
          ∙ rw (length-le_bytes 8 column, overlay_end bytes header (length bytes) refl) in
        let done : fwrite disk block (length bytes + 8) (bytes ++ header)
            ≡ (length block, (bytes ++ header) ++ block) =
          fwrite_lem disk block (length bytes + 8) (bytes ++ header) takes (omega arith)
          ∙ rw (
              overlay_end (bytes ++ header) block (length bytes + 8)
                (omega (arith, length-append bytes header, length-le_bytes 8 column))) in
        let whole : encode_cells (put_cell column block cells) ≡ (bytes ++ header) ++ block =
          ap encode_cells (put_cell_absent column block cells absent)
          ∙ encode-append cells ((column, block) ∷ [])
          ∙ rw (append-nil block, append_assoc bytes header block) in
        rw (locate_absent block_size cells column a absent, none_yet, headed, done, full, whole)

    write_open-Found :
        (cells : Cells)
        → AreCells block_size cells
        → (f : Found block_size column cells)
        → write_open block_size disk (encode_cells cells) column block
          ≡ (true, encode_cells (put_cell column block cells))
    unfolding write_open encode_cells
    write_open-Found cells a f =
        let header = le_bytes 8 column in
        let front = encode_cells f.before ++ header in
        let rest = encode_cells f.after in
        let place = length (encode_cells f.before) + 8 in
        let place_eq : length front ≡ place =
          omega (arith, length-append (encode_cells f.before) header, length-le_bytes 8 column) in
        let old : encode_cells cells ≡ front ++ (f.block ++ rest) =
          ap encode_cells f.split
          ∙ encode-append f.before ((column, f.block) ∷ f.after)
          ∙ sym (append_assoc (encode_cells f.before) header (f.block ++ rest)) in
        let new : encode_cells (put_cell column block cells) ≡ front ++ (block ++ rest) =
          ap encode_cells (put_cell_found block_size column cells f block)
          ∙ encode-append f.before ((column, block) ∷ f.after)
          ∙ sym (append_assoc (encode_cells f.before) header (block ++ rest)) in
        let same_length : length f.block ≡ length block =
          omega (arith, (AreCells-Found block_size column cells f a).1) in
        let done : fwrite disk block place (encode_cells cells)
            ≡ (length block, encode_cells (put_cell column block cells)) =
          fwrite_lem disk block place (encode_cells cells) takes (omega arith)
          ∙ ap (λ (t : Bytes). (length block, t))
              (ap (λ (t : Bytes). overlay place block t) old
                ∙ overlay_between front f.block block rest place place_eq same_length
                ∙ sym new) in
        rw (locate-Found block_size cells column f a, done, full)

    write_open_lem :
        (cells : Cells)
        → AreCells block_size cells
        → write_open block_size disk (encode_cells cells) column block
          ≡ (true, encode_cells (put_cell column block cells))
    write_open_lem cells a = elim (find_cell block_size column cells) [
      | inl absent ↦ write_open_absent cells a absent
      | inr f ↦ write_open-Found cells a f
    ]

    write_open_empty :
        write_open block_size disk [] column block ≡ (true, encode_cells (put_cell column block []))
    unfolding encode_cells
    write_open_empty = write_open_lem [] tt

    -- A block is put into the file if the file is there or can be made.
    pub write_file_block_lem :
        (cells : Cells)
        → AreCells block_size cells
        → (write_file_block block_size disk (stored cells) column block
            ≡ (true, stored (put_cell column block cells)))
          ⊎ ((disk.creates ≡ false)
              × (write_file_block block_size disk (stored cells) column block
                  ≡ (false, stored cells)))
    unfolding write_file_block
    write_file_block_lem [] a = elim (Bool-cases disk.creates) [
      | inl e ↦ inl (
          rw (write_file_block, open_made disk e, write_open_empty)
            (rw (stored-put_cell column block [])))
      | inr e ↦
          let none_yet : (0 == block_size) ≡ false = ground arith in
          inr (e, rw (write_file_block, open_failed disk e, none_yet))
    ]
    write_file_block_lem (cell ∷ cells) a = inl (
        rw (
          write_file_block,
          open_there disk (encode_cells (cell ∷ cells)) takes.updates,
          write_open_lem (cell ∷ cells) a,
          stored-put_cell column block (cell ∷ cells),
        ))
