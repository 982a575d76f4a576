-- ===== src/Cache/Writeback.antt =====
-- The loop of `Flush` (src/bdfsclient-lib/Cache.cpp) over the file of one row.
use drive.Cache.Cells.{Cells, encode_cells, cell_at, AreCells, length-le_bytes, from_le-le_bytes}
use drive.Cache.Coherence.{IsHonest}
use drive.Cache.Files.{le_bytes}
use drive.Cache.Steps.{flush_cells}
use drive.Prelude.{
  ℕ, zero, suc, ◌+◌, ◌^◌, ◌<◌, ◌≡◌, ◌≢◌, refl, sym, ap, ◌∙◌, Bool, true, false, none, some, ◌⊎◌,
  inl, inr, [], ◌∷◌, ◌++◌, ◌==◌, ==_iff, if◌then◌else◌, length, take, drop, arith, Bool-cases,
  append_assoc, length-append, take-append_at, drop-append_at,
}
use drive.Prelude.Texts.{Bytes}
use drive.Volume.{Volume, Backend, Row, Column, columns, write_direct}

flush_cell :
    (b : Backend) (v : Volume) (fuel : ℕ) (row : Row) (col : Column) (block rest : Bytes)
    (s : b.State)
    → col < 2 ^ 64
    → length block ≡ v.block_size
    → flush_cells b v (suc fuel) row (le_bytes 8 col ++ (block ++ rest)) s ≡ (
        if (write_direct b row col block 0 s).0
        then flush_cells b v fuel row rest (write_direct b row col block 0 s).1
        else (false, (write_direct b row col block 0 s).1))
unfolding flush_cells
flush_cell b v fuel row col block rest s n l =
    let header : take 8 (le_bytes 8 col ++ (block ++ rest)) ≡ le_bytes 8 col =
      take-append_at 8 (le_bytes 8 col) (block ++ rest) (length-le_bytes 8 col) in
    let behind : drop 8 (le_bytes 8 col ++ (block ++ rest)) ≡ block ++ rest =
      drop-append_at 8 (le_bytes 8 col) (block ++ rest) (length-le_bytes 8 col) in
    let after : drop (8 + v.block_size) (le_bytes 8 col ++ (block ++ rest)) ≡ rest =
      ap (λ (t : Bytes). drop (8 + v.block_size) t) (sym (append_assoc (le_bytes 8 col) block rest))
      ∙ drop-append_at (8 + v.block_size) (le_bytes 8 col ++ block) rest
          (omega (arith, length-append (le_bytes 8 col) block, length-le_bytes 8 col)) in
    rw (
      header,
      behind,
      after,
      take-append_at v.block_size block rest l,
      from_le-le_bytes 8 col n,
      length-le_bytes 8 col,
      (==_iff (length block) v.block_size).1 l,
    )

cell_at_later :
    (col k : Column) (block x : Bytes) (cells : Cells)
    → cell_at col cells ≡ none
    → cell_at k cells ≡ some x
    → cell_at k ((col, block) ∷ cells) ≡ some x
unfolding cell_at
cell_at_later col k block x cells absent e = elim (Bool-cases (col == k)) [
  | inl same ↦ let equal : col ≡ k = (==_iff col k).0 same in cc
  | inr other ↦ rw other e
]

cell_at_first :
    (col : Column) (block : Bytes) (cells : Cells) → cell_at col ((col, block) ∷ cells) ≡ some block
unfolding cell_at
cell_at_first col block cells = rw ((==_iff col col).1 refl)

cell_at_rest :
    (col k : Column) (block : Bytes) (cells : Cells)
    → (col == k) ≡ false
    → cell_at k cells ≡ cell_at k ((col, block) ∷ cells)
unfolding cell_at
cell_at_rest col k block cells other = rw other

cell_at_mine :
    (col k : Column) (block x : Bytes) (cells : Cells)
    → (col == k) ≡ true
    → cell_at k ((col, block) ∷ cells) ≡ some x
    → block ≡ x
unfolding cell_at
cell_at_mine col k block x cells same e = ground arith

cell_at_other :
    (col k : Column) (block : Bytes) (cells : Cells)
    → cell_at k ((col, block) ∷ cells) ≡ none
    → k ≢ col
unfolding cell_at
cell_at_other col k block cells absent = ground arith

others_later :
    (r row : Row) (col k : Column) (block : Bytes) (cells : Cells)
    → (r ≢ row) ⊎ (cell_at k ((col, block) ∷ cells) ≡ none)
    → (r ≢ row) ⊎ (cell_at k cells ≡ none)
unfolding cell_at
others_later r row col k block cells (inl other) = inl other
others_later r row col k block cells (inr absent) = inr (ground arith)

module _ {b : Backend} {v : Volume} (H : IsHonest b v) where
  open H use {IsGood, content}

  -- Writing the cells of a row back: only their blocks change, and on success all have arrived.
  pub record Wrote (row : Row) (cells : Cells) (s s' : b.State) (success : Bool) : Type 0 where
    pub good : IsGood s'
    pub others :
        (r : Row) (k : Column)
        → (r ≢ row) ⊎ (cell_at k cells ≡ none)
        → content s' r k ≡ content s r k
    pub arrived :
        success ≡ true
        → (k : Column) (block : Bytes) → cell_at k cells ≡ some block
        → content s' row k ≡ block

  abbrev pub ArePlaced : Row → Cells → Type 0
  ArePlaced row cells =
      (k : Column) (block : Bytes)
      → cell_at k cells ≡ some block
      → (row < v.block_count) × (k < columns v)

  flush_cells_nil :
      (fuel : ℕ) (row : Row) (s : b.State)
      → IsGood s
      → Wrote row [] s
          (flush_cells b v (suc fuel) row [] s).1
          (flush_cells b v (suc fuel) row [] s).0
  unfolding flush_cells cell_at
  flush_cells_nil fuel row s g = record {
    good = g;
    others = λ r k o. refl;
    arrived = λ done k block e. cc;
  }

  -- What the write of the first cell leaves alone.
  first_others :
      (row : Row) (col : Column) (block : Bytes) (cells : Cells) (s : b.State) (r : Row)
      (k : Column)
      → (row < v.block_count) × (col < columns v)
      → length block ≡ v.block_size
      → IsGood s
      → (r ≢ row) ⊎ (cell_at k ((col, block) ∷ cells) ≡ none)
      → content (write_direct b row col block 0 s).1 r k ≡ content s r k
  first_others row col block cells s r k here l g (inl other) =
      H.write_others row col block s r k g here.0 here.1 l (inl other)
  first_others row col block cells s r k here l g (inr absent) =
      H.write_others row col block s r k g here.0 here.1 l
        (inr (cell_at_other col k block cells absent))

  Wrote-failed :
      (row : Row) (col : Column) (block : Bytes) (cells : Cells) (s : b.State)
      → (row < v.block_count) × (col < columns v)
      → AreCells v.block_size ((col, block) ∷ cells)
      → IsGood s
      → IsGood (write_direct b row col block 0 s).1
      → Wrote row ((col, block) ∷ cells) s (write_direct b row col block 0 s).1 false
  Wrote-failed row col block cells s here a g g₁ = record {
    good = g₁;
    others = λ r k o. first_others row col block cells s r k here a.1 g o;
    arrived = λ done k x e. cc;
  }

  Wrote-more :
      (row : Row) (col : Column) (block : Bytes) (cells : Cells) (s s' : b.State) (success : Bool)
      → (row < v.block_count) × (col < columns v)
      → AreCells v.block_size ((col, block) ∷ cells)
      → IsGood s
      → (write_direct b row col block 0 s).0 ≡ true
      → Wrote row cells (write_direct b row col block 0 s).1 s' success
      → Wrote row ((col, block) ∷ cells) s s' success
  Wrote-more row col block cells s s' success here a g done next = record {
    good = next.good;
    others = λ r k o.
        next.others r k (others_later r row col k block cells o)
        ∙ first_others row col block cells s r k here a.1 g o;
    arrived = λ success k x e. elim (Bool-cases (col == k)) [
      | inl same ↦
          let equal : col ≡ k = (==_iff col k).0 same in
          let mine : block ≡ x = cell_at_mine col k block x cells same e in
          rw (← equal) (
            next.others row col (inr a.2)
            ∙ H.write_content row col block s g here.0 here.1 a.1 done
            ∙ mine)
      | inr other ↦ next.arrived success k x (cell_at_rest col k block cells other ∙ e)
    ];
  }

  pub flush_cells_lem :
      (cells : Cells) (fuel : ℕ) (row : Row) (s : b.State)
      → length cells < fuel
      → AreCells v.block_size cells
      → ArePlaced row cells
      → IsGood s
      → Wrote row cells s
          (flush_cells b v fuel row (encode_cells cells) s).1
          (flush_cells b v fuel row (encode_cells cells) s).0
  unfolding encode_cells
  flush_cells_lem cells zero row s h a p g = absurd (omega arith)
  flush_cells_lem [] (suc fuel) row s h a p g = flush_cells_nil fuel row s g
  flush_cells_lem ((col, block) ∷ cells) (suc fuel) row s h a p g =
      let here : (row < v.block_count) × (col < columns v) =
        p col block (cell_at_first col block cells) in
      let g₁ = H.write_good row col block s g here.0 here.1 a.1 in
      let p' : ArePlaced row cells = λ k x e. p k x (cell_at_later col k block x cells a.2 e) in
      let next =
        flush_cells_lem cells fuel row (write_direct b row col block 0 s).1 (omega arith) a.3 p'
          g₁ in
      rw (flush_cell b v fuel row col block (encode_cells cells) s a.0 a.1)
        (elim (Bool-cases (write_direct b row col block 0 s).0) [
          | inl done ↦ rw done (Wrote-more row col block cells s _ _ here a g done next)
          | inr failed ↦ rw failed (Wrote-failed row col block cells s here a g g₁)
        ])
