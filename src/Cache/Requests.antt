-- ===== src/Cache/Requests.antt =====
-- What the requests `Read` and `Write` of src/bdfsclient-lib/Cache.cpp answer and change.
use drive.Cache.Blocks.{
  stored, TakesAll, open_to_read_lem, read_file_block_lem, write_file_block_lem,
}
use drive.Cache.Cells.{cell_at, put_cell, AreCells, put_cell-AreCells}
use drive.Cache.Coherence.{
  IsHonest, IsSound, IsCoherent, view, view_lem, Keeps, Keeps-refl, Keeps-trans,
}
use drive.Cache.Evictions.{touch-IsSound, update_timestamp-Keeps}
use drive.Cache.Fetches.{
  with_cells, refiled, with_cells_all, cell_at-with_cells, put_cell-placed, reread-IsSound,
  reread-Keeps, loaded-Keeps,
}
use drive.Cache.Files.{open_to_read, read_file_block, write_file_block}
use drive.Cache.Steps.{
  Cache, Settings, Moment, put_file, fetch_block, touch, update_timestamp, read_impl, store_block,
}
use drive.Prelude.{
  ℕ, ◌^◌, ◌<◌, ◌≡◌, refl, sym, ◌∙◌, option_elim, Bool, true, false, ◌&&◌, Option, none, some, ◌⊎◌,
  inl, inr, ◌==◌, ==_iff, if◌then◌else◌, length, take, drop, arith, Bool-cases, Option-cases,
}
use drive.Prelude.Texts.{Bytes}
use drive.Volume.{Volume, Backend, Row, Column, columns, read_direct}
use mathlib.Core.Path.{fun_ext}

unchanged_file :
    (row : Row) (file : Option Bytes) (files : Row → Option Bytes)
    → files row ≡ file
    → put_file row file files ≡ files
unchanged_file row file files e = fun_ext (λ r. elim (Bool-cases (row == r)) [
  | inl same ↦ let equal : row ≡ r = (==_iff row r).0 same in rw (same, ← equal) (sym e)
  | inr other ↦ rw other
])

module _ {b : Backend} {v : Volume} (H : IsHonest b v) (settings : Settings) (m : Moment)
    (takes : TakesAll m.disk) where
  open H use {content}

  -- An answer is the block that a reader is to see; all blocks stay.
  pub record Fetched (row : Row) (col : Column) (c : Cache b.State)
      (r : Option Bytes × Cache b.State) : Type 0 where
    pub keeps : Keeps H c r.1
    pub answered : (r.0 ≡ none) ⊎ (r.0 ≡ some (view H c row col))

  -- A block that the volume gave is put into the file of its row, or is not.
  fetched-Keeps :
      (row : Row) (col : Column) (block : Bytes) (c : Cache b.State) (i : IsCoherent H c)
      → row < v.block_count
      → col < columns v
      → block ≡ content c.volume row col
      → read_file_block v.block_size (c.files row) col ≡ none
      → Keeps H c (record c {
        files =
            put_file row (write_file_block v.block_size m.disk (c.files row) col block).1 c.files;
      })
  fetched-Keeps row col block c i n l e missing =
      let s = i.sound in
      let absent : cell_at col (i.cells row) ≡ none =
        sym (read_file_block_lem v.block_size H.has_bytes (i.cells row) col (s.sized row))
        ∙ rw (← s.kept row) missing in
      let sized : length block ≡ v.block_size = rw e (H.length-content _ _ _ s.good n l) in
      let small : col < 2 ^ 64 = omega (arith, H.few_columns) in
      elim (write_file_block_lem v.block_size H.has_bytes m.disk takes col block small sized
        (i.cells row) (s.sized row)) [
          | inl written ↦
              rw (s.kept row, written) (loaded-Keeps H row col block c i n l sized (sym e) absent)
          | inr (_, unwritten) ↦
              rw (s.kept row, unwritten, unchanged_file row _ c.files (s.kept row))
                (Keeps-refl H c i)
        ]

  pub fetch_block_lem :
      (row : Row) (col : Column) (c : Cache b.State)
      → IsCoherent H c
      → row < v.block_count
      → col < columns v
      → Fetched row col c (fetch_block b v settings m row col c)
  unfolding fetch_block
  fetch_block_lem row col c i n l =
      let s' = (read_direct b row col v.block_size 0 c.volume).1 in
      let g = H.read_good row col c.volume i.sound.good n l in
      let same : (r : Row) (k : Column) → content s' r k ≡ content c.volume r k =
        λ r k. H.read_same row col c.volume r k i.sound.good n l in
      let reread = reread-Keeps H c s' i g same in
      let opened = open_to_read_lem m.disk row (c.files row) (takes.reads row) in
      option_elim (Fetched row col c)
        (read_file_block v.block_size (open_to_read m.disk row (c.files row)) col) _ _
        (λ missing. elim (Option-cases (read_direct b row col v.block_size 0 c.volume).0) [
          | inl silent ↦ rw silent (record { keeps = reread; answered = inl refl })
          | inr (block, got) ↦
              let e = H.read_content row col c.volume block i.sound.good n l got in
              rw got (record {
                keeps =
                    Keeps-trans H c (record c { volume = s' }) _ reread
                      (fetched-Keeps row col block (record c { volume = s' })
                        (record {
                          cells = i.cells;
                          sound = reread-IsSound H c i.cells s' i.sound g same;
                        })
                        n l (e ∙ sym (same row col)) (rw opened at missing));
                answered = inr (rw (rw opened at missing, e));
              })
        ])
        (λ block found. record {
          keeps = Keeps-refl H c i;
          answered = inr (rw (rw opened at found));
        })

  -- A row is touched that was read.
  touch-Keeps :
      (row : Row) (c : Cache b.State)
      → IsCoherent H c
      → Keeps H c (touch b v settings m row false c)
  unfolding touch
  touch-Keeps row c i = record {
    coherent = record {
      cells = i.cells;
      sound =
          touch-IsSound H settings m row false c i.cells i.sound.good i.sound.kept i.sound.sized
            i.sound.placed (λ r k block e unset d. i.sound.clean r k block e d);
    };
    same = λ r k. refl;
  }

  timed-Keeps :
      (row : Row) (c : Cache b.State)
      → IsCoherent H c
      → Keeps H c (update_timestamp b v settings m row false c)
  timed-Keeps row c i =
      let touched = touch-Keeps row c i in
      Keeps-trans H c (touch b v settings m row false c) _ touched
        (update_timestamp-Keeps H settings m row false c touched.coherent)

  pub record Read (row : Row) (col : Column) (size offset : ℕ) (c : Cache b.State)
      (r : Option Bytes × Cache b.State) : Type 0 where
    pub keeps : Keeps H c r.1
    pub answered : (r.0 ≡ none) ⊎ (r.0 ≡ some (take size (drop offset (view H c row col))))

  pub read_impl_lem :
      (row : Row) (col : Column) (size offset : ℕ) (c : Cache b.State)
      → IsCoherent H c
      → row < v.block_count
      → col < columns v
      → Read row col size offset c (read_impl b v settings m row col size offset c)
  unfolding read_impl
  read_impl_lem row col size offset c i n l =
      let fetched = fetch_block_lem row col c i n l in
      let c' = (fetch_block b v settings m row col c).1 in
      record {
        keeps = Keeps-trans H c c' _ fetched.keeps (timed-Keeps row c' fetched.keeps.coherent);
        answered = elim fetched.answered [
          | inl silent ↦ inl (rw (read_impl, silent))
          | inr given ↦ inr (rw (read_impl, given))
        ];
      }

  -- A block put into the file of its row, and the row marked dirty.
  pub record Wrote (row : Row) (col : Column) (block : Bytes) (c : Cache b.State)
      (r : Bool × Cache b.State) : Type 0 where
    pub coherent : IsCoherent H r.1
    pub seen :
        (q : Row) (k : Column)
        → view H r.1 q k ≡ (if r.0 && (row == q && col == k) then block else view H c q k)

  stored-Wrote :
      (row : Row) (col : Column) (block : Bytes) (c : Cache b.State)
      → (i : IsCoherent H c) → row < v.block_count
      → col < columns v
      → length block ≡ v.block_size
      → let c' = record c {
        files = put_file row (stored (put_cell col block (i.cells row))) c.files;
      } in
        Wrote row col block c (true, update_timestamp b v settings m row true c')
  unfolding touch
  stored-Wrote row col block c i n l sized =
      let s = i.sound in
      let held = put_cell col block (i.cells row) in
      let cells = with_cells row held i.cells in
      let c' : Cache b.State = record c { files = put_file row (stored held) c.files } in
      let sound : IsSound H (touch b v settings m row true c') cells =
        touch-IsSound H settings m row true c' cells s.good
          (refiled row held c.files i.cells s.kept)
          (with_cells_all (λ r t. AreCells v.block_size t) row held i.cells
            (put_cell-AreCells v.block_size col block (i.cells row) (omega (arith, H.few_columns))
              sized (s.sized row))
            s.sized)
          (with_cells_all
            (λ r t.
              (k : Column) (x : Bytes)
              → cell_at k t ≡ some x
              → (r < v.block_count) × (k < columns v))
            row held i.cells (put_cell-placed H row col block (i.cells row) n l (s.placed row))
            s.placed)
          (λ r k x e unset d. elim (Bool-cases (row == r)) [
            | inl same ↦ let marked = unset ((==_iff row r).0 same) in cc
            | inr other ↦ s.clean r k x (rw other at e) d
          ]) in
      let kept =
        update_timestamp-Keeps H settings m row true c' (record { cells = cells; sound = sound }) in
      record {
        coherent = kept.coherent;
        seen = λ q k.
            kept.same q k
            ∙ view_lem H (touch b v settings m row true c') cells q k sound
            ∙ elim (Bool-cases (row == q && col == k)) [
              | inl hit ↦ rw (cell_at-with_cells row col block i.cells q k, hit)
              | inr miss ↦
                  rw (cell_at-with_cells row col block i.cells q k, miss)
                    (sym (view_lem H c i.cells q k s))
            ];
      }

  pub Wrote-nothing :
      (row : Row) (col : Column) (block : Bytes) (c c' : Cache b.State)
      → Keeps H c c'
      → Wrote row col block c (false, c')
  Wrote-nothing row col block c c' k = record { coherent = k.coherent; seen = k.same }

  pub store_block_lem :
      (row : Row) (col : Column) (block : Bytes) (c : Cache b.State)
      → IsCoherent H c
      → row < v.block_count
      → col < columns v
      → length block ≡ v.block_size
      → Wrote row col block c (store_block b v settings m row col block c)
  unfolding store_block
  store_block_lem row col block c i n l sized =
      let s = i.sound in
      elim (write_file_block_lem v.block_size H.has_bytes m.disk takes col block
        (omega (arith, H.few_columns)) sized (i.cells row) (s.sized row)) [
          | inl written ↦
              rw (store_block, s.kept row, written) (stored-Wrote row col block c i n l sized)
          | inr (_, unwritten) ↦
              rw (store_block, s.kept row, unwritten, unchanged_file row _ c.files (s.kept row))
                (Wrote-nothing row col block c c (Keeps-refl H c i))
        ]
