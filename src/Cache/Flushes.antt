-- ===== src/Cache/Flushes.antt =====
-- `Flush` of src/bdfsclient-lib/Cache.cpp: every block reads as before, whatever fails.
use drive.Cache.Blocks.{stored, cells-le-length}
use drive.Cache.Files.{LocalDisk, open_to_read}
use drive.Cache.Cells.{Cells, encode_cells, cell_at, AreCells}
use drive.Cache.Coherence.{IsHonest, IsSound, view_lem, shown, Keeps}
use drive.Cache.Steps.{
  Cache, Item, Moment, find_item, put_item, is_dirty, flush_cells, flush_row, flush_from,
}
use drive.Cache.Writeback.{Wrote, ArePlaced, flush_cells_lem}
use drive.Prelude.{
  ℕ, suc, ◌≡◌, ◌≢◌, refl, sym, ap, subst, if_elim, ◌∙◌, Bool, true, false, Option, none, some, inl,
  inr, List, [], ◌∷◌, ltb, ◌==◌, ==_iff, if◌then◌else◌, length, arith, Bool-cases, Option-cases,
  not, ◌&&◌,
}
use drive.Volume.{Volume, Backend, Row, Column}

pub find_item-put_item :
    (row r : Row) (item : Item) (items : List (Row × Item))
    → find_item r (put_item row item items) ≡ (if row == r then some item else find_item r items)
unfolding find_item put_item
find_item-put_item row r item [] = refl
find_item-put_item row r item ((q, old) ∷ items) =
    ground (arith, find_item-put_item row r item items)

-- The items after a flush of a row, and after any change of one item.
other_item :
    (row r : Row) (item : Item) (items : List (Row × Item)) (success : Bool)
    → (row == r) ≡ false
    → find_item r (if success then put_item row item items else items) ≡ find_item r items
other_item row r item items true other = find_item-put_item row r item items ∙ rw other
other_item row r item items false other = refl

module _ {b : Backend} {v : Volume} (H : IsHonest b v) where
  open H use {content}

  -- The files stay, and the volume changes only where a file holds the block.
  pub record Flushed (cells : Row → Cells) (c c' : Cache b.State) : Type 0 where
    pub sound : IsSound H c' cells
    pub others :
        (r : Row) (k : Column)
        → cell_at k (cells r) ≡ none
        → content c'.volume r k ≡ content c.volume r k

  Flushed-refl : (cells : Row → Cells) (c : Cache b.State) → IsSound H c cells → Flushed cells c c
  Flushed-refl cells c s = record { sound = s; others = λ r k e. refl }

  Flushed-trans :
      (cells : Row → Cells) (c d e : Cache b.State)
      → Flushed cells c d
      → Flushed cells d e
      → Flushed cells c e
  Flushed-trans cells c d e f g = record {
    sound = g.sound;
    others = λ r k absent. g.others r k absent ∙ f.others r k absent;
  }

  shown_same : (found : Option _) (x y : _) → (found ≡ none → x ≡ y) → shown x found ≡ shown y found
  shown_same none x y h = h refl
  shown_same (some block) x y h = refl

  pub Flushed-Keeps :
      (cells : Row → Cells) (c c' : Cache b.State)
      → IsSound H c cells
      → Flushed cells c c'
      → Keeps H c c'
  Flushed-Keeps cells c c' s f = record {
    coherent = record { cells = cells; sound = f.sound };
    same = λ r k.
        view_lem H c' cells r k f.sound
        ∙ shown_same (cell_at k (cells r)) _ _ (f.others r k)
        ∙ sym (view_lem H c cells r k s);
  }

  -- The row, its file open, is written back.
  Flushed-row :
      (row : Row) (item : Item) (c : Cache b.State) (cells : Row → Cells) (success : Bool)
      (s' : b.State)
      → IsSound H c cells
      → find_item row c.items ≡ some item
      → item.dirty ≡ true
      → Wrote H row (cells row) c.volume s' success
      → Flushed cells c (record c {
        volume = s';
        items = if success then put_item row (record item { dirty = false }) c.items else c.items;
      })
  Flushed-row row item c cells success s' s found dirty w = record {
    sound = record {
      good = w.good;
      kept = s.kept;
      sized = s.sized;
      placed = s.placed;
      clean = λ r k block e d. elim (Bool-cases (row == r)) [
        | inl same ↦
            let equal : row ≡ r = (==_iff row r).0 same in
            elim (Bool-cases success) [
              | inl done ↦ rw (← equal) (w.arrived done k block (rw (← equal) at e))
              | inr failed ↦
                  let still : is_dirty (find_item row c.items) ≡ true = ap is_dirty found ∙ dirty in
                  let not_dirty : is_dirty (find_item row c.items) ≡ false =
                    rw equal (rw failed at d) in
                  cc
            ]
        | inr other ↦
            let apart : r ≢ row = ground arith in
            w.others r k (inl apart)
            ∙ s.clean r k block e (ap is_dirty (sym (other_item row r _ c.items success other)) ∙ d)
      ];
    };
    others = λ r k absent. elim (Bool-cases (row == r)) [
      | inl same ↦
          let equal : row ≡ r = (==_iff row r).0 same in w.others r k (inr (rw equal absent))
      | inr other ↦ let apart : r ≢ row = ground arith in w.others r k (inl apart)
    ];
  }

  pub flush_row_lem :
      (disk : LocalDisk) (row : Row) (item : Item) (c : Cache b.State) (cells : Row → Cells)
      → IsSound H c cells
      → find_item row c.items ≡ some item
      → item.dirty ≡ true
      → Flushed cells c (flush_row b v disk row item c).1
  unfolding flush_row open_to_read
  flush_row_lem disk row item c cells s found dirty = elim (Bool-cases (disk.reads row)) [
    | inr closed ↦ rw (flush_row, open_to_read, closed) (Flushed-refl cells c s)
    | inl opens ↦ flush_stored opens (cells row) (s.kept row) refl
  ]
    where
      flush_stored :
          disk.reads row ≡ true
          → (held : Cells) → c.files row ≡ stored held
          → cells row ≡ held
          → Flushed cells c (flush_row b v disk row item c).1
      flush_stored o [] e same = rw (flush_row, open_to_read, o, e) (Flushed-refl cells c s)
      flush_stored o (cell ∷ held) e same =
          let file = encode_cells (cell ∷ held) in
          let w : Wrote H row (cell ∷ held) c.volume
              (flush_cells b v (suc (length file)) row file c.volume).1
              (flush_cells b v (suc (length file)) row file c.volume).0 =
            flush_cells_lem H (cell ∷ held) (suc (length file)) row c.volume
              (omega (
                arith,
                cells-le-length v.block_size (cell ∷ held)
                    (subst (λ (t : Cells). AreCells v.block_size t) same (s.sized row)),
              ))
              (subst (λ (t : Cells). AreCells v.block_size t) same (s.sized row))
              (subst (λ (t : Cells). ArePlaced H row t) same (s.placed row)) s.good in
          rw (flush_row, open_to_read, o, e)
            (Flushed-row row item c cells _ _ s found dirty (rw same w))

  pub flush_from_lem :
      (m : Moment) (force : Bool) (expire : ℕ) (times : List (ℕ × Row)) (all : Bool)
      (c : Cache b.State) (cells : Row → Cells)
      → IsSound H c cells
      → Flushed cells c (flush_from b v m force expire times all c).1
  unfolding flush_from
  flush_from_lem m force expire [] all c cells s = Flushed-refl cells c s
  flush_from_lem m force expire ((t, row) ∷ times) all c cells s =
      let Holds = λ (r : Bool × Cache b.State). Flushed cells c r.1 in
      let skip = flush_from_lem m force expire times all c cells s in
      if_elim Holds (not force && ltb expire t) _ _ (λ over. Flushed-refl cells c s)
        (λ go. elim (Option-cases (find_item row c.items)) [
          | inl absent ↦ rw absent skip
          | inr (item, found) ↦ rw found (
              if_elim Holds (not item.dirty) _ _ (λ clean. skip)
                (λ dirty.
                  let one = flush_row_lem m.disk row item c cells s found (ground arith) in
                  if_elim Holds (m.pending row) _ _ (λ wait. one)
                    (λ on. Flushed-trans cells c (flush_row b v m.disk row item c).1 _ one (
                      flush_from_lem m force expire times
                        (all && (flush_row b v m.disk row item c).0)
                        (flush_row b v m.disk row item c).1 cells one.sound))))
        ])
