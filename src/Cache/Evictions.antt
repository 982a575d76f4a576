-- ===== src/Cache/Evictions.antt =====
-- `Pop` and `UpdateTimestamp` of src/bdfsclient-lib/Cache.cpp: a row leaves the cache only when the
-- volume has its blocks.
use drive.Cache.Blocks.{stored}
use drive.Cache.Cells.{Cells, cell_at, AreCells}
use drive.Cache.Coherence.{
  IsHonest, IsSound, IsCoherent, view_lem, shown, Keeps, Keeps-refl, Keeps-trans,
}
use drive.Cache.Flushes.{find_item-put_item, Flushed-Keeps, flush_from_lem}
use drive.Cache.Steps.{
  Cache, Item, Moment, Settings, find_item, put_item, erase_item, is_dirty, put_file, flush_times,
  pop_from, pop, touch, update_timestamp,
}
use drive.Prelude.{
  ℕ, ◌+◌, ◌^◌, ◌%◌, ◌<◌, ◌≡◌, refl, sym, ap, ◌∙◌, if_elim, option_elim, Bool, true, false, ◌||◌,
  Option, none, some, inl, inr, List, [], ◌∷◌, ◌++◌, ltb, ◌==◌, ==_iff, if◌then◌else◌, length,
  arith, Bool-cases, not,
}
use drive.Prelude.Texts.{Bytes}
use drive.Volume.{Volume, Backend, Row, Column, columns}

find_item-erase_item :
    (row r : Row) (items : List (Row × Item))
    → (row == r) ≡ false
    → find_item r (erase_item row items) ≡ find_item r items
unfolding find_item erase_item
find_item-erase_item row r [] other = refl
find_item-erase_item row r ((q, old) ∷ items) other =
    ground (arith, find_item-erase_item row r items other)

-- A row that is not dirty after its touch was not, and was not marked.
touched_dirty :
    (row r : Row) (time : ℕ) (set_dirty : Bool) (items : List (Row × Item))
    → is_dirty (
        find_item r (
          put_item row
            (record { timestamp = time; dirty = set_dirty || is_dirty (find_item row items) })
            items))
      ≡ false
    → (row ≡ r → set_dirty ≡ false) × (is_dirty (find_item r items) ≡ false)
touched_dirty row r time set_dirty items d = elim (Bool-cases (row == r)) [
  | inl same ↦
      let equal : row ≡ r = (==_iff row r).0 same in
      let now : (set_dirty || is_dirty (find_item row items)) ≡ false =
        rw (find_item-put_item, same) at d in
      (λ e. ground arith, rw (← equal) (ground arith))
  | inr other ↦ (λ e. ground arith, rw (find_item-put_item, other) at d)
]

-- The cells of all rows but one.
abbrev without : Row → (Row → Cells) → Row → Cells
without row cells r = if row == r then [] else cells r

without_cell :
    (row : Row) (cells : Row → Cells) (r : Row) (k : Column) (block : Bytes)
    → cell_at k (without row cells r) ≡ some block
    → ((row == r) ≡ false) × (cell_at k (cells r) ≡ some block)
unfolding cell_at
without_cell row cells r k block e = elim (Bool-cases (row == r)) [
  | inl same ↦ let gone : none ≡ some block = rw same at e in cc
  | inr other ↦ (other, rw other at e)
]

erased_file :
    (row r : Row) (files : Row → Option Bytes) (cells : Row → Cells)
    → files r ≡ stored (cells r)
    → put_file row none files r ≡ stored (without row cells r)
erased_file row r files cells e = elim (Bool-cases (row == r)) [
  | inl same ↦ rw same
  | inr other ↦ rw other e
]

pub shown_held :
    (found : Option Bytes) (behind : Bytes)
    → ((block : Bytes) → found ≡ some block → behind ≡ block)
    → behind ≡ shown behind found
shown_held none behind h = refl
shown_held (some block) behind h = h block refl

module _ {b : Backend} {v : Volume} (H : IsHonest b v) where
  open H use {content}

  -- Another list of timestamps changes nothing that a reader sees.
  retimed :
      (c : Cache b.State) (times : List (ℕ × Row))
      → IsCoherent H c
      → Keeps H c (record c { timestamps = times })
  retimed c times i = record {
    coherent = record {
      cells = i.cells;
      sound = record {
        good = i.sound.good;
        kept = i.sound.kept;
        sized = i.sound.sized;
        placed = i.sound.placed;
        clean = i.sound.clean;
      };
    };
    same = λ r k. refl;
  }

  evict : Row → Cache b.State → Cache b.State
  evict row c = record c { items = erase_item row c.items; files = put_file row none c.files }

  -- A row that is not dirty may go.
  evict-IsSound :
      (row : Row) (c : Cache b.State) (cells : Row → Cells)
      → IsSound H c cells
      → IsSound H (evict row c) (without row cells)
  unfolding evict cell_at
  evict-IsSound row c cells s = record {
    good = s.good;
    kept = λ r. erased_file row r c.files cells (s.kept r);
    sized = λ r. if_elim (AreCells v.block_size) (row == r) [] (cells r) (λ e. tt) (λ e. s.sized r);
    placed = λ r k block e. s.placed r k block (without_cell row cells r k block e).1;
    clean = λ r k block e d.
        let (other, held) = without_cell row cells r k block e in
        s.clean r k block held (ap is_dirty (sym (find_item-erase_item row r c.items other)) ∙ d);
  }

  evict-Keeps :
      (row : Row) (c : Cache b.State)
      → IsCoherent H c
      → is_dirty (find_item row c.items) ≡ false
      → Keeps H c (evict row c)
  unfolding evict cell_at
  evict-Keeps row c i d =
      let cells = i.cells in
      let s = i.sound in
      let s' = evict-IsSound row c cells s in
      record {
        coherent = record { cells = without row cells; sound = s' };
        same = λ r k.
            view_lem H (evict row c) (without row cells) r k s'
            ∙ elim (Bool-cases (row == r)) [
              | inl e ↦
                  let equal : row ≡ r = (==_iff row r).0 e in
                  rw e (
                    shown_held (cell_at k (cells r)) (content c.volume r k)
                      (λ block held. s.clean r k block held (rw (← equal) d)))
              | inr e ↦ rw e
            ]
            ∙ sym (view_lem H c cells r k s);
      }

  module _ (settings : Settings) (m : Moment) where
    flush_times-Keeps :
        (force : Bool) (times : List (ℕ × Row)) (c : Cache b.State)
        → IsCoherent H c
        → Keeps H c (flush_times b v settings m force times c).1
    unfolding flush_times
    flush_times-Keeps force times c i = Flushed-Keeps H i.cells c _ i.sound (
        flush_from_lem H m force ((m.now + settings.flush_policy) % 2 ^ 64) times true c i.cells
          i.sound)

    pop_from-Keeps :
        (size : ℕ) (kept times : List (ℕ × Row)) (c : Cache b.State)
        → IsCoherent H c
        → Keeps H c (pop_from b v settings m size kept times c)
    unfolding pop_from evict
    pop_from-Keeps size kept [] c i = retimed c kept i
    pop_from-Keeps size kept ((t, row) ∷ times) c i =
        let flushed =
          if is_dirty (find_item row c.items)
          then (flush_times b v settings m false (kept ++ (t, row) ∷ times) c).1
          else c in
        let one : Keeps H c flushed =
          if_elim (Keeps H c) (is_dirty (find_item row c.items)) _ c
            (λ d. flush_times-Keeps false (kept ++ (t, row) ∷ times) c i) (λ d. Keeps-refl H c i) in
        if_elim (Keeps H c) (not (length c.items == size)) _ _
          (λ over. retimed c (kept ++ (t, row) ∷ times) i)
          (λ on.
            option_elim (Keeps H c) (find_item row c.items) _ _
              (λ absent. pop_from-Keeps size kept times c i)
              (λ item found.
                if_elim (Keeps H c) (is_dirty (find_item row flushed.items)) _ _
                  (λ dirty.
                    Keeps-trans H c flushed _ one
                      (pop_from-Keeps size (kept ++ (t, row) ∷ []) times flushed one.coherent))
                  (λ clean.
                    let gone = evict-Keeps row flushed one.coherent clean in
                    Keeps-trans H c flushed _ one (
                      Keeps-trans H flushed (evict row flushed) _ gone
                        (pop_from-Keeps size kept times (evict row flushed) gone.coherent)))))

    pop-Keeps : (c : Cache b.State) → IsCoherent H c → Keeps H c (pop b v settings m c)
    unfolding pop
    pop-Keeps c i = pop_from-Keeps (length c.items) [] c.timestamps c i

    -- The touch of a row in whose file only what is not marked dirty must agree with the volume.
    pub touch-IsSound :
        (row : Row) (set_dirty : Bool) (c : Cache b.State) (cells : Row → Cells)
        → H.IsGood c.volume
        → ((r : Row) → c.files r ≡ stored (cells r))
        → ((r : Row) → AreCells v.block_size (cells r))
        → ((r : Row) (k : Column) (block : Bytes)
            → cell_at k (cells r) ≡ some block
            → (r < v.block_count) × (k < columns v))
        → ((r : Row) (k : Column) (block : Bytes)
            → cell_at k (cells r) ≡ some block
            → ((row ≡ r) → set_dirty ≡ false)
            → is_dirty (find_item r c.items) ≡ false
            → content c.volume r k ≡ block)
        → IsSound H (touch b v settings m row set_dirty c) cells
    unfolding touch
    touch-IsSound row set_dirty c cells good kept sized placed clean = record {
      good = good;
      kept = kept;
      sized = sized;
      placed = placed;
      clean = λ r k block e d.
          let (unset, was) = touched_dirty row r m.now set_dirty c.items d in
          clean r k block e unset was;
    }

    pub update_timestamp-Keeps :
        (row : Row) (set_dirty : Bool) (c : Cache b.State)
        → IsCoherent H (touch b v settings m row set_dirty c)
        → Keeps H
            (touch b v settings m row set_dirty c)
            (update_timestamp b v settings m row set_dirty c)
    unfolding update_timestamp
    update_timestamp-Keeps row set_dirty c i =
        let c' = touch b v settings m row set_dirty c in
        if_elim (Keeps H c') (ltb settings.limit (length c'.items)) _ c' (λ over. pop-Keeps c' i)
          (λ fits. Keeps-refl H c' i)
