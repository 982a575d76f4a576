-- ===== src/Cache/Durability.antt =====
-- What `Flush` of src/bdfsclient-lib/Cache.cpp has written back when it reports success.
use drive.Cache.Blocks.{stored, open_to_read_lem}
use drive.Cache.Files.{LocalDisk, open_to_read}
use drive.Cache.Cells.{Cells, cell_at}
use drive.Cache.Coherence.{IsHonest, IsCoherent, view, view_lem}
use drive.Cache.Evictions.{shown_held}
use drive.Cache.Flushes.{find_item-put_item, Flushed-Keeps, flush_from_lem}
use drive.Cache.Steps.{
  Cache, Item, Settings, Moment, find_item, put_item, is_dirty, flush_cells, flush_row, flush_from,
  flush_times, flush,
}
use drive.Prelude.{
  ℕ, ◌+◌, ◌%◌, ◌^◌, ◌≡◌, refl, sym, ap, subst, ◌∙◌, if_elim, option_elim, Bool, true, false, not,
  ◌&&◌, Option, none, some, ◌⊎◌, inl, inr, List, [], ◌∷◌, if◌then◌else◌, arith,
}
use drive.Prelude.Texts.{Bytes}
use drive.Volume.{Volume, Backend, Row, Column}

abbrev pub HasEntry : Row → List (ℕ × Row) → Type 0
HasEntry r [] = ⊥
HasEntry r ((t, row) ∷ times) = (row ≡ r) ⊎ HasEntry r times

-- A row that is not dirty, or has nothing to write back.
abbrev Settled : List (Row × Item) → Row → Option Bytes → Type 0
Settled items r file = (is_dirty (find_item r items) ≡ false) ⊎ (file ≡ none)

cleaned :
    (row r : Row) (item : Item) (items : List (Row × Item))
    → item.dirty ≡ false
    → is_dirty (find_item r items) ≡ false
    → is_dirty (find_item r (put_item row item items)) ≡ false
cleaned row r item items clean e = ground (arith, find_item-put_item row r item items)

cleaned_if :
    (success : Bool) (row r : Row) (item : Item) (items : List (Row × Item))
    → item.dirty ≡ false
    → is_dirty (find_item r items) ≡ false
    → is_dirty (find_item r (if success then put_item row item items else items)) ≡ false
cleaned_if true row r item items clean e = cleaned row r item items clean e
cleaned_if false row r item items clean e = e

cleaned_self :
    (row : Row) (item : Item) (items : List (Row × Item))
    → item.dirty ≡ false
    → is_dirty (find_item row (put_item row item items)) ≡ false
cleaned_self row item items clean = ground (arith, find_item-put_item row row item items)

module _ (b : Backend) (v : Volume) where
  -- A step of `Flush` leaves the files, and a row that is settled stays so.
  record Settles (c c' : Cache b.State) : Type 0 where
    files : c'.files ≡ c.files
    stays : (r : Row) → Settled c.items r (c.files r) → Settled c'.items r (c'.files r)

  flush_row-Settles :
      (disk : LocalDisk) (row : Row) (item : Item) (c : Cache b.State)
      → disk.reads row ≡ true
      → Settles c (flush_row b v disk row item c).1
        × ((flush_row b v disk row item c).0 ≡ true
            → Settled (flush_row b v disk row item c).1.items row (c.files row))
  unfolding flush_row
  flush_row-Settles disk row item c o =
      option_elim
        (λ (r : Bool × Cache b.State).
          Settles c r.1 × (r.0 ≡ true → Settled r.1.items row (c.files row)))
        (open_to_read disk row (c.files row)) _ _
        (λ missing. (
          record { files = refl; stays = λ r h. h },
          λ done. inr (rw (open_to_read_lem disk row (c.files row) o) at missing),
        ))
        (λ file found. (
          record {
            files = refl;
            stays = λ r h. elim h [
              | inl e ↦
                  inl (cleaned_if (flush_cells b v _ row file c.volume).0 row r _ c.items refl e)
              | inr none_there ↦ inr none_there
            ];
          },
          λ done. inl (rw done (cleaned_self row _ c.items refl)),
        ))

  Settles-trans : (c d e : Cache b.State) → Settles c d → Settles d e → Settles c e
  Settles-trans c d e s t = record {
    files = t.files ∙ s.files;
    stays = λ r h. t.stays r (s.stays r h);
  }

  -- What a flush of all entries that reports success has settled.
  abbrev Done : List (ℕ × Row) → Bool → Cache b.State → Bool × Cache b.State → Type 0
  Done times all c r =
      Settles c r.1
      × (r.0 ≡ true
          → (all ≡ true) × ((q : Row) → HasEntry q times → Settled r.1.items q (r.1.files q)))

  -- The first entry's row is settled before the others are looked at.
  Done-cons :
      (t : ℕ) (row : Row) (times : List (ℕ × Row)) (all : Bool) (c : Cache b.State)
      (r : Bool × Cache b.State)
      → Settled c.items row (c.files row)
      → Done times all c r
      → Done ((t, row) ∷ times) all c r
  Done-cons t row times all c r settled (s, d) = (
    s,
    λ success.
        let (before, listed) = d success in
        (
          before,
          λ q h. elim h [
            | inl equal ↦
                s.stays q (subst (λ (x : Row). Settled c.items x (c.files x)) equal settled)
            | inr later ↦ listed q later
          ],
        ),
  )

  -- No request waits, so the flush goes through all entries.
  flush_from-Done :
      (m : Moment) (expire : ℕ) (times : List (ℕ × Row)) (all : Bool) (c : Cache b.State)
      → ((row : Row) → m.pending row ≡ false)
      → ((row : Row) → m.disk.reads row ≡ true)
      → Done times all c (flush_from b v m true expire times all c)
  unfolding flush_from
  flush_from-Done m expire [] all c idle opens =
      (record { files = refl; stays = λ r h. h }, λ success. (success, λ q h. absurd h))
  flush_from-Done m expire ((t, row) ∷ times) all c idle opens =
      let skip = flush_from-Done m expire times all c idle opens in
      let Holds = Done ((t, row) ∷ times) all c in
      option_elim Holds (find_item row c.items) _ _
        (λ absent. Done-cons t row times all c _ (inl (ap is_dirty absent)) skip)
        (λ item found.
          if_elim Holds (not item.dirty) _ _
            (λ clean. Done-cons t row times all c _ (inl (ap is_dirty found ∙ ground arith)) skip)
            (λ dirty.
              let one = flush_row-Settles m.disk row item c (opens row) in
              let c' = (flush_row b v m.disk row item c).1 in
              let success = (flush_row b v m.disk row item c).0 in
              let next = flush_from-Done m expire times (all && success) c' idle opens in
              rw (idle row) (
                Settles-trans c c' _ one.0 next.0,
                λ over.
                    let (both, listed) = next.1 over in
                    let mine : success ≡ true = ground arith in
                    let settled : Settled c'.items row (c'.files row) =
                      subst (λ (f : Row → Option Bytes). Settled c'.items row (f row))
                        (sym one.0.files) (one.1 mine) in
                    (
                      ground arith,
                      λ q h. elim h [
                        | inl equal ↦
                            next.0.stays q
                              (subst (λ (x : Row). Settled c'.items x (c'.files x)) equal settled)
                        | inr later ↦ listed q later
                      ],
                    ),
              )))

no_cells :
    (cells : Cells) (col : Column) (block : Bytes)
    → stored cells ≡ none
    → cell_at col cells ≡ some block
    → ⊥
unfolding cell_at
no_cells [] col block e held = cc
no_cells (cell ∷ cells) col block e held = cc

module _ {b : Backend} {v : Volume} (H : IsHonest b v) (settings : Settings) (m : Moment) where
  open H use {content}

  -- A forced flush of a coherent cache, while no requests wait and the files that are there can be
  -- opened, that reports success: the volume behind has every block that is to be seen of each row
  -- that has a timestamp.
  pub flush_lem :
      (c : Cache b.State) (row : Row) (col : Column)
      → IsCoherent H c
      → ((r : Row) → m.pending r ≡ false)
      → ((r : Row) → m.disk.reads r ≡ true)
      → HasEntry row c.timestamps
      → let (success, c') = flush b v settings m true c in
        success ≡ true → content c'.volume row col ≡ view H c row col
  unfolding flush flush_times
  flush_lem c row col i idle opens listed success =
      let expire = (m.now + settings.flush_policy) % 2 ^ 64 in
      let f = flush_from_lem H m true expire c.timestamps true c i.cells i.sound in
      let c' = (flush_from b v m true expire c.timestamps true c).1 in
      let settled =
        ((flush_from-Done b v m expire c.timestamps true c idle opens).1 success).1 row listed in
      shown_held (cell_at col (i.cells row)) (content c'.volume row col) (λ block held.
        elim settled [
          | inl clean ↦ f.sound.clean row col block held clean
          | inr missing ↦
              absurd (no_cells (i.cells row) col block (sym (f.sound.kept row) ∙ missing) held)
        ])
      ∙ sym (view_lem H c' i.cells row col f.sound)
      ∙ (Flushed-Keeps H i.cells c c' i.sound f).same row col
