-- ===== src/Cache/Answers.antt =====
-- The requests `Read` and `Write` of src/bdfsclient-lib/Cache.cpp against the blocks that a reader
-- is to see.
use drive.Cache.Blocks.{TakesAll}
use drive.Cache.Cells.{cell_at, length-cell_at}
use drive.Cache.Coherence.{IsHonest, IsCoherent, view, view_lem}
use drive.Cache.Requests.{read_impl_lem, store_block_lem}
use drive.Cache.Steps.{Cache, Settings, Moment, read_impl, write_impl, cache_read, cache_write}
use drive.HostPartition.{overlay}
use drive.HostPartition.Blocks.{length-overlay, overlay_all}
use drive.Prelude.{
  ℕ, ◌+◌, ◌%◌, ◌^◌, ◌≤◌, ◌<◌, ◌≡◌, refl, ap, ◌∙◌, if_elim, Bool, ◌&&◌, ◌||◌, Option, none, some,
  ◌⊎◌, inl, inr, ltb, leb, ◌==◌, if◌then◌else◌, length, take, drop, take_all, arith, Option-cases,
}
use drive.Prelude.Texts.{Bytes}
use drive.Volume.{Volume, Backend, Row, Column, columns}

module _ {b : Backend} {v : Volume} (H : IsHonest b v) where
  open H use {content}

  pub length-view :
      (row : Row) (col : Column) (c : Cache b.State)
      → IsCoherent H c
      → row < v.block_count
      → col < columns v
      → length (view H c row col) ≡ v.block_size
  length-view row col c i n l =
      ap length (view_lem H c i.cells row col i.sound)
      ∙ elim (Option-cases (cell_at col (i.cells row))) [
        | inl absent ↦ rw absent (H.length-content c.volume row col i.sound.good n l)
        | inr (block, held) ↦
            rw held (length-cell_at v.block_size col block (i.cells row) (i.sound.sized row) held)
      ]

  module _ (settings : Settings) (m : Moment) (takes : TakesAll m.disk) where
    -- A request to write: what it leaves to be seen, whatever fails on the way.
    pub record Changed (row : Row) (col : Column) (bytes : Bytes) (offset : ℕ) (c : Cache b.State)
        (r : Bool × Cache b.State) : Type 0 where
      pub coherent : IsCoherent H r.1
      pub seen :
          (q : Row) (k : Column)
          → view H r.1 q k ≡ (
              if r.0 && (row == q && col == k)
              then overlay offset bytes (view H c row col)
              else view H c q k)

    pub write_impl_lem :
        (row : Row) (col : Column) (bytes : Bytes) (offset : ℕ) (c : Cache b.State)
        → IsCoherent H c
        → row < v.block_count
        → col < columns v
        → offset + length bytes ≤ v.block_size
        → Changed row col bytes offset c (write_impl b v settings m row col bytes offset c)
    unfolding write_impl
    write_impl_lem row col bytes offset c i n l fits =
        let r = read_impl_lem H settings m takes row col v.block_size 0 c i n l in
        let c' = (read_impl b v settings m row col v.block_size 0 c).1 in
        let whole = length-view row col c i n l in
        if_elim (Changed row col bytes offset c) (length bytes == v.block_size && offset == 0) _ _
          (λ full.
            let sized : length bytes ≡ v.block_size = ground arith in
            let start : offset ≡ 0 = ground arith in
            let w = store_block_lem H settings m takes row col bytes c i n l sized in
            let laid : overlay offset bytes (view H c row col) ≡ bytes =
              rw start (overlay_all bytes (view H c row col) (omega arith)) in
            record { coherent = w.coherent; seen = λ q k. w.seen q k ∙ rw laid })
          (λ part. elim r.answered [
            | inl silent ↦ rw silent (record { coherent = r.keeps.coherent; seen = r.keeps.same })
            | inr given ↦
                let laid = overlay offset bytes (view H c row col) in
                let w =
                  store_block_lem H settings m takes row col laid c' r.keeps.coherent n l
                    (length-overlay offset bytes (view H c row col) (omega arith) ∙ whole) in
                rw (given, take_all v.block_size (view H c row col) (omega arith))
                  (record {
                    coherent = w.coherent;
                    seen = λ q k. w.seen q k ∙ rw (r.keeps.same q k);
                  })
          ])

    pub cache_read_lem :
        (row : Row) (col : Column) (size offset : ℕ) (c : Cache b.State)
        → IsCoherent H c
        → row < v.block_count
        → let (answer, c') = cache_read b v settings m row col size offset c in
          IsCoherent H c'
          × ((q : Row) (k : Column) → view H c' q k ≡ view H c q k)
          × ((answer ≡ none) ⊎ (answer ≡ some (take size (drop offset (view H c row col)))))
    unfolding cache_read
    cache_read_lem row col size offset c i n =
        let Holds = λ (r : Option Bytes × Cache b.State).
          IsCoherent H r.1
          × ((q : Row) (k : Column) → view H r.1 q k ≡ view H c q k)
          × ((r.0 ≡ none) ⊎ (r.0 ≡ some (take size (drop offset (view H c row col))))) in
        if_elim Holds (leb (columns v) col || ltb v.block_size ((size + offset) % 2 ^ 64)) _ _
          (λ refused. (i, λ q k. refl, inl refl))
          (λ taken.
            let r = read_impl_lem H settings m takes row col size offset c i n (ground arith) in
            (r.keeps.coherent, r.keeps.same, r.answered))

    -- On a coherent cache, with bytes that end inside a block of the volume and a disk that opens the
    -- files that are there and takes all of a write, whatever else fails: after a request to write
    -- that succeeds its bytes are to be seen over what the block held, and else every block is to be
    -- seen as before. The cache stays coherent.
    pub cache_write_lem :
        (row : Row) (col : Column) (bytes : Bytes) (offset : ℕ) (c : Cache b.State)
        → IsCoherent H c
        → row < v.block_count
        → offset + length bytes ≤ v.block_size
        → let (success, c') = cache_write b v settings m row col bytes offset c in
          IsCoherent H c'
          × ((q : Row) (k : Column)
              → view H c' q k ≡ (
                  if success && (row == q && col == k)
                  then overlay offset bytes (view H c row col)
                  else view H c q k))
    unfolding cache_write
    cache_write_lem row col bytes offset c i n fits =
        let Holds = λ (r : Bool × Cache b.State).
          IsCoherent H r.1
          × ((q : Row) (k : Column)
              → view H r.1 q k ≡ (
                  if r.0 && (row == q && col == k)
                  then overlay offset bytes (view H c row col)
                  else view H c q k)) in
        if_elim Holds (leb (columns v) col || ltb v.block_size ((length bytes + offset) % 2 ^ 64)) _
          _ (λ refused. (i, λ q k. refl))
          (λ taken.
            let w = write_impl_lem row col bytes offset c i n (ground arith) fits in
            (w.coherent, w.seen))
