-- ===== src/Cache/Success.antt =====
-- When the requests of src/bdfsclient-lib/Cache.cpp succeed.
use drive.Cache.Blocks.{TakesAll, write_file_block_lem}
use drive.Cache.Coherence.{IsHonest, IsCoherent, view}
use drive.Cache.Files.{open_to_read, read_file_block}
use drive.Cache.Requests.{read_impl_lem}
use drive.Cache.Steps.{
  Cache, Settings, Moment, fetch_block, read_impl, store_block, write_impl, cache_read, cache_write,
}
use drive.HostPartition.{overlay}
use drive.HostPartition.Blocks.{length-overlay}
use drive.Cache.Answers.{length-view}
use drive.Prelude.{
  ℕ, ◌+◌, ◌%◌, ◌^◌, ◌≤◌, ◌<◌, ◌≡◌, ◌≢◌, ◌∙◌, if_elim, option_elim, Bool, true, false, ◌&&◌, ◌||◌,
  Option, none, some, inl, inr, ltb, leb, ◌==◌, length, take, drop, take_all, arith, Option-cases,
}
use drive.Prelude.Texts.{Bytes}
use drive.Volume.{Volume, Backend, Row, Column, columns, read_direct}

module _ {b : Backend} {v : Volume} (H : IsHonest b v) (settings : Settings) (m : Moment)
    (takes : TakesAll m.disk) where
  -- Every read of a good volume is answered.
  abbrev pub Answers : Type 0
  Answers =
      (row : Row) (col : Column) (s : b.State)
      → H.IsGood s
      → row < v.block_count
      → col < columns v
      → (read_direct b row col v.block_size 0 s).0 ≢ none

  fetch_block-answers :
      (row : Row) (col : Column) (c : Cache b.State)
      → Answers
      → IsCoherent H c
      → row < v.block_count
      → col < columns v
      → (fetch_block b v settings m row col c).0 ≢ none
  unfolding fetch_block
  fetch_block-answers row col c answers i n l =
      option_elim (λ (r : Option Bytes × Cache b.State). r.0 ≢ none)
        (read_file_block v.block_size (open_to_read m.disk row (c.files row)) col) _ _
        (λ missing. answers row col c.volume i.sound.good n l) (λ block found e. cc)

  read_impl-answers :
      (row : Row) (col : Column) (size offset : ℕ) (c : Cache b.State)
      → Answers
      → IsCoherent H c
      → row < v.block_count
      → col < columns v
      → (read_impl b v settings m row col size offset c).0 ≢ none
  unfolding read_impl
  read_impl-answers row col size offset c answers i n l e =
      elim (Option-cases (fetch_block b v settings m row col c).0) [
        | inl silent ↦ fetch_block-answers row col c answers i n l silent
        | inr (block, given) ↦ let one : some _ ≡ none = rw (read_impl, given) at e in cc
      ]

  store_block-succeeds :
      (row : Row) (col : Column) (block : Bytes) (c : Cache b.State)
      → IsCoherent H c
      → m.disk.creates ≡ true
      → col < columns v
      → length block ≡ v.block_size
      → (store_block b v settings m row col block c).0 ≡ true
  unfolding store_block
  store_block-succeeds row col block c i creates l sized =
      elim (write_file_block_lem v.block_size H.has_bytes m.disk takes col block
        (omega (arith, H.few_columns)) sized (i.cells row) (i.sound.sized row)) [
          | inl written ↦ rw (store_block, i.sound.kept row, written)
          | inr (no_file, _) ↦ cc
        ]

  write_impl-succeeds :
      (row : Row) (col : Column) (bytes : Bytes) (offset : ℕ) (c : Cache b.State)
      → Answers
      → IsCoherent H c
      → m.disk.creates ≡ true
      → row < v.block_count
      → col < columns v
      → offset + length bytes ≤ v.block_size
      → (write_impl b v settings m row col bytes offset c).0 ≡ true
  unfolding write_impl
  write_impl-succeeds row col bytes offset c answers i creates n l fits =
      let r = read_impl_lem H settings m takes row col v.block_size 0 c i n l in
      let whole = length-view H row col c i n l in
      if_elim (λ (r : Bool × Cache b.State). r.0 ≡ true)
        (length bytes == v.block_size && offset == 0) _ _
        (λ full. store_block-succeeds row col bytes c i creates l (ground arith))
        (λ part. elim r.answered [
          | inl silent ↦ absurd (read_impl-answers row col v.block_size 0 c answers i n l silent)
          | inr given ↦
              rw (given, take_all v.block_size (view H c row col) (omega arith))
                (store_block-succeeds row col (overlay offset bytes (view H c row col)) _
                  r.keeps.coherent creates l
                  (length-overlay offset bytes (view H c row col) (omega arith) ∙ whole))
        ])

  -- A volume that answers and a disk that makes files: requests inside a block succeed.
  pub cache_read-answers :
      (row : Row) (col : Column) (size offset : ℕ) (c : Cache b.State)
      → Answers
      → IsCoherent H c
      → row < v.block_count
      → col < columns v
      → v.block_size < 2 ^ 64
      → offset + size ≤ v.block_size
      → (cache_read b v settings m row col size offset c).0
        ≡ some (take size (drop offset (view H c row col)))
  unfolding cache_read
  cache_read-answers row col size offset c answers i n l small fits =
      let taken : (leb (columns v) col || ltb v.block_size ((size + offset) % 2 ^ 64)) ≡ false =
        ground arith in
      let r = read_impl_lem H settings m takes row col size offset c i n l in
      rw taken (elim r.answered [
        | inl silent ↦ absurd (read_impl-answers row col size offset c answers i n l silent)
        | inr given ↦ given
      ])

  pub cache_write-succeeds :
      (row : Row) (col : Column) (bytes : Bytes) (offset : ℕ) (c : Cache b.State)
      → Answers
      → IsCoherent H c
      → m.disk.creates ≡ true
      → row < v.block_count
      → col < columns v
      → v.block_size < 2 ^ 64
      → offset + length bytes ≤ v.block_size
      → (cache_write b v settings m row col bytes offset c).0 ≡ true
  unfolding cache_write
  cache_write-succeeds row col bytes offset c answers i creates n l small fits =
      let taken : (leb (columns v) col || ltb v.block_size ((length bytes + offset) % 2 ^ 64))
          ≡ false =
        ground arith in
      rw taken (write_impl-succeeds row col bytes offset c answers i creates n l fits)
