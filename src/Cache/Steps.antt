-- ===== src/Cache/Steps.antt =====
-- The operations of the cache's thread (src/bdfsclient-lib/Cache.cpp), and the requests on it.
use drive.Cache.Files.{LocalDisk, open_to_read, read_file_block, write_file_block}
use drive.HostPartition.{overlay}
use drive.Prelude.{
  ℕ, zero, suc, ◌+◌, ◌%◌, ◌^◌, Bool, true, false, not, ◌&&◌, ◌||◌, Option, none, some, List, [],
  ◌∷◌, ◌++◌, ltb, leb, ◌==◌, if◌then◌else◌, length, take, drop,
}
use drive.Prelude.Texts.{Bytes}
use drive.Stream.Arrays.{from_le}
use drive.Volume.{Volume, Backend, Row, Column, columns, read_direct, write_direct}

pub record Item : Type 0 where
  pub timestamp : ℕ
  pub dirty : Bool

-- The code looks at no order of `items`; `timestamps` is in the order of the times, and of the
-- insertions at one time. `files` are those of the cache's folder, `volume` the state behind it.
pub record Cache (S : Type 0) : Type 0 where
  pub volume : S
  pub items : List (Row × Item)
  pub timestamps : List (ℕ × Row)
  pub files : Row → Option Bytes

-- The constructor, on the files that its folder has: `cleanpath` deletes none of them.
abbrev pub new_cache : {S : Type 0} → S → (Row → Option Bytes) → Cache S
new_cache s files = record { volume = s; items = []; timestamps = []; files = files }

pub record Settings : Type 0 where
  pub limit : ℕ
  pub flush_policy : ℕ

-- What a step finds around it: the time, the same throughout the step, whether there are requests
-- in the queue when a row has been flushed, and the disk.
pub record Moment : Type 0 where
  pub now : ℕ
  pub pending : Row → Bool
  pub disk : LocalDisk

unfoldable pub find_item : Row → List (Row × Item) → Option Item
find_item row [] = none
find_item row ((r, item) ∷ items) = if r == row then some item else find_item row items

unfoldable pub put_item : Row → Item → List (Row × Item) → List (Row × Item)
put_item row item [] = (row, item) ∷ []
put_item row item ((r, old) ∷ items) =
    if r == row then (row, item) ∷ items else (r, old) ∷ put_item row item items

unfoldable pub erase_item : Row → List (Row × Item) → List (Row × Item)
erase_item row [] = []
erase_item row ((r, old) ∷ items) = if r == row then items else (r, old) ∷ erase_item row items

-- `emplace` into the multimap: behind all entries of that time and before.
unfoldable pub emplace_time : ℕ → Row → List (ℕ × Row) → List (ℕ × Row)
emplace_time time row [] = (time, row) ∷ []
emplace_time time row ((t, r) ∷ times) =
    if leb t time then (t, r) ∷ emplace_time time row times else (time, row) ∷ (t, r) ∷ times

-- The loop over `equal_range`.
unfoldable pub erase_time : ℕ → Row → List (ℕ × Row) → List (ℕ × Row)
erase_time time row [] = []
erase_time time row ((t, r) ∷ times) =
    if t == time && r == row then times else (t, r) ∷ erase_time time row times

abbrev pub put_file : Row → Option Bytes → (Row → Option Bytes) → Row → Option Bytes
put_file row file files r = if row == r then file else files r

abbrev pub is_dirty : Option Item → Bool
is_dirty none = false
is_dirty (some item) = item.dirty

abbrev is_last : List (ℕ × Row) → Bool
is_last [] = true
is_last (_ ∷ _) = false

module _ (b : Backend) (v : Volume) where
  -- The loop of `Flush` over the file of a row. A round takes eight bytes at least.
  unfoldable pub flush_cells : ℕ → Row → Bytes → b.State → Bool × b.State
  flush_cells zero row rest s = (true, s)
  flush_cells (suc fuel) row rest s =
      let column = from_le (take 8 rest) in
      let block = take v.block_size (drop 8 rest) in
      let (written, s') = write_direct b row column block 0 s in
      let next = flush_cells fuel row (drop (8 + v.block_size) rest) s' in
      if not (length (take 8 rest) == 8)
      then (true, s)
      else if not (length block == v.block_size)
      then (false, s)
      else if written
      then next
      else (false, s')

  -- The part of `Flush` for a row that is dirty.
  unfoldable pub flush_row : LocalDisk → Row → Item → Cache b.State → Bool × Cache b.State
  flush_row disk row item c = elim (open_to_read disk row (c.files row)) [
    | none ↦ (true, c)
    | some file ↦
        let (success, s) = flush_cells (suc (length file)) row file c.volume in
        (
          success,
          record c {
            volume = s;
            items =
                if success then put_item row (record item { dirty = false }) c.items else c.items;
          },
        )
  ]

  -- The loop of `Flush` over the timestamps. Where requests wait, the result is whether this
  -- was the last entry, whatever failed before.
  unfoldable pub flush_from :
      Moment → Bool → ℕ → List (ℕ × Row) → Bool → Cache b.State → Bool × Cache b.State
  flush_from m force expire [] all c = (all, c)
  flush_from m force expire ((t, row) ∷ times) all c =
      let skip = flush_from m force expire times all c in
      if not force && ltb expire t then (all, c) else elim (find_item row c.items) [
        | none ↦ skip
        | some item ↦
            let (success, c') = flush_row m.disk row item c in
            let next = flush_from m force expire times (all && success) c' in
            if not item.dirty then skip else if m.pending row then (is_last times, c') else next
      ]

  module _ (settings : Settings) (m : Moment) where
    unfoldable pub flush_times : Bool → List (ℕ × Row) → Cache b.State → Bool × Cache b.State
    flush_times force times c =
        flush_from m force ((m.now + settings.flush_policy) % 2 ^ 64) times true c

    -- `Flush`
    unfoldable pub flush : Bool → Cache b.State → Bool × Cache b.State
    flush force c = flush_times force c.timestamps c

    -- The loop of `Pop`, while there are `size` items; `kept` are the timestamps passed over.
    unfoldable pub pop_from : ℕ → List (ℕ × Row) → List (ℕ × Row) → Cache b.State → Cache b.State
    pop_from size kept [] c = record c { timestamps = kept }
    pop_from size kept ((t, row) ∷ times) c =
        let gone = pop_from size kept times c in
        let flushed =
          if is_dirty (find_item row c.items)
          then (flush_times false (kept ++ (t, row) ∷ times) c).1
          else c in
        let evicted = pop_from size kept times (record flushed {
          items = erase_item row flushed.items;
          files = put_file row none flushed.files;
        }) in
        let passed = pop_from size (kept ++ (t, row) ∷ []) times flushed in
        if not (length c.items == size)
        then record c { timestamps = kept ++ (t, row) ∷ times }
        else elim (find_item row c.items) [
          | none ↦ gone
          | some item ↦ if is_dirty (find_item row flushed.items) then passed else evicted
        ]

    -- `Pop`
    unfoldable pub pop : Cache b.State → Cache b.State
    pop c = pop_from (length c.items) [] c.timestamps c

    -- The entry of the row made or changed; a row that is dirty stays dirty.
    unfoldable pub touch : Row → Bool → Cache b.State → Cache b.State
    touch row set_dirty c =
        let known : List (ℕ × Row) = elim (find_item row c.items) [
          | none ↦ c.timestamps
          | some item ↦ erase_time item.timestamp row c.timestamps
        ] in
        let dirty = set_dirty || is_dirty (find_item row c.items) in
        record c {
          items = put_item row (record { timestamp = m.now; dirty = dirty }) c.items;
          timestamps = emplace_time m.now row known;
        }

    -- `UpdateTimestamp`
    unfoldable pub update_timestamp : Row → Bool → Cache b.State → Cache b.State
    update_timestamp row set_dirty c =
        let c' = touch row set_dirty c in
        if ltb settings.limit (length c'.items) then pop c' else c'

    -- The block that `ReadImpl` reads, before it looks at the timestamps.
    unfoldable pub fetch_block : Row → Column → Cache b.State → Option Bytes × Cache b.State
    fetch_block row column c =
        elim (read_file_block v.block_size (open_to_read m.disk row (c.files row)) column) [
          | some block ↦ (some block, c)
          | none ↦
              let (answer, s) = read_direct b row column v.block_size 0 c.volume in
              (
                answer,
                elim answer [
                  | none ↦ record c { volume = s }
                  | some block ↦
                      let (_, file) =
                        write_file_block v.block_size m.disk (c.files row) column block in
                      record c { volume = s; files = put_file row file c.files }
                ],
              )
        ]

    -- `ReadImpl`
    unfoldable pub read_impl : Row → Column → ℕ → ℕ → Cache b.State → Option Bytes × Cache b.State
    read_impl row column size offset c =
        let (answer, c') = fetch_block row column c in
        (
          elim answer [ none ↦ none | some block ↦ some (take size (drop offset block)) ],
          update_timestamp row false c',
        )

    -- The end of `WriteImpl`.
    unfoldable pub store_block : Row → Column → Bytes → Cache b.State → Bool × Cache b.State
    store_block row column block c =
        let (success, file) = write_file_block v.block_size m.disk (c.files row) column block in
        let c' = record c { files = put_file row file c.files } in
        (success, if success then update_timestamp row true c' else c')

    -- `WriteImpl`
    unfoldable pub write_impl : Row → Column → Bytes → ℕ → Cache b.State → Bool × Cache b.State
    write_impl row column bytes offset c =
        let (answer, c') = read_impl row column v.block_size 0 c in
        if length bytes == v.block_size && offset == 0
        then store_block row column bytes c
        else elim answer [
          | none ↦ (false, c')
          | some block ↦ store_block row column (overlay offset bytes block) c'
        ]

    -- `Read` and `Write` while the cache is active: the request goes to the thread, and its
    -- result comes back.
    abbrev is_refused : Column → ℕ → ℕ → Bool
    is_refused column size offset =
        leb (columns v) column || ltb v.block_size ((size + offset) % 2 ^ 64)

    unfoldable pub cache_read : Row → Column → ℕ → ℕ → Cache b.State → Option Bytes × Cache b.State
    cache_read row column size offset c =
        if is_refused column size offset then (none, c) else read_impl row column size offset c

    unfoldable pub cache_write : Row → Column → Bytes → ℕ → Cache b.State → Bool × Cache b.State
    cache_write row column bytes offset c =
        if is_refused column (length bytes) offset
        then (false, c)
        else write_impl row column bytes offset c
