-- ===== src/Tests/Caches.antt =====
-- A volume of two rows, two data columns and blocks of three bytes in memory, behind a cache.
use drive.Cache.Answers.{cache_write_lem}
use drive.Cache.Backing.{Timed, with_cache, fresh-IsCoherent, read-write-with_cache}
use drive.Cache.Blocks.{stored, TakesAll}
use drive.Cache.Cells.{Cells, AreCells, cell_at, encode_cells}
use drive.Cache.Coherence.{IsHonest, IsCoherent, view}
use drive.Cache.Durability.{flush_lem}
use drive.Cache.Fetches.{with_cells, refiled, with_cells_all}
use drive.Cache.Files.{le_bytes, open_to_read}
use drive.Cache.Steps.{
  Cache, new_cache, Settings, Moment, put_file, find_item, flush_cells, flush_row, flush_from,
  flush_times, flush, cache_read, cache_write,
}
use drive.HostPartition.{Partition, overlay}
use drive.HostPartition.Blocks.{length-overlay, overlay_all}
use drive.Prelude.{
  ◌<◌, ◌≡◌, refl, ◌∙◌, true, false, ◌&&◌, none, some, inl, inr, [], ◌∷◌, arith, ◌==◌, if◌then◌else◌,
  length, take, drop, take_all, Bool-cases, if_elim,
}
use drive.Prelude.Texts.{Bytes}
use drive.Stream.Arrays.{from_le}
use drive.Tests.Volumes.{
  disk, volume, copy_codes, no_decode, partition, backend-IsReliable, ready-IsGood,
}
use drive.Volume.{Backend, Row, Column, read_direct, write_direct}
use drive.Volume.Hosts.{hosts}
use drive.Volume.Requests.{read, write}

abbrev memory : Backend
memory = record {
  State = Row → Column → Bytes;
  remote_read = λ col row offset size s. (some (take size (drop offset (s row col))), s);
  remote_write = λ col row offset bytes s. (
    some (length bytes),
    λ r k. if r == row && k == col then overlay offset bytes (s r k) else s r k,
  );
  verify_block = λ col row s. true;
  cached = false;
  cache_read = λ row col size offset s. (none, s);
  cache_write = λ row col bytes offset s. (false, s);
  encode = copy_codes;
  decode = no_decode;
}

-- Blocks of three bytes.
abbrev AreBlocks : (Row → Column → Bytes) → Type 0
AreBlocks s = (r : Row) (k : Column) → length (s r k) ≡ 3

memory-IsHonest : IsHonest memory volume
unfolding read_direct write_direct
memory-IsHonest = record {
  has_bytes = omega arith;
  few_columns = omega arith;
  IsGood = AreBlocks;
  content = λ s row col. s row col;
  length-content = λ s row col g n l. g row col;
  read_good = λ row col s g n l. g;
  read_same = λ row col s r k g n l. refl;
  read_content = λ row col s block g n l e.
      ground (arith, take_all 3 (s row col) (omega (arith, g row col)), g row col);
  write_good = λ row col block s g n l sized r k.
      if_elim (λ (x : Bytes). length x ≡ 3) (r == row && k == col) _ (s r k)
        (λ here. length-overlay 0 block (s r k) (omega (arith, g r k)) ∙ g r k) (λ other. g r k);
  write_others = λ row col block s r k g n l sized other.
      let apart : (r == row && k == col) ≡ false = ground arith in rw apart;
  write_content = λ row col block s g n l sized done.
      let here : (row == row && col == col) ≡ true = ground arith in
      rw here (overlay_all block (s row col) (omega (arith, g row col)));
}

abbrev blocks : Row → Column → Bytes
blocks row col = row ∷ col ∷ 9 ∷ []

abbrev settings : Settings
settings = record { limit = 1; flush_policy = 60 }

abbrev moment : Moment
moment = record {
  now = 1000;
  pending = λ row. false;
  disk = record { reads = λ row. true; updates = true; creates = true; takes = λ n. n };
}

takes : TakesAll (moment.disk)
takes = record { all = λ n. omega arith; reads = λ row. refl; updates = refl }

-- Row 0 has a block that the volume does not have yet.
abbrev dirty_cells : Cells
dirty_cells = (1, 7 ∷ 7 ∷ 7 ∷ []) ∷ []

abbrev dirty_cache : Cache (Row → Column → Bytes)
dirty_cache = record {
  volume = blocks;
  items = (0, record { timestamp = 990; dirty = true }) ∷ [];
  timestamps = (990, 0) ∷ [];
  files = put_file 0 (stored dirty_cells) (λ row. none);
}

dirty_cache-IsCoherent : IsCoherent memory-IsHonest dirty_cache
unfolding memory-IsHonest cell_at find_item
dirty_cache-IsCoherent = record {
  cells = with_cells 0 dirty_cells (λ row. []);
  sound = record {
    good = λ r k. refl;
    kept = refiled 0 dirty_cells (λ row. none) (λ row. []) (λ row. refl);
    sized =
        with_cells_all (λ r t. AreCells 3 t) 0 dirty_cells (λ row. []) (omega arith, refl, refl, tt)
          (λ row. tt);
    placed =
        with_cells_all (λ r t. (k : Column) (x : Bytes) → cell_at k t ≡ some x → (r < 2) × (k < 3))
          0 dirty_cells (λ row. []) (λ k x e. ground arith) (λ row k x e. cc);
    clean = λ row col block e d. elim (Bool-cases (0 == row)) [
      | inl same ↦ cc (rw same at d)
      | inr other ↦ cc (rw other at e)
    ];
  };
}

cache_write_lem_example :
    let c = dirty_cache in
    let (success, c') = cache_write memory volume settings moment 1 0 (5 ∷ 6 ∷ []) 1 c in
    IsCoherent memory-IsHonest c'
    × ((q : Row) (k : Column)
        → view memory-IsHonest c' q k ≡ (
            if success && (1 == q && 0 == k)
            then overlay 1 (5 ∷ 6 ∷ []) (view memory-IsHonest c 1 0)
            else view memory-IsHonest c q k))
cache_write_lem_example =
    cache_write_lem memory-IsHonest settings moment takes 1 0 (5 ∷ 6 ∷ []) 1 dirty_cache
      dirty_cache-IsCoherent (omega arith) (omega arith)

flush_success : (flush memory volume settings moment true dirty_cache).0 ≡ true
unfolding flush flush_times flush_from flush_row open_to_read flush_cells find_item encode_cells
    le_bytes from_le write_direct
flush_success = refl

flush_lem_example :
    memory-IsHonest.content (flush memory volume settings moment true dirty_cache).1.volume 0 1
    ≡ view memory-IsHonest dirty_cache 0 1
flush_lem_example =
    flush_lem memory-IsHonest settings moment dirty_cache 0 1 dirty_cache-IsCoherent (λ r. refl)
      (λ r. refl) (inl refl) flush_success

abbrev fresh : Timed (Column → Partition)
fresh = record { cache = new_cache (λ col. partition) (λ row. none); requests = 0 }

read-write-with_cache_example :
    let c = with_cache (hosts disk copy_codes no_decode) volume settings (λ n. moment) in
    ((write c volume (1 ∷ 2 ∷ 3 ∷ 4 ∷ 5 ∷ 6 ∷ 7 ∷ []) 1 fresh).0 ≡ true)
    × ((read c volume 7 1 (write c volume (1 ∷ 2 ∷ 3 ∷ 4 ∷ 5 ∷ 6 ∷ 7 ∷ []) 1 fresh).1).0
        ≡ some (1 ∷ 2 ∷ 3 ∷ 4 ∷ 5 ∷ 6 ∷ 7 ∷ []))
read-write-with_cache_example =
    read-write-with_cache backend-IsReliable refl settings (λ n. moment) (omega arith) (omega arith)
      (λ n. takes) (λ n. refl) (1 ∷ 2 ∷ 3 ∷ 4 ∷ 5 ∷ 6 ∷ 7 ∷ []) 1 fresh (omega arith) (omega arith)
      (omega arith) (fresh-IsCoherent backend-IsReliable refl (omega arith) _ ready-IsGood)
