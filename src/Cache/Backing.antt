-- ===== src/Cache/Backing.antt =====
-- A volume whose cells go through a cache (`EnableCache` of src/bdfsclient-lib/Volume.cpp): the cache
-- of src/bdfsclient-lib/Cache.cpp between the volume's requests and its partitions.
use drive.Cache.Answers.{length-view, cache_read_lem, cache_write_lem}
use drive.Cache.Blocks.{TakesAll}
use drive.Cache.Coherence.{IsHonest, IsCoherent, new_cache-IsCoherent, view}
use drive.Cache.Steps.{Cache, new_cache, Settings, Moment, cache_read, cache_write}
use drive.Cache.Success.{Answers, cache_read-answers, cache_write-succeeds}
use drive.HostPartition.Blocks.{overlay_all}
use drive.Prelude.{
  ℕ, suc, ◌+◌, ◌*◌, ◌^◌, ◌≤◌, ◌<◌, ◌≡◌, sym, ap, ◌∙◌, Bool, true, false, ◌&&◌, none, some, ◌==◌,
  if◌then◌else◌, length, take_all, arith,
}
use drive.Prelude.Texts.{Bytes}
use drive.Volume.{
  Volume, Backend, Row, Column, columns, read_direct, write_direct, read_cached, write_cached,
}
use drive.Volume.Cells.{IsReliable}
use drive.Volume.Reads.{read-write}
use drive.Volume.Requests.{read, write}

-- The moments of the requests, one after the other; `requests` counts them.
pub record Timed (S : Type 0) : Type 0 where
  pub cache : Cache S
  pub requests : ℕ

module _ (b : Backend) (v : Volume) (settings : Settings) (moments : ℕ → Moment) where
  abbrev behind : {A : Type 0} → A × b.State → Timed (b.State) → A × Timed b.State
  behind (a, s) t = (a, record t { cache = record t.cache { volume = s } })

  abbrev after : {A : Type 0} → A × Cache b.State → Timed (b.State) → A × Timed b.State
  after (a, c) t = (a, record { cache = c; requests = suc t.requests })

  abbrev pub with_cache : Backend
  with_cache = record {
    State = Timed b.State;
    remote_read =
        λ col row offset size t. behind (b.remote_read col row offset size t.cache.volume) t;
    remote_write =
        λ col row offset bytes t. behind (b.remote_write col row offset bytes t.cache.volume) t;
    verify_block = λ col row t. b.verify_block col row t.cache.volume;
    cached = true;
    cache_read = λ row col size offset t.
        after (cache_read b v settings (moments t.requests) row col size offset t.cache) t;
    cache_write = λ row col bytes offset t.
        after (cache_write b v settings (moments t.requests) row col bytes offset t.cache) t;
    encode = b.encode;
    decode = b.decode;
  }

same_cell :
    (row : Row) (col : Column) (r : Row) (c : Column)
    → (row == r && col == c) ≡ (r == row && c == col)
same_cell row col r c = ground arith

module _ {b : Backend} {v : Volume} (R : IsReliable b v) (direct : b.cached ≡ false) where
  through_read :
      (row : Row) (col : Column) (size offset : ℕ) (s : b.State)
      → read_cached b row col size offset s ≡ read_direct b row col size offset s
  unfolding read_cached
  through_read row col size offset s =
      ap
        (λ (cached : Bool).
          if cached
          then b.cache_read row col size offset s
          else read_direct b row col size offset s)
        direct

  through_write :
      (row : Row) (col : Column) (bytes : Bytes) (offset : ℕ) (s : b.State)
      → write_cached b row col bytes offset s ≡ write_direct b row col bytes offset s
  unfolding write_cached
  through_write row col bytes offset s =
      ap
        (λ (cached : Bool).
          if cached
          then b.cache_write row col bytes offset s
          else write_direct b row col bytes offset s)
        direct

  whole_block :
      (row : Row) (col : Column) (s : b.State)
      → R.IsGood s
      → row < v.block_count
      → col < columns v
      → ((read_direct b row col v.block_size 0 s).0 ≡ some (R.content s row col))
        × R.IsGood (read_direct b row col v.block_size 0 s).1
  whole_block row col s g n l =
      let whole =
        take_all v.block_size (R.content s row col)
          (omega (arith, R.length-content row col s g n l)) in
      rw (← through_read row col v.block_size 0 s)
        (rw whole at (R.read_good row col v.block_size 0 s g n l R.has_bytes (omega arith)))

  -- Without failures the volume behind the cache keeps its promises.
  pub reliable-IsHonest : columns v ≤ 2 ^ 64 → IsHonest b v
  reliable-IsHonest few = record {
    has_bytes = R.has_bytes;
    few_columns = few;
    IsGood = R.IsGood;
    content = R.content;
    length-content = λ s row col g n l. R.length-content row col s g n l;
    read_good = λ row col s g n l. (whole_block row col s g n l).1;
    read_same = λ row col s r k g n l.
        rw (← through_read row col v.block_size 0 s)
          (R.read_same row col v.block_size 0 s r k g n l R.has_bytes (omega arith));
    read_content = λ row col s block g n l e.
        let one : some block ≡ some (R.content s row col) =
          sym e ∙ (whole_block row col s g n l).0 in
        cc;
    write_good = λ row col block s g n l sized.
        rw (← through_write row col block 0 s)
          (R.write_good row col block 0 s g n l (omega (arith, R.has_bytes)) (omega arith)).1;
    write_others = λ row col block s r k g n l sized other.
        let apart : (r == row && k == col) ≡ false = ground arith in
        rw (← through_write row col block 0 s) (
          R.write_content row col block 0 s r k g n l (omega (arith, R.has_bytes)) (omega arith)
          ∙ rw apart);
    write_content = λ row col block s g n l sized done.
        let here : (row == row && col == col) ≡ true = ground arith in
        rw (← through_write row col block 0 s) (
          R.write_content row col block 0 s row col g n l (omega (arith, R.has_bytes)) (omega arith)
          ∙ rw here (
              overlay_all block (R.content s row col)
                (omega (arith, R.length-content row col s g n l))));
  }

  -- A new cache, in a folder without files.
  pub fresh-IsCoherent :
      (few : columns v ≤ 2 ^ 64) (s : b.State)
      → R.IsGood s
      → IsCoherent (reliable-IsHonest few) (new_cache s (λ row. none))
  unfolding reliable-IsHonest
  fresh-IsCoherent few s g = new_cache-IsCoherent (reliable-IsHonest few) s g

  module _ (settings : Settings) (moments : ℕ → Moment) (few : columns v ≤ 2 ^ 64)
      (small : v.block_size < 2 ^ 64) (takes : (n : ℕ) → TakesAll (moments n).disk)
      (creates : (n : ℕ) → (moments n).disk.creates ≡ true) where
    pub answers : (m : Moment) (t : TakesAll m.disk) → Answers (reliable-IsHonest few) settings m t
    unfolding reliable-IsHonest
    answers m t row col s g n l e =
        let one : some (R.content s row col) ≡ none = sym (whole_block row col s g n l).0 ∙ e in cc

    -- The cache with such a volume behind it, on a disk that makes and opens files and takes all of
    -- each write, at whatever times its requests come: as reliable as the volume.
    pub with_cache-IsReliable : IsReliable (with_cache b v settings moments) v
    unfolding reliable-IsHonest read_cached write_cached
    with_cache-IsReliable =
        let H = reliable-IsHonest few in
        record {
          has_bytes = R.has_bytes;
          IsGood = λ t. IsCoherent H t.cache;
          content = λ t row col. view H t.cache row col;
          length-content = λ row col t i n l. length-view H row col t.cache i n l;
          read_good = λ row col size offset t i n l pos fits.
              let m = moments t.requests in
              let k = takes t.requests in
              (
                cache_read-answers H settings m k row col size offset t.cache (answers m k) i n l
                    small fits,
                (cache_read_lem H settings m k row col size offset t.cache i n).0,
              );
          read_same = λ row col size offset t r c i n l pos fits.
              (cache_read_lem H settings (moments t.requests) (takes t.requests) row col size offset
                  t.cache i n).1
                r c;
          write_good = λ row col bytes offset t i n l pos fits.
              let m = moments t.requests in
              let k = takes t.requests in
              (
                cache_write-succeeds H settings m k row col bytes offset t.cache (answers m k) i
                    (creates t.requests) n l small fits,
                (cache_write_lem H settings m k row col bytes offset t.cache i n fits).0,
              );
          write_content = λ row col bytes offset t r c i n l pos fits.
              let m = moments t.requests in
              let k = takes t.requests in
              let done =
                cache_write-succeeds H settings m k row col bytes offset t.cache (answers m k) i
                  (creates t.requests) n l small fits in
              (cache_write_lem H settings m k row col bytes offset t.cache i n fits).1 r c
              ∙ rw (done, same_cell row col r c);
          present = R.present;
          verifies = λ row col t i l. R.verifies row col t.cache.volume i.sound.good l;
          encodes = R.encodes;
        }

    -- A volume of less than 2 ^ 64 bytes with at least one data partition, whose cells go through a
    -- cache in a coherent state, on a disk that makes and opens files and takes all of each write, with
    -- a reliable volume behind: whatever the cache's limit, its time to flush and the times of its
    -- requests, `write` of bytes that end inside the volume succeeds, and `read` of their length at
    -- their offset then gives them. There are at most 2 ^ 64 columns, and a block has less than
    -- 2 ^ 64 bytes.
    pub read-write-with_cache :
        (bytes : Bytes) (offset : ℕ) (t : Timed b.State)
        → 0 < v.data_count
        → v.block_count * v.data_count * v.block_size < 2 ^ 64
        → offset + length bytes ≤ v.block_count * v.data_count * v.block_size
        → IsCoherent (reliable-IsHonest few) t.cache
        → let c = with_cache b v settings moments in
          ((write c v bytes offset t).0 ≡ true)
          × ((read c v (length bytes) offset (write c v bytes offset t).1).0 ≡ some bytes)
    unfolding with_cache-IsReliable
    read-write-with_cache bytes offset t d narrow fits i =
        read-write with_cache-IsReliable bytes offset t d narrow fits i
