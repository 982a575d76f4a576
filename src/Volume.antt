-- ===== src/Volume.antt =====
-- src/bdfsclient-lib: Volume.cpp, VolumeRow.cpp and Partition.cpp. The bytes of a volume lie in
-- blocks, the blocks in rows over the data partitions, and code partitions hold redundancy.
pub mod Requests
pub mod Cells
pub mod Layout
pub mod Writes
pub mod Reads
pub mod Hosts
use drive.Prelude.{
  ℕ, zero, suc, ◌+◌, ◌-◌, ◌*◌, ◌/◌, ◌%◌, ◌^◌, Bool, true, false, not, ◌&&◌, ◌||◌, Option, none,
  some, List, [], ◌∷◌, ◌++◌, ltb, leb, ◌==◌, if◌then◌else◌, length, take, drop, replicate, get_or,
  set,
}
use drive.Prelude.Texts.{Bytes}

pub record Volume : Type 0 where
  pub block_count : ℕ
  pub data_count : ℕ
  pub code_count : ℕ
  pub block_size : ℕ
  -- Whether the pointer to a partition is set.
  pub present : ℕ → Bool

-- What a volume calls. `remote_read` and `remote_write` are the requests of `BdPartition` to the
-- host of a column, `none` if it does not answer in time; `cached` tells whether `EnableCache` was
-- called. `encode` and `decode` are cm256_encode and cm256_decode, `none` where they fail: the size
-- of a block, the counts of data and code blocks, and the blocks, for `decode` with their numbers.
pub record Backend : Type 1 where
  pub State : Type 0
  pub remote_read : ℕ → ℕ → ℕ → ℕ → State → Option Bytes × State
  pub remote_write : ℕ → ℕ → ℕ → Bytes → State → Option ℕ × State
  pub verify_block : ℕ → ℕ → State → Bool
  pub cached : Bool
  pub cache_read : ℕ → ℕ → ℕ → ℕ → State → Option Bytes × State
  pub cache_write : ℕ → ℕ → Bytes → ℕ → State → Bool × State
  pub encode : ℕ → ℕ → ℕ → List Bytes → Option (List Bytes)
  pub decode : ℕ → ℕ → ℕ → List (Bytes × ℕ) → Option (List (Bytes × ℕ))

abbrev pub columns : Volume → ℕ
columns v = v.data_count + v.code_count

abbrev pub Column : Type 0
Column = ℕ

abbrev pub Row : Type 0
Row = ℕ

module _ (b : Backend) where
  -- `ReadBlock` and `WriteBlock` of the client's `Partition`.
  unfoldable pub read_direct : Row → Column → ℕ → ℕ → b.State → Option Bytes × b.State
  read_direct row col size offset s =
      let (answer, s') = b.remote_read col row offset size s in
      (elim answer [ none ↦ none | some buf ↦ if length buf == size then some buf else none ], s')

  unfoldable pub write_direct : Row → Column → Bytes → ℕ → b.State → Bool × b.State
  write_direct row col bytes offset s =
      let (answer, s') = b.remote_write col row offset bytes s in
      (elim answer [ none ↦ false | some count ↦ count == length bytes ], s')

  unfoldable pub read_cached : Row → Column → ℕ → ℕ → b.State → Option Bytes × b.State
  unfolding read_direct
  read_cached row col size offset s =
      if b.cached then b.cache_read row col size offset s else read_direct row col size offset s

  unfoldable pub write_cached : Row → Column → Bytes → ℕ → b.State → Bool × b.State
  unfolding write_direct
  write_cached row col bytes offset s =
      if b.cached then b.cache_write row col bytes offset s else write_direct row col bytes offset s

module _ (b : Backend) (v : Volume) where
  -- `__VerifyCell`
  unfoldable pub verify_cell : Row → Column → b.State → Bool
  verify_cell row col s = not (leb (columns v) col) && (v.present col && b.verify_block col row s)

  -- The first loop of `Encode`: the block of a read that fails stays zero.
  unfoldable pub read_row : ℕ → Row → Column → b.State → List Bytes × b.State
  read_row zero row col s = ([], s)
  read_row (suc n) row col s =
      let (answer, s₁) = read_cached b row col v.block_size 0 s in
      let (blocks, s₂) = read_row n row (suc col) s₁ in
      (elim answer [ none ↦ replicate v.block_size 0 | some block ↦ block ] ∷ blocks, s₂)

  -- The results of these writes are not looked at.
  unfoldable pub write_codes : Row → Column → List Bytes → b.State → b.State
  write_codes row col [] s = s
  write_codes row col (code ∷ codes) s =
      write_codes row (suc col) codes (write_cached b row col code 0 s).1

  -- `Row::Encode`
  unfoldable pub encode_row : Row → b.State → Bool × b.State
  encode_row row s =
      let (blocks, s') = read_row v.data_count row 0 s in
      elim (b.encode v.block_size v.data_count v.code_count blocks) [
        | none ↦ (false, s')
        | some codes ↦ (true, write_codes row v.data_count codes s')
      ]

  -- The data blocks that can be read, with their columns, and the columns that are missing.
  unfoldable pub collect :
      ℕ → Row → Column → b.State → Option (List (Bytes × ℕ) × List Column) × b.State
  collect zero row col s = (some ([], []), s)
  collect (suc n) row col s = elim (verify_cell row col s) [
    | true ↦
        let (answer, s₁) = read_cached b row col v.block_size 0 s in
        elim answer [
          | none ↦ (none, s₁)
          | some block ↦
              let (others, s₂) = collect n row (suc col) s₁ in
              (
                elim others [
                  | none ↦ none
                  | some (blocks, missing) ↦ some ((block, col) ∷ blocks, missing)
                ],
                s₂,
              )
        ]
    | false ↦
        let (others, s₂) = collect n row (suc col) s in
        (
          elim others [
            | none ↦ none
            | some (blocks, missing) ↦ some ((replicate v.block_size 0, 0) ∷ blocks, col ∷ missing)
          ],
          s₂,
        )
  ]

  unfoldable pub write_missing : Row → List Column → List (Bytes × ℕ) → b.State → b.State
  write_missing row [] blocks s = s
  write_missing row (col ∷ missing) blocks s =
      write_missing row missing blocks (write_cached b row col (get_or blocks col ([], 0)).0 0 s).1

  -- The loop over the code blocks: each that can be read stands in for the next missing block,
  -- and the last one lets `cm256_decode` recover them. Where there are too few, nothing tells so.
  unfoldable pub substitute :
      ℕ
      → Row
      → Column
      → List Column
      → List Column
      → List (Bytes × ℕ)
      → b.State
      → Option (List (Bytes × ℕ)) × b.State
  substitute zero row col todo missing blocks s = (some blocks, s)
  substitute (suc n) row col [] missing blocks s = (some blocks, s)
  substitute (suc n) row col (gap ∷ todo) missing blocks s = elim (verify_cell row col s) [
    | false ↦ substitute n row (suc col) (gap ∷ todo) missing blocks s
    | true ↦
        let (answer, s₁) = read_cached b row col v.block_size 0 s in
        elim answer [
          | none ↦ (none, s₁)
          | some code ↦
              let blocks' = set blocks gap (code, col) in
              elim todo [
                | [] ↦ elim (b.decode v.block_size v.data_count v.code_count blocks') [
                  | none ↦ (none, s₁)
                  | some decoded ↦ (some decoded, write_missing row missing decoded s₁)
                ]
                | next ∷ others ↦ substitute n row (suc col) (next ∷ others) missing blocks' s₁
              ]
        ]
  ]

  abbrev first_blocks : List (Bytes × ℕ) → List Bytes
  first_blocks [] = []
  first_blocks ((block, _) ∷ blocks) = block ∷ first_blocks blocks

  -- `Row::Decode`
  unfoldable pub decode_row : Row → b.State → Bool × b.State
  unfolding collect substitute
  decode_row row s =
      let (found, s₁) = collect v.data_count row 0 s in
      elim found [
        | none ↦ (false, s₁)
        | some (blocks, missing) ↦
            let (filled, s₂) = substitute v.code_count row v.data_count missing missing blocks s₁ in
            elim filled [
              | none ↦ (false, s₂)
              | some blocks' ↦
                  elim (b.encode v.block_size v.data_count v.code_count (first_blocks blocks')) [
                    | none ↦ (false, s₂)
                    | some codes ↦ (true, write_codes row v.data_count codes s₂)
                  ]
            ]
      ]

  -- The loop of `Row::Verify` over `n` columns from `col` on.
  unfoldable pub verify_from : ℕ → Row → Column → b.State → Bool × b.State
  verify_from zero row col s = (true, s)
  verify_from (suc n) row col s = elim (v.present col) [
    | false ↦ (false, s)
    | true ↦ elim (b.verify_block col row s) [
      | true ↦ verify_from n row (suc col) s
      | false ↦
          let (success, s') = decode_row row s in
          let rest = verify_from n row (suc col) s' in if success then rest else (false, s')
    ]
  ]

  unfoldable pub verify_row : Row → b.State → Bool × b.State
  unfolding verify_from
  verify_row row s = verify_from (columns v) row 0 s
