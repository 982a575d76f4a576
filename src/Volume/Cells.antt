-- ===== src/Volume/Cells.antt =====
-- What a volume relies on, and what verifying and encoding a row leave of its data blocks.
use drive.HostPartition.{overlay}
use drive.Prelude.{
  ℕ, zero, suc, ◌+◌, ◌≤◌, ◌<◌, ◌≡◌, refl, ◌∙◌, true, false, ◌&&◌, some, List, [], ◌∷◌, arith, ◌==◌,
  if◌then◌else◌, length, take, drop, All,
}
use drive.Prelude.Texts.{Bytes}
use drive.Volume.{
  Volume, Backend, Row, Column, columns, read_cached, write_cached, read_row, write_codes,
  encode_row, verify_from, verify_row,
}

-- The backend of a volume without failures: blocks hold what was last written, every partition is
-- set and verifies, and the encoder makes a block for each code column.
pub record IsReliable (b : Backend) (v : Volume) : Type 1 where
  pub has_bytes : 0 < v.block_size
  pub IsGood : b.State → Type 0
  pub content : b.State → Row → Column → Bytes
  pub length-content :
      (row : Row) (col : Column) (s : b.State)
      → IsGood s
      → row < v.block_count
      → col < columns v
      → length (content s row col) ≡ v.block_size
  pub read_good :
      (row : Row) (col : Column) (size offset : ℕ) (s : b.State)
      → IsGood s
      → row < v.block_count
      → col < columns v
      → 0 < size
      → offset + size ≤ v.block_size
      → ((read_cached b row col size offset s).0
          ≡ some (take size (drop offset (content s row col))))
        × IsGood (read_cached b row col size offset s).1
  pub read_same :
      (row : Row) (col : Column) (size offset : ℕ) (s : b.State) (r : Row) (c : Column)
      → IsGood s
      → row < v.block_count
      → col < columns v
      → 0 < size
      → offset + size ≤ v.block_size
      → content (read_cached b row col size offset s).1 r c ≡ content s r c
  pub write_good :
      (row : Row) (col : Column) (bytes : Bytes) (offset : ℕ) (s : b.State)
      → IsGood s
      → row < v.block_count
      → col < columns v
      → 0 < length bytes
      → offset + length bytes ≤ v.block_size
      → ((write_cached b row col bytes offset s).0 ≡ true)
        × IsGood (write_cached b row col bytes offset s).1
  pub write_content :
      (row : Row) (col : Column) (bytes : Bytes) (offset : ℕ) (s : b.State) (r : Row) (c : Column)
      → IsGood s
      → row < v.block_count
      → col < columns v
      → 0 < length bytes
      → offset + length bytes ≤ v.block_size
      → content (write_cached b row col bytes offset s).1 r c
        ≡ (if r == row && c == col then overlay offset bytes (content s row col) else content s r c)
  pub present : (col : Column) → col < columns v → v.present col ≡ true
  pub verifies :
      (row : Row) (col : Column) (s : b.State)
      → IsGood s
      → col < columns v
      → b.verify_block col row s ≡ true
  pub encodes :
      (blocks : List Bytes)
      → (codes : List Bytes) × (b.encode v.block_size v.data_count v.code_count blocks ≡ some codes)
        × (length codes ≡ v.code_count)
        × All (λ code. length code ≡ v.block_size) codes

module _ {b : Backend} {v : Volume} (R : IsReliable b v) where
  open R use {IsGood, content}

  -- The same data blocks.
  pub record Agrees (s s' : b.State) : Type 0 where
    pub good : IsGood s'
    pub same : (r : Row) (c : Column) → c < v.data_count → content s' r c ≡ content s r c

  pub Agrees-refl : (s : b.State) → IsGood s → Agrees s s
  Agrees-refl s g = record { good = g; same = λ r c h. refl }

  pub Agrees-trans : (s t u : b.State) → Agrees s t → Agrees t u → Agrees s u
  Agrees-trans s t u a a' = record { good = a'.good; same = λ r c h. a'.same r c h ∙ a.same r c h }

  read_row-Agrees :
      (n : ℕ) (row : Row) (col : Column) (s : b.State)
      → IsGood s
      → row < v.block_count
      → n + col ≤ columns v
      → Agrees s (read_row b v n row col s).1
  unfolding read_row
  read_row-Agrees zero row col s g h k = Agrees-refl s g
  read_row-Agrees (suc n) row col s g h k =
      let s₁ = (read_cached b row col v.block_size 0 s).1 in
      let one : Agrees s s₁ = record {
        good = (R.read_good row col v.block_size 0 s g h (omega arith) R.has_bytes (omega arith)).1;
        same = λ r c l.
            R.read_same row col v.block_size 0 s r c g h (omega arith) R.has_bytes (omega arith);
      } in
      Agrees-trans s s₁ (read_row b v n row (suc col) s₁).1 one
        (read_row-Agrees n row (suc col) s₁ one.good h (omega arith))

  write_codes-Agrees :
      (codes : List Bytes) (row : Row) (col : Column) (s : b.State)
      → IsGood s
      → row < v.block_count
      → v.data_count ≤ col
      → col + length codes ≤ columns v
      → All (λ code. length code ≡ v.block_size) codes
      → Agrees s (write_codes b v row col codes s)
  unfolding write_codes
  write_codes-Agrees [] row col s g h d k a = Agrees-refl s g
  write_codes-Agrees (code ∷ codes) row col s g h d k a =
      let s₁ = (write_cached b row col code 0 s).1 in
      let inside : 0 + length code ≤ v.block_size = omega (arith, a.0) in
      let some_bytes : 0 < length code = omega (arith, a.0, R.has_bytes) in
      let one : Agrees s s₁ = record {
        good = (R.write_good row col code 0 s g h (omega arith) some_bytes inside).1;
        same = λ r c l.
            let other : (r == row && c == col) ≡ false = ground arith in
            R.write_content row col code 0 s r c g h (omega arith) some_bytes inside ∙ rw other;
      } in
      Agrees-trans s s₁ (write_codes b v row (suc col) codes s₁) one
        (write_codes-Agrees codes row (suc col) s₁ one.good h (omega arith) (omega arith) a.1)

  pub encode_row-Agrees :
      (row : Row) (s : b.State)
      → IsGood s
      → row < v.block_count
      → ((encode_row b v row s).0 ≡ true) × Agrees s (encode_row b v row s).1
  unfolding encode_row
  encode_row-Agrees row s g h =
      let s' = (read_row b v v.data_count row 0 s).1 in
      let blocks = (read_row b v v.data_count row 0 s).0 in
      let read = read_row-Agrees v.data_count row 0 s g h (omega arith) in
      let (codes, e, l, a) = R.encodes blocks in
      rw (encode_row, e)
        (
          refl,
          Agrees-trans s s' (write_codes b v row v.data_count codes s') read (
              write_codes-Agrees codes row v.data_count s' read.good h (omega arith)
                (omega (arith, l)) a),
        )

  verify_from_lem :
      (n : ℕ) (row : Row) (col : Column) (s : b.State)
      → IsGood s
      → n + col ≤ columns v
      → verify_from b v n row col s ≡ (true, s)
  unfolding verify_from
  verify_from_lem zero row col s g k = refl
  verify_from_lem (suc n) row col s g k =
      rw (verify_from, R.present col (omega arith), R.verifies row col s g (omega arith))
        (verify_from_lem n row (suc col) s g (omega arith))

  pub verify_row_lem : (row : Row) (s : b.State) → IsGood s → verify_row b v row s ≡ (true, s)
  unfolding verify_row
  verify_row_lem row s g = verify_from_lem (columns v) row 0 s g (omega arith)
