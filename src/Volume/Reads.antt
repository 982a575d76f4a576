-- ===== src/Volume/Reads.antt =====
-- A read as a part of the array of bytes (`Volume::Read` of src/bdfsclient-lib/Volume.cpp).
use drive.Prelude.{
  ℕ, zero, suc, ◌+◌, ◌-◌, ◌*◌, ◌/◌, ◌%◌, ◌^◌, ◌≤◌, ◌<◌, ◌≡◌, refl, sym, ap, ◌∙◌, true, false, ◌&&◌,
  Option, some, [], ◌++◌, arith, ltb, leb, ◌==◌, length, take, drop, get_or, get_or-append,
  get_or_eq, length-append, length-take, length-drop, list_ext, Bool-cases, inl, inr,
}
use drive.Prelude.Texts.{Bytes}
use drive.Volume.{Volume, Backend, Row, Column, read_cached}
use drive.Volume.Cells.{IsReliable, verify_row_lem}
use drive.Volume.Layout.{byte, byte-read, row_lt, col_lt, next_div_mod}
use drive.Volume.Requests.{read_loop, read, write, prepend}
use drive.Volume.Writes.{write_lem, is_outside-false, block_lt}
use native.Mathlib.Nat.{mod-lt, div-add-mod', suc-mul}

module _ {b : Backend} {v : Volume} (R : IsReliable b v) where
  open R use {IsGood, content}

  -- The call gave the bytes of the array from a place on, and left the array as it was.
  pub record Gave (place size : ℕ) (s : b.State) (r : Option Bytes × b.State) : Type 0 where
    pub bytes : Bytes
    pub result : r.0 ≡ some bytes
    pub length-bytes : length bytes ≡ size
    pub element : (i : ℕ) → i < size → get_or bytes i 0 ≡ byte R s (place + i)
    pub good : IsGood r.1
    pub array : (o : ℕ) → byte R r.1 o ≡ byte R s o

  module _ (d : 0 < v.data_count) where
    read_one :
        (n offset size : ℕ) (s : b.State)
        → IsGood s
        → n < v.block_count * v.data_count
        → 0 < size
        → offset + size ≤ v.block_size
        → Gave
            (n * v.block_size + offset)
            size
            s
            (read_cached b (n / v.data_count) (n % v.data_count) size offset s)
    read_one n offset size s g h l k =
        let row = n / v.data_count in
        let col = n % v.data_count in
        let row_in = row_lt R n s g d h in
        let col_in = col_lt R n s g d h in
        let read_lem = R.read_good row col size offset s g row_in col_in l k in
        let block = content s row col in
        record {
          bytes = take size (drop offset block);
          result = read_lem.0;
          length-bytes = omega (
            arith,
            length-take size (drop offset block),
            length-drop offset block,
            R.length-content row col s g row_in col_in,
          );
          element = λ i l'. byte-read R n s g d h size offset i k l';
          good = read_lem.1;
          array = λ o.
              let q = o / v.block_size in
              rw (
                R.read_same row col size offset s (q / v.data_count) (q % v.data_count) g row_in
                  col_in l k);
        }

  Gave-prepend :
      (place place' size size' : ℕ) (s s₁ : b.State) (first : Option Bytes)
      (r : Option Bytes × b.State)
      → place + size ≡ place'
      → (f : Gave place size s (first, s₁)) → Gave place' size' s₁ r
      → Gave place (size + size') s (prepend f.bytes r.0, r.1)
  Gave-prepend place place' size size' s s₁ first r next f others = record {
    bytes = f.bytes ++ others.bytes;
    result = rw (others.result);
    length-bytes =
        omega (arith, length-append f.bytes others.bytes, f.length-bytes, others.length-bytes);
    element = λ i l. elim (Bool-cases (ltb i size)) [
      | inl here ↦
          rw (get_or-append f.bytes others.bytes i 0, f.length-bytes, here)
            (f.element i (ground arith))
      | inr there ↦
          let place_eq : place' + (i - size) ≡ place + i = ground arith in
          rw (get_or-append f.bytes others.bytes i 0, f.length-bytes, there)
            (others.element (i - size) (ground arith) ∙ rw place_eq (f.array (place + i)))
    ];
    good = others.good;
    array = λ o. others.array o ∙ f.array o;
  }

  module _ (fuel : ℕ) (row : Row) (col : Column) (offset size : ℕ) (s : b.State)
      (bytes : Bytes) where
    -- The rounds of the loop whose read succeeds.
    read_loop-last :
        ltb (v.block_size - offset) size ≡ false
        → (read_cached b row col size offset s).0 ≡ some bytes
        → read_loop b v (suc fuel) row col offset size s
          ≡ (some bytes, (read_cached b row col size offset s).1)
    unfolding read_loop
    read_loop-last last e =
        let none_left : (size - size == 0) ≡ true = ground arith in
        rw (read_loop, last, e, last, none_left)

    read_loop-same :
        ltb (v.block_size - offset) size ≡ true
        → (suc col == v.data_count) ≡ false
        → (read_cached b row col (v.block_size - offset) offset s).0 ≡ some bytes
        → (let s₁ = (read_cached b row col (v.block_size - offset) offset s).1 in
            let others = read_loop b v fuel row (suc col) 0 (size - (v.block_size - offset)) s₁ in
            read_loop b v (suc fuel) row col offset size s ≡ (prepend bytes others.0, others.1))
    unfolding read_loop
    read_loop-same long same e =
        let more : (size - (v.block_size - offset) == 0) ≡ false = ground arith in
        rw (read_loop, long, e, long, more, same)

    read_loop-next :
        ltb (v.block_size - offset) size ≡ true
        → (suc col == v.data_count) ≡ true
        → (read_cached b row col (v.block_size - offset) offset s).0 ≡ some bytes
        → IsGood (read_cached b row col (v.block_size - offset) offset s).1
        → (let s₁ = (read_cached b row col (v.block_size - offset) offset s).1 in
            let others = read_loop b v fuel (suc row) 0 0 (size - (v.block_size - offset)) s₁ in
            read_loop b v (suc fuel) row col offset size s ≡ (prepend bytes others.0, others.1))
    unfolding read_loop
    read_loop-next long full e g =
        let s₁ = (read_cached b row col (v.block_size - offset) offset s).1 in
        let more : (size - (v.block_size - offset) == 0) ≡ false = ground arith in
        rw (read_loop, long, e, long, more, full, verify_row_lem R (suc row) s₁ g)

  -- A block read to its end, and the rest read from the next one on.
  read_on :
      (fuel n offset size : ℕ) (s : b.State)
      → 0 < v.data_count
      → ltb (v.block_size - offset) size ≡ true
      → (let row = n / v.data_count in
          let col = n % v.data_count in
          let room = v.block_size - offset in
          let first = read_cached b row col room offset s in
          offset < v.block_size
          → Gave (n * v.block_size + offset) room s first
          → Gave (suc n * v.block_size + 0) (size - room) first.1 (
              read_loop b v fuel
                (suc n / v.data_count)
                (suc n % v.data_count)
                0
                (size - room)
                first.1)
          → Gave
              (n * v.block_size + offset)
              size
              s
              (read_loop b v (suc fuel) row col offset size s))
  read_on fuel n offset size s d long k one ih =
      let row = n / v.data_count in
      let col = n % v.data_count in
      let room = v.block_size - offset in
      let rest = size - room in
      let first = read_cached b row col room offset s in
      let place_eq : n * v.block_size + offset + room ≡ suc n * v.block_size + 0 =
        omega (arith, suc-mul n v.block_size) in
      let total : room + rest ≡ size = ground arith in
      let next = next_div_mod n v.data_count d in
      let join : (r : Option Bytes × b.State)
          → Gave (suc n * v.block_size + 0) rest first.1 r
          → Gave (n * v.block_size + offset) size s (prepend one.bytes r.0, r.1) =
        λ r others. rw total at (
          Gave-prepend (n * v.block_size + offset) (suc n * v.block_size + 0) room rest s first.1
            first.0 r place_eq one others) in
      elim (Bool-cases (suc col == v.data_count)) [
        | inr same ↦
            let q : suc n / v.data_count ≡ row = next.0 ∙ rw same in
            let r : suc n % v.data_count ≡ suc col = next.1 ∙ rw same in
            rw (read_loop-same fuel row col offset size s one.bytes long same one.result)
              (join (read_loop b v fuel row (suc col) 0 rest first.1) (rw (q, r) at ih))
        | inl full ↦
            let q : suc n / v.data_count ≡ suc row = next.0 ∙ rw full in
            let r : suc n % v.data_count ≡ 0 = next.1 ∙ rw full in
            rw (read_loop-next fuel row col offset size s one.bytes long full one.result one.good)
              (join (read_loop b v fuel (suc row) 0 0 rest first.1) (rw (q, r) at ih))
      ]

  module _ (d : 0 < v.data_count) (positive : 0 < v.block_size) where
    read_loop_lem :
        (fuel n offset size : ℕ) (s : b.State)
        → IsGood s
        → size ≤ fuel
        → 0 < size
        → offset < v.block_size
        → n * v.block_size + (offset + size) ≤ v.block_count * v.data_count * v.block_size
        → Gave
            (n * v.block_size + offset)
            size
            s
            (read_loop b v fuel (n / v.data_count) (n % v.data_count) offset size s)
    read_loop_lem zero n offset size s g f pos k e = absurd (omega arith)
    read_loop_lem (suc fuel) n offset size s g f pos k e =
        let room = v.block_size - offset in
        let row = n / v.data_count in
        let col = n % v.data_count in
        let place = n * v.block_size + offset in
        let in_array : n < v.block_count * v.data_count =
          block_lt n v.block_size (v.block_count * v.data_count) (offset + size) e (omega arith) in
        elim (Bool-cases (ltb room size)) [
          | inr last ↦
              let one = read_one d n offset size s g in_array pos (ground arith) in
              rw (read_loop-last fuel row col offset size s one.bytes last one.result)
                (rw (one.result) at one)
          | inl long ↦
              let one = read_one d n offset room s g in_array (omega arith) (omega arith) in
              let s₁ = (read_cached b row col room offset s).1 in
              let grown = suc-mul n v.block_size in
              let ih =
                read_loop_lem fuel (suc n) 0 (size - room) s₁ one.good (ground arith) (ground arith)
                  positive (ground arith) in
              read_on fuel n offset size s d long k one ih
        ]

  Gave-nothing :
      (place size : ℕ) (s : b.State) → IsGood s → size ≡ 0 → Gave place size s (some [], s)
  Gave-nothing place size s g e = record {
    bytes = [];
    result = refl;
    length-bytes = sym e;
    element = λ i l. absurd (omega arith);
    good = g;
    array = λ o. refl;
  }

  pub read_lem :
      (size offset : ℕ) (s : b.State)
      → 0 < v.data_count
      → 0 < v.block_size
      → v.block_count * v.data_count * v.block_size < 2 ^ 64
      → offset + size ≤ v.block_count * v.data_count * v.block_size
      → IsGood s
      → Gave offset size s (read b v size offset s)
  unfolding read
  read_lem size offset s d positive small h g =
      let whole = div-add-mod' offset v.block_size in
      let n = offset / v.block_size in
      elim (Bool-cases (size == 0)) [
        | inl empty ↦ rw empty (Gave-nothing offset size s g (ground arith))
        | inr some_left ↦
            let pos : 0 < size = ground arith in
            let in_range = is_outside-false v size offset positive pos small h in
            let looped =
              read_loop_lem d positive size n (offset % v.block_size) size s g (omega arith) pos
                (mod-lt offset positive) (omega arith) in
            rw (some_left, in_range, verify_row_lem R (n / v.data_count) s g) (rw whole at looped)
      ]

  -- A volume of less than 2 ^ 64 bytes with a reliable backend and at least one data partition: `write` of bytes that end inside it succeeds, and `read` of their
  -- length at their offset then gives them.
  pub read-write :
      (bytes : Bytes) (offset : ℕ) (s : b.State)
      → 0 < v.data_count
      → v.block_count * v.data_count * v.block_size < 2 ^ 64
      → offset + length bytes ≤ v.block_count * v.data_count * v.block_size
      → IsGood s
      → ((write b v bytes offset s).0 ≡ true)
        × ((read b v (length bytes) offset (write b v bytes offset s).1).0 ≡ some bytes)
  read-write bytes offset s d small h g =
      let w = write_lem R bytes offset s d R.has_bytes small h g in
      let s' = (write b v bytes offset s).1 in
      let r = read_lem (length bytes) offset s' d R.has_bytes small h w.good in
      let same : r.bytes ≡ bytes = list_ext r.bytes bytes 0 (r.length-bytes) (λ i l.
        let l' : i < length bytes = omega (arith, r.length-bytes) in
        let inside : (leb offset (offset + i) && ltb (offset + i) (offset + length bytes)) ≡ true =
          ground arith in
        r.element i l'
        ∙ rw (w.array (offset + i), inside)
            (get_or_eq bytes (offset + i - offset) i 0 (omega arith))) in
      (w.success, r.result ∙ ap (λ (x : Bytes). some x) same)
