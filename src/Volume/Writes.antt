-- ===== src/Volume/Writes.antt =====
-- A write as an update of the array of bytes (`Volume::Write` of src/bdfsclient-lib/Volume.cpp).
use drive.Prelude.{
  ℕ, zero, suc, ◌+◌, ◌-◌, ◌*◌, ◌/◌, ◌%◌, ◌^◌, ◌≤◌, ◌<◌, ◌≡◌, refl, ◌∙◌, Bool, true, false, ◌&&◌,
  arith, ltb, leb, ◌==◌, if◌then◌else◌, length, take, drop, get_or, get_or-take, get_or-drop,
  get_or_eq, length-take, length-drop, take_all, Bool-cases, inl, inr,
}
use drive.Prelude.Texts.{Bytes}
use drive.Volume.{Volume, Backend, Row, write_cached, encode_row}
use drive.Volume.Cells.{IsReliable, Agrees, encode_row-Agrees, verify_row_lem}
use drive.Volume.Layout.{byte, byte-write, row_lt, col_lt, next_div_mod}
use drive.Volume.Requests.{write_loop, write, is_outside}
use native.Mathlib.Nat.{
  mod-lt, div-add-mod', suc-mul, mod-eq_of_lt, mul-le-mul_right, mul-le-mul_left,
}

-- Two pieces that follow one another are one.
pub chunks_join :
    (room place o x : ℕ) (bytes : Bytes)
    → room ≤ length bytes
    → (if leb (place + room) o && ltb o (place + room + length (drop room bytes))
        then get_or (drop room bytes) (o - (place + room)) 0
        else if leb place o && ltb o (place + length (take room bytes))
        then get_or (take room bytes) (o - place) 0
        else x)
      ≡ (if leb place o && ltb o (place + length bytes) then get_or bytes (o - place) 0 else x)
chunks_join room place o x bytes h =
    let front = length-take room bytes in
    let back = length-drop room bytes in
    elim (Bool-cases (leb (place + room) o && ltb o (place + room + length (drop room bytes)))) [
      | inl here ↦
          let inside : (leb place o && ltb o (place + length bytes)) ≡ true = ground arith in
          rw (here, inside)
            (get_or-drop room bytes (o - (place + room)) 0
              ∙ get_or_eq bytes (room + (o - (place + room))) (o - place) 0 (ground arith))
      | inr other ↦ elim (Bool-cases (leb place o && ltb o (place + length (take room bytes)))) [
        | inl here ↦
            let inside : (leb place o && ltb o (place + length bytes)) ≡ true = ground arith in
            rw (other, here, inside) (get_or-take room bytes (o - place) 0 (ground arith))
        | inr outside ↦
            let inside : (leb place o && ltb o (place + length bytes)) ≡ false = ground arith in
            rw (other, outside, inside)
      ]
    ]

pub block_lt : (n m k rest : ℕ) → n * m + rest ≤ k * m → 0 < rest → n < k
block_lt n m k rest h p = elim (Bool-cases (ltb n k)) [
  | inl e ↦ ground arith
  | inr e ↦ let more : k * m ≤ n * m = mul-le-mul_right m (ground arith) in ground arith
]

module _ {b : Backend} {v : Volume} (R : IsReliable b v) where
  open R use {IsGood, content}

  -- The call succeeded, and the array has the bytes at their place and is otherwise as before.
  pub record Wrote (place : ℕ) (bytes : Bytes) (s : b.State) (r : Bool × b.State) : Type 0 where
    pub success : r.0 ≡ true
    pub good : IsGood r.1
    pub array :
        (o : ℕ)
        → byte R r.1 o ≡ (
            if leb place o && ltb o (place + length bytes)
            then get_or bytes (o - place) 0
            else byte R s o)

  pub byte-Agrees :
      (s s' : b.State) (o : ℕ) → 0 < v.data_count → Agrees R s s' → byte R s' o ≡ byte R s o
  byte-Agrees s s' o d a =
      let n = o / v.block_size in rw (a.same (n / v.data_count) (n % v.data_count) (mod-lt n d))

  module _ (d : 0 < v.data_count) (positive : 0 < v.block_size) where
    -- The first piece goes to the end of its block, and the rest from the next block on.
    continue :
        (n offset : ℕ) (bytes : Bytes) (s s₁ : b.State) (r : Bool × b.State)
        → offset < v.block_size
        → v.block_size - offset ≤ length bytes
        → Wrote (n * v.block_size + offset) (take (v.block_size - offset) bytes) s (true, s₁)
        → Wrote (suc n * v.block_size + 0) (drop (v.block_size - offset) bytes) s₁ r
        → Wrote (n * v.block_size + offset) bytes s r
    continue n offset bytes s s₁ r k long first others =
        let room = v.block_size - offset in
        let place = n * v.block_size + offset in
        let next : suc n * v.block_size + 0 ≡ place + room =
          omega (arith, suc-mul n v.block_size) in
        record {
          success = others.success;
          good = others.good;
          array = λ o.
              others.array o
              ∙ rw (next, first.array o) (chunks_join room place o (byte R s o) bytes long);
        }

    encoded-Wrote :
        (row : Row) (place : ℕ) (bytes : Bytes) (s s₁ : b.State)
        → row < v.block_count
        → Wrote place bytes s (true, s₁)
        → ((encode_row b v row s₁).0 ≡ true) × Wrote place bytes s (true, (encode_row b v row s₁).1)
    encoded-Wrote row place bytes s s₁ h w =
        let (success, a) = encode_row-Agrees R row s₁ w.good h in
        (
          success,
          record {
            success = refl;
            good = a.good;
            array = λ o. byte-Agrees s₁ (encode_row b v row s₁).1 o d a ∙ w.array o;
          },
        )

    write_loop_lem :
        (fuel n offset : ℕ) (bytes : Bytes) (s : b.State)
        → IsGood s
        → length bytes ≤ fuel
        → 0 < length bytes
        → offset < v.block_size
        → n * v.block_size + (offset + length bytes) ≤ v.block_count * v.data_count * v.block_size
        → Wrote
            (n * v.block_size + offset)
            bytes
            s
            (write_loop b v fuel (n / v.data_count) (n % v.data_count) offset bytes s)
    unfolding write_loop
    write_loop_lem zero n offset bytes s g f pos k e = absurd (omega arith)
    write_loop_lem (suc fuel) n offset bytes s g f pos k e =
        let room = v.block_size - offset in
        let row = n / v.data_count in
        let col = n % v.data_count in
        let place = n * v.block_size + offset in
        let in_array : n < v.block_count * v.data_count =
          block_lt n v.block_size (v.block_count * v.data_count) (offset + length bytes) e
            (omega arith) in
        let chunk = take room bytes in
        let rest = drop room bytes in
        let fits : offset + length chunk ≤ v.block_size = omega (arith, length-take room bytes) in
        let more : 0 < length chunk = omega (arith, length-take room bytes) in
        let s₁ = (write_cached b row col chunk offset s).1 in
        let (success, good) =
          R.write_good row col chunk offset s g (row_lt R n s g d in_array)
            (col_lt R n s g d in_array) more fits in
        let first : Wrote place chunk s (true, s₁) = record {
          success = refl;
          good = good;
          array = λ o. byte-write R n s g d in_array chunk offset o more fits positive;
        } in
        let row_in = row_lt R n s g d in_array in
        let next = next_div_mod n v.data_count d in
        elim (Bool-cases (length rest == 0)) [
          | inl done ↦
              let whole : chunk ≡ bytes =
                take_all room bytes (ground (arith, length-drop room bytes)) in
              let (ok, w) = encoded-Wrote row place chunk s s₁ row_in first in
              rw (success, done, ok, whole) (rw whole at w)
          | inr others ↦
              let long : room ≤ length bytes = ground (arith, length-drop room bytes) in
              let grown = suc-mul n v.block_size in
              let left : suc n * v.block_size + (0 + length rest)
                  ≤ v.block_count * v.data_count * v.block_size =
                omega (arith, length-drop room bytes) in
              let rest_pos : 0 < length rest = ground arith in
              let rest_fuel : length rest ≤ fuel = omega (arith, length-drop room bytes) in
              elim (Bool-cases (suc col == v.data_count)) [
                | inr same ↦
                    let q : suc n / v.data_count ≡ row = next.0 ∙ rw same in
                    let r : suc n % v.data_count ≡ suc col = next.1 ∙ rw same in
                    let ih =
                      write_loop_lem fuel (suc n) 0 rest s₁ good rest_fuel rest_pos positive left in
                    rw (success, others, same)
                      (continue n offset bytes s s₁ (write_loop b v fuel row (suc col) 0 rest s₁) k
                        long first (rw (q, r) at ih))
                | inl full ↦
                    let q : suc n / v.data_count ≡ suc row = next.0 ∙ rw full in
                    let r : suc n % v.data_count ≡ 0 = next.1 ∙ rw full in
                    let (ok, w) = encoded-Wrote row place chunk s s₁ row_in first in
                    let s₂ = (encode_row b v row s₁).1 in
                    let ih =
                      write_loop_lem fuel (suc n) 0 rest s₂ w.good rest_fuel rest_pos positive
                        left in
                    rw (success, others, full, ok, verify_row_lem R (suc row) s₂ w.good)
                      (continue n offset bytes s s₂ (write_loop b v fuel (suc row) 0 0 rest s₂) k
                        long w (rw (q, r) at ih))
              ]
        ]

-- Where the array has fewer than 2 ^ 64 bytes, the test of the range does not overflow.
pub is_outside-false :
    (v : Volume) (size offset : ℕ)
    → 0 < v.block_size
    → 0 < size
    → v.block_count * v.data_count * v.block_size < 2 ^ 64
    → offset + size ≤ v.block_count * v.data_count * v.block_size
    → is_outside v size offset ≡ false
is_outside-false v size offset positive pos small h =
    let cells = v.block_count * v.data_count in
    let fewer : cells * 1 ≤ cells * v.block_size = mul-le-mul_left cells positive in
    let fits : cells % 2 ^ 64 ≡ cells = mod-eq_of_lt (omega arith) in
    let total : cells * v.block_size % 2 ^ 64 ≡ cells * v.block_size = mod-eq_of_lt small in
    let end : (offset + size) % 2 ^ 64 ≡ offset + size = mod-eq_of_lt (omega arith) in
    rw (fits, total, end) (ground arith)

module _ {b : Backend} {v : Volume} (R : IsReliable b v) where
  open R use {IsGood}

  Wrote-nothing :
      (place : ℕ) (bytes : Bytes) (s : b.State)
      → IsGood s
      → length bytes ≡ 0
      → Wrote R place bytes s (true, s)
  Wrote-nothing place bytes s g e = record {
    success = refl;
    good = g;
    array = λ o.
        let nowhere : (leb place o && ltb o (place + length bytes)) ≡ false = ground arith in
        rw nowhere;
  }

  pub write_lem :
      (bytes : Bytes) (offset : ℕ) (s : b.State)
      → 0 < v.data_count
      → 0 < v.block_size
      → v.block_count * v.data_count * v.block_size < 2 ^ 64
      → offset + length bytes ≤ v.block_count * v.data_count * v.block_size
      → IsGood s
      → Wrote R offset bytes s (write b v bytes offset s)
  unfolding write
  write_lem bytes offset s d positive small h g =
      let whole = div-add-mod' offset v.block_size in
      let n = offset / v.block_size in
      elim (Bool-cases (length bytes == 0)) [
        | inl empty ↦ rw empty (Wrote-nothing offset bytes s g (ground arith))
        | inr some_left ↦
            let pos : 0 < length bytes = ground arith in
            let in_range = is_outside-false v (length bytes) offset positive pos small h in
            let looped =
              write_loop_lem R d positive (length bytes) n (offset % v.block_size) bytes s g
                (omega arith) pos (mod-lt offset positive) (omega arith) in
            rw (some_left, in_range, verify_row_lem R (n / v.data_count) s g) (rw whole at looped)
      ]
