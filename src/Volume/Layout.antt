-- ===== src/Volume/Layout.antt =====
-- The bytes of a volume as one array, and where a byte lies (src/bdfsclient-lib/Volume.cpp).
use drive.HostPartition.{overlay}
use drive.Prelude.{
  ℕ, suc, ◌+◌, ◌-◌, ◌*◌, ◌/◌, ◌%◌, ◌≤◌, ◌<◌, ◌≡◌, ◌≢◌, refl, sym, subst, ◌∙◌, true, false, ◌&&◌, [],
  ◌++◌, arith, ltb, leb, ◌==◌, ==_iff, if◌then◌else◌, length, take, drop, replicate, get_or,
  get_or-append, get_or-take, get_or-drop, get_or_eq, length-take, Bool-cases, inl, inr,
}
use drive.Prelude.Texts.{Bytes}
use drive.Volume.{Volume, Backend, columns, write_cached}
use drive.HostPartition.Blocks.{zeros_eq}
use drive.Volume.Cells.{IsReliable}
use native.Mathlib.Nat.{
  mod-lt, div-add-mod', suc-mul, mod-eq_of_lt, div-eq_of_lt, div-lt_iff_lt-mul, mul-add-div_right,
  mul-add-mod_self_right, mul-le-mul_right,
}

pub get_or-overlay :
    (offset : ℕ) (bytes file : Bytes) (i : ℕ)
    → offset + length bytes ≤ length file
    → get_or (overlay offset bytes file) i 0 ≡ (
        if leb offset i && ltb i (offset + length bytes)
        then get_or bytes (i - offset) 0
        else get_or file i 0)
unfolding overlay
get_or-overlay offset bytes file i h =
    let front : length (take offset file) ≡ offset = omega (arith, length-take offset file) in
    let no_gap : replicate {A = ℕ} (offset - length file) 0 ≡ [] =
      zeros_eq (offset - length file) 0 (omega arith) in
    let back = drop (offset + length bytes) file in
    let split = get_or-append (take offset file) (bytes ++ back) i 0 in
    let split' = get_or-append bytes back (i - offset) 0 in
    elim (Bool-cases (ltb i offset)) [
      | inl before ↦
          let inside : (leb offset i && ltb i (offset + length bytes)) ≡ false = ground arith in
          rw (no_gap, split, front, before, inside) (get_or-take offset file i 0 (ground arith))
      | inr not_before ↦ elim (Bool-cases (ltb (i - offset) (length bytes))) [
        | inl here ↦
            let inside : (leb offset i && ltb i (offset + length bytes)) ≡ true = ground arith in
            rw (no_gap, split, front, not_before, split', here, inside)
        | inr behind ↦
            let inside : (leb offset i && ltb i (offset + length bytes)) ≡ false = ground arith in
            rw (no_gap, split, front, not_before, split', behind, inside)
              (get_or-drop (offset + length bytes) file (i - offset - length bytes) 0
                ∙ get_or_eq file (offset + length bytes + (i - offset - length bytes)) i 0
                    (ground arith))
      ]
    ]

-- A number by its quotient and remainder.
pub div_mod_unique : (n m q r : ℕ) → q * m + r ≡ n → r < m → (n / m ≡ q) × (n % m ≡ r)
div_mod_unique n m q r e h =
    let positive : 0 < m = omega arith in
    rw (← e) (
      mul-add-div_right positive q r ∙ rw (div-eq_of_lt h) (omega arith),
      mul-add-mod_self_right q m r ∙ mod-eq_of_lt h,
    )

pub next_div_mod :
    (n m : ℕ)
    → 0 < m
    → (suc n / m ≡ (if suc (n % m) == m then suc (n / m) else n / m))
      × (suc n % m ≡ (if suc (n % m) == m then 0 else suc (n % m)))
next_div_mod n m p =
    let whole = div-add-mod' n m in
    let part = mod-lt n p in
    elim (Bool-cases (suc (n % m) == m)) [
      | inl e ↦
          let full = (==_iff (suc (n % m)) m).0 e in
          rw e (div_mod_unique (suc n) m (suc (n / m)) 0 (omega (arith, suc-mul (n / m) m)) p)
      | inr e ↦ rw e (div_mod_unique (suc n) m (n / m) (suc (n % m)) (omega arith) (ground arith))
    ]

same_of_div_mod : (q n m : ℕ) → q / m ≡ n / m → q % m ≡ n % m → q ≡ n
same_of_div_mod q n m e e' = sym (div-add-mod' q m) ∙ rw (e, e') (div-add-mod' n m)

-- Different blocks are different cells.
cells_differ : (q n m : ℕ) → q ≢ n → (q / m == n / m && q % m == n % m) ≡ false
cells_differ q n m differ = elim (Bool-cases (q / m == n / m)) [
  | inr e ↦ rw e
  | inl e ↦ elim (Bool-cases (q % m == n % m)) [
    | inr e' ↦ rw (e, e')
    | inl e' ↦ absurd (
        differ
          (same_of_div_mod q n m ((==_iff (q / m) (n / m)).0 e) ((==_iff (q % m) (n % m)).0 e')))
  ]
]

-- A place inside another block is before or behind.
blocks_apart :
    (q n m r offset size : ℕ)
    → q ≢ n
    → r < m
    → offset + size ≤ m
    → (leb (n * m + offset) (q * m + r) && ltb (q * m + r) (n * m + offset + size)) ≡ false
blocks_apart q n m r offset size differ part k = elim (Bool-cases (ltb q n)) [
  | inl less ↦
      let below : suc q * m ≤ n * m = mul-le-mul_right m (ground arith) in
      let grown = suc-mul q m in ground arith
  | inr more ↦
      let above : suc n * m ≤ q * m = mul-le-mul_right m (ground arith) in
      let grown = suc-mul n m in ground arith
]

module _ {b : Backend} {v : Volume} (R : IsReliable b v) where
  open R use {IsGood, content}

  -- The byte at an offset: blocks follow one another along the rows.
  abbrev pub byte : b.State → ℕ → ℕ
  byte s o =
      let n = o / v.block_size in
      get_or (content s (n / v.data_count) (n % v.data_count)) (o % v.block_size) 0

  module _ (n : ℕ) (s : b.State) (g : IsGood s) (d : 0 < v.data_count)
      (h : n < v.block_count * v.data_count) where
    pub row_lt : n / v.data_count < v.block_count
    row_lt = (div-lt_iff_lt-mul d).1 h

    pub col_lt : n % v.data_count < columns v
    col_lt = omega (arith, mod-lt n d)

    -- Writing into one block changes the bytes at its place in the array, and no others.
    pub byte-write :
        (bytes : Bytes) (offset o : ℕ)
        → 0 < length bytes
        → offset + length bytes ≤ v.block_size
        → 0 < v.block_size
        → byte (write_cached b (n / v.data_count) (n % v.data_count) bytes offset s).1 o ≡ (
            if leb (n * v.block_size + offset) o && ltb o (n * v.block_size + offset + length bytes)
            then get_or bytes (o - (n * v.block_size + offset)) 0
            else byte s o)
    byte-write bytes offset o l k positive =
        let q = o / v.block_size in
        let r = o % v.block_size in
        let whole : q * v.block_size + r ≡ o = div-add-mod' o v.block_size in
        let part : r < v.block_size = mod-lt o positive in
        let row = n / v.data_count in
        let col = n % v.data_count in
        let written =
          R.write_content row col bytes offset s (q / v.data_count) (q % v.data_count) g row_lt
            col_lt l k in
        elim (Bool-cases (q == n)) [
          | inl e ↦
              let same : q ≡ n = (==_iff q n).0 e in
              let sized = R.length-content row col s g row_lt col_lt in
              let place : n * v.block_size + r ≡ o = (rw same at whole) in
              let shifted : (leb offset r && ltb r (offset + length bytes)) ≡ (
                  leb (n * v.block_size + offset) o
                  && ltb o (n * v.block_size + offset + length bytes)) =
                ground arith in
              let index : r - offset ≡ o - (n * v.block_size + offset) = omega arith in
              rw (
                written,
                same,
                (==_iff row row).1 refl,
                (==_iff col col).1 refl,
                get_or-overlay offset bytes (content s row col) r (omega arith),
                shifted,
                index,
              )
          | inr e ↦
              let differ : q ≢ n = ground arith in
              let outside : (leb (n * v.block_size + offset) o
                    && ltb o (n * v.block_size + offset + length bytes))
                  ≡ false =
                subst
                  (λ x.
                    (leb (n * v.block_size + offset) x
                      && ltb x (n * v.block_size + offset + length bytes))
                    ≡ false)
                  whole (blocks_apart q n v.block_size r offset (length bytes) differ part k) in
              rw (written, cells_differ q n v.data_count differ, outside)
        ]

    -- Reading from one block gives the bytes at its place in the array.
    pub byte-read :
        (size offset i : ℕ)
        → offset + size ≤ v.block_size
        → i < size
        → get_or (take size (drop offset (content s (n / v.data_count) (n % v.data_count)))) i 0
          ≡ byte s (n * v.block_size + offset + i)
    byte-read size offset i k l =
        let (q, r) =
          div_mod_unique (n * v.block_size + offset + i) v.block_size n (offset + i) (omega arith)
            (omega arith) in
        rw (q, r)
          (get_or-take size (drop offset (content s (n / v.data_count) (n % v.data_count))) i 0 l
            ∙ get_or-drop offset (content s (n / v.data_count) (n % v.data_count)) i 0)
