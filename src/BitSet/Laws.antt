-- ===== src/BitSet/Laws.antt =====
-- What a bit reads as after each operation.
use drive.BitSet.Bits.{get_bit, put_bit, get_bit-put_bit, get_bit-put_bit_ne, get_bit_zero}
use drive.BitSet.{
  BitSet, word_count, new_bit_set, get, put, refer, to_bool, complement, assign_bit, flip,
}
use drive.Prelude.{
  ℕ, ◌-◌, ◌/◌, ◌%◌, ◌≤◌, ◌<◌, ◌≡◌, ◌≢◌, refl, Bool, false, not, arith, ◌∙◌, if_elim, ==_iff, ltb→lt,
  ltb, lt→ltb, le→ltb_false, length, get_or, set, length-set, length-replicate, get_or-set_self,
  get_or-set_ne, get_or-replicate, if◌then◌else◌, ◌==◌, Bool-cases, inl, inr,
}

-- The buffer has the words that the size asks for.
pub record IsValid (s : BitSet) : Type 0 where
  pub words : length s.buffer ≡ word_count s.size

word-lt : (s : BitSet) (index : ℕ) → IsValid s → index < s.size → index / 64 < length s.buffer
word-lt s index v h = ground arith

pub new_bit_set-IsValid : (size stale : ℕ) → IsValid (new_bit_set size stale)
unfolding new_bit_set
new_bit_set-IsValid size stale = record { words = length-replicate {A = ℕ} (word_count size) 0 }

-- `__Set` keeps the number of words that the size asks for.
pub put-IsValid : (s : BitSet) (index : ℕ) (value : Bool) → IsValid s → IsValid (put s index value)
unfolding put
put-IsValid s index value v =
    if_elim IsValid (ltb index s.size) _ _
      (λ inside. record {
        words =
            length-set s.buffer (index / 64)
              (put_bit value (63 - index % 64) (get_or s.buffer (index / 64) 0))
            ∙ v.words;
      })
      (λ outside. v)

module _ (s : BitSet) (i j : ℕ) (value : Bool) (v : IsValid s) (h : i < s.size) where
  abbrev new_word : ℕ
  new_word = put_bit value (63 - i % 64) (get_or s.buffer (i / 64) 0)

  -- Bit `j` of the word of bit `j`, after the write to the word of bit `i`.
  written_bit :
      j < s.size
      → get_bit (63 - j % 64) (get_or (set s.buffer (i / 64) new_word) (j / 64) 0)
        ≡ (if i == j then value else get_bit (63 - j % 64) (get_or s.buffer (j / 64) 0))
  written_bit k = elim (Bool-cases (i / 64 == j / 64)) [
    | inl same ↦
        let w : i / 64 ≡ j / 64 = (==_iff (i / 64) (j / 64)).0 same in
        ground (
          arith,
          get_or-set_self s.buffer (i / 64) new_word 0 (word-lt s i v h),
          get_bit-put_bit value (63 - i % 64) (get_or s.buffer (i / 64) 0),
          get_bit-put_bit_ne value (63 - i % 64) (63 - j % 64) (get_or s.buffer (i / 64) 0),
        )
    | inr other ↦
        let w : i / 64 ≢ j / 64 = λ e. cc (other, (==_iff (i / 64) (j / 64)).1 e) in
        ground (arith, get_or-set_ne s.buffer (i / 64) (j / 64) new_word 0 w)
  ]

  -- In a valid set, after `__Set` of an index inside, `__Get` reads the value at that index and
  -- elsewhere what it read before.
  pub get-put : get (put s i value) j ≡ (if i == j then value else get s j)
  unfolding get put
  get-put = rw (lt→ltb i s.size h) (elim (Bool-cases (ltb j s.size)) [
    | inl inside ↦ rw inside (written_bit (ltb→lt j s.size inside))
    | inr outside ↦ rw outside (ground arith)
  ])

-- Outside the set nothing is written, and nothing is read but false.
pub put_outside :
    (s : BitSet) (i : ℕ) (value : Bool) → s.size ≤ i → (put s i value ≡ s) × (get s i ≡ false)
unfolding get put
put_outside s i value h = rw (le→ltb_false i s.size h) (refl, refl)

-- A reference to an index inside the set reads, negates, assigns and flips as `__Get` and
-- `__Set` do.
pub refer_inside :
    (s : BitSet) (i : ℕ) (value : Bool)
    → i < s.size
    → (to_bool s (refer s i) ≡ get s i)
      × (complement s (refer s i) ≡ not (get s i))
      × (assign_bit s (refer s i) value ≡ put s i value)
      × (flip s (refer s i) ≡ put s i (not (get s i)))
unfolding get put refer to_bool complement assign_bit flip
refer_inside s i value h = rw (lt→ltb i s.size h) (refl, refl, refl, refl)

-- Assigning through a reference outside the set leaves the set as it is, and is read through
-- every other reference outside whose index has the same remainder by 64, and through no others.
pub refer_outside :
    (s : BitSet) (i j : ℕ) (value : Bool)
    → s.size ≤ i
    → s.size ≤ j
    → let s' = assign_bit s (refer s i) value in
      (s'.buffer ≡ s.buffer)
      × (s'.size ≡ s.size)
      × (to_bool s' (refer s' j) ≡ (if i % 64 == j % 64 then value else to_bool s (refer s j)))
unfolding refer to_bool assign_bit
refer_outside s i j value h k =
    rw (le→ltb_false i s.size h, le→ltb_false j s.size k)
      (
        refl,
        refl,
        ground (
          arith,
          get_bit-put_bit value (63 - i % 64) s.trash_bits,
          get_bit-put_bit_ne value (63 - i % 64) (63 - j % 64) s.trash_bits,
        ),
      )

-- A new set has no bit set.
pub get-new_bit_set : (size stale i : ℕ) → get (new_bit_set size stale) i ≡ false
unfolding get new_bit_set
get-new_bit_set size stale i = elim (Bool-cases (ltb i size)) [
  | inl inside ↦
      rw (inside, get_or-replicate {A = ℕ} (word_count size) (i / 64) 0, get_bit_zero (63 - i % 64))
  | inr outside ↦ rw outside
]
