-- ===== src/BitSet.antt =====
-- src/bdhost/BitSet.cpp: a set of bits in 64-bit words, the first bit of a word its highest.
pub mod Bits
pub mod Laws
use drive.BitSet.Bits.{get_bit, put_bit}
use drive.Prelude.{
  ℕ, ◌+◌, ◌-◌, ◌/◌, ◌%◌, Bool, true, false, not, List, ltb, ◌==◌, if◌then◌else◌, get_or, set,
  replicate,
}

-- `trash_bits` is the static word that all references outside a set share.
pub record BitSet : Type 0 where
  pub buffer : List ℕ
  pub size : ℕ
  pub trash_bits : ℕ

abbrev pub word_count : ℕ → ℕ
word_count size = if size % 64 == 0 then size / 64 else size / 64 + 1

unfoldable pub new_bit_set : ℕ → ℕ → BitSet
new_bit_set size trash = record {
  buffer = replicate (word_count size) 0;
  size = size;
  trash_bits = trash;
}

-- `__Get` and `__Set`.
unfoldable pub get : BitSet → ℕ → Bool
get s index =
    if ltb index s.size then get_bit (63 - index % 64) (get_or s.buffer (index / 64) 0) else false

unfoldable pub put : BitSet → ℕ → Bool → BitSet
put s index value =
    let word = index / 64 in
    if ltb index s.size
    then record s {
      buffer = set s.buffer word (put_bit value (63 - index % 64) (get_or s.buffer word 0));
    }
    else s

-- `Reference`: a word of the set, or the trash word, and a bit.
pub data Target : Type 0 where
  word : ℕ → Target
  trash : Target

pub record Reference : Type 0 where
  pub ptr : Target
  pub bit : ℕ

-- `operator[]`
unfoldable pub refer : BitSet → ℕ → Reference
refer s index = record {
  ptr = if ltb index s.size then word (index / 64) else trash;
  bit = index % 64;
}

abbrev load : BitSet → Target → ℕ
load s (word i) = get_or s.buffer i 0
load s trash = s.trash_bits

abbrev store : BitSet → Target → ℕ → BitSet
store s (word i) v = record s { buffer = set s.buffer i v }
store s trash v = record s { trash_bits = v }

-- `operator bool`, `operator ~`, `operator =` and `flip`.
unfoldable pub to_bool : BitSet → Reference → Bool
to_bool s r = get_bit (63 - r.bit) (load s r.ptr)

unfoldable pub complement : BitSet → Reference → Bool
complement s r = not (get_bit (63 - r.bit) (load s r.ptr))

unfoldable pub assign_bit : BitSet → Reference → Bool → BitSet
assign_bit s r value = store s r.ptr (put_bit value (63 - r.bit) (load s r.ptr))

unfoldable pub flip : BitSet → Reference → BitSet
flip s r =
    let v = load s r.ptr in store s r.ptr (put_bit (not (get_bit (63 - r.bit) v)) (63 - r.bit) v)
