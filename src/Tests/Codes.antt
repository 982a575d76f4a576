-- ===== src/Tests/Codes.antt =====
-- Base64 texts (src/bdfs-lib/Base64Encoder.cpp) and a set of 70 bits (src/bdhost/BitSet.cpp).
use drive.Base64.{encode_map, encode, decode}
use drive.Base64.RoundTrip.{decode-encode}
use drive.BitSet.{BitSet, new_bit_set, get, put, refer, to_bool, assign_bit}
use drive.BitSet.Laws.{get-put, refer_outside, get-new_bit_set}
use drive.Prelude.{◌%◌, ◌≡◌, refl, true, false, some, [], ◌∷◌, arith, ◌==◌, if◌then◌else◌}
use drive.Prelude.Texts.{codes}

encode_one : encode (codes "a") ≡ codes "YQ=="
unfolding encode encode_map
encode_one = refl

decode-encode_example : decode (encode (0 ∷ 255 ∷ 16 ∷ 7 ∷ [])) ≡ some (0 ∷ 255 ∷ 16 ∷ 7 ∷ [])
decode-encode_example =
    decode-encode (0 ∷ 255 ∷ 16 ∷ 7 ∷ [])
      (ground arith, (ground arith, (ground arith, (ground arith, tt))))

abbrev bits : BitSet
bits = record { size = 70; buffer = 1 ∷ 2 ∷ []; trash_bits = 0 }

get-put_example : get (put bits 65 true) 65 ≡ (if 65 == 65 then true else get bits 65)
get-put_example = get-put bits 65 65 true (record { words = refl }) (ground arith)

refer_outside_example :
    let bits' = assign_bit bits (refer bits 70) true in
    (bits'.buffer ≡ bits.buffer)
    × (bits'.size ≡ bits.size)
    × (to_bool bits' (refer bits' 134)
        ≡ (if 70 % 64 == 134 % 64 then true else to_bool bits (refer bits 134)))
refer_outside_example = refer_outside bits 70 134 true (ground arith) (ground arith)

get-new_bit_set_example : get (new_bit_set 70 5) 69 ≡ false
get-new_bit_set_example = get-new_bit_set 70 5 69
