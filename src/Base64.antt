-- ===== src/Base64.antt =====
-- src/bdfs-lib/Base64Encoder.cpp. The target arrays are taken to be large enough; the code does not
-- look at their lengths. Characters lie below 128, where `char` is not negative.
pub mod RoundTrip
use drive.Prelude.{
  ℕ, zero, suc, ◌+◌, ◌-◌, ◌*◌, ◌/◌, ◌%◌, Bool, [], ◌∷◌, ◌++◌, Option, none, some, ltb, leb, ◌==◌,
  if◌then◌else◌, length, ◌&&◌,
}
use drive.Prelude.Texts.{Bytes}

-- `base64EncodeMap`: upper case, lower case, digits, '+' and '/'.
unfoldable pub encode_map : ℕ → ℕ
encode_map v =
    if ltb v 26
    then v + 65
    else if ltb v 52
    then v + 71
    else if ltb v 62
    then v - 4
    else if v == 62
    then b'+'
    else b'/'

-- `base64DecodeMap`: 255 for every character that stands for no value.
unfoldable pub decode_map : ℕ → ℕ
decode_map c =
    if leb b'A' c && leb c b'Z'
    then c - 65
    else if leb b'a' c && leb c b'z'
    then c - 71
    else if leb b'0' c && leb c b'9'
    then c + 4
    else if c == b'+'
    then 62
    else if c == b'/'
    then 63
    else 255

-- The operands of each `|` have no bit in common, so it is a sum.
unfoldable pub encode : Bytes → Bytes
encode [] = []
encode (a ∷ []) = encode_map (a / 4) ∷ encode_map (a % 4 * 16) ∷ b'=' ∷ b'=' ∷ []
encode (a ∷ b ∷ []) =
    encode_map (a / 4) ∷ encode_map (a % 4 * 16 + b / 16) ∷ encode_map (b % 16 * 4) ∷ b'=' ∷ []
encode (a ∷ b ∷ c ∷ rest) =
    encode_map (a / 4)
    ∷ encode_map (a % 4 * 16 + b / 16)
    ∷ encode_map (b % 16 * 4 + c / 64)
    ∷ encode_map (c % 64)
    ∷ encode rest

-- One of the four inner loops: a value and what is left, or the `return` in its body.
pub data Next : Type 0 where
  got : ℕ → Bytes → Next
  ended : Next

-- Where the source is used up before the loop, the variable keeps the value that it had.
next_value : ℕ → Bytes → Next
next_value old [] = got old []
next_value old (c ∷ []) = if decode_map c == 255 then ended else got (decode_map c) []
next_value old (c ∷ d ∷ source) =
    let skip = next_value 255 (d ∷ source) in
    if decode_map c == 255 then skip else got (decode_map c) (d ∷ source)

-- `b1` to `b4`, which live across the rounds.
pub record Group : Type 0 where
  pub b1 : ℕ
  pub b2 : ℕ
  pub b3 : ℕ
  pub b4 : ℕ

-- What is assigned to a `uint8_t` loses its high bits.
abbrev first_byte : ℕ → ℕ → ℕ
first_byte b1 b2 = b1 * 4 % 256 + b2 / 16

abbrev second_byte : ℕ → ℕ → ℕ
second_byte b2 b3 = b2 * 16 % 256 + b3 / 4

abbrev third_byte : ℕ → ℕ → ℕ
third_byte b3 b4 = b3 * 64 % 256 + b4

-- The outer loop on fuel: each round takes a character at least. `none` if the fuel runs out.
decode_loop : ℕ → Group → Bytes → Bytes → Option Bytes
decode_loop fuel g [] target = some target
decode_loop zero g (c ∷ source) target = none
decode_loop (suc fuel) g (c ∷ source) target = elim (next_value g.b1 (c ∷ source)) [
  | ended ↦ some target
  | got b1 s₁ ↦ elim (next_value g.b2 s₁) [
    | ended ↦ some target
    | got b2 s₂ ↦ elim (next_value g.b3 s₂) [
      | ended ↦ some (target ++ first_byte b1 b2 ∷ [])
      | got b3 s₃ ↦ elim (next_value g.b4 s₃) [
        | ended ↦ some (target ++ first_byte b1 b2 ∷ second_byte b2 b3 ∷ [])
        | got b4 s₄ ↦
            decode_loop fuel (record { b1 = b1; b2 = b2; b3 = b3; b4 = b4 }) s₄
              (target ++ first_byte b1 b2 ∷ second_byte b2 b3 ∷ third_byte b3 b4 ∷ [])
      ]
    ]
  ]
]

abbrev start : Group
start = record { b1 = 0; b2 = 0; b3 = 0; b4 = 0 }

unfoldable pub decode : Bytes → Option Bytes
unfolding decode_loop next_value decode_map
decode source = decode_loop (length source) start source []
