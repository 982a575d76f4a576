-- ===== src/Base64/RoundTrip.antt =====
-- The encoder's output, and the decoder on it and on any input.
use drive.Base64.{
  encode_map, decode_map, encode, Next, got, ended, next_value, Group, first_byte, second_byte,
  third_byte, decode_loop, start, decode,
}
use drive.Prelude.{
  ℕ, zero, suc, ◌+◌, ◌*◌, ◌/◌, ◌%◌, ◌≤◌, ◌<◌, ◌≡◌, refl, ◌∙◌, ap, false, [], ◌∷◌, ◌++◌,
  append_assoc, append-nil, some, arith, All, ◌==◌, length, inl, inr, ◌⊎◌,
}
use drive.Prelude.Texts.{Bytes}
use drive.Stream.Endian.{IsByte}

decode_map-encode_map : (v : ℕ) → v < 64 → (decode_map (encode_map v) ≡ v) × ((v == 255) ≡ false)
unfolding encode_map decode_map
decode_map-encode_map v h = ground arith

next_value-encode_map :
    (old v : ℕ) (source : Bytes) → v < 64 → next_value old (encode_map v ∷ source) ≡ got v source
unfolding next_value
next_value-encode_map old v [] h = let (same, valid) = decode_map-encode_map v h in rw (same, valid)
next_value-encode_map old v (c ∷ source) h =
    let (same, valid) = decode_map-encode_map v h in rw (same, valid)

-- The decoder ends with a result on every input: a round takes a character at least.
next_value_shorter :
    (old : ℕ) (source : Bytes) (v : ℕ) (rest : Bytes)
    → next_value old source ≡ got v rest
    → length rest ≤ length source
unfolding next_value
next_value_shorter old [] v rest h = ground arith
next_value_shorter old (c ∷ []) v rest h = ground arith
next_value_shorter old (c ∷ d ∷ source) v rest h =
    ground (arith, next_value_shorter 255 (d ∷ source) v rest)

next_value_first :
    (old c : ℕ) (source : Bytes) (v : ℕ) (rest : Bytes)
    → next_value old (c ∷ source) ≡ got v rest
    → length rest ≤ length source
unfolding next_value
next_value_first old c [] v rest h = ground arith
next_value_first old c (d ∷ source) v rest h =
    ground (arith, next_value_shorter 255 (d ∷ source) v rest)

Next-cases : (n : Next) → (n ≡ ended) ⊎ ((v : ℕ) × (rest : Bytes) × (n ≡ got v rest))
Next-cases (got v rest) = inr (v, rest, refl)
Next-cases ended = inl refl

decode_loop_total :
    (fuel : ℕ) (g : Group) (source target : Bytes)
    → length source ≤ fuel
    → (out : Bytes) × (decode_loop fuel g source target ≡ some out)
unfolding decode_loop
decode_loop_total fuel g [] target h = (target, refl)
decode_loop_total zero g (c ∷ source) target h = absurd (omega arith)
decode_loop_total (suc fuel) g (c ∷ source) target h =
    elim (Next-cases (next_value g.b1 (c ∷ source))) [
      | inl e₁ ↦ (target, rw (e₁, decode_loop))
      | inr (b1, s₁, e₁) ↦ elim (Next-cases (next_value g.b2 s₁)) [
        | inl e₂ ↦ (target, rw (e₁, e₂, decode_loop))
        | inr (b2, s₂, e₂) ↦ elim (Next-cases (next_value g.b3 s₂)) [
          | inl e₃ ↦ (target ++ first_byte b1 b2 ∷ [], rw (e₁, e₂, e₃, decode_loop))
          | inr (b3, s₃, e₃) ↦ elim (Next-cases (next_value g.b4 s₃)) [
            | inl e₄ ↦ (
              target ++ first_byte b1 b2 ∷ second_byte b2 b3 ∷ [],
              rw (e₁, e₂, e₃, e₄, decode_loop),
            )
            | inr (b4, s₄, e₄) ↦
                let shorter : length s₄ ≤ fuel = omega (
                  arith,
                  next_value_first g.b1 c source b1 s₁ e₁,
                  next_value_shorter g.b2 s₁ b2 s₂ e₂,
                  next_value_shorter g.b3 s₂ b3 s₃ e₃,
                  next_value_shorter g.b4 s₃ b4 s₄ e₄,
                ) in
                let (out, run) =
                  decode_loop_total fuel (record { b1 = b1; b2 = b2; b3 = b3; b4 = b4 }) s₄
                    (target ++ first_byte b1 b2 ∷ second_byte b2 b3 ∷ third_byte b3 b4 ∷ [])
                    shorter in
                (out, rw (e₁, e₂, e₃, e₄, decode_loop) run)
          ]
        ]
      ]
    ]

-- `Decode` ends on every text: the fuel never runs out.
pub decode_total : (source : Bytes) → (out : Bytes) × (decode source ≡ some out)
unfolding decode
decode_total source = decode_loop_total (length source) start source [] (omega arith)

three_bytes :
    (a b c : ℕ)
    → IsByte a
    → IsByte b
    → IsByte c
    → (first_byte (a / 4) (a % 4 * 16 + b / 16) ≡ a)
      × (second_byte (a % 4 * 16 + b / 16) (b % 16 * 4 + c / 64) ≡ b)
      × (third_byte (b % 16 * 4 + c / 64) (c % 64) ≡ c)
three_bytes a b c ha hb hc = omega arith

last_two_bytes :
    (a b : ℕ)
    → IsByte a
    → IsByte b
    → (first_byte (a / 4) (a % 4 * 16 + b / 16) ≡ a)
      × (second_byte (a % 4 * 16 + b / 16) (b % 16 * 4) ≡ b)
last_two_bytes a b ha hb = omega arith

last_byte : (a : ℕ) → IsByte a → first_byte (a / 4) (a % 4 * 16) ≡ a
last_byte a ha = omega arith

next_value_padding :
    (old : ℕ) → (next_value old (b'=' ∷ []) ≡ ended) × (next_value old (b'=' ∷ b'=' ∷ []) ≡ ended)
unfolding next_value decode_map
next_value_padding old = (refl, refl)

decode_loop-encode :
    (xs : Bytes) (fuel : ℕ) (g : Group) (target : Bytes)
    → All IsByte xs
    → length (encode xs) ≤ fuel
    → decode_loop fuel g (encode xs) target ≡ some (target ++ xs)
unfolding decode_loop encode
decode_loop-encode [] fuel g target h f = rw append-nil
decode_loop-encode (a ∷ []) zero g target h f = absurd (omega arith)
decode_loop-encode (a ∷ []) (suc fuel) g target h f = rw (
  next_value-encode_map g.b1 (a / 4) _ (omega arith),
  next_value-encode_map g.b2 (a % 4 * 16) _ (omega arith),
  (next_value_padding g.b3).1,
  last_byte a h.0,
  decode_loop,
)
decode_loop-encode (a ∷ b ∷ []) zero g target h f = absurd (omega arith)
decode_loop-encode (a ∷ b ∷ []) (suc fuel) g target h f = rw (
  next_value-encode_map g.b1 (a / 4) _ (omega arith),
  next_value-encode_map g.b2 (a % 4 * 16 + b / 16) _ (omega arith),
  next_value-encode_map g.b3 (b % 16 * 4) _ (omega arith),
  (next_value_padding g.b4).0,
  (last_two_bytes a b h.0 h.1.0).0,
  (last_two_bytes a b h.0 h.1.0).1,
  decode_loop,
)
decode_loop-encode (a ∷ b ∷ c ∷ rest) zero g target h f = absurd (omega arith)
decode_loop-encode (a ∷ b ∷ c ∷ rest) (suc fuel) g target h f =
    let v1 = a / 4 in
    let v2 = a % 4 * 16 + b / 16 in
    let v3 = b % 16 * 4 + c / 64 in
    let v4 = c % 64 in
    let (first, second, third) = three_bytes a b c h.0 h.1.0 h.1.1.0 in
    rw
      (
        next_value-encode_map g.b1 v1 _ (omega arith),
        next_value-encode_map g.b2 v2 _ (omega arith),
        next_value-encode_map g.b3 v3 _ (omega arith),
        next_value-encode_map g.b4 v4 _ (omega arith),
        first,
        second,
        third,
        decode_loop,
      )
      (decode_loop-encode rest fuel _ (target ++ a ∷ b ∷ c ∷ []) h.1.1.1 (omega arith)
        ∙ ap some (append_assoc target (a ∷ b ∷ c ∷ []) rest))

-- What `Encode` writes for bytes is decoded to the same bytes.
pub decode-encode : (xs : Bytes) → All IsByte xs → decode (encode xs) ≡ some xs
unfolding decode
decode-encode xs h = decode_loop-encode xs (length (encode xs)) start [] h (omega arith)

-- The text has four characters for each three bytes or part of three.
pub length-encode : (xs : Bytes) → length (encode xs) ≡ (length xs + 2) / 3 * 4
unfolding encode
length-encode [] = refl
length-encode (a ∷ []) = refl
length-encode (a ∷ b ∷ []) = refl
length-encode (a ∷ b ∷ c ∷ rest) = omega (arith, length-encode rest)
