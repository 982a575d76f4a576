-- ===== src/Buffer/Growth.antt =====
-- What `Resize` keeps (src/bdblob/Buffer.cpp).
use drive.Buffer.{Buffer, block_size, round_up, resize}
use drive.Prelude.{
  ℕ, zero, suc, [], ◌∷◌, ap, leb→le, ◌^◌, ◌+◌, ◌≤◌, ◌<◌, ◌≡◌, refl, Bool, true, false, arith, ◌++◌,
  leb, length, take, length-append, length-take, take_all, ◌⊎◌, Bool-cases, inl, inr,
}
use drive.Prelude.Texts.{Bytes}

-- The array has the length that is recorded, and the size is within it.
pub record IsAllocated (b : Buffer) : Type 0 where
  pub sized : length b.bytes ≡ b.memsize
  pub within : b.size ≤ b.memsize

round_up_ge : (size : ℕ) → size + block_size < 2 ^ 64 → size ≤ round_up size
round_up_ge size h = omega arith

take-take_append :
    (n m : ℕ) (xs ys : Bytes) → n ≡ length xs → n ≤ m → take n (take m (xs ++ ys)) ≡ xs
take-take_append zero m [] ys e h = refl
take-take_append zero m (x ∷ xs) ys e h = absurd (omega arith)
take-take_append (suc n) m [] ys e h = absurd (omega arith)
take-take_append (suc n) zero (x ∷ xs) ys e h = absurd (omega arith)
take-take_append (suc n) (suc m) (x ∷ xs) ys e h =
    ap (λ (t : Bytes). x ∷ t) (take-take_append n m xs ys (omega arith) (omega arith))

-- On an allocated buffer, with room for the rounding in 64 bits and as many fresh bytes as are
-- needed: `Resize` leaves it allocated; it fails only if no memory is granted, and then changes
-- nothing; else the size is the one asked for and the array keeps the bytes it had.
pub resize-IsAllocated :
    (granted : Bool) (fresh : Bytes) (size : ℕ) (b : Buffer)
    → IsAllocated b
    → size + block_size < 2 ^ 64
    → round_up size ≤ b.memsize + length fresh
    → let (success, b') = resize granted fresh size b in
      IsAllocated b'
      × ((success ≡ false) × (granted ≡ false) × (b' ≡ b)
          ⊎ (success ≡ true) × (b'.size ≡ size) × (take b.memsize b'.bytes ≡ b.bytes))
unfolding resize
resize-IsAllocated granted fresh size b a small room = elim (Bool-cases (leb size b.memsize)) [
  | inl fits ↦ rw fits (
    record { sized = a.sized; within = leb→le size b.memsize fits },
    inr (refl, refl, take_all b.memsize b.bytes (omega (arith, a.sized))),
  )
  | inr grows ↦ elim (Bool-cases granted) [
    | inl yes' ↦
        let larger = round_up_ge size small in
        rw (grows, yes')
          (
            record {
              sized = omega (
                arith,
                length-take (round_up size) (b.bytes ++ fresh),
                length-append b.bytes fresh,
                a.sized,
              );
              within = larger;
            },
            inr (
              refl,
              refl,
              take-take_append b.memsize (round_up size) b.bytes fresh (omega (arith, a.sized))
                  (ground (arith, larger)),
            ),
          )
    | inr no' ↦ rw (grows, no') (a, inl (refl, refl, refl))
  ]
]
