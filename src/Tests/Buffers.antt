-- ===== src/Tests/Buffers.antt =====
-- A buffer of three bytes that grows (src/bdblob/Buffer.cpp).
use drive.Buffer.{Buffer, resize}
use drive.Buffer.Growth.{IsAllocated, resize-IsAllocated}
use drive.Prelude.{
  ℕ, ◌≡◌, refl, ◌⊎◌, true, false, [], ◌∷◌, arith, take, replicate, length-replicate,
}

abbrev three : Buffer
three = record { bytes = 1 ∷ 2 ∷ 3 ∷ []; size = 2; memsize = 3 }

resize-IsAllocated_example :
    let (success, b') = resize true (replicate 8189 7) 5 three in
    IsAllocated b'
    × ((success ≡ false) × (true ≡ false) × (b' ≡ three)
        ⊎ (success ≡ true) × (b'.size ≡ 5) × (take 3 b'.bytes ≡ 1 ∷ 2 ∷ 3 ∷ []))
resize-IsAllocated_example =
    resize-IsAllocated true (replicate 8189 7) 5 three
      (record { sized = refl; within = ground arith }) (ground arith)
      (omega (arith, length-replicate {A = ℕ} 8189 7))

shrunk : resize false [] 1 three ≡ (true, record three { size = 1 })
unfolding resize
shrunk = refl
