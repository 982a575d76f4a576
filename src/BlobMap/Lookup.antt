-- ===== src/BlobMap/Lookup.antt =====
-- What `GetValue` returns after `SetValue`, whatever becomes of the disk (src/bdblob/BlobMap.cpp).
use drive.BlobMap.{BlobMap, Outcome, is_empty, read_range, get_value, append_value, set_value}
use drive.OrderedMap.{find}
use drive.Prelude.{
  ℕ, ◌<◌, ◌≡◌, refl, sym, subst, ◌⊎◌, inl, inr, Bool, false, none, some, [], ◌∷◌, arith, length,
  min, if◌then◌else◌, ltb, not, ◌&&◌, ◌||◌, Option-cases, Bool-cases,
}
use drive.Prelude.Texts.{Bytes, str_eq, str_eq_iff}
use drive.BlobMap.Append.{
  IsValid, Succeeds, append_value-IsValid, append_value_same, append_value_self,
}

-- Reads that succeed agree, whatever else happens.
get_value_outcome :
    (io io' : Outcome) (n n' : ℕ) (q : Bytes) (m : BlobMap)
    → Succeeds io n
    → Succeeds io' n'
    → get_value io q m ≡ get_value io' q m
unfolding get_value read_range
get_value_outcome io io' n n' q m h h' = elim (Option-cases m.file) [
  | inl e ↦ rw e
  | inr (bytes, e) ↦ elim (Option-cases (find q m.indexes)) [
    | inl i ↦ ground arith
    | inr (ix, i) ↦ ground arith
  ]
]

length_pos : (payload : Bytes) → is_empty payload ≡ false → 0 < length payload
length_pos [] h = cc
length_pos (b ∷ bs) h = omega arith

set_value_closed :
    (io : Outcome) (key payload : Bytes) (m : BlobMap)
    → m.file ≡ none
    → set_value io key payload m ≡ m
unfolding set_value
set_value_closed io key payload m e = ground arith

-- Whether `SetValue` gets as far as the write.
abbrev reaches : Outcome → Bytes → Bytes → BlobMap → Bool
reaches io key payload m =
    not (is_empty key || is_empty payload)
    && (not (str_eq (get_value io key m) payload) && io.seeks_end)

set_value_open :
    (io : Outcome) (key bytes payload : Bytes) (m : BlobMap)
    → m.file ≡ some bytes
    → set_value io key payload m
      ≡ (if reaches io key payload m then append_value io key bytes payload m else m)
unfolding set_value
set_value_open io key bytes payload m e = ground arith

-- On a valid map, whatever the disk does, `SetValue` keeps every entry of the index inside the
-- file and not empty.
pub set_value-IsValid :
    (io : Outcome) (key payload : Bytes) (m : BlobMap)
    → IsValid m
    → IsValid (set_value io key payload m)
set_value-IsValid io key payload m v = elim (Option-cases m.file) [
  | inl e ↦ subst IsValid (sym (set_value_closed io key payload m e)) v
  | inr (bytes, e) ↦
      subst IsValid (sym (set_value_open io key bytes payload m e))
        (elim (Bool-cases (reaches io key payload m)) [
          | inl yes' ↦
              rw yes' (
                append_value-IsValid io key bytes payload m e (length_pos payload (ground arith)) v)
          | inr no' ↦ rw no' v
        ])
]

-- On a valid map, whatever the disk does during `SetValue`: a key that is then read without a
-- failure reads as before, or it is the key that was set and reads as the new value.
pub get_value-set_value_any :
    (io io' : Outcome) (key payload q : Bytes) (m : BlobMap) (n : ℕ)
    → IsValid m
    → Succeeds io' n
    → (get_value io' q (set_value io key payload m) ≡ get_value io' q m)
      ⊎ ((q ≡ key) × (get_value io' q (set_value io key payload m) ≡ payload))
get_value-set_value_any io io' key payload q m n v ok = elim (Option-cases m.file) [
  | inl e ↦ rw (set_value_closed io key payload m e) (inl refl)
  | inr (bytes, e) ↦
      rw (set_value_open io key bytes payload m e) (elim (Bool-cases (reaches io key payload m)) [
        | inl yes' ↦ rw yes' (appended bytes e (ground arith) (length_pos payload (ground arith)))
        | inr no' ↦ rw no' (inl refl)
      ])
]
  where
    appended :
        (bytes : Bytes)
        → m.file ≡ some bytes
        → is_empty key ≡ false
        → 0 < length payload
        → (get_value io' q (append_value io key bytes payload m) ≡ get_value io' q m)
          ⊎ ((q ≡ key) × (get_value io' q (append_value io key bytes payload m) ≡ payload))
    appended bytes e named pos = elim (Bool-cases (str_eq q key)) [
      | inr other ↦ inl (append_value_same io key bytes payload m io' q e v (inr other))
      | inl same ↦ elim (Bool-cases (ltb (min io.write_limit (length payload)) (length payload))) [
        | inl short ↦ inl (append_value_same io key bytes payload m io' q e v (inl short))
        | inr whole ↦
            rw ((str_eq_iff q key).0 same) (
              inr
                (refl, append_value_self io key bytes payload m io' n named pos (ground arith) ok))
      ]
    ]

-- On a valid map with an open file, for a key and a value that are not empty, when no call of
-- the C library fails: after `SetValue` its key reads as the new value, every other key as
-- before.
pub get_value-set_value :
    (io io' : Outcome) (key payload bytes q : Bytes) (m : BlobMap) (n : ℕ)
    → IsValid m
    → m.file ≡ some bytes
    → is_empty key ≡ false
    → is_empty payload ≡ false
    → Succeeds io (length payload)
    → Succeeds io' n
    → get_value io' q (set_value io key payload m)
      ≡ (if str_eq q key then payload else get_value io' q m)
get_value-set_value io io' key payload bytes q m n v e named filled ok ok' =
    rw (set_value_open io key bytes payload m e) (elim (Bool-cases (str_eq q key)) [
      | inl same ↦ elim (Bool-cases (reaches io key payload m)) [
        | inl yes' ↦
            rw (same, yes', (str_eq_iff q key).0 same)
              (append_value_self io key bytes payload m io' n named (length_pos payload filled)
                (omega arith) ok')
        | inr no' ↦
            rw (same, no', (str_eq_iff q key).0 same)
              (ground (
                arith,
                get_value_outcome io io' (length payload) n key m ok ok',
                str_eq_iff (get_value io key m) payload,
              ))
      ]
      | inr other ↦ elim (Bool-cases (reaches io key payload m)) [
        | inl yes' ↦
            rw (other, yes') (append_value_same io key bytes payload m io' q e v (inr other))
        | inr no' ↦ rw (other, no')
      ]
    ])
