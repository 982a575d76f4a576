-- ===== src/FileBlob/Contents.antt =====
-- The bytes of a blob that is a file (src/bdblob/FileBlob.cpp).
use drive.FileBlob.{Calls, Directory, FileBlob, put_path, file_bytes, read, write}
use drive.HostPartition.{overlay}
use drive.HostPartition.Blocks.{length-overlay, zeros_eq}
use drive.Prelude.{
  ℕ, zero, suc, ◌+◌, ◌-◌, ◌≤◌, ◌<◌, ◌≡◌, refl, sym, ◌∙◌, true, some, [], ◌++◌, arith, ltb,
  ltb_false→le, ltb→lt, lt→ltb, le→ltb_false, if◌then◌else◌, length, take, drop, replicate, get_or,
  get_or-append, get_or-take, get_or-drop, get_or-replicate, list_ext, length-take, length-drop,
  length-append, length-replicate, drop_all, append-nil, min, Bool-cases, inl, inr,
}
use drive.Prelude.Texts.{Bytes, str_eq_self}
use drive.Volume.Layout.{get_or-overlay}

pub take-nil : (n : ℕ) → take {A = ℕ} n [] ≡ []
take-nil zero = refl
take-nil (suc n) = refl

-- What a blob holds: the bytes of its file, and zeros where the file is shorter than the blob.
abbrev pub shown : FileBlob → Directory → Bytes
shown blob dir =
    let file = file_bytes blob.path dir in
    take blob.size (file ++ replicate (blob.size - length file) 0)

pub length-shown : (blob : FileBlob) (dir : Directory) → length (shown blob dir) ≡ blob.size
length-shown blob dir =
    let file = file_bytes blob.path dir in
    let zeros = replicate {A = ℕ} (blob.size - length file) 0 in
    omega (
      arith,
      length-take blob.size (file ++ zeros),
      length-append file zeros,
      length-replicate {A = ℕ} (blob.size - length file) 0,
    )

-- Padding what a file has of a part, and the part of the padded file.
padded_part :
    (offset len size : ℕ) (file : Bytes)
    → offset ≤ size
    → let got = take (min len (size - offset)) (drop offset file) in
      got ++ replicate (min len (size - offset) - length got) 0
      ≡ take len (drop offset (take size (file ++ replicate (size - length file) 0)))
padded_part offset len size file h =
    let wanted = min len (size - offset) in
    let got = take wanted (drop offset file) in
    let pad = replicate {A = ℕ} (wanted - length got) 0 in
    let zeros = replicate {A = ℕ} (size - length file) 0 in
    let whole = take size (file ++ zeros) in
    let got_length : length got ≡ min wanted (length file - offset) =
      omega (arith, length-take wanted (drop offset file), length-drop offset file) in
    let left_length : length (got ++ pad) ≡ wanted = omega (
      arith,
      length-append got pad,
      got_length,
      length-replicate {A = ℕ} (wanted - length got) 0,
    ) in
    let right_length : length (take len (drop offset whole)) ≡ wanted = omega (
      arith,
      length-take len (drop offset whole),
      length-drop offset whole,
      length-take size (file ++ zeros),
      length-append file zeros,
      length-replicate {A = ℕ} (size - length file) 0,
    ) in
    list_ext (got ++ pad) (take len (drop offset whole)) 0 (left_length ∙ sym right_length) (λ i l.
      let near : i < wanted = omega (arith, left_length) in
      let right : get_or (take len (drop offset whole)) i 0
          ≡ (if ltb (offset + i) (length file) then get_or file (offset + i) 0 else 0) =
        get_or-take len (drop offset whole) i 0 (omega arith)
        ∙ get_or-drop offset whole i 0
        ∙ get_or-take size (file ++ zeros) (offset + i) 0 (omega arith)
        ∙ get_or-append file zeros (offset + i) 0
        ∙ rw (get_or-replicate {A = ℕ} (size - length file) (offset + i - length file) 0) in
      rw (right, get_or-append got pad i 0)
        (elim (Bool-cases (ltb i (length got))) [
          | inl here ↦
              rw
                (
                  here,
                  lt→ltb (offset + i) (length file) (omega (arith, ltb→lt i (length got) here)),
                )
                (get_or-take wanted (drop offset file) i 0 near ∙ get_or-drop offset file i 0)
          | inr behind ↦
              rw
                (
                  behind,
                  le→ltb_false (offset + i) (length file)
                      (omega (arith, ltb_false→le i (length got) behind)),
                )
                (get_or-replicate {A = ℕ} (wanted - length got) (i - length got) 0)
        ]))

-- A read of a blob that is open gives the part asked for of what the blob holds, as far as the
-- blob reaches, also where its file is shorter.
pub read_lem :
    (offset len : ℕ) (blob : FileBlob) (dir : Directory)
    → blob.opened ≡ true
    → read offset len blob dir ≡ take len (drop offset (shown blob dir))
unfolding read
read_lem offset len blob dir o = elim (Bool-cases (ltb blob.size offset)) [
  | inl outside ↦ rw (
    o,
    outside,
    drop_all offset (shown blob dir)
        (omega (arith, length-shown blob dir, ltb→lt blob.size offset outside)),
    take-nil len,
  )
  | inr inside ↦
      rw (o, inside)
        (padded_part offset len blob.size (file_bytes blob.path dir)
          (ltb_false→le blob.size offset inside))
]

-- An open blob whose file has all its bytes.
pub record IsFull (blob : FileBlob) (dir : Directory) : Type 0 where
  pub opened : blob.opened ≡ true
  pub long : blob.size ≤ length (file_bytes blob.path dir)

pub shown_take :
    (blob : FileBlob) (dir : Directory)
    → blob.size ≤ length (file_bytes blob.path dir)
    → shown blob dir ≡ take blob.size (file_bytes blob.path dir)
shown_take blob dir h =
    let file = file_bytes blob.path dir in
    rw (zeros_eq (blob.size - length file) 0 (omega arith), append-nil file)

take-overlay :
    (offset size : ℕ) (bytes file : Bytes)
    → offset + length bytes ≤ size
    → size ≤ length file
    → take size (overlay offset bytes file) ≡ overlay offset bytes (take size file)
take-overlay offset size bytes file h k =
    let cut : length (take size file) ≡ size = omega (arith, length-take size file) in
    let same = length-overlay offset bytes file (omega arith) in
    let same' = length-overlay offset bytes (take size file) (omega arith) in
    let left = length-take size (overlay offset bytes file) in
    list_ext (take size (overlay offset bytes file)) (overlay offset bytes (take size file)) 0
      (omega arith)
      (λ i l. rw (
        get_or-take size (overlay offset bytes file) i 0 (omega arith),
        get_or-overlay offset bytes file i (omega arith),
        get_or-overlay offset bytes (take size file) i (omega arith),
        get_or-take size file i 0 (omega arith),
      ))

-- A write from inside a full blob is defined, reports as many bytes as `fwrite` takes and the blob
-- has room for, lays those of them that reach the file over what the blob held, and leaves the blob
-- full.
pub write_lem :
    (calls : Calls) (offset : ℕ) (bytes : Bytes) (blob : FileBlob) (dir : Directory)
    → IsFull blob dir
    → offset ≤ blob.size
    → let n = min calls.accepts (min (length bytes) (blob.size - offset)) in
      (dir' : Directory) × (write calls offset bytes blob dir ≡ some (n, dir'))
      × IsFull blob dir'
      × (shown blob dir' ≡ overlay offset (take (min calls.room n) bytes) (shown blob dir))
unfolding write
write_lem calls offset bytes blob dir full h =
    let file = file_bytes blob.path dir in
    let k = min calls.room (min calls.accepts (min (length bytes) (blob.size - offset))) in
    let taken : length (take k bytes) ≡ k = omega (arith, length-take k bytes) in
    let dir' = put_path blob.path (some (overlay offset (take k bytes) file)) dir in
    let held : file_bytes blob.path dir' ≡ overlay offset (take k bytes) file =
      rw (file_bytes, str_eq_self blob.path) in
    let size' = length-overlay offset (take k bytes) file (omega (arith, full.long)) in
    let long' : blob.size ≤ length (file_bytes blob.path dir') =
      rw held (omega (arith, full.long)) in
    (
      dir',
      rw (
        full.opened,
        le→ltb_false blob.size offset h,
        le→ltb_false (length file) offset (omega (arith, full.long)),
      ),
      record { opened = full.opened; long = long' },
      shown_take blob dir' long'
          ∙ rw (held, shown_take blob dir full.long)
              (take-overlay offset blob.size (take k bytes) file (omega arith) full.long),
    )

pub write_outside :
    (calls : Calls) (offset : ℕ) (bytes : Bytes) (blob : FileBlob) (dir : Directory)
    → blob.opened ≡ true
    → blob.size < offset
    → write calls offset bytes blob dir ≡ some (0, dir)
unfolding write
write_outside calls offset bytes blob dir o h = rw (o, lt→ltb blob.size offset h)
