-- ===== src/WorkQueue/Order.antt =====
-- The order of the nodes of src/bdfs-lib/LockFreeQueue.h, and of the values consumed.
use drive.Prelude.{
  ℕ, zero, suc, ◌≤◌, ◌<◌, ◌≡◌, refl, sym, ap, ◌∙◌, Bool, true, false, List, [], ◌∷◌, ◌++◌, arith,
  ltb, length, take, get_or, get_or-append, length-append,
}
use drive.WorkQueue.{
  Shared, Pc, idle, producing, linking, publishing, counting, reclaiming, checking, freeing,
  consuming, comparing, taking, moving, uncounting,
}

module _ {T : Type 0} (blank : T) where
  -- The pointers in their order, and what was consumed in the order of the links.
  pub record IsOrdered (q : Shared T) : Type 0 where
    pub first_le : q.first ≤ q.divider
    pub divider_le : q.divider ≤ q.last
    pub last_le : q.last ≤ length q.items
    pub fifo : q.consumed ≡ take q.divider q.items

  -- What a thread knows of the nodes that it holds.
  abbrev pub Fits : Pc T → Shared T → Type 0
  Fits idle q = Unit
  Fits (producing t) q = Unit
  Fits (linking t l) q = l ≤ q.last
  Fits (publishing n) q = (n ≡ length q.items) × (q.last < n)
  Fits counting q = Unit
  Fits reclaiming q = Unit
  Fits (checking k) q = k ≤ q.divider
  Fits (freeing k) q = k < q.divider
  Fits consuming q = Unit
  Fits (comparing k) q = k ≤ q.divider
  Fits (taking k) q = k < q.last
  Fits (moving k t) q = (k < q.last) × (t ≡ get_or q.items k blank)
  Fits uncounting q = Unit

  abbrev pub is_publishing : Pc T → Bool
  is_publishing idle = false
  is_publishing (producing t) = false
  is_publishing (linking t l) = false
  is_publishing (publishing n) = true
  is_publishing counting = false
  is_publishing reclaiming = false
  is_publishing (checking k) = false
  is_publishing (freeing k) = false
  is_publishing consuming = false
  is_publishing (comparing k) = false
  is_publishing (taking k) = false
  is_publishing (moving k t) = false
  is_publishing uncounting = false

  -- The pointers only move on, and what is linked stays.
  pub record Grew (q q' : Shared T) : Type 0 where
    pub divider_le : q.divider ≤ q'.divider
    pub last_le : q.last ≤ q'.last
    pub kept : (k : ℕ) → k < length q.items → get_or q'.items k blank ≡ get_or q.items k blank

  Grew-refl : (q : Shared T) → Grew q q
  Grew-refl q = record { divider_le = omega arith; last_le = omega arith; kept = λ k h. refl }

  -- What a step keeps, of the thread that takes it.
  pub record Keeps (q : Shared T) (r : Pc T × Shared T) : Type 0 where
    pub ordered : IsOrdered r.1
    pub fits : Fits r.0 r.1
    pub grew : Grew q r.1

  pub Keeps-still : (q : Shared T) (w : Pc T) → IsOrdered q → Fits w q → Keeps q (w, q)
  Keeps-still q w o f = record { ordered = o; fits = f; grew = Grew-refl q }

  take-suc :
      (k : ℕ) (xs : List T) → k < length xs → take (suc k) xs ≡ take k xs ++ get_or xs k blank ∷ []
  take-suc k [] h = absurd (omega arith)
  take-suc zero (x ∷ xs) h = refl
  take-suc (suc k) (x ∷ xs) h = ap (λ (t : List T). x ∷ t) (take-suc k xs (omega arith))

  take-append_le : (k : ℕ) (xs ys : List T) → k ≤ length xs → take k (xs ++ ys) ≡ take k xs
  take-append_le zero xs ys h = refl
  take-append_le (suc k) [] ys h = absurd (omega arith)
  take-append_le (suc k) (x ∷ xs) ys h =
      ap (λ (t : List T). x ∷ t) (take-append_le k xs ys (omega arith))

  pub linked-Keeps :
      (t : T) (l : ℕ) (q : Shared T)
      → IsOrdered q
      → l ≤ q.last
      → l ≡ length q.items
      → Keeps q (publishing (suc l), record q { items = q.items ++ t ∷ [] })
  linked-Keeps t l q o f e =
      let longer = length-append q.items (t ∷ []) in
      record {
        ordered = record {
          first_le = o.first_le;
          divider_le = o.divider_le;
          last_le = omega (arith, o.last_le);
          fifo =
              o.fifo
              ∙ sym (
                  take-append_le q.divider q.items (t ∷ [])
                    (omega (arith, o.divider_le, o.last_le)));
        };
        fits = (omega arith, omega (arith, o.last_le));
        grew = record {
          divider_le = omega arith;
          last_le = omega arith;
          kept = λ k h.
              let inside : ltb k (length q.items) ≡ true = ground arith in
              get_or-append q.items (t ∷ []) k blank ∙ rw inside;
        };
      }

  pub moved-Keeps :
      (k : ℕ) (t : T) (q : Shared T)
      → IsOrdered q
      → k < q.last
      → t ≡ get_or q.items k blank
      → q.divider ≡ k
      → Keeps q (uncounting, record q { divider = suc k; consumed = q.consumed ++ t ∷ [] })
  moved-Keeps k t q o h e d = record {
    ordered = record {
      first_le = omega (arith, o.first_le);
      divider_le = omega arith;
      last_le = o.last_le;
      fifo = rw (o.fifo, e, d) (sym (take-suc k q.items (omega (arith, o.last_le))));
    };
    fits = tt;
    grew = record { divider_le = omega arith; last_le = omega arith; kept = λ i l. refl };
  }
