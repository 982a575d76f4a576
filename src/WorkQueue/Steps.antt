-- ===== src/WorkQueue/Steps.antt =====
-- What one step on the queue of src/bdfs-lib/LockFreeQueue.h keeps.
use drive.Prelude.{
  ◌<◌, ◌≡◌, refl, sym, ◌∙◌, Bool, false, not, ◌&&◌, arith, ◌==◌, length, get_or, Bool-cases, inl,
  inr,
}
use drive.WorkQueue.{
  Shared, Pc, idle, producing, linking, publishing, counting, reclaiming, checking, freeing,
  consuming, comparing, taking, moving, uncounting, next,
}
use drive.WorkQueue.Order.{
  IsOrdered, Fits, is_publishing, Grew, Keeps, Keeps-still, linked-Keeps, moved-Keeps,
}

module _ {T : Type 0} (blank : T) where
  pub next-Keeps :
      (fails : Bool) (w : Pc T) (q : Shared T)
      → IsOrdered blank q
      → Fits blank w q
      → Keeps blank q (next blank fails w q)
  unfolding next
  next-Keeps fails idle q o f = Keeps-still blank q idle o tt
  next-Keeps fails (producing t) q o f = Keeps-still blank q (linking t q.last) o (omega arith)
  next-Keeps fails (linking t l) q o f = elim (Bool-cases (not fails && l == length q.items)) [
    | inl e ↦ rw e (linked-Keeps blank t l q o f (ground arith))
    | inr e ↦ rw e (Keeps-still blank q (producing t) o tt)
  ]
  next-Keeps fails (publishing n) q o f = record {
    ordered = record {
      first_le = o.first_le;
      divider_le = omega (arith, o.divider_le);
      last_le = omega arith;
      fifo = o.fifo;
    };
    fits = tt;
    grew = record { divider_le = omega arith; last_le = omega arith; kept = λ k h. refl };
  }
  next-Keeps fails counting q o f = record {
    ordered = record {
      first_le = o.first_le;
      divider_le = o.divider_le;
      last_le = o.last_le;
      fifo = o.fifo;
    };
    fits = tt;
    grew = record { divider_le = omega arith; last_le = omega arith; kept = λ k h. refl };
  }
  next-Keeps fails reclaiming q o f = Keeps-still blank q (checking q.first) o (o.first_le)
  next-Keeps fails (checking k) q o f = elim (Bool-cases (k == q.divider)) [
    | inl e ↦ rw e (Keeps-still blank q idle o tt)
    | inr e ↦ rw e (Keeps-still blank q (freeing k) o (ground arith))
  ]
  next-Keeps fails (freeing k) q o f = elim (Bool-cases (not fails && q.first == k)) [
    | inl e ↦ rw e (record {
      ordered = record {
        first_le = omega arith;
        divider_le = o.divider_le;
        last_le = o.last_le;
        fifo = o.fifo;
      };
      fits = tt;
      grew = record { divider_le = omega arith; last_le = omega arith; kept = λ i h. refl };
    })
    | inr e ↦ rw e (Keeps-still blank q idle o tt)
  ]
  next-Keeps fails consuming q o f = Keeps-still blank q (comparing q.divider) o (omega arith)
  next-Keeps fails (comparing k) q o f = elim (Bool-cases (k == q.last)) [
    | inl e ↦ rw e (Keeps-still blank q idle o tt)
    | inr e ↦ rw e (Keeps-still blank q (taking k) o (ground (arith, o.divider_le)))
  ]
  next-Keeps fails (taking k) q o f =
      Keeps-still blank q (moving k (get_or q.items k blank)) o (f, refl)
  next-Keeps fails (moving k t) q o f = elim (Bool-cases (not fails && q.divider == k)) [
    | inl e ↦ rw e (moved-Keeps blank k t q o f.0 f.1 (ground arith))
    | inr e ↦ rw e (Keeps-still blank q consuming o tt)
  ]
  next-Keeps fails uncounting q o f = record {
    ordered = record {
      first_le = o.first_le;
      divider_le = o.divider_le;
      last_le = o.last_le;
      fifo = o.fifo;
    };
    fits = tt;
    grew = record { divider_le = omega arith; last_le = omega arith; kept = λ k h. refl };
  }

  -- While a node is linked and not yet published, no other thread links or publishes one.
  pub next-publishing :
      (fails : Bool) (w : Pc T) (q : Shared T)
      → IsOrdered blank q
      → Fits blank w q
      → is_publishing blank w ≡ false
      → q.last < length q.items
      → (length (next blank fails w q).1.items ≡ length q.items)
        × ((next blank fails w q).1.last ≡ q.last)
        × (is_publishing blank (next blank fails w q).0 ≡ false)
  unfolding next
  next-publishing fails idle q o f e h = (refl, refl, refl)
  next-publishing fails (producing t) q o f e h = (refl, refl, refl)
  next-publishing fails (linking t l) q o f e h =
      let busy : (not fails && l == length q.items) ≡ false = ground arith in
      rw busy (refl, refl, refl)
  next-publishing fails (publishing n) q o f e h = cc
  next-publishing fails counting q o f e h = (refl, refl, refl)
  next-publishing fails reclaiming q o f e h = (refl, refl, refl)
  next-publishing fails (checking k) q o f e h = elim (Bool-cases (k == q.divider)) [
    | inl e ↦ rw e (refl, refl, refl)
    | inr e ↦ rw e (refl, refl, refl)
  ]
  next-publishing fails (freeing k) q o f e h = elim (Bool-cases (not fails && q.first == k)) [
    | inl e ↦ rw e (refl, refl, refl)
    | inr e ↦ rw e (refl, refl, refl)
  ]
  next-publishing fails consuming q o f e h = (refl, refl, refl)
  next-publishing fails (comparing k) q o f e h = elim (Bool-cases (k == q.last)) [
    | inl e ↦ rw e (refl, refl, refl)
    | inr e ↦ rw e (refl, refl, refl)
  ]
  next-publishing fails (taking k) q o f e h = (refl, refl, refl)
  next-publishing fails (moving k t) q o f e h = elim (Bool-cases (not fails && q.divider == k)) [
    | inl e ↦ rw e (refl, refl, refl)
    | inr e ↦ rw e (refl, refl, refl)
  ]
  next-publishing fails uncounting q o f e h = (refl, refl, refl)

  -- What a thread knows stays true, if it is not publishing.
  pub Fits-Grew :
      (w : Pc T) (q q' : Shared T)
      → IsOrdered blank q
      → is_publishing blank w ≡ false
      → Fits blank w q
      → Grew blank q q'
      → Fits blank w q'
  Fits-Grew idle q q' o e f g = tt
  Fits-Grew (producing t) q q' o e f g = tt
  Fits-Grew (linking t l) q q' o e f g = omega (arith, g.last_le)
  Fits-Grew (publishing n) q q' o e f g = cc
  Fits-Grew counting q q' o e f g = tt
  Fits-Grew reclaiming q q' o e f g = tt
  Fits-Grew (checking k) q q' o e f g = omega (arith, g.divider_le)
  Fits-Grew (freeing k) q q' o e f g = omega (arith, g.divider_le)
  Fits-Grew consuming q q' o e f g = tt
  Fits-Grew (comparing k) q q' o e f g = omega (arith, g.divider_le)
  Fits-Grew (taking k) q q' o e f g = omega (arith, g.last_le)
  Fits-Grew (moving k t) q q' o e f g =
      (omega (arith, g.last_le), f.1 ∙ sym (g.kept k (omega (arith, o.last_le))))
  Fits-Grew uncounting q q' o e f g = tt
