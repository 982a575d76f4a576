-- ===== src/WorkQueue/Alone.antt =====
-- One thread that produces and one that consumes, on the queue of src/bdfs-lib/LockFreeQueue.h.
use drive.Prelude.{
  ℕ, ◌≤◌, ◌≡◌, ◌⊎◌, refl, Bool, false, not, ◌&&◌, Option, none, some, arith, ◌==◌, length,
  Bool-cases, inl, inr,
}
use drive.WorkQueue.{
  Shared, Pc, idle, producing, linking, publishing, counting, reclaiming, checking, freeing,
  consuming, comparing, taking, moving, uncounting, next, System, started, Step, produce, consume,
  advance, Reach, start, later,
}
use drive.WorkQueue.Order.{IsOrdered}
use drive.WorkQueue.Fifo.{Reach-Inv}

module _ {T : Type 0} (blank : T) where
  -- The node that the next step of a thread follows a pointer to.
  unfoldable pub dereferenced : Pc T → Option ℕ
  dereferenced idle = none
  dereferenced (producing t) = none
  dereferenced (linking t l) = some l
  dereferenced (publishing n) = none
  dereferenced counting = none
  dereferenced reclaiming = none
  dereferenced (checking k) = none
  dereferenced (freeing k) = some k
  dereferenced consuming = none
  dereferenced (comparing k) = none
  dereferenced (taking k) = some k
  dereferenced (moving k t) = some k
  dereferenced uncounting = none

  module _ (p c : ℕ) where
    -- What a thread holds is what the queue still points to.
    abbrev Owns : ℕ → Pc T → Shared T → Type 0
    Owns i idle q = Unit
    Owns i (producing t) q = i ≡ p
    Owns i (linking t l) q = (i ≡ p) × (l ≡ q.last)
    Owns i (publishing n) q = i ≡ p
    Owns i counting q = i ≡ p
    Owns i reclaiming q = i ≡ p
    Owns i (checking k) q = (i ≡ p) × (k ≡ q.first)
    Owns i (freeing k) q = (i ≡ p) × (k ≡ q.first)
    Owns i consuming q = i ≡ c
    Owns i (comparing k) q = (i ≡ c) × (k ≡ q.divider)
    Owns i (taking k) q = (i ≡ c) × (k ≡ q.divider)
    Owns i (moving k t) q = (i ≡ c) × (k ≡ q.divider)
    Owns i uncounting q = i ≡ c

    -- What a step keeps, and which pointers it may change.
    record Moved (i : ℕ) (q : Shared T) (r : Pc T × Shared T) : Type 0 where
      owns : Owns i r.0 r.1
      produced : (i ≡ p) ⊎ ((r.1.last ≡ q.last) × (r.1.first ≡ q.first))
      taken : (i ≡ c) ⊎ (r.1.divider ≡ q.divider)

    Moved-still : (i : ℕ) (w : Pc T) (q : Shared T) → Owns i w q → Moved i q (w, q)
    Moved-still i w q o = record { owns = o; produced = inr (refl, refl); taken = inr refl }

    next-Moved :
        (fails : Bool) (i : ℕ) (w : Pc T) (q : Shared T)
        → Owns i w q
        → Moved i q (next blank fails w q)
    unfolding next
    next-Moved fails i idle q o = Moved-still i idle q tt
    next-Moved fails i (producing t) q o = Moved-still i (linking t q.last) q (o, refl)
    next-Moved fails i (linking t l) q o = elim (Bool-cases (not fails && l == length q.items)) [
      | inl e ↦ rw e (record { owns = o.0; produced = inl o.0; taken = inr refl })
      | inr e ↦ rw e (Moved-still i (producing t) q o.0)
    ]
    next-Moved fails i (publishing n) q o = record { owns = o; produced = inl o; taken = inr refl }
    next-Moved fails i counting q o = record { owns = o; produced = inl o; taken = inr refl }
    next-Moved fails i reclaiming q o = Moved-still i (checking q.first) q (o, refl)
    next-Moved fails i (checking k) q o = elim (Bool-cases (k == q.divider)) [
      | inl e ↦ rw e (Moved-still i idle q tt)
      | inr e ↦ rw e (Moved-still i (freeing k) q o)
    ]
    next-Moved fails i (freeing k) q o = elim (Bool-cases (not fails && q.first == k)) [
      | inl e ↦ rw e (record { owns = o.0; produced = inl o.0; taken = inr refl })
      | inr e ↦ rw e (Moved-still i idle q tt)
    ]
    next-Moved fails i consuming q o = Moved-still i (comparing q.divider) q (o, refl)
    next-Moved fails i (comparing k) q o = elim (Bool-cases (k == q.last)) [
      | inl e ↦ rw e (Moved-still i idle q tt)
      | inr e ↦ rw e (Moved-still i (taking k) q o)
    ]
    next-Moved fails i (taking k) q o = record {
      owns = o;
      produced = inr (refl, refl);
      taken = inr refl;
    }
    next-Moved fails i (moving k t) q o = elim (Bool-cases (not fails && q.divider == k)) [
      | inl e ↦ rw e (record { owns = o.0; produced = inr (refl, refl); taken = inl o.0 })
      | inr e ↦ rw e (Moved-still i consuming q o.0)
    ]
    next-Moved fails i uncounting q o = record {
      owns = tt;
      produced = inr (refl, refl);
      taken = inl o;
    }

    -- The steps of one thread leave what the other one holds.
    Owns-other :
        (i j : ℕ) (v : Pc T) (q : Shared T) (r : Pc T × Shared T)
        → (j == i) ≡ false
        → Moved i q r
        → Owns j v q
        → Owns j v r.1
    Owns-other i j idle q r e m o = tt
    Owns-other i j (producing t) q r e m o = o
    Owns-other i j (linking t l) q r e m o = (o.0, grind (arith, m.produced))
    Owns-other i j (publishing n) q r e m o = o
    Owns-other i j counting q r e m o = o
    Owns-other i j reclaiming q r e m o = o
    Owns-other i j (checking k) q r e m o = (o.0, grind (arith, m.produced))
    Owns-other i j (freeing k) q r e m o = (o.0, grind (arith, m.produced))
    Owns-other i j consuming q r e m o = o
    Owns-other i j (comparing k) q r e m o = (o.0, grind (arith, m.taken))
    Owns-other i j (taking k) q r e m o = (o.0, grind (arith, m.taken))
    Owns-other i j (moving k t) q r e m o = (o.0, grind (arith, m.taken))
    Owns-other i j uncounting q r e m o = o

    started-Owns :
        (i : ℕ) (w : Pc T) (s : System T)
        → ((j : ℕ) → Owns j (s.pcs j) s.shared)
        → Owns i w s.shared
        → (j : ℕ) → Owns j ((started i w s).pcs j) s.shared
    started-Owns i w s o f j = elim (Bool-cases (j == i)) [
      | inl e ↦ let same : j ≡ i = ground arith in rw (e, same) f
      | inr e ↦ rw e (o j)
    ]

    Step-Owns :
        {i : ℕ} {s s' : System T}
        → Step blank (λ j. j == p) (λ j. j == c) i s s'
        → ((j : ℕ) → Owns j (s.pcs j) s.shared)
        → (j : ℕ) → Owns j (s'.pcs j) s'.shared
    Step-Owns {i = i} {s = s} (produce t may e) o j =
        started-Owns i (producing t) s o (ground arith) j
    Step-Owns {i = i} {s = s} (consume may e) o j = started-Owns i consuming s o (ground arith) j
    Step-Owns {i = i} {s = s} (advance fails) o j =
        let m = next-Moved fails i (s.pcs i) s.shared (o i) in
        let r = next blank fails (s.pcs i) s.shared in
        elim (Bool-cases (j == i)) [
          | inl e ↦ let same : j ≡ i = ground arith in rw (e, same) (m.owns)
          | inr e ↦ rw e (Owns-other i j (s.pcs j) s.shared r e m (o j))
        ]

    Reach-Owns :
        {s : System T}
        → Reach blank (λ j. j == p) (λ j. j == c) s
        → (j : ℕ) → Owns j (s.pcs j) s.shared
    Reach-Owns start j = tt
    Reach-Owns (later i r st) j = Step-Owns st (Reach-Owns r) j

    live :
        (w : Pc T) (q : Shared T) (k i : ℕ)
        → Owns i w q
        → IsOrdered blank q
        → dereferenced w ≡ some k
        → (q.first ≤ k) × (k ≤ length q.items)
    unfolding dereferenced
    live idle q k i o r e = cc
    live (producing t) q k i o r e = cc
    live (linking t l) q k i o r e =
        let same : l ≡ k = cc in
        (omega (arith, r.first_le, r.divider_le), omega (arith, r.divider_le, r.last_le))
    live (publishing n) q k i o r e = cc
    live counting q k i o r e = cc
    live reclaiming q k i o r e = cc
    live (checking l) q k i o r e = cc
    live (freeing l) q k i o r e =
        let same : l ≡ k = cc in
        (omega (arith, r.first_le, r.divider_le), omega (arith, r.divider_le, r.last_le))
    live consuming q k i o r e = cc
    live (comparing l) q k i o r e = cc
    live (taking l) q k i o r e =
        let same : l ≡ k = cc in
        (omega (arith, r.first_le, r.divider_le), omega (arith, r.divider_le, r.last_le))
    live (moving l t) q k i o r e =
        let same : l ≡ k = cc in
        (omega (arith, r.first_le, r.divider_le), omega (arith, r.divider_le, r.last_le))
    live uncounting q k i o r e = cc

  -- With one thread `p` that produces and one thread `c` that consumes, in any order of their steps:
  -- a node that the next step of a thread follows a pointer to has not been deleted, and is linked.
  pub dereferenced_not_deleted :
      (p c : ℕ) {s : System T}
      → Reach blank (λ j. j == p) (λ j. j == c) s
      → (i k : ℕ) → dereferenced (s.pcs i) ≡ some k
      → (s.shared.first ≤ k) × (k ≤ length s.shared.items)
  dereferenced_not_deleted p c {s = s} r i k e =
      live p c (s.pcs i) s.shared k i (Reach-Owns p c r i) (Reach-Inv blank r).ordered e
