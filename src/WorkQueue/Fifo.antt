-- ===== src/WorkQueue/Fifo.antt =====
-- First in, first out, in src/bdfs-lib/LockFreeQueue.h: what every order of steps keeps.
use drive.Prelude.{
  ℕ, ◌≤◌, ◌<◌, ◌≡◌, refl, Bool, true, false, arith, ◌==◌, length, take, Bool-cases, inl, inr,
}
use drive.WorkQueue.{
  Shared, Pc, idle, producing, linking, publishing, counting, reclaiming, checking, freeing,
  consuming, comparing, taking, moving, uncounting, next, System, advanced, started, Step, produce,
  consume, advance, Reach, start, later,
}
use drive.WorkQueue.Order.{IsOrdered, Fits, is_publishing}
use drive.WorkQueue.Steps.{next-Keeps, next-publishing, Fits-Grew}

module _ {T : Type 0} (blank : T) where
  pub record Inv (s : System T) : Type 0 where
    pub ordered : IsOrdered blank s.shared
    pub fits : (i : ℕ) → Fits blank (s.pcs i) s.shared
    pub unique :
        (i j : ℕ)
        → is_publishing blank (s.pcs i) ≡ true
        → is_publishing blank (s.pcs j) ≡ true
        → i ≡ j

  is_publishing-behind :
      (w : Pc T) (q : Shared T)
      → is_publishing blank w ≡ true
      → Fits blank w q
      → q.last < length q.items
  is_publishing-behind idle q e f = cc
  is_publishing-behind (producing t) q e f = cc
  is_publishing-behind (linking t l) q e f = cc
  is_publishing-behind (publishing n) q e f = omega arith
  is_publishing-behind counting q e f = cc
  is_publishing-behind reclaiming q e f = cc
  is_publishing-behind (checking k) q e f = cc
  is_publishing-behind (freeing k) q e f = cc
  is_publishing-behind consuming q e f = cc
  is_publishing-behind (comparing k) q e f = cc
  is_publishing-behind (taking k) q e f = cc
  is_publishing-behind (moving k t) q e f = cc
  is_publishing-behind uncounting q e f = cc

  is_publishing-Fits :
      (w : Pc T) (q q' : Shared T)
      → is_publishing blank w ≡ true
      → Fits blank w q
      → length q'.items ≡ length q.items
      → q'.last ≡ q.last
      → Fits blank w q'
  is_publishing-Fits idle q q' e f l h = cc
  is_publishing-Fits (producing t) q q' e f l h = cc
  is_publishing-Fits (linking t k) q q' e f l h = cc
  is_publishing-Fits (publishing n) q q' e f l h = (omega arith, omega arith)
  is_publishing-Fits counting q q' e f l h = cc
  is_publishing-Fits reclaiming q q' e f l h = cc
  is_publishing-Fits (checking k) q q' e f l h = cc
  is_publishing-Fits (freeing k) q q' e f l h = cc
  is_publishing-Fits consuming q q' e f l h = cc
  is_publishing-Fits (comparing k) q q' e f l h = cc
  is_publishing-Fits (taking k) q q' e f l h = cc
  is_publishing-Fits (moving k t) q q' e f l h = cc
  is_publishing-Fits uncounting q q' e f l h = cc

  -- While another thread publishes, a step of a thread leaves the list and its end alone.
  beside :
      (fails : Bool) (i j : ℕ) (s : System T)
      → Inv s
      → (j == i) ≡ false
      → is_publishing blank (s.pcs j) ≡ true
      → (let (w, q) = next blank fails (s.pcs i) s.shared in
          Fits blank (s.pcs j) q × (is_publishing blank w ≡ false))
  beside fails i j s v apart e =
      let other : is_publishing blank (s.pcs i) ≡ false =
        elim (Bool-cases (is_publishing blank (s.pcs i))) [
          | inr quiet ↦ quiet
          | inl busy ↦ let same : j ≡ i = v.unique j i e busy in ground arith
        ] in
      let (l, h, still) =
        next-publishing blank fails (s.pcs i) s.shared v.ordered (v.fits i) other
          (is_publishing-behind (s.pcs j) s.shared e (v.fits j)) in
      (
        is_publishing-Fits (s.pcs j) s.shared (next blank fails (s.pcs i) s.shared).1 e (v.fits j) l
            h,
        still,
      )

  advanced-Inv : (fails : Bool) (i : ℕ) (s : System T) → Inv s → Inv (advanced blank fails i s)
  advanced-Inv fails i s v =
      let k = next-Keeps blank fails (s.pcs i) s.shared v.ordered (v.fits i) in
      let q' = (next blank fails (s.pcs i) s.shared).1 in
      record {
        ordered = k.ordered;
        fits = λ j. elim (Bool-cases (j == i)) [
          | inl e ↦ rw e (k.fits)
          | inr e ↦ elim (Bool-cases (is_publishing blank (s.pcs j))) [
            | inl busy ↦ rw e ((beside fails i j s v e busy).0)
            | inr quiet ↦
                rw e (Fits-Grew blank (s.pcs j) s.shared q' v.ordered quiet (v.fits j) k.grew)
          ]
        ];
        unique = λ j l e e'. elim (Bool-cases (j == i)) [
          | inl a ↦ elim (Bool-cases (l == i)) [
            | inl b ↦ ground arith
            | inr b ↦
                let quiet = (beside fails i l s v b (rw b at e')).1 in let busy = (rw a at e) in cc
          ]
          | inr a ↦ elim (Bool-cases (l == i)) [
            | inl b ↦
                let quiet = (beside fails i j s v a (rw a at e)).1 in let busy = (rw b at e') in cc
            | inr b ↦ v.unique j l (rw a at e) (rw b at e')
          ]
        ];
      }

  started-Inv :
      (i : ℕ) (w : Pc T) (s : System T)
      → Inv s
      → Fits blank w s.shared
      → is_publishing blank w ≡ false
      → Inv (started i w s)
  started-Inv i w s v f quiet = record {
    ordered = v.ordered;
    fits = λ j. elim (Bool-cases (j == i)) [ inl e ↦ rw e f | inr e ↦ rw e (v.fits j) ];
    unique = λ j l e e'. elim (Bool-cases (j == i)) [
      | inl a ↦ let busy = (rw a at e) in cc
      | inr a ↦ elim (Bool-cases (l == i)) [
        | inl b ↦ let busy = (rw b at e') in cc
        | inr b ↦ v.unique j l (rw a at e) (rw b at e')
      ]
    ];
  }

  pub Step-Inv :
      {produces consumes : ℕ → Bool} {i : ℕ} {s s' : System T}
      → Step blank produces consumes i s s'
      → Inv s
      → Inv s'
  Step-Inv {i = i} {s = s} (produce t may e) v = started-Inv i (producing t) s v tt refl
  Step-Inv {i = i} {s = s} (consume may e) v = started-Inv i consuming s v tt refl
  Step-Inv {i = i} {s = s} (advance fails) v = advanced-Inv fails i s v

  pub Reach-Inv :
      {produces consumes : ℕ → Bool} {s : System T} → Reach blank produces consumes s → Inv s
  Reach-Inv start = record {
    ordered = record {
      first_le = omega arith;
      divider_le = omega arith;
      last_le = omega arith;
      fifo = refl;
    };
    fits = λ i. tt;
    unique = λ i j e e'. cc;
  }
  Reach-Inv (later i r st) = Step-Inv st (Reach-Inv r)

  -- With one thread `p` that produces and one thread `c` that consumes, in every state that they
  -- reach, in any order of their steps: the values consumed are the first values linked, in that
  -- order and each of them once, and the pointers are in the order `first`, `divider`, `last`, end
  -- of the list.
  pub consumed_in_order :
      (p c : ℕ) {s : System T}
      → Reach blank (λ j. j == p) (λ j. j == c) s
      → (s.shared.consumed ≡ take s.shared.divider s.shared.items)
        × (s.shared.first ≤ s.shared.divider)
        × (s.shared.divider ≤ s.shared.last)
        × (s.shared.last ≤ length s.shared.items)
  consumed_in_order p c r =
      let o = (Reach-Inv r).ordered in (o.fifo, o.first_le, o.divider_le, o.last_le)
