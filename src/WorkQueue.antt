-- ===== src/WorkQueue.antt =====
-- src/bdfs-lib/LockFreeQueue.h: the steps of threads that produce and consume, each step with one
-- access to what the threads share. The values are pointers or pairs of them, as in all uses of the
-- class (src/bdfsclient-lib/Cache.h, src/bdfs-lib/EventLoop.h, AsyncQueue.h), and such a value stays in
-- its node when it is moved out. The theorems on runs are about one thread that produces and one
-- that consumes: then no deleted node is followed, so that it does not matter whether its memory is
-- used again, and only the thread that consumes takes a value.
pub mod Order
pub mod Steps
pub mod Fifo
pub mod Alone
pub mod Runs
use drive.Prelude.{
  ℕ, zero, suc, ◌+◌, ◌-◌, ◌%◌, ◌^◌, ◌≡◌, Bool, true, false, not, ◌&&◌, List, [], ◌∷◌, ◌++◌, ◌==◌,
  if◌then◌else◌, length, get_or,
}

-- Node 0 is the one that the constructor makes, node `k + 1` is the one of item `k`: the nodes in
-- the order of their links. `consumed` are the values of the exchanges of `divider` that succeed. A
-- node's memory is not used again, and a node is deleted with the exchange that takes it from `first`.
pub record Shared (T : Type 0) : Type 0 where
  pub items : List T
  pub first : ℕ
  pub divider : ℕ
  pub last : ℕ
  pub size : ℕ
  pub consumed : List T

abbrev pub new_queue : {T : Type 0} → Shared T
new_queue = record { items = []; first = 0; divider = 0; last = 0; size = 0; consumed = [] }

-- Where a thread is: `producing` to `freeing` in `Produce`, the others in `Consume`. The numbers are
-- the nodes that it has loaded or, for `publishing`, made.
pub data Pc (T : Type 0) : Type 0 where
  idle : Pc T
  producing : T → Pc T
  linking : T → ℕ → Pc T
  publishing : ℕ → Pc T
  counting : Pc T
  reclaiming : Pc T
  checking : ℕ → Pc T
  freeing : ℕ → Pc T
  consuming : Pc T
  comparing : ℕ → Pc T
  taking : ℕ → Pc T
  moving : ℕ → T → Pc T
  uncounting : Pc T

-- The next step of a thread. The load of `next` in `freeing` and `moving` is one step with the exchange
-- behind it: the node was before `last`, and there `next` does not change. `fails` is a weak exchange
-- that fails for no reason, and `blank` the value `T()`.
unfoldable pub next : {T : Type 0} → T → Bool → Pc T → Shared T → Pc T × Shared T
next blank fails idle q = (idle, q)
next blank fails (producing t) q = (linking t q.last, q)
next blank fails (linking t l) q =
    if not fails && l == length q.items
    then (publishing (suc l), record q { items = q.items ++ t ∷ [] })
    else (producing t, q)
next blank fails (publishing n) q = (counting, record q { last = n })
next blank fails counting q = (reclaiming, record q { size = (q.size + 1) % 2 ^ 64 })
next blank fails reclaiming q = (checking q.first, q)
next blank fails (checking k) q = if k == q.divider then (idle, q) else (freeing k, q)
next blank fails (freeing k) q =
    if not fails && q.first == k then (reclaiming, record q { first = suc k }) else (idle, q)
next blank fails consuming q = (comparing q.divider, q)
next blank fails (comparing k) q = if k == q.last then (idle, q) else (taking k, q)
next blank fails (taking k) q = (moving k (get_or q.items k blank), q)
next blank fails (moving k t) q =
    if not fails && q.divider == k
    then (uncounting, record q { divider = suc k; consumed = q.consumed ++ t ∷ [] })
    else (consuming, q)
next blank fails uncounting q = (idle, record q { size = (q.size + 2 ^ 64 - 1) % 2 ^ 64 })

pub record System (T : Type 0) : Type 0 where
  pub pcs : ℕ → Pc T
  pub shared : Shared T

abbrev pub at : {T : Type 0} → ℕ → Pc T → (ℕ → Pc T) → ℕ → Pc T
at i w pcs j = if j == i then w else pcs j

abbrev pub new_system : {T : Type 0} → System T
new_system = record { pcs = λ i. idle; shared = new_queue }

abbrev pub advanced : {T : Type 0} → T → Bool → ℕ → System T → System T
advanced blank fails i s =
    let (w, q) = next blank fails (s.pcs i) s.shared in record { pcs = at i w s.pcs; shared = q }

abbrev pub started : {T : Type 0} → ℕ → Pc T → System T → System T
started i w s = record s { pcs = at i w s.pcs }

-- A step of thread `i`: it calls `Produce` or `Consume`, where it may, or goes on.
pub data Step {T : Type 0} (blank : T) (produces consumes : ℕ → Bool) (i : ℕ) (s : System T)
    : System T → Type 0 where
  produce :
      (t : T)
      → produces i ≡ true
      → s.pcs i ≡ idle
      → Step blank produces consumes i s (started i (producing t) s)
  consume :
      consumes i ≡ true → s.pcs i ≡ idle → Step blank produces consumes i s (started i consuming s)
  advance : (fails : Bool) → Step blank produces consumes i s (advanced blank fails i s)

-- The states that any threads reach, in any order of their steps.
pub data Reach {T : Type 0} (blank : T) (produces consumes : ℕ → Bool) : System T → Type 0 where
  start : Reach blank produces consumes new_system
  later :
      (i : ℕ) {s s' : System T}
      → Reach blank produces consumes s
      → Step blank produces consumes i s s'
      → Reach blank produces consumes s'
