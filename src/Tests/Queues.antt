-- ===== src/Tests/Queues.antt =====
-- Runs of the queue of src/bdfs-lib/LockFreeQueue.h.
use drive.Prelude.{ℕ, ◌≡◌, ◌≤◌, refl, true, false, some, ◌==◌, ltb, length, take, replicate}
use drive.WorkQueue.{
  producing, consuming, next, System, new_system, started, Reach, start, later, produce, consume,
}
use drive.WorkQueue.Fifo.{consumed_in_order}
use drive.WorkQueue.Alone.{dereferenced, dereferenced_not_deleted}
use drive.WorkQueue.Runs.{run, Reach-run}

-- Thread 0 has produced 5 and returned, and thread 1 begins to consume.
abbrev waiting : System ℕ
waiting = started 1 consuming (run 0 (replicate 6 (false, 0)) (started 0 (producing 5) new_system))

waiting-Reach : Reach 0 (λ j. j == 0) (λ j. j == 1) waiting
unfolding run next
waiting-Reach =
    later 1 (Reach-run 0 (replicate 6 (false, 0)) (later 0 start (produce 5 refl refl)))
      (consume refl refl)

consumed_in_order_example :
    let q = (run 0 (replicate 5 (false, 1)) waiting).shared in
    (q.consumed ≡ take q.divider q.items)
    × (q.first ≤ q.divider)
    × (q.divider ≤ q.last)
    × (q.last ≤ length q.items)
consumed_in_order_example =
    consumed_in_order 0 0 1 (Reach-run 0 (replicate 5 (false, 1)) waiting-Reach)

dereferenced_not_deleted_example :
    let q = (run 0 (replicate 2 (false, 1)) waiting).shared in (q.first ≤ 0) × (0 ≤ length q.items)
unfolding run next dereferenced
dereferenced_not_deleted_example =
    dereferenced_not_deleted 0 0 1 (Reach-run 0 (replicate 2 (false, 1)) waiting-Reach) 1 0 refl

-- With two threads that produce, one follows a pointer to a node that the other has deleted.
abbrev consumed_one : System ℕ
consumed_one = run 0 (replicate 5 (false, 1)) waiting

abbrev about_to_free : System ℕ
about_to_free = run 0 (replicate 6 (false, 0)) (started 0 (producing 7) consumed_one)

abbrev freed : System ℕ
freed = run 0 (replicate 7 (false, 2)) (started 2 (producing 8) about_to_free)

deleted_node_followed : (ltb 0 freed.shared.first ≡ true) × (dereferenced 0 (freed.pcs 0) ≡ some 0)
unfolding run next dereferenced
deleted_node_followed = (refl, refl)
