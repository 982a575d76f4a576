-- ===== src/WorkQueue/Runs.antt =====
-- Schedules of the threads of src/bdfs-lib/LockFreeQueue.h.
use drive.Prelude.{ℕ, Bool, List, [], ◌∷◌}
use drive.WorkQueue.{System, advanced, advance, Reach, later}

module _ {T : Type 0} (blank : T) where
  -- A schedule: for each step the thread, and whether a weak exchange fails for no reason.
  unfoldable pub run : List (Bool × ℕ) → System T → System T
  run [] s = s
  run ((fails, i) ∷ steps) s = run steps (advanced blank fails i s)

  pub Reach-run :
      {produces consumes : ℕ → Bool} (steps : List (Bool × ℕ)) {s : System T}
      → Reach blank produces consumes s
      → Reach blank produces consumes (run steps s)
  unfolding run
  Reach-run [] r = r
  Reach-run ((fails, i) ∷ steps) r = Reach-run steps (later i r (advance fails))
