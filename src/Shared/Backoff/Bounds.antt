-- ===== src/Shared/Backoff/Bounds.antt =====
-- The bounds of the gradual back-off.
use db_operator.Base.{ℕ, ◌*◌, ◌/◌, ◌≤◌, true, ltb, ◌≡◌, refl, arith, if◌then◌else◌}
use db_operator.Base.Int.{ℤ, pos, negsuc}
use db_operator.Shared.Backoff.{second, gradual_backoff_retry}

-- the whole seconds of the wait
abbrev pub wait_seconds : ℤ → ℕ
wait_seconds (negsuc n) = 1
wait_seconds (pos n) = if ltb n second then 1 else if ltb n (300 * second) then n / second else 300

-- The back-off always asks for another run. It waits as many whole seconds as have passed since the
-- given time, but at least 1, also for a time in the future, and at most 300.
pub gradual_backoff_bounds :
    (elapsed : ℤ)
    → (gradual_backoff_retry elapsed
        ≡ record { requeue = true; requeue_after = pos (wait_seconds elapsed * second) })
      × (1 ≤ wait_seconds elapsed)
      × (wait_seconds elapsed ≤ 300)
unfolding gradual_backoff_retry
gradual_backoff_bounds (negsuc n) = (refl, omega arith, omega arith)
gradual_backoff_bounds (pos n) = ground arith

-- The later the time, the longer the wait.
pub gradual_backoff_mono : (a b : ℕ) → a ≤ b → wait_seconds (pos a) ≤ wait_seconds (pos b)
gradual_backoff_mono a b h = ground arith
