-- ===== src/Shared/Backoff.antt =====
-- `Min`, `Max`, `GradualBackoffRetry` and `RetryAfter` of shared/shared.go. Seconds are held in
-- nanoseconds, the precision of `time.Since`, in place of floats.
pub mod Bounds
use Prim.Native.Nat.{◌^◌}
use db_operator.Base.{ℕ, suc, ◌*◌, ◌/◌, Bool, true, false, ltb, if◌then◌else◌}
use db_operator.Base.Int.{ℤ, pos, negsuc, negate}

-- `ctrl.Result`
pub record CtrlResult : Type 0 where
  pub requeue : Bool
  pub requeue_after : ℤ

abbrev pub no_requeue : CtrlResult
no_requeue = record { requeue = false; requeue_after = pos 0 }

abbrev pub second : ℕ
second = 10 ^ 9

abbrev pub less : ℤ → ℤ → Bool
less (pos a) (pos b) = ltb a b
less (pos a) (negsuc b) = false
less (negsuc a) (pos b) = true
less (negsuc a) (negsuc b) = ltb b a

unfoldable pub min_secs : ℤ → ℤ → ℤ
min_secs a b = if less a b then a else b

unfoldable pub max_secs : ℤ → ℤ → ℤ
max_secs a b = if less b a then a else b

-- `time.Duration(secs) * time.Second`, which drops the fraction
unfoldable pub whole_seconds : ℤ → ℤ
whole_seconds (pos n) = pos (n / second * second)
whole_seconds (negsuc n) = negate (suc n / second * second)

unfoldable pub retry_after : ℤ → CtrlResult
unfolding whole_seconds
retry_after secs = record { requeue = true; requeue_after = whole_seconds secs }

-- the argument is `time.Since(creationTime)`
unfoldable pub gradual_backoff_retry : ℤ → CtrlResult
unfolding min_secs max_secs retry_after
gradual_backoff_retry elapsed =
    retry_after (max_secs (min_secs elapsed (pos (300 * second))) (pos second))
