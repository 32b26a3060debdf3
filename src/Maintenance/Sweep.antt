-- ===== src/Maintenance/Sweep.antt =====
-- apps/api/src/lib/sweep-retry.ts: a sweep with bounded retries. What each attempt returns, or
-- throws and whether that is a transient failure of a dependency, is an argument. The pauses
-- between attempts are left out.
use hono_crosmos.Base.{ℕ, zero, suc, ◌==◌, Bool, not, ◌||◌, Option, none, some, if◌then◌else◌}
use hono_crosmos.Base.Result.{Result, ok, thrown}

abbrev pub sweep_max_attempts : ℕ
sweep_max_attempts = 3

-- `value` is there if and only if the sweep succeeded.
pub record SweepResult (A : Type 0) : Type 0 where
  pub value : Option A
  pub attempts : ℕ

module _ {A : Type 0} where
  -- The loop, on fuel for the attempts that are left; it returns before the fuel is used up, unless
  -- no attempt is allowed.
  unfoldable pub attempt_from : (ℕ → Result Bool A) → ℕ → ℕ → ℕ → SweepResult A
  attempt_from run max zero attempt = record { value = none; attempts = max }
  attempt_from run max (suc left) attempt =
      let later = attempt_from run max left (suc attempt) in
      elim (run attempt) [
        | ok value ↦ record { value = some value; attempts = attempt }
        | thrown retryable ↦
            if not retryable || attempt == max
            then record { value = none; attempts = attempt }
            else later
      ]

  unfoldable pub run_sweep : (ℕ → Result Bool A) → Option ℕ → SweepResult A
  run_sweep run none = attempt_from run sweep_max_attempts sweep_max_attempts 1
  run_sweep run (some max) = attempt_from run max max 1
