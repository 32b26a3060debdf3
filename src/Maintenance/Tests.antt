-- ===== src/Maintenance/Tests.antt =====
-- A sweep that recovers at its second attempt.
use hono_crosmos.Base.{ℕ, zero, suc, ◌≡◌, refl, Bool, true, some, arith}
use hono_crosmos.Base.Result.{Result, ok, thrown}
use hono_crosmos.Maintenance.Sweep.{attempt_from, run_sweep}
use hono_crosmos.Maintenance.Attempts.{IsOutcome, run_sweep-IsOutcome}

abbrev recovers : ℕ → Result Bool ℕ
recovers zero = ok 0
recovers (suc zero) = thrown true
recovers (suc (suc n)) = ok 7

run_sweep_example : run_sweep recovers (some 3) ≡ record { value = some 7; attempts = 2 }
unfolding run_sweep attempt_from
run_sweep_example = refl

run_sweep-IsOutcome_example : IsOutcome recovers 3 1 (run_sweep recovers (some 3))
run_sweep-IsOutcome_example = run_sweep-IsOutcome recovers 3 (omega arith)
