-- ===== src/Pipeline/Plan.antt =====
-- The bounds of a batch.
use hono_crosmos.Base.{refl, ℕ, ◌-◌, ◌==◌, ◌≡◌, ◌≤◌, min, false, arith, Bool-cases, inl, inr}
use hono_crosmos.Base.Int.{ℤ, pos_part}
use hono_crosmos.Pipeline.Batch.{plan_batch}

module _ (n : ℕ) (next budget : ℤ) where
  pub plan_batch-start : (plan_batch n next budget).start ≡ min (pos_part next) n
  unfolding plan_batch
  plan_batch-start = refl

  pub plan_batch-le : (plan_batch n next budget).start ≤ (plan_batch n next budget).end
  unfolding plan_batch
  plan_batch-le = elim (Bool-cases (pos_part budget == 0)) [
    | inl e ↦ rw e (omega arith)
    | inr e ↦ rw e (omega arith)
  ]

  pub plan_batch-end : (plan_batch n next budget).end ≤ n
  unfolding plan_batch
  plan_batch-end = elim (Bool-cases (pos_part budget == 0)) [
    | inl e ↦ rw e (omega arith)
    | inr e ↦ rw e (omega arith)
  ]

  pub plan_batch-remaining :
      (plan_batch n next budget).remaining ≡ n - (plan_batch n next budget).end
  unfolding plan_batch
  plan_batch-remaining = refl

  -- A batch that is not empty starts at the checkpoint.
  pub plan_batch-at :
      ((plan_batch n next budget).end == (plan_batch n next budget).start) ≡ false
      → (plan_batch n next budget).start ≡ pos_part next
  plan_batch-at h = ground (arith, h, plan_batch-start, plan_batch-le, plan_batch-end)
