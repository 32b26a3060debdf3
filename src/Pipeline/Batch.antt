-- ===== src/Pipeline/Batch.antt =====
-- apps/ingestion/src/ingestion/pipeline.ts: `planBatch`. The checkpoint comes from a JSON value, the
-- budget is a difference, so both can be negative.
use hono_crosmos.Base.{ℕ, zero, suc, ◌+◌, ◌-◌, ◌==◌, min, List, [], ◌∷◌, if◌then◌else◌}
use hono_crosmos.Base.Int.{ℤ, pos_part}

pub record BatchPlan : Type 0 where
  pub start : ℕ
  pub end : ℕ
  pub remaining : ℕ

unfoldable pub plan_batch : ℕ → ℤ → ℤ → BatchPlan
plan_batch chunk_count next_seq budget =
    let start = min (pos_part next_seq) chunk_count in
    let end = if pos_part budget == 0 then start else min chunk_count (start + pos_part budget) in
    record { start = start; end = end; remaining = chunk_count - end }

-- The sequences of the chunks `[start, start + count)` of a source, which are numbered from zero.
abbrev pub sequences : ℕ → ℕ → List ℕ
sequences start zero = []
sequences start (suc count) = start ∷ sequences (suc start) count
