-- ===== src/Dispatch/Rollback.antt =====
-- When a request is refused, and what it leaves behind.
use hono_crosmos.Base.{
  ℕ, ◌+◌, ◌==◌, ==_iff, ◌≡◌, ◌≤◌, ◌↔◌, refl, ap, ap₂, inl, inr, string_eq, true, false, List, [],
  ◌∷◌, ◌++◌, length, length-append, either, ◌⊎◌, arith, Bool-cases,
}
use hono_crosmos.Base.Result.{Result, ok, thrown, Done, done}
use hono_crosmos.Base.Tables.{All, delete_where-append}
use hono_crosmos.Jobs.Row.{Job}
use hono_crosmos.Ingestion.Sources.{Source}
use hono_crosmos.Dispatch.Send.{
  JobDispatchStatus, durable, fast_only, failed, DispatchableJob, DispatchResult, QueueService,
  dispatch_one, classified, classify_from, dispatch_ingestion_jobs, Tables, named, owned,
  rollback_jobs_and_sources, DispatchError, service_unavailable, job_ids_of, source_ids_of_jobs,
  assert_dispatched_or_rollback,
}

-- Neither enqueue nor the kick is carried out.
abbrev pub IsLost : QueueService → DispatchableJob → Type 0
IsLost queue job =
    (queue.enqueue_first job.message ≡ false)
    × (queue.enqueue_again job.message ≡ false)
    × (queue.kick job.message ≡ false)

abbrev is_failed : JobDispatchStatus → ℕ
is_failed failed = 1
is_failed _ = 0

failures : QueueService → List DispatchableJob → ℕ
failures queue [] = 0
failures queue (job ∷ jobs) = is_failed (dispatch_one queue job.message) + failures queue jobs

classified-failed :
    (job : DispatchableJob) (s : JobDispatchStatus) (r : DispatchResult)
    → length (classified job s r).failed_jobs ≡ length r.failed_jobs + is_failed s
classified-failed job failed r = omega (arith, length-append r.failed_jobs (job ∷ []))
classified-failed job fast_only r = omega arith
classified-failed job durable r = omega arith

classify_from-failed :
    (queue : QueueService) (jobs : List DispatchableJob) (r : DispatchResult)
    → length (classify_from queue jobs r).failed_jobs ≡ length r.failed_jobs + failures queue jobs
unfolding classify_from failures
classify_from-failed queue [] r = omega arith
classify_from-failed queue (job ∷ jobs) r =
    let s = dispatch_one queue job.message in
    omega (arith, classify_from-failed queue jobs (classified job s r), classified-failed job s r)

failures-le :
    (queue : QueueService) (jobs : List DispatchableJob) → failures queue jobs ≤ length jobs
unfolding failures
failures-le queue [] = omega arith
failures-le queue (job ∷ jobs) =
    omega (arith, failures-le queue jobs, one (dispatch_one queue job.message))
  where
    one : (s : JobDispatchStatus) → is_failed s ≤ 1
    one s = ground arith

dispatch_one-IsLost :
    (queue : QueueService) (job : DispatchableJob)
    → is_failed (dispatch_one queue job.message) ≡ 1
    → IsLost queue job
unfolding dispatch_one
dispatch_one-IsLost queue job e = ground (
  arith,
  e,
  Bool-cases (queue.enqueue_first job.message),
  Bool-cases (queue.enqueue_again job.message),
  Bool-cases (queue.kick job.message),
)

IsLost-dispatch_one :
    (queue : QueueService) (job : DispatchableJob)
    → IsLost queue job
    → is_failed (dispatch_one queue job.message) ≡ 1
unfolding dispatch_one
IsLost-dispatch_one queue job (a, b, c) = rw (a, b, c) refl

failures-All :
    (queue : QueueService) (jobs : List DispatchableJob)
    → failures queue jobs ≡ length jobs
    → All (IsLost queue) jobs
unfolding failures
failures-All queue [] e = tt
failures-All queue (job ∷ jobs) e = (
  dispatch_one-IsLost queue job
      (omega (arith, e, failures-le queue jobs, one (dispatch_one queue job.message))),
  failures-All queue jobs
      (omega (arith, e, failures-le queue jobs, one (dispatch_one queue job.message))),
)
  where
    one : (s : JobDispatchStatus) → is_failed s ≤ 1
    one s = ground arith

All-failures :
    (queue : QueueService) (jobs : List DispatchableJob)
    → All (IsLost queue) jobs
    → failures queue jobs ≡ length jobs
unfolding failures
All-failures queue [] h = refl
All-failures queue (job ∷ jobs) (here, h) =
    omega (arith, IsLost-dispatch_one queue job here, All-failures queue jobs h)

-- The rows that the request inserted carry its ids, and no other row does.
abbrev pub IsInserted : ℕ → ℕ → List DispatchableJob → Tables → Tables → Type 0
IsInserted org space jobs old new =
    (All (λ j. named (job_ids_of jobs) j ≡ false) old.jobs
      × All (λ j. named (job_ids_of jobs) j ≡ true) new.jobs)
    × (All (λ s. owned org space (source_ids_of_jobs jobs) s ≡ false) old.sources
        × All (λ s. owned org space (source_ids_of_jobs jobs) s ≡ true) new.sources)

abbrev pub inserted : Tables → Tables → Tables
inserted old new = record { jobs = old.jobs ++ new.jobs; sources = old.sources ++ new.sources }

rollback-inserted :
    (org space : ℕ) (jobs : List DispatchableJob) (old new : Tables)
    → IsInserted org space jobs old new
    → rollback_jobs_and_sources org space
        (job_ids_of jobs)
        (source_ids_of_jobs jobs)
        (inserted old new)
      ≡ old
unfolding rollback_jobs_and_sources
rollback-inserted org space jobs old new ((a, b), (c, d)) =
    ap₂ (λ (js : List Job) (ss : List Source). record { jobs = js; sources = ss })
      (delete_where-append (named (job_ids_of jobs)) old.jobs new.jobs a b)
      (delete_where-append (owned org space (source_ids_of_jobs jobs)) old.sources new.sources c d)

module _ (queue : QueueService) (org space : ℕ) (jobs : List DispatchableJob) (old new : Tables)
    (fresh : IsInserted org space jobs old new) where
  abbrev outcome : Result DispatchError Done × Tables
  outcome =
      assert_dispatched_or_rollback org space jobs (dispatch_ingestion_jobs queue jobs)
        (inserted old new)

  failed_count : length (dispatch_ingestion_jobs queue jobs).failed_jobs ≡ failures queue jobs
  unfolding dispatch_ingestion_jobs
  failed_count = omega (
    arith,
    classify_from-failed queue jobs
        (record { statuses = []; failed_jobs = []; degraded_jobs = [] }),
  )

  branches :
      (outcome ≡ (thrown (service_unavailable 30), old)) ⊎ (outcome ≡ (ok done, inserted old new))
  unfolding assert_dispatched_or_rollback
  branches =
      either (λ o. (o ≡ (thrown (service_unavailable 30), old)) ⊎ (o ≡ (ok done, inserted old new)))
        (length (dispatch_ingestion_jobs queue jobs).failed_jobs == length jobs)
        (inl (
          ap (λ (db : Tables). (thrown (service_unavailable 30), db))
            (rollback-inserted org space jobs old new fresh)))
        (inr refl)

  refused :
      (length (dispatch_ingestion_jobs queue jobs).failed_jobs == length jobs) ≡ true
      → outcome.0 ≡ thrown (service_unavailable 30)
  unfolding assert_dispatched_or_rollback
  refused e = rw e refl

  refused_count :
      outcome.0 ≡ thrown (service_unavailable 30)
      → length (dispatch_ingestion_jobs queue jobs).failed_jobs ≡ length jobs
  unfolding assert_dispatched_or_rollback
  refused_count e =
      elim (Bool-cases (length (dispatch_ingestion_jobs queue jobs).failed_jobs == length jobs)) [
        | inl same ↦
            (==_iff (length (dispatch_ingestion_jobs queue jobs).failed_jobs) (length jobs)).0 same
        | inr ne ↦ absurd (ground (arith, e, ne))
      ]

  -- A request gets a 503 exactly when both enqueues and the kick of each of its jobs fail; with a 503
  -- the tables are as they were before its rows were inserted, and otherwise its rows stay.
  pub assert_dispatched_or_rollback_lem :
      ((outcome.0 ≡ thrown (service_unavailable 30)) ↔ All (IsLost queue) jobs)
      × ((outcome ≡ (thrown (service_unavailable 30), old))
          ⊎ (outcome ≡ (ok done, inserted old new)))
  assert_dispatched_or_rollback_lem = (
    (
      λ e. failures-All queue jobs (omega (arith, refused_count e, failed_count)),
      λ lost. refused (
          (==_iff (length (dispatch_ingestion_jobs queue jobs).failed_jobs) (length jobs)).1
            (omega (arith, failed_count, All-failures queue jobs lost))),
    ),
    branches,
  )
