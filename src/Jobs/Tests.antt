-- ===== src/Jobs/Tests.antt =====
-- The job table at concrete histories.
use hono_crosmos.Base.{
  ℕ, ◌≡◌, ◌≢◌, refl, String, string_eq, false, Option, none, some, List, [], ◌∷◌, arith,
}
use hono_crosmos.Base.Int.{pos}
use hono_crosmos.Base.Tables.{count_where, update_where, first_where, All}
use hono_crosmos.Jobs.Row.{
  IngestionJobStatus, pending, processing, cancelled, Job, UpdateStatusOptions, job, is_in_flight,
}
use hono_crosmos.Jobs.Consumer.{claim_job}
use hono_crosmos.Jobs.PgStore.{
  NewJob, create, create_with_active_cap, count_active, update_status, count_active_ingestion_jobs,
  reap_stale_ingestion_jobs, cancel_jobs_for_space,
}
use hono_crosmos.Jobs.Terminal.{claims, resets, updates, reaps, run, run-terminal}
use hono_crosmos.Jobs.Lease.{attempt, beat, winners, winners-claimed}
use hono_crosmos.Jobs.Active.{
  Admitted, create_with_active_cap-Admitted, reap-count_active, cancel_jobs_for_space_lem,
}

abbrev row : String → IngestionJobStatus → Option ℕ → Job
row id status started = record {
  id = id;
  org_id = 1;
  space_id = 2;
  user_id = 3;
  status = status;
  source_ids = 5 ∷ [];
  result = none;
  error_message = none;
  current_stage = none;
  created_at = 1000;
  started_at = started;
  completed_at = none;
}

abbrev table : List Job
table = row "a" pending none ∷ row "b" cancelled (some 2000) ∷ []

abbrev no_opts : UpdateStatusOptions
no_opts = record { result = none; error = none; stage = none }

-- The API's own `updateStatus` moves a cancelled job back to `processing`.
update_status_resurrects :
    job "b" (update_status "b" processing no_opts 3000 table)
    ≡ some (row "b" processing (some 3000))
unfolding update_status update_where first_where
update_status_resurrects = refl

run-terminal_example :
    job "b" (
      run
        ((claims "b" 10, 90_000)
          ∷ (updates "b" processing no_opts, 90_001)
          ∷ (resets "b", 90_002)
          ∷ (reaps 5, 999_999)
          ∷ [])
        table)
    ≡ some (row "b" cancelled (some 2000))
unfolding first_where
run-terminal_example =
    run-terminal
      ((claims "b" 10, 90_000)
        ∷ (updates "b" processing no_opts, 90_001)
        ∷ (resets "b", 90_002)
        ∷ (reaps 5, 999_999)
        ∷ [])
      "b" table (row "b" cancelled (some 2000)) refl refl

winners-claimed_example :
    winners "a" 300
      (attempt 5100 ∷ beat no_opts 5250 ∷ attempt 5500 ∷ [])
      (claim_job "a" 300 5000 table).1
    ≡ []
unfolding claim_job count_where update_where first_where
winners-claimed_example =
    winners-claimed "a" 300 5000 (attempt 5100 ∷ beat no_opts 5250 ∷ attempt 5500 ∷ []) table
      (refl, (refl, tt)) refl (omega arith)

abbrev wish : NewJob
wish = record { job_id = "c"; org_id = 1; space_id = 2; user_id = 3; source_ids = 9 ∷ [] }

abbrev full_table : List Job
full_table = row "a" pending none ∷ []

create_with_active_cap-Admitted_example :
    Admitted 5 2000 (pos 1) wish full_table (false, full_table)
unfolding create_with_active_cap create count_active count_where first_where
create_with_active_cap-Admitted_example =
    create_with_active_cap-Admitted 5 2000 (pos 1) wish full_table full_table false (omega arith)
      refl

abbrev busy : List Job
busy =
    row "a" processing (some 1000) ∷ row "b" pending none ∷ row "d" processing (some 590_000) ∷ []

reap-count_active_example :
    (count_active 5 3 600_000 (reap_stale_ingestion_jobs 5 600_000 busy).1
      ≡ count_active 5 3 600_000 busy)
    × (count_active_ingestion_jobs 5 600_000 (reap_stale_ingestion_jobs 5 600_000 busy).1
        ≡ count_active_ingestion_jobs 5 600_000 busy)
reap-count_active_example = reap-count_active 5 3 600_000 busy

cancel_jobs_for_space_lem_example :
    All
      (λ j. j.space_id ≡ 2 → is_in_flight j.status ≡ false)
      (cancel_jobs_for_space 2 600_000 busy).1
    × ((id : String) (j : Job)
        → job id busy ≡ some j
        → j.space_id ≢ 2
        → job id (cancel_jobs_for_space 2 600_000 busy).1 ≡ some j)
cancel_jobs_for_space_lem_example = cancel_jobs_for_space_lem 2 600_000 busy
