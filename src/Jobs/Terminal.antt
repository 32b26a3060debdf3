-- ===== src/Jobs/Terminal.antt =====
-- The life of a job row under the operations of both workers: terminal is final.
use hono_crosmos.Base.{
  ℕ, ◌≡◌, inl, inr, refl, ◌∙◌, String, string_eq, Bool, true, false, Option, none, some, List, [],
  ◌∷◌, if◌then◌else◌, arith, Bool-cases, Option-cases,
}
use hono_crosmos.Base.Int.{ℤ, pos, ltb_ℤ}
use hono_crosmos.Base.Tables.{
  update_where, first_where, first_where-update_where, first_where-append,
}
use hono_crosmos.Jobs.Row.{IngestionJobStatus, Job, UpdateStatusOptions, is_terminal, has_id, job}
use hono_crosmos.Jobs.Consumer.{
  claim_job, claim_row, reset_job_for_retry, retry_row, update_job_status, status_row,
}
use hono_crosmos.Jobs.PgStore.{
  NewJob, new_row, create, inserted, create_with_active_cap, cancelled_row, cancel_jobs_for_space,
  cancel_jobs_for_org, reaped_row, reap_stale_ingestion_jobs, count_active,
}

abbrev pub updated : (Job → Bool) → (Job → Job) → Option Job → Option Job
updated p f none = none
updated p f (some j) = some (if p j then f j else j)

-- An update that keeps the ids acts on each row by itself.
pub job-update_where :
    (id : String) (p : Job → Bool) (f : Job → Job) (t : List Job)
    → ((j : Job) → (f j).id ≡ j.id)
    → job id (update_where p f t) ≡ updated p f (job id t)
job-update_where id p f t h =
    first_where-update_where (has_id id) p f t (λ j. ground (arith, h j, Bool-cases (p j)))
    ∙ spread (first_where (has_id id) t)
  where
    spread :
        (o : Option Job)
        → (elim o [ none ↦ none | some x ↦ some (if p x then f x else x) ]) ≡ updated p f o
    spread none = refl
    spread (some x) = refl

-- What either worker does to the table, apart from the API's unguarded `updateStatus`.
pub data Op : Type 0 where
  claims : (id : String) (lease : ℕ) → Op
  resets : (id : String) → Op
  updates : (id : String) (status : IngestionJobStatus) (opts : UpdateStatusOptions) → Op
  cancels_space cancels_org : ℕ → Op
  reaps : (stale : ℕ) → Op
  creates : (stale : ℕ) (input : NewJob) (max_active : ℤ) → Op

abbrev table_after : List Job → Option (Bool × List Job) → List Job
table_after t none = t
table_after t (some (_, t')) = t'

pub step : Op → ℕ → List Job → List Job
step (claims id lease) now t = (claim_job id lease now t).1
step (resets id) now t = (reset_job_for_retry id t).1
step (updates id status opts) now t = (update_job_status id status opts now t).1
step (cancels_space space) now t = (cancel_jobs_for_space space now t).1
step (cancels_org org) now t = (cancel_jobs_for_org org now t).1
step (reaps stale) now t = (reap_stale_ingestion_jobs stale now t).1
step (creates stale input max_active) now t =
    table_after t (create_with_active_cap stale input max_active now t)

pub run : List (Op × ℕ) → List Job → List Job
run [] t = t
run ((op, now) ∷ ops) t = run ops (step op now t)

missed :
    (id : String) (p : Job → Bool) (f : Job → Job) (t : List Job) (j : Job)
    → ((k : Job) → (f k).id ≡ k.id)
    → job id t ≡ some j
    → p j ≡ false
    → job id (update_where p f t) ≡ some j
missed id p f t j h found miss = job-update_where id p f t h ∙ ground (arith, found, miss)

create-job :
    (input : NewJob) (now : ℕ) (id : String) (t : List Job) (j : Job)
    → job id t ≡ some j
    → job id (table_after t (inserted (create input now t))) ≡ some j
unfolding create
create-job input now id t j found = elim (Option-cases (job input.job_id t)) [
  | inr (k, taken) ↦ rw (taken, create) found
  | inl free ↦
      rw (free, create)
        (first_where-append (has_id id) t (new_row input now ∷ []) ∙ ground (arith, found))
]

-- The guarded insert either inserts or leaves the table.
pub create_with_active_cap-cases {ℓ} :
    (P : Option (Bool × List Job) → Type ℓ) (stale : ℕ) (input : NewJob) (most : ℤ) (now : ℕ)
    (t : List Job)
    → P (inserted (create input now t))
    → P (some (false, t))
    → P (create_with_active_cap stale input most now t)
unfolding create_with_active_cap
create_with_active_cap-cases P stale input most now t p q = elim (Bool-cases (ltb_ℤ most (pos 0))) [
  | inl e ↦ rw e p
  | inr e ↦ elim (Bool-cases (ltb_ℤ (pos (count_active stale input.user_id now t)) most)) [
    | inl e' ↦ rw (e, e') p
    | inr e' ↦ rw (e, e') q
  ]
]

step-terminal :
    (op : Op) (now : ℕ) (id : String) (t : List Job) (j : Job)
    → job id t ≡ some j
    → is_terminal j.status ≡ true
    → job id (step op now t) ≡ some j
unfolding step claim_job reset_job_for_retry update_job_status cancel_jobs_for_space
    cancel_jobs_for_org reap_stale_ingestion_jobs
step-terminal (claims k lease) now id t j found end =
    missed id _ (claim_row now) t j (λ k. refl) found (ground arith)
step-terminal (resets k) now id t j found end =
    missed id _ retry_row t j (λ k. refl) found (ground arith)
step-terminal (updates k status opts) now id t j found end =
    missed id _ (status_row status opts now) t j (λ k. refl) found (ground arith)
step-terminal (cancels_space space) now id t j found end =
    missed id _ (cancelled_row _ now) t j (λ k. refl) found (ground arith)
step-terminal (cancels_org org) now id t j found end =
    missed id _ (cancelled_row _ now) t j (λ k. refl) found (ground arith)
step-terminal (reaps stale) now id t j found end =
    missed id _ (reaped_row now) t j (λ k. refl) found (ground arith)
step-terminal (creates stale input max_active) now id t j found end =
    create_with_active_cap-cases (λ r. job id (table_after t r) ≡ some j) stale input max_active now
      t (create-job input now id t j found) found

-- Once a job is completed, partial, failed or cancelled, no history of claims, retries, status
-- writes, cancellations, reaps and new jobs changes anything in its row.
pub run-terminal :
    (ops : List (Op × ℕ)) (id : String) (t : List Job) (j : Job)
    → job id t ≡ some j
    → is_terminal j.status ≡ true
    → job id (run ops t) ≡ some j
unfolding run
run-terminal [] id t j found end = found
run-terminal ((op, now) ∷ ops) id t j found end =
    run-terminal ops id (step op now t) j (step-terminal op now id t j found end) end
