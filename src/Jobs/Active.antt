-- ===== src/Jobs/Active.antt =====
-- The counts behind the admission gates, and the sweeps over the table, in
-- apps/api/src/integrations/job-store/pg.ts.
use hono_crosmos.Base.{
  ℕ, suc, ◌+◌, ◌*◌, ◌<◌, ◌≡◌, ◌≢◌, ◌⊎◌, inl, inr, ◌↔◌, refl, ◌∙◌, String, string_eq, Bool, true,
  false, none, some, List, [], ◌∷◌, ◌++◌, if◌then◌else◌, arith, Option-cases,
}
use hono_crosmos.Base.Int.{ℤ, pos, pos_part, ltb_ℤ}
use hono_crosmos.Base.Tables.{
  All, count_where, update_where, count_where-update_where, count_where-append,
}
use hono_crosmos.Jobs.Row.{Job, pending, processing, is_in_flight, job}
use hono_crosmos.Jobs.PgStore.{
  NewJob, new_row, create, create_with_active_cap, cancelled_row, cancel_jobs_for_space,
  count_active, count_active_ingestion_jobs, active_within_window, is_stale, reaped_row,
  reap_stale_ingestion_jobs,
}
use hono_crosmos.Jobs.Terminal.{job-update_where}

reaped_inactive :
    (stale now : ℕ) (j : Job)
    → active_within_window stale now (if is_stale stale now j then reaped_row now j else j)
      ≡ active_within_window stale now j
reaped_inactive stale now j = ground arith

-- The reaper never touches a job that the gates count: both counts are the same before and after.
pub reap-count_active :
    (stale user now : ℕ) (t : List Job)
    → (count_active stale user now (reap_stale_ingestion_jobs stale now t).1
        ≡ count_active stale user now t)
      × (count_active_ingestion_jobs stale now (reap_stale_ingestion_jobs stale now t).1
          ≡ count_active_ingestion_jobs stale now t)
unfolding count_active count_active_ingestion_jobs reap_stale_ingestion_jobs
reap-count_active stale user now t = (
  count_where-update_where _ _ (reaped_row now) t
      (λ j. ground (arith, reaped_inactive stale now j)),
  count_where-update_where _ _ (reaped_row now) t (reaped_inactive stale now),
)

fresh_row-active :
    (stale now : ℕ) (input : NewJob)
    → 0 < stale
    → active_within_window stale now (new_row input now) ≡ true
fresh_row-active stale now input h = ground arith

create-count_active :
    (stale now : ℕ) (input : NewJob) (t t' : List Job)
    → 0 < stale
    → create input now t ≡ some t'
    → count_active stale input.user_id now t' ≡ suc (count_active stale input.user_id now t)
unfolding create count_active count_where
create-count_active stale now input t t' h e = elim (Option-cases (job input.job_id t)) [
  | inr (k, taken) ↦ absurd (ground (arith, e, taken))
  | inl free ↦ rw (← created free) (
      count_where-append _ t (new_row input now ∷ [])
      ∙ ground (arith, fresh_row-active stale now input h))
]
  where
    created : job input.job_id t ≡ none → t ++ new_row input now ∷ [] ≡ t'
    created free = ground (arith, e, free)

abbrev pub Admitted : ℕ → ℕ → ℤ → NewJob → List Job → Bool × List Job → Type 0
Admitted stale now most input t (b, t') =
    (count_active stale input.user_id now t' ≡ (
      if b
      then suc (count_active stale input.user_id now t)
      else count_active stale input.user_id now t))
    × ((b ≡ true)
        ↔ ((ltb_ℤ most (pos 0) ≡ true) ⊎ (count_active stale input.user_id now t < pos_part most)))

-- A guarded insert that is no key clash takes place exactly if the cap is negative or the user has
-- fewer active jobs than the cap, and then the user has one more.
pub create_with_active_cap-Admitted :
    (stale now : ℕ) (most : ℤ) (input : NewJob) (t t' : List Job) (b : Bool)
    → 0 < stale
    → create_with_active_cap stale input most now t ≡ some (b, t')
    → Admitted stale now most input t (b, t')
unfolding create_with_active_cap
create_with_active_cap-Admitted stale now most input t t' b h e =
    let counted = create-count_active stale now input t t' h in
    (
      ground (arith, e, counted, Option-cases (create input now t)),
      (
        λ b_true. ground (arith, e, b_true, Option-cases (create input now t)),
        λ room. ground (arith, e, room, Option-cases (create input now t)),
      ),
    )

settled :
    (space now : ℕ) (t : List Job)
    → All
        (λ j. j.space_id ≡ space → is_in_flight j.status ≡ false)
        (cancel_jobs_for_space space now t).1
unfolding cancel_jobs_for_space update_where
settled space now [] = tt
settled space now (j ∷ t) = (λ same. ground arith, settled space now t)

-- Cancelling a space leaves no job of the space in flight, and changes no job of another space.
pub cancel_jobs_for_space_lem :
    (space now : ℕ) (t : List Job)
    → All
        (λ j. j.space_id ≡ space → is_in_flight j.status ≡ false)
        (cancel_jobs_for_space space now t).1
      × ((id : String) (j : Job)
          → job id t ≡ some j
          → j.space_id ≢ space
          → job id (cancel_jobs_for_space space now t).1 ≡ some j)
unfolding cancel_jobs_for_space
cancel_jobs_for_space_lem space now t = (
  settled space now t,
  λ id j found elsewhere.
      job-update_where id _ (cancelled_row "Job cancelled: space deleted" now) t (λ k. refl)
      ∙ ground (arith, found, elsewhere),
)

-- A job that no worker can be at: pending since before the window, or started before it and not
-- settled.
abbrev pub IsOrphaned : ℕ → ℕ → Job → Type 0
IsOrphaned stale now j =
    ((j.status ≡ pending) × (j.created_at + stale * 60_000 < now))
    ⊎ ((j.status ≡ processing)
        × ((since : ℕ) × (j.started_at ≡ some since) × (since + stale * 60_000 < now)))
