-- ===== src/Jobs/Lease.antt =====
-- The claim of apps/ingestion/src/job-store.ts: who owns a job, and for how long.
use hono_crosmos.Base.{
  ℕ, ◌+◌, ◌≤◌, ◌≡◌, inl, inr, refl, ◌∙◌, String, ◌===◌, string_eq, eq_of_beq, Bool, true, false,
  ◌&&◌, Option, none, some, List, [], ◌∷◌, if◌then◌else◌, arith, Bool-cases, Option-cases,
}
use hono_crosmos.Base.Tables.{count_where, update_where, first_where}
use hono_crosmos.Jobs.Row.{
  IngestionJobStatus, processing, Job, UpdateStatusOptions, is_terminal, has_id, job,
}
use hono_crosmos.Jobs.Consumer.{
  ClaimResult, claim_outcome, claimed, terminal, not_found, in_flight, claim_job, claimable,
  claim_row, update_job_status, status_row,
}
use hono_crosmos.Jobs.Terminal.{job-update_where, updated}

-- Ids are a primary key.
abbrev pub IsKeyed : List Job → Type 0
IsKeyed [] = Unit
IsKeyed (j ∷ t) = (job j.id t ≡ none) × IsKeyed t

hits : (id : String) (p : Job → Bool) (t : List Job) → ℕ
hits id p t = count_where (λ j. has_id id j && p j) t

hits-absent : (id : String) (p : Job → Bool) (t : List Job) → job id t ≡ none → hits id p t ≡ 0
unfolding hits count_where first_where
hits-absent id p [] e = refl
hits-absent id p (j ∷ t) e = ground (arith, hits-absent id p t)

abbrev passes : (Job → Bool) → Option Job → ℕ
passes p none = 0
passes p (some j) = if p j then 1 else 0

hits-job :
    (id : String) (p : Job → Bool) (t : List Job) → IsKeyed t → hits id p t ≡ passes p (job id t)
unfolding hits count_where first_where
hits-job id p [] k = refl
hits-job id p (j ∷ t) (fresh, k) = elim (Bool-cases (j.id === id)) [
  | inl e ↦
      rw e (ground (arith, hits-absent id p t (rw (eq_of_beq {a = j.id} {b = id} e) at fresh)))
  | inr e ↦ rw e (hits-job id p t k)
]

job-has_id : (id : String) (t : List Job) (j : Job) → job id t ≡ some j → has_id id j ≡ true
unfolding first_where
job-has_id id [] j e = cc
job-has_id id (k ∷ t) j e = elim (Bool-cases (k.id === id)) [
  | inl h ↦ ground (arith, h)
  | inr h ↦ job-has_id id t j (ground (arith, h))
]

-- What a claim finds out: the one row with the id decides.
abbrev pub outcome_for : ℕ → ℕ → Option Job → ClaimResult
outcome_for lease now none = not_found
outcome_for lease now (some j) =
    if claimable lease now j then claimed else if is_terminal j.status then terminal else in_flight

abbrev pub row_after_claim : ℕ → ℕ → Option Job → Option Job
row_after_claim lease now none = none
row_after_claim lease now (some j) = some (if claimable lease now j then claim_row now j else j)

decide :
    (lease now : ℕ) (o : Option Job)
    → claim_outcome (passes (claimable lease now) o) o ≡ outcome_for lease now o
decide lease now none = refl
decide lease now (some j) = ground arith

-- The claim answers by the one row with the id, and takes that row if it was pending or its lease
-- had lapsed.
pub claim_job_lem :
    (id : String) (lease now : ℕ) (t : List Job)
    → IsKeyed t
    → ((claim_job id lease now t).0 ≡ outcome_for lease now (job id t))
      × (job id (claim_job id lease now t).1 ≡ row_after_claim lease now (job id t))
unfolding claim_job hits
claim_job_lem id lease now t k = (
  rw (hits-job id (claimable lease now) t k) (decide lease now (job id t)),
  job-update_where id _ (claim_row now) t (λ j. refl) ∙ taken (job id t) refl,
)
  where
    taken :
        (o : Option Job)
        → job id t ≡ o
        → updated (λ j. has_id id j && claimable lease now j) (claim_row now) o
          ≡ row_after_claim lease now o
    taken none e = refl
    taken (some j) e = rw (job-has_id id t j e)

update_where-IsKeyed :
    (p : Job → Bool) (f : Job → Job) (t : List Job)
    → ((j : Job) → (f j).id ≡ j.id)
    → IsKeyed t
    → IsKeyed (update_where p f t)
unfolding update_where
update_where-IsKeyed p f [] h k = tt
update_where-IsKeyed p f (j ∷ t) h (fresh, k) =
    (rw (same_id, job-update_where j.id p f t h, fresh), update_where-IsKeyed p f t h k)
  where
    same_id : (if p j then f j else j).id ≡ j.id
    same_id = ground (arith, h j, Bool-cases (p j))

claim_job-IsKeyed :
    (id : String) (lease now : ℕ) (t : List Job) → IsKeyed t → IsKeyed (claim_job id lease now t).1
unfolding claim_job
claim_job-IsKeyed id lease now t k = update_where-IsKeyed _ (claim_row now) t (λ j. refl) k

update_job_status-IsKeyed :
    (id : String) (status : IngestionJobStatus) (opts : UpdateStatusOptions) (now : ℕ)
    (t : List Job)
    → IsKeyed t
    → IsKeyed (update_job_status id status opts now t).1
unfolding update_job_status
update_job_status-IsKeyed id status opts now t k =
    update_where-IsKeyed _ (status_row status opts now) t (λ j. refl) k

-- A status write applies to a job that has not ended.
update_job_status-job :
    (id : String) (status : IngestionJobStatus) (opts : UpdateStatusOptions) (now : ℕ)
    (t : List Job) (j : Job)
    → job id t ≡ some j
    → is_terminal j.status ≡ false
    → job id (update_job_status id status opts now t).1 ≡ some (status_row status opts now j)
unfolding update_job_status
update_job_status-job id status opts now t j found open' =
    job-update_where id _ (status_row status opts now) t (λ k. refl)
    ∙ ground (arith, found, open', job-has_id id t j found)

-- What the workers do around one job: attempts to claim it, and the owner's progress writes.
pub data Event : Type 0 where
  attempt : ℕ → Event
  beat : UpdateStatusOptions → ℕ → Event

-- The attempts that succeeded, by their times.
pub winners : String → ℕ → List Event → List Job → List ℕ
winners id lease [] t = []
winners id lease (attempt now ∷ es) t =
    let (outcome, t') = claim_job id lease now t in
    let rest = winners id lease es t' in elim outcome [ claimed ↦ now ∷ rest | _ ↦ rest ]
winners id lease (beat opts now ∷ es) t =
    winners id lease es (update_job_status id processing opts now t).1

-- Every event comes within the lease of the last stamp, and a progress write stamps anew.
abbrev pub IsHealthy : ℕ → ℕ → List Event → Type 0
IsHealthy lease stamp [] = Unit
IsHealthy lease stamp (attempt now ∷ es) = (now ≤ stamp + lease) × IsHealthy lease stamp es
IsHealthy lease stamp (beat opts now ∷ es) = (now ≤ stamp + lease) × IsHealthy lease now es

no_winners :
    (id : String) (lease stamp : ℕ) (es : List Event) (t : List Job) (j : Job)
    → IsKeyed t
    → job id t ≡ some j
    → j.status ≡ processing
    → j.started_at ≡ some stamp
    → IsHealthy lease stamp es
    → winners id lease es t ≡ []
unfolding winners
no_winners id lease stamp [] t j k found owned stamped h = refl
no_winners id lease stamp (attempt now ∷ es) t j k found owned stamped (soon, h) =
    let (outcome, row) = claim_job_lem id lease now t k in
    rw (outcome ∙ held_outcome, winners)
      (no_winners id lease stamp es (claim_job id lease now t).1 j
        (claim_job-IsKeyed id lease now t k) (row ∙ held_row) owned stamped h)
  where
    held_outcome : outcome_for lease now (job id t) ≡ in_flight
    held_outcome = ground (arith, found, owned, stamped, soon)

    held_row : row_after_claim lease now (job id t) ≡ some j
    held_row = ground (arith, found, owned, stamped, soon)
no_winners id lease stamp (beat opts now ∷ es) t j k found owned stamped (soon, h) =
    no_winners id lease now es (update_job_status id processing opts now t).1
      (status_row processing opts now j) (update_job_status-IsKeyed id processing opts now t k)
      (update_job_status-job id processing opts now t j found (ground (arith, owned))) refl refl h

-- After a successful claim, as long as every event comes within the lease of the claim or of the
-- owner's last progress write, no attempt by anyone succeeds.
pub winners-claimed :
    (id : String) (lease now : ℕ) (es : List Event) (t : List Job)
    → IsKeyed t
    → (claim_job id lease now t).0 ≡ claimed
    → IsHealthy lease now es
    → winners id lease es (claim_job id lease now t).1 ≡ []
winners-claimed id lease now es t k won h = elim (Option-cases (job id t)) [
  | inl missing ↦ absurd (ground (arith, won, (claim_job_lem id lease now t k).0, missing))
  | inr (j, found) ↦
      no_winners id lease now es (claim_job id lease now t).1 (claim_row now j)
        (claim_job-IsKeyed id lease now t k)
        (ground (
          arith,
          won,
          (claim_job_lem id lease now t k).0,
          (claim_job_lem id lease now t k).1,
          found,
        ))
        refl refl h
]
