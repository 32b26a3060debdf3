-- ===== src/Delivery/Durable.antt =====
-- No delivery loses a job that is not finished. The platform's retry policy (`max_retries` and
-- `dead_letter_queue` of apps/ingestion/wrangler.toml) is an argument: a retry puts the message back
-- into its queue up to that many times, and then into the dead-letter queue.
use hono_crosmos.Base.{
  ℕ, zero, suc, ◌+◌, ◌-◌, ◌≤◌, ◌≡◌, refl, Bool, true, false, not, ◌||◌, Option, none, some, List,
  [], ◌∷◌, take, if◌then◌else◌, arith, ltb, leb, either_by,
}
use hono_crosmos.Base.Result.{ok, thrown}
use hono_crosmos.Delivery.Consumer.{
  Call, sent, send_failed, ack, retry, processed, skipped_terminal, skipped_not_found,
  skipped_in_flight, retry_transient, requeue_incomplete, Producer, Processing, IngestionJobMessage,
  continuation, continue_or_retry, settle, handle_ingestion_delivery, count_of, publish, is_bound,
  succeeds, max_job_continuations,
}

-- The copies of a job that its queue and the dead-letter queue hold.
pub record Backlog : Type 0 where
  pub queued : ℕ
  pub dead : ℕ

abbrev pub kept : Backlog → ℕ
kept b = b.queued + b.dead

-- The copies after some calls of one delivery, which counts as queued until it is acked. Whether
-- retries are left decides where a retry puts it.
unfoldable pub backlog : Bool → List Call → Backlog → Backlog
backlog left [] b = b
backlog left (sent message ∷ calls) b =
    backlog left calls (record { queued = suc b.queued; dead = b.dead })
backlog left (send_failed ∷ calls) b = backlog left calls b
backlog left (ack ∷ calls) b = backlog left calls (record { queued = b.queued - 1; dead = b.dead })
backlog true (retry delay ∷ calls) b = backlog true calls b
backlog false (retry delay ∷ calls) b =
    backlog false calls (record { queued = b.queued - 1; dead = suc b.dead })

abbrev pub delivered : Backlog
delivered = record { queued = 1; dead = 0 }

-- Whether nothing is left to do for the job.
abbrev pub is_finished : Processing → Bool
is_finished (ok (processed, chunks)) = true
is_finished (ok (skipped_terminal, chunks)) = true
is_finished (ok (skipped_not_found, chunks)) = true
is_finished (ok (skipped_in_flight, chunks)) = false
is_finished (ok (retry_transient, chunks)) = false
is_finished (ok (requeue_incomplete, chunks)) = false
is_finished (thrown error) = false

-- No copy of a finished job is left, and one of any other; none is dead while retries are left; and
-- whatever number of the calls have been made, a job that is not finished has a copy.
abbrev pub IsDurable : Bool → Processing → List Call → Type 0
IsDurable left result calls =
    (kept (backlog left calls delivered) ≡ (if is_finished result then 0 else 1))
    × (left ≡ true → (backlog left calls delivered).dead ≡ 0)
    × (is_finished result ≡ false → (k : ℕ) → 1 ≤ kept (backlog left (take k calls) delivered))

-- The same for the calls of a delivery that is not finished.
abbrev IsKept : Bool → List Call → Type 0
IsKept left calls =
    (kept (backlog left calls delivered) ≡ 1)
    × (left ≡ true → (backlog left calls delivered).dead ≡ 0)
    × ((k : ℕ) → 1 ≤ kept (backlog left (take k calls) delivered))

retry-IsKept : (left : Bool) (delay : Option ℕ) → IsKept left (retry delay ∷ [])
unfolding backlog
retry-IsKept left delay = (all left, dead left, each left)
  where
    all : (l : Bool) → kept (backlog l (retry delay ∷ []) delivered) ≡ 1
    all true = refl
    all false = refl

    dead : (l : Bool) → l ≡ true → (backlog l (retry delay ∷ []) delivered).dead ≡ 0
    dead true e = refl
    dead false e = cc

    each : (l : Bool) (k : ℕ) → 1 ≤ kept (backlog l (take k (retry delay ∷ [])) delivered)
    each true zero = omega arith
    each true (suc zero) = omega arith
    each true (suc (suc k)) = omega arith
    each false zero = omega arith
    each false (suc zero) = omega arith
    each false (suc (suc k)) = omega arith

failed-IsKept : (left : Bool) (delay : Option ℕ) → IsKept left (send_failed ∷ retry delay ∷ [])
unfolding backlog
failed-IsKept left delay =
    let (all, dead, each) = retry-IsKept left delay in (all, dead, after each)
  where
    after :
        ((k : ℕ) → 1 ≤ kept (backlog left (take k (retry delay ∷ [])) delivered))
        → (k : ℕ) → 1 ≤ kept (backlog left (take k (send_failed ∷ retry delay ∷ [])) delivered)
    after each zero = omega arith
    after each (suc k) = each k

sent-IsKept : (left : Bool) (message : IngestionJobMessage) → IsKept left (sent message ∷ ack ∷ [])
unfolding backlog
sent-IsKept left message = (refl, λ e. refl, each)
  where
    each : (k : ℕ) → 1 ≤ kept (backlog left (take k (sent message ∷ ack ∷ [])) delivered)
    each zero = omega arith
    each (suc zero) = omega arith
    each (suc (suc zero)) = omega arith
    each (suc (suc (suc k))) = omega arith

-- The calls of a delivery that is to be continued, in either case.
publish-IsKept :
    (left works : Bool) (message : IngestionJobMessage) → IsKept left (publish works message)
publish-IsKept left false message = failed-IsKept left (some 60)
publish-IsKept left true message = sent-IsKept left message

continue_or_retry-IsKept :
    (left : Bool) (producer : Producer) (now : ℕ) (body : IngestionJobMessage) (count chunks : ℕ)
    → IsKept left (continue_or_retry producer now body count chunks)
unfolding continue_or_retry
continue_or_retry-IsKept left producer now body count chunks =
    either_by (IsKept left)
      (not (is_bound producer)
        || (not (ltb 0 chunks) || not (leb (count + 1) max_job_continuations)))
      (λ e. retry-IsKept left (some 60))
      (λ e. publish-IsKept left (succeeds producer) (continuation body now (count + 1)))

-- Whatever a run gives, and whether or not retries are left, a delivery leaves no copy of its job if
-- nothing is left to do for the job, and otherwise exactly one, in the queue or in the dead-letter
-- queue; in the latter only if no retries are left; and for a job that is not finished, a copy is
-- there after each of the calls, too.
pub handle_ingestion_delivery-IsDurable :
    (max_retries attempts : ℕ) (producer : Producer) (now : ℕ) (body : IngestionJobMessage)
    (result : Processing)
    → IsDurable
        (leb attempts max_retries)
        result
        (handle_ingestion_delivery producer now body result)
unfolding handle_ingestion_delivery settle backlog
handle_ingestion_delivery-IsDurable most n producer now body (ok (processed, chunks)) =
    (refl, λ e. refl, λ e. cc)
handle_ingestion_delivery-IsDurable most n producer now body (ok (skipped_terminal, chunks)) =
    (refl, λ e. refl, λ e. cc)
handle_ingestion_delivery-IsDurable most n producer now body (ok (skipped_not_found, chunks)) =
    (refl, λ e. refl, λ e. cc)
handle_ingestion_delivery-IsDurable most n producer now body (ok (skipped_in_flight, chunks)) =
    let (all, dead, each) = retry-IsKept (leb n most) (some 60) in (all, dead, λ e. each)
handle_ingestion_delivery-IsDurable most n producer now body (ok (retry_transient, chunks)) =
    let (all, dead, each) = retry-IsKept (leb n most) (some 60) in (all, dead, λ e. each)
handle_ingestion_delivery-IsDurable most n producer now body (ok (requeue_incomplete, chunks)) =
    let (all, dead, each) =
      continue_or_retry-IsKept (leb n most) producer now body (count_of body.continuation_count)
        chunks in
    (all, dead, λ e. each)
handle_ingestion_delivery-IsDurable most n producer now body (thrown error) =
    let (all, dead, each) = retry-IsKept (leb n most) none in (all, dead, λ e. each)
