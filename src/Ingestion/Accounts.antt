-- ===== src/Ingestion/Accounts.antt =====
-- The tokens in the daily counters against the sources whose completion is recorded.
use hono_crosmos.Base.{
  ℕ, ◌+◌, ◌==◌, ==_iff, ◌≡◌, refl, ap, inl, inr, ◌∙◌, String, Bool, true, false, ◌&&◌, List, [],
  ◌∷◌, length, arith, Bool-cases, if◌then◌else◌,
}
use hono_crosmos.Base.Tables.{All, select_where, update_where}
use hono_crosmos.Visibility.Graph.{contains}
use hono_crosmos.Ingestion.Sources.{Source, TenantScope}
use hono_crosmos.Ingestion.Usage.{
  DailyUsage, Usage, UsageInput, upsert, is_day, new_day, add_ingestion, completes, fails,
  completion_recorded, failure_recorded, source_ids_of, token_sum, is_empty, accounted_tokens,
  mark_recorded, record_ingestion_usage,
}

-- The tokens of all days.
abbrev pub total_tokens : List DailyUsage → ℕ
total_tokens [] = 0
total_tokens (u ∷ days) = u.tokens_ingested + total_tokens days

abbrev pub if_recorded : Source → ℕ
if_recorded s = if s.meta.analytics_completion_recorded then s.token_count else 0

-- The tokens of the sources whose completion is recorded.
abbrev pub billed_tokens : List Source → ℕ
billed_tokens [] = 0
billed_tokens (s ∷ t) = if_recorded s + billed_tokens t

-- No id stands twice.
abbrev pub NoRepeat : List ℕ → Type 0
NoRepeat [] = Unit
NoRepeat (x ∷ xs) = (contains x xs ≡ false) × NoRepeat xs

pub total_tokens-upsert :
    (scope : TenantScope) (date : String) (tokens ingested failed memories : ℕ)
    (days : List DailyUsage)
    → total_tokens (
        upsert
          (is_day scope date)
          (add_ingestion tokens ingested failed memories)
          (add_ingestion tokens ingested failed memories (new_day scope date))
          days)
      ≡ total_tokens days + tokens
total_tokens-upsert scope date tokens ingested failed memories [] = omega arith
total_tokens-upsert scope date tokens ingested failed memories (u ∷ days) =
    let later = total_tokens-upsert scope date tokens ingested failed memories days in
    elim (Bool-cases (is_day scope date u)) [
      | inl e ↦ rw e (omega arith)
      | inr e ↦ rw e (omega (arith, later))
    ]

pub billed_tokens-update_where :
    (p : Source → Bool) (f : Source → Source) (t : List Source)
    → ((s : Source) → if_recorded (f s) ≡ if_recorded s)
    → billed_tokens (update_where p f t) ≡ billed_tokens t
unfolding update_where
billed_tokens-update_where p f [] h = refl
billed_tokens-update_where p f (s ∷ t) h = elim (Bool-cases (p s)) [
  | inl e ↦ rw e (omega (arith, h s, billed_tokens-update_where p f t h))
  | inr e ↦ rw e (omega (arith, billed_tokens-update_where p f t h))
]

pub ids-update_where :
    (p : Source → Bool) (f : Source → Source) (t : List Source)
    → ((s : Source) → (f s).id ≡ s.id)
    → source_ids_of (update_where p f t) ≡ source_ids_of t
unfolding update_where
ids-update_where p f [] h = refl
ids-update_where p f (s ∷ t) h = elim (Bool-cases (p s)) [
  | inl e ↦ rw (e, h s, ids-update_where p f t h) refl
  | inr e ↦ rw (e, ids-update_where p f t h) refl
]

-- Recording the rows that a test selects adds their tokens, when none of them was recorded.
recorded-select :
    (p : Source → Bool) (t : List Source)
    → ((s : Source) → p s ≡ true → s.meta.analytics_completion_recorded ≡ false)
    → billed_tokens (update_where p completion_recorded t)
      ≡ billed_tokens t + token_sum (select_where p t)
unfolding update_where select_where
recorded-select p [] fresh = omega arith
recorded-select p (s ∷ t) fresh = elim (Bool-cases (p s)) [
  | inl e ↦ rw (e, fresh s e) (omega (arith, recorded-select p t fresh))
  | inr e ↦ rw e (omega (arith, recorded-select p t fresh))
]

update_where-cong :
    (p q : Source → Bool) (f : Source → Source) (t : List Source)
    → All (λ s. p s ≡ q s) t
    → update_where p f t ≡ update_where q f t
unfolding update_where
update_where-cong p q f [] h = refl
update_where-cong p q f (s ∷ t) (e, rest) = rw (e, update_where-cong p q f t rest) refl

absent-select :
    (p : Source → Bool) (k : ℕ) (t : List Source)
    → contains k (source_ids_of t) ≡ false
    → contains k (source_ids_of (select_where p t)) ≡ false
unfolding contains select_where
absent-select p k [] h = refl
absent-select p k (s ∷ t) h = ground (arith, absent-select p k t, Bool-cases (p s))

apart :
    (k : ℕ) (t : List Source)
    → contains k (source_ids_of t) ≡ false
    → All (λ s. (k == s.id) ≡ false) t
unfolding contains
apart k [] h = tt
apart k (s ∷ t) h = (ground arith, apart k t (ground arith))

extend :
    (x : Source) (p : Source → Bool) (selected t : List Source)
    → All (λ s. (x.id == s.id) ≡ false) t
    → All (λ s. contains s.id (source_ids_of selected) ≡ p s) t
    → All (λ s. contains s.id (source_ids_of (if p x then x ∷ selected else selected)) ≡ p s) t
unfolding contains
extend x p selected [] a h = tt
extend x p selected (s ∷ t) (ne, a) (e, h) =
    (ground (arith, Bool-cases (p x)), extend x p selected t a h)

-- The ids of the selected rows name the selected rows and no others, when no id stands twice.
contains-selected :
    (p : Source → Bool) (t : List Source)
    → NoRepeat (source_ids_of t)
    → All (λ s. contains s.id (source_ids_of (select_where p t)) ≡ p s) t
unfolding contains select_where
contains-selected p [] d = tt
contains-selected p (x ∷ t) (fresh, d) = (
  ground (arith, Bool-cases (p x), absent-select p x.id t fresh, ==_iff x.id x.id),
  extend x p (select_where p t) t (apart x.id t fresh) (contains-selected p t d),
)

mark_recorded-completed :
    (scope : TenantScope) (ids : List ℕ) (t : List Source)
    → NoRepeat (source_ids_of t)
    → billed_tokens (mark_recorded completion_recorded (select_where (completes scope ids) t) t)
      ≡ billed_tokens t + token_sum (select_where (completes scope ids) t)
mark_recorded-completed scope ids t d =
    ap billed_tokens (
      update_where-cong (λ s. contains s.id (source_ids_of (select_where (completes scope ids) t)))
        (completes scope ids) completion_recorded t (contains-selected (completes scope ids) t d))
    ∙ recorded-select (completes scope ids) t (λ s e. ground arith)

-- What is counted is the tokens of the completed sources, unless the input names no source.
accounted_tokens-sum :
    (input : UsageInput) (completed : List Source)
    → (is_empty input.completed_source_ids ≡ true → input.tokens ≡ 0)
    → accounted_tokens input completed ≡ token_sum completed
accounted_tokens-sum input [] h = ground arith
accounted_tokens-sum input (s ∷ completed) h = refl

-- The days count more tokens by exactly those of the sources that are newly recorded, when no source
-- id stands twice and an input that names no completed source has no tokens.
pub record_ingestion_usage-total_tokens :
    (memories : List ℕ → ℕ) (scope : TenantScope) (date : String) (input : UsageInput)
    (usage : Usage) (t : List Source)
    → NoRepeat (source_ids_of t)
    → (is_empty input.completed_source_ids ≡ true → input.tokens ≡ 0)
    → let after = record_ingestion_usage memories scope date input (usage, t) in
      total_tokens after.0.daily + billed_tokens t
      ≡ total_tokens usage.daily + billed_tokens after.1
unfolding record_ingestion_usage
record_ingestion_usage-total_tokens memories scope date input usage t d h =
    let completed = select_where (completes scope input.completed_source_ids) t in
    let failed = select_where (fails scope input.failed_source_ids) t in
    let marked = mark_recorded completion_recorded completed t in
    let tokens = accounted_tokens-sum input completed h in
    let days =
      total_tokens-upsert scope date (accounted_tokens input completed) (length completed)
        (length failed) (if is_empty completed then 0 else memories (source_ids_of completed))
        usage.daily in
    let first = mark_recorded-completed scope input.completed_source_ids t d in
    let second =
      billed_tokens-update_where (λ s. contains s.id (source_ids_of failed)) failure_recorded marked
        (λ s. refl) in
    elim (Bool-cases
      (accounted_tokens input completed == 0 && (is_empty completed && is_empty failed))) [
        | inl e ↦ rw e (omega arith)
        | inr e ↦ rw e (omega (arith, tokens, days, first, second))
      ]
