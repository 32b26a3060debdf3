-- ===== src/Admission/Gates.antt =====
-- When the gates let a request through.
use hono_crosmos.Base.{
  ◌∙◌, ℕ, zero, suc, [], ◌∷◌, ◌&&◌, leb, false, map, String, Option-cases, ◌+◌, ◌<◌, ◌≡◌, ◌↔◌, ◌⊎◌,
  inl, inr, refl, ap, subst, ◌==◌, ==_iff, string_eq, true, Option, none, some, List, arith,
  Bool-cases,
}
use hono_crosmos.Base.Dict as Dict
use hono_crosmos.Base.Int.{ℤ, pos, negsuc, ◌≤ℤ◌}
use hono_crosmos.Base.Result.{Result, ok, thrown, Done, done}
use hono_crosmos.Base.Tables.{first_where}
use hono_crosmos.Jobs.PgStore.{count_active, count_active_ingestion_jobs}
use hono_crosmos.Base.Tables.{select_where}
use hono_crosmos.Base.Dict.{IsDistinct}
use hono_crosmos.RateLimit.Port.{Verdict, allowed, rate_limit_error}
use hono_crosmos.Admission.Entitlements.{
  EntitlementValue, OrganizationEntitlementSource, plan_defaults, limit_of, resolve_entitlements,
  or_free, or_nothing,
}
use hono_crosmos.Admission.Resolve.{or_else, some_inj, IsInForce, get-resolve_entitlements}
use hono_crosmos.Admission.Quota.{
  Organization, DailyUsage, QuotaKey, key_name, column, monthly_tokens_ingested, QuotaError,
  organization_not_found, quota_exceeded, get_entitlements, get_monthly_usage, within, check_quota,
}
use hono_crosmos.Admission.Preflight.{
  RateLimiter, OperationalLimits, MemorySpace, Tables, PreflightInput, PreflightError,
  get_space_by_uuid, quota_response, space_gates, job_gates, rate_gate, after_gate, preflight,
  verdict_response, plan_check, enforce_plan_rate_limit,
}

-- A limit of -1 is none.
abbrev pub HasRoom : ℤ → ℕ → Type 0
HasRoom limit total = (limit ≡ negsuc 0) ⊎ (pos total ≤ℤ limit)

within_iff :
    (key : QuotaKey) (increment used : ℕ) (limit : ℤ)
    → (within key increment limit used ≡ ok done) ↔ HasRoom limit (used + increment)
unfolding within
within_iff key increment used (pos n) = ground arith
within_iff key increment used (negsuc zero) = ground arith
within_iff key increment used (negsuc (suc n)) = ground arith

quota_response_iff :
    (r : Result QuotaError Done) (found space : MemorySpace)
    → (quota_response r found ≡ ok space) ↔ ((found ≡ space) × (r ≡ ok done))
quota_response_iff (ok done) found space = ground arith
quota_response_iff (thrown organization_not_found) found space = ground arith
quota_response_iff (thrown (quota_exceeded key limit used)) found space = ground arith

QuotaPasses : PreflightInput → ℕ → Tables → Type 0
QuotaPasses input now db =
    check_quota input.org_id monthly_tokens_ingested input.incoming_tokens now db.month_start
      db.organizations db.usage
    ≡ ok done

space_gates-ok :
    (input : PreflightInput) (now : ℕ) (db : Tables) (found : Option MemorySpace)
    (space : MemorySpace)
    → space_gates input now db found ≡ ok space
    → (found ≡ some space) × ((space.org_id ≡ input.org_id) × QuotaPasses input now db)
unfolding space_gates QuotaPasses
space_gates-ok input now db none space e = cc
space_gates-ok input now db (some found) space e =
    elim (Bool-cases (found.org_id == input.org_id)) [
      | inl own ↦
          let (same, room) =
            (quota_response_iff
                (check_quota input.org_id monthly_tokens_ingested input.incoming_tokens now
                  db.month_start db.organizations db.usage)
                found space).0
              (ground (arith, e, own)) in
          (
            ap some same,
            (
              subst (λ f. f.org_id ≡ input.org_id) same
                  (ground (arith, own, ==_iff found.org_id input.org_id)),
              room,
            ),
          )
      | inr other ↦ absurd (ground (arith, e, other))
    ]

ok-space_gates :
    (input : PreflightInput) (now : ℕ) (db : Tables) (space : MemorySpace)
    → space.org_id ≡ input.org_id
    → QuotaPasses input now db
    → space_gates input now db (some space) ≡ ok space
unfolding space_gates QuotaPasses
ok-space_gates input now db space own room =
    let same : (space.org_id == input.org_id) ≡ true = ground (arith, own) in
    rw (same, space_gates, room) refl

after_gate-ok :
    (gate : Result PreflightError Done) (later : Result PreflightError MemorySpace)
    (space : MemorySpace)
    → (after_gate gate later ≡ ok space) ↔ ((gate ≡ ok done) × (later ≡ ok space))
after_gate-ok (ok done) later space = (λ e. (refl, e), λ (g, e). e)
after_gate-ok (thrown error) later space = ground arith

abbrev pub sum : List ℕ → ℕ
sum [] = 0
sum (n ∷ ns) = n + sum ns

-- The usage of a month: what the rows of the org from its start on add up to.
pub used_in_month : ℕ → QuotaKey → ℕ → List DailyUsage → ℕ
used_in_month org key month_start usage =
    sum (map (column key) (select_where (λ r. r.org_id == org && leb month_start r.date) usage))

get_monthly_usage-used_in_month :
    (org : ℕ) (key : QuotaKey) (month_start : ℕ) (usage : List DailyUsage)
    → get_monthly_usage org key month_start usage ≡ used_in_month org key month_start usage
unfolding get_monthly_usage used_in_month select_where
get_monthly_usage-used_in_month org key month_start [] = refl
get_monthly_usage-used_in_month org key month_start (r ∷ rows) =
    ground (arith, get_monthly_usage-used_in_month org key month_start rows)

-- What a plan and the overrides of an org say of a name.
abbrev pub entitled : OrganizationEntitlementSource → String → String → Option EntitlementValue
entitled source plan key =
    or_else (Dict.get key (or_nothing source.entitlements))
      (Dict.get key (or_free (Dict.get plan plan_defaults)))

-- The quota of an org that exists lets an increment through exactly if the limit is -1 or at least
-- the increment and the org's usage since the start of the month together; and the limit is what the
-- org's overrides say, if they name it (no name twice), and otherwise what the plan in force says.
pub check_quota_iff :
    (org : ℕ) (key : QuotaKey) (increment now month_start : ℕ) (organizations : List Organization)
    (usage : List DailyUsage) (o : Organization)
    → first_where (λ p. p.id == org) organizations ≡ some o
    → IsDistinct (or_nothing o.source.entitlements)
    → (plan : String) × IsInForce o.source now plan
      × ((check_quota org key increment now month_start organizations usage ≡ ok done)
          ↔ HasRoom
              (limit_of (entitled o.source plan (key_name key)))
              (used_in_month org key month_start usage + increment))
unfolding check_quota get_entitlements
check_quota_iff org key increment now month_start organizations usage o found d =
    let (plan, force, says) = get-resolve_entitlements o.source now d in
    (
      plan,
      force,
      rw
          (
            found,
            check_quota,
            get_entitlements,
            says (key_name key),
            get_monthly_usage-used_in_month org key month_start usage,
          )
          (within_iff key increment (used_in_month org key month_start usage)
            (limit_of (entitled o.source plan (key_name key)))),
    )

verdict_response_iff : (v : Verdict) → (verdict_response v ≡ ok done) ↔ (v ≡ allowed)
verdict_response_iff allowed = (λ e. refl, λ e. refl)
verdict_response_iff (rate_limit_error scope limit count) = ground arith

module _ {S : Type 0} (limiter : RateLimiter S) (input : PreflightInput) (now : ℕ) (db : Tables)
    (s : S) where
  -- What the limiter says of an org under its entitlements, and its store after that.
  abbrev pub asked : Organization → Verdict × S
  asked o = limiter.check (plan_check (resolve_entitlements o.source now) input.org_id) now s

  -- The limiter need not be asked, or allows a request of the org, which exists.
  abbrev pub IsAllowed : Type 0
  IsAllowed =
      (input.skip_plan_rate_limit ≡ true)
      ⊎ ((o : Organization) × (first_where (λ p. p.id == input.org_id) db.organizations ≡ some o)
          × ((asked o).0 ≡ allowed))

  -- The store is changed by that one question, and not at all if the limiter is not asked.
  abbrev pub IsCharged : S → Type 0
  IsCharged s' =
      (input.skip_plan_rate_limit ≡ true → s' ≡ s)
      × ((o : Organization)
          → input.skip_plan_rate_limit ≡ false
          → first_where (λ p. p.id == input.org_id) db.organizations ≡ some o
          → s' ≡ (asked o).1)

  rate_gate_lem :
      (((rate_gate limiter input now db s).0 ≡ ok done) ↔ IsAllowed)
      × IsCharged (rate_gate limiter input now db s).1
  unfolding rate_gate enforce_plan_rate_limit get_entitlements
  rate_gate_lem = elim (Bool-cases input.skip_plan_rate_limit) [
    | inl skips ↦ (
      rw skips (λ e. inl refl, λ a. refl),
      (λ e. rw skips refl, λ o asks found. absurd (ground (arith, skips, asks))),
    )
    | inr asks ↦ elim (Option-cases (first_where (λ p. p.id == input.org_id) db.organizations)) [
      | inl missing ↦ (
        (
          λ e. absurd (ground (arith, e, asks, missing)),
          λ a. elim a [
            | inl skips ↦ absurd (ground (arith, skips, asks))
            | inr (o, found, a) ↦ absurd (ground (arith, found, missing))
          ],
        ),
        (
          λ skips. absurd (ground (arith, skips, asks)),
          λ o no found. absurd (ground (arith, found, missing)),
        ),
      )
      | inr (p, there) ↦
          rw (asks, rate_gate, enforce_plan_rate_limit, there)
            (
              (
                λ e. inr (p, refl, (verdict_response_iff (asked p).0).0 e),
                λ a. elim a [
                  | inl skips ↦ cc
                  | inr (o, found, fine) ↦
                      (verdict_response_iff (asked p).0).1
                        (ap (λ x. (asked x).0) (some_inj found) ∙ fine)
                ],
              ),
              (λ skips. cc, λ o no found. ap (λ x. (asked x).1) (some_inj found)),
            )
    ]
  ]

module _ {S : Type 0} (limiter : RateLimiter S) (limits : OperationalLimits)
    (input : PreflightInput) (now : ℕ) (db : Tables) (s : S) where
  -- What all the gates ask for, at once.
  abbrev pub Admits : MemorySpace → Type 0
  Admits space =
      IsAllowed limiter input now db s
      × ((count_active_ingestion_jobs limits.stale_job_minutes now db.jobs < limits.max_queue_depth)
          × ((count_active limits.stale_job_minutes input.user_id now db.jobs
                < limits.max_pending_jobs_per_user)
              × ((get_space_by_uuid input.space_uuid db.spaces ≡ some space)
                  × ((space.org_id ≡ input.org_id)
                      × (check_quota input.org_id monthly_tokens_ingested input.incoming_tokens now
                            db.month_start db.organizations db.usage
                          ≡ ok done)))))

  -- A request is let through, with a space, exactly if it skips the plan's rate limit or the limiter
  -- allows it under the entitlements of its org, which exists; fewer jobs are in flight than each of
  -- the two caps; the space is found and the org's; and the quota has room. The limiter's store is
  -- as it was if the request skips the limit, and otherwise, if the org exists, as that one question
  -- leaves it, whether or not the request is let through.
  pub preflight_iff :
      (space : MemorySpace)
      → (((preflight limiter limits input now db s).0 ≡ ok space) ↔ Admits space)
        × IsCharged limiter input now db s (preflight limiter limits input now db s).1
  unfolding preflight job_gates space_gates QuotaPasses
  preflight_iff space =
      let (rate, charged) = rate_gate_lem limiter input now db s in
      (
        (
          λ e.
              let (gate, later) = (after_gate-ok _ _ space).0 e in
              let (found, (own, room)) =
                space_gates-ok input now db (get_space_by_uuid input.space_uuid db.spaces) space
                  (ground (arith, later)) in
              (rate.0 gate, (ground (arith, later), (ground (arith, later), (found, (own, room))))),
          λ (gate, (fewer, (fewer_own, (found, (own, room))))). (after_gate-ok _ _ space).1 (
            rate.1 gate,
            ground (arith, fewer, fewer_own, found, ok-space_gates input now db space own room),
          ),
        ),
        charged,
      )
