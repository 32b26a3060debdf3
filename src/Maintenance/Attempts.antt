-- ===== src/Maintenance/Attempts.antt =====
-- How many attempts a sweep makes.
use hono_crosmos.Base.{
  ℕ, zero, suc, ◌+◌, ◌≤◌, ◌<◌, ◌≡◌, ◌⊎◌, inl, inr, refl, subst, ◌==◌, Bool, true, false, Option,
  none, some, arith, Bool-cases,
}
use hono_crosmos.Base.Result.{Result, ok, thrown}
use hono_crosmos.Maintenance.Sweep.{SweepResult, attempt_from, run_sweep}

Result-cases :
    {A : Type 0} (r : Result Bool A)
    → ((v : A) × (r ≡ ok v)) ⊎ ((r ≡ thrown true) ⊎ (r ≡ thrown false))
Result-cases (ok v) = inl (v, refl)
Result-cases (thrown true) = inr (inl refl)
Result-cases (thrown false) = inr (inr refl)

module _ {A : Type 0} (run : ℕ → Result Bool A) where
  -- What stops a sweep at an attempt: its value, or a failure that is final or the last allowed.
  abbrev pub Stops : ℕ → ℕ → Option A → Type 0
  Stops max n (some value) = run n ≡ ok value
  Stops max n none = (run n ≡ thrown false) ⊎ ((run n ≡ thrown true) × (n ≡ max))

  pub record IsOutcome (max start : ℕ) (r : SweepResult A) : Type 0 where
    bounds : (start ≤ r.attempts) × (r.attempts ≤ max)
    earlier : (k : ℕ) → start ≤ k → k < r.attempts → run k ≡ thrown true
    stops : Stops max r.attempts r.value

  attempt_from-IsOutcome :
      (max left start : ℕ)
      → start + left ≡ suc max
      → 0 < left
      → IsOutcome max start (attempt_from run max left start)
  unfolding attempt_from
  attempt_from-IsOutcome max zero start e h = absurd (omega (arith, h))
  attempt_from-IsOutcome max (suc left) start e h = elim (Result-cases (run start)) [
    | inl (v, won) ↦
        rw (won, attempt_from)
          (record {
            bounds = (omega arith, omega (arith, e));
            earlier = λ k from to. absurd (omega (arith, from, to));
            stops = won;
          })
    | inr (inr final) ↦
        rw (final, attempt_from)
          (record {
            bounds = (omega arith, omega (arith, e));
            earlier = λ k from to. absurd (omega (arith, from, to));
            stops = inl final;
          })
    | inr (inl transient) ↦ elim (Bool-cases (start == max)) [
      | inl last ↦
          rw (transient, last, attempt_from)
            (record {
              bounds = (omega arith, omega (arith, e));
              earlier = λ k from to. absurd (omega (arith, from, to));
              stops = inr (transient, ground (arith, last));
            })
      | inr more ↦
          let rest =
            attempt_from-IsOutcome max left (suc start) (omega (arith, e))
              (ground (arith, more, e)) in
          rw (transient, more, attempt_from)
            (record {
              bounds = (omega (arith, rest.bounds.0), rest.bounds.1);
              earlier = λ k from to. elim (Bool-cases (start == k)) [
                | inl now ↦ subst (λ i. run i ≡ thrown true) (ground (arith, now)) transient
                | inr later ↦ rest.earlier k (ground (arith, from, later)) to
              ];
              stops = rest.stops;
            })
    ]
  ]

  -- If at least one attempt is allowed, a sweep makes between one and that many; every attempt before
  -- the last one failed by a transient failure; and the last one gave the sweep's value, or it failed
  -- for good, or it was the last that is allowed.
  pub run_sweep-IsOutcome : (max : ℕ) → 0 < max → IsOutcome max 1 (run_sweep run (some max))
  unfolding run_sweep
  run_sweep-IsOutcome max h = attempt_from-IsOutcome max max 1 (omega arith) h
