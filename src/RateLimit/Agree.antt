-- ===== src/RateLimit/Agree.antt =====
-- do.ts against kv.ts: one org's checks under one namespace, at one instant.
use hono_crosmos.Base.{
  ℕ, suc, ◌+◌, ◌/◌, ◌≡◌, refl, ap, sym, ◌∙◌, string_eq, some, arith, Bool-cases, inl, inr,
}
use native.Mathlib.Nat.{le_refl}
use hono_crosmos.Base.Int.{ℤ}
use hono_crosmos.Base.Dict.{get}
use hono_crosmos.RateLimit.LimiterDo.{Limiter, tick, tick_all}
use hono_crosmos.RateLimit.Window.{spent, get-tick_ne, tick-success, tick-count}
use hono_crosmos.RateLimit.KvKeys.{kv_key-ne}
use hono_crosmos.RateLimit.AgreeOn.{
  AgreesOn, AgreesOn-hit, AgreesOn-put_ne, AgreesOn-tick_ne, minute-Fits, day-Fits,
}
use hono_crosmos.RateLimit.Port.{RateLimitCheck, Verdict, allowed, is_capped}
use hono_crosmos.RateLimit.OrgDo.{windows_of, enforce, verdict_on}
use hono_crosmos.RateLimit.OrgKv.{
  KvNamespace, IsImmediate, KvWindow, kv_key, kv_windows, count_of, write_all, check_kv,
  check_and_write, first_exceeded,
}

-- One window's judgement: the same limit against the same count.
verdict-eq :
    (kw : KvWindow) (limit' : ℤ) (seconds now n : ℕ) (l : Limiter) (later : Verdict)
    → kw.limit ≡ limit'
    → n ≡ suc (spent (now / seconds) (get kw.scope l.counters))
    → first_exceeded kw n later
      ≡ verdict_on
          (record { scope = kw.scope; limit = limit'; window_seconds = seconds })
          (some (tick kw.scope limit' seconds now l).0)
          later
verdict-eq kw limit' seconds now n l later p q = ground (
  arith,
  p,
  q,
  tick-success kw.scope limit' seconds now l,
  tick-count kw.scope limit' seconds now l,
)

pub record Agrees (kv : KvNamespace) (input : RateLimitCheck) (last : ℕ) (s : kv.Store)
    (l : Limiter) : Type 0 where
  pub minute : AgreesOn kv input "rpm" 60 last s l
  pub day : AgreesOn kv input "day" 86_400 last s l

module _ (kv : KvNamespace) (immediate : IsImmediate kv) (input : RateLimitCheck) (now : ℕ)
    (s : kv.Store) (l : Limiter) (a : Agrees kv input now s l) where
  unfoldable pub ticked_by : Verdict × Limiter
  ticked_by =
      let (rs, l') = tick_all (windows_of input) (now / 1000) l in
      (enforce (windows_of input) rs, l')

  abbrev rpm_window : KvWindow
  rpm_window = record {
    key = kv_key "rpm" input (now / 1000 / 60);
    limit = input.rpm_limit;
    scope = "rpm";
    ttl_seconds = 120;
  }

  abbrev day_window : KvWindow
  day_window = record {
    key = kv_key "day" input (now / 1000 / 86_400);
    limit = input.daily_limit;
    scope = "day";
    ttl_seconds = 172_800;
  }

  abbrev next_rpm : ℕ
  next_rpm = count_of (kv.read s now rpm_window.key) + 1

  abbrev next_day : ℕ
  next_day = count_of (kv.read s now day_window.key) + 1

  rpm_counted : next_rpm ≡ suc (spent (now / 1000 / 60) (get "rpm" l.counters))
  rpm_counted = omega (arith, a.minute.same now (le_refl now))

  day_counted : next_day ≡ suc (spent (now / 1000 / 86_400) (get "day" l.counters))
  day_counted = omega (arith, a.day.same now (le_refl now))

  abbrev rpm_ticked : Limiter
  rpm_ticked = (tick "rpm" input.rpm_limit 60 (now / 1000) l).1

  abbrev rpm_put : kv.Store
  rpm_put = kv.put now rpm_window.key next_rpm 120 s

  -- The tick of the minute leaves the day's counter alone.
  day_counted_after : next_day ≡ suc (spent (now / 1000 / 86_400) (get "day" rpm_ticked.counters))
  day_counted_after =
      rw (get-tick_ne "rpm" "day" input.rpm_limit 60 (now / 1000) l refl) day_counted

  rpm-Agrees : Agrees kv input now rpm_put rpm_ticked
  rpm-Agrees = record {
    minute =
        AgreesOn-hit kv input "rpm" 60 120 minute-Fits immediate now next_rpm input.rpm_limit s l
          rpm_counted a.minute;
    day =
        AgreesOn-tick_ne kv input "day" 86_400 now (now / 1000) 60 "rpm" input.rpm_limit rpm_put l
          refl
          (AgreesOn-put_ne kv input "day" 86_400 now now 120 next_rpm rpm_window.key s l
            (λ b. kv_key-ne input _ b) a.day);
  }

  -- The day's write and tick, over any agreeing pair that shows the count that was read.
  day-Agrees :
      (s' : kv.Store) (l' : Limiter)
      → Agrees kv input now s' l'
      → next_day ≡ suc (spent (now / 1000 / 86_400) (get "day" l'.counters))
      → Agrees kv input now
          (kv.put now day_window.key next_day 172_800 s')
          (tick "day" input.daily_limit 86_400 (now / 1000) l').1
  day-Agrees s' l' b counted = record {
    minute =
        AgreesOn-tick_ne kv input "rpm" 60 now (now / 1000) 86_400 "day" input.daily_limit _ l' refl
          (AgreesOn-put_ne kv input "rpm" 60 now now 172_800 next_day day_window.key s' l'
            (λ b' e. kv_key-ne input b' _ (sym e)) b.minute);
    day =
        AgreesOn-hit kv input "day" 86_400 172_800 day-Fits immediate now next_day input.daily_limit
          s' l' counted b.day;
  }

  rpm_verdict :
      (later : Verdict)
      → first_exceeded rpm_window next_rpm later
        ≡ verdict_on
            (record { scope = "rpm"; limit = input.rpm_limit; window_seconds = 60 })
            (some (tick "rpm" input.rpm_limit 60 (now / 1000) l).0)
            later
  rpm_verdict later =
      verdict-eq rpm_window input.rpm_limit 60 (now / 1000) next_rpm l later refl rpm_counted

  day_verdict :
      (l' : Limiter)
      → next_day ≡ suc (spent (now / 1000 / 86_400) (get "day" l'.counters))
      → first_exceeded day_window next_day allowed
        ≡ verdict_on
            (record { scope = "day"; limit = input.daily_limit; window_seconds = 86_400 })
            (some (tick "day" input.daily_limit 86_400 (now / 1000) l').0)
            allowed
  day_verdict l' counted =
      verdict-eq day_window input.daily_limit 86_400 (now / 1000) next_day l' allowed refl counted

  -- One check on both sides: the same verdict, and agreement after it.
  pub check-Agrees :
      ((check_and_write kv input now s).0 ≡ ticked_by.0)
      × Agrees kv input now (check_and_write kv input now s).1 ticked_by.1
  unfolding check_and_write check_kv write_all kv_windows windows_of tick_all ticked_by
  check-Agrees = elim (Bool-cases (is_capped input.rpm_limit)) [
    | inl rpm ↦ elim (Bool-cases (is_capped input.daily_limit)) [
      | inl daily ↦
          rw (rpm, daily)
            (
              ap (first_exceeded rpm_window next_rpm) (day_verdict rpm_ticked day_counted_after)
                  ∙ rpm_verdict _,
              day-Agrees rpm_put rpm_ticked rpm-Agrees day_counted_after,
            )
      | inr no_day ↦ rw (rpm, no_day) (rpm_verdict allowed, rpm-Agrees)
    ]
    | inr no_rpm ↦ elim (Bool-cases (is_capped input.daily_limit)) [
      | inl daily ↦ rw (no_rpm, daily) (day_verdict l day_counted, day-Agrees s l a day_counted)
      | inr no_day ↦ rw (no_rpm, no_day) (refl, a)
    ]
  ]
