-- ===== src/RateLimit/AgreeOn.antt =====
-- do.ts against kv.ts on one window: what writes and ticks do to their agreement.
use hono_crosmos.Base.{
  ℕ, suc, ◌+◌, ◌*◌, ◌/◌, ◌≤◌, ◌<◌, ◌≡◌, ◌≢◌, ap, sym, ◌∙◌, String, ◌===◌, string_eq, false, some,
  arith, ◌==◌, Bool-cases, ==_iff, inl, inr,
}
use native.Mathlib.Nat.{le_refl}
use hono_crosmos.Base.Int.{ℤ}
use hono_crosmos.Base.Dict.{get}
use hono_crosmos.RateLimit.LimiterDo.{Limiter, Counter, tick}
use hono_crosmos.RateLimit.Window.{spent, spent-tick_self, spent-past, get-tick_self, get-tick_ne}
use hono_crosmos.RateLimit.KvKeys.{kv_key_inj}
use hono_crosmos.RateLimit.Port.{RateLimitCheck}
use hono_crosmos.RateLimit.OrgKv.{KvNamespace, IsImmediate, kv_key, count_of}

-- The two limiters agree on one window from an instant on: what the store will show for the key of
-- a later instant is what the counter will have spent by then.
pub record AgreesOn (kv : KvNamespace) (input : RateLimitCheck) (scope : String) (seconds last : ℕ)
    (s : kv.Store) (l : Limiter) : Type 0 where
  pub same :
      (t : ℕ)
      → last ≤ t
      → count_of (kv.read s t (kv_key scope input (t / 1000 / seconds)))
        ≡ spent (t / 1000 / seconds) (get scope l.counters)
  pub past :
      (t : ℕ)
      → last ≤ t
      → (c : Counter) → get scope l.counters ≡ some c
      → c.bucket ≤ t / 1000 / seconds

module _ (kv : KvNamespace) (input : RateLimitCheck) (scope : String) (seconds : ℕ) where
  pub AgreesOn-later :
      (last now : ℕ) (s : kv.Store) (l : Limiter)
      → last ≤ now
      → AgreesOn kv input scope seconds last s l
      → AgreesOn kv input scope seconds now s l
  AgreesOn-later last now s l h a = record {
    same = λ t k. a.same t (omega arith);
    past = λ t k c e. a.past t (omega arith) c e;
  }

  -- A write under another key and a tick of another scope do not matter.
  pub AgreesOn-put_ne :
      (last now ttl n : ℕ) (key : String) (s : kv.Store) (l : Limiter)
      → ((b : ℕ) → key ≢ kv_key scope input b)
      → AgreesOn kv input scope seconds last s l
      → AgreesOn kv input scope seconds last (kv.put now key n ttl s) l
  AgreesOn-put_ne last now ttl n key s l ne a = record {
    same = λ t k.
        ap count_of
          (kv.read-put_ne s now t ttl n key (kv_key scope input (t / 1000 / seconds)) (ne _))
        ∙ a.same t k;
    past = a.past;
  }

  pub AgreesOn-tick_ne :
      (last now length' : ℕ) (name : String) (limit' : ℤ) (s : kv.Store) (l : Limiter)
      → (name === scope) ≡ false
      → AgreesOn kv input scope seconds last s l
      → AgreesOn kv input scope seconds last s (tick name limit' length' now l).1
  AgreesOn-tick_ne last now length' name limit' s l ne a = record {
    same = λ t k. rw (get-tick_ne name scope limit' length' now l ne) (a.same t k);
    past = λ t k c e. a.past t k c (sym (get-tick_ne name scope limit' length' now l ne) ∙ e);
  }

bucket-eq : {c d : Counter} → some c ≡ some d → c.bucket ≡ d.bucket
bucket-eq e = ground arith

-- A window's length fits its time to live, and its buckets grow with time.
pub record Fits (seconds ttl : ℕ) : Type 0 where
  pub grow : (t now : ℕ) → now ≤ t → now / 1000 / seconds ≤ t / 1000 / seconds
  pub alive : (t now : ℕ) → t / 1000 / seconds ≡ now / 1000 / seconds → t < now + ttl * 1000

pub minute-Fits : Fits 60 120
minute-Fits = record { grow = λ t now h. omega arith; alive = λ t now h. omega arith }

pub day-Fits : Fits 86_400 172_800
day-Fits = record { grow = λ t now h. omega arith; alive = λ t now h. omega arith }

module _ (kv : KvNamespace) (input : RateLimitCheck) (scope : String) (seconds ttl : ℕ)
    (fits : Fits seconds ttl) (immediate : IsImmediate kv) where
  -- The write of the next count and the tick of the scope, at one instant.
  pub AgreesOn-hit :
      (now n : ℕ) (limit' : ℤ) (s : kv.Store) (l : Limiter)
      → n ≡ suc (spent (now / 1000 / seconds) (get scope l.counters))
      → AgreesOn kv input scope seconds now s l
      → AgreesOn kv input scope seconds now
          (kv.put now (kv_key scope input (now / 1000 / seconds)) n ttl s)
          (tick scope limit' seconds (now / 1000) l).1
  AgreesOn-hit now n limit' s l next a = record {
    same = λ t k. elim (Bool-cases (t / 1000 / seconds == now / 1000 / seconds)) [
      | inl e ↦ same_window t ((==_iff _ _).0 e)
      | inr e ↦ later_window t k e
    ];
    past = λ t k c e. omega (
      arith,
      fits.grow t now k,
      bucket-eq (sym e ∙ get-tick_self scope limit' seconds (now / 1000) l),
    );
  }
    where
      after : Limiter
      after = (tick scope limit' seconds (now / 1000) l).1

      written : kv.Store
      written = kv.put now (kv_key scope input (now / 1000 / seconds)) n ttl s

      same_window :
          (t : ℕ)
          → t / 1000 / seconds ≡ now / 1000 / seconds
          → count_of (kv.read written t (kv_key scope input (t / 1000 / seconds)))
            ≡ spent (t / 1000 / seconds) (get scope after.counters)
      same_window t e = rw e (
          ap count_of (immediate.read-put_self s now t ttl n _ (fits.alive t now e))
          ∙ next
          ∙ sym (spent-tick_self scope limit' seconds (now / 1000) l))

      later_window :
          (t : ℕ)
          → now ≤ t
          → (t / 1000 / seconds == now / 1000 / seconds) ≡ false
          → count_of (kv.read written t (kv_key scope input (t / 1000 / seconds)))
            ≡ spent (t / 1000 / seconds) (get scope after.counters)
      later_window t k e =
          ap count_of (
            kv.read-put_ne s now t ttl n _ _ (λ p. ground (arith, e, kv_key_inj scope input _ _ p)))
          ∙ a.same t k
          ∙ spent-past (t / 1000 / seconds) (get scope l.counters)
              (λ c q. ground (arith, e, fits.grow t now k, a.past now (le_refl now) c q))
          ∙ sym (
              spent-past (t / 1000 / seconds) (get scope after.counters) λ c q. ground (
                arith,
                e,
                fits.grow t now k,
                bucket-eq (sym q ∙ get-tick_self scope limit' seconds (now / 1000) l),
              ))
