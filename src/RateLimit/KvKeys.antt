-- ===== src/RateLimit/KvKeys.antt =====
-- kv.ts: no two buckets and no two windows of an org share a key.
use Prim.Native.String.{◌++◌ as append, count}
use text.Mathlib.TextLemmas.{length-append, append_inj, append_cancel_left}
use text.Mathlib.TextEquality.{eq_iff}
use hono_crosmos.Base.{
  ℕ, ◌≡◌, ◌≢◌, refl, String, ◌===◌, string_eq, Option, none, some, arith, Bool-cases, inl, inr,
}
use hono_crosmos.Base.Decimal.{to_string, to_string_inj}
use hono_crosmos.RateLimit.Port.{RateLimitCheck}
use hono_crosmos.RateLimit.OrgKv.{kv_key, window_prefix}

-- The keys of two buckets of a window differ.
pub kv_key_inj :
    (base : String) (input : RateLimitCheck) (b c : ℕ)
    → kv_key base input b ≡ kv_key base input c
    → b ≡ c
unfolding kv_key
kv_key_inj base input b c e = to_string_inj b c (
    append_cancel_left ":" _ _ (
      append_cancel_left (to_string input.org_id) _ _
        (append_cancel_left (window_prefix base input.namespace) _ _ e)))

rpm-ne-day : append "rpm" ":" ≢ append "day" ":"
rpm-ne-day e = ground (arith, eq_iff "rpm:" "day:")

-- Two texts of one length, between the same namespace and whatever follows.
spaced-ne :
    (ns a b s t : String)
    → count a ≡ count b
    → a ≢ b
    → append (append "rl:" (append ns (append ":" a))) s
      ≢ append (append "rl:" (append ns (append ":" b))) t
spaced-ne ns a b s t k ne e = ne (
    append_cancel_left ":" _ _
      (append_cancel_left ns _ _ (append_cancel_left "rl:" _ _ (append_inj e same_length).0)))
  where
    same_length :
        count (append "rl:" (append ns (append ":" a)))
        ≡ count (append "rl:" (append ns (append ":" b)))
    same_length = omega (
      arith,
      k,
      length-append "rl:" (append ns (append ":" a)),
      length-append "rl:" (append ns (append ":" b)),
      length-append ns (append ":" a),
      length-append ns (append ":" b),
      length-append ":" a,
      length-append ":" b,
    )

prefix-ne :
    (ns : Option String) (s t : String)
    → append (window_prefix "rpm" ns) s ≢ append (window_prefix "day" ns) t
unfolding window_prefix
prefix-ne none s t = λ e. rpm-ne-day (append_cancel_left "rl:" _ _ (append_inj e refl).0)
prefix-ne (some ns) s t = elim (Bool-cases (ns === "")) [
  | inl empty ↦ rw empty (λ e. rpm-ne-day (append_cancel_left "rl:" _ _ (append_inj e refl).0))
  | inr named ↦ rw named (spaced-ne ns (append "rpm" ":") (append "day" ":") s t refl rpm-ne-day)
]

-- So do the keys of the two windows.
pub kv_key-ne : (input : RateLimitCheck) (b c : ℕ) → kv_key "rpm" input b ≢ kv_key "day" input c
unfolding kv_key
kv_key-ne input b c e = prefix-ne input.namespace _ _ e
