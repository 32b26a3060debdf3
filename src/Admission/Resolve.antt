-- ===== src/Admission/Resolve.antt =====
-- Where an entitlement comes from.
use hono_crosmos.Base.{
  ℕ, ◌<◌, ◌≢◌, ◌⊎◌, ltb, ne_of_beq, sym, String, ◌===◌, string_eq, ◌≡◌, refl, ◌∙◌, subst, eq_of_beq,
  Bool-cases, inl, inr, Option, none, some, [], ◌∷◌, arith,
}
use hono_crosmos.Base.Dict as Dict
use hono_crosmos.Base.Dict.{Dict, IsDistinct, get-set}
use hono_crosmos.Admission.Entitlements.{
  EntitlementValue, Entitlements, OrganizationEntitlementSource, plan_defaults, over,
  active_granted_plan, resolve_entitlements, or_plan, or_free, or_nothing,
}

abbrev pub or_else : Option EntitlementValue → Option EntitlementValue → Option EntitlementValue
or_else none base = base
or_else (some value) base = some value

get-over_entitlements :
    (key : String) (base overrides : Entitlements)
    → IsDistinct overrides
    → Dict.get key (over base overrides) ≡ or_else (Dict.get key overrides) (Dict.get key base)
unfolding over Dict.get
get-over_entitlements key base [] d = refl
get-over_entitlements key base ((k, v) ∷ overrides) (fresh, d) =
    get-over_entitlements key (Dict.set k v base) overrides d ∙ (elim (Bool-cases (k === key)) [
      | inl same ↦
          let absent : Dict.get key overrides ≡ none =
            subst (λ j. Dict.get j overrides ≡ none) (eq_of_beq same) fresh in
          ground (arith, same, absent, get-set k key v base)
      | inr other ↦ ground (arith, other, get-set k key v base)
    ])

-- A plan is granted to an org that names one, together with an instant that is not reached.
abbrev pub IsGranted : OrganizationEntitlementSource → ℕ → String → Type 0
IsGranted org now plan =
    (org.granted_plan ≡ some plan)
    × (plan ≢ "")
    × ((until : ℕ) × (org.granted_plan_expires_at ≡ some until) × (now < until))

-- The plan in force is the granted one, and the org's own if there is none.
abbrev pub IsInForce : OrganizationEntitlementSource → ℕ → String → Type 0
IsInForce org now plan =
    IsGranted org now plan ⊎ ((plan ≡ org.plan) × ((p : String) → IsGranted org now p → ⊥))

pub some_inj {ℓ} : {A : Type ℓ} {x y : A} → some x ≡ some y → x ≡ y
some_inj e = cc

granted-IsInForce :
    (own : String) (grant : Option String) (until : Option ℕ) (now : ℕ) (e : Option Entitlements)
    → let org : OrganizationEntitlementSource = record {
      plan = own;
      granted_plan = grant;
      granted_plan_expires_at = until;
      entitlements = e;
    } in
      IsInForce org now (or_plan (active_granted_plan org now) own)
unfolding active_granted_plan
granted-IsInForce own none until now e = inr (refl, λ p (named, filled, g). cc)
granted-IsInForce own (some plan) none now e = inr (refl, λ p (named, filled, (u, at, h)). cc)
granted-IsInForce own (some plan) (some until) now e = elim (Bool-cases (plan === "")) [
  | inl empty ↦
      rw empty (inr (refl, λ p (named, full, g). full (some_inj (sym named) ∙ eq_of_beq empty)))
  | inr filled ↦ elim (Bool-cases (ltb now until)) [
    | inl early ↦
        rw (filled, early)
          (inl (refl, ne_of_beq {a = plan} {b = ""} filled, (until, refl, ground (arith, early))))
    | inr late ↦
        rw (filled, late)
          (inr (refl, λ p (named, full, (u, at, h)). ground (arith, late, some_inj at, h)))
  ]
]

-- If no name stands twice in an org's overrides, one plan is in force: the granted one before its
-- time is up, else the org's own; and each entitlement is what the overrides say, if they name it,
-- and otherwise what that plan's defaults say, the free plan's for a plan that is not known.
pub get-resolve_entitlements :
    (org : OrganizationEntitlementSource) (now : ℕ)
    → IsDistinct (or_nothing org.entitlements)
    → (plan : String) × IsInForce org now plan
      × ((key : String)
          → Dict.get key (resolve_entitlements org now)
            ≡ or_else
                (Dict.get key (or_nothing org.entitlements))
                (Dict.get key (or_free (Dict.get plan plan_defaults))))
unfolding resolve_entitlements
get-resolve_entitlements org now d =
    let plan = or_plan (active_granted_plan org now) org.plan in
    (
      plan,
      granted-IsInForce org.plan org.granted_plan org.granted_plan_expires_at now org.entitlements,
      λ key.
          get-over_entitlements key (or_free (Dict.get plan plan_defaults))
            (or_nothing org.entitlements) d,
    )
