-- ===== src/Visibility/Acyclic.antt =====
-- The grants of an org never lead from a group back to itself.
use hono_crosmos.Base.{
  ℕ, ◌≡◌, sym, subst, ◌⊎◌, inl, inr, ◌↔◌, Bool, true, Option, none, List, [], ◌∷◌, ◌++◌, ◌==◌,
  ==_iff, arith, Bool-cases, nat_eq,
}
use hono_crosmos.Base.Tables.{select_where, delete_where}
use hono_crosmos.Visibility.Graph.{contains, ◌∈◌, Reach, here, further}
use hono_crosmos.Visibility.Rows.{recursive_union_iff}
use hono_crosmos.Visibility.Store.{VisibilityGrant, successors}
use hono_crosmos.Visibility.Service.{group_reaches, refusal}

-- One or more grants of an org lead from a group to another.
abbrev pub Leads : ℕ → List VisibilityGrant → ℕ → ℕ → Type 0
Leads org grants g h = Reach (successors org grants) (successors org grants g) h

abbrev pub IsAcyclic : List VisibilityGrant → Type 0
IsAcyclic grants = (org g : ℕ) → ¬ Leads org grants g g

-- The check before an insert asks for a chain of grants, of any length.
pub group_reaches_iff :
    (org start target : ℕ) (grants : List VisibilityGrant)
    → (group_reaches org start target grants ≡ true) ↔ Leads org grants start target
unfolding group_reaches
group_reaches_iff org start target grants =
    recursive_union_iff org target grants (successors org grants start)

Leads-trans :
    (org : ℕ) (grants : List VisibilityGrant) (g h k : ℕ)
    → Leads org grants g h
    → Leads org grants h k
    → Leads org grants g k
Leads-trans org grants g h k p (here m) = further p m
Leads-trans org grants g h k p (further {y = y} q m) = further (Leads-trans org grants g h y p q) m

-- A chain stays where every grant that it takes still stands.
include :
    (org : ℕ) (old new : List VisibilityGrant) (g h : ℕ)
    → ((u x : ℕ) → x ∈ successors org new u → x ∈ successors org old u)
    → Leads org new g h
    → Leads org old g h
include org old new g h keeps (here m) = here (keeps g h m)
include org old new g h keeps (further {y = y} q m) =
    further (include org old new g y keeps q) (keeps y h m)

-- A chain through the grants with one edge more: one through the old ones, or one that passes it.
module _ (org viewer subject : ℕ) (old new : List VisibilityGrant)
    (added : (u x : ℕ)
      → x ∈ successors org new u
      → (x ∈ successors org old u) ⊎ ((u ≡ viewer) × (x ≡ subject))) where
  abbrev LeadsOrIs : ℕ → ℕ → Type 0
  LeadsOrIs g h = (g ≡ h) ⊎ Leads org old g h

  follow : (g h k : ℕ) → LeadsOrIs g h → k ∈ successors org old h → Leads org old g k
  follow g h k (inl same) m = here (subst (λ i. k ∈ successors org old i) (sym same) m)
  follow g h k (inr p) m = further p m

  through :
      (g h : ℕ) → Leads org new g h → Leads org old g h ⊎ (LeadsOrIs g viewer × LeadsOrIs subject h)
  through g h (here m) = elim (added g h m) [
    | inl e ↦ inl (here e)
    | inr (u, x) ↦ inr (inl u, inl (sym x))
  ]
  through g h (further {y = y} p m) = elim (through g y p) [
    | inl q ↦ elim (added y h m) [
      | inl e ↦ inl (further q e)
      | inr (u, x) ↦ inr (inr (subst (λ i. Leads org old g i) u q), inl (sym x))
    ]
    | inr (a, b) ↦ elim (added y h m) [
      | inl e ↦ inr (a, inr (follow subject y h b e))
      | inr (u, x) ↦ inr (a, inl (sym x))
    ]
  ]

  meet : (g : ℕ) → LeadsOrIs g viewer → LeadsOrIs subject g → LeadsOrIs subject viewer
  meet g (inl same) b = subst (λ i. LeadsOrIs subject i) same b
  meet g (inr p) (inl same) = inr (subst (λ i. Leads org old i viewer) (sym same) p)
  meet g (inr p) (inr q) = inr (Leads-trans org old subject g viewer q p)

  no_cycle :
      (¬ LeadsOrIs subject viewer) → ((g : ℕ) → ¬ Leads org old g g) → (g : ℕ) → ¬ Leads org new g g
  no_cycle apart acyclic g p = elim (through g g p) [
    | inl q ↦ acyclic g q
    | inr (a, b) ↦ apart (meet g a b)
  ]

successors-append :
    (org u x : ℕ) (grants : List VisibilityGrant) (g : VisibilityGrant)
    → x ∈ successors org (grants ++ g ∷ []) u
    → (x ∈ successors org grants u)
      ⊎ ((g.org_id ≡ org) × ((u ≡ g.viewer_group_id) × (x ≡ g.subject_group_id)))
unfolding successors select_where contains
successors-append org u x [] g h =
    ground (arith, h, ==_iff g.org_id org, ==_iff g.viewer_group_id u, ==_iff g.subject_group_id x)
successors-append org u x (y ∷ ys) g h = ground (arith, h, successors-append org u x ys g)

-- Fewer grants lead to less.
successors-delete_where :
    (p : VisibilityGrant → Bool) (org u x : ℕ) (grants : List VisibilityGrant)
    → x ∈ successors org (delete_where p grants) u
    → x ∈ successors org grants u
unfolding successors select_where delete_where contains
successors-delete_where p org u x [] h = h
successors-delete_where p org u x (y ∷ ys) h =
    ground (arith, h, successors-delete_where p org u x ys)

pub delete_where-IsAcyclic :
    (p : VisibilityGrant → Bool) (grants : List VisibilityGrant)
    → IsAcyclic grants
    → IsAcyclic (delete_where p grants)
delete_where-IsAcyclic p grants acyclic org g q = acyclic org g (
    include org grants (delete_where p grants) g g (λ u x. successors-delete_where p org u x grants)
      q)

refusal-passes :
    (org viewer subject : ℕ) (grants : List VisibilityGrant)
    → refusal org viewer subject grants ≡ none
    → ¬ ((subject ≡ viewer) ⊎ Leads org grants subject viewer)
unfolding refusal
refusal-passes org viewer subject grants passes (inl same) =
    ground (arith, passes, same, ==_iff viewer subject)
refusal-passes org viewer subject grants passes (inr leads) =
    ground (arith, passes, (group_reaches_iff org subject viewer grants).1 leads)

pub append-IsAcyclic :
    (org viewer subject id : ℕ) (created_by : Option ℕ) (grants : List VisibilityGrant)
    → refusal org viewer subject grants ≡ none
    → IsAcyclic grants
    → IsAcyclic (
        grants
        ++ record {
          id = id;
          org_id = org;
          viewer_group_id = viewer;
          subject_group_id = subject;
          created_by_user_id = created_by;
        }
          ∷ [])
append-IsAcyclic org viewer subject id created_by grants passes acyclic other g p =
    elim (Bool-cases (org == other)) [
      | inl same ↦
          let own : org ≡ other = ground (arith, same, ==_iff org other) in
          no_cycle other viewer subject grants new
            (λ u x m. elim (successors-append other u x grants edge m) [
              | inl e ↦ inl e
              | inr (o, e) ↦ inr e
            ])
            (subst (λ o. ¬ ((subject ≡ viewer) ⊎ Leads o grants subject viewer)) own
              (refusal-passes org viewer subject grants passes))
            (acyclic other) g p
      | inr apart ↦ acyclic other g (
          include other grants new g g
            (λ u x m. elim (successors-append other u x grants edge m) [
              | inl e ↦ e
              | inr (o, e) ↦ absurd (ground (arith, o, apart, ==_iff org other))
            ])
            p)
    ]
  where
    edge : VisibilityGrant
    edge = record {
      id = id;
      org_id = org;
      viewer_group_id = viewer;
      subject_group_id = subject;
      created_by_user_id = created_by;
    }

    new : List VisibilityGrant
    new = grants ++ edge ∷ []
