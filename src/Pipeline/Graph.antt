-- ===== src/Pipeline/Graph.antt =====
-- What the edges of a batch are.
use hono_crosmos.Base.{
  ℕ, ◌==◌, ==_iff, ◌===◌, string_eq, ◌≡◌, ◌≢◌, refl, String, true, Option, none, some, List, [],
  ◌∷◌, ◌++◌, arith, inl, inr, ◌⊎◌, subst, either_by, beq_refl, eq_of_beq, Bool-cases,
}
use hono_crosmos.Base.Bars.{between_bars_inj}
use hono_crosmos.Base.Dict.{Dict, get}
use hono_crosmos.Base.Tables.{All, append-All}
use hono_crosmos.Ingestion.Sources.{TenantScope}
use hono_crosmos.Pipeline.Edges.{
  Relation, Fact, EdgeRow, Edges, has_key, edge_key, edge_row, push_edge, add_relations, add_facts,
  create_edges_from_facts,
}
use hono_crosmos.Pipeline.Keys as Keys
use hono_crosmos.Pipeline.Keys.{KeysDiffer, key_of, keys_of, add_facts-IsGraph}

module _ {Confidence : Type 0} where
  -- Some row leads from one entity to another by a relation.
  abbrev pub HasEdge : ℕ → String → ℕ → List (EdgeRow Confidence) → Type 0
  HasEdge s r o [] = ⊥
  HasEdge s r o (e ∷ rows) =
      ((e.source_entity_id ≡ s) × (e.relation_type ≡ r) × (e.target_entity_id ≡ o))
      ⊎ HasEdge s r o rows

  -- No two rows lead from one entity to one other by one relation.
  abbrev pub EdgesDiffer : List (EdgeRow Confidence) → Type 0
  EdgesDiffer [] = Unit
  EdgesDiffer (e ∷ rows) =
      (HasEdge e.source_entity_id e.relation_type e.target_entity_id rows → ⊥) × EdgesDiffer rows

  has_key-HasEdge :
      (s o : ℕ) (r : String) (rows : List (EdgeRow Confidence))
      → has_key (edge_key s r o) (keys_of rows) ≡ true
      → HasEdge s r o rows
  has_key-HasEdge s o r [] h = cc
  has_key-HasEdge s o r (e ∷ rows) h = elim (Bool-cases (key_of e === edge_key s r o)) [
    | inl same ↦ inl (
        between_bars_inj e.source_entity_id e.target_entity_id s o e.relation_type r
          (eq_of_beq same))
    | inr other ↦ inr (has_key-HasEdge s o r rows (ground (arith, h, other)))
  ]

  HasEdge-has_key :
      (s o : ℕ) (r : String) (rows : List (EdgeRow Confidence))
      → HasEdge s r o rows
      → has_key (edge_key s r o) (keys_of rows) ≡ true
  HasEdge-has_key s o r [] h = absurd h
  HasEdge-has_key s o r (e ∷ rows) (inl (a, b, c)) =
      rw (a, b, c) (ground (arith, beq_refl (edge_key s r o)))
  HasEdge-has_key s o r (e ∷ rows) (inr there) = ground (arith, HasEdge-has_key s o r rows there)

  EdgesDiffer-KeysDiffer :
      (rows : List (EdgeRow Confidence)) → KeysDiffer (keys_of rows) → EdgesDiffer rows
  EdgesDiffer-KeysDiffer [] d = tt
  EdgesDiffer-KeysDiffer (e ∷ rows) (fresh, d) = (
    λ h. ground (
      arith,
      fresh,
      HasEdge-has_key e.source_entity_id e.target_entity_id e.relation_type rows h,
    ),
    EdgesDiffer-KeysDiffer rows d,
  )

module _ {Confidence : Type 0} (casefold : String → String) (scope : TenantScope)
    (names : Dict String ℕ) (learned : ℕ) where
  -- The row is the one of a relation whose two names are known.
  abbrev pub IsRowOf :
      EdgeRow Confidence → ℕ → Option ℕ → Relation Confidence → Option ℕ → Option ℕ → Type 0
  IsRowOf e memory time rel (some s) (some o) =
      e ≡ edge_row casefold scope names learned memory time rel s o
  IsRowOf e memory time rel none o = ⊥
  IsRowOf e memory time rel (some s) none = ⊥

  abbrev pub IsRowOfSome : EdgeRow Confidence → ℕ → Option ℕ → List (Relation Confidence) → Type 0
  IsRowOfSome e memory time [] = ⊥
  IsRowOfSome e memory time (rel ∷ rels) =
      IsRowOf e memory time rel (get (casefold rel.subject) names) (get (casefold rel.object) names)
      ⊎ IsRowOfSome e memory time rels

  abbrev pub IsRowOfFact : List (ℕ × Fact Confidence) → EdgeRow Confidence → Type 0
  IsRowOfFact [] e = ⊥
  IsRowOfFact ((memory, fact) ∷ ingested) e =
      IsRowOfSome e memory fact.event_time fact.relations ⊎ IsRowOfFact ingested e

  module _ (Q : EdgeRow Confidence → Type 0) where
    push_edge-All :
        (memory : ℕ) (time : Option ℕ) (rel : Relation Confidence) (s o : Option ℕ)
        (acc : Edges Confidence)
        → All Q acc.rows
        → ((e : EdgeRow Confidence) → IsRowOf e memory time rel s o → Q e)
        → All Q (push_edge casefold scope names learned memory time rel s o acc).rows
    push_edge-All memory time rel (some s) (some o) acc all q =
        let P = λ (a : Edges Confidence). All Q a.rows in
        either_by P (s == o) (λ e. all)
          (λ apart.
            either_by P (has_key (edge_key s rel.relation o) acc.seen) (λ e. all)
              (λ new.
                append-All Q acc.rows
                  (edge_row casefold scope names learned memory time rel s o ∷ []) all
                  (q _ refl, tt)))
    push_edge-All memory time rel none o acc all q = all
    push_edge-All memory time rel (some s) none acc all q = all

    add_relations-All :
        (memory : ℕ) (time : Option ℕ) (rels : List (Relation Confidence)) (acc : Edges Confidence)
        → All Q acc.rows
        → ((e : EdgeRow Confidence) → IsRowOfSome e memory time rels → Q e)
        → All Q (add_relations casefold scope names learned memory time rels acc).rows
    add_relations-All memory time [] acc all q = all
    add_relations-All memory time (rel ∷ rels) acc all q =
        add_relations-All memory time rels _
          (push_edge-All memory time rel (get (casefold rel.subject) names)
            (get (casefold rel.object) names) acc all (λ e h. q e (inl h)))
          (λ e h. q e (inr h))

    add_facts-All :
        (ingested : List (ℕ × Fact Confidence)) (acc : Edges Confidence)
        → All Q acc.rows
        → ((e : EdgeRow Confidence) → IsRowOfFact ingested e → Q e)
        → All Q (add_facts casefold scope names learned ingested acc).rows
    add_facts-All [] acc all q = all
    add_facts-All ((memory, fact) ∷ ingested) acc all q =
        add_facts-All ingested _
          (add_relations-All memory fact.event_time fact.relations acc all (λ e h. q e (inl h)))
          (λ e h. q e (inr h))

  -- A relation whose names are known, and not of one entity, has a row of its own words.
  abbrev pub IsCovered :
      List (EdgeRow Confidence) → Relation Confidence → Option ℕ → Option ℕ → Type 0
  IsCovered rows rel (some s) (some o) = (s ≡ o) ⊎ HasEdge s rel.relation o rows
  IsCovered rows rel none o = Unit
  IsCovered rows rel (some s) none = Unit

  abbrev pub AllCovered : List (EdgeRow Confidence) → List (Relation Confidence) → Type 0
  AllCovered rows rels =
      All
        (λ rel.
          IsCovered rows rel (get (casefold rel.subject) names) (get (casefold rel.object) names))
        rels

  abbrev pub AllFactsCovered : List (EdgeRow Confidence) → List (ℕ × Fact Confidence) → Type 0
  AllFactsCovered rows ingested =
      All (λ (p : ℕ × Fact Confidence). AllCovered rows p.1.relations) ingested

  IsCovered-row :
      (rows : List (EdgeRow Confidence)) (rel : Relation Confidence) (s o : Option ℕ)
      → Keys.IsCovered casefold scope names learned (keys_of rows) rel s o
      → IsCovered rows rel s o
  IsCovered-row rows rel (some s) (some o) (inl same) = inl ((==_iff s o).0 same)
  IsCovered-row rows rel (some s) (some o) (inr there) =
      inr (has_key-HasEdge s o rel.relation rows there)
  IsCovered-row rows rel none o c = tt
  IsCovered-row rows rel (some s) none c = tt

  AllCovered-rows :
      (rows : List (EdgeRow Confidence)) (rels : List (Relation Confidence))
      → Keys.AllCovered casefold scope names learned (keys_of rows) rels
      → AllCovered rows rels
  AllCovered-rows rows [] c = tt
  AllCovered-rows rows (rel ∷ rels) (c, cs) = (
    IsCovered-row rows rel (get (casefold rel.subject) names) (get (casefold rel.object) names) c,
    AllCovered-rows rows rels cs,
  )

  AllFactsCovered-rows :
      (rows : List (EdgeRow Confidence)) (ingested : List (ℕ × Fact Confidence))
      → Keys.AllFactsCovered casefold scope names learned (keys_of rows) ingested
      → AllFactsCovered rows ingested
  AllFactsCovered-rows rows [] c = tt
  AllFactsCovered-rows rows ((memory, fact) ∷ ingested) (c, cs) =
      (AllCovered-rows rows fact.relations c, AllFactsCovered-rows rows ingested cs)

  proper :
      (rows : List (EdgeRow Confidence))
      → All (Keys.IsEdge casefold scope names learned) rows
      → All (λ e. e.source_entity_id ≢ e.target_entity_id) rows
  proper [] p = tt
  proper (e ∷ rows) (p, ps) = (λ same. ground (arith, p, same), proper rows ps)

  -- A batch adds rows and changes none. Each row that it adds is that of a relation of a fact, with
  -- the ids of its two names, which are known; no row leads an entity to itself, and no two lead from
  -- one entity to one other by one relation; and each relation of a fact whose two names are known, and
  -- not of one entity, has a row from the one to the other by that relation.
  pub create_edges_from_facts_lem :
      (next : ℕ) (ingested : List (ℕ × Fact Confidence)) (table : List (EdgeRow Confidence))
      → (new : List (EdgeRow Confidence)) × ((create_edges_from_facts casefold scope names learned
            next ingested table).1
          ≡ table ++ new)
        × All (IsRowOfFact ingested) new
        × All (λ e. e.source_entity_id ≢ e.target_entity_id) new
        × EdgesDiffer new
        × AllFactsCovered new ingested
  unfolding create_edges_from_facts
  create_edges_from_facts_lem next ingested table =
      let acc = add_facts casefold scope names learned ingested (record { rows = []; seen = [] }) in
      let ((same, (differ, ends)), (more, covered)) =
        add_facts-IsGraph casefold scope names learned ingested (record { rows = []; seen = [] })
          (refl, (tt, tt)) in
      (
        acc.rows,
        refl,
        add_facts-All (IsRowOfFact ingested) ingested (record { rows = []; seen = [] }) tt
            (λ e h. h),
        proper acc.rows ends,
        EdgesDiffer-KeysDiffer acc.rows (subst KeysDiffer same differ),
        AllFactsCovered-rows acc.rows ingested (
            subst (λ keys. Keys.AllFactsCovered casefold scope names learned keys ingested) same
              covered),
      )
