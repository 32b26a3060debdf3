-- ===== src/Pipeline/Keys.antt =====
-- The keys of the edges of a batch: no key stands twice, and each relation has one.
use hono_crosmos.Base.{
  ℕ, ◌==◌, string_eq, ◌≡◌, refl, String, true, false, ◌||◌, Option, none, some, List, [], ◌∷◌, ◌++◌,
  map, arith, inl, inr, ◌⊎◌, either_by, ap, ◌∙◌, sym, beq_refl, beq_false, ne_of_beq,
}
use hono_crosmos.Base.Dict.{Dict, get}
use hono_crosmos.Base.Tables.{All, append-All}
use hono_crosmos.Ingestion.Sources.{TenantScope}
use hono_crosmos.Pipeline.Edges.{
  Relation, Fact, EdgeRow, Edges, has_key, edge_key, edge_row, push_edge, add_relations, add_facts,
}

-- No key stands twice.
abbrev pub KeysDiffer : List String → Type 0
KeysDiffer [] = Unit
KeysDiffer (k ∷ keys) = (has_key k keys ≡ false) × KeysDiffer keys

abbrev pub key_of : {Confidence : Type 0} → EdgeRow Confidence → String
key_of e = edge_key e.source_entity_id e.relation_type e.target_entity_id

abbrev pub keys_of : {Confidence : Type 0} → List (EdgeRow Confidence) → List String
keys_of rows = map (λ e. key_of e) rows

has_key-append :
    (key : String) (xs ys : List String)
    → has_key key (xs ++ ys) ≡ (has_key key xs || has_key key ys)
has_key-append key [] ys = refl
has_key-append key (x ∷ xs) ys = ground (arith, has_key-append key xs ys)

KeysDiffer-snoc :
    (keys : List String) (key : String)
    → KeysDiffer keys
    → has_key key keys ≡ false
    → KeysDiffer (keys ++ key ∷ [])
KeysDiffer-snoc [] key d h = (refl, tt)
KeysDiffer-snoc (k ∷ keys) key (fresh, d) h = (
  has_key-append k keys (key ∷ [])
      ∙ rw (fresh, beq_false (λ e. ne_of_beq {a = k} {b = key} (ground (arith, h)) (sym e))) refl,
  KeysDiffer-snoc keys key d (ground (arith, h)),
)

keys_of-snoc :
    {Confidence : Type 0} (rows : List (EdgeRow Confidence)) (e : EdgeRow Confidence)
    → keys_of (rows ++ e ∷ []) ≡ keys_of rows ++ key_of e ∷ []
keys_of-snoc [] e = refl
keys_of-snoc (r ∷ rows) e = ap (λ (ks : List String). key_of r ∷ ks) (keys_of-snoc rows e)

abbrev Extends : List String → List String → Type 0
Extends keys keys' = (k : String) → has_key k keys ≡ true → has_key k keys' ≡ true

module _ {Confidence : Type 0} (casefold : String → String) (scope : TenantScope)
    (names : Dict String ℕ) (learned : ℕ) where
  -- The names of the edge's ends are known ids, which differ.
  abbrev pub IsEdge : EdgeRow Confidence → Type 0
  IsEdge e = (e.source_entity_id == e.target_entity_id) ≡ false

  abbrev pub IsGraph : Edges Confidence → Type 0
  IsGraph acc = (acc.seen ≡ keys_of acc.rows) × (KeysDiffer acc.seen × All IsEdge acc.rows)

  push_edge-IsGraph :
      (memory : ℕ) (time : Option ℕ) (rel : Relation Confidence) (s o : Option ℕ)
      (acc : Edges Confidence)
      → IsGraph acc
      → IsGraph (push_edge casefold scope names learned memory time rel s o acc)
  push_edge-IsGraph memory time rel (some s) (some o) acc (same, (differ, ends)) =
      let key = edge_key s rel.relation o in
      either_by IsGraph (s == o) (λ e. (same, (differ, ends)))
        (λ apart.
          either_by IsGraph (has_key key acc.seen) (λ e. (same, (differ, ends)))
            (λ new. (
              rw same (
                  sym (
                    keys_of-snoc acc.rows
                      (edge_row casefold scope names learned memory time rel s o))),
              (
                KeysDiffer-snoc acc.seen key differ new,
                append-All IsEdge acc.rows
                    (edge_row casefold scope names learned memory time rel s o ∷ []) ends
                    (apart, tt),
              ),
            )))
  push_edge-IsGraph memory time rel none o acc g = g
  push_edge-IsGraph memory time rel (some s) none acc g = g

  -- A relation whose names are known, and not of one entity, has its key among `keys`.
  abbrev pub IsCovered : List String → Relation Confidence → Option ℕ → Option ℕ → Type 0
  IsCovered keys rel (some s) (some o) =
      ((s == o) ≡ true) ⊎ (has_key (edge_key s rel.relation o) keys ≡ true)
  IsCovered keys rel none o = Unit
  IsCovered keys rel (some s) none = Unit

  abbrev pub AllCovered : List String → List (Relation Confidence) → Type 0
  AllCovered keys rels =
      All
        (λ rel.
          IsCovered keys rel (get (casefold rel.subject) names) (get (casefold rel.object) names))
        rels

  abbrev pub AllFactsCovered : List String → List (ℕ × Fact Confidence) → Type 0
  AllFactsCovered keys ingested =
      All (λ (p : ℕ × Fact Confidence). AllCovered keys p.1.relations) ingested

  push_edge-Extends :
      (memory : ℕ) (time : Option ℕ) (rel : Relation Confidence) (s o : Option ℕ)
      (acc : Edges Confidence)
      → Extends acc.seen (push_edge casefold scope names learned memory time rel s o acc).seen
        × IsCovered (push_edge casefold scope names learned memory time rel s o acc).seen rel s o
  push_edge-Extends memory time rel (some s) (some o) acc =
      let key = edge_key s rel.relation o in
      let P = λ (a : Edges Confidence).
        Extends acc.seen a.seen × IsCovered a.seen rel (some s) (some o) in
      either_by P (s == o) (λ e. ((λ k h. h), inl e))
        (λ apart.
          either_by P (has_key key acc.seen) (λ e. ((λ k h. h), inr e))
            (λ new. (
              λ k h. has_key-append k acc.seen (key ∷ []) ∙ rw h refl,
              inr (has_key-append key acc.seen (key ∷ []) ∙ ground (arith, beq_refl key)),
            )))
  push_edge-Extends memory time rel none o acc = ((λ k h. h), tt)
  push_edge-Extends memory time rel (some s) none acc = ((λ k h. h), tt)

  IsCovered-Extends :
      (keys keys' : List String) (rel : Relation Confidence) (s o : Option ℕ)
      → Extends keys keys'
      → IsCovered keys rel s o
      → IsCovered keys' rel s o
  IsCovered-Extends keys keys' rel (some s) (some o) more (inl same) = inl same
  IsCovered-Extends keys keys' rel (some s) (some o) more (inr there) =
      inr (more (edge_key s rel.relation o) there)
  IsCovered-Extends keys keys' rel none o more c = c
  IsCovered-Extends keys keys' rel (some s) none more c = c

  add_relations-IsGraph :
      (memory : ℕ) (time : Option ℕ) (rels : List (Relation Confidence)) (acc : Edges Confidence)
      → IsGraph acc
      → IsGraph (add_relations casefold scope names learned memory time rels acc)
        × (Extends acc.seen (add_relations casefold scope names learned memory time rels acc).seen
            × AllCovered
                (add_relations casefold scope names learned memory time rels acc).seen
                rels)
  add_relations-IsGraph memory time [] acc g = (g, ((λ k h. h), tt))
  add_relations-IsGraph memory time (rel ∷ rels) acc g =
      let s = get (casefold rel.subject) names in
      let o = get (casefold rel.object) names in
      let acc' = push_edge casefold scope names learned memory time rel s o acc in
      let (more, covered) = push_edge-Extends memory time rel s o acc in
      let (graph, (later, rest)) =
        add_relations-IsGraph memory time rels acc' (push_edge-IsGraph memory time rel s o acc g) in
      let keys = (add_relations casefold scope names learned memory time rels acc').seen in
      (
        graph,
        (
          (λ k h. later k (more k h)),
          (IsCovered-Extends acc'.seen keys rel s o later covered, rest),
        ),
      )

  AllCovered-Extends :
      (keys keys' : List String) (rels : List (Relation Confidence))
      → Extends keys keys'
      → AllCovered keys rels
      → AllCovered keys' rels
  AllCovered-Extends keys keys' [] more c = tt
  AllCovered-Extends keys keys' (rel ∷ rels) more (c, cs) = (
    IsCovered-Extends keys keys' rel (get (casefold rel.subject) names)
        (get (casefold rel.object) names) more c,
    AllCovered-Extends keys keys' rels more cs,
  )

  pub add_facts-IsGraph :
      (ingested : List (ℕ × Fact Confidence)) (acc : Edges Confidence)
      → IsGraph acc
      → IsGraph (add_facts casefold scope names learned ingested acc)
        × (Extends acc.seen (add_facts casefold scope names learned ingested acc).seen
            × AllFactsCovered (add_facts casefold scope names learned ingested acc).seen ingested)
  add_facts-IsGraph [] acc g = (g, ((λ k h. h), tt))
  add_facts-IsGraph ((memory, fact) ∷ ingested) acc g =
      let acc' =
        add_relations casefold scope names learned memory fact.event_time fact.relations acc in
      let (graph, (more, covered)) =
        add_relations-IsGraph memory fact.event_time fact.relations acc g in
      let (graph', (later, rest)) = add_facts-IsGraph ingested acc' graph in
      let keys = (add_facts casefold scope names learned ingested acc').seen in
      (
        graph',
        (
          (λ k h. later k (more k h)),
          (AllCovered-Extends acc'.seen keys fact.relations later covered, rest),
        ),
      )
