-- ===== src/Pipeline/Edges.antt =====
-- apps/ingestion/src/ingestion/edges.ts: the edges of the facts of a batch. The case folding of names
-- and the type of confidences are parameters; times are milliseconds. The insert gives the rows new
-- ids in their order.
use Prim.Native.String.{◌++◌ as concat_strings}
use hono_crosmos.Base.{
  ℕ, suc, ◌==◌, ◌===◌, string_eq, String, Bool, false, ◌||◌, Option, none, some, List, [], ◌∷◌,
  ◌++◌, if◌then◌else◌,
}
use hono_crosmos.Base.Dict.{Dict, get}
use hono_crosmos.Base.Decimal.{to_string}
use hono_crosmos.Ingestion.Sources.{TenantScope}

pub record Relation (Confidence : Type 0) : Type 0 where
  pub subject : String
  pub relation : String
  pub object : String
  pub valid_from : Option ℕ
  pub confidence : Confidence

pub record Fact (Confidence : Type 0) : Type 0 where
  pub relations : List (Relation Confidence)
  pub event_time : Option ℕ

pub record EdgeRow (Confidence : Type 0) : Type 0 where
  pub org_id : ℕ
  pub space_id : ℕ
  pub source_entity_id : ℕ
  pub target_entity_id : ℕ
  pub relation_type : String
  pub memory_id : ℕ
  pub valid_from : Option ℕ
  pub confidence : Confidence
  pub recorded_at : ℕ

pub record IngestedEdge : Type 0 where
  pub edge_id : ℕ
  pub source_entity_id : ℕ
  pub target_entity_id : ℕ
  pub relation_type : String
  pub memory_id : ℕ

abbrev pub has_key : String → List String → Bool
has_key key [] = false
has_key key (k ∷ seen) = k === key || has_key key seen

abbrev pub edge_key : ℕ → String → ℕ → String
edge_key subject relation object =
    concat_strings (to_string subject)
      (concat_strings "|" (concat_strings relation (concat_strings "|" (to_string object))))

-- `a ?? b`.
abbrev pub or_else : Option ℕ → Option ℕ → Option ℕ
or_else none b = b
or_else (some a) b = some a

-- The loop's `rows` and `seen`.
pub record Edges (Confidence : Type 0) : Type 0 where
  pub rows : List (EdgeRow Confidence)
  pub seen : List String

module _ {Confidence : Type 0} (casefold : String → String) (scope : TenantScope)
    (names : Dict String ℕ) (learned : ℕ) where
  abbrev pub edge_row : ℕ → Option ℕ → Relation Confidence → ℕ → ℕ → EdgeRow Confidence
  edge_row memory time rel subject object = record {
    org_id = scope.org_id;
    space_id = scope.space_id;
    source_entity_id = subject;
    target_entity_id = object;
    relation_type = rel.relation;
    memory_id = memory;
    valid_from = or_else rel.valid_from time;
    confidence = rel.confidence;
    recorded_at = learned;
  }

  abbrev pub push_edge :
      ℕ → Option ℕ → Relation Confidence → Option ℕ → Option ℕ → Edges Confidence → Edges Confidence
  push_edge memory time rel (some subject) (some object) acc =
      if subject == object
      then acc
      else if has_key (edge_key subject rel.relation object) acc.seen
      then acc
      else record {
        rows = acc.rows ++ edge_row memory time rel subject object ∷ [];
        seen = acc.seen ++ edge_key subject rel.relation object ∷ [];
      }
  push_edge memory time rel none object acc = acc
  push_edge memory time rel (some subject) none acc = acc

  abbrev pub add_relations :
      ℕ → Option ℕ → List (Relation Confidence) → Edges Confidence → Edges Confidence
  add_relations memory time [] acc = acc
  add_relations memory time (rel ∷ rels) acc = add_relations memory time rels (
      push_edge memory time rel (get (casefold rel.subject) names) (get (casefold rel.object) names)
        acc)

  abbrev pub add_facts : List (ℕ × Fact Confidence) → Edges Confidence → Edges Confidence
  add_facts [] acc = acc
  add_facts ((memory, fact) ∷ ingested) acc =
      add_facts ingested (add_relations memory fact.event_time fact.relations acc)

  abbrev pub numbered_edges : ℕ → List (EdgeRow Confidence) → List IngestedEdge
  numbered_edges next [] = []
  numbered_edges next (e ∷ rows) =
      record {
        edge_id = next;
        source_entity_id = e.source_entity_id;
        target_entity_id = e.target_entity_id;
        relation_type = e.relation_type;
        memory_id = e.memory_id;
      }
      ∷ numbered_edges (suc next) rows

  -- The rows that are inserted, after those of the table, and what is returned for them.
  unfoldable pub create_edges_from_facts :
      ℕ
      → List (ℕ × Fact Confidence)
      → List (EdgeRow Confidence)
      → List IngestedEdge × List (EdgeRow Confidence)
  create_edges_from_facts next ingested table =
      let acc = add_facts ingested (record { rows = []; seen = [] }) in
      (numbered_edges next acc.rows, table ++ acc.rows)
