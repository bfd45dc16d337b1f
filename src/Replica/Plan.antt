-- ===== src/Replica/Plan.antt =====
-- `ReplicaInterest::postgres_plan` (src/replica.rs): the query for an interest, with placeholders.
pub mod Shape
use Prim.Native.String.{◌++◌ as ◌<>◌}
use loomabase.Base.{ℕ, ◌+◌, String, List, [], ◌∷◌, ◌++◌, length}
use loomabase.Base.Decimal.{decimal}
use loomabase.Error.{Result, ok, ◌>>◌}
use loomabase.Value
use loomabase.Value.{CrdtValue}
use loomabase.Schema.{TableDef}
use loomabase.Replica.{
  ReplicaPredicate, id_equals, id_prefix, column_equals, ReplicaInterest, validate_interest,
}

pub record QueryPlan : Type 0 where
  pub sql : String
  pub parameters : List CrdtValue

-- The clause of a predicate, with the placeholder `$index`.
unfoldable pub clause : ReplicaPredicate → ℕ → String
clause (id_equals value) index = "id = $" <> decimal index
clause (id_prefix value) index = "starts_with(id, $" <> (decimal index <> ")")
clause (column_equals column value) index = column <> (" = $" <> decimal index)

unfoldable pub parameter : ReplicaPredicate → CrdtValue
parameter (id_equals value) = Value.text value
parameter (id_prefix value) = Value.text value
parameter (column_equals column value) = value

-- The loop over the predicates: `clauses` and `parameters` grow together.
unfoldable pub plan_predicates :
    List ReplicaPredicate → List String → List CrdtValue → List String × List CrdtValue
unfolding clause parameter
plan_predicates [] clauses parameters = (clauses, parameters)
plan_predicates (p ∷ ps) clauses parameters =
    plan_predicates ps (clauses ++ (clause p (length parameters + 1) ∷ []))
      (parameters ++ (parameter p ∷ []))

-- `clauses.join(" AND ")`
unfoldable pub join_and : List String → String
join_and [] = ""
join_and (c ∷ []) = c
join_and (c ∷ d ∷ cs) = c <> (" AND " <> join_and (d ∷ cs))

abbrev select : TableDef → List String → ℕ → String
select table clauses limit =
    "SELECT * FROM "
    <> (table.name <> (" WHERE " <> (join_and clauses <> (" ORDER BY id LIMIT " <> decimal limit))))

unfoldable pub postgres_plan : ReplicaInterest → TableDef → String → Result QueryPlan
unfolding plan_predicates join_and
postgres_plan interest table tenant_id = do
  validate_interest interest table
  let planned =
      plan_predicates interest.predicates ("tenant_id = $1" ∷ "deleted = FALSE" ∷ [])
        (Value.text tenant_id ∷ [])
  ok (record { sql = select table planned.0 interest.limit; parameters = planned.1 })
