-- ===== src/Replica/Plan/Shape.antt =====
-- The text of a query depends on the shape of the interest alone: no value reaches it.

use loomabase.Base.{
  ℕ, ◌+◌, String, ◌≡◌, refl, sym, ap, ◌∙◌, List, [], ◌∷◌, ◌++◌, map, length, length-append, arith,
}
use loomabase.Error.{ok, then-eq-ok, ok-injective}
use loomabase.Value
use loomabase.Value.{CrdtValue}
use loomabase.Schema.{TableDef}
use loomabase.Replica.{
  ReplicaPredicate, id_equals, id_prefix, column_equals, ReplicaInterest, validate_interest,
}
use loomabase.Replica.Plan.{QueryPlan, clause, parameter, plan_predicates, postgres_plan}

-- The same kind of predicate, on the same column.
abbrev pub SameShape : ReplicaPredicate → ReplicaPredicate → Type 0
SameShape (id_equals a) (id_equals b) = Unit
SameShape (id_prefix a) (id_prefix b) = Unit
SameShape (column_equals c a) (column_equals d b) = c ≡ d
SameShape _ _ = ⊥

abbrev pub SameShapes : List ReplicaPredicate → List ReplicaPredicate → Type 0
SameShapes [] [] = Unit
SameShapes (p ∷ ps) (q ∷ qs) = SameShape p q × SameShapes ps qs
SameShapes _ _ = ⊥

clause-shape :
    (p q : ReplicaPredicate) (index : ℕ) → SameShape p q → clause p index ≡ clause q index
unfolding clause
clause-shape (id_equals a) (id_equals b) index s = refl
clause-shape (id_prefix a) (id_prefix b) index s = refl
clause-shape (column_equals c a) (column_equals d b) index s = rw s refl
clause-shape (id_equals a) (id_prefix b) index s = absurd s
clause-shape (id_equals a) (column_equals d b) index s = absurd s
clause-shape (id_prefix a) (id_equals b) index s = absurd s
clause-shape (id_prefix a) (column_equals d b) index s = absurd s
clause-shape (column_equals c a) (id_equals b) index s = absurd s
clause-shape (column_equals c a) (id_prefix b) index s = absurd s

plan_predicates-shape :
    (ps qs : List ReplicaPredicate) (clauses : List String) (as_ bs : List CrdtValue)
    → SameShapes ps qs
    → length as_ ≡ length bs
    → (plan_predicates ps clauses as_).0 ≡ (plan_predicates qs clauses bs).0
unfolding plan_predicates
plan_predicates-shape [] [] clauses as_ bs s e = refl
plan_predicates-shape (p ∷ ps) (q ∷ qs) clauses as_ bs (s, ss) e =
    let grown = length-append as_ (parameter p ∷ []) in
    let grown' = length-append bs (parameter q ∷ []) in
    let same : clause p (length as_ + 1) ≡ clause q (length bs + 1) =
      ap (λ n. clause p (n + 1)) e ∙ clause-shape p q (length bs + 1) s in
    ap (λ c. (plan_predicates ps (clauses ++ (c ∷ [])) (as_ ++ (parameter p ∷ []))).0) same
    ∙ plan_predicates-shape ps qs (clauses ++ (clause q (length bs + 1) ∷ []))
        (as_ ++ (parameter p ∷ [])) (bs ++ (parameter q ∷ [])) ss (omega (arith, grown, grown'))
plan_predicates-shape [] (q ∷ qs) clauses as_ bs s e = absurd s
plan_predicates-shape (p ∷ ps) [] clauses as_ bs s e = absurd s

plan_predicates-parameters :
    (ps : List ReplicaPredicate) (clauses : List String) (values : List CrdtValue)
    → (plan_predicates ps clauses values).1 ≡ values ++ map parameter ps
unfolding plan_predicates
plan_predicates-parameters [] clauses values = sym (append_nil values)
  where
    append_nil : (xs : List CrdtValue) → xs ++ [] ≡ xs
    append_nil [] = refl
    append_nil (x ∷ xs) = ap (◌∷◌ x) (append_nil xs)
plan_predicates-parameters (p ∷ ps) clauses values =
    plan_predicates-parameters ps (clauses ++ (clause p (length values + 1) ∷ []))
      (values ++ (parameter p ∷ []))
    ∙ assoc values
  where
    assoc :
        (xs : List CrdtValue)
        → (xs ++ (parameter p ∷ [])) ++ map parameter ps ≡ xs ++ (parameter p ∷ map parameter ps)
    assoc [] = refl
    assoc (x ∷ xs) = ap (◌∷◌ x) (assoc xs)

-- Two interests with the same predicates up to their values, and with one limit, give the same
-- query text for any tenants; the values reach the query as parameters only, after the tenant.
pub postgres_plan_shape :
    (i j : ReplicaInterest) (table : TableDef) (tenant other : String) (plan plan' : QueryPlan)
    → SameShapes i.predicates j.predicates
    → i.limit ≡ j.limit
    → postgres_plan i table tenant ≡ ok plan
    → postgres_plan j table other ≡ ok plan'
    → (plan.sql ≡ plan'.sql)
      × (plan.parameters ≡ Value.text tenant ∷ map parameter i.predicates)
      × (plan'.parameters ≡ Value.text other ∷ map parameter j.predicates)
unfolding postgres_plan
postgres_plan_shape i j table tenant other plan plan' s limits h h' =
    let (_, k) = then-eq-ok (validate_interest i table) _ h in
    let (_, k') = then-eq-ok (validate_interest j table) _ h' in
    let e = ok-injective k in
    let e' = ok-injective k' in
    let start : List String = "tenant_id = $1" ∷ "deleted = FALSE" ∷ [] in
    let clauses =
      plan_predicates-shape i.predicates j.predicates start (Value.text tenant ∷ [])
        (Value.text other ∷ []) s (omega arith) in
    let params = plan_predicates-parameters i.predicates start (Value.text tenant ∷ []) in
    let params' = plan_predicates-parameters j.predicates start (Value.text other ∷ []) in
    rw (← e, ← e') (rw (clauses, limits) refl, params, params')
