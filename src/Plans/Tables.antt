-- ===== src/Plans/Tables.antt =====
-- The tables of query plans, and `QueryPlan.lookup`, of postbound/_qep.py.
pub mod Lookup
use post_bound.Base.{
  Bool, true, false, Option, none, some, List, [], ◌∷◌, union, subset, set_eq, to_set, insert, mem,
  if◌then◌else◌, not, Text, is_blank, Result, ok, err,
}
use post_bound.Core.Table.{TableReference, table_key, create_virtual}
use post_bound.Plans.{QueryPlan, plan, Plans, nil, cons, Subplan, no_subplan, subplan, PlanParams}

-- What the plans ask of predicates and expressions.
pub record HasTables (E : Type 0) : Type 0 where
  pub tables_of : E → List TableReference

abbrev pub own_table : Option TableReference → List TableReference
own_table none = []
own_table (some t) = t ∷ []

-- The target table of a subplan; a virtual table with a name that is not blank is created.
abbrev pub target_table : Text → List TableReference
unfolding create_virtual
target_table name = elim (create_virtual name [] [] []) [ ok t ↦ t ∷ [] | err e ↦ [] ]

module _ {E : Type 0} ⦃source : HasTables E⦄ where
  abbrev pub expression_tables : Option E → List TableReference
  expression_tables none = []
  expression_tables (some e) = source.tables_of e

  -- `PlanParams.tables`
  unfoldable pub params_tables : PlanParams E → List TableReference
  unfolding union
  params_tables p =
      union (union (own_table p.base_table) (expression_tables p.filter_predicate))
        (expression_tables p.lookup_key)

  -- `tables` of plans and of subplans.
  unfoldable mutual
    unfolding union params_tables

    pub tables : QueryPlan E → List TableReference
    tables (plan n cs s) = union (union (params_tables n.params) (tables_all cs)) (tables_subplan s)

    pub tables_all : Plans E → List TableReference
    tables_all nil = []
    tables_all (cons c cs) = union (tables c) (tables_all cs)

    pub tables_subplan : Subplan E → List TableReference
    tables_subplan no_subplan = []
    tables_subplan (subplan root name) =
        let of_root = tables root in
        if is_blank name then of_root else union of_root (target_table name)

  -- `lookup`, on the set of tables that are looked for.
  unfoldable mutual
    unfolding set_eq subset tables

    pub lookup_set : List TableReference → QueryPlan E → Option (QueryPlan E)
    lookup_set needle (plan n cs s) =
        let below = lookup_all needle cs in
        let candidates = tables (plan n cs s) in
        if set_eq needle candidates
        then some (plan n cs s)
        else if not (subset needle candidates)
        then none
        else below

    pub lookup_all : List TableReference → Plans E → Option (QueryPlan E)
    lookup_all needle nil = none
    lookup_all needle (cons c cs) =
        let rest = lookup_all needle cs in
        elim (lookup_set needle c) [ some result ↦ some result | none ↦ rest ]

  unfoldable pub lookup : List TableReference → QueryPlan E → Option (QueryPlan E)
  unfolding to_set lookup_set
  lookup needle t = lookup_set (to_set needle) t

  -- `__contains__` with tables.
  unfoldable pub contains : List TableReference → QueryPlan E → Bool
  unfolding subset to_set tables
  contains key t = subset (to_set key) (tables t)
