-- ===== src/DynProg/JoinPaths/Tables/Kept.antt =====
-- The tables of the paths that the constructors of postbound/opt/_dynprog.py build on others.
use post_bound.Base.{
  true, ◌≡◌, refl, Option, none, some, List, Key, Result, ok, ◌>>=◌, OnOk, OnOk-any, OnOk-bind, mem,
  ◌&&◌, ◌||◌, Bool-cases, Option-cases, inl, inr,
}
use post_bound.Core.Operators.{
  JoinOperator, IntermediateOperator, join_op, nested_loop_join, hash_join, memoize, materialize,
}
use post_bound.Core.Table.{TableReference, table_key}
use post_bound.Core.Cardinality.{Num, nan}
use post_bound.DynProg.Create.{Rel}
use post_bound.DynProg.Create.Joins.{
  create_hashjoin_path, create_nestloop_path, from_native_plan, join_arguments, same_operator,
  found_cost, is_weird, priced_nestloop,
}
use post_bound.DynProg.Create.{
  Planner, create_memoize_path, create_materialize_path, with_cost, with_own_cost, above_path,
  get_value, workers_key,
}
use post_bound.Plans.{Value, QueryPlan, node}
use post_bound.Plans.Build.{
  Arguments, init, init_params, init_estimates, init_measures, cardinality_of,
}
use post_bound.Plans.Traverse.{find_first_node}
use post_bound.Hints.JoinTree.{outer, inner}
use post_bound.Plans.Tables.{HasTables, tables, expression_tables}
use post_bound.DynProg.JoinPaths.Tables.{
  made, IsFor, costed-IsFor, above_one, above_two, NamesTables,
}

module _ {C E : Type 0} ⦃key : Key E⦄ ⦃source : HasTables E⦄ (planner : Planner C E)
    (conditions : NamesTables planner) where
  open planner use {joins_between, column_expression, table_of, hook, pg_plan, is_pg_cost}

  own_cost-IsFor :
      (ys : List TableReference) (path : QueryPlan E)
      → IsFor ys path
      → IsFor ys (with_own_cost planner path)
  own_cost-IsFor ys path h = elim (Bool-cases is_pg_cost) [
    | inl native ↦ rw native h
    | inr other ↦ rw other (costed-IsFor ys (planner.estimate_cost path) path h)
  ]

  -- The paths that a constructor returns, once their cost is set.
  costed :
      (zs : List TableReference) (r : Result (QueryPlan E))
      → OnOk (IsFor zs) r
      → OnOk (IsFor zs) (r >>= λ path. ok (with_cost (planner.estimate_cost path) path))
  costed zs r h =
      OnOk-bind (IsFor zs) (IsFor zs) r _ h
        (λ path g. costed-IsFor zs (planner.estimate_cost path) path g)

  own_costed :
      (zs : List TableReference) (r : Result (QueryPlan E))
      → OnOk (IsFor zs) r
      → OnOk (IsFor zs) (r >>= λ path. ok (with_own_cost planner path))
  own_costed zs r h = OnOk-bind (IsFor zs) (IsFor zs) r _ h (λ path g. own_cost-IsFor zs path g)

  condition :
      (xs ys : List TableReference) (o i : QueryPlan E) (k : TableReference)
      → IsFor xs o
      → IsFor ys i
      → mem k (expression_tables (joins_between (tables o) (tables i))) ≡ true
      → (mem k xs || mem k ys) ≡ true
  unfolding mem
  condition xs ys o i k ho hi h = elim (Option-cases (joins_between (tables o) (tables i))) [
    | inl missing ↦ absurd (cc)
    | inr (e, found) ↦
        rw (ho k, hi k) at (conditions (tables o) (tables i) e k found (rw found at h))
  ]

  init-one :
      (ys : List TableReference) (operator : IntermediateOperator) (path : QueryPlan E)
      (lookup_key : Option E)
      → ((k : TableReference) → mem k (expression_tables lookup_key) ≡ true → mem k ys ≡ true)
      → IsFor ys path
      → OnOk (IsFor ys) (init (above_path operator path lookup_key))
  unfolding made init init_params init_estimates init_measures cardinality_of
  init-one ys operator path lookup_key covered h =
      above_one ys (made (above_path operator path lookup_key)) path refl refl covered h

  pub memoize-IsFor :
      (ys : List TableReference) (path : QueryPlan E) (cache_key : C)
      → ((k : TableReference)
          → mem k (source.tables_of (column_expression cache_key)) ≡ true
          → mem k ys ≡ true)
      → IsFor ys path
      → OnOk (IsFor ys) (create_memoize_path planner path cache_key)
  unfolding create_memoize_path
  memoize-IsFor ys path cache_key covered h =
      own_costed ys (init (above_path memoize path (some (column_expression cache_key))))
        (init-one ys memoize path (some (column_expression cache_key)) covered h)

  pub materialize-IsFor :
      (ys : List TableReference) (path : QueryPlan E)
      → IsFor ys path
      → OnOk (IsFor ys) (create_materialize_path planner path)
  unfolding create_materialize_path mem
  materialize-IsFor ys path h =
      own_costed ys (init (above_path materialize path none))
        (init-one ys materialize path none (λ k c. cc) h)

  module _ (xs ys zs : List TableReference)
      (split : (k : TableReference) → mem k zs ≡ (mem k xs || mem k ys)) where
    join-IsFor :
        (operator : JoinOperator) (rel : Rel planner) (o i : QueryPlan E) (e : Option E)
        (workers : Option Value) (cost : Num)
        → ((k : TableReference)
            → mem k (expression_tables e) ≡ true
            → (mem k xs || mem k ys) ≡ true)
        → IsFor xs o
        → IsFor ys i
        → OnOk (IsFor zs) (init (join_arguments planner operator rel o i none e workers cost))
    unfolding made init init_params init_estimates init_measures cardinality_of
    join-IsFor operator rel o i e workers cost covered ho hi =
        above_two xs ys zs (made (join_arguments planner operator rel o i none e workers cost)) o i
          refl refl covered split ho hi

    abbrev plain_join : JoinOperator → Rel planner → QueryPlan E → QueryPlan E → Arguments E
    plain_join operator rel o i =
        join_arguments planner operator rel o i none (joins_between (tables o) (tables i))
          (get_value workers_key o) nan

    pub hashjoin-IsFor :
        (rel : Rel planner) (o i : QueryPlan E)
        → IsFor xs o
        → IsFor ys i
        → OnOk (IsFor zs) (create_hashjoin_path planner rel o i)
    unfolding create_hashjoin_path
    hashjoin-IsFor rel o i ho hi = costed zs (init (plain_join hash_join rel o i)) (
        join-IsFor hash_join rel o i _ (get_value workers_key o) nan
          (λ k. condition xs ys o i k ho hi) ho hi)

    native-IsFor :
        (rel : Rel planner) (o i native_plan : QueryPlan E)
        → IsFor xs o
        → IsFor ys i
        → OnOk
            (IsFor zs)
            (from_native_plan planner rel o i (joins_between (tables o) (tables i)) native_plan)
    unfolding from_native_plan
    native-IsFor rel o i native_plan ho hi =
        OnOk-bind (λ found. Unit {0}) (IsFor zs)
          (find_first_node
            (λ n. same_operator planner (node n).operator (some (join_op nested_loop_join))) outer
            native_plan)
          _ (OnOk-any _)
          (λ nlj_node t. elim (Option-cases nlj_node) [
            | inl missing ↦ rw missing tt
            | inr (nlj, found) ↦ rw found (
                OnOk-bind (λ found. Unit {0}) (IsFor zs)
                  (find_first_node (λ n. same_operator planner (node n).operator (node i).operator)
                    inner native_plan)
                  _ (OnOk-any _)
                  (λ weird_node u.
                    let cost = found_cost planner weird_node in
                    join-IsFor nested_loop_join rel o (with_cost cost i) _ (get_value workers_key o)
                      _ (λ k. condition xs ys o i k ho hi) ho (costed-IsFor ys cost i hi)))
          ])

    priced :
        (rel : Rel planner) (o i path : QueryPlan E)
        → IsFor xs o
        → IsFor ys i
        → IsFor zs path
        → OnOk
            (IsFor zs)
            (priced_nestloop planner rel o i (joins_between (tables o) (tables i)) path)
    unfolding priced_nestloop
    priced rel o i path ho hi g =
        elim (Bool-cases (is_pg_cost && is_weird planner (node i).operator)) [
          | inl native ↦ elim (Option-cases (pg_plan path)) [
            | inl missing ↦
                rw (native, missing) (costed-IsFor zs (planner.estimate_cost path) path g)
            | inr (native_plan, found) ↦ rw (native, found) (native-IsFor rel o i native_plan ho hi)
          ]
          | inr plain ↦ rw plain (costed-IsFor zs (planner.estimate_cost path) path g)
        ]

    pub nestloop-IsFor :
        (rel : Rel planner) (o i : QueryPlan E)
        → IsFor xs o
        → IsFor ys i
        → OnOk (IsFor zs) (create_nestloop_path planner rel o i)
    unfolding create_nestloop_path
    nestloop-IsFor rel o i ho hi =
        OnOk-bind (IsFor zs) (IsFor zs) (init (plain_join nested_loop_join rel o i)) _
          (join-IsFor nested_loop_join rel o i _ (get_value workers_key o) nan
            (λ k. condition xs ys o i k ho hi) ho hi)
          (λ path g. priced rel o i path ho hi g)
