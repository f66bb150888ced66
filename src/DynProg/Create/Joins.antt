-- ===== src/DynProg/Create/Joins.antt =====
-- The constructors of the paths of the three joins, of postbound/opt/_dynprog.py.
use post_bound.Base.{
  Bool, true, false, not, ◌&&◌, Option, none, some, List, [], ◌∷◌, text_key, Key, Result, ok, err,
  assertion_error, if◌then◌else◌, ◌>>=◌,
}
use post_bound.Core.Operators.{
  JoinOperator, PhysicalOperator, scan_op, join_op, intermediate_op, index_scan, index_only_scan,
  nested_loop_join, hash_join, sort_merge_join, memoize, materialize, operator_key, operator_eq,
}
use post_bound.Core.Table.{table_key}
use post_bound.Core.Cardinality.{Num, nan, inf, isinf}
use post_bound.Hints.JoinTree.{outer, inner}
use post_bound.DynProg.Sorting.{SortKey, merge_with}
use post_bound.DynProg.Paths.{RelOptInfo}
use post_bound.Plans.{Value, QueryPlan, nil, cons, node}
use post_bound.Plans.Build.{Arguments, init, no_values}
use post_bound.Plans.Updates.{with_estimates}
use post_bound.Plans.Traverse.{find_first_node}
use post_bound.Plans.Tables.{HasTables, tables}
use post_bound.DynProg.Create.{
  Planner, get_value, workers_key, worker_entry, path_arguments, with_cost, first_key,
}

module _ {C E : Type 0} ⦃key : Key E⦄ ⦃source : HasTables E⦄ (planner : Planner C E) where
  open planner use {estimate_cost, is_pg_cost, pg_plan, joins_between}

  -- The arguments of a join of two paths.
  abbrev pub join_arguments :
      JoinOperator
      → RelOptInfo (QueryPlan E)
      → QueryPlan E
      → QueryPlan E
      → Option (List (SortKey E))
      → Option E
      → Option Value
      → Num
      → Arguments E
  join_arguments operator join_rel outer_path inner_path keys join_condition workers cost =
      path_arguments (join_op operator) (cons outer_path (cons inner_path nil))
        (record no_values {
          sort_keys = keys;
          filter_predicate = join_condition;
          kwargs = worker_entry workers;
        })
        join_rel.cardinality cost

  -- `_create_hashjoin_path`
  unfoldable pub create_hashjoin_path :
      RelOptInfo (QueryPlan E) → QueryPlan E → QueryPlan E → Result (QueryPlan E)
  unfolding init get_value with_estimates tables
  create_hashjoin_path join_rel outer_path inner_path =
      init (
        join_arguments hash_join join_rel outer_path inner_path none
          (joins_between (tables outer_path) (tables inner_path)) (get_value workers_key outer_path)
          nan)
      >>= λ hash_path. ok (with_cost (estimate_cost hash_path) hash_path)

  -- `_create_mergejoin_path`
  unfoldable pub create_mergejoin_path :
      RelOptInfo (QueryPlan E) → QueryPlan E → QueryPlan E → Result (QueryPlan E)
  unfolding init get_value with_estimates tables merge_with
  create_mergejoin_path join_rel outer_path inner_path = first_key outer_path >>= λ outer_key.
      first_key inner_path >>= λ inner_key. merge_with outer_key inner_key >>= λ merge_key.
      init (
        join_arguments sort_merge_join join_rel outer_path inner_path (some (merge_key ∷ []))
          (joins_between (tables outer_path) (tables inner_path)) (get_value workers_key outer_path)
          nan)
      >>= λ merge_path. ok (with_cost (estimate_cost merge_path) merge_path)

  -- `inner_path.operator in weird_ops`
  abbrev pub is_weird : Option PhysicalOperator → Bool
  is_weird (some (scan_op index_scan)) = true
  is_weird (some (scan_op index_only_scan)) = true
  is_weird (some (intermediate_op memoize)) = true
  is_weird (some (intermediate_op materialize)) = true
  is_weird _ = false

  abbrev pub same_operator : Option PhysicalOperator → Option PhysicalOperator → Bool
  same_operator none none = true
  same_operator (some a) (some b) = operator_eq a b
  same_operator _ _ = false

  abbrev pub found_cost : Option (QueryPlan E) → Num
  found_cost none = inf
  found_cost (some weird_node) = (node weird_node).estimates.cost

  -- The costs that are read off the plan of Postgres, and the join that is built with them.
  unfoldable pub from_native_plan :
      RelOptInfo (QueryPlan E)
      → QueryPlan E
      → QueryPlan E
      → Option E
      → QueryPlan E
      → Result (QueryPlan E)
  unfolding init get_value with_estimates find_first_node
  from_native_plan join_rel outer_path inner_path join_condition native_plan =
      find_first_node (λ n. same_operator (node n).operator (some (join_op nested_loop_join))) outer
        native_plan
      >>= λ nlj_node. elim nlj_node [
        | none ↦ err assertion_error
        | some nlj ↦
            (find_first_node (λ n. same_operator (node n).operator (node inner_path).operator) inner
                native_plan
              >>= λ weird_node.
                  let inner_cost = found_cost weird_node in
                  let nlj_cost =
                    if not (isinf inner_cost) then (node nlj).estimates.cost else inf in
                  let updated_inner = with_cost inner_cost inner_path in
                  init (
                    join_arguments nested_loop_join join_rel outer_path updated_inner none
                      join_condition (get_value workers_key outer_path) nlj_cost))
      ]

  -- The cost of a nested-loop join, which is asked of Postgres where the inner path is of an operator
  -- that can be rescanned.
  unfoldable pub priced_nestloop :
      RelOptInfo (QueryPlan E)
      → QueryPlan E
      → QueryPlan E
      → Option E
      → QueryPlan E
      → Result (QueryPlan E)
  unfolding with_estimates from_native_plan
  priced_nestloop join_rel outer_path inner_path join_condition nlj_path =
      let estimated = ok (with_cost (estimate_cost nlj_path) nlj_path) in
      if is_pg_cost && is_weird (node inner_path).operator
      then elim (pg_plan nlj_path) [
        | none ↦ estimated
        | some native_plan ↦
            from_native_plan join_rel outer_path inner_path join_condition native_plan
      ]
      else estimated

  -- `_create_nestloop_path`
  unfoldable pub create_nestloop_path :
      RelOptInfo (QueryPlan E) → QueryPlan E → QueryPlan E → Result (QueryPlan E)
  unfolding init get_value tables priced_nestloop
  create_nestloop_path join_rel outer_path inner_path =
      let join_condition = joins_between (tables outer_path) (tables inner_path) in
      init (
        join_arguments nested_loop_join join_rel outer_path inner_path none join_condition
          (get_value workers_key outer_path) nan)
      >>= λ nlj_path. priced_nestloop join_rel outer_path inner_path join_condition nlj_path
