-- ===== src/DynProg/Create.antt =====
-- The constructors of paths of `PostgresDynProg` (postbound/opt/_dynprog.py): `_create_sort_path`,
-- `_create_memoize_path` and `_create_materialize_path`; Joins has those of the three joins. The cost model,
-- the predicates of the query and the database are the record `Planner`.
pub mod Joins
use post_bound.Base.{
  ℤ, Bool, true, false, not, ◌&&◌, Option, none, some, List, [], ◌∷◌, Text, text_key, get, Key,
  Result, ok, err, index_error, assertion_error, if◌then◌else◌, ◌>>=◌, some_of,
}
use post_bound.Core.Operators.{
  ScanOperator, JoinOperator, IntermediateOperator, PhysicalOperator, scan_op, join_op,
  intermediate_op, index_scan, index_only_scan, nested_loop_join, hash_join, sort_merge_join, sort,
  memoize, materialize, operator_key, operator_eq,
}
use post_bound.Core.Table.{TableReference, table_key}
use post_bound.Core.Cardinality.{Cardinality, Num, nan, inf, isnan, isinf, card}
use post_bound.Core.Cardinality.Rows.{unknown, repr}
use post_bound.Hints.JoinTree.{outer, inner}
use post_bound.DynProg.Sorting.{SortKey, of_column, merge_with}
use post_bound.DynProg.Paths.{add_path, Plan, Cost, RelOptInfo}
use post_bound.Plans.{Value, is_nan, QueryPlan, Plans, nil, cons, no_subplan, node, Extra}
use post_bound.Plans.Build.{Arguments, Individual, of_operator, init, no_values}
use post_bound.Plans.Updates.{with_estimates}
use post_bound.Plans.Traverse.{find_first_node}
use post_bound.Plans.Tables.{HasTables, tables}

-- What the enumerator is set up with, and what it calls. `C` stands for the references to columns and
-- `E` for the predicates and expressions.
pub record Planner (C E : Type 0) : Type 0 where
  pub scan_ops : List ScanOperator
  pub join_ops : List JoinOperator
  pub enable_materialize : Bool
  pub enable_memoize : Bool
  pub enable_sort : Bool
  -- `_is_pg_cost(self.cost_model)`
  pub is_pg_cost : Bool
  pub hook : Option (RelOptInfo (QueryPlan E) → QueryPlan E → Bool → RelOptInfo (QueryPlan E))
  -- A cost as a number in the fixed unit.
  pub cost_of : Num → Cost
  -- The cost model, for the query and for its star query.
  pub estimate_cost : QueryPlan E → Num
  pub star_cost : QueryPlan E → Num
  pub pg_plan : QueryPlan E → Option (QueryPlan E)
  -- The predicates of the query: a conjunction has its children, another predicate is by itself.
  pub joins_between : List TableReference → List TableReference → Option E
  pub conjuncts : E → List E
  pub join_partners : E → List (C × C)
  pub filters_for : TableReference → Option E
  -- The columns of the query of a table, the indexes on a column, and the numbers of workers for a table
  -- and for an index.
  pub columns_of : TableReference → List C
  pub indexes_on : C → List Text
  pub table_workers : TableReference → ℤ
  pub index_workers : Text → ℤ
  -- The cost of a path for the part of the query over its tables.
  pub fragment_cost : QueryPlan E → Num
  -- The text of a column.
  pub column_text : C → Text
  -- `_pg_cost_estimate`
  pub pg_cost_estimate : QueryPlan E → Cost
  pub table_of : C → Option TableReference
  pub column_expression : C → E

abbrev pub workers_key : Text
workers_key =
    b'e' ∷ b's' ∷ b't' ∷ b'i' ∷ b'm' ∷ b'a' ∷ b't' ∷ b'e' ∷ b'd' ∷ b'_' ∷ b'w' ∷ b'o' ∷ b'r' ∷ b'k'
    ∷ b'e' ∷ b'r' ∷ b's' ∷ []

-- `get` of a container, for an additional entry: the value, if it is neither `None` nor NaN.
unfoldable pub get_entry : Text → Extra → Option Value
unfolding get
get_entry key entries = elim (get key entries) [
  | none ↦ none
  | some none ↦ none
  | some (some v) ↦ if is_nan v then none else some v
]

-- `estimated_workers=workers`
abbrev pub worker_entry : Option Value → Extra
worker_entry workers = (workers_key, workers) ∷ []

module _ {E : Type 0} where
  -- `QueryPlan.get`, for an additional entry.
  unfoldable pub get_value : Text → QueryPlan E → Option Value
  unfolding get_entry
  get_value key t = elim (get_entry key (node t).params.additional) [
    | some value ↦ some value
    | none ↦ elim (get_entry key (node t).estimates.additional_estimates) [
      | some value ↦ some value
      | none ↦ get_entry key (node t).measures.additional_measures
    ]
  ]

  -- The arguments with which the constructors call `QueryPlan`.
  abbrev pub path_arguments :
      PhysicalOperator → Plans E → Individual E → Cardinality → Num → Arguments E
  path_arguments operator children individual cardinality cost = record {
    node_type = of_operator operator;
    operator = none;
    children = children;
    plan_params = none;
    subplan = no_subplan;
    estimates = none;
    measures = none;
    individual = individual;
    estimated_cardinality = some (card cardinality);
    estimated_cost = cost;
    actual_cardinality = some (card (repr unknown));
    execution_time = nan;
    cache_hits = none;
    cache_misses = none;
    subplan_root = no_subplan;
  }

  -- The arguments of a memo or materialize path.
  abbrev pub above_path : IntermediateOperator → QueryPlan E → Option E → Arguments E
  above_path operator path lookup_key =
      path_arguments (intermediate_op operator) (cons path nil)
        (record no_values {
          lookup_key = lookup_key;
          kwargs = worker_entry (get_value workers_key path);
        })
        (node path).estimates.cardinality nan

  -- `path.with_estimates(cost=…)`
  abbrev pub with_cost : Num → QueryPlan E → QueryPlan E
  unfolding with_estimates
  with_cost cost path = with_estimates none (some cost) false path

  -- `sort_keys[0]`
  abbrev pub first_key : QueryPlan E → Result (SortKey E)
  first_key path = elim (node path).params.sort_keys [ [] ↦ err index_error | k ∷ ks ↦ ok k ]

module _ {C E : Type 0} where
  -- A column reference is never equal to an expression (`ColumnReference.__eq__`).
  abbrev pub is_column : E → C → Bool
  is_column member column = false

  -- `SortKey.is_compatible_with` on a column reference.
  unfoldable pub is_compatible_with_column : SortKey E → C → Bool
  is_compatible_with_column k column = some_of (λ member. is_column member column) k.members

  -- `_is_sorted_by`
  unfoldable pub is_sorted_by : QueryPlan E → C → Bool
  unfolding is_compatible_with_column
  is_sorted_by path column = elim (node path).params.sort_keys [
    | [] ↦ false
    | primary_sorting ∷ keys ↦ is_compatible_with_column primary_sorting column
  ]

module _ {C E : Type 0} ⦃key : Key E⦄ ⦃source : HasTables E⦄ (planner : Planner C E) where
  open planner use {estimate_cost, is_pg_cost, pg_plan, joins_between, column_expression}

  -- `_create_sort_path`
  unfoldable pub create_sort_path : QueryPlan E → C → Result (QueryPlan E)
  unfolding init get_value with_estimates
  create_sort_path path sort_key =
      init (
        path_arguments (intermediate_op sort) (cons path nil)
          (record no_values {
            sort_keys = some (of_column (column_expression sort_key) ∷ []);
            kwargs = worker_entry (get_value workers_key path);
          })
          (node path).estimates.cardinality nan)
      >>= λ sort_path. ok (with_cost (estimate_cost sort_path) sort_path)

  -- The cost of a memo or materialize path is left open for the cost model of Postgres.
  abbrev pub with_own_cost : QueryPlan E → QueryPlan E
  with_own_cost path = if is_pg_cost then path else with_cost (estimate_cost path) path

  -- `_create_memoize_path`
  unfoldable pub create_memoize_path : QueryPlan E → C → Result (QueryPlan E)
  unfolding init get_value with_estimates
  create_memoize_path path cache_key =
      init (above_path memoize path (some (column_expression cache_key))) >>= λ memo_path.
      ok (with_own_cost memo_path)

  -- `_create_materialize_path`
  unfoldable pub create_materialize_path : QueryPlan E → Result (QueryPlan E)
  unfolding init get_value with_estimates
  create_materialize_path path =
      init (above_path materialize path none) >>= λ mat_path. ok (with_own_cost mat_path)

  open planner use {hook, cost_of}

  -- What the path lists read of a plan.
  abbrev pub view : Plan E (QueryPlan E)
  view = record {
    estimated_cost = λ t. cost_of (node t).estimates.cost;
    sort_keys = λ t. (node t).params.sort_keys;
  }

  abbrev pub Rel : Type 0
  Rel = RelOptInfo (QueryPlan E)

  -- `self._add_path(rel, path, is_partial=…)`
  abbrev pub added : Bool → QueryPlan E → Rel → Rel
  added is_partial path rel = add_path view hook is_partial path rel
