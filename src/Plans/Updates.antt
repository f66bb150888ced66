-- ===== src/Plans/Updates.antt =====
-- The operations of `QueryPlan` of postbound/_qep.py that return a plan with other estimates, measures
-- or workers.
pub mod Kept
pub mod Equal
use post_bound.Base.{
  Bool, true, false, same, text_key, Option, none, some, [], if◌then◌else◌, not, ◌&&◌, ◌||◌, ℤ,
  Text, Result, ok,
}
use post_bound.Core.Table.{TableReference, table_key}
use post_bound.Core.Cardinality.{Cardinality, Num, nan, isnan, get}
use post_bound.Core.Cardinality.Rows.{unknown, repr}
use post_bound.Plans.{
  QueryPlan, plan, Plans, nil, cons, Subplan, no_subplan, subplan, Node, PlanParams, PlanEstimates,
  PlanMeasures, node,
}

-- `PlanMeasures()`
abbrev pub no_measures : PlanMeasures
no_measures = record {
  cardinality = repr unknown;
  execution_time = nan;
  cache_hits = none;
  cache_misses = none;
  additional_measures = [];
}

abbrev pub given {ℓ} : {A : Type ℓ} → Option A → A → A
given none old = old
given (some new) old = new

-- `with_card_as_cost`: the estimates of one node.
abbrev pub card_as_cost : Bool → PlanEstimates → PlanEstimates
unfolding get
card_as_cost ignore_nan e = record e {
  cost = if ignore_nan && isnan (get e.cardinality) then e.cost else get e.cardinality;
}

-- `with_runtime_as_cost`: the estimates of one node.
abbrev pub runtime_as_cost : Bool → PlanMeasures → PlanEstimates → PlanEstimates
runtime_as_cost ignore_nan m e = record e {
  cost = if ignore_nan && isnan m.execution_time then e.cost else m.execution_time;
}

abbrev pub same_table : Option TableReference → Option TableReference → Bool
same_table none none = true
same_table (some t) (some u) = same t u
same_table _ _ = false

module _ {E : Type 0} where
  -- `parallelize`
  unfoldable pub parallelize : ℤ → QueryPlan E → QueryPlan E
  parallelize workers (plan n cs s) =
      plan (record n { params = record (n.params) { parallel_workers = workers } }) cs s

  -- `with_estimates`; the additional estimates are not passed on.
  unfoldable pub with_estimates : Option Cardinality → Option Num → Bool → QueryPlan E → QueryPlan E
  with_estimates cardinality cost keep_measures (plan n cs s) =
      plan
        (record n {
          estimates = record {
            cardinality = given cardinality n.estimates.cardinality;
            cost = given cost n.estimates.cost;
            additional_estimates = [];
          };
          measures = if keep_measures then n.measures else no_measures;
        })
        cs s

  -- `with_actual_card`: the estimates of one node; `cost_estimator` is asked for the old plan.
  abbrev pub actual_estimates :
      Option (QueryPlan E → Cardinality → Num) → Bool → QueryPlan E → PlanEstimates
  unfolding get
  actual_estimates cost_estimator ignore_nan (plan n cs s) =
      let actual = n.measures.cardinality in
      if actual.is_valid
      then (let updated_cardinality =
            if ignore_nan && isnan (get actual) then n.estimates.cardinality else actual in
          record n.estimates {
            cardinality = updated_cardinality;
            cost = elim cost_estimator [
              | none ↦ nan
              | some estimator ↦ estimator (plan n cs s) updated_cardinality
            ];
          })
      else n.estimates

  -- The recursion that the three operations share: each node of the plan and of its subplans gets
  -- new contents, which are computed from the old node.
  unfoldable mutual
    pub update_nodes : (QueryPlan E → Node E) → QueryPlan E → QueryPlan E
    update_nodes updated (plan n cs s) =
        plan (updated (plan n cs s)) (update_all updated cs) (update_subplan updated s)

    pub update_all : (QueryPlan E → Node E) → Plans E → Plans E
    update_all updated nil = nil
    update_all updated (cons c cs) = cons (update_nodes updated c) (update_all updated cs)

    pub update_subplan : (QueryPlan E → Node E) → Subplan E → Subplan E
    update_subplan updated no_subplan = no_subplan
    update_subplan updated (subplan root name) = subplan (update_nodes updated root) name

  -- `with_actual_card`
  unfoldable pub with_actual_card :
      Option (QueryPlan E → Cardinality → Num) → Bool → QueryPlan E → QueryPlan E
  unfolding update_nodes
  with_actual_card cost_estimator ignore_nan = update_nodes (λ t. record (node t) {
    estimates = actual_estimates cost_estimator ignore_nan t;
    measures = no_measures;
  })

  -- `with_card_as_cost`
  unfoldable pub with_card_as_cost : Bool → QueryPlan E → QueryPlan E
  unfolding update_nodes
  with_card_as_cost ignore_nan =
      update_nodes (λ t. record (node t) { estimates = card_as_cost ignore_nan (node t).estimates })

  -- `with_runtime_as_cost`
  unfoldable pub with_runtime_as_cost : Bool → QueryPlan E → QueryPlan E
  unfolding update_nodes
  with_runtime_as_cost ignore_nan = update_nodes (λ t. record (node t) {
    estimates = runtime_as_cost ignore_nan (node t).measures (node t).estimates;
  })

  -- `__eq__`, on the names of the operators, the base tables and the children.
  unfoldable mutual
    pub plan_eq : QueryPlan E → QueryPlan E → Bool
    plan_eq (plan n cs s) (plan m ds r) =
        same n.node_type m.node_type
        && same_table n.params.base_table m.params.base_table
        && plans_eq cs ds

    pub plans_eq : Plans E → Plans E → Bool
    plans_eq nil nil = true
    plans_eq (cons c cs) (cons d ds) = plan_eq c d && plans_eq cs ds
    plans_eq _ _ = false
