-- ===== src/DynProg/Execution.antt =====
-- `PostgresDynProg.generate_execution_plan` (postbound/opt/_dynprog.py), and `argmin` of
-- postbound/util/dicts.py on costs.
pub mod Tables
mod Planners
mod Examples
use post_bound.Base.{
  Bool, Key, List, [], ◌∷◌, ◌++◌, Option, none, some, Dict, put, Result, ok, err, value_error,
  assertion_error, ◌>>=◌, if◌then◌else◌, set_key,
}
use post_bound.Core.Table.{TableReference, table_key}
use post_bound.Core.Cardinality.{Cardinality}
use post_bound.DynProg.Paths.{Cost, cheaper, RelOptInfo}
use post_bound.DynProg.Search.{init_base_rels}
use post_bound.DynProg.Create.{Planner, Rel, view}
use post_bound.DynProg.ScanPaths.{set_base_rel_pathlists, generate_pseudo_gather_paths}
use post_bound.DynProg.Enumerate.{quiet, search_joins, construction}
use post_bound.Plans.{QueryPlan}
use post_bound.Plans.Updates.{plan_eq}
use post_bound.Plans.Updates.Equal.{plan_eq_refl, plan_eq_lem}
use post_bound.Plans.Tables.{HasTables}

-- The first of the keys with the least cost.
unfoldable pub least : {K : Type 0} → K → Cost → Dict K Cost → K
least best cost [] = best
least best cost ((k, v) ∷ mapping) =
    let before = least best cost mapping in
    let now = least k v mapping in if cheaper v cost then now else before

-- `argmin`; `min` raises on an empty dictionary.
unfoldable pub argmin : {K : Type 0} → Dict K Cost → Result K
unfolding least
argmin [] = err value_error
argmin ((k, v) ∷ mapping) = ok (least k v mapping)

-- Plans are keys, by their equality and the hash that goes with it.
instance abbrev pub plan_key : {E : Type 0} → Key (QueryPlan E)
plan_key = record {
  same = plan_eq;
  same_refl = plan_eq_refl;
  same_sym = λ t u h. (plan_eq_lem t u u h (plan_eq_refl u)).1;
  same_trans = λ t u v h g. (plan_eq_lem t u v h g).2;
}

module _ {C E : Type 0} ⦃key : Key E⦄ ⦃source : HasTables E⦄ (planner : Planner C E)
    (estimate : List TableReference → Cardinality) where
  open planner use {is_pg_cost, pg_cost_estimate}

  -- `{plan: self._pg_cost_estimate(plan) for plan in plans}`, onto the entries before.
  unfoldable pub plan_costs : List (QueryPlan E) → Dict (QueryPlan E) Cost → Dict (QueryPlan E) Cost
  unfolding put
  plan_costs [] costs = costs
  plan_costs (t ∷ plans) costs = plan_costs plans (put t (pg_cost_estimate t) costs)

  -- The choice of the plan, from the relation for all tables.
  unfoldable pub choose_plan : Rel planner → Result (QueryPlan E)
  unfolding generate_pseudo_gather_paths argmin plan_costs
  choose_plan final_rel = elim final_rel.cheapest_path [
    | none ↦ err assertion_error
    | some cheapest_path ↦
        if is_pg_cost
        then (generate_pseudo_gather_paths planner final_rel >>= λ gathered.
            argmin (plan_costs (final_rel.pathlist ++ gathered) []))
        else ok cheapest_path
  ]

  -- `generate_execution_plan`, for the tables of the query.
  unfoldable pub generate_execution_plan : List TableReference → Result (QueryPlan E)
  unfolding init_base_rels set_base_rel_pathlists search_joins choose_plan
  generate_execution_plan tables =
      let c = construction planner estimate in
      set_base_rel_pathlists planner (init_base_rels (view planner) (quiet c) tables)
      >>= λ base_rels.
          search_joins (view planner) c base_rels >>= λ final_rel. choose_plan final_rel
